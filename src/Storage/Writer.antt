-- ===== src/Storage/Writer.antt =====
-- internal/storage/sqlite3/sqlite3.go: how a statement reaches the engine, and `Writer.Do`.
use yggmail.Base.{Bool, List, [], ◌∷◌, if◌then◌else◌}
use yggmail.Exec.{Result, ok, err, engine_fault, Exec}
use yggmail.Storage.Types.{Db, World}

-- A call into the engine fails when the next item says so, and is then without effect.
abbrev on_engine {ℓ} : {A : Type ℓ} → List Bool → (World → A) → (World → A) → World → A
on_engine [] works fails w = works w
on_engine (b ∷ rest) works fails w =
    let w' = record w { faults = rest } in if b then fails w' else works w'

abbrev on_tables : {A : Type 0} → World → Result A × Db → Result A × World
on_tables w (r, db) = (r, record w { tables = db })

-- A prepared statement: its effect on the tables, or an error of the engine.
unfoldable pub statement : {A : Type 0} → (Db → Result A × Db) → Exec World A
statement sql w =
    on_engine w.faults (λ v. on_tables v (sql v.tables)) (λ v. (err engine_fault, v)) w

-- `Writer.Do(db, nil, f)`, as `run` serves it. Where `Begin` fails, `run` closes the task's channel
-- without a value, so `Do` reads a nil error and `f` was never called: the caller's captured
-- variable keeps its `initial` value. The statements of `f` do not run on the transaction, so
-- `Commit` and `Rollback` have nothing to decide, and `run` ignores their errors.
unfoldable pub writer_do : {A : Type 0} → A → Exec World A → Exec World A
writer_do initial f w = on_engine w.faults f (λ v. (ok initial, v)) w
