-- ===== src/Storage/Integrity/Rules.antt =====
-- From statements on the tables to calls of the engine: rules for an invariant of the tables.
use yggmail.Base.{◌≡◌, Bool, true, false, List, [], ◌∷◌}
use yggmail.Exec.{Result, Exec}
use yggmail.Exec.Preserves.{Preserves}
use yggmail.Storage.Types.{Db, World}
use yggmail.Storage.Writer.{statement, writer_do}

abbrev pub OnTables : (Db → Type 0) → World → Type 0
OnTables P w = P w.tables

module _ {A : Type 0} (P : Db → Type 0) where
  on_list :
      (faults : List Bool) (w : World) (sql : Db → Result A × Db)
      → ((db : Db) → P db → P (sql db).1)
      → P w.tables
      → P (statement sql (record w { faults = faults })).1.tables
  unfolding statement
  on_list [] w sql keeps h = keeps w.tables h
  on_list (true ∷ rest) w sql keeps h = h
  on_list (false ∷ rest) w sql keeps h = keeps w.tables h

  pub Preserves-statement :
      (sql : Db → Result A × Db)
      → ((db : Db) → P db → P (sql db).1)
      → Preserves (OnTables P) (statement sql)
  Preserves-statement sql keeps = record { from_state = λ w h. on_list w.faults w sql keeps h }

  begun :
      (faults : List Bool) (w : World) (initial : A) (f : Exec World A)
      → Preserves (OnTables P) f
      → P w.tables
      → P (writer_do initial f (record w { faults = faults })).1.tables
  unfolding writer_do
  begun [] w initial f keeps h = keeps.from_state (record w { faults = [] }) h
  begun (true ∷ rest) w initial f keeps h = h
  begun (false ∷ rest) w initial f keeps h = keeps.from_state (record w { faults = rest }) h

  pub Preserves-writer_do :
      (initial : A) (f : Exec World A)
      → Preserves (OnTables P) f
      → Preserves (OnTables P) (writer_do initial f)
  Preserves-writer_do initial f keeps = record {
    from_state = λ w h. begun w.faults w initial f keeps h;
  }

  -- A statement that only reads.
  pub Preserves-read :
      (sql : Db → Result A × Db)
      → ((db : Db) → (sql db).1 ≡ db)
      → Preserves (OnTables P) (statement sql)
  Preserves-read sql same = Preserves-statement sql (λ db h. rw (same db) h)
