-- ===== src/Program/Identity.antt =====
-- The key of the node in the database: what keeps it and how it is read.
pub mod Restarts
use yggmail.Base.{
  ℕ, String, ◌≡◌, refl, sym, ◌∙◌, ap, ◌⊎◌, inl, inr, Bool, true, false, List, [], ◌∷◌, ◌++◌, Option,
  none, some, not, arith, find, filter, str_eq, eq_iff, eq_refl, length, All, ◌==◌, Bool-cases,
  if◌then◌else◌,
}
use yggmail.Exec.{
  Error, engine_fault, Result, ok, err, panic, Exec, Done, Tried, done, failed, pure, attempt, lift,
  resume, ◌>>=◌, ◌>>◌,
}
use yggmail.Exec.Preserves.{Preserves, Preserves-bind, Preserves-pure}
use yggmail.Storage.Types.{ConfigRow, World, Db}
use yggmail.Storage.Config.{
  config_get, config_get_stmt, config_set, config_set_stmt, config_set_password, value_or_empty,
}
use yggmail.Storage.Mailboxes.{mailbox_create, mailboxes_create_stmt}
use yggmail.Storage.Writer.{statement, writer_do}
use yggmail.Storage.Integrity.Rules.{OnTables, Preserves-statement, Preserves-writer_do}
use yggmail.Utils.Hex.{encode_hex, decode_hex, IsByte, decode-encode}
use yggmail.Utils.Address.{copy_into}
use yggmail.Utils.Address.Laws.{copy_into-length}
use yggmail.Program.Start.{
  Options, Outcome, exits, serves, Config, Surroundings, value_or_panic, or_panic, private_key_size,
  exit_after, store_password, identity, create_mailboxes, new_password, serve, serve_after,
  new_hash, act, main,
}
use yggmail.Program.Keeps.{Kept, rest-Kept}

-- A private key as `GenerateKey` gives it.
abbrev pub IsPrivateKey : List ℕ → Type 0
IsPrivateKey sk = (length sk ≡ private_key_size) × All IsByte sk

abbrev pub stored : String → List ConfigRow → Option ConfigRow
stored key rows = find (λ r. str_eq key r.key) rows

abbrev pub key_row : List ℕ → ConfigRow
key_row sk = record { key = "private_key"; value = encode_hex sk }

-- The database holds this private key.
abbrev pub HasKey : List ℕ → Db → Type 0
HasKey sk db = stored "private_key" db.config ≡ some (key_row sk)

pub find-replace :
    (r : ConfigRow) (rows : List ConfigRow)
    → stored r.key (filter (λ q. not (str_eq r.key q.key)) rows ++ r ∷ []) ≡ some r
find-replace r [] = rw (eq_refl r.key) refl
find-replace r (q ∷ rows) = elim (Bool-cases (str_eq r.key q.key)) [
  | inl e ↦ rw e (find-replace r rows)
  | inr e ↦ rw (e, e) (find-replace r rows)
]

find-other :
    (x : ConfigRow) (hash : String) (rows : List ConfigRow)
    → stored "private_key" rows ≡ some x
    → stored "private_key" (
        filter (λ q. not (str_eq "password" q.key)) rows
        ++ record { key = "password"; value = hash } ∷ [])
      ≡ some x
find-other x hash [] h = cc
find-other x hash (q ∷ rows) h = elim (Bool-cases (str_eq "private_key" q.key)) [
  | inl e ↦
      let p : "private_key" ≡ q.key = (eq_iff _ _).0 e in
      let n : str_eq "password" q.key ≡ false = rw (sym p) refl in rw (n, e) (rw e at h)
  | inr e ↦ elim (Bool-cases (str_eq "password" q.key)) [
    | inl n ↦ rw n (find-other x hash rows (rw e at h))
    | inr n ↦ rw (n, e) (find-other x hash rows (rw e at h))
  ]
]

create-HasKey :
    (sk : List ℕ) (name : String) (db : Db)
    → HasKey sk db
    → HasKey sk (mailboxes_create_stmt name db).1
unfolding mailboxes_create_stmt
create-HasKey sk name db h = ground arith

pub calls-HasKey : (sk : List ℕ) → Kept (OnTables (HasKey sk))
unfolding config_set config_set_password mailbox_create config_set_stmt
calls-HasKey sk = record {
  set_password = λ hash.
      Preserves-writer_do _ tt _
        (Preserves-statement (HasKey sk) _ (λ db h. find-other (key_row sk) hash db.config h));
  create = λ name.
      Preserves-writer_do _ tt _
        (Preserves-statement (HasKey sk) _ (λ db h. create-HasKey sk name db h));
}

pub encode_hex-nonempty : (sk : List ℕ) → IsPrivateKey sk → str_eq (encode_hex sk) "" ≡ false
unfolding decode_hex
encode_hex-nonempty [] h = absurd (omega arith)
encode_hex-nonempty (b ∷ bytes) h = elim (Bool-cases (str_eq (encode_hex (b ∷ bytes)) "")) [
  | inl e ↦
      let q : ok (b ∷ bytes) ≡ ok [] =
        sym (decode-encode (b ∷ bytes) h.1) ∙ ap decode_hex ((eq_iff _ "").0 e) in
      cc
  | inr e ↦ e
]

pub read_row :
    (r : ConfigRow) (db : Db)
    → stored r.key db.config ≡ some r
    → config_get_stmt r.key db ≡ (ok r.value, db)
unfolding config_get_stmt
read_row r db h = rw (h, config_get_stmt) refl

-- Reading the key gives it, or the engine fails.
config_get_at :
    (sk : List ℕ) (faults : List Bool) (w : World)
    → HasKey sk w.tables
    → let r = config_get "private_key" (record w { faults = faults }) in
      ((r.0 ≡ ok (encode_hex sk)) ⊎ ((e : Error) × (r.0 ≡ err e))) × HasKey sk r.1.tables
unfolding config_get statement ◌>>=◌
config_get_at sk [] w h = rw (read_row (key_row sk) w.tables h) (inl refl, h)
config_get_at sk (true ∷ rest) w h = (inr (engine_fault, refl), h)
config_get_at sk (false ∷ rest) w h = rw (read_row (key_row sk) w.tables h) (inl refl, h)

pub identity_from :
    (around : Surroundings) (sk : List ℕ) (w : World) (p : Result String × World)
    → IsPrivateKey sk
    → config_get "private_key" w ≡ p
    → (p.0 ≡ ok (encode_hex sk)) ⊎ ((e : Error) × (p.0 ≡ err e))
    → ((identity around w ≡ (ok sk, p.1))) ⊎ (identity around w ≡ (panic, p.1))
unfolding identity or_panic ◌>>=◌
identity_from around sk w (ok s, v) k q (inl e) =
    let e' : s ≡ encode_hex sk = cc in
    inl (
      rw (q, identity)
        (rw e' (
          rw (encode_hex-nonempty sk k)
            (rw (decode-encode sk k.1) (rw (copy_into-length private_key_size sk k.0) refl)))))
identity_from around sk w (ok s, v) k q (inr (e, h)) = cc
identity_from around sk w (err x, v) k q c = inr (rw (q, identity) refl)
identity_from around sk w (panic, v) k q c = inr (rw (q, identity) refl)

-- Where the key is stored, `identity` gives that key or panics, and the key stays stored.
pub identity_known :
    (around : Surroundings) (sk : List ℕ) (w : World)
    → IsPrivateKey sk
    → HasKey sk w.tables
    → ((identity around w ≡ (ok sk, (config_get "private_key" w).1))
        ⊎ (identity around w ≡ (panic, (config_get "private_key" w).1)))
      × HasKey sk (config_get "private_key" w).1.tables
identity_known around sk w k h =
    let (c, kept) = config_get_at sk w.faults w h in
    (identity_from around sk w (config_get "private_key" w) k refl c, kept)
