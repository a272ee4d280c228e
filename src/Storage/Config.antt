-- ===== src/Storage/Config.antt =====
-- internal/storage/sqlite3/table_config.go
use yggmail.Base.{
  String, Bool, true, [], ◌∷◌, ◌++◌, none, some, not, filter, find, str_eq, if◌then◌else◌,
}
use yggmail.Exec.{
  Result, ok, err, no_rows, is_no_rows, bad_password, Exec, Done, pure, fail, attempt, Tried, done,
  failed, ◌>>=◌,
}
use yggmail.Storage.Types.{Db, World}
use yggmail.Storage.Writer.{statement, writer_do}

-- `configGet`
unfoldable pub config_get_stmt : String → Db → Result String × Db
config_get_stmt key db = elim (find (λ r. str_eq key r.key) db.config) [
  | none ↦ (err no_rows, db)
  | some r ↦ (ok r.value, db)
]

-- `configSet`: INSERT OR REPLACE deletes the row with the key, if there is one.
unfoldable pub config_set_stmt : String → String → Db → Result Done × Db
config_set_stmt key value db = (
  ok tt,
  record db {
    config =
        filter (λ r. not (str_eq key r.key)) db.config ++ record { key = key; value = value } ∷ [];
  },
)

-- A missing key reads as the empty string.
abbrev pub value_or_empty : Tried String → Exec World String
value_or_empty (done value) = pure value
value_or_empty (failed e) = if is_no_rows e then pure "" else fail e

unfoldable pub config_get : String → Exec World String
unfolding config_get_stmt ◌>>=◌
config_get key = do r ← attempt (statement (config_get_stmt key)); value_or_empty r

unfoldable pub config_set : String → String → Exec World Done
unfolding config_set_stmt
config_set key value = writer_do tt (statement (config_set_stmt key value))

unfoldable pub config_set_password : String → Exec World Done
unfolding config_set
config_set_password password_hash = config_set "password" password_hash

-- `bcrypt.CompareHashAndPassword` is the parameter: whether the hash is that of the password.
unfoldable pub config_try_password : (String → String → Bool) → String → Exec World Bool
unfolding config_get ◌>>=◌
config_try_password compare password = do
  hash ← config_get "password"
  if str_eq hash ""
      then pure true
      else (if compare hash password then pure true else fail bad_password)
