-- ===== src/Smtp/Login.antt =====
-- Who may open a session: `Login` of internal/imapserver/backend.go and internal/smtpserver/backend.go,
-- and `AnonymousLogin`.
pub mod Identity
use yggmail.Base.{ℕ, String, Bool, true, List, Option, none, some, str_eq, if◌then◌else◌, bytes_eq}
use yggmail.Exec.{
  Tried, done, failed, Result, ok, err, panic, wrong_identity, bad_password, unexpected_mode, Exec,
  Done, pure, crash, fail, lift, attempt, ◌>>=◌,
}
use yggmail.Storage.Types.{World}
use yggmail.Storage.Config.{config_try_password}
use yggmail.Utils.Hex.{encode_hex, decode_hex}
use yggmail.Utils.Address.{parse_address}

pub data BackendMode : Type 0 where
  internal external : BackendMode

-- A user name that is an address must be the node's own; any other user name is passed over.
abbrev pub username_fits : List ℕ → Tried (List ℕ) → Bool
username_fits public_key (done pk) = bytes_eq pk public_key
username_fits public_key (failed e) = true

-- The deferred log line takes its arguments at once, the remote address among them; it is read
-- through a pointer that may be nil.
abbrev pub log_login : {A : Type 0} → Option String → A → Exec World A
log_login none a = crash
log_login (some remote_addr) a = pure a

-- `conn` and `state` are the remote address of the connection, where the pointer is not nil.
module _ (compare : String → String → Bool) (public_key : List ℕ) where
  -- The name of the user is the hexadecimal public key, whatever the client gave.
  unfoldable pub imap_login : Option String → String → String → Exec World String
  imap_login conn username password = do
    parsed ← attempt (lift (parse_address username))
    if username_fits public_key parsed
        then (do
          authed ← config_try_password compare password
          if authed then log_login conn (encode_hex public_key) else fail bad_password)
        else fail wrong_identity

  unfoldable pub smtp_login : BackendMode → Option String → String → String → Exec World Done
  smtp_login external state username password = fail unexpected_mode
  smtp_login internal state username password = do
    parsed ← attempt (lift (parse_address username))
    if username_fits public_key parsed
        then (do
          authed ← config_try_password compare password
          if authed then log_login state tt else fail bad_password)
        else fail wrong_identity

-- The peer's address on the overlay is its public key in hexadecimal, and its HELO name must be too.
unfoldable pub anonymous_login : BackendMode → String → String → Result (List ℕ)
anonymous_login internal remote_addr hostname = err unexpected_mode
anonymous_login external remote_addr hostname = elim (decode_hex remote_addr) [
  | ok pks ↦ if str_eq hostname (encode_hex pks) then ok pks else err wrong_identity
  | err e ↦ err e
  | panic ↦ panic
]
