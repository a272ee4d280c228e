-- ===== src/Program/Services.antt =====
-- The servers that `main` of cmd/yggmail/main.go starts, with internal/imapserver/imap.go.
pub mod Logins
use yggmail.Base.{ℕ, ◌*◌, String, Bool, true, false, List, [], ◌∷◌, Option, none, some}
use yggmail.Exec.{Exec, Done, pure, ◌>>=◌, ◌>>◌}
use yggmail.Storage.Types.{World}
use yggmail.Utils.Hex.{encode_hex}
use yggmail.Smtp.Login.{BackendMode, internal, external, imap_login, smtp_login}
use yggmail.Program.Start.{Config}

-- What `NewIMAPServer` sets of a server of the IMAP library.
pub record ImapServer : Type 0 where
  pub addr : String
  pub allow_insecure_auth : Bool
  pub extensions : List String
  pub auth : List String

-- What `main` sets of a server of the SMTP library, and the mode of its backend. A server without an
-- address of its own takes the connections of the transport.
pub record SmtpServer : Type 0 where
  pub mode : BackendMode
  pub addr : Option String
  pub domain : String
  pub max_message_bytes : ℕ
  pub max_recipients : ℕ
  pub allow_insecure_auth : Bool
  pub auth_disabled : Bool
  pub auth : List String

unfoldable pub new_imap_server : String → Bool → ImapServer
new_imap_server addr insecure = record {
  addr = addr;
  allow_insecure_auth = insecure;
  extensions = "IDLE" ∷ "MOVE" ∷ [];
  auth = "LOGIN" ∷ [];
}

module _ (config : Config) where
  unfoldable pub local_server : String → SmtpServer
  local_server smtpaddr = record {
    mode = internal;
    addr = some smtpaddr;
    domain = encode_hex config.public_key;
    max_message_bytes = 1024 * 1024 * 32;
    max_recipients = 50;
    allow_insecure_auth = true;
    auth_disabled = false;
    auth = "LOGIN" ∷ [];
  }

  unfoldable pub overlay_server : SmtpServer
  overlay_server = record {
    mode = external;
    addr = none;
    domain = encode_hex config.public_key;
    max_message_bytes = 1024 * 1024 * 32;
    max_recipients = 50;
    allow_insecure_auth = false;
    auth_disabled = true;
    auth = [];
  }

  -- The authenticator of AUTH LOGIN, on the IMAP side and on the local SMTP side: each calls the
  -- backend's `Login` with nil for the connection.
  module _ (compare : String → String → Bool) where
    unfoldable pub imap_auth_login : String → String → Exec World Done
    imap_auth_login username password = do
      imap_login compare config.public_key none username password
      pure tt

    unfoldable pub local_auth_login : String → String → String → Exec World Done
    local_auth_login smtpaddr username password =
        smtp_login compare config.public_key (local_server smtpaddr).mode none username password
