-- ===== src/Program/Services/Logins.antt =====
-- Logins at the servers of a node.
use yggmail.Base.{
  String, ◌≡◌, refl, Bool, true, List, Option, none, some, ℕ, bytes_eq_iff, if◌then◌else◌,
}
use yggmail.Exec.{
  bad_password, wrong_identity, Result, ok, err, panic, unexpected_mode, fail, attempt, lift, ◌>>=◌,
}
use yggmail.Storage.Types.{World}
use yggmail.Storage.Config.{config_try_password}
use yggmail.Utils.Hex.{encode_hex}
use yggmail.Utils.Address.{parse_address}
use yggmail.Smtp.Login.{imap_login, smtp_login, log_login, username_fits}
use yggmail.Smtp.Login.Identity.{Passes}
use yggmail.Program.Start.{Config}
use yggmail.Program.Services.{local_server, overlay_server, imap_auth_login, local_auth_login}

module _ (compare : String → String → Bool) (public_key : List ℕ) where
  -- What both logins come to where the password is right.
  admitted :
      {A : Type 0} (a : A) (conn : Option String) (r : Result (List ℕ)) (password : String)
      (w v : World)
      → Passes public_key r
      → config_try_password compare password w ≡ (ok true, v)
      → (attempt (lift r) >>= λ parsed.
            if username_fits public_key parsed
            then (config_try_password compare password >>= λ authed.
                if authed then log_login conn a else fail bad_password)
            else fail wrong_identity)
          w
        ≡ log_login conn a v
  unfolding ◌>>=◌
  admitted a conn (ok pk) password w v p q = rw ((bytes_eq_iff pk public_key).1 p, q) refl
  admitted a conn (err e) password w v p q = rw q refl
  admitted a conn panic password w v p q = absurd p

-- At each server's AUTH LOGIN, a user name and a password that the backend would take over a known
-- connection bring on a panic; over the known connection the SMTP backend takes them, and the overlay
-- server's backend never does.
pub auth_login_panics :
    (config : Config) (compare : String → String → Bool) (smtpaddr addr username password : String)
    (w v : World)
    → Passes config.public_key (parse_address username)
    → config_try_password compare password w ≡ (ok true, v)
    → (imap_auth_login config compare username password w ≡ (panic, v))
      × (local_auth_login config compare smtpaddr username password w ≡ (panic, v))
      × (smtp_login compare config.public_key
            (local_server config smtpaddr).mode
            (some addr)
            username
            password
            w
          ≡ (ok tt, v))
      × (smtp_login compare config.public_key
            (overlay_server config).mode
            (some addr)
            username
            password
            w
          ≡ (err unexpected_mode, w))
unfolding imap_auth_login local_auth_login local_server overlay_server imap_login smtp_login ◌>>=◌
auth_login_panics config compare smtpaddr addr username password w v p q =
    let key = config.public_key in
    (
      rw (admitted compare key (encode_hex key) none (parse_address username) password w v p q)
          refl,
      admitted compare key tt none (parse_address username) password w v p q,
      admitted compare key tt (some addr) (parse_address username) password w v p q,
      refl,
    )
