-- ===== src/Program/Tests.antt =====
-- The theorems of the program's start, at a new database.
use yggmail.Base.{ℕ, suc, zero, ◌≡◌, refl, Bool, true, false, List, [], ◌∷◌, some, any, arith}
use yggmail.Exec.{ok, err, panic, unexpected_mode, ◌>>=◌}
use yggmail.Storage.Types.{World, Db, is_mailbox}
use yggmail.Storage.Config.{config_try_password, config_get, config_get_stmt, config_set_stmt}
use yggmail.Storage.Integrity.Operations.{Sound}
use yggmail.Storage.Samples.{no_tables, healthy, plain_compare, mailbox_row}
use yggmail.Transport.{Libraries, set_up, new_yggdrasil_transport}
use yggmail.Program.Start.{Options, Config, Surroundings, exits, serves, main}
use yggmail.Program.Keeps.{main-Untouched}
use yggmail.Program.Identity.{IsPrivateKey, key_row, HasKey}
use yggmail.Program.Identity.Restarts.{Launch, launch, launches, identity_new, key_stays}
use yggmail.Program.Password.{with_mailboxes, new_password_lem}
use yggmail.Smtp.Login.{smtp_login}
use yggmail.Program.Services.{local_server, overlay_server, imap_auth_login, local_auth_login}
use yggmail.Program.Services.Logins.{auth_login_panics}
use yggmail.Program.Serving.{serves_after, start_serves}
use yggmail.Utils.Hex.{encode_hex}
use yggmail.Utils.Address.{parse_address, last_index}
use yggmail.Storage.Writer.{statement}
use yggmail.Storage.Mailboxes.{mailboxes_create_stmt}

abbrev repeated : ℕ → ℕ → List ℕ
repeated zero b = []
repeated (suc n) b = b ∷ repeated n b

abbrev key : ℕ → List ℕ
key b = repeated 64 b

key-IsPrivateKey : IsPrivateKey (key 7)
key-IsPrivateKey = ground arith

-- Libraries that take everything.
abbrev working : Libraries
working = record {
  Conn = Unit;
  certificate = λ sk. ok tt;
  core = λ options. ok tt;
  compiles = λ s. true;
  multicast = λ options. ok tt;
  quic = ok tt;
  dial = λ host. ok tt;
  write = λ c bytes. ok tt;
}

-- Surroundings in which all goes well: a key of equal bytes, and a hash that is the password's text.
abbrev calm : ℕ → Surroundings
calm b = record {
  generated = ok (key b);
  public_half = λ sk. [];
  first_password = ok "secret";
  second_password = ok "secret";
  trim = λ s. s;
  hash_password = λ s. ok s;
  is_hash = λ s. true;
  libraries = working;
}

abbrev flags : Bool → Options
flags password = record {
  given = 1;
  multicast = true;
  password = password;
  passwordhash = "";
  peers = [];
  mcastregexp = ".*";
}

-- A database with an INBOX, whose first INSERT meets a `Begin` that fails.
abbrev faulty : World
faulty = record {
  tables = record no_tables { mailboxes = mailbox_row "INBOX" ∷ [] };
  faults = false ∷ true ∷ [];
  clock = 5;
}

main-Untouched_example :
    let v = (main (calm 7) (flags false) faulty).1 in
    Sound v
    × (v.tables.mails ≡ [])
    × (v.tables.queue ≡ [])
    × (any (is_mailbox "INBOX") v.tables.mailboxes ≡ true)
unfolding is_mailbox
main-Untouched_example = main-Untouched (calm 7) (flags false) faulty "INBOX" (ground arith) refl

-- The database after the first start.
abbrev after_first : Db
after_first = with_mailboxes (config_set_stmt "private_key" (encode_hex (key 7)) no_tables).1

first_serves :
    main (calm 7) (flags false) (healthy no_tables)
    ≡ (ok (serves (record { public_key = []; private_key = key 7 })), healthy after_first)
unfolding new_yggdrasil_transport set_up
first_serves =
    serves_after (calm 7) (flags false) (key 7) (healthy no_tables)
      (healthy (config_set_stmt "private_key" (encode_hex (key 7)) no_tables).1)
      (refl, refl, refl, refl) (identity_new (calm 7) (key 7) (healthy no_tables) refl refl refl)
      refl refl

after_first-HasKey : HasKey (key 7) after_first
unfolding config_set_stmt mailboxes_create_stmt is_mailbox
after_first-HasKey = refl

-- A later start with other surroundings.
abbrev again : Launch
again = record { around = calm 9; options = flags false; faults = [] }

-- It serves with the key of the first start, though another key would have been generated.
again_serves :
    (launch again (launches [] (main (calm 7) (flags false) (healthy no_tables)).1)).0
    ≡ ok (serves (record { public_key = []; private_key = key 7 }))
unfolding launch launches new_yggdrasil_transport set_up
again_serves =
    rw first_serves
      (start_serves (calm 9) (flags false) (key 7) (healthy after_first) (refl, refl, refl, refl)
        key-IsPrivateKey after_first-HasKey refl refl).0

key_stays_example : key 7 ≡ key 7
key_stays_example =
    key_stays (calm 7) (flags false) (key 7) (healthy no_tables) [] again
      (record { public_key = []; private_key = key 7 }) key-IsPrivateKey refl refl refl refl
      again_serves

abbrev with_key : World
with_key = healthy (record no_tables { config = key_row (key 7) ∷ [] })

new_password_lem_example :
    ((main (calm 7) (flags true) with_key).0 ≡ ok (exits 0))
    × ((config_try_password plain_compare "secret" (main (calm 7) (flags true) with_key).1).0
        ≡ ok true)
new_password_lem_example =
    new_password_lem (calm 7) plain_compare (flags true) (key 7) "secret" "secret" "secret" with_key
      refl refl key-IsPrivateKey refl refl refl refl refl refl

start_serves_example :
    let r = main (calm 9) (flags false) with_key in
    (r.0 ≡ ok (serves (record { public_key = []; private_key = key 7 })))
    × (any (is_mailbox "INBOX") r.1.tables.mailboxes ≡ true)
    × (any (is_mailbox "Outbox") r.1.tables.mailboxes ≡ true)
unfolding new_yggdrasil_transport set_up
start_serves_example =
    start_serves (calm 9) (flags false) (key 7) with_key (refl, refl, refl, refl) key-IsPrivateKey
      refl refl refl

-- A node with no password set, and a user name that is no address.
auth_login_panics_example :
    let config : Config = record { public_key = 9 ∷ []; private_key = key 7 } in
    (imap_auth_login config plain_compare "me" "secret" (healthy no_tables)
      ≡ (panic, healthy no_tables))
    × (local_auth_login config plain_compare "localhost:1025" "me" "secret" (healthy no_tables)
        ≡ (panic, healthy no_tables))
    × (smtp_login plain_compare
          (9 ∷ [])
          (local_server config "localhost:1025").mode
          (some "::1")
          "me"
          "secret"
          (healthy no_tables)
        ≡ (ok tt, healthy no_tables))
    × (smtp_login plain_compare
          (9 ∷ [])
          (overlay_server config).mode
          (some "::1")
          "me"
          "secret"
          (healthy no_tables)
        ≡ (err unexpected_mode, healthy no_tables))
unfolding parse_address last_index config_try_password config_get config_get_stmt statement ◌>>=◌
auth_login_panics_example =
    auth_login_panics (record { public_key = 9 ∷ []; private_key = key 7 }) plain_compare
      "localhost:1025" "::1" "me" "secret" (healthy no_tables) (healthy no_tables) tt refl
