-- ===== src/Smtp/Tests.antt =====
-- The theorems on the sessions at sample names, keys and tables.
use yggmail.Base.{
  ℕ, true, false, ◌≡◌, refl, List, [], ◌∷◌, some, none, Option, String, ◌≢◌, inl, count_if, Bool,
  str_eq, ◌&&◌, ◌⊎◌,
}
use yggmail.Exec.{ok}
use yggmail.Storage.Types.{World, in_mailbox}
use yggmail.Storage.Writer.{statement}
use yggmail.Storage.Config.{config_try_password, config_get, config_get_stmt}
use yggmail.Storage.Samples.{healthy, in_use}
use yggmail.Utils.Hex.{encode_hex, decode_hex, hex_value, hex_digit}
use yggmail.Utils.Address.{parse_address, last_index, local_part, slice_to, slice_from, copy_into}
use yggmail.Smtp.Login.{external, anonymous_login, imap_login}
use yggmail.Smtp.Login.Identity.{
  LocalCommand, IsOwn, run_commands, run_commands-IsOwn, Passes, anonymous_login_lem,
  remote_mail_lem, imap_login_lem,
}
use yggmail.Smtp.Local.{MessageLib}
use yggmail.Smtp.Remote.{
  SessionRemote, remote_mail, remote_from, remote_data, notify_new, stamp_remote,
}
use yggmail.Smtp.Remote.Storing.{remote_data_drops}

let_in : anonymous_login external "0aff" "0aff" ≡ ok (10 ∷ 255 ∷ [])
unfolding anonymous_login decode_hex encode_hex hex_value hex_digit
let_in = refl

anonymous_login_lem_example :
    (external ≡ external)
    × (decode_hex "0aff" ≡ ok (10 ∷ 255 ∷ []))
    × ("0aff" ≡ encode_hex (10 ∷ 255 ∷ []))
anonymous_login_lem_example = anonymous_login_lem external "0aff" "0aff" (10 ∷ 255 ∷ []) let_in

abbrev peer : SessionRemote
peer = record {
  remote_addr = "0100000000000000000000000000000000000000000000000000000000000000";
  public_key = 9 ∷ [];
  from = "";
}

taken : (remote_mail "01@yggmail" peer).0 ≡ ok tt
unfolding remote_mail remote_from parse_address last_index local_part slice_to slice_from copy_into
    decode_hex encode_hex hex_value hex_digit
taken = refl

remote_mail_lem_example :
    (pk : List ℕ) × (parse_address "01@yggmail" ≡ ok pk)
    × (encode_hex pk ≡ peer.remote_addr)
    × ((remote_mail "01@yggmail" peer).1 ≡ record peer { from = "01@yggmail" })
remote_mail_lem_example = remote_mail_lem "01@yggmail" peer taken

abbrev commands : List LocalCommand
commands =
    LocalCommand.mail_from "someone@example"
    ∷ LocalCommand.rcpt_to "you@yggmail"
    ∷ LocalCommand.mail_from "01@yggmail"
    ∷ LocalCommand.rset
    ∷ []

new_session : IsOwn (9 ∷ []) ""
unfolding IsOwn
new_session = inl refl

run_commands-IsOwn_example :
    IsOwn (9 ∷ []) (run_commands (9 ∷ []) commands (record { from = ""; rcpt = [] })).from
run_commands-IsOwn_example =
    run_commands-IsOwn (9 ∷ []) commands (record { from = ""; rcpt = [] }) new_session

-- A connection of the machine itself.
abbrev here : Option String
here = some "::1"

-- The tables with the stored password "hash", which accepts the password "secret" alone.
abbrev with_password : World
with_password =
    healthy (record in_use { config = record { key = "password"; value = "hash" } ∷ [] })

abbrev only_secret : String → String → Bool
only_secret hash password = str_eq hash "hash" && str_eq password "secret"

logged_in : (imap_login only_secret (9 ∷ []) here "me" "secret" with_password).0 ≡ ok "09"
unfolding imap_login config_try_password config_get config_get_stmt statement parse_address
    last_index encode_hex hex_digit
logged_in = refl

imap_login_lem_example :
    Passes (9 ∷ []) (parse_address "me")
    × ("09" ≡ encode_hex (9 ∷ []))
    × (here ≢ none)
    × (hash : String) × ((config_get "password" with_password).0 ≡ ok hash)
    × ((hash ≡ "") ⊎ (only_secret hash "secret" ≡ true))
imap_login_lem_example =
    imap_login_lem only_secret (9 ∷ []) here "me" "secret" "09" with_password logged_in

-- A message is its bytes, and a header adds none.
abbrev bare : MessageLib
bare = record {
  Entity = List ℕ;
  read = some;
  add = λ key value m. m;
  has = λ key m. false;
  write = some;
}

stamped : bare.write (stamp_remote bare "from" "now" (5 ∷ [])) ≡ some (5 ∷ [])
unfolding stamp_remote
stamped = refl

remote_data_drops_example :
    remote_data bare "from" "now" []
      (5 ∷ [])
      (record { tables = in_use; faults = true ∷ []; clock = 3 })
    ≡ (
      ok (notify_new [] 0 (count_if (in_mailbox "INBOX") in_use.mails)),
      record { tables = in_use; faults = []; clock = 3 },
    )
remote_data_drops_example =
    remote_data_drops bare "from" "now" [] (5 ∷ []) (5 ∷ []) (5 ∷ []) in_use 3 refl stamped
