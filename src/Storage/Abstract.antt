-- ===== src/Storage/Abstract.antt =====
-- What the mails of table_mails.go come to for a caller: a map from a mailbox and an id to a mail.
pub mod Rows
pub mod Move
pub mod Refines
pub mod Calls
use yggmail.Base.{
  ℕ, String, Bool, true, false, List, Option, none, some, ◌&&◌, find, str_eq, if◌then◌else◌, ℤ, pos,
  int_eq, ◌==◌, ◌≡◌, ◌⊎◌,
}
use yggmail.Exec.{Exec, Done, Result, ok, err, panic, pure, ◌>>=◌, ◌>>◌}
use yggmail.Storage.Types.{Mail, Db, World, is_mail}
use yggmail.Storage.Mails.{mail_create, mail_update_flags, mail_delete, mail_expunge, mail_move}

abbrev pub Mails : Type 0
Mails = String → ℕ → Option Mail

-- The map that the rows stand for.
abbrev pub look : Db → Mails
look db name id = find (is_mail name (pos id)) db.mails

pub data MailCall : Type 0 where
  create : String → List ℕ → MailCall
  update_flags : String → ℤ → Bool → Bool → Bool → Bool → MailCall
  delete : String → ℤ → MailCall
  expunge : String → MailCall
  move : String → ℤ → String → MailCall

-- The call, with the id that a new mail gets.
unfoldable pub run : MailCall → Exec World ℕ
run (create name bytes) = mail_create name bytes
run (update_flags name id seen answered flagged deleted) = do
  mail_update_flags name id seen answered flagged deleted
  pure 0
run (delete name id) = do mail_delete name id; pure 0
run (expunge name) = do mail_expunge name; pure 0
run (move name id destination) = do mail_move name id destination; pure 0

abbrev pub here : String → ℤ → String → ℕ → Bool
here name i n k = str_eq n name && int_eq i k

abbrev pub on_found : (Mail → Mail) → Option Mail → Option Mail
on_found f none = none
on_found f (some m) = some (f m)

abbrev pub unless_deleted : Option Mail → Option Mail
unless_deleted none = none
unless_deleted (some m) = if m.deleted then none else some m

abbrev pub set_flags : Bool → Bool → Bool → Bool → Mail → Mail
set_flags seen answered flagged deleted m = record m {
  seen = seen;
  answered = answered;
  flagged = flagged;
  deleted = deleted;
}

abbrev pub new_mail : String → List ℕ → ℕ → ℕ → Mail
new_mail name bytes id clock = record {
  mailbox = name;
  id = id;
  mail = bytes;
  date = clock;
  seen = false;
  answered = false;
  flagged = false;
  deleted = false;
}

-- What a call that succeeds makes of the map; `new` is the id that it gives.
unfoldable pub effect : MailCall → ℕ → ℕ → Mails → Mails
effect (create name bytes) new clock s n k =
    if here name (pos new) n k then some (new_mail name bytes new clock) else s n k
effect (update_flags name i seen answered flagged deleted) new clock s n k =
    if here name i n k then on_found (set_flags seen answered flagged deleted) (s n k) else s n k
effect (delete name i) new clock s n k =
    if here name i n k then on_found (λ m. record m { deleted = true }) (s n k) else s n k
effect (expunge name) new clock s n k = if str_eq n name then unless_deleted (s n k) else s n k
effect (move name i destination) new clock s n k =
    if str_eq destination name
    then s n k
    else if here destination i n k
    then (elim (s name k) [ none ↦ s n k | some m ↦ some (record m { mailbox = destination }) ])
    else if here name i n k
    then none
    else s n k

-- The id of a new mail has no mail before.
abbrev pub Free : MailCall → ℕ → Mails → Type 0
Free (create name bytes) new s = s name new ≡ none
Free _ new s = Unit

-- A call that gives an error leaves the map as it is.
abbrev pub Refined : MailCall → ℕ → Mails → Mails → Result ℕ → Type 0
Refined c clock s s' (ok new) =
    Free c new s × ((n : String) (k : ℕ) → s' n k ≡ effect c new clock s n k)
Refined c clock s s' (err e) = (n : String) (k : ℕ) → s' n k ≡ s n k
Refined c clock s s' panic = ⊥
