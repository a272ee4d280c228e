-- ===== src/Imap/Mailbox.antt =====
-- The methods of `Mailbox` in internal/imapserver/mailbox.go, but for `ListMessages`.
pub mod Flags
pub mod Create
pub mod Counts
use yggmail.Base.{
  ℕ, String, Bool, true, false, List, [], ◌∷◌, str_eq, if◌then◌else◌, ℤ, pos, u32, Option, none,
  some, ◌||◌,
}
use yggmail.Exec.{
  Result, ok, err, panic, protected, Exec, Done, pure, fail, crash, attempt, for_each, lift, ◌>>=◌,
  ◌>>◌,
}
use yggmail.Storage.Types.{Mail, World}
use yggmail.Storage.Engine.{Engine}
use yggmail.Storage.Mailboxes.{mailbox_subscribe}
use yggmail.Storage.Mails.{
  mail_create, mail_select, mail_search, mail_next_id, mail_unseen, mail_update_flags, mail_expunge,
  mail_count, mail_move,
}
use yggmail.Storage.Queue.{queue_delete_destination_for_id}
use yggmail.Imap.Types.{
  Seq, FlagsOp, set_flags, remove_flags, StatusItem, messages, uid_next, uid_validity, recent,
  unseen, other, MailboxStatus,
}
use yggmail.Imap.SeqSet.{get_ids_from_seq_set}

pub record MailboxInfo : Type 0 where
  pub attributes : List String
  pub delimiter : String
  pub name : String

-- `Info`; `Name` is the name itself.
unfoldable pub info : String → Exec World MailboxInfo
info name = pure (record { attributes = []; delimiter = "/"; name = name })

-- `Check`
unfoldable pub check : String → Exec World Done
check name = pure tt

-- One round of the loop of `Status`.
unfoldable pub status_item : String → StatusItem → MailboxStatus → Exec World MailboxStatus
status_item name messages status = do
  count ← mail_count name
  pure (record status { messages = u32 count })
status_item name uid_next status = do
  id ← mail_next_id name
  pure (record status { uid_next = u32 id })
status_item name uid_validity status = pure (record status { uid_validity = 1 })
status_item name recent status = pure (record status { recent = 0 })
status_item name unseen status = do
  count ← mail_unseen name
  pure (record status { unseen = u32 count })
status_item name other status = pure status

unfoldable pub status_items : String → List StatusItem → MailboxStatus → Exec World MailboxStatus
status_items name [] status = pure status
status_items name (item ∷ items) status = do
  next ← status_item name item status
  status_items name items next

unfoldable pub status : String → List StatusItem → Exec World MailboxStatus
unfolding status_items
status name items =
    status_items name items
      (record { messages = 0; uid_next = 0; uid_validity = 0; recent = 0; unseen = 0 })

unfoldable pub set_subscribed : String → Bool → Exec World Done
set_subscribed name subscribed = mailbox_subscribe name subscribed

-- The criteria are not read.
unfoldable pub search_messages : String → Exec World (List ℕ)
search_messages name = mail_search name

-- `op != imap.RemoveFlags`
abbrev pub raises : FlagsOp → Bool
raises remove_flags = false
raises _ = true

-- One round of the loop over the flags.
unfoldable pub apply_flag : FlagsOp → String → Mail → Mail
apply_flag op flag m =
    if str_eq flag "\\Seen"
    then record m { seen = raises op }
    else if str_eq flag "\\Answered"
    then record m { answered = raises op }
    else if str_eq flag "\\Flagged"
    then record m { flagged = raises op }
    else if str_eq flag "\\Deleted"
    then record m { deleted = raises op }
    else m

unfoldable pub apply_flags : FlagsOp → List String → Mail → Mail
unfolding apply_flag
apply_flags op [] m = m
apply_flags op (flag ∷ flags) m = apply_flags op flags (apply_flag op flag m)

-- The flags that the `switch` of the loop names.
unfoldable pub is_system : String → Bool
is_system flag =
    str_eq flag "\\Seen"
    || str_eq flag "\\Answered"
    || str_eq flag "\\Flagged"
    || str_eq flag "\\Deleted"

-- A round on the pointer `mail`: of a nil one, only a field that is written panics.
unfoldable pub change_flag : FlagsOp → String → Option Mail → Result (Option Mail)
change_flag op flag none = if is_system flag then panic else ok none
change_flag op flag (some m) = ok (some (apply_flag op flag m))

unfoldable pub change_flags : FlagsOp → List String → Option Mail → Result (Option Mail)
unfolding change_flag
change_flags op [] mail = ok mail
change_flags op (flag ∷ flags) mail = elim (change_flag op flag mail) [
  | ok changed ↦ change_flags op flags changed
  | err e ↦ err e
  | panic ↦ panic
]

-- Reading `mail.ID` of a nil pointer panics.
unfoldable pub write_flags : String → Option Mail → Exec World Done
write_flags name none = crash
write_flags name (some mail) =
    mail_update_flags name (pos mail.id) mail.seen mail.answered mail.flagged mail.deleted

-- Each flag is written by itself, with the other three cleared.
unfoldable pub create_flag : String → ℕ → String → Exec World Done
create_flag name id flag =
    mail_update_flags name (pos id) (str_eq flag "\\Seen") (str_eq flag "\\Answered")
      (str_eq flag "\\Flagged") (str_eq flag "\\Deleted")

-- `body` is what `io.ReadAll` gives.
unfoldable pub create_message : String → List String → Result (List ℕ) → Exec World Done
create_message name flags (err e) = fail e
create_message name flags panic = crash
create_message name flags (ok body) = do
  id ← mail_create name body
  for_each flags (create_flag name id)

module _ (e : Engine) (name : String) where
  -- With `imap.SetFlags` no mail is read, and the pointer `mail` stays nil.
  unfoldable pub selected : FlagsOp → ℤ → Exec World (Option Mail)
  selected set_flags id = pure none
  selected op id = do found ← mail_select e name id; pure (some found.1)

  unfoldable pub update_one : FlagsOp → List String → ℤ → Exec World Done
  unfolding selected change_flags write_flags
  update_one op flags id = do
    mail ← selected op id
    changed ← lift (change_flags op flags mail)
    write_flags name changed

  unfoldable pub update_messages_flags :
      ℕ → Bool → List Seq → FlagsOp → List String → Exec World Done
  update_messages_flags room uid seq_set op flags = do
    ids ← get_ids_from_seq_set e name uid room seq_set
    for_each ids (update_one op flags)

  -- The flags are written to the new id in the source mailbox.
  unfoldable pub copy_one : String → ℤ → Exec World Done
  copy_one dest_name id = do
    found ← mail_select e name id
    let mail = found.1
    pid ← mail_create dest_name mail.mail
    mail_update_flags name (pos pid) mail.seen mail.answered mail.flagged mail.deleted

  unfoldable pub copy_messages : ℕ → Bool → List Seq → String → Exec World Done
  copy_messages room uid seq_set dest_name =
      if str_eq dest_name "Outbox"
      then fail protected
      else do ids ← get_ids_from_seq_set e name uid room seq_set; for_each ids (copy_one dest_name)

  -- The queue's own error is dropped.
  unfoldable pub move_one : String → ℤ → Exec World Done
  move_one dest id = do
    mail_move name id dest
    if str_eq name "Outbox"
        then (do attempt (queue_delete_destination_for_id "Outbox" id); pure tt)
        else pure tt

  unfoldable pub move_messages : ℕ → Bool → List Seq → String → Exec World Done
  move_messages room uid seq_set dest =
      if str_eq dest "Outbox"
      then fail protected
      else do ids ← get_ids_from_seq_set e name uid room seq_set; for_each ids (move_one dest)

unfoldable pub expunge : String → Exec World Done
expunge name = mail_expunge name
