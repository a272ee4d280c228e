-- ===== src/Imap/Tests.antt =====
-- The theorems on the backend at sample tables.
use yggmail.Base.{
  inl, ℕ, ◌-◌, ◌^◌, String, true, false, ◌≡◌, refl, any, List, [], ◌∷◌, ◌++◌, Option, none, arith,
  pos, update_if,
}
use yggmail.Exec.{ok, panic, ◌>>=◌}
use yggmail.Storage.Types.{
  same_mailbox, same_mail, same_entry, same_key, is_mailbox, owns, in_mailbox, is_mail,
}
use yggmail.Storage.Writer.{statement}
use yggmail.Storage.Mails.{mail_select, select_mail_stmt, next_id}
use yggmail.Storage.Integrity.{IsSound}
use yggmail.Storage.Integrity.Operations.{Sound}
use yggmail.Storage.Samples.{plain, healthy, in_use, unread}
use yggmail.Storage.Healthy.{with_mail, arrival}
use yggmail.Imap.Types
use yggmail.Imap.Mailbox.Counts.{report, status_lem}
use yggmail.Imap.Types.{StatusItem, Seq, add_flags, set_flags, FetchItem}
use yggmail.Imap.SeqSet.{range_ids, get_ids_from_seq_set, id_at, last_of}
use yggmail.Imap.SeqSet.Ranges.{ids_from, range_ids_uid, range_ids_endless}
use yggmail.Imap.Mailbox.{status, apply_flags, update_messages_flags, create_message, copy_one}
use yggmail.Imap.Mailbox.Flags.{expected, apply_flags_lem, update_messages_flags-set}
use yggmail.Imap.Mailbox.Create.{marked, like, create_message-last, copy_one-flags}
use yggmail.Imap.User.{rename_mailbox, is_protected}
use yggmail.Imap.User.Renaming.{rename_mailbox-fresh, rename_mailbox-reversed}
use yggmail.Imap.Requests.{Request, serve_all}
use yggmail.Imap.Requests.Invariants.{serve_all-Sound}
use yggmail.Imap.Requests.Protected.{Exists, serve_all-Exists}

in_use-IsSound : IsSound in_use
unfolding same_mailbox same_mail same_entry same_key is_mailbox owns
in_use-IsSound = ground arith

abbrev no_parts : FetchItem → List ℕ → Option (List ℕ)
no_parts item bytes = none

abbrev first_two : List Seq
first_two = record { start = 1; stop = 2 } ∷ []

abbrev session : List Request
session =
    Request.create_mailbox "Trips"
    ∷ Request.update_messages_flags "INBOX" 10 true first_two add_flags ("\\Deleted" ∷ [])
    ∷ Request.expunge "INBOX"
    ∷ Request.move_messages "INBOX" 10 false first_two "Trips"
    ∷ Request.delete_mailbox "INBOX"
    ∷ []

sound_sample : Sound (serve_all plain no_parts session (healthy in_use))
sound_sample = serve_all-Sound plain no_parts session (healthy in_use) in_use-IsSound

inbox_exists : Exists "INBOX" in_use
unfolding Exists is_mailbox
inbox_exists = refl

serve_all-Exists_example : Exists "INBOX" (serve_all plain no_parts session (healthy in_use)).tables
serve_all-Exists_example =
    serve_all-Exists "INBOX" plain no_parts session (healthy in_use) (inl refl) refl inbox_exists

range_ids_uid_example :
    range_ids plain "INBOX" true 8 3 5 (healthy in_use) ≡ (ok (ids_from 3 3), healthy in_use)
range_ids_uid_example =
    range_ids_uid plain "INBOX" 8 3 5 (healthy in_use) (omega arith) (omega arith)

range_ids_endless_example :
    (range_ids plain "INBOX" true 5 7 (2 ^ 32 - 1) (healthy in_use)).0 ≡ panic
range_ids_endless_example = range_ids_endless plain "INBOX" 5 7 (healthy in_use) (omega arith)

abbrev known : List String
known = "\\Flagged" ∷ "custom" ∷ "\\Seen" ∷ []

apply_flags_lem_example :
    apply_flags add_flags known (unread "INBOX" 1 [])
    ≡ expected add_flags known (unread "INBOX" 1 [])
apply_flags_lem_example = apply_flags_lem add_flags known (unread "INBOX" 1 [])

one_id :
    get_ids_from_seq_set plain "INBOX" true 3 (record { start = 1; stop = 1 } ∷ []) (healthy in_use)
    ≡ (ok (pos 1 ∷ []), healthy in_use)
unfolding get_ids_from_seq_set range_ids id_at last_of ◌>>=◌
one_id = refl

update_messages_flags-set_example :
    update_messages_flags plain "INBOX" 3 true
      (record { start = 1; stop = 1 } ∷ [])
      set_flags
      known
      (healthy in_use)
    ≡ (panic, healthy in_use)
update_messages_flags-set_example =
    update_messages_flags-set plain "INBOX" 3 true (record { start = 1; stop = 1 } ∷ []) known
      (healthy in_use) (healthy in_use) (pos 1) [] one_id

inbox_there : any (is_mailbox "INBOX") in_use.mailboxes ≡ true
unfolding is_mailbox
inbox_there = refl

last_sample :
    create_message "INBOX" ("\\Seen" ∷ "\\Flagged" ∷ []) (ok (5 ∷ [])) (healthy in_use) ≡ (
      ok tt,
      with_mail (healthy in_use) (marked "\\Flagged" (arrival "INBOX" (5 ∷ []) (healthy in_use))),
    )
last_sample =
    create_message-last "INBOX" (healthy in_use) refl ("\\Seen" ∷ []) "\\Flagged" (5 ∷ [])
      inbox_there

selected :
    mail_select plain "INBOX" (pos 4) (healthy in_use)
    ≡ (ok (2, unread "INBOX" 4 (9 ∷ [])), healthy in_use)
unfolding mail_select statement select_mail_stmt in_mailbox
selected = refl

work_there : any (is_mailbox "Work") in_use.mailboxes ≡ true
unfolding is_mailbox
work_there = refl

copy_one-flags_example : copy_one plain "INBOX" "Work" (pos 4) (healthy in_use) ≡ (
  ok tt,
  record (healthy in_use) {
    tables = record in_use {
      mails =
          update_if
            (is_mail "INBOX" (pos (next_id "Work" in_use.mails)))
            (like (unread "INBOX" 4 (9 ∷ [])))
            in_use.mails
          ++ arrival "Work" (9 ∷ []) (healthy in_use) ∷ [];
    };
  },
)
copy_one-flags_example =
    copy_one-flags plain "INBOX" "Work" (pos 4) 2 (unread "INBOX" 4 (9 ∷ [])) (healthy in_use)
      selected work_there (λ q. cc) refl

work_free : is_protected "Work" ≡ false
unfolding is_protected
work_free = refl

lost_free : is_protected "Lost" ≡ false
unfolding is_protected
lost_free = refl

no_lost : any (is_mailbox "Lost") in_use.mailboxes ≡ false
unfolding is_mailbox
no_lost = refl

rename_mailbox-fresh_example :
    rename_mailbox "Work" "Lost" (healthy in_use) ≡ (ok tt, healthy in_use)
rename_mailbox-fresh_example =
    rename_mailbox-fresh "Work" "Lost" (healthy in_use) work_free no_lost refl

reversed_sample :
    ((rename_mailbox "Lost" "INBOX" (healthy in_use)).0 ≡ ok tt)
    × (any (is_mailbox "INBOX") (rename_mailbox "Lost" "INBOX" (healthy in_use)).1.tables.mailboxes
        ≡ false)
    × (any (is_mailbox "Lost") (rename_mailbox "Lost" "INBOX" (healthy in_use)).1.tables.mailboxes
        ≡ true)
reversed_sample =
    rename_mailbox-reversed "Lost" "INBOX" (healthy in_use) lost_free no_lost inbox_there (λ q. cc)
      refl

abbrev items : List StatusItem
items = Types.messages ∷ Types.unseen ∷ []

status_sample : status "INBOX" items (healthy in_use) ≡ (
  ok (
      report "INBOX"
        (healthy in_use)
        items
        (record { messages = 0; uid_next = 0; uid_validity = 0; recent = 0; unseen = 0 })),
  healthy in_use,
)
status_sample = status_lem "INBOX" (healthy in_use) items refl
