-- ===== src/Imap/Mailbox/Counts.antt =====
-- What `Status` reports.
use yggmail.Base.{
  ℕ, String, Bool, true, false, ◌≡◌, refl, ◌∙◌, any, List, [], ◌∷◌, ◌&&◌, not, count_if, u32,
  if◌then◌else◌,
}
use yggmail.Exec.{ok, ◌>>=◌}
use yggmail.Storage.Types.{World, in_mailbox}
use yggmail.Storage.Mails.{
  mail_next_id, mail_unseen, mail_count, next_id, select_mail_next_id, select_mail_count_stmt,
  select_mail_unseen_stmt,
}
use yggmail.Storage.Healthy.{statement_healthy}
use yggmail.Imap.Types.{StatusItem, MailboxStatus}
use yggmail.Imap.Types
use yggmail.Imap.Mailbox.{status, status_item, status_items}

-- An item that is asked for takes its new value, another one stays.
abbrev pub asked : List StatusItem → (StatusItem → Bool) → ℕ → ℕ → ℕ
asked items is_item new old = if any is_item items then new else old

abbrev pub is_messages : StatusItem → Bool
is_messages Types.messages = true
is_messages _ = false

abbrev pub is_uid_next : StatusItem → Bool
is_uid_next Types.uid_next = true
is_uid_next _ = false

abbrev pub is_uid_validity : StatusItem → Bool
is_uid_validity Types.uid_validity = true
is_uid_validity _ = false

abbrev pub is_recent : StatusItem → Bool
is_recent Types.recent = true
is_recent _ = false

abbrev pub is_unseen : StatusItem → Bool
is_unseen Types.unseen = true
is_unseen _ = false

module _ (name : String) (w : World) where
  pub report : List StatusItem → MailboxStatus → MailboxStatus
  report items old = record {
    messages =
        asked items is_messages (u32 (count_if (in_mailbox name) w.tables.mails)) old.messages;
    uid_next = asked items is_uid_next (u32 (next_id name w.tables.mails)) old.uid_next;
    uid_validity = asked items is_uid_validity 1 old.uid_validity;
    recent = asked items is_recent 0 old.recent;
    unseen =
        asked items is_unseen (u32 (count_if (λ m. in_mailbox name m && not m.seen) w.tables.mails))
          old.unseen;
  }

  same_if : (b : Bool) (x : ℕ) → (if b then x else x) ≡ x
  same_if true x = refl
  same_if false x = refl

  item_then :
      (item : StatusItem) (items : List StatusItem) (old : MailboxStatus)
      → w.faults ≡ []
      → ((s : MailboxStatus) → status_items name items s w ≡ (ok (report items s), w))
      → status_items name (item ∷ items) old w ≡ (ok (report (item ∷ items) old), w)
  unfolding status_items status_item report ◌>>=◌ mail_count mail_next_id mail_unseen
      select_mail_next_id select_mail_count_stmt select_mail_unseen_stmt
  item_then Types.messages items old h rest =
      rw (statement_healthy (select_mail_count_stmt name) w h) (rest _ ∙ rw same_if refl)
  item_then Types.uid_next items old h rest =
      rw (statement_healthy (select_mail_next_id name) w h) (rest _ ∙ rw same_if refl)
  item_then Types.uid_validity items old h rest = rest _ ∙ rw same_if refl
  item_then Types.recent items old h rest = rest _ ∙ rw same_if refl
  item_then Types.unseen items old h rest =
      rw (statement_healthy (select_mail_unseen_stmt name) w h) (rest _ ∙ rw same_if refl)
  item_then Types.other items old h rest = rest old

  items_in_turn :
      (items : List StatusItem) (old : MailboxStatus)
      → w.faults ≡ []
      → status_items name items old w ≡ (ok (report items old), w)
  unfolding status_items report ◌>>=◌
  items_in_turn [] old h = refl
  items_in_turn (item ∷ items) old h = item_then item items old h (λ s. items_in_turn items s h)

  -- Where no call of the engine fails, `Status` gives each item that is asked for its value (the
  -- number of mails, the next id, 1, 0 and the number of unseen mails), leaves the others at 0, and
  -- changes nothing.
  pub status_lem :
      (items : List StatusItem)
      → w.faults ≡ []
      → status name items w ≡ (
        ok (
            report items
              (record { messages = 0; uid_next = 0; uid_validity = 0; recent = 0; unseen = 0 })),
        w,
      )
  unfolding status
  status_lem items h = items_in_turn items _ h
