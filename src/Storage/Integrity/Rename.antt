-- ===== src/Storage/Integrity/Rename.antt =====
-- `mailboxesRename` keeps the tables sound: a rename with its cascades merges no two keys.
use yggmail.Base.{
  String, ◌≡◌, true, false, not, not_true, ◌&&◌, arith, str_eq, eq_iff, any, All, Bool-cases, inl,
  inr, any_mono, any-false_of_All, All-mono, All-of_any-false, All-update_if, Unique-update_if,
  any-update_if, if◌then◌else◌,
}
use yggmail.Storage.Types.{
  Mail, MailboxRow, QueueRow, Db, same_mailbox, same_mail, same_entry, is_mailbox, in_mailbox, owns,
}
use yggmail.Storage.Keys.{is_mailbox_iff, in_mailbox_iff, owns_iff}
use yggmail.Storage.Mailboxes.{mailboxes_rename_stmt, rename_rows}
use yggmail.Storage.Integrity.{IsSound}

module _ (to from : String) where
  abbrev renamed_mailbox : MailboxRow → MailboxRow
  renamed_mailbox r = if is_mailbox from r then record r { mailbox = to } else r

  abbrev renamed_mail : Mail → Mail
  renamed_mail m = if in_mailbox from m then record m { mailbox = to } else m

  abbrev renamed_entry : QueueRow → QueueRow
  renamed_entry q = if str_eq from q.mailbox then record q { mailbox = to } else q

  mailboxes_apart :
      (x y : MailboxRow)
      → is_mailbox to x ≡ false
      → is_mailbox to y ≡ false
      → same_mailbox (renamed_mailbox x) (renamed_mailbox y) ≡ true
      → same_mailbox x y ≡ true
  unfolding same_mailbox is_mailbox
  mailboxes_apart x y px py h = ground (
    arith,
    eq_iff from x.mailbox,
    eq_iff from y.mailbox,
    eq_iff to x.mailbox,
    eq_iff to y.mailbox,
    eq_iff x.mailbox to,
    eq_iff x.mailbox y.mailbox,
  )

  mails_apart :
      (x y : Mail)
      → in_mailbox to x ≡ false
      → in_mailbox to y ≡ false
      → same_mail (renamed_mail x) (renamed_mail y) ≡ true
      → same_mail x y ≡ true
  unfolding same_mail in_mailbox
  mails_apart x y px py h = ground (
    arith,
    eq_iff from x.mailbox,
    eq_iff from y.mailbox,
    eq_iff to x.mailbox,
    eq_iff to y.mailbox,
    eq_iff x.mailbox to,
    eq_iff x.mailbox y.mailbox,
  )

  entries_apart :
      (x y : QueueRow)
      → str_eq to x.mailbox ≡ false
      → str_eq to y.mailbox ≡ false
      → same_entry (renamed_entry x) (renamed_entry y) ≡ true
      → same_entry x y ≡ true
  unfolding same_entry
  entries_apart x y px py h = ground (
    arith,
    eq_iff from x.mailbox,
    eq_iff from y.mailbox,
    eq_iff to x.mailbox,
    eq_iff to y.mailbox,
    eq_iff x.mailbox to,
    eq_iff x.mailbox y.mailbox,
  )

  mailbox_follows :
      (m : Mail) (r : MailboxRow)
      → is_mailbox m.mailbox r ≡ true
      → is_mailbox (renamed_mail m).mailbox (renamed_mailbox r) ≡ true
  unfolding is_mailbox in_mailbox
  mailbox_follows m r h = ground (
    arith,
    eq_iff m.mailbox r.mailbox,
    eq_iff from m.mailbox,
    eq_iff from r.mailbox,
    eq_iff to to,
  )

  mail_follows :
      (q : QueueRow) (m : Mail) → owns m q ≡ true → owns (renamed_mail m) (renamed_entry q) ≡ true
  unfolding owns in_mailbox
  mail_follows q m h = ground (
    arith,
    eq_iff m.mailbox q.mailbox,
    eq_iff from m.mailbox,
    eq_iff from q.mailbox,
    eq_iff to to,
  )

-- Where no mailbox has the new name, no mail and no queue entry has it.
module _ (to from : String) (db : Db) (s : IsSound db)
    (free : any (is_mailbox to) db.mailboxes ≡ false) where
  mails_elsewhere : All (λ m. in_mailbox to m ≡ false) db.mails
  mails_elsewhere = All-mono _ _ db.mails elsewhere s.mail_refs
    where
      elsewhere :
          (m : Mail) → any (is_mailbox m.mailbox) db.mailboxes ≡ true → in_mailbox to m ≡ false
      elsewhere m h = not_true _ λ e. cc (
        free,
        any_mono (is_mailbox m.mailbox) (is_mailbox to) db.mailboxes
            (λ r x.
              ground (arith, is_mailbox_iff m.mailbox r, is_mailbox_iff to r, in_mailbox_iff to m))
            h,
      )

  entries_elsewhere : All (λ q. str_eq to q.mailbox ≡ false) db.queue
  entries_elsewhere = All-mono _ _ db.queue elsewhere s.entry_refs
    where
      elsewhere : (q : QueueRow) → any (λ m. owns m q) db.mails ≡ true → str_eq to q.mailbox ≡ false
      elsewhere q h = not_true _ λ e. cc (
        any-false_of_All (in_mailbox to) db.mails mails_elsewhere,
        any_mono (λ m. owns m q) (in_mailbox to) db.mails
            (λ m x. ground (arith, owns_iff m q, in_mailbox_iff to m, eq_iff to q.mailbox)) h,
      )

  rename_rows-IsSound : IsSound (rename_rows to from db)
  unfolding rename_rows
  rename_rows-IsSound = record {
    config_keys = s.config_keys;
    mailbox_keys =
        Unique-update_if _ same_mailbox (is_mailbox from) _ db.mailboxes (mailboxes_apart to from)
          (All-of_any-false _ db.mailboxes free) s.mailbox_keys;
    mail_keys =
        Unique-update_if _ same_mail (in_mailbox from) _ db.mails (mails_apart to from)
          mails_elsewhere s.mail_keys;
    entry_keys =
        Unique-update_if _ same_entry (λ q. str_eq from q.mailbox) (λ q. record q { mailbox = to })
          db.queue (entries_apart to from) entries_elsewhere s.entry_keys;
    mail_refs =
        All-update_if _ _ (in_mailbox from) _ db.mails
          (λ m h. any-update_if (is_mailbox from) _ _ _ db.mailboxes (mailbox_follows to from m) h)
          s.mail_refs;
    entry_refs =
        All-update_if _ _ (λ q. str_eq from q.mailbox) _ db.queue
          (λ q h. any-update_if (in_mailbox from) _ _ _ db.mails (mail_follows to from q) h)
          s.entry_refs;
    ids = All-update_if _ _ (in_mailbox from) _ db.mails (λ m h. ground arith) s.ids;
  }

pub mailboxes_rename_stmt-IsSound :
    (to from : String) (db : Db) → IsSound db → IsSound (mailboxes_rename_stmt to from db).1
unfolding mailboxes_rename_stmt
mailboxes_rename_stmt-IsSound to from db s = elim (Bool-cases (any (is_mailbox to) db.mailboxes)) [
  | inl taken ↦ rw taken (ground arith)
  | inr free ↦ elim (Bool-cases (any (is_mailbox from) db.mailboxes && not (str_eq to from))) [
    | inl moves ↦ rw (moves, free) (rename_rows-IsSound to from db s free)
    | inr stays ↦ rw stays s
  ]
]
