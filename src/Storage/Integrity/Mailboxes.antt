-- ===== src/Storage/Integrity/Mailboxes.antt =====
-- The statements of table_mailboxes.go keep the tables sound.
use yggmail.Base.{
  String, ◌≡◌, ◌∙◌, Bool, true, false, not, [], ◌∷◌, ◌++◌, arith, any, filter, Bool-cases, inl, inr,
  any-append, any_mono_false, any-filter_keep, All-mono, All-filter, Unique-filter,
  Unique-append_one, Unique-update_if, any-update_if, All-of, if◌then◌else◌,
}
use yggmail.Storage.Types.{
  Mail, MailboxRow, Db, same_mailbox, same_mail, same_entry, is_mailbox, in_mailbox,
}
use yggmail.Storage.Mailboxes.{
  mailboxes_create_stmt, mailboxes_delete_stmt, mailboxes_subscribe_stmt,
}
use yggmail.Storage.Keys.{same_mailbox_iff, is_mailbox_iff, in_mailbox_iff}
use yggmail.Storage.Integrity.{IsSound}
use yggmail.Storage.Integrity.Cascade.{delete_mails-entry_refs}

pub mailboxes_create_stmt-IsSound :
    (name : String) (db : Db) → IsSound db → IsSound (mailboxes_create_stmt name db).1
unfolding mailboxes_create_stmt
mailboxes_create_stmt-IsSound name db s = elim (Bool-cases (any (is_mailbox name) db.mailboxes)) [
  | inl old ↦ rw old s
  | inr new ↦ rw new (record {
    config_keys = s.config_keys;
    mailbox_keys = Unique-append_one same_mailbox db.mailboxes _ s.mailbox_keys (fresh new);
    mail_keys = s.mail_keys;
    entry_keys = s.entry_keys;
    mail_refs = All-mono _ _ db.mails (λ m h. known m h) s.mail_refs;
    entry_refs = s.entry_refs;
    ids = s.ids;
  })
]
  where
    row : MailboxRow
    row = record { mailbox = name; subscribed = true }

    fresh :
        any (is_mailbox name) db.mailboxes ≡ false
        → any (λ r. same_mailbox r row) db.mailboxes ≡ false
    fresh new =
        any_mono_false _ (is_mailbox name) db.mailboxes
          (λ r h. ground (arith, same_mailbox_iff r row, is_mailbox_iff name r)) new

    known :
        (m : Mail)
        → any (is_mailbox m.mailbox) db.mailboxes ≡ true
        → any (is_mailbox m.mailbox) (db.mailboxes ++ row ∷ []) ≡ true
    known m h = rw any-append (ground arith)

-- A mailbox's mails go with it, and their queue entries with them.
pub mailboxes_delete_stmt-IsSound :
    (name : String) (db : Db) → IsSound db → IsSound (mailboxes_delete_stmt name db).1
unfolding mailboxes_delete_stmt
mailboxes_delete_stmt-IsSound name db s = record {
  config_keys = s.config_keys;
  mailbox_keys = Unique-filter same_mailbox _ db.mailboxes s.mailbox_keys;
  mail_keys = Unique-filter same_mail _ db.mails s.mail_keys;
  entry_keys = Unique-filter same_entry _ db.queue s.entry_keys;
  mail_refs = All-filter _ _ (λ m. not (in_mailbox name m)) db.mails kept s.mail_refs;
  entry_refs = delete_mails-entry_refs (in_mailbox name) db s.entry_refs;
  ids = All-filter _ _ (λ m. not (in_mailbox name m)) db.mails (λ m _ h. h) s.ids;
}
  where
    kept :
        (m : Mail)
        → not (in_mailbox name m) ≡ true
        → any (is_mailbox m.mailbox) db.mailboxes ≡ true
        → any (is_mailbox m.mailbox) (filter (λ r. not (is_mailbox name r)) db.mailboxes) ≡ true
    kept m e h =
        any-filter_keep (is_mailbox m.mailbox) _ db.mailboxes (λ r x.
          ground (arith, is_mailbox_iff m.mailbox r, is_mailbox_iff name r, in_mailbox_iff name m))
        ∙ h

subscribed_merges_none :
    (b : Bool) (name : String) (x y : MailboxRow)
    → same_mailbox
        (if is_mailbox name x then record x { subscribed = b } else x)
        (if is_mailbox name y then record y { subscribed = b } else y)
      ≡ true
    → same_mailbox x y ≡ true
unfolding same_mailbox
subscribed_merges_none b name x y h = ground arith

pub mailboxes_subscribe_stmt-IsSound :
    (b : Bool) (name : String) (db : Db)
    → IsSound db
    → IsSound (mailboxes_subscribe_stmt b name db).1
unfolding mailboxes_subscribe_stmt
mailboxes_subscribe_stmt-IsSound b name db s = record {
  config_keys = s.config_keys;
  mailbox_keys =
      Unique-update_if (λ _. Unit {0}) same_mailbox (is_mailbox name) _ db.mailboxes
        (λ x y _ _ h. subscribed_merges_none b name x y h) (All-of _ db.mailboxes (λ _. tt))
        s.mailbox_keys;
  mail_keys = s.mail_keys;
  entry_keys = s.entry_keys;
  mail_refs =
      All-mono _ _ db.mails
        (λ m h.
          any-update_if (is_mailbox name) (is_mailbox m.mailbox) (is_mailbox m.mailbox)
            (λ r. record r { subscribed = b }) db.mailboxes
            (λ x e. unfold is_mailbox in ground arith) h)
        s.mail_refs;
  entry_refs = s.entry_refs;
  ids = s.ids;
}
