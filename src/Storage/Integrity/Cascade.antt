-- ===== src/Storage/Integrity/Cascade.antt =====
-- The cascade from deleted mails to their queue entries.
use yggmail.Base.{
  ◌≡◌, Bool, true, not, ◌&&◌, arith, any, filter, All, All-filter, any-filter_others, Unique-filter,
}
use yggmail.Storage.Types.{Mail, QueueRow, Db, same_mail, same_entry, owns, delete_mails}
use yggmail.Storage.Integrity.{IsSound}

-- The entries that stay are those of mails that stay.
pub delete_mails-entry_refs :
    (p : Mail → Bool) (db : Db)
    → All (λ q. any (λ m. owns m q) db.mails ≡ true) db.queue
    → All (λ q. any (λ m. owns m q) (delete_mails p db).mails ≡ true) (delete_mails p db).queue
unfolding delete_mails
delete_mails-entry_refs p db refs = All-filter _ _ _ db.queue kept refs
  where
    kept :
        (q : QueueRow)
        → not (any (λ m. p m && owns m q) db.mails) ≡ true
        → any (λ m. owns m q) db.mails ≡ true
        → any (λ m. owns m q) (filter (λ m. not (p m)) db.mails) ≡ true
    kept q e h = any-filter_others p (λ m. owns m q) db.mails h (ground arith)

pub delete_mails-IsSound : (p : Mail → Bool) (db : Db) → IsSound db → IsSound (delete_mails p db)
unfolding delete_mails
delete_mails-IsSound p db s = record {
  config_keys = s.config_keys;
  mailbox_keys = s.mailbox_keys;
  mail_keys = Unique-filter same_mail _ db.mails s.mail_keys;
  entry_keys = Unique-filter same_entry _ db.queue s.entry_keys;
  mail_refs = All-filter _ _ _ db.mails (λ m _ h. h) s.mail_refs;
  entry_refs = delete_mails-entry_refs p db s.entry_refs;
  ids = All-filter _ _ _ db.mails (λ m _ h. h) s.ids;
}
