-- ===== src/Storage/Integrity.antt =====
-- The constraints of the four schemas, as an invariant of the tables.
pub mod Cascade
pub mod Mailboxes
pub mod Rename
pub mod Mails
pub mod Move
pub mod Rules
pub mod Operations
pub mod Queue
use yggmail.Base.{◌≤◌, ◌≡◌, true, any, All, Unique}
use yggmail.Storage.Types.{
  Mail, QueueRow, Db, same_mailbox, same_mail, same_entry, same_key, is_mailbox, owns,
}

-- Primary keys are unique, foreign keys name rows that exist, and ids begin at 1.
pub record IsSound (db : Db) : Type 0 where
  pub config_keys : Unique same_key db.config
  pub mailbox_keys : Unique same_mailbox db.mailboxes
  pub mail_keys : Unique same_mail db.mails
  pub entry_keys : Unique same_entry db.queue
  pub mail_refs : All (λ m. any (is_mailbox m.mailbox) db.mailboxes ≡ true) db.mails
  pub entry_refs : All (λ q. any (λ m. owns m q) db.mails ≡ true) db.queue
  pub ids : All (λ m. 1 ≤ m.id) db.mails
