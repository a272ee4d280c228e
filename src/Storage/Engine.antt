-- ===== src/Storage/Engine.antt =====
-- What the sources leave to SQLite: the order in which a SELECT without ORDER BY visits a table.
-- `ROW_NUMBER() OVER (PARTITION BY mailbox)` numbers rows in that order too.
use mathlib.Core.List.{Perm}
use yggmail.Base.{ℕ, String, Bool, List, ℤ}
use yggmail.Storage.Types.{Mail, MailboxRow, QueueRow}

-- The statements that read the view `inboxes`, and those that read the queue, with their arguments.
pub data MailsVisit : Type 0 where
  by_id : String → ℤ → MailsVisit  -- `selectMailStmt`
  by_seq : String → ℕ → MailsVisit  -- `selectIDForSeqStmt`

pub data QueueVisit : Type 0 where
  destinations : QueueVisit  -- `queueSelectDestinationsStmt`
  entries : String → QueueVisit  -- `queueSelectIDsForDestinationStmt`

-- Two statements need not visit a table in one order; a statement with the same arguments visits the
-- same rows in the same order each time. The flag tells `mailboxesListSubscribed` from `mailboxesList`.
-- Each row is visited once.
pub record Engine : Type 0 where
  pub scan_mails : MailsVisit → List Mail → List Mail
  pub scan_mailboxes : Bool → List MailboxRow → List MailboxRow
  pub scan_queue : QueueVisit → List QueueRow → List QueueRow
  pub scan_mails-perm : (v : MailsVisit) (rows : List Mail) → Perm (scan_mails v rows) rows
  pub scan_mailboxes-perm :
      (subscribed : Bool) (rows : List MailboxRow) → Perm (scan_mailboxes subscribed rows) rows
  pub scan_queue-perm : (v : QueueVisit) (rows : List QueueRow) → Perm (scan_queue v rows) rows
