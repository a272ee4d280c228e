-- ===== src/Storage/Types.antt =====
-- internal/storage/types/types.go and the schemas of internal/storage/sqlite3/table_*.go.
-- A text is a Go string or a TEXT value, and is only compared; a mail is its bytes.
use yggmail.Base.{ℕ, String, Bool, ◌&&◌, List, not, ◌==◌, str_eq, any, filter, ℤ, int_eq}

-- A row of `mails`, which is also what `MailSelect` fills a `types.Mail` from.
pub record Mail : Type 0 where
  pub mailbox : String
  pub id : ℕ
  pub mail : List ℕ
  pub date : ℕ
  pub seen : Bool
  pub answered : Bool
  pub flagged : Bool
  pub deleted : Bool

pub record QueuedMail : Type 0 where
  pub id : ℕ
  pub from : String
  pub rcpt : String

-- A row of `mailboxes`.
pub record MailboxRow : Type 0 where
  pub mailbox : String
  pub subscribed : Bool

-- A row of `queue`; `mail` is the sender's address.
pub record QueueRow : Type 0 where
  pub destination : String
  pub mailbox : String
  pub id : ℕ
  pub mail : String
  pub rcpt : String

-- A row of `config`.
pub record ConfigRow : Type 0 where
  pub key : String
  pub value : String

pub record Db : Type 0 where
  pub config : List ConfigRow
  pub mailboxes : List MailboxRow
  pub mails : List Mail
  pub queue : List QueueRow

-- The tables with what the machine decides: which of the next calls into the engine fail (none
-- where the list has ended), and the Unix time.
pub record World : Type 0 where
  pub tables : Db
  pub faults : List Bool
  pub clock : ℕ

-- Equality of primary keys.
unfoldable pub same_mailbox : MailboxRow → MailboxRow → Bool
same_mailbox a b = str_eq a.mailbox b.mailbox

unfoldable pub same_mail : Mail → Mail → Bool
same_mail a b = str_eq a.mailbox b.mailbox && a.id == b.id

unfoldable pub same_entry : QueueRow → QueueRow → Bool
same_entry a b = str_eq a.destination b.destination && (str_eq a.mailbox b.mailbox && a.id == b.id)

unfoldable pub same_key : ConfigRow → ConfigRow → Bool
same_key a b = str_eq a.key b.key

-- `WHERE mailbox = $1` and `WHERE mailbox = $1 AND id = $2`.
unfoldable pub is_mailbox : String → MailboxRow → Bool
is_mailbox name r = str_eq name r.mailbox

unfoldable pub in_mailbox : String → Mail → Bool
in_mailbox name m = str_eq name m.mailbox

unfoldable pub is_mail : String → ℤ → Mail → Bool
is_mail name id m = str_eq name m.mailbox && int_eq id m.id

-- The mail that a queue entry's foreign key names.
unfoldable pub owns : Mail → QueueRow → Bool
owns m q = str_eq m.mailbox q.mailbox && m.id == q.id

-- `DELETE FROM mails WHERE p`, with `ON DELETE CASCADE` of the queue.
unfoldable pub delete_mails : (Mail → Bool) → Db → Db
delete_mails p db = record db {
  mails = filter (λ m. not (p m)) db.mails;
  queue = filter (λ q. not (any (λ m. p m && owns m q) db.mails)) db.queue;
}
