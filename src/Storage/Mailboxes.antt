-- ===== src/Storage/Mailboxes.antt =====
-- internal/storage/sqlite3/table_mailboxes.go
use yggmail.Base.{
  String, Bool, true, List, [], ◌∷◌, ◌++◌, none, some, ◌&&◌, not, map, any, filter, find, update_if,
  str_eq, if◌then◌else◌,
}
use yggmail.Exec.{Result, ok, err, no_rows, unique, Exec, Done, pure, ◌>>=◌}
use yggmail.Storage.Types.{MailboxRow, Db, World, is_mailbox, in_mailbox, delete_mails}
use yggmail.Storage.Engine.{Engine}
use yggmail.Storage.Writer.{statement, writer_do}

-- `mailboxesList` and `mailboxesListSubscribed`
unfoldable pub mailboxes_list_stmt : Engine → Bool → Db → Result (List String) × Db
mailboxes_list_stmt e only_subscribed db = (
  ok (
      map (λ (r : MailboxRow). r.mailbox)
        (e.scan_mailboxes only_subscribed
          (if only_subscribed then filter (λ r. r.subscribed) db.mailboxes else db.mailboxes))),
  db,
)

-- `mailboxesSelect`
unfoldable pub mailboxes_select_stmt : String → Db → Result String × Db
mailboxes_select_stmt name db = elim (find (is_mailbox name) db.mailboxes) [
  | none ↦ (err no_rows, db)
  | some r ↦ (ok r.mailbox, db)
]

-- `mailboxesCreate`: INSERT OR IGNORE, and the column's default makes the mailbox subscribed.
unfoldable pub mailboxes_create_stmt : String → Db → Result Done × Db
mailboxes_create_stmt name db = if any (is_mailbox name) db.mailboxes then (ok tt, db) else (
  ok tt,
  record db { mailboxes = db.mailboxes ++ record { mailbox = name; subscribed = true } ∷ [] },
)

-- ON UPDATE CASCADE of a mailbox's name, to its mails and on to their queue entries.
unfoldable pub rename_rows : String → String → Db → Db
rename_rows to from db = record db {
  mailboxes = update_if (is_mailbox from) (λ r. record r { mailbox = to }) db.mailboxes;
  mails = update_if (in_mailbox from) (λ m. record m { mailbox = to }) db.mails;
  queue = update_if (λ q. str_eq from q.mailbox) (λ q. record q { mailbox = to }) db.queue;
}

-- `mailboxesRename`: `UPDATE mailboxes SET mailbox = $1 WHERE mailbox = $2`. The primary key is
-- checked where a row changes.
unfoldable pub mailboxes_rename_stmt : String → String → Db → Result Done × Db
unfolding rename_rows
mailboxes_rename_stmt to from db =
    if any (is_mailbox from) db.mailboxes && not (str_eq to from)
    then if any (is_mailbox to) db.mailboxes
      then (err unique, db)
      else (ok tt, rename_rows to from db)
    else (ok tt, db)

-- `mailboxesDelete`, with ON DELETE CASCADE to the mailbox's mails.
unfoldable pub mailboxes_delete_stmt : String → Db → Result Done × Db
unfolding delete_mails
mailboxes_delete_stmt name db = (
  ok tt,
  record (delete_mails (in_mailbox name) db) {
    mailboxes = filter (λ r. not (is_mailbox name r)) db.mailboxes;
  },
)

-- `mailboxesSubscribe`
unfoldable pub mailboxes_subscribe_stmt : Bool → String → Db → Result Done × Db
mailboxes_subscribe_stmt subscribed name db = (
  ok tt,
  record db {
    mailboxes =
        update_if (is_mailbox name) (λ r. record r { subscribed = subscribed }) db.mailboxes;
  },
)

unfoldable pub mailbox_list : Engine → Bool → Exec World (List String)
unfolding mailboxes_list_stmt
mailbox_list e only_subscribed = statement (mailboxes_list_stmt e only_subscribed)

-- `row.Err()` is nil for a query that gave no row: only `row.Scan` reports `sql.ErrNoRows`.
unfoldable pub mailbox_select : String → Exec World Bool
unfolding mailboxes_select_stmt ◌>>=◌
mailbox_select mailbox = do
  got ← statement (mailboxes_select_stmt mailbox)
  pure (str_eq mailbox got)

unfoldable pub mailbox_create : String → Exec World Done
unfolding mailboxes_create_stmt
mailbox_create name = writer_do tt (statement (mailboxes_create_stmt name))

-- The call passes `old` for `$1` and `new` for `$2`.
unfoldable pub mailbox_rename : String → String → Exec World Done
unfolding mailboxes_rename_stmt
mailbox_rename old new = writer_do tt (statement (mailboxes_rename_stmt old new))

unfoldable pub mailbox_delete : String → Exec World Done
unfolding mailboxes_delete_stmt
mailbox_delete name = writer_do tt (statement (mailboxes_delete_stmt name))

unfoldable pub mailbox_subscribe : String → Bool → Exec World Done
unfolding mailboxes_subscribe_stmt
mailbox_subscribe name subscribed =
    writer_do tt (statement (mailboxes_subscribe_stmt subscribed name))
