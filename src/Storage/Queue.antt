-- ===== src/Storage/Queue.antt =====
-- internal/storage/sqlite3/table_queue.go
pub mod Sorting
use yggmail.Base.{
  ℕ, String, Bool, List, [], ◌∷◌, ◌++◌, ◌&&◌, not, map, any, filter, count_if, ltb, str_eq,
  if◌then◌else◌, ℤ, pos, negsuc, int_eq,
}
use yggmail.Exec.{Result, ok, err, unique, foreign_key, Exec, Done, pure, ◌>>=◌}
use yggmail.Storage.Types.{QueuedMail, QueueRow, Db, World, is_mail}
use yggmail.Storage.Engine.{Engine, QueueVisit, destinations, entries}
use yggmail.Storage.Writer.{statement, writer_do}

-- `SELECT DISTINCT`: the first of equal values stays.
unfoldable pub distinct : List String → List String
distinct [] = []
distinct (s ∷ ss) = s ∷ filter (λ t. not (str_eq s t)) (distinct ss)

-- `queueSelectDestinationsStmt`
unfoldable pub queue_select_destinations_stmt : Engine → Db → Result (List String) × Db
unfolding distinct
queue_select_destinations_stmt e db =
    (ok (distinct (map (λ (q : QueueRow). q.destination) (e.scan_queue destinations db.queue))), db)

-- `ORDER BY id DESC`; rows of equal id stay in the order of the visit.
insert_desc : QueueRow → List QueueRow → List QueueRow
insert_desc q [] = q ∷ []
insert_desc q (r ∷ rs) = if ltb q.id r.id then r ∷ insert_desc q rs else q ∷ r ∷ rs

unfoldable pub sort_desc : List QueueRow → List QueueRow
unfolding insert_desc
sort_desc [] = []
sort_desc (q ∷ qs) = insert_desc q (sort_desc qs)

abbrev pub to_queued_mail : QueueRow → QueuedMail
to_queued_mail q = record { id = q.id; from = q.mail; rcpt = q.rcpt }

-- `queueSelectIDsForDestinationStmt`: entries of every mailbox, not only of the Outbox.
unfoldable pub queue_select_ids_for_destination_stmt :
    Engine → String → Db → Result (List QueuedMail) × Db
unfolding sort_desc
queue_select_ids_for_destination_stmt e destination db = (
  ok (
      map to_queued_mail (
        sort_desc (
          filter (λ q. str_eq destination q.destination)
            (e.scan_queue (entries destination) db.queue)))),
  db,
)

-- `destination = $1 AND mailbox = $2 AND id = $3`
unfoldable pub is_entry : String → String → ℤ → QueueRow → Bool
is_entry destination mailbox id q =
    str_eq destination q.destination && (str_eq mailbox q.mailbox && int_eq id q.id)

-- `queueInsertDestinationForIDStmt`; a negative id names no mail.
unfoldable pub queue_insert_stmt : String → String → ℤ → String → String → Db → Result Done × Db
unfolding is_entry
queue_insert_stmt destination mailbox (negsuc k) from rcpt db = (err foreign_key, db)
queue_insert_stmt destination mailbox (pos id) from rcpt db =
    let row : QueueRow = record {
      destination = destination;
      mailbox = mailbox;
      id = id;
      mail = from;
      rcpt = rcpt;
    } in
    if any (is_entry destination mailbox (pos id)) db.queue
    then (err unique, db)
    else if any (is_mail mailbox (pos id)) db.mails
    then (ok tt, record db { queue = db.queue ++ row ∷ [] })
    else (err foreign_key, db)

-- `deleteDestinationForIDStmt`
unfoldable pub delete_destination_stmt : String → String → ℤ → Db → Result Done × Db
unfolding is_entry
delete_destination_stmt destination mailbox id db =
    (ok tt, record db { queue = filter (λ q. not (is_entry destination mailbox id q)) db.queue })

-- `queueSelectIsMessagePendingSendStmt`
unfoldable pub queue_pending_stmt : String → ℤ → Db → Result ℕ × Db
queue_pending_stmt mailbox id db =
    (ok (count_if (λ q. str_eq mailbox q.mailbox && int_eq id q.id) db.queue), db)

unfoldable pub queue_list_destinations : Engine → Exec World (List String)
unfolding queue_select_destinations_stmt
queue_list_destinations e = statement (queue_select_destinations_stmt e)

unfoldable pub queue_mail_ids_for_destination : Engine → String → Exec World (List QueuedMail)
unfolding queue_select_ids_for_destination_stmt
queue_mail_ids_for_destination e destination =
    statement (queue_select_ids_for_destination_stmt e destination)

unfoldable pub queue_insert_destination_for_id : String → ℤ → String → String → Exec World Done
unfolding queue_insert_stmt
queue_insert_destination_for_id destination id from rcpt =
    writer_do tt (statement (queue_insert_stmt destination "Outbox" id from rcpt))

unfoldable pub queue_delete_destination_for_id : String → ℤ → Exec World Done
unfolding delete_destination_stmt
queue_delete_destination_for_id destination id =
    writer_do tt (statement (delete_destination_stmt destination "Outbox" id))

unfoldable pub queue_select_is_message_pending_send : String → ℤ → Exec World Bool
unfolding queue_pending_stmt ◌>>=◌
queue_select_is_message_pending_send mailbox id = do
  count ← statement (queue_pending_stmt mailbox id)
  pure (ltb 0 count)
