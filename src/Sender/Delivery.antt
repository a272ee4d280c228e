-- ===== src/Sender/Delivery.antt =====
-- `Queue.run` of internal/smtpsender/sender.go.
pub mod Stops
pub mod Kept
pub mod Calls
pub mod Taking
pub mod Settling
pub mod Drains
pub mod Outcomes
pub mod Losses
pub mod Delivers
pub mod Arrivals
pub mod Removal
use yggmail.Base.{ℕ, String, Bool, List, [], ◌∷◌, ◌++◌, not, filter, str_eq, if◌then◌else◌, pos}
use yggmail.Exec.{
  Tried, done, failed, rethrow, Result, ok, err, panic, Error, is_no_rows, dial_error,
  remote_refused, Exec, Done, pure, fail, crash, lift, attempt, for_each, ◌>>=◌, ◌>>◌,
}
use yggmail.Storage.Types.{Mail, QueuedMail, World}
use yggmail.Storage.Engine.{Engine}
use yggmail.Storage.Mails.{mail_select, mail_delete, mail_expunge}
use yggmail.Storage.Queue.{
  queue_mail_ids_for_destination, queue_delete_destination_for_id,
  queue_select_is_message_pending_send,
}
use yggmail.Sender.Node.{Node, Attempt, Delivered, stored}

unfoldable pub require : Bool → Error → Exec Node Done
require b e = if b then pure tt else fail e

-- What `send` does between the write and the return.
unfoldable pub settle_entry : String → ℕ → Exec World Done
settle_entry destination id = do
  queue_delete_destination_for_id destination (pos id)
  remaining ← queue_select_is_message_pending_send "Outbox" (pos id)
  if remaining then pure tt else mail_delete "Outbox" (pos id)

unfoldable pub accept_mail : Bool → Delivered → Exec Node Done
accept_mail accept d n = (ok tt, if accept then record n { accepted = n.accepted ++ d ∷ [] } else n)

-- The function literal that `run` calls for each entry. `writer.Close` is deferred, so the other
-- side's answer to the mail comes after the entry is settled, and its error is dropped.
unfoldable pub send : Attempt → String → QueuedMail → List ℕ → Exec Node Done
send a destination ref bytes = do
  require a.dial dial_error
  require a.client remote_refused
  require a.hello remote_refused
  require a.mail remote_refused
  require a.rcpt remote_refused
  require a.start_data remote_refused
  require a.write remote_refused
  result ← attempt (stored (settle_entry destination ref.id))
  accept_mail a.accept (record {
    destination = destination;
    id = ref.id;
    from = ref.from;
    rcpt = ref.rcpt;
    mail = bytes;
  })
  rethrow result

-- `Remote` answers each attempt as it likes.
abbrev pub Remote : Type 0
Remote = QueuedMail → List ℕ → Attempt

-- What follows `MailSelect` in a round of the loop. The errors are only logged.
unfoldable pub deliver_found : Remote → String → QueuedMail → Tried (ℕ × Mail) → Exec Node Done
deliver_found remote destination ref (done (_, m)) = do
  attempt (send (remote ref m.mail) destination ref m.mail)
  pure tt
deliver_found remote destination ref (failed e) =
    if is_no_rows e
    then (do attempt (stored (queue_delete_destination_for_id "Outbox" (pos ref.id))); pure tt)
    else pure tt

module _ (e : Engine) (remote : Remote) (destination : String) where
  unfoldable pub deliver_ref : QueuedMail → Exec Node Done
  deliver_ref ref = do
    found ← attempt (stored (mail_select e "Outbox" (pos ref.id)))
    deliver_found remote destination ref found

  abbrev pub refs_or_none : Tried (List QueuedMail) → List QueuedMail
  refs_or_none (done refs) = refs
  refs_or_none (failed e) = []

  -- `defer q.running.Store(false)`
  unfoldable pub stop_running : Exec Node Done
  stop_running n =
      (ok tt, record n { running = filter (λ s. not (str_eq destination s)) n.running })

  unfoldable pub run : Exec Node Done
  run = do
    refs ← attempt (stored (queue_mail_ids_for_destination e destination))
    for_each (refs_or_none refs) deliver_ref
    attempt (stored (mail_expunge "Outbox"))
    stop_running
