-- ===== src/Sender/Interleaved.antt =====
-- The queues of internal/smtpsender/sender.go as goroutines that take turns: one step is one call of
-- the storage, one attempt to send, or one move between them.
pub mod Calls
pub mod Advance
pub mod Keeping
pub mod Attempting
pub mod Alone
pub mod Losing
pub mod Ending
mod Tests
use yggmail.Base.{
  ℕ, String, Bool, true, false, List, [], ◌∷◌, ◌≡◌, pos, any, str_eq, ℤ, if◌then◌else◌,
}
use yggmail.Exec.{Result, ok, err, panic, Done, is_no_rows}
use yggmail.Storage.Types.{Mail, QueuedMail}
use yggmail.Storage.Engine.{Engine}
use yggmail.Storage.Mails.{mail_create, mail_select, mail_delete, mail_expunge}
use yggmail.Storage.Queue.{
  queue_mail_ids_for_destination, queue_insert_destination_for_id, queue_delete_destination_for_id,
  queue_select_is_message_pending_send,
}
use yggmail.Sender.Node.{Node, Attempt, stored}
use yggmail.Sender.Queues.{queue_for_server}
use yggmail.Sender.Delivery.{Remote, accept_mail, stop_running}
use yggmail.Sender.Delivery.Outcomes.{reaches_end}

-- Where the goroutine of a queue stands in `run`. From the attempt on, `ref` is the entry it is at,
-- with the bytes of its mail, and the list holds the entries that are left.
pub data Point : Type 0 where
  idle : Point
  started : Point  -- before `QueueMailIDsForDestination`
  looping : List QueuedMail → Point  -- at the head of the loop
  missing : QueuedMail → List QueuedMail → Point  -- `MailSelect` has given no row
  selected : QueuedMail → List ℕ → List QueuedMail → Point  -- before `Dial`
  written : QueuedMail → List ℕ → List QueuedMail → Point  -- after `Write`
  counting : QueuedMail → List ℕ → List QueuedMail → Point  -- the entry is deleted
  deleting : QueuedMail → List ℕ → List QueuedMail → Point  -- no entry of the mail remains
  closing : QueuedMail → List ℕ → List QueuedMail → Point  -- before the deferred `Close`
  expunging : Point
  stopping : Point

abbrev pub on_ids : Result (List QueuedMail) → Point
on_ids (ok refs) = looping refs
on_ids (err x) = looping []
on_ids panic = idle

abbrev pub on_select : QueuedMail → List QueuedMail → Result (ℕ × Mail) → Point
on_select ref refs (ok (seq, m)) = selected ref m.mail refs
on_select ref refs (err x) = if is_no_rows x then missing ref refs else looping refs
on_select ref refs panic = idle

abbrev pub on_forget : QueuedMail → List ℕ → List QueuedMail → Result Done → Point
on_forget ref bytes refs (ok u) = counting ref bytes refs
on_forget ref bytes refs (err x) = closing ref bytes refs
on_forget ref bytes refs panic = idle

abbrev pub on_pending : QueuedMail → List ℕ → List QueuedMail → Result Bool → Point
on_pending ref bytes refs (ok true) = closing ref bytes refs
on_pending ref bytes refs (ok false) = deleting ref bytes refs
on_pending ref bytes refs (err x) = closing ref bytes refs
on_pending ref bytes refs panic = idle

module _ (e : Engine) (remote : Remote) (d : String) where
  -- One step of the goroutine of a queue.
  unfoldable pub advance : Point → Node → Point × Node
  advance idle n = (idle, n)
  advance started n = let r = stored (queue_mail_ids_for_destination e d) n in (on_ids r.0, r.1)
  advance (looping []) n = (expunging, n)
  advance (looping (ref ∷ refs)) n =
      let r = stored (mail_select e "Outbox" (pos ref.id)) n in (on_select ref refs r.0, r.1)
  advance (missing ref refs) n =
      (looping refs, (stored (queue_delete_destination_for_id "Outbox" (pos ref.id)) n).1)
  advance (selected ref bytes refs) n =
      (if reaches_end (remote ref bytes) then written ref bytes refs else looping refs, n)
  advance (written ref bytes refs) n =
      let r = stored (queue_delete_destination_for_id d (pos ref.id)) n in
      (on_forget ref bytes refs r.0, r.1)
  advance (counting ref bytes refs) n =
      let r = stored (queue_select_is_message_pending_send "Outbox" (pos ref.id)) n in
      (on_pending ref bytes refs r.0, r.1)
  advance (deleting ref bytes refs) n =
      (closing ref bytes refs, (stored (mail_delete "Outbox" (pos ref.id)) n).1)
  advance (closing ref bytes refs) n = (
    looping refs,
    (accept_mail (remote ref bytes).accept
        (record { destination = d; id = ref.id; from = ref.from; rcpt = ref.rcpt; mail = bytes })
        n).1,
  )
  advance expunging n = (stopping, (stored (mail_expunge "Outbox") n).1)
  advance stopping n = (idle, (stop_running e remote d n).1)

-- The node with the goroutine of each queue.
pub record Senders : Type 0 where
  pub node : Node
  pub at : String → Point

abbrev pub put : String → Point → (String → Point) → String → Point
put d p f h = if str_eq d h then p else f h

unfoldable pub moved : Engine → Remote → String → Senders → Senders
unfolding advance
moved e remote d s =
    let r = advance e remote d (s.at d) s.node in record { node = r.1; at = put d r.0 s.at }

-- `queueFor`
unfoldable pub queue_started : String → Senders → Senders
queue_started d s = record {
  node = (queue_for_server d s.node).1;
  at = if any (str_eq d) s.node.running then s.at else put d started s.at;
}

-- The steps of all goroutines and of any number of calls of `QueueFor`. `Allowed` says how the other
-- side of a destination may answer.
pub data SenderStep (e : Engine) (Allowed : String → Attempt → Type 0)
    : Senders → Senders → Type 0 where
  moves :
      (d : String) (remote : Remote) (s : Senders)
      → ((ref : QueuedMail) (bytes : List ℕ) → Allowed d (remote ref bytes))
      → SenderStep e Allowed s (moved e remote d s)
  begins : (d : String) (s : Senders) → SenderStep e Allowed s (queue_started d s)
  creates :
      (bytes : List ℕ) (s : Senders)
      → SenderStep e Allowed s (record s { node = (stored (mail_create "Outbox" bytes) s.node).1 })
  inserts :
      (d : String) (id : ℕ) (from rcpt : String) (s : Senders)
      → SenderStep e Allowed s (record s {
        node = (stored (queue_insert_destination_for_id d (pos id) from rcpt) s.node).1;
      })

-- Any number of steps.
pub data SenderSteps (e : Engine) (Allowed : String → Attempt → Type 0)
    : Senders → Senders → Type 0 where
  stays : (s : Senders) → SenderSteps e Allowed s s
  goes :
      {s t u : Senders}
      → SenderStep e Allowed s t
      → SenderSteps e Allowed t u
      → SenderSteps e Allowed s u
