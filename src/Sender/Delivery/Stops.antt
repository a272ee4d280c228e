-- ===== src/Sender/Delivery/Stops.antt =====
-- A run of a queue always comes to its end and clears its flag.
use yggmail.Base.{ℕ, String, ◌≡◌, refl, Bool, false, List, any, any-filter_gone, str_eq}
use yggmail.Exec.{ok, Error, Exec, Done, attempt, rethrow, Tried, done, failed, for_each, ◌>>=◌}
use yggmail.Exec.Completes.{
  NeverPanics, Completes, NeverPanics-bind, Completes-bind, bind-ensures, calm_rules,
  completes_rules,
}
use yggmail.Storage.Types.{Mail, QueuedMail, World}
use yggmail.Storage.Engine.{Engine}
use yggmail.Storage.Total.{storage_calm}
use yggmail.Storage.Mails.{mail_expunge}
use yggmail.Storage.Queue.{queue_mail_ids_for_destination}
use yggmail.Sender.Node.{Node, Attempt, Delivered, stored}
use yggmail.Sender.Delivery.{
  Remote, require, settle_entry, accept_mail, send, deliver_found, deliver_ref, stop_running, run,
  refs_or_none,
}

pub NeverPanics-stored : {A : Type 0} (m : Exec World A) → NeverPanics m → NeverPanics (stored m)
unfolding stored
NeverPanics-stored m h = record { at_state = λ n. h.at_state n.world }

require-NeverPanics : (b : Bool) (e : Error) → NeverPanics (require b e)
unfolding require
require-NeverPanics b e = search calm_rules

pub settle_entry-NeverPanics : (d : String) (id : ℕ) → NeverPanics (settle_entry d id)
unfolding settle_entry
settle_entry-NeverPanics d id = search (calm_rules, storage_calm) depth 8

accept_mail-NeverPanics : (b : Bool) (d : Delivered) → NeverPanics (accept_mail b d)
unfolding accept_mail
accept_mail-NeverPanics b d = record { at_state = λ n q. cc }

after :
    (b : Bool) (e : Error) {k : Exec Node Done}
    → NeverPanics k
    → NeverPanics (require b e >>= λ _. k)
after b e h = NeverPanics-bind (require b e) _ (require-NeverPanics b e) (λ _. h)

send-NeverPanics :
    (a : Attempt) (d : String) (ref : QueuedMail) (bytes : List ℕ)
    → NeverPanics (send a d ref bytes)
unfolding send
send-NeverPanics a d ref bytes =
    after _ _ (after _ _ (after _ _ (after _ _ (after _ _ (after _ _ (after _ _ tail))))))
  where
    tail : NeverPanics (
        attempt (stored (settle_entry d ref.id)) >>= λ result.
        accept_mail a.accept
          (record { destination = d; id = ref.id; from = ref.from; rcpt = ref.rcpt; mail = bytes })
        >>= λ _. rethrow result)
    tail =
        search (calm_rules, NeverPanics-stored, settle_entry-NeverPanics, accept_mail-NeverPanics)

deliver_found-Completes :
    (remote : Remote) (d : String) (ref : QueuedMail) (found : Tried (ℕ × Mail))
    → Completes (deliver_found remote d ref found)
unfolding deliver_found
deliver_found-Completes remote d ref (done (_, m)) = search (completes_rules, send-NeverPanics)
deliver_found-Completes remote d ref (failed e) =
    search (completes_rules, NeverPanics-stored, storage_calm)

module _ (e : Engine) (remote : Remote) (destination : String) where
  pub deliver_ref-Completes : (ref : QueuedMail) → Completes (deliver_ref e remote destination ref)
  unfolding deliver_ref
  deliver_ref-Completes ref =
      search (completes_rules, NeverPanics-stored, storage_calm, deliver_found-Completes)

  stop_running-Completes : Completes (stop_running e remote destination)
  unfolding stop_running
  stop_running-Completes = record { value = λ n. tt; returns = λ n. refl }

  round-Completes :
      (refs : Tried (List QueuedMail))
      → Completes
          (for_each (refs_or_none e remote destination refs) (deliver_ref e remote destination))
  round-Completes refs = search (completes_rules, deliver_ref-Completes)

  pub expunge-Completes : Completes (attempt (stored (mail_expunge "Outbox")))
  expunge-Completes = search (completes_rules, NeverPanics-stored, storage_calm)

  pub refs-Completes : Completes (attempt (stored (queue_mail_ids_for_destination e destination)))
  refs-Completes = search (completes_rules, NeverPanics-stored, storage_calm)

  run-Completes : Completes (run e remote destination)
  unfolding run
  run-Completes = Completes-bind _ _ refs-Completes λ refs.
      Completes-bind _ _ (round-Completes refs)
        λ _. Completes-bind _ _ expunge-Completes λ _. stop_running-Completes

  IsIdle : Node → Type 0
  IsIdle n = any (str_eq destination) n.running ≡ false

  stop_running-IsIdle : (n : Node) → IsIdle (stop_running e remote destination n).1
  unfolding stop_running IsIdle
  stop_running-IsIdle n = any-filter_gone (str_eq destination) n.running

  run-IsIdle : (n : Node) → IsIdle (run e remote destination n).1
  unfolding run
  run-IsIdle = bind-ensures IsIdle _ _ refs-Completes λ refs.
      bind-ensures IsIdle _ _ (round-Completes refs)
        λ _. bind-ensures IsIdle _ _ expunge-Completes λ _. stop_running-IsIdle

  -- A run of a queue returns without an error or a panic, whatever the other side answers and
  -- whichever calls of the engine fail, and the flag of its destination is then clear.
  pub run_stops :
      (n : Node)
      → ((run e remote destination n).0 ≡ ok tt)
        × (any (str_eq destination) (run e remote destination n).1.running ≡ false)
  unfolding IsIdle
  run_stops n = (run-Completes.returns n, run-IsIdle n)
