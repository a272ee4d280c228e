-- ===== src/Sender/Delivery/Losses.antt =====
-- What becomes of a mail that the other side rejects after it has taken its data.
use yggmail.Base.{str_eq, ℕ, String, Bool, true, false, ◌&&◌, ◌≡◌, refl, List, [], any}
use yggmail.Exec.{Error, Exec, Done, Tried, done, failed, ◌>>=◌}
use yggmail.Exec.Preserves.{
  Preserves, Preserves-bind, Preserves-pure, Preserves-attempt, Preserves-for_each, preserves_rules,
}
use yggmail.Storage.Types.{Mail, QueuedMail, World}
use yggmail.Storage.Engine.{Engine}
use yggmail.Sender.Node.{Node, Attempt, Delivered, stored}
use yggmail.Sender.Delivery.{
  Remote, require, accept_mail, send, deliver_found, deliver_ref, stop_running, run, refs_or_none,
}
use yggmail.Storage.Integrity.Operations.{Sound}
use yggmail.Sender.Delivery.Taking.{IsTaking}
use yggmail.Sender.Delivery.Drains.{run_drains}

-- What the servers have accepted.
module _ (e : Engine) (remote : Remote) (d : String) (accepted : List Delivered) where
  abbrev Same : Node → Type 0
  Same n = n.accepted ≡ accepted

  stored-Same : {A : Type 0} (m : Exec World A) → Preserves Same (stored m)
  unfolding stored
  stored-Same m = record { from_state = λ n h. h }

  require-Same : (b : Bool) (x : Error) → Preserves Same (require b x)
  unfolding require
  require-Same b x = search preserves_rules

  refuse-Same : (b : Bool) (r : Delivered) → b ≡ false → Preserves Same (accept_mail b r)
  unfolding accept_mail
  refuse-Same true r h = cc
  refuse-Same false r h = record { from_state = λ n h. h }

  then-Same :
      (b : Bool) (x : Error) (m : Exec Node Done)
      → Preserves Same m
      → Preserves Same (require b x >>= λ _. m)
  then-Same b x m h = Preserves-bind _ _ (require-Same b x) (λ _. h)

  send-Same :
      (a : Attempt) (ref : QueuedMail) (bytes : List ℕ)
      → a.accept ≡ false
      → Preserves Same (send a d ref bytes)
  unfolding send
  send-Same a ref bytes h = then-Same _ _ _ (
      then-Same _ _ _ (
        then-Same _ _ _ (
          then-Same _ _ _ (
            then-Same _ _ _ (
              then-Same _ _ _ (
                then-Same _ _ _ (
                  Preserves-bind _ _ (Preserves-attempt _ (stored-Same _)) λ result.
                    Preserves-bind _ _ (refuse-Same a.accept _ h) λ _. search preserves_rules)))))))

  deliver_found-Same :
      ((ref : QueuedMail) (bytes : List ℕ) → (remote ref bytes).accept ≡ false)
      → (ref : QueuedMail) (found : Tried (ℕ × Mail))
      → Preserves Same (deliver_found remote d ref found)
  unfolding deliver_found
  deliver_found-Same refuses ref (done (seq, m)) =
      Preserves-bind _ _
        (Preserves-attempt _ (send-Same (remote ref m.mail) ref m.mail (refuses ref m.mail)))
        (λ _. Preserves-pure tt)
  deliver_found-Same refuses ref (failed x) = search (preserves_rules, stored-Same)

  run-Same :
      ((ref : QueuedMail) (bytes : List ℕ) → (remote ref bytes).accept ≡ false)
      → Preserves Same (run e remote d)
  unfolding run deliver_ref stop_running
  run-Same refuses = Preserves-bind _ _ (Preserves-attempt _ (stored-Same _)) λ refs.
      Preserves-bind _ _
        (Preserves-for_each (refs_or_none e remote d refs) (deliver_ref e remote d) (λ ref.
          Preserves-bind _ _ (Preserves-attempt _ (stored-Same _))
            (deliver_found-Same refuses ref)))
        λ _.
          Preserves-bind _ _ (Preserves-attempt _ (stored-Same _))
            λ _. record { from_state = λ n p. p }

-- A server that takes every step and then answers the end of the data with an error loses the mails:
-- where the tables are sound and no call of the engine fails, a run leaves no entry for it in the
-- queue of the Outbox, and the server has accepted nothing.
pub run_loses :
    (e : Engine) (remote : Remote) (d : String) (n : Node)
    → ((ref : QueuedMail) (bytes : List ℕ) → IsTaking (remote ref bytes))
    → ((ref : QueuedMail) (bytes : List ℕ) → (remote ref bytes).accept ≡ false)
    → n.world.faults ≡ []
    → Sound n.world
    → (any
          (λ q. str_eq d q.destination && str_eq "Outbox" q.mailbox)
          (run e remote d n).1.world.tables.queue
        ≡ false)
      × ((run e remote d n).1.accepted ≡ n.accepted)
run_loses e remote d n taking refuses h s =
    (run_drains e remote d n taking h s, (run-Same e remote d n.accepted refuses).from_state n refl)
