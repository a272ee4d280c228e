-- ===== src/Sender/Interleaved/Tests.antt =====
-- The theorems on goroutines at sample tables.
use yggmail.Base.{
  ℕ, String, true, false, ◌≡◌, refl, List, [], ◌∷◌, any, str_eq, pos, arith, str_apart,
}
use yggmail.Exec.{ok}
use yggmail.Storage.Types.{
  QueuedMail, is_mail, same_mailbox, same_mail, same_entry, same_key, is_mailbox, owns,
}
use yggmail.Storage.Queue.{is_entry, queue_insert_destination_for_id}
use yggmail.Storage.Integrity.{IsSound}
use yggmail.Storage.Samples.{plain, healthy, in_use}
use yggmail.Sender.Node.{Node, stored}
use yggmail.Sender.Delivery.{Remote, run}
use yggmail.Sender.Delivery.Outcomes.{Queued}
use yggmail.Sender.Interleaved.{idle, started, looping, counting, Senders, put, SenderSteps}
use yggmail.Sender.Interleaved.Keeping.{Refusing, put-false, steps_keep}
use yggmail.Sender.Interleaved.Advance.{deletes}
use yggmail.Sender.Interleaved.Alone.{Arrives, run_by_steps}
use yggmail.Sender.Interleaved.Ending.{after_steps, goroutine_ends}
use yggmail.Sender.Interleaved.Losing.{got, queue_for_lost}

abbrev node : Node
node = record { world = healthy in_use; running = "bb" ∷ []; accepted = [] }

-- The goroutine of one destination has been started.
abbrev one_started : Senders
one_started = record { node = node; at = put "bb" started (λ h. idle) }

-- A remote server that takes every mail.
abbrev taking : Remote
taking ref bytes = record {
  dial = true;
  client = true;
  hello = true;
  mail = true;
  rcpt = true;
  start_data = true;
  write = true;
  accept = true;
}

-- Nothing is said of the answers of the one destination.
other : (ref : QueuedMail) (bytes : List ℕ) → Refusing "aa" "bb" (taking ref bytes)
other ref bytes q = absurd (str_apart "bb" "aa" refl q)

run_by_steps_example :
    (t : Senders) × SenderSteps plain (Refusing "aa") one_started t
    × (t.node ≡ (run plain taking "bb" node).1)
    × (t.at "bb" ≡ idle)
    × ((h : String) → str_eq "bb" h ≡ false → t.at h ≡ one_started.at h)
run_by_steps_example = run_by_steps plain (Refusing "aa") taking "bb" other one_started refl

-- The goroutine has come to its end.
abbrev ended : Arrives plain (Refusing "aa") "bb" idle (run plain taking "bb" node).1 one_started
ended = run_by_steps plain (Refusing "aa") taking "bb" other one_started refl

waiting : Queued "aa" 1 in_use
unfolding Queued is_entry is_mail
waiting = (refl, refl)

steps_keep_example : Queued "aa" 1 ended.0.node.world.tables
steps_keep_example =
    steps_keep plain "aa" 1 (λ q. cc) ended.1
      (λ h. put-false (deletes 1) "bb" h started (λ k. idle) refl refl) refl waiting

abbrev ref : QueuedMail
ref = record { id = 1; from = "me@yggmail"; rcpt = "you@yggmail" }

-- One mail in the Outbox, whose last entry has just been deleted.
abbrev counted : Senders
counted = record {
  node = record node { world = healthy (record in_use { queue = [] }) };
  at = put "bb" (counting ref (8 ∷ []) []) (λ h. idle);
}

counted-IsSound : IsSound (record in_use { queue = [] })
unfolding same_mailbox same_mail same_entry same_key is_mailbox owns
counted-IsSound = ground arith

mail_there : any (is_mail "Outbox" (pos 1)) in_use.mails ≡ true
unfolding is_mail
mail_there = refl

goroutine_ends_example :
    after_steps plain "bb" (λ i. node) (λ i. taking) 9 (looping (ref ∷ [])) ≡ idle
goroutine_ends_example = goroutine_ends plain "bb" (λ i. node) (λ i. taking) (ref ∷ [])

queue_for_lost_example :
    let insert = stored (queue_insert_destination_for_id "aa" (pos 1) "me@yggmail" "her@yggmail") in
    (u : Senders) × (t : Senders) × SenderSteps plain (Refusing "aa") counted u
    × ((insert u.node).0 ≡ ok tt)
    × SenderSteps plain (Refusing "aa") (record u { node = (insert u.node).1 }) t
    × (any (is_mail "Outbox" (pos 1)) t.node.world.tables.mails ≡ false)
    × (any (is_entry "aa" "Outbox" (pos 1)) t.node.world.tables.queue ≡ false)
    × (got "aa" t.node ≡ got "aa" counted.node)
queue_for_lost_example =
    queue_for_lost plain (Refusing "aa") taking "bb" "aa" ref (8 ∷ []) "me@yggmail" "her@yggmail"
      other counted (str_apart "bb" "aa" refl) refl refl mail_there counted-IsSound refl
