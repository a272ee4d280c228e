-- ===== src/Storage/Protocol/Tests.antt =====
-- The theorems of the writer at one call, from its start to its answer.
use yggmail.Base.{ℕ, ◌≡◌, refl, true, false, inl, arith, [], ◌∷◌}
use yggmail.Exec.{ok}
use yggmail.Storage.Types.{World}
use yggmail.Storage.Writer.{statement}
use yggmail.Storage.Mailboxes.{mailboxes_create_stmt}
use yggmail.Storage.Samples.{no_tables}
use yggmail.Storage.Protocol.{
  Task, System, call, load_clear, spawn, win, take, begin_well, perform, receive, Reach, start,
  later, replay,
}
use yggmail.Storage.Protocol.Turns.Steps.{one_runner}
use yggmail.Storage.Protocol.Progress.{Progress, calls_go_on}
use yggmail.Storage.Protocol.Sequential.{Answer}
use yggmail.Storage.Protocol.Sequential.Order.{world_is_replay, answer_in_order}

abbrev quiet : World
quiet = record { tables = no_tables; faults = []; clock = 5 }

-- INSERT of a mailbox, as `MailboxCreate` gives it to the writer.
abbrev insert_inbox : Task
insert_inbox = record { db = true; txn = false; f = statement (mailboxes_create_stmt "INBOX") }

abbrev Reached : Type 0
Reached = (s : System) × Reach quiet s

-- A call of `Do` that has handed its task to a new goroutine, which has begun a transaction.
abbrev in_hand : Reached
in_hand = (
  _,
  later
      (later
        (later
          (later
            (later (later start (call 0 insert_inbox refl)) (load_clear 0 insert_inbox refl refl))
            (spawn 0 4 insert_inbox refl refl))
          (win 4 refl refl))
        (take 0 4 insert_inbox refl refl))
      (begin_well 4 0 insert_inbox refl refl refl refl),
)

-- The same call with its answer.
abbrev answered : Reached
answered = (
  _,
  later (later in_hand.1 (perform 4 0 insert_inbox (inl refl) refl))
      (receive 0 0 insert_inbox insert_inbox _ refl refl),
)

one_runner_example : ◌≡◌ {A = ℕ} 4 4
one_runner_example = one_runner in_hand.1 4 4 refl refl

calls_go_on_example : Progress in_hand.0
calls_go_on_example = calls_go_on in_hand.1 0 refl

world_is_replay_example : answered.0.world ≡ replay (insert_inbox ∷ []) quiet
world_is_replay_example = world_is_replay answered.1 (λ i. ground arith)

answer_in_order_example : Answer quiet (insert_inbox ∷ []) insert_inbox (ok tt)
unfolding statement mailboxes_create_stmt
answer_in_order_example = answer_in_order answered.1 0 insert_inbox (ok tt) refl
