-- ===== src/Sender/Interleaved/Keeping.antt =====
-- What the goroutines of the queues and the calls of `QueueFor` leave of a mail whose destination
-- does not take it.
use yggmail.Base.{
  ℕ, String, Bool, true, false, ◌≡◌, ◌≢◌, refl, List, any, str_eq, eq_iff, inl, inr, Bool-cases,
  true_and_false,
}
use yggmail.Storage.Types.{QueuedMail}
use yggmail.Storage.Engine.{Engine}
use yggmail.Sender.Node.{Attempt, stored}
use yggmail.Sender.Queues.{queue_for_server}
use yggmail.Sender.Delivery.{Remote}
use yggmail.Sender.Delivery.Outcomes.{reaches_end, Queued}
use yggmail.Sender.Interleaved.{
  Point, started, Senders, put, moved, queue_started, SenderStep, moves, begins, creates, inserts,
  SenderSteps, stays, goes,
}
use yggmail.Sender.Interleaved.Calls.{create-Waits, insert-Waits}
use yggmail.Sender.Interleaved.Advance.{
  deletes, is_written, advance-Queued, advance-deletes, advance-is_written,
}

-- Every attempt at the destination fails before the end of the data; the others are open.
abbrev pub Refusing : String → String → Attempt → Type 0
Refusing d h a = h ≡ d → reaches_end a ≡ false

pub put-false :
    (test : Point → Bool) (h k : String) (p : Point) (f : String → Point)
    → test p ≡ false
    → test (f k) ≡ false
    → test (put h p f k) ≡ false
put-false test h k p f a b = elim (Bool-cases (str_eq h k)) [ inl t ↦ rw t a | inr n ↦ rw n b ]

module _ (e : Engine) (d : String) (id : ℕ) where
  -- The mail waits, and no goroutine is about to delete it or has written it.
  record Waiting (s : Senders) : Type 0 where
    queued : Queued d id s.node.world.tables
    kept : (h : String) → deletes id (s.at h) ≡ false
    unwritten : is_written (s.at d) ≡ false

  moved-unwritten :
      (h : String) (remote : Remote) (s : Senders)
      → ((ref : QueuedMail) (bytes : List ℕ) → Refusing d h (remote ref bytes))
      → is_written (s.at d) ≡ false
      → is_written ((moved e remote h s).at d) ≡ false
  unfolding moved
  moved-unwritten h remote s r u = elim (Bool-cases (str_eq h d)) [
    | inl t ↦ rw t (
        advance-is_written e d id remote h (s.at h) s.node
          (λ ref bytes. r ref bytes ((eq_iff h d).0 t)))
    | inr n ↦ rw n u
  ]

  written_elsewhere :
      (h : String) (s : Senders)
      → is_written (s.at h) ≡ true
      → d ≡ h
      → is_written (s.at d) ≡ false
      → ⊥
  written_elsewhere h s t q u =
      let here : is_written (s.at d) ≡ true = rw q t in true_and_false here u

  step-Waiting :
      {s t : Senders} → d ≢ "Outbox" → SenderStep e (Refusing d) s t → Waiting s → Waiting t
  unfolding moved queue_started queue_for_server stored
  step-Waiting o (moves h remote s r) w = record {
    queued =
        advance-Queued e d id remote h (s.at h) s.node o (w.kept h)
          (λ t q. written_elsewhere h s t q w.unwritten) w.queued;
    kept = λ k.
        put-false (deletes id) h k _ s.at (advance-deletes e d id remote h (s.at h) s.node w.queued)
          (w.kept k);
    unwritten = moved-unwritten h remote s r w.unwritten;
  }
  step-Waiting o (begins h s) w = elim (Bool-cases (any (str_eq h) s.node.running)) [
    | inl t ↦ rw t w
    | inr f ↦ rw f (record {
      queued = w.queued;
      kept = λ k. put-false (deletes id) h k started s.at refl (w.kept k);
      unwritten = put-false is_written h d started s.at refl w.unwritten;
    })
  ]
  step-Waiting o (creates bytes s) w = record {
    queued = (create-Waits e d id bytes).from_state s.node.world w.queued;
    kept = w.kept;
    unwritten = w.unwritten;
  }
  step-Waiting o (inserts h k from rcpt s) w = record {
    queued = (insert-Waits e d id h k from rcpt).from_state s.node.world w.queued;
    kept = w.kept;
    unwritten = w.unwritten;
  }

  steps-Waiting :
      {s t : Senders} → d ≢ "Outbox" → SenderSteps e (Refusing d) s t → Waiting s → Waiting t
  steps-Waiting o (stays s) w = w
  steps-Waiting o (goes first rest) w = steps-Waiting o rest (step-Waiting o first w)

  -- However the queues' goroutines and calls of `QueueFor` take turns, and whichever calls of the
  -- engine fail, a mail of the Outbox that is queued for a destination and not marked as deleted
  -- stays so while every attempt at the destination fails before the end of the data. At first no
  -- goroutine is about to delete the mail, and that of the destination is not between the end of a
  -- mail's data and the deletion of its entry; the destination is not the name "Outbox".
  pub steps_keep :
      {s t : Senders}
      → d ≢ "Outbox"
      → SenderSteps e (Refusing d) s t
      → ((h : String) → deletes id (s.at h) ≡ false)
      → is_written (s.at d) ≡ false
      → Queued d id s.node.world.tables
      → Queued d id t.node.world.tables
  steps_keep o steps kept unwritten q =
      (steps-Waiting o steps (record { queued = q; kept = kept; unwritten = unwritten })).queued
