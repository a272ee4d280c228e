-- ===== src/Sender/Interleaved/Attempting.antt =====
-- Steps of one goroutine, and those of an attempt to send.
use yggmail.Base.{
  ℕ, String, Bool, true, false, Bool-cases, inl, inr, ◌≡◌, ◌≢◌, refl, List, pos, arith,
  if◌then◌else◌,
}
use yggmail.Exec.{
  Result, ok, err, panic, Exec, Done, Tried, pure, attempt, rethrow, settle, resume, ◌>>=◌,
}
use yggmail.Storage.Types.{QueuedMail, World}
use yggmail.Storage.Engine.{Engine}
use yggmail.Storage.Mails.{mail_delete}
use yggmail.Storage.Queue.{queue_delete_destination_for_id, queue_select_is_message_pending_send}
use yggmail.Storage.Total.{
  queue_delete_destination_for_id-NeverPanics, queue_select_is_message_pending_send-NeverPanics,
}
use yggmail.Sender.Node.{Node, Attempt, stored}
use yggmail.Sender.Delivery.{Remote, settle_entry, accept_mail, send}
use yggmail.Sender.Delivery.Taking.{IsTaking, passed_all}
use yggmail.Sender.Delivery.Stops.{NeverPanics-stored, settle_entry-NeverPanics}
use yggmail.Sender.Delivery.Outcomes.{reaches_end, send-refused}
use yggmail.Sender.Interleaved.{
  Point, looping, selected, written, deleting, closing, on_forget, on_pending, advance,
}

-- Any number of steps of one goroutine.
pub data Runs (e : Engine) (remote : Remote) (d : String)
    : Point → Node → Point → Node → Type 0 where
  stop : (p : Point) (n : Node) → Runs e remote d p n p n
  more :
      (p q : Point) (n m : Node)
      → Runs e remote d (advance e remote d p n).0 (advance e remote d p n).1 q m
      → Runs e remote d p n q m

state_settled : {A : Type 0} (p : Result A × Node) → (settle p).1 ≡ p.1
state_settled (ok a, n) = refl
state_settled (err x, n) = refl
state_settled (panic, n) = refl

pub state_tried :
    {A : Type 0} (p : Result A × Node) → (resume (λ (_ : Tried A). pure tt) (settle p)).1 ≡ p.1
unfolding ◌>>=◌
state_tried (ok a, n) = refl
state_tried (err x, n) = refl
state_tried (panic, n) = refl

taking : (a : Attempt) → reaches_end a ≡ true → IsTaking a
unfolding IsTaking
taking a t = (
  ground arith,
  ground arith,
  ground arith,
  ground arith,
  ground arith,
  ground arith,
  ground arith,
)

pub state_attempted : {A : Type 0} (m : Exec Node A) (n : Node) → (attempt m n).1 ≡ (m n).1
unfolding ◌>>=◌
state_attempted m n = state_settled (m n)

module _ (e : Engine) (remote : Remote) (d : String) where
  pub follow :
      {p q r : Point} {n m k : Node}
      → Runs e remote d p n q m
      → Runs e remote d q m r k
      → Runs e remote d p n r k
  follow (stop p n) second = second
  follow {r} {k} (more p q n m first) second = more p r n k (follow first second)

  pub one :
      (p : Point) (n : Node)
      → Runs e remote d p n (advance e remote d p n).0 (advance e remote d p n).1
  one p n = more p _ n _ (stop _ _)

  module _ (ref : QueuedMail) (bytes : List ℕ) (refs : List QueuedMail) (n : Node) where
    counts :
        (r : Result Bool × World)
        → r.0 ≢ panic
        → Runs e remote d
            (on_pending ref bytes refs r.0)
            (record n { world = r.1 })
            (closing ref bytes refs)
            (record n {
              world =
                  (resume
                    (λ remaining. if remaining then pure tt else mail_delete "Outbox" (pos ref.id))
                    r).1;
            })
    unfolding advance stored ◌>>=◌
    counts (ok true, w) h = stop _ _
    counts (ok false, w) h = one (deleting ref bytes refs) (record n { world = w })
    counts (err x, w) h = stop _ _
    counts (panic, w) h = absurd (h refl)

    forgets :
        (r : Result Done × World)
        → r.0 ≢ panic
        → Runs e remote d
            (on_forget ref bytes refs r.0)
            (record n { world = r.1 })
            (closing ref bytes refs)
            (record n {
              world =
                  (resume
                    (λ _.
                      queue_select_is_message_pending_send "Outbox" (pos ref.id) >>= λ remaining.
                      if remaining then pure tt else mail_delete "Outbox" (pos ref.id))
                    r).1;
            })
    unfolding advance stored ◌>>=◌
    forgets (ok u, w) h = more _ _ _ _ (
        counts (queue_select_is_message_pending_send "Outbox" (pos ref.id) w)
          ((queue_select_is_message_pending_send-NeverPanics "Outbox" (pos ref.id)).at_state w))
    forgets (err x, w) h = stop _ _
    forgets (panic, w) h = absurd (h refl)

    settles :
        Runs e remote d
          (written ref bytes refs)
          n
          (closing ref bytes refs)
          (stored (settle_entry d ref.id) n).1
    unfolding advance stored settle_entry ◌>>=◌
    settles = more _ _ _ _ (
        forgets (queue_delete_destination_for_id d (pos ref.id) n.world)
          ((queue_delete_destination_for_id-NeverPanics d (pos ref.id)).at_state n.world))

    -- What follows `Write`, as `send` has it.
    tail : Exec Node Done
    tail = attempt (stored (settle_entry d ref.id)) >>= λ result.
        accept_mail (remote ref bytes).accept
          (record { destination = d; id = ref.id; from = ref.from; rcpt = ref.rcpt; mail = bytes })
        >>= λ _. rethrow result

    accepts : Exec Node Done
    accepts =
        accept_mail (remote ref bytes).accept
          (record { destination = d; id = ref.id; from = ref.from; rcpt = ref.rcpt; mail = bytes })

    state_closed :
        (r : Result Done × Node)
        → r.0 ≢ panic
        → (resume (λ result. accepts >>= λ _. rethrow result) (settle r)).1 ≡ (accepts r.1).1
    unfolding ◌>>=◌ accepts accept_mail
    state_closed (ok u, m) h = refl
    state_closed (err x, m) h = refl
    state_closed (panic, m) h = absurd (h refl)

    ends : Runs e remote d (written ref bytes refs) n (looping refs) (tail n).1
    unfolding tail advance accepts ◌>>=◌
    ends =
        rw
          (state_closed (stored (settle_entry d ref.id) n) (
            (NeverPanics-stored (settle_entry d ref.id)
                (settle_entry-NeverPanics d ref.id)).at_state
              n))
          (follow settles (one (closing ref bytes refs) (stored (settle_entry d ref.id) n).1))

    -- An attempt, whether the other side takes the mail or not.
    pub attempts :
        Runs e remote d
          (selected ref bytes refs)
          n
          (looping refs)
          (send (remote ref bytes) d ref bytes n).1
    unfolding advance tail accepts send
    attempts = elim (Bool-cases (reaches_end (remote ref bytes))) [
      | inl t ↦
          passed_all (λ m. Runs e remote d (selected ref bytes refs) n (looping refs) m)
            (remote ref bytes) tail n (taking (remote ref bytes) t) (more _ _ _ _ (rw t ends))
      | inr f ↦
          (send-refused {P = λ m. Runs e remote d (selected ref bytes refs) n (looping refs) m}
              (remote ref bytes) d ref bytes f).from_state
            n (more _ _ _ _ (rw f (stop _ _)))
    ]
