-- ===== src/Sender/Interleaved/Alone.antt =====
-- A run of a queue, step by step, where no other goroutine comes in between.
use yggmail.Base.{
  ℕ, String, false, Bool-cases, inl, inr, ◌≡◌, ◌≢◌, refl, ◌∙◌, List, [], ◌∷◌, pos, str_eq, eq_refl,
}
use yggmail.Exec.{
  Result, ok, err, panic, Exec, Done, is_no_rows, attempt, settle, resume, for_each, ◌>>=◌,
}
use yggmail.Exec.Completes.{Completes-for_each, bind-returns, for_each-cons}
use yggmail.Storage.Types.{Mail, QueuedMail}
use yggmail.Storage.Engine.{Engine}
use yggmail.Storage.Mails.{mail_select, mail_expunge}
use yggmail.Storage.Queue.{queue_mail_ids_for_destination, queue_delete_destination_for_id}
use yggmail.Storage.Total.{mail_select-NeverPanics, queue_mail_ids_for_destination-NeverPanics}
use yggmail.Sender.Node.{Node, Attempt, stored}
use yggmail.Sender.Delivery.{
  Remote, send, deliver_found, deliver_ref, stop_running, run, refs_or_none,
}
use yggmail.Sender.Delivery.Stops.{deliver_ref-Completes, expunge-Completes}
use yggmail.Sender.Interleaved.{
  Point, idle, started, looping, missing, expunging, stopping, on_ids, on_select, advance, Senders,
  moved, moves, SenderSteps, stays, goes,
}
use yggmail.Sender.Interleaved.Attempting.{
  Runs, stop, more, one, follow, state_tried, state_attempted, attempts,
}

module _ (e : Engine) (remote : Remote) (d : String) where
  finds :
      (ref : QueuedMail) (refs : List QueuedMail) (n : Node) (r : Result (ℕ × Mail))
      → r ≢ panic
      → Runs e remote d
          (on_select ref refs r)
          n
          (looping refs)
          (resume (deliver_found remote d ref) (settle (r, n))).1
  unfolding deliver_found advance ◌>>=◌
  finds ref refs n (ok (seq, m)) h =
      rw (state_tried (send (remote ref m.mail) d ref m.mail n))
        (attempts e remote d ref m.mail refs n)
  finds ref refs n (err x) h = elim (Bool-cases (is_no_rows x)) [
    | inl t ↦ rw t (
        rw (state_tried (stored (queue_delete_destination_for_id "Outbox" (pos ref.id)) n))
          (one e remote d (missing ref refs) n))
    | inr f ↦ rw f (stop _ _)
  ]
  finds ref refs n panic h = absurd (h refl)

  round :
      (ref : QueuedMail) (refs : List QueuedMail) (n : Node)
      → Runs e remote d (looping (ref ∷ refs)) n (looping refs) (deliver_ref e remote d ref n).1
  unfolding advance deliver_ref stored ◌>>=◌
  round ref refs n = more _ _ _ _ (
      finds ref refs (stored (mail_select e "Outbox" (pos ref.id)) n).1
        (mail_select e "Outbox" (pos ref.id) n.world).0
        ((mail_select-NeverPanics e "Outbox" (pos ref.id)).at_state n.world))

  rounds :
      (refs : List QueuedMail) (n : Node)
      → Runs e remote d (looping refs) n (looping []) (for_each refs (deliver_ref e remote d) n).1
  unfolding for_each ◌>>=◌
  rounds [] n = stop _ _
  rounds (ref ∷ refs) n =
      rw (for_each-cons ref refs (deliver_ref e remote d) n (deliver_ref-Completes e remote d ref))
        (follow e remote d (round ref refs n) (rounds refs (deliver_ref e remote d ref n).1))

  last : Exec Node Done
  last = attempt (stored (mail_expunge "Outbox")) >>= λ _. stop_running e remote d

  finishes : (n : Node) → Runs e remote d (looping []) n idle (last n).1
  unfolding last advance
  finishes n = rw (bind-returns _ (λ _. stop_running e remote d) (expunge-Completes e remote d) n) (
      rw (state_attempted (stored (mail_expunge "Outbox")) n)
        (more _ _ _ _ (follow e remote d (one e remote d expunging n) (one e remote d stopping _))))

  -- What follows the reading of the entries.
  goes_on :
      (refs : List QueuedMail) (n : Node)
      → Runs e remote d
          (looping refs)
          n
          idle
          ((for_each refs (deliver_ref e remote d) >>= λ _. last) n).1
  goes_on refs n =
      let completes =
        Completes-for_each refs (deliver_ref e remote d) (deliver_ref-Completes e remote d) in
      rw (bind-returns _ (λ _. last) completes n)
        (follow e remote d (rounds refs n) (finishes (for_each refs (deliver_ref e remote d) n).1))

  after_read :
      (n : Node) (r : Result (List QueuedMail))
      → r ≢ panic
      → Runs e remote d
          (on_ids r)
          n
          idle
          (resume
            (λ refs. for_each (refs_or_none e remote d refs) (deliver_ref e remote d) >>= λ _. last)
            (settle (r, n))).1
  after_read n (ok refs) h = goes_on refs n
  after_read n (err x) h = goes_on [] n
  after_read n panic h = absurd (h refl)

  runs : (n : Node) → Runs e remote d started n idle (run e remote d n).1
  unfolding run last advance stored ◌>>=◌
  runs n = more _ _ _ _ (
      after_read (stored (queue_mail_ids_for_destination e d) n).1
        (queue_mail_ids_for_destination e d n.world).0
        ((queue_mail_ids_for_destination-NeverPanics e d).at_state n.world))

-- The goroutine of one destination has come to a point, and the others are where they were.
abbrev pub Arrives :
    (e : Engine) (Allowed : String → Attempt → Type 0) (d : String) (q : Point) (m : Node)
    (s : Senders)
    → Type 0
Arrives e Allowed d q m s =
    (t : Senders) × SenderSteps e Allowed s t
    × (t.node ≡ m)
    × (t.at d ≡ q)
    × ((h : String) → str_eq d h ≡ false → t.at h ≡ s.at h)

module _ (e : Engine) (Allowed : String → Attempt → Type 0) (remote : Remote) (d : String)
    (allowed : (ref : QueuedMail) (bytes : List ℕ) → Allowed d (remote ref bytes)) where
  pub arrives :
      {p q : Point} {n m : Node}
      → Runs e remote d p n q m
      → (s : Senders) → s.at d ≡ p
      → s.node ≡ n
      → Arrives e Allowed d q m s
  unfolding moved
  arrives (stop p n) s a b = (s, stays s, b, a, λ h ne. refl)
  arrives (more p q n m rest) s a b =
      let here : (moved e remote d s).at d ≡ (advance e remote d p n).0 =
        rw (eq_refl d, a, b) refl in
      let there : (moved e remote d s).node ≡ (advance e remote d p n).1 = rw (a, b) refl in
      let (t, steps, x, y, others) = arrives rest (moved e remote d s) here there in
      (t, goes (moves d remote s allowed) steps, x, y, λ h ne. others h ne ∙ rw ne refl)

  -- From where the goroutine of a destination has been started, steps of it alone, with every answer
  -- that the other side may give, lead to where it is idle again, and to the node that `run` as one
  -- action leaves; the other goroutines stay where they are.
  pub run_by_steps :
      (s : Senders)
      → s.at d ≡ started
      → (t : Senders) × SenderSteps e Allowed s t
        × (t.node ≡ (run e remote d s.node).1)
        × (t.at d ≡ idle)
        × ((h : String) → str_eq d h ≡ false → t.at h ≡ s.at h)
  run_by_steps s a = arrives (runs e remote d s.node) s a refl
