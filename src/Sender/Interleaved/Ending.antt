-- ===== src/Sender/Interleaved/Ending.antt =====
-- How many steps of its own a goroutine has before it.
use yggmail.Base.{
  ℕ, zero, suc, ◌+◌, ◌*◌, ◌≤◌, Bool, true, false, ◌≡◌, refl, String, List, [], ◌∷◌, length, arith,
  if◌then◌else◌,
}
use yggmail.Exec.{Result, ok, err, panic, Done, is_no_rows}
use yggmail.Storage.Types.{Mail, QueuedMail}
use yggmail.Storage.Engine.{Engine}
use yggmail.Sender.Node.{Node, stored}
use yggmail.Sender.Delivery.{Remote}
use yggmail.Sender.Delivery.Outcomes.{reaches_end}
use yggmail.Sender.Interleaved.{
  Point, idle, started, looping, missing, selected, written, counting, deleting, closing, expunging,
  stopping, on_select, on_forget, on_pending, advance,
}

-- The steps that are left at most, once the entries are read.
abbrev pub steps_left : Point → ℕ
steps_left idle = 0
steps_left started = 0
steps_left (looping refs) = 3 + 6 * length refs
steps_left (missing ref refs) = 4 + 6 * length refs
steps_left (selected ref bytes refs) = 8 + 6 * length refs
steps_left (written ref bytes refs) = 7 + 6 * length refs
steps_left (counting ref bytes refs) = 6 + 6 * length refs
steps_left (deleting ref bytes refs) = 5 + 6 * length refs
steps_left (closing ref bytes refs) = 4 + 6 * length refs
steps_left expunging = 2
steps_left stopping = 1

abbrev pub is_started : Point → Bool
is_started started = true
is_started _ = false

-- A step leaves fewer, and does not lead back to the start.
Lower : ℕ → Point → Type 0
Lower k p = (steps_left p ≤ k) × (is_started p ≡ false)

either-Lower :
    (k : ℕ) (b : Bool) (p q : Point) → Lower k p → Lower k q → Lower k (if b then p else q)
either-Lower k true p q h g = h
either-Lower k false p q h g = g

on_select-Lower :
    (ref : QueuedMail) (refs : List QueuedMail) (r : Result (ℕ × Mail))
    → Lower (8 + 6 * length refs) (on_select ref refs r)
unfolding Lower
on_select-Lower ref refs (ok (seq, m)) = (omega arith, refl)
on_select-Lower ref refs (err x) =
    either-Lower (8 + 6 * length refs) (is_no_rows x) (missing ref refs) (looping refs)
      (omega arith, refl) (omega arith, refl)
on_select-Lower ref refs panic = (omega arith, refl)

on_forget-Lower :
    (ref : QueuedMail) (bytes : List ℕ) (refs : List QueuedMail) (r : Result Done)
    → Lower (6 + 6 * length refs) (on_forget ref bytes refs r)
unfolding Lower
on_forget-Lower ref bytes refs (ok u) = (omega arith, refl)
on_forget-Lower ref bytes refs (err x) = (omega arith, refl)
on_forget-Lower ref bytes refs panic = (omega arith, refl)

on_pending-Lower :
    (ref : QueuedMail) (bytes : List ℕ) (refs : List QueuedMail) (r : Result Bool)
    → Lower (5 + 6 * length refs) (on_pending ref bytes refs r)
unfolding Lower
on_pending-Lower ref bytes refs (ok true) = (omega arith, refl)
on_pending-Lower ref bytes refs (ok false) = (omega arith, refl)
on_pending-Lower ref bytes refs (err x) = (omega arith, refl)
on_pending-Lower ref bytes refs panic = (omega arith, refl)

module _ (e : Engine) (d : String) where
  advance-Lower :
      (remote : Remote) (k : ℕ) (p : Point) (n : Node)
      → Lower (suc k) p
      → Lower k (advance e remote d p n).0
  unfolding advance stored Lower
  advance-Lower remote k idle n h = (omega arith, refl)
  advance-Lower remote k started n h = cc (h.1)
  advance-Lower remote k (looping []) n h = (omega (arith, h.0), refl)
  advance-Lower remote k (looping (ref ∷ refs)) n h =
      let (a, b) = on_select-Lower ref refs _ in (omega (arith, a, h.0), b)
  advance-Lower remote k (missing ref refs) n h = (omega (arith, h.0), refl)
  advance-Lower remote k (selected ref bytes refs) n h =
      either-Lower k (reaches_end (remote ref bytes)) (written ref bytes refs) (looping refs)
        (omega (arith, h.0), refl) (omega (arith, h.0), refl)
  advance-Lower remote k (written ref bytes refs) n h =
      let (a, b) = on_forget-Lower ref bytes refs _ in (omega (arith, a, h.0), b)
  advance-Lower remote k (counting ref bytes refs) n h =
      let (a, b) = on_pending-Lower ref bytes refs _ in (omega (arith, a, h.0), b)
  advance-Lower remote k (deleting ref bytes refs) n h = (omega (arith, h.0), refl)
  advance-Lower remote k (closing ref bytes refs) n h = (omega (arith, h.0), refl)
  advance-Lower remote k expunging n h = (omega (arith, h.0), refl)
  advance-Lower remote k stopping n h = (omega (arith, h.0), refl)

  -- Where the goroutine is after steps of its own. `seen` says how it finds the node, and `remotes`
  -- how the other side answers, at each of them.
  unfoldable pub after_steps : (seen : ℕ → Node) (remotes : ℕ → Remote) → ℕ → Point → Point
  after_steps seen remotes zero p = p
  after_steps seen remotes (suc k) p =
      after_steps (λ i. seen (suc i)) (λ i. remotes (suc i)) k
        (advance e (remotes 0) d p (seen 0)).0

  none_left : (p : Point) → Lower 0 p → p ≡ idle
  unfolding Lower
  none_left idle h = refl
  none_left started h = cc (h.1)
  none_left (looping refs) h = absurd (omega (arith, h.0))
  none_left (missing ref refs) h = absurd (omega (arith, h.0))
  none_left (selected ref bytes refs) h = absurd (omega (arith, h.0))
  none_left (written ref bytes refs) h = absurd (omega (arith, h.0))
  none_left (counting ref bytes refs) h = absurd (omega (arith, h.0))
  none_left (deleting ref bytes refs) h = absurd (omega (arith, h.0))
  none_left (closing ref bytes refs) h = absurd (omega (arith, h.0))
  none_left expunging h = absurd (omega (arith, h.0))
  none_left stopping h = absurd (omega (arith, h.0))

  after-Lower :
      (seen : ℕ → Node) (remotes : ℕ → Remote) (k : ℕ) (p : Point)
      → Lower k p
      → after_steps seen remotes k p ≡ idle
  unfolding after_steps
  after-Lower seen remotes zero p h = none_left p h
  after-Lower seen remotes (suc k) p h =
      after-Lower (λ i. seen (suc i)) (λ i. remotes (suc i)) k
        (advance e (remotes 0) d p (seen 0)).0 (advance-Lower (remotes 0) k p (seen 0) h)

  -- A goroutine that has read its entries is idle after six steps for each of them and three more,
  -- whatever the others do to the node between its steps, whichever calls of the engine fail, and
  -- however the other side answers.
  pub goroutine_ends :
      (seen : ℕ → Node) (remotes : ℕ → Remote) (refs : List QueuedMail)
      → after_steps seen remotes (3 + 6 * length refs) (looping refs) ≡ idle
  unfolding Lower
  goroutine_ends seen remotes refs =
      after-Lower seen remotes (3 + 6 * length refs) (looping refs) (omega arith, refl)
