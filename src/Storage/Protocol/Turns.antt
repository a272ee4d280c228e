-- ===== src/Storage/Protocol/Turns.antt =====
-- Who is at work in the writer: the invariant of its goroutines.
pub mod Steps
use yggmail.Base.{
  ℕ, zero, suc, ◌+◌, ◌<◌, ◌≤◌, ◌≡◌, ◌≢◌, refl, ◌⊎◌, inl, inr, Bool, true, false, ◌&&◌, ◌==◌, ==_iff,
  if◌then◌else◌, arith, Bool-cases,
}
use yggmail.Exec.{Result, Done}
use yggmail.Storage.Types.{World}
use yggmail.Storage.Protocol.{
  Task, begins, begin_fails, Wait, vacant, unsent, sent, closed, Caller, outside, entered, spawning,
  ready, waiting, returned, Runner, absent, starting, gone, ranging, taken, begun, closing, update,
  System, close, is_idle, Step, call, load_set, load_clear, spawn, win, lose, take, begin_well,
  begin_badly, perform, shut, receive, receive_nothing, initial, Reach, start, later,
}

-- Past the compare-and-swap and in the loop.
abbrev pub is_active : Runner → Bool
is_active ranging = true
is_active (taken k) = true
is_active (begun k) = true
is_active (closing k) = true
is_active _ = false

abbrev pub is_starting : Runner → Bool
is_starting starting = true
is_starting _ = false

abbrev pub holds : ℕ → Runner → Bool
holds k (taken m) = m == k
holds k (begun m) = m == k
holds k (closing m) = m == k
holds k _ = false

-- A task is in the goroutine's hands, not yet done.
abbrev pub in_hand : ℕ → Runner → Bool
in_hand k (taken m) = m == k
in_hand k (begun m) = m == k
in_hand k _ = false

abbrev pub closes : ℕ → Runner → Bool
closes k (closing m) = m == k
closes k _ = false

abbrev pub is_made : Wait → Bool
is_made vacant = false
is_made _ = true

abbrev pub is_unsent : Wait → Bool
is_unsent (unsent t) = true
is_unsent _ = false

abbrev pub is_answered : Wait → Bool
is_answered (sent t r) = true
is_answered (closed t) = true
is_answered _ = false

abbrev pub is_ready : Caller → Bool
is_ready (ready t) = true
is_ready _ = false

abbrev pub waits_on : ℕ → Caller → Bool
waits_on k (waiting t m) = m == k
waits_on k _ = false

pub record Turns (s : System) : Type 0 where
  pub flagged : (i : ℕ) → is_active (s.runner i) ≡ true → s.running ≡ true
  pub alone : (i j : ℕ) → is_active (s.runner i) ≡ true → is_active (s.runner j) ≡ true → i ≡ j
  pub free : (n : ℕ) × ((i : ℕ) → n ≤ i → s.runner i ≡ absent)
  pub awake : s.running ≡ true → (i : ℕ) × (is_active (s.runner i) ≡ true)
  pub heard :
      (c : ℕ)
      → is_ready (s.caller c) ≡ true
      → (s.running ≡ true) ⊎ ((i : ℕ) × (is_starting (s.runner i) ≡ true))
  pub in_hands : (i k : ℕ) → in_hand k (s.runner i) ≡ true → is_unsent (s.wait k) ≡ true
  pub made : (i k : ℕ) → closes k (s.runner i) ≡ true → is_made (s.wait k) ≡ true
  pub served :
      (c k : ℕ)
      → waits_on k (s.caller c) ≡ true
      → (is_answered (s.wait k) ≡ true) ⊎ ((i : ℕ) × (holds k (s.runner i) ≡ true))
