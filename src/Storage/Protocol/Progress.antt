-- ===== src/Storage/Protocol/Progress.antt =====
-- The steps that the writer can take while a call is under way.
use yggmail.Base.{ℕ, ◌≡◌, refl, inl, inr, Bool, true, false, arith, Bool-cases}
use yggmail.Storage.Types.{World}
use yggmail.Storage.Protocol.{
  Task, begins, begin_fails, Wait, vacant, unsent, sent, closed, Caller, outside, entered, spawning,
  ready, waiting, returned, Runner, absent, starting, gone, ranging, taken, begun, closing, System,
  is_idle, Step, call, load_set, load_clear, spawn, win, lose, take, begin_well, begin_badly,
  perform, shut, receive, receive_nothing, Reach,
}
use yggmail.Storage.Protocol.Turns.{is_active, is_starting, holds, is_answered, Turns}
use yggmail.Storage.Protocol.Turns.Steps.{Reach-Turns}

-- A step that is no new call.
abbrev pub is_call : {s t : System} → Step s t → Bool
is_call (call c t q) = true
is_call _ = false

pub Progress : System → Type 0
Progress s = (t : System) × (st : Step s t) × (is_call st ≡ false)

module _ (s : System) (v : Turns s) where
  held_step : (i k : ℕ) (x : Wait) → s.runner i ≡ taken k → s.wait k ≡ x → Progress s
  unfolding Progress
  held_step i k (unsent t) q u = elim (Bool-cases (begins t)) [
    | inl b ↦ elim (Bool-cases (begin_fails s.world)) [
      | inl f ↦ (_, begin_badly i k t q u b f, refl)
      | inr f ↦ (_, begin_well i k t q u b f, refl)
    ]
    | inr b ↦ (_, perform i k t (inr (q, b)) u, refl)
  ]
  held_step i k vacant q u = absurd (ground (arith, v.in_hands i k))
  held_step i k (sent t r) q u = absurd (ground (arith, v.in_hands i k))
  held_step i k (closed t) q u = absurd (ground (arith, v.in_hands i k))

  begun_step : (i k : ℕ) (x : Wait) → s.runner i ≡ begun k → s.wait k ≡ x → Progress s
  unfolding Progress
  begun_step i k (unsent t) q u = (_, perform i k t (inl q) u, refl)
  begun_step i k vacant q u = absurd (ground (arith, v.in_hands i k))
  begun_step i k (sent t r) q u = absurd (ground (arith, v.in_hands i k))
  begun_step i k (closed t) q u = absurd (ground (arith, v.in_hands i k))

  -- A goroutine with a task in its hands can go on.
  holder_step : (i k : ℕ) (x : Runner) → s.runner i ≡ x → holds k x ≡ true → Progress s
  unfolding Progress
  holder_step i k (taken m) q h = held_step i m (s.wait m) q refl
  holder_step i k (begun m) q h = begun_step i m (s.wait m) q refl
  holder_step i k (closing m) q h = (_, shut i m q, refl)
  holder_step i k absent q h = cc
  holder_step i k starting q h = cc
  holder_step i k gone q h = cc
  holder_step i k ranging q h = cc

  -- The goroutine in the loop takes the task, or can go on with the one that it has.
  loop_step :
      (c i : ℕ) (t : Task) (x : Runner)
      → s.caller c ≡ ready t
      → s.runner i ≡ x
      → is_active x ≡ true
      → Progress s
  unfolding Progress
  loop_step c i t ranging q r h = (_, take c i t q r, refl)
  loop_step c i t (taken m) q r h = held_step i m (s.wait m) r refl
  loop_step c i t (begun m) q r h = begun_step i m (s.wait m) r refl
  loop_step c i t (closing m) q r h = (_, shut i m r, refl)
  loop_step c i t absent q r h = cc
  loop_step c i t starting q r h = cc
  loop_step c i t gone q r h = cc

  new_runner_step : (i : ℕ) (x : Runner) → s.runner i ≡ x → is_starting x ≡ true → Progress s
  unfolding Progress
  new_runner_step i starting q h = elim (Bool-cases s.running) [
    | inl r ↦ (_, lose i q r, refl)
    | inr r ↦ (_, win i q r, refl)
  ]
  new_runner_step i absent q h = cc
  new_runner_step i gone q h = cc
  new_runner_step i ranging q h = cc
  new_runner_step i (taken m) q h = cc
  new_runner_step i (begun m) q h = cc
  new_runner_step i (closing m) q h = cc

  ready_step : (c : ℕ) (t : Task) → s.caller c ≡ ready t → Progress s
  ready_step c t q = elim (v.heard c (ground arith)) [
    | inl on ↦ let (i, a) = v.awake on in loop_step c i t (s.runner i) q refl a
    | inr (i, a) ↦ new_runner_step i (s.runner i) refl a
  ]

  answer_step :
      (c k : ℕ) (t : Task) (x : Wait)
      → s.caller c ≡ waiting t k
      → s.wait k ≡ x
      → is_answered x ≡ true
      → Progress s
  unfolding Progress
  answer_step c k t (sent u r) q e h = (_, receive c k t u r q e, refl)
  answer_step c k t (closed u) q e h = (_, receive_nothing c k t u q e, refl)
  answer_step c k t vacant q e h = cc
  answer_step c k t (unsent u) q e h = cc

  caller_step : (c : ℕ) (x : Caller) → s.caller c ≡ x → is_idle x ≡ false → Progress s
  unfolding Progress
  caller_step c (entered t) q h = elim (Bool-cases s.running) [
    | inl r ↦ (_, load_set c t q r, refl)
    | inr r ↦ (_, load_clear c t q r, refl)
  ]
  caller_step c (spawning t) q h =
      let (n, unused) = v.free in (_, spawn c n t q (unused n (omega arith)), refl)
  caller_step c (ready t) q h = ready_step c t q
  caller_step c (waiting t k) q h = elim (v.served c k (ground arith)) [
    | inl done ↦ answer_step c k t (s.wait k) q refl done
    | inr (i, held) ↦ holder_step i k (s.runner i) refl held
  ]
  caller_step c outside q h = cc
  caller_step c (returned t r) q h = cc

-- While a call of `Do` is under way, some goroutine can take a step that is no new call: the writer
-- never comes to a stop with a caller still in it.
pub calls_go_on :
    {w : World} {s : System} → Reach w s → (c : ℕ) → is_idle (s.caller c) ≡ false → Progress s
calls_go_on {w} {s} r c h = caller_step s (Reach-Turns r) c (s.caller c) refl h
