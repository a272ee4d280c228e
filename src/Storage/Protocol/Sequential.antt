-- ===== src/Storage/Protocol/Sequential.antt =====
-- What the tasks of the writer do, as if each were done at once: the invariant.
pub mod Worlds
pub mod Steps
pub mod Order
use mathlib.Core.List.{append_assoc}
use mathlib.Core.Path.{subst}
use yggmail.Base.{
  ℕ, zero, suc, ◌<◌, ◌≡◌, ◌≢◌, refl, sym, ◌∙◌, ap, ◌⊎◌, inl, inr, Bool, true, false, ◌&&◌, not,
  List, [], ◌∷◌, ◌++◌, Option, none, some, ◌==◌, ==_iff, if◌then◌else◌, arith, Bool-cases,
}
use yggmail.Exec.{Result, ok, Exec, Done}
use yggmail.Storage.Types.{World}
use yggmail.Storage.Writer.{writer_do}
use yggmail.Storage.Protocol.{
  Task, begins, begin_fails, begin, Wait, vacant, unsent, sent, closed, Caller, outside, entered,
  spawning, ready, waiting, returned, Runner, absent, starting, gone, ranging, taken, begun,
  closing, update, System, close, is_idle, Step, call, load_set, load_clear, spawn, win, lose, take,
  begin_well, begin_badly, perform, shut, receive, receive_nothing, initial, Reach, start, later,
  do_task, replay,
}
use yggmail.Storage.Protocol.Turns.{is_active, holds, waits_on, Turns}
use yggmail.Storage.Protocol.Turns.Steps.{Reach-Turns}

-- The answer is the one that the task gives where it stands in the log.
pub record Answer (w : World) (log : List Task) (t : Task) (r : Result Done) : Type 0 where
  pub before : List Task
  pub after : List Task
  pub logged : log ≡ before ++ t ∷ after
  pub given : r ≡ (do_task t (replay before w)).0

pub Answer-later :
    {w : World} {log : List Task} {t : Task} {r : Result Done} (x : Task)
    → Answer w log t r
    → Answer w (log ++ x ∷ []) t r
Answer-later {t} x a = record {
  before = a.before;
  after = a.after ++ x ∷ [];
  logged = rw a.logged (append_assoc a.before (t ∷ a.after) (x ∷ []));
  given = a.given;
}

pub Answer-now :
    (w : World) (log : List Task) (t : Task) (r : Result Done)
    → r ≡ (do_task t (replay log w)).0
    → Answer w (log ++ t ∷ []) t r
Answer-now w log t r h = record { before = log; after = []; logged = refl; given = h }

pub replay-append :
    (ts : List Task) (t : Task) (w : World) → replay (ts ++ t ∷ []) w ≡ (do_task t (replay ts w)).1
unfolding replay
replay-append [] t w = refl
replay-append (x ∷ ts) t w = replay-append ts t (do_task x w).1

begun_well_at :
    (faults : List Bool) (f : Exec World Done) (w : World)
    → begin_fails (record w { faults = faults }) ≡ false
    → writer_do tt f (record w { faults = faults }) ≡ f (begin (record w { faults = faults }))
unfolding writer_do
begun_well_at [] f w h = refl
begun_well_at (true ∷ rest) f w h = cc
begun_well_at (false ∷ rest) f w h = refl

begun_badly_at :
    (faults : List Bool) (f : Exec World Done) (w : World)
    → begin_fails (record w { faults = faults }) ≡ true
    → writer_do tt f (record w { faults = faults }) ≡ (ok tt, begin (record w { faults = faults }))
unfolding writer_do
begun_badly_at [] f w h = cc
begun_badly_at (true ∷ rest) f w h = refl
begun_badly_at (false ∷ rest) f w h = cc

pub do_task-well :
    (t : Task) (w : World) → begins t ≡ true → begin_fails w ≡ false → do_task t w ≡ t.f (begin w)
unfolding do_task
do_task-well t w b h = rw b (begun_well_at w.faults t.f w h)

pub do_task-badly :
    (t : Task) (w : World) → begins t ≡ true → begin_fails w ≡ true → do_task t w ≡ (ok tt, begin w)
unfolding do_task
do_task-badly t w b h = rw b (begun_badly_at w.faults t.f w h)

pub do_task-direct : (t : Task) (w : World) → begins t ≡ false → do_task t w ≡ t.f w
unfolding do_task
do_task-direct t w b = rw b refl

abbrev pub task_of : Wait → Option Task
task_of vacant = none
task_of (unsent t) = some t
task_of (sent t r) = some t
task_of (closed t) = some t

abbrev pub is_begun : Runner → Bool
is_begun (begun k) = true
is_begun _ = false

pub record Sequential (w : World) (s : System) : Type 0 where
  pub held : (i k : ℕ) → holds k (s.runner i) ≡ true → k < s.next
  pub awaited : (c k : ℕ) → waits_on k (s.caller c) ≡ true → k < s.next
  pub own : (c k : ℕ) (t : Task) → s.caller c ≡ waiting t k → task_of (s.wait k) ≡ some t
  pub answers : (k : ℕ) (t : Task) (r : Result Done) → s.wait k ≡ sent t r → Answer w s.log t r
  pub drops : (k : ℕ) (t : Task) → s.wait k ≡ closed t → Answer w s.log t (ok tt)
  pub dropped :
      (i k : ℕ) (t : Task) → s.runner i ≡ closing k → s.wait k ≡ unsent t → Answer w s.log t (ok tt)
  pub returns :
      (c : ℕ) (t : Task) (r : Result Done) → s.caller c ≡ returned t r → Answer w s.log t r
  pub between :
      (i k : ℕ) (t : Task)
      → s.runner i ≡ begun k
      → s.wait k ≡ unsent t
      → t.f s.world ≡ do_task t (replay s.log w)
  pub steady : ((i : ℕ) → is_begun (s.runner i) ≡ false) → s.world ≡ replay s.log w
