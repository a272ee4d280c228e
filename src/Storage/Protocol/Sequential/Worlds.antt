-- ===== src/Storage/Protocol/Sequential/Worlds.antt =====
-- What a goroutine does to the task in its hands.
use yggmail.Base.{ℕ, ◌≡◌, sym, ◌⊎◌, inl, inr, true, false, ==_iff, arith}
use yggmail.Exec.{ok}
use yggmail.Storage.Types.{World}
use yggmail.Storage.Protocol.{
  Task, begins, begin_fails, begin, unsent, taken, begun, System, do_task, replay,
}
use yggmail.Storage.Protocol.Turns.{is_active, Turns}
use yggmail.Storage.Protocol.Sequential.{
  do_task-well, do_task-badly, do_task-direct, is_begun, Sequential,
}

-- Where the goroutine in the loop is at no task that it has begun, the world is the log's.
at_rest :
    {w : World} {s : System} (i : ℕ)
    → Sequential w s
    → Turns s
    → is_active (s.runner i) ≡ true
    → is_begun (s.runner i) ≡ false
    → s.world ≡ replay s.log w
at_rest {w} {s} i v u a h = v.steady (λ j. ground (arith, u.alone i j, ==_iff i j))

-- What a goroutine does to its task is what the task does to the log's world.
pub performed :
    {w : World} {s : System} (i k : ℕ) (t : Task)
    → Sequential w s
    → Turns s
    → (s.runner i ≡ begun k) ⊎ ((s.runner i ≡ taken k) × (begins t ≡ false))
    → s.wait k ≡ unsent t
    → t.f s.world ≡ do_task t (replay s.log w)
performed i k t v u (inl q) e = v.between i k t q e
performed {w} {s} i k t v u (inr (q, b)) e =
    rw (← at_rest i v u (ground arith) (ground arith)) (sym (do_task-direct t s.world b))

pub begun_world :
    {w : World} {s : System} (i k : ℕ) (t : Task)
    → Sequential w s
    → Turns s
    → s.runner i ≡ taken k
    → begins t ≡ true
    → begin_fails s.world ≡ false
    → t.f (begin s.world) ≡ do_task t (replay s.log w)
begun_world {w} {s} i k t v u q b f =
    rw (← at_rest i v u (ground arith) (ground arith)) (sym (do_task-well t s.world b f))

pub failed_world :
    {w : World} {s : System} (i k : ℕ) (t : Task)
    → Sequential w s
    → Turns s
    → s.runner i ≡ taken k
    → begins t ≡ true
    → begin_fails s.world ≡ true
    → do_task t (replay s.log w) ≡ (ok tt, begin s.world)
failed_world {w} {s} i k t v u q b f =
    rw (← at_rest i v u (ground arith) (ground arith)) (do_task-badly t s.world b f)
