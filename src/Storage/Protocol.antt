-- ===== src/Storage/Protocol.antt =====
-- `Writer.Do` and `Writer.run` of internal/storage/sqlite3/sqlite3.go, step by step: any number of
-- callers and of goroutines in `run`, interleaved in any order.
pub mod Turns
pub mod Progress
pub mod Sequential
mod Tests
use yggmail.Base.{
  ℕ, suc, String, ◌≡◌, Bool, true, false, not, ◌&&◌, List, [], ◌∷◌, ◌++◌, ◌==◌, if◌then◌else◌, ◌⊎◌,
}
use yggmail.Exec.{Result, ok, Exec, Done}
use yggmail.Storage.Types.{World}
use yggmail.Storage.Writer.{writer_do}

-- `writerTask`, but for its channel: whether `db` and `txn` are given, and the function.
pub record Task : Type 0 where
  pub db : Bool
  pub txn : Bool
  pub f : Exec World Done

-- A task with a database and no transaction has one begun for it.
abbrev pub begins : Task → Bool
begins t = t.db && not t.txn

-- What the channel `wait` of a task holds. It has room for one value, and is received from once, so
-- a value stays where it is; to close a channel takes no value away.
pub data Wait : Type 0 where
  vacant : Wait  -- not made yet
  unsent : Task → Wait
  sent : Task → Result Done → Wait
  closed : Task → Wait  -- closed with no value sent

-- Where a caller of `Do` stands. Between calls it is `outside` or has `returned`.
pub data Caller : Type 0 where
  outside : Caller
  entered : Task → Caller
  spawning : Task → Caller  -- `Load` has given false
  ready : Task → Caller  -- before `w.todo <- task`
  waiting : Task → ℕ → Caller  -- before `<-task.wait`
  returned : Task → Result Done → Caller

-- Where a goroutine in `run` stands; the task that it has taken is named by its channel.
pub data Runner : Type 0 where
  absent : Runner  -- not started yet
  starting : Runner  -- before `CAS(false, true)`
  gone : Runner
  ranging : Runner  -- at the head of `range w.todo`
  taken : ℕ → Runner
  begun : ℕ → Runner  -- `Begin` has worked
  closing : ℕ → Runner  -- before `close(task.wait)`

abbrev pub update : {A : Type 0} → (ℕ → A) → ℕ → A → ℕ → A
update f i a j = if i == j then a else f j

-- `next` is the next channel that `make` gives. `log` is for the theorems only: the tasks in the
-- order in which they were done or dropped.
pub record System : Type 0 where
  pub world : World
  pub running : Bool
  pub caller : ℕ → Caller
  pub runner : ℕ → Runner
  pub wait : ℕ → Wait
  pub next : ℕ
  pub log : List Task

abbrev fault : List Bool → Bool
fault [] = false
fault (b ∷ rest) = b

abbrev rest_of : List Bool → List Bool
rest_of [] = []
rest_of (b ∷ rest) = rest

-- Whether the next call into the engine fails, and the world after it.
abbrev pub begin_fails : World → Bool
begin_fails w = fault w.faults

abbrev pub begin : World → World
begin w = record w { faults = rest_of w.faults }

abbrev pub close : Wait → Wait
close (unsent t) = closed t
close w = w

abbrev pub is_idle : Caller → Bool
is_idle outside = true
is_idle (returned t r) = true
is_idle _ = false

-- One step of one goroutine; the hand-over on the unbuffered `todo` is a step of two. Nothing
-- closes `todo`, so no goroutine leaves the loop of `run`.
pub data Step (s : System) : System → Type 0 where
  call :
      (c : ℕ) (t : Task)
      → is_idle (s.caller c) ≡ true
      → Step s (record s { caller = update s.caller c (entered t) })
  load_set :
      (c : ℕ) (t : Task)
      → s.caller c ≡ entered t
      → s.running ≡ true
      → Step s (record s { caller = update s.caller c (ready t) })
  load_clear :
      (c : ℕ) (t : Task)
      → s.caller c ≡ entered t
      → s.running ≡ false
      → Step s (record s { caller = update s.caller c (spawning t) })
  spawn :
      (c i : ℕ) (t : Task)
      → s.caller c ≡ spawning t
      → s.runner i ≡ absent
      → Step s
          (record s { caller = update s.caller c (ready t); runner = update s.runner i starting })
  win :
      (i : ℕ)
      → s.runner i ≡ starting
      → s.running ≡ false
      → Step s (record s { running = true; runner = update s.runner i ranging })
  lose :
      (i : ℕ)
      → s.runner i ≡ starting
      → s.running ≡ true
      → Step s (record s { runner = update s.runner i gone })
  take :
      (c i : ℕ) (t : Task)
      → s.caller c ≡ ready t
      → s.runner i ≡ ranging
      → Step s (record s {
        caller = update s.caller c (waiting t s.next);
        runner = update s.runner i (taken s.next);
        wait = update s.wait s.next (unsent t);
        next = suc s.next;
      })
  begin_well :
      (i k : ℕ) (t : Task)
      → s.runner i ≡ taken k
      → s.wait k ≡ unsent t
      → begins t ≡ true
      → begin_fails s.world ≡ false
      → Step s (record s { world = begin s.world; runner = update s.runner i (begun k) })
  begin_badly :
      (i k : ℕ) (t : Task)
      → s.runner i ≡ taken k
      → s.wait k ≡ unsent t
      → begins t ≡ true
      → begin_fails s.world ≡ true
      → Step s (record s {
        world = begin s.world;
        runner = update s.runner i (closing k);
        log = s.log ++ t ∷ [];
      })
  perform :
      (i k : ℕ) (t : Task)
      → (s.runner i ≡ begun k) ⊎ ((s.runner i ≡ taken k) × (begins t ≡ false))
      → s.wait k ≡ unsent t
      → Step s (record s {
        world = (t.f s.world).1;
        runner = update s.runner i (closing k);
        wait = update s.wait k (sent t (t.f s.world).0);
        log = s.log ++ t ∷ [];
      })
  shut :
      (i k : ℕ)
      → s.runner i ≡ closing k
      → Step s (record s {
        runner = update s.runner i ranging;
        wait = update s.wait k (close (s.wait k));
      })
  receive :
      (c k : ℕ) (t u : Task) (r : Result Done)
      → s.caller c ≡ waiting t k
      → s.wait k ≡ sent u r
      → Step s (record s { caller = update s.caller c (returned t r) })
  receive_nothing :
      (c k : ℕ) (t u : Task)
      → s.caller c ≡ waiting t k
      → s.wait k ≡ closed u
      → Step s (record s { caller = update s.caller c (returned t (ok tt)) })

-- A new writer: no goroutine runs and nobody calls.
abbrev pub initial : World → System
initial w = record {
  world = w;
  running = false;
  caller = λ _. outside;
  runner = λ _. absent;
  wait = λ _. vacant;
  next = 0;
  log = [];
}

pub data Reach (w : World) : System → Type 0 where
  start : Reach w (initial w)
  later : {s t : System} → Reach w s → Step s t → Reach w t

-- The same task, done at once.
unfoldable pub do_task : Task → Exec World Done
do_task t = if begins t then writer_do tt t.f else t.f

unfoldable pub replay : List Task → World → World
unfolding do_task
replay [] w = w
replay (t ∷ ts) w = replay ts (do_task t w).1
