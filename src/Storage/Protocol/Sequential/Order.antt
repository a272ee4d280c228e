-- ===== src/Storage/Protocol/Sequential/Order.antt =====
-- The order in which the writer's tasks are done, and the answers of the callers.
use mathlib.Core.Path.{subst}
use yggmail.Base.{ℕ, ◌≡◌, refl, sym, ◌∙◌, ap, inl, inr, false, ◌==◌, arith, Bool-cases}
use yggmail.Exec.{Result, ok, Done}
use yggmail.Storage.Types.{World}
use yggmail.Storage.Protocol.{
  Task, begin, unsent, returned, begun, System, Step, call, load_set, load_clear, spawn, win, lose,
  take, begin_well, begin_badly, perform, shut, receive, receive_nothing, initial, Reach, start,
  later, do_task, replay,
}
use yggmail.Storage.Protocol.Turns.{Turns}
use yggmail.Storage.Protocol.Turns.Steps.{Reach-Turns}
use yggmail.Storage.Protocol.Sequential.{Answer, Answer-later, replay-append, is_begun, Sequential}
use yggmail.Storage.Protocol.Sequential.Worlds.{performed, begun_world, failed_world}
use yggmail.Storage.Protocol.Sequential.Steps.{
  held-Step, awaited-Step, own-Step, answers-Step, drops-Step, dropped-Step,
}

returns-Step :
    {w : World} {s s' : System}
    → Sequential w s
    → Turns s
    → Step s s'
    → (o : ℕ) (x : Task) (y : Result Done) → s'.caller o ≡ returned x y
    → Answer w s'.log x y
returns-Step v u (call c t q) o x y a = v.returns o x y (ground arith)
returns-Step v u (load_set c t q r) o x y a = v.returns o x y (ground arith)
returns-Step v u (load_clear c t q r) o x y a = v.returns o x y (ground arith)
returns-Step v u (spawn c m t q r) o x y a = v.returns o x y (ground arith)
returns-Step v u (win m q r) o x y a = v.returns o x y (ground arith)
returns-Step v u (lose m q r) o x y a = v.returns o x y (ground arith)
returns-Step v u (take c m t q r) o x y a = v.returns o x y (ground arith)
returns-Step v u (begin_well m k t q e b f) o x y a = v.returns o x y (ground arith)
returns-Step v u (begin_badly m k t q e b f) o x y a = Answer-later t (v.returns o x y a)
returns-Step v u (perform m k t q e) o x y a = Answer-later t (v.returns o x y a)
returns-Step v u (shut m k q) o x y a = v.returns o x y (ground arith)
returns-Step {w} {s} v u (receive c k t z r q h) o x y a = elim (Bool-cases (c == o)) [
  | inl n ↦
      let p : t ≡ x = ground arith in
      let p' : r ≡ y = ground arith in
      let p'' : z ≡ t = ground (arith, v.own c k t) in
      subst (λ l. Answer w s.log l y) p
        (subst (λ l. Answer w s.log t l) p'
          (subst (λ l. Answer w s.log l r) p'' (v.answers k z r h)))
  | inr n ↦ v.returns o x y (rw n at a)
]
returns-Step {w} {s} v u (receive_nothing c k t z q h) o x y a = elim (Bool-cases (c == o)) [
  | inl n ↦
      let p : t ≡ x = ground arith in
      let p' : ok tt ≡ y = ground arith in
      let p'' : z ≡ t = ground (arith, v.own c k t) in
      subst (λ l. Answer w s.log l y) p
        (subst (λ l. Answer w s.log t l) p'
          (subst (λ l. Answer w s.log l (ok tt)) p'' (v.drops k z h)))
  | inr n ↦ v.returns o x y (rw n at a)
]

between-Step :
    {w : World} {s s' : System}
    → Sequential w s
    → Turns s
    → Step s s'
    → (i o : ℕ) (x : Task) → s'.runner i ≡ begun o
    → s'.wait o ≡ unsent x
    → x.f s'.world ≡ do_task x (replay s'.log w)
between-Step v u (call c t q) i o x a g = v.between i o x (ground arith) (ground arith)
between-Step v u (load_set c t q r) i o x a g = v.between i o x (ground arith) (ground arith)
between-Step v u (load_clear c t q r) i o x a g = v.between i o x (ground arith) (ground arith)
between-Step v u (spawn c m t q r) i o x a g = v.between i o x (ground arith) (ground arith)
between-Step v u (win m q r) i o x a g = v.between i o x (ground arith) (ground arith)
between-Step v u (lose m q r) i o x a g = v.between i o x (ground arith) (ground arith)
between-Step v u (take c m t q r) i o x a g =
    v.between i o x (ground arith) (ground (arith, v.held i o))
between-Step {w} {s} v u (begin_well m k t q e b f) i o x a g = elim (Bool-cases (m == i)) [
  | inl n ↦
      let p : t ≡ x = ground arith in
      subst (λ l. l.f (begin s.world) ≡ do_task l (replay s.log w)) p (begun_world m k t v u q b f)
  | inr n ↦ absurd (ground (arith, u.alone m i))
]
between-Step v u (begin_badly m k t q e b f) i o x a g = absurd (ground (arith, u.alone m i))
between-Step v u (perform m k t q e) i o x a g = absurd (ground (arith, u.alone m i))
between-Step v u (shut m k q) i o x a g = v.between i o x (ground arith) (ground arith)
between-Step v u (receive c k t z r q h) i o x a g = v.between i o x (ground arith) (ground arith)
between-Step v u (receive_nothing c k t z q h) i o x a g =
    v.between i o x (ground arith) (ground arith)

steady-Step :
    {w : World} {s s' : System}
    → Sequential w s
    → Turns s
    → Step s s'
    → ((i : ℕ) → is_begun (s'.runner i) ≡ false)
    → s'.world ≡ replay s'.log w
steady-Step v u (call c t q) a = v.steady (λ i. ground (arith, a i))
steady-Step v u (load_set c t q r) a = v.steady (λ i. ground (arith, a i))
steady-Step v u (load_clear c t q r) a = v.steady (λ i. ground (arith, a i))
steady-Step v u (spawn c m t q r) a = v.steady (λ i. ground (arith, a i))
steady-Step v u (win m q r) a = v.steady (λ i. ground (arith, a i))
steady-Step v u (lose m q r) a = v.steady (λ i. ground (arith, a i))
steady-Step v u (take c m t q r) a = v.steady (λ i. ground (arith, a i))
steady-Step v u (begin_well m k t q e b f) a = absurd (ground (arith, a m))
steady-Step {w} {s} v u (begin_badly m k t q e b f) a =
    sym (replay-append s.log t w ∙ ap (λ z. z.1) (failed_world m k t v u q b f))
steady-Step {w} {s} v u (perform m k t q e) a =
    ap (λ z. z.1) (performed m k t v u q e) ∙ sym (replay-append s.log t w)
steady-Step v u (shut m k q) a = v.steady (λ i. ground (arith, a i))
steady-Step v u (receive c k t z r q h) a = v.steady (λ i. ground (arith, a i))
steady-Step v u (receive_nothing c k t z q h) a = v.steady (λ i. ground (arith, a i))

Sequential-Step :
    {w : World} {s s' : System} → Sequential w s → Turns s → Step s s' → Sequential w s'
Sequential-Step v u st = record {
  held = held-Step v u st;
  awaited = awaited-Step v u st;
  own = own-Step v u st;
  answers = answers-Step v u st;
  drops = drops-Step v u st;
  dropped = dropped-Step v u st;
  returns = returns-Step v u st;
  between = between-Step v u st;
  steady = steady-Step v u st;
}

Sequential-initial : (w : World) → Sequential w (initial w)
unfolding replay
Sequential-initial w = record {
  held = λ i k h. cc;
  awaited = λ c k h. cc;
  own = λ c k t h. cc;
  answers = λ k t r h. cc;
  drops = λ k t h. cc;
  dropped = λ i k t h g. cc;
  returns = λ c t r h. cc;
  between = λ i k t h g. cc;
  steady = λ h. refl;
}

Reach-Sequential : {w : World} {s : System} → Reach w s → Sequential w s
Reach-Sequential {w} start = Sequential-initial w
Reach-Sequential (later r st) = Sequential-Step (Reach-Sequential r) (Reach-Turns r) st

-- However callers and goroutines are interleaved, while no goroutine is between `Begin` and the end
-- of a task the world is the one that the logged tasks leave when each is done at once, in the order
-- of the log.
pub world_is_replay :
    {w : World} {s : System}
    → Reach w s
    → ((i : ℕ) → is_begun (s.runner i) ≡ false)
    → s.world ≡ replay s.log w
world_is_replay r h = (Reach-Sequential r).steady h

-- A caller of `Do` gets the answer that its own task gives when it is done at once, in its place in
-- the log.
pub answer_in_order :
    {w : World} {s : System}
    → Reach w s
    → (c : ℕ) (t : Task) (r : Result Done) → s.caller c ≡ returned t r
    → Answer w s.log t r
answer_in_order r c t x h = (Reach-Sequential r).returns c t x h
