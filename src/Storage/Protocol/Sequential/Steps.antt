-- ===== src/Storage/Protocol/Sequential/Steps.antt =====
-- Steps of the writer, and the channels with their answers.
use mathlib.Core.Path.{subst}
use yggmail.Base.{
  ℕ, ◌<◌, ◌≡◌, refl, sym, ap, inl, inr, true, List, [], ◌∷◌, ◌++◌, some, ◌==◌, arith, Bool-cases,
}
use yggmail.Exec.{Result, ok, Done}
use yggmail.Storage.Types.{World}
use yggmail.Storage.Protocol.{
  Task, Wait, vacant, unsent, sent, closed, waiting, closing, System, close, Step, call, load_set,
  load_clear, spawn, win, lose, take, begin_well, begin_badly, perform, shut, receive,
  receive_nothing,
}
use yggmail.Storage.Protocol.Turns.{holds, waits_on, Turns}
use yggmail.Storage.Protocol.Sequential.{Answer, Answer-later, Answer-now, task_of, Sequential}
use yggmail.Storage.Protocol.Sequential.Worlds.{performed, failed_world}

pub held-Step :
    {w : World} {s s' : System}
    → Sequential w s
    → Turns s
    → Step s s'
    → (i o : ℕ) → holds o (s'.runner i) ≡ true
    → o < s'.next
held-Step v u (call c t q) i o a = ground (arith, v.held i o)
held-Step v u (load_set c t q r) i o a = ground (arith, v.held i o)
held-Step v u (load_clear c t q r) i o a = ground (arith, v.held i o)
held-Step v u (spawn c m t q r) i o a = ground (arith, v.held i o, v.held m o)
held-Step v u (win m q r) i o a = ground (arith, v.held i o, v.held m o)
held-Step v u (lose m q r) i o a = ground (arith, v.held i o, v.held m o)
held-Step v u (take c m t q r) i o a = ground (arith, v.held i o, v.held m o)
held-Step v u (begin_well m k t q e b f) i o a = ground (arith, v.held i o, v.held m o)
held-Step v u (begin_badly m k t q e b f) i o a = ground (arith, v.held i o, v.held m o)
held-Step v u (perform m k t q e) i o a = ground (arith, v.held i o, v.held m o)
held-Step v u (shut m k q) i o a = ground (arith, v.held i o, v.held m o)
held-Step v u (receive c k t z r q h) i o a = ground (arith, v.held i o)
held-Step v u (receive_nothing c k t z q h) i o a = ground (arith, v.held i o)

pub awaited-Step :
    {w : World} {s s' : System}
    → Sequential w s
    → Turns s
    → Step s s'
    → (i o : ℕ) → waits_on o (s'.caller i) ≡ true
    → o < s'.next
awaited-Step v u (call c t q) i o a = ground (arith, v.awaited i o)
awaited-Step v u (load_set c t q r) i o a = ground (arith, v.awaited i o)
awaited-Step v u (load_clear c t q r) i o a = ground (arith, v.awaited i o)
awaited-Step v u (spawn c m t q r) i o a = ground (arith, v.awaited i o)
awaited-Step v u (win m q r) i o a = ground (arith, v.awaited i o)
awaited-Step v u (lose m q r) i o a = ground (arith, v.awaited i o)
awaited-Step v u (take c m t q r) i o a = ground (arith, v.awaited i o)
awaited-Step v u (begin_well m k t q e b f) i o a = ground (arith, v.awaited i o)
awaited-Step v u (begin_badly m k t q e b f) i o a = ground (arith, v.awaited i o)
awaited-Step v u (perform m k t q e) i o a = ground (arith, v.awaited i o)
awaited-Step v u (shut m k q) i o a = ground (arith, v.awaited i o)
awaited-Step v u (receive c k t z r q h) i o a = ground (arith, v.awaited i o)
awaited-Step v u (receive_nothing c k t z q h) i o a = ground (arith, v.awaited i o)

pub own-Step :
    {w : World} {s s' : System}
    → Sequential w s
    → Turns s
    → Step s s'
    → (i o : ℕ) (x : Task) → s'.caller i ≡ waiting x o
    → task_of (s'.wait o) ≡ some x
own-Step v u (call c t q) i o x a = ground (arith, v.own i o x)
own-Step v u (load_set c t q r) i o x a = ground (arith, v.own i o x)
own-Step v u (load_clear c t q r) i o x a = ground (arith, v.own i o x)
own-Step v u (spawn c m t q r) i o x a = ground (arith, v.own i o x)
own-Step v u (win m q r) i o x a = ground (arith, v.own i o x)
own-Step v u (lose m q r) i o x a = ground (arith, v.own i o x)
own-Step v u (take c m t q r) i o x a = ground (arith, v.own i o x, v.awaited i o)
own-Step v u (begin_well m k t q e b f) i o x a = ground (arith, v.own i o x)
own-Step v u (begin_badly m k t q e b f) i o x a = ground (arith, v.own i o x)
own-Step v u (perform m k t q e) i o x a = ground (arith, v.own i o x)
own-Step v u (shut m k q) i o x a = ground (arith, v.own i o x)
own-Step v u (receive c k t z r q h) i o x a = ground (arith, v.own i o x)
own-Step v u (receive_nothing c k t z q h) i o x a = ground (arith, v.own i o x)

sent_same :
    {w : World} {log : List Task} {t x : Task} {r y : Result Done}
    → Answer w log t r
    → Wait.sent t r ≡ sent x y
    → Answer w log x y
sent_same {w} {log} {t} {x} {r} {y} now same =
    let p : t ≡ x = cc in
    let q : r ≡ y = cc in subst (λ z. Answer w log z y) p (subst (λ z. Answer w log t z) q now)

pub answers-Step :
    {w : World} {s s' : System}
    → Sequential w s
    → Turns s
    → Step s s'
    → (o : ℕ) (x : Task) (y : Result Done) → s'.wait o ≡ sent x y
    → Answer w s'.log x y
answers-Step v u (call c t q) o x y a = v.answers o x y (ground arith)
answers-Step v u (load_set c t q r) o x y a = v.answers o x y (ground arith)
answers-Step v u (load_clear c t q r) o x y a = v.answers o x y (ground arith)
answers-Step v u (spawn c m t q r) o x y a = v.answers o x y (ground arith)
answers-Step v u (win m q r) o x y a = v.answers o x y (ground arith)
answers-Step v u (lose m q r) o x y a = v.answers o x y (ground arith)
answers-Step v u (take c m t q r) o x y a = v.answers o x y (ground arith)
answers-Step v u (begin_well m k t q e b f) o x y a = v.answers o x y (ground arith)
answers-Step v u (begin_badly m k t q e b f) o x y a = Answer-later t (v.answers o x y a)
answers-Step {w} {s} v u (perform m k t q e) o x y a = elim (Bool-cases (k == o)) [
  | inl n ↦
      let same : Wait.sent t (t.f s.world).0 ≡ sent x y = rw n at a in
      let now = Answer-now w s.log t (t.f s.world).0 (ap (λ z. z.0) (performed m k t v u q e)) in
      sent_same now same
  | inr n ↦ Answer-later t (v.answers o x y (rw n at a))
]
answers-Step v u (shut m k q) o x y a = v.answers o x y (ground arith)
answers-Step v u (receive c k t z r q h) o x y a = v.answers o x y (ground arith)
answers-Step v u (receive_nothing c k t z q h) o x y a = v.answers o x y (ground arith)

shut_drops :
    {w : World} {s : System} (i k : ℕ)
    → Sequential w s
    → (x : Wait) → s.runner i ≡ closing k
    → s.wait k ≡ x
    → (t : Task) → close x ≡ closed t
    → Answer w s.log t (ok tt)
shut_drops i k v (unsent u) q e t h = v.dropped i k t q (cc)
shut_drops i k v (closed u) q e t h = v.drops k t (cc)
shut_drops i k v vacant q e t h = cc
shut_drops i k v (sent u r) q e t h = cc

pub drops-Step :
    {w : World} {s s' : System}
    → Sequential w s
    → Turns s
    → Step s s'
    → (o : ℕ) (x : Task) → s'.wait o ≡ closed x
    → Answer w s'.log x (ok tt)
drops-Step v u (call c t q) o x a = v.drops o x (ground arith)
drops-Step v u (load_set c t q r) o x a = v.drops o x (ground arith)
drops-Step v u (load_clear c t q r) o x a = v.drops o x (ground arith)
drops-Step v u (spawn c m t q r) o x a = v.drops o x (ground arith)
drops-Step v u (win m q r) o x a = v.drops o x (ground arith)
drops-Step v u (lose m q r) o x a = v.drops o x (ground arith)
drops-Step v u (take c m t q r) o x a = v.drops o x (ground arith)
drops-Step v u (begin_well m k t q e b f) o x a = v.drops o x (ground arith)
drops-Step v u (begin_badly m k t q e b f) o x a = Answer-later t (v.drops o x a)
drops-Step v u (perform m k t q e) o x a = Answer-later t (v.drops o x (ground arith))
drops-Step {w} {s} v u (shut m k q) o x a = elim (Bool-cases (k == o)) [
  | inl n ↦ shut_drops m k v (s.wait k) q refl x (rw n at a)
  | inr n ↦ v.drops o x (rw n at a)
]
drops-Step v u (receive c k t z r q h) o x a = v.drops o x (ground arith)
drops-Step v u (receive_nothing c k t z q h) o x a = v.drops o x (ground arith)

pub dropped-Step :
    {w : World} {s s' : System}
    → Sequential w s
    → Turns s
    → Step s s'
    → (i o : ℕ) (x : Task) → s'.runner i ≡ closing o
    → s'.wait o ≡ unsent x
    → Answer w s'.log x (ok tt)
dropped-Step v u (call c t q) i o x a g = v.dropped i o x (ground arith) (ground arith)
dropped-Step v u (load_set c t q r) i o x a g = v.dropped i o x (ground arith) (ground arith)
dropped-Step v u (load_clear c t q r) i o x a g = v.dropped i o x (ground arith) (ground arith)
dropped-Step v u (spawn c m t q r) i o x a g = v.dropped i o x (ground arith) (ground arith)
dropped-Step v u (win m q r) i o x a g = v.dropped i o x (ground arith) (ground arith)
dropped-Step v u (lose m q r) i o x a g = v.dropped i o x (ground arith) (ground arith)
dropped-Step {w} {s} v u (take c m t q r) i o x a g =
    v.dropped i o x (ground arith) (ground (arith, v.held i o))
dropped-Step v u (begin_well m k t q e b f) i o x a g =
    v.dropped i o x (ground arith) (ground arith)
dropped-Step {w} {s} v u (begin_badly m k t q e b f) i o x a g = elim (Bool-cases (m == i)) [
  | inl n ↦
      let same : t ≡ x = ground arith in
      subst (λ z. Answer w (s.log ++ t ∷ []) z (ok tt)) same
        (Answer-now w s.log t (ok tt) (ap (λ z. z.0) (sym (failed_world m k t v u q b f))))
  | inr n ↦ Answer-later t (v.dropped i o x (rw n at a) g)
]
dropped-Step v u (perform m k t q e) i o x a g =
    Answer-later t (v.dropped i o x (ground (arith, u.alone m i)) (ground arith))
dropped-Step v u (shut m k q) i o x a g = v.dropped i o x (ground arith) (ground arith)
dropped-Step v u (receive c k t z r q h) i o x a g = v.dropped i o x (ground arith) (ground arith)
dropped-Step v u (receive_nothing c k t z q h) i o x a g =
    v.dropped i o x (ground arith) (ground arith)
