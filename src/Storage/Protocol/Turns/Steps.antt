-- ===== src/Storage/Protocol/Turns/Steps.antt =====
-- Steps of the writer, and the turns of its goroutines.
use yggmail.Base.{ℕ, suc, ◌+◌, ◌≤◌, ◌≡◌, refl, ◌⊎◌, inl, inr, true, ◌==◌, ==_iff, arith, Bool-cases}
use yggmail.Storage.Types.{World}
use yggmail.Storage.Protocol.{
  absent, System, Step, call, load_set, load_clear, spawn, win, lose, take, begin_well, begin_badly,
  perform, shut, receive, receive_nothing, initial, Reach, start, later,
}
use yggmail.Storage.Protocol.Turns.{
  is_active, is_starting, holds, in_hand, closes, is_made, is_unsent, is_answered, is_ready,
  waits_on, Turns,
}

flagged-Step :
    {s t : System} → Turns s → Step s t → (i : ℕ) → is_active (t.runner i) ≡ true → t.running ≡ true
flagged-Step v (call c t q) i a = ground (arith, v.flagged i)
flagged-Step v (load_set c t q r) i a = ground (arith, v.flagged i)
flagged-Step v (load_clear c t q r) i a = ground (arith, v.flagged i)
flagged-Step v (spawn c m t q r) i a = ground (arith, v.flagged i, v.flagged m)
flagged-Step v (win m q r) i a = ground (arith, v.flagged i, v.flagged m)
flagged-Step v (lose m q r) i a = ground (arith, v.flagged i, v.flagged m)
flagged-Step v (take c m t q r) i a = ground (arith, v.flagged i, v.flagged m)
flagged-Step v (begin_well m k t q u b f) i a = ground (arith, v.flagged i, v.flagged m)
flagged-Step v (begin_badly m k t q u b f) i a = ground (arith, v.flagged i, v.flagged m)
flagged-Step v (perform m k t q u) i a = ground (arith, v.flagged i, v.flagged m)
flagged-Step v (shut m k q) i a = ground (arith, v.flagged i, v.flagged m)
flagged-Step v (receive c k t u r q h) i a = ground (arith, v.flagged i)
flagged-Step v (receive_nothing c k t u q h) i a = ground (arith, v.flagged i)

alone-Step :
    {s t : System}
    → Turns s
    → Step s t
    → (i j : ℕ) → is_active (t.runner i) ≡ true
    → is_active (t.runner j) ≡ true
    → i ≡ j
alone-Step v (call c t q) i j a o = ground (arith, v.alone i j)
alone-Step v (load_set c t q r) i j a o = ground (arith, v.alone i j)
alone-Step v (load_clear c t q r) i j a o = ground (arith, v.alone i j)
alone-Step v (spawn c m t q r) i j a o = ground (arith, v.alone i j, v.alone m i, v.alone m j)
alone-Step v (win m q r) i j a o = ground (arith, v.flagged i, v.flagged j, ==_iff m i, ==_iff m j)
alone-Step v (lose m q r) i j a o = ground (arith, v.alone i j, v.alone m i, v.alone m j)
alone-Step v (take c m t q r) i j a o = ground (arith, v.alone i j, v.alone m i, v.alone m j)
alone-Step v (begin_well m k t q u b f) i j a o =
    ground (arith, v.alone i j, v.alone m i, v.alone m j)
alone-Step v (begin_badly m k t q u b f) i j a o =
    ground (arith, v.alone i j, v.alone m i, v.alone m j)
alone-Step v (perform m k t q u) i j a o = ground (arith, v.alone i j, v.alone m i, v.alone m j)
alone-Step v (shut m k q) i j a o = ground (arith, v.alone i j, v.alone m i, v.alone m j)
alone-Step v (receive c k t u r q h) i j a o = ground (arith, v.alone i j)
alone-Step v (receive_nothing c k t u q h) i j a o = ground (arith, v.alone i j)

awake-Step :
    {s t : System}
    → Turns s
    → Step s t
    → t.running ≡ true
    → (i : ℕ) × (is_active (t.runner i) ≡ true)
awake-Step v (call c t q) a = let (i, a) = v.awake (ground arith) in (i, ground arith)
awake-Step v (load_set c t q r) a = let (i, a) = v.awake (ground arith) in (i, ground arith)
awake-Step v (load_clear c t q r) a = let (i, a) = v.awake (ground arith) in (i, ground arith)
awake-Step v (spawn c m t q r) a = let (i, a) = v.awake (ground arith) in (i, ground arith)
awake-Step v (win m q r) a = (m, ground arith)
awake-Step v (lose m q r) a = let (i, a) = v.awake (ground arith) in (i, ground arith)
awake-Step v (take c m t q r) a = let (i, a) = v.awake (ground arith) in (i, ground arith)
awake-Step v (begin_well m k t q u b f) a = let (i, a) = v.awake (ground arith) in (i, ground arith)
awake-Step v (begin_badly m k t q u b f) a =
    let (i, a) = v.awake (ground arith) in (i, ground arith)
awake-Step v (perform m k t q u) a = let (i, a) = v.awake (ground arith) in (i, ground arith)
awake-Step v (shut m k q) a = let (i, a) = v.awake (ground arith) in (i, ground arith)
awake-Step v (receive c k t u r q h) a = let (i, a) = v.awake (ground arith) in (i, ground arith)
awake-Step v (receive_nothing c k t u q h) a =
    let (i, a) = v.awake (ground arith) in (i, ground arith)

heard-Step :
    {s t : System}
    → Turns s
    → Step s t
    → (o : ℕ) → is_ready (t.caller o) ≡ true
    → (t.running ≡ true) ⊎ ((i : ℕ) × (is_starting (t.runner i) ≡ true))
heard-Step v (call c t q) o a = v.heard o (ground arith)
heard-Step v (load_set c t q r) o a = inl r
heard-Step v (load_clear c t q r) o a = v.heard o (ground arith)
heard-Step v (spawn c m t q r) o a = inr (m, ground arith)
heard-Step v (win m q r) o a = inl refl
heard-Step v (lose m q r) o a = inl r
heard-Step v (take c m t q r) o a = inl (v.flagged m (ground arith))
heard-Step v (begin_well m k t q u b f) o a = inl (v.flagged m (ground arith))
heard-Step v (begin_badly m k t q u b f) o a = inl (v.flagged m (ground arith))
heard-Step v (perform m k t q u) o a = inl (v.flagged m (ground arith))
heard-Step v (shut m k q) o a = inl (v.flagged m (ground arith))
heard-Step v (receive c k t u r q h) o a = v.heard o (ground arith)
heard-Step v (receive_nothing c k t u q h) o a = v.heard o (ground arith)

in_hands-Step :
    {s t : System}
    → Turns s
    → Step s t
    → (i o : ℕ) → in_hand o (t.runner i) ≡ true
    → is_unsent (t.wait o) ≡ true
in_hands-Step v (call c t q) i o a = ground (arith, v.in_hands i o)
in_hands-Step v (load_set c t q r) i o a = ground (arith, v.in_hands i o)
in_hands-Step v (load_clear c t q r) i o a = ground (arith, v.in_hands i o)
in_hands-Step v (spawn c m t q r) i o a =
    ground (arith, v.in_hands i o, v.in_hands m o, v.alone m i)
in_hands-Step v (win m q r) i o a = ground (arith, v.in_hands i o, v.in_hands m o, v.alone m i)
in_hands-Step v (lose m q r) i o a = ground (arith, v.in_hands i o, v.in_hands m o, v.alone m i)
in_hands-Step v (take c m t q r) i o a = ground (arith, v.in_hands i o, v.in_hands m o, v.alone m i)
in_hands-Step v (begin_well m k t q u b f) i o a =
    ground (arith, v.in_hands i o, v.in_hands m o, v.alone m i)
in_hands-Step v (begin_badly m k t q u b f) i o a =
    ground (arith, v.in_hands i o, v.in_hands m o, v.alone m i)
in_hands-Step v (perform m k t q u) i o a =
    ground (arith, v.in_hands i o, v.in_hands m o, v.alone m i)
in_hands-Step v (shut m k q) i o a = ground (arith, v.in_hands i o, v.in_hands m o, v.alone m i)
in_hands-Step v (receive c k t u r q h) i o a = ground (arith, v.in_hands i o)
in_hands-Step v (receive_nothing c k t u q h) i o a = ground (arith, v.in_hands i o)

made-Step :
    {s t : System}
    → Turns s
    → Step s t
    → (i o : ℕ) → closes o (t.runner i) ≡ true
    → is_made (t.wait o) ≡ true
made-Step v (call c t q) i o a = ground (arith, v.made i o)
made-Step v (load_set c t q r) i o a = ground (arith, v.made i o)
made-Step v (load_clear c t q r) i o a = ground (arith, v.made i o)
made-Step v (spawn c m t q r) i o a = ground (arith, v.made i o, v.made m o)
made-Step v (win m q r) i o a = ground (arith, v.made i o, v.made m o)
made-Step v (lose m q r) i o a = ground (arith, v.made i o, v.made m o)
made-Step v (take c m t q r) i o a = ground (arith, v.made i o, v.made m o)
made-Step v (begin_well m k t q u b f) i o a = ground (arith, v.made i o, v.made m o)
made-Step v (begin_badly m k t q u b f) i o a = ground (arith, v.made i o, v.made m o)
made-Step v (perform m k t q u) i o a = ground (arith, v.made i o, v.made m o)
made-Step v (shut m k q) i o a = ground (arith, v.made i o, v.made m o)
made-Step v (receive c k t u r q h) i o a = ground (arith, v.made i o)
made-Step v (receive_nothing c k t u q h) i o a = ground (arith, v.made i o)

served-Step :
    {s t : System}
    → Turns s
    → Step s t
    → (o n : ℕ) → waits_on n (t.caller o) ≡ true
    → (is_answered (t.wait n) ≡ true) ⊎ ((i : ℕ) × (holds n (t.runner i) ≡ true))
served-Step v (call c t q) o n a = v.served o n (ground arith)
served-Step v (load_set c t q r) o n a = v.served o n (ground arith)
served-Step v (load_clear c t q r) o n a = v.served o n (ground arith)
served-Step v (spawn c m t q r) o n a = elim (v.served o n (ground arith)) [
  | inl done ↦ inl (ground arith)
  | inr (i, held) ↦ inr (i, ground arith)
]
served-Step v (win m q r) o n a = elim (v.served o n (ground arith)) [
  | inl done ↦ inl (ground arith)
  | inr (i, held) ↦ inr (i, ground arith)
]
served-Step v (lose m q r) o n a = elim (v.served o n (ground arith)) [
  | inl done ↦ inl (ground arith)
  | inr (i, held) ↦ inr (i, ground arith)
]
served-Step {s} v (take c m t q r) o n a = elim (Bool-cases (s.next == n)) [
  | inl e ↦ inr (m, ground arith)
  | inr e ↦ elim (v.served o n (ground arith)) [
    | inl done ↦ inl (ground arith)
    | inr (i, held) ↦ inr (i, ground arith)
  ]
]
served-Step v (begin_well m k t q u b f) o n a = elim (v.served o n (ground arith)) [
  | inl done ↦ inl (ground arith)
  | inr (i, held) ↦ inr (i, ground arith)
]
served-Step v (begin_badly m k t q u b f) o n a = elim (v.served o n (ground arith)) [
  | inl done ↦ inl (ground arith)
  | inr (i, held) ↦ inr (i, ground arith)
]
served-Step v (perform m k t q u) o n a = elim (v.served o n (ground arith)) [
  | inl done ↦ inl (ground arith)
  | inr (i, held) ↦ inr (i, ground arith)
]
served-Step v (shut m k q) o n a = elim (v.served o n (ground arith)) [
  | inl done ↦ inl (ground arith)
  | inr (i, held) ↦ elim (Bool-cases (m == i)) [
    | inl e ↦ inl (ground (arith, v.made m n))
    | inr e ↦ inr (i, ground arith)
  ]
]
served-Step v (receive c k t u r q h) o n a = v.served o n (ground arith)
served-Step v (receive_nothing c k t u q h) o n a = v.served o n (ground arith)

free-Step : {s t : System} → Turns s → Step s t → (n : ℕ) × ((i : ℕ) → n ≤ i → t.runner i ≡ absent)
free-Step v (call c t q) = v.free
free-Step v (load_set c t q r) = v.free
free-Step v (load_clear c t q r) = v.free
free-Step v (spawn c m t q r) =
    let (n, h) = v.free in (n + suc m, λ i l. ground (arith, h i (omega arith)))
free-Step v (win m q r) = let (n, h) = v.free in (n, λ i l. ground (arith, h i l, h m))
free-Step v (lose m q r) = let (n, h) = v.free in (n, λ i l. ground (arith, h i l, h m))
free-Step v (take c m t q r) = let (n, h) = v.free in (n, λ i l. ground (arith, h i l, h m))
free-Step v (begin_well m k t q u b f) =
    let (n, h) = v.free in (n, λ i l. ground (arith, h i l, h m))
free-Step v (begin_badly m k t q u b f) =
    let (n, h) = v.free in (n, λ i l. ground (arith, h i l, h m))
free-Step v (perform m k t q u) = let (n, h) = v.free in (n, λ i l. ground (arith, h i l, h m))
free-Step v (shut m k q) = let (n, h) = v.free in (n, λ i l. ground (arith, h i l, h m))
free-Step v (receive c k t u r q h) = v.free
free-Step v (receive_nothing c k t u q h) = v.free

pub Turns-Step : {s t : System} → Turns s → Step s t → Turns t
Turns-Step v st = record {
  flagged = flagged-Step v st;
  alone = alone-Step v st;
  free = free-Step v st;
  awake = awake-Step v st;
  heard = heard-Step v st;
  in_hands = in_hands-Step v st;
  made = made-Step v st;
  served = served-Step v st;
}

Turns-initial : (w : World) → Turns (initial w)
Turns-initial w = record {
  flagged = λ i h. cc;
  alone = λ i j h k. cc;
  free = (0, λ i l. refl);
  awake = λ h. cc;
  heard = λ c h. cc;
  in_hands = λ i k h. cc;
  made = λ i k h. cc;
  served = λ c k h. cc;
}

pub Reach-Turns : {w : World} {s : System} → Reach w s → Turns s
Reach-Turns {w} start = Turns-initial w
Reach-Turns (later r st) = Turns-Step (Reach-Turns r) st

-- In no reachable state are two goroutines past the compare-and-swap of `run`.
pub one_runner :
    {w : World} {s : System}
    → Reach w s
    → (i j : ℕ) → is_active (s.runner i) ≡ true
    → is_active (s.runner j) ≡ true
    → i ≡ j
one_runner r i j a b = (Reach-Turns r).alone i j a b
