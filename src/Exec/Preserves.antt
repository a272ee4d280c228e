-- ===== src/Exec/Preserves.antt =====
-- Invariants of actions: one rule for each way to build an action, for `search`.
use yggmail.Base.{◌≡◌, ap, Bool, true, false, List, [], ◌∷◌, if◌then◌else◌}
use yggmail.Exec.{
  Error, Result, ok, err, panic, Exec, Done, pure, fail, crash, lift, attempt, rethrow, Tried, done,
  failed, for_each, resume, settle, ◌>>=◌,
}

-- However `m` ends, it takes a state with `P` to a state with `P`.
pub record Preserves {S A : Type 0} (P : S → Type 0) (m : Exec S A) : Type 0 where
  pub from_state : (s : S) → P s → P (m s).1

module _ {S A : Type 0} {P : S → Type 0} where
  pub Preserves-pure : (a : A) → Preserves P (pure a)
  unfolding pure
  Preserves-pure a = record { from_state = λ s h. h }

  pub Preserves-fail : (e : Error) → Preserves P (fail {A = A} e)
  unfolding fail
  Preserves-fail e = record { from_state = λ s h. h }

  pub Preserves-crash : Preserves P (crash {A = A})
  unfolding crash
  Preserves-crash = record { from_state = λ s h. h }

  pub Preserves-lift : (r : Result A) → Preserves P (lift r)
  unfolding lift
  Preserves-lift r = record { from_state = λ s h. h }

  pub Preserves-rethrow : (r : Tried A) → Preserves P (rethrow r)
  unfolding rethrow
  Preserves-rethrow (done a) = record { from_state = λ s h. h }
  Preserves-rethrow (failed e) = record { from_state = λ s h. h }

  pub Preserves-if :
      (b : Bool) (m n : Exec S A) → Preserves P m → Preserves P n → Preserves P (if b then m else n)
  Preserves-if true m n hm hn = hm
  Preserves-if false m n hm hn = hn

  pub Preserves-attempt : (m : Exec S A) → Preserves P m → Preserves P (attempt m)
  unfolding ◌>>=◌
  Preserves-attempt m hm = record {
    from_state = λ s h. let (r, t) = m s in settled r t (hm.from_state s h);
  }
    where
      settled : (r : Result A) (t : S) → P t → P (attempt (λ (_ : S). (r, t)) t).1
      settled (ok a) t h = h
      settled (err e) t h = h
      settled panic t h = h

module _ {S A B : Type 0} {P : S → Type 0} where
  pub Preserves-bind :
      (m : Exec S A) (f : A → Exec S B)
      → Preserves P m
      → ((a : A) → Preserves P (f a))
      → Preserves P (m >>= f)
  unfolding ◌>>=◌
  Preserves-bind m f hm hf = record {
    from_state = λ s h. let (r, t) = m s in resumed r t (hm.from_state s h);
  }
    where
      resumed : (r : Result A) (t : S) → P t → P (((λ (_ : S). (r, t)) >>= f) t).1
      resumed (ok a) t h = (hf a).from_state t h
      resumed (err e) t h = h
      resumed panic t h = h

-- A property that the first action has brought about, and the second one keeps.
module _ {S A B : Type 0} (P : S → Type 0) where
  resumed_from :
      (f : A → Exec S B) (p : Result A × S)
      → ((a : A) → Preserves P (f a))
      → P p.1
      → P (resume f p).1
  resumed_from f (ok a, t) keeps h = (keeps a).from_state t h
  resumed_from f (err e, t) keeps h = h
  resumed_from f (panic, t) keeps h = h

  pub bind-from :
      (m : Exec S A) (f : A → Exec S B) (s : S)
      → ((a : A) → Preserves P (f a))
      → P (m s).1
      → P ((m >>= f) s).1
  unfolding ◌>>=◌
  bind-from m f s keeps h = resumed_from f (m s) keeps h

module _ {S A : Type 0} (P : S → Type 0) where
  settled_from : (p : Result A × S) → P p.1 → P (settle p).1
  settled_from (ok a, t) h = h
  settled_from (err e, t) h = h
  settled_from (panic, t) h = h

  pub attempt-from : (m : Exec S A) (s : S) → P (m s).1 → P (attempt m s).1
  unfolding attempt
  attempt-from m s h = settled_from (m s) h

-- A state that a preserving action leads to.
pub kept_at :
    {S A : Type 0} {P : S → Type 0} {m : Exec S A} {s t : S} {r : Result A}
    → Preserves P m
    → m s ≡ (r, t)
    → P s
    → P t
kept_at {P} {s} k q h = rw (← ap (λ z. z.1) q) (k.from_state s h)

pub Preserves-both :
    {S A : Type 0} {P Q : S → Type 0} {m : Exec S A}
    → Preserves P m
    → Preserves Q m
    → Preserves (λ s. P s × Q s) m
Preserves-both p q = record { from_state = λ s h. (p.from_state s h.0, q.from_state s h.1) }

pub Preserves-for_each :
    {S X : Type 0} {P : S → Type 0} (xs : List X) (body : X → Exec S Done)
    → ((x : X) → Preserves P (body x))
    → Preserves P (for_each xs body)
unfolding for_each
Preserves-for_each [] body h = Preserves-pure tt
Preserves-for_each (x ∷ xs) body h =
    Preserves-bind (body x) (λ _. for_each xs body) (h x) (λ _. Preserves-for_each xs body h)

pub ruleset preserves_rules = (
  Preserves-pure, Preserves-fail, Preserves-crash, Preserves-lift, Preserves-rethrow, Preserves-if,
  Preserves-attempt, Preserves-bind, Preserves-for_each,
)
