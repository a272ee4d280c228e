-- ===== src/Exec/Completes.antt =====
-- Actions that never panic, and actions that always return a value: rules for `search`.
use yggmail.Base.{◌≡◌, ◌≢◌, refl, Bool, true, false, List, [], ◌∷◌, if◌then◌else◌}
use yggmail.Exec.{
  Error, Result, ok, err, panic, Exec, Done, pure, fail, attempt, rethrow, Tried, done, failed,
  settle, resume, for_each, ◌>>=◌,
}

pub record NeverPanics {S A : Type 0} (m : Exec S A) : Type 0 where
  pub at_state : (s : S) → (m s).0 ≢ panic

pub record Completes {S A : Type 0} (m : Exec S A) : Type 0 where
  pub value : S → A
  pub returns : (s : S) → (m s).0 ≡ ok (value s)

module _ {S A : Type 0} where
  pub NeverPanics-pure : (a : A) → NeverPanics {S = S} (pure a)
  unfolding pure
  NeverPanics-pure a = record { at_state = λ s h. cc }

  pub NeverPanics-fail : (e : Error) → NeverPanics {S = S} (fail {A = A} e)
  unfolding fail
  NeverPanics-fail e = record { at_state = λ s h. cc }

  pub NeverPanics-rethrow : (r : Tried A) → NeverPanics {S = S} (rethrow r)
  unfolding rethrow
  NeverPanics-rethrow (done a) = record { at_state = λ s h. cc }
  NeverPanics-rethrow (failed e) = record { at_state = λ s h. cc }

  pub NeverPanics-if :
      (b : Bool) (m n : Exec S A) → NeverPanics m → NeverPanics n → NeverPanics (if b then m else n)
  NeverPanics-if true m n hm hn = hm
  NeverPanics-if false m n hm hn = hn

  settle-ne-panic : (p : Result A × S) → p.0 ≢ panic → (settle p).0 ≢ panic
  settle-ne-panic (ok a, s) h = λ q. cc
  settle-ne-panic (err e, s) h = λ q. cc
  settle-ne-panic (panic, s) h = λ q. h refl

  pub NeverPanics-attempt : (m : Exec S A) → NeverPanics m → NeverPanics (attempt m)
  unfolding attempt
  NeverPanics-attempt m hm = record { at_state = λ s. settle-ne-panic (m s) (hm.at_state s) }

module _ {S A B : Type 0} where
  resume-ne-panic :
      (f : A → Exec S B) (p : Result A × S)
      → ((a : A) → NeverPanics (f a))
      → p.0 ≢ panic
      → (resume f p).0 ≢ panic
  resume-ne-panic f (ok a, s) hf h = (hf a).at_state s
  resume-ne-panic f (err e, s) hf h = λ q. cc
  resume-ne-panic f (panic, s) hf h = λ q. h refl

  pub NeverPanics-bind :
      (m : Exec S A) (f : A → Exec S B)
      → NeverPanics m
      → ((a : A) → NeverPanics (f a))
      → NeverPanics (m >>= f)
  unfolding ◌>>=◌
  NeverPanics-bind m f hm hf = record { at_state = λ s. resume-ne-panic f (m s) hf (hm.at_state s) }

pub ruleset calm_rules = (
  NeverPanics-pure, NeverPanics-fail, NeverPanics-rethrow, NeverPanics-if, NeverPanics-attempt,
  NeverPanics-bind,
)

caught : {A : Type 0} (r : Result A) → r ≢ panic → Tried A
caught (ok a) h = done a
caught (err e) h = failed e
caught panic h = absurd (h refl)

module _ {S A : Type 0} where
  settle-eq-ok : (p : Result A × S) (h : p.0 ≢ panic) → (settle p).0 ≡ ok (caught p.0 h)
  unfolding caught
  settle-eq-ok (ok a, s) h = refl
  settle-eq-ok (err e, s) h = refl
  settle-eq-ok (panic, s) h = absurd (h refl)

  pub Completes-attempt : (m : Exec S A) → NeverPanics m → Completes (attempt m)
  unfolding attempt
  Completes-attempt m hm = record {
    value = λ s. caught (m s).0 (hm.at_state s);
    returns = λ s. settle-eq-ok (m s) (hm.at_state s);
  }

  pub Completes-pure : (a : A) → Completes {S = S} (pure a)
  unfolding pure
  Completes-pure a = record { value = λ s. a; returns = λ s. refl }

  pub Completes-if :
      (b : Bool) (m n : Exec S A) → Completes m → Completes n → Completes (if b then m else n)
  Completes-if true m n hm hn = hm
  Completes-if false m n hm hn = hn

module _ {S A B : Type 0} where
  resumed : (f : A → Exec S B) (p : Result A × S) {a : A} → p.0 ≡ ok a → resume f p ≡ f a p.1
  resumed f (r, s) h = rw h refl

  -- A bind goes on with the value, from the state that the first action left.
  pub bind-returns :
      (m : Exec S A) (f : A → Exec S B) (c : Completes m) (s : S)
      → (m >>= f) s ≡ f (c.value s) (m s).1
  unfolding ◌>>=◌
  bind-returns m f c s = resumed f (m s) (c.returns s)

  pub Completes-bind :
      (m : Exec S A) (f : A → Exec S B)
      → Completes m
      → ((a : A) → Completes (f a))
      → Completes (m >>= f)
  Completes-bind m f hm hf = record {
    value = λ s. (hf (hm.value s)).value (m s).1;
    returns = λ s. rw (bind-returns m f hm s) ((hf (hm.value s)).returns (m s).1);
  }

pub Completes-for_each :
    {S X : Type 0} (xs : List X) (body : X → Exec S Done)
    → ((x : X) → Completes (body x))
    → Completes (for_each xs body)
unfolding for_each
Completes-for_each [] body h = Completes-pure tt
Completes-for_each (x ∷ xs) body h =
    Completes-bind (body x) (λ _. for_each xs body) (h x) (λ _. Completes-for_each xs body h)

-- A loop whose rounds all return is its rounds in turn.
pub for_each-cons :
    {S X : Type 0} (x : X) (xs : List X) (body : X → Exec S Done) (s : S)
    → Completes (body x)
    → for_each (x ∷ xs) body s ≡ for_each xs body (body x s).1
unfolding for_each
for_each-cons x xs body s c = bind-returns (body x) (λ _. for_each xs body) c s

pub ruleset completes_rules = (
  Completes-attempt, Completes-pure, Completes-if, Completes-bind, Completes-for_each, calm_rules,
)

-- What the second action ensures from every state, a bind ensures where the first one returns.
pub bind-ensures :
    {S A B : Type 0} (P : S → Type 0) (m : Exec S A) (f : A → Exec S B)
    → Completes m
    → ((a : A) (s : S) → P (f a s).1)
    → (s : S) → P ((m >>= f) s).1
bind-ensures P m f c h s = rw (bind-returns m f c s) (h (c.value s) (m s).1)
