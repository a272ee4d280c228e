-- ===== src/Exec/Gives.antt =====
-- What an action gives where it returns a value: rules for `search`.
use mathlib.Core.Path.{subst}
use yggmail.Base.{◌≡◌, refl, Bool, true, false, if◌then◌else◌}
use yggmail.Exec.{Error, Result, ok, err, panic, Exec, pure, fail, crash, resume, ◌>>=◌}

pub record Gives {S A : Type 0} (Q : A → Type 0) (m : Exec S A) : Type 0 where
  pub at_end : (s : S) (a : A) → (m s).0 ≡ ok a → Q a

inside : {A : Type 0} (a b : A) → ok a ≡ ok b → a ≡ b
inside a b e = cc

module _ {S A : Type 0} {Q : A → Type 0} where
  pub Gives-pure : (a : A) → Q a → Gives {S = S} Q (pure a)
  unfolding ◌>>=◌
  Gives-pure a h = record { at_end = λ s b e. subst Q (inside a b e) h }

  pub Gives-fail : (x : Error) → Gives {S = S} Q (fail x)
  unfolding ◌>>=◌
  Gives-fail x = record { at_end = λ s b e. cc }

  pub Gives-crash : Gives {S = S} Q crash
  unfolding ◌>>=◌
  Gives-crash = record { at_end = λ s b e. cc }

  pub Gives-if : (b : Bool) (m n : Exec S A) → Gives Q m → Gives Q n → Gives Q (if b then m else n)
  Gives-if true m n hm hn = hm
  Gives-if false m n hm hn = hn

module _ {S A B : Type 0} {P : A → Type 0} {Q : B → Type 0} where
  resume-Gives :
      (f : A → Exec S B) (p : Result A × S) (b : B)
      → ((a : A) → p.0 ≡ ok a → P a)
      → ((a : A) → P a → Gives Q (f a))
      → (resume f p).0 ≡ ok b
      → Q b
  resume-Gives f (ok a, s) b hm hf h = (hf a (hm a refl)).at_end s b h
  resume-Gives f (err e, s) b hm hf h = cc
  resume-Gives f (panic, s) b hm hf h = cc

  pub Gives-bind :
      (m : Exec S A) (f : A → Exec S B)
      → Gives P m
      → ((a : A) → P a → Gives Q (f a))
      → Gives Q (m >>= f)
  unfolding ◌>>=◌
  Gives-bind m f hm hf = record { at_end = λ s b h. resume-Gives f (m s) b (hm.at_end s) hf h }

module _ {S A B : Type 0} {Q : B → Type 0} where
  -- Where nothing is asked of the first action.
  pub Gives-after :
      (m : Exec S A) (f : A → Exec S B) → ((a : A) → Gives Q (f a)) → Gives Q (m >>= f)
  Gives-after m f hf =
      Gives-bind {P = λ a. Unit} m f (record { at_end = λ s a h. tt }) (λ a u. hf a)

pub ruleset gives_rules = (Gives-pure, Gives-fail, Gives-crash, Gives-if, Gives-after)
