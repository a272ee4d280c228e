-- ===== src/Base/Perms.antt =====
-- What does not depend on the order of rows.
use mathlib.Core.Path.{◌≡◌, refl, ◌∙◌, subst}
use mathlib.Core.Bool.{Bool}
use mathlib.Core.HLevel.{×_prop}
use mathlib.Core.List.{List, [], ◌∷◌, Perm, Permᴰ}
use mathlib.Core.Logic.{∥∥₁_elim}
use native.Mathlib.Nat.{ℕ_set}
use native.Mathlib.Omega.{arith}
use yggmail.Base.Lists.{any, filter, count_if, length, Unique}

Bool-set : IsSet Bool
Bool-set = hlevel

Unique-prop {ℓ} : {A : Type ℓ} (same : A → A → Bool) (xs : List A) → IsProp (Unique same xs)
Unique-prop same [] = hlevel
Unique-prop same (x ∷ xs) = ×_prop (Bool-set _ _) (Unique-prop same xs)

module _ {ℓ} {A : Type ℓ} where
  any-permᴰ : (p : A → Bool) {xs ys : List A} → Permᴰ xs ys → any p xs ≡ any p ys
  any-permᴰ p Permᴰ.nil = refl
  any-permᴰ p (Permᴰ.cons e h) = cc (e, any-permᴰ p h)
  any-permᴰ p (Permᴰ.swap {a} {b} {a'} {b'} e f) = rw (e, f) (ground arith)
  any-permᴰ p (Permᴰ.trans g h) = any-permᴰ p g ∙ any-permᴰ p h

  pub any-perm : (p : A → Bool) {xs ys : List A} → Perm xs ys → any p xs ≡ any p ys
  any-perm p h = ∥∥₁_elim h (Bool-set _ _) (any-permᴰ p)

  count_if-permᴰ : (p : A → Bool) {xs ys : List A} → Permᴰ xs ys → count_if p xs ≡ count_if p ys
  count_if-permᴰ p Permᴰ.nil = refl
  count_if-permᴰ p (Permᴰ.cons {a} {b} e h) = rw e (ground (arith, count_if-permᴰ p h))
  count_if-permᴰ p (Permᴰ.swap e f) = rw (e, f) (ground arith)
  count_if-permᴰ p (Permᴰ.trans g h) = count_if-permᴰ p g ∙ count_if-permᴰ p h

  pub count_if-perm : (p : A → Bool) {xs ys : List A} → Perm xs ys → count_if p xs ≡ count_if p ys
  count_if-perm p h = ∥∥₁_elim h (ℕ_set _ _) (count_if-permᴰ p)

  module _ (same : A → A → Bool) (symmetric : (x y : A) → same x y ≡ same y x) where
    Unique-permᴰ : {xs ys : List A} → Permᴰ xs ys → Unique same xs → Unique same ys
    Unique-permᴰ Permᴰ.nil u = u
    Unique-permᴰ (Permᴰ.cons e h) u = (rw (← e, ← any-permᴰ (same _) h) u.0, Unique-permᴰ h u.1)
    Unique-permᴰ (Permᴰ.swap {a} {b} {a'} {b'} {l} e f) u =
        subst (λ z. Unique same (z ∷ b' ∷ l)) f
          (subst (λ z. Unique same (b ∷ z ∷ l)) e (ground (arith, symmetric a b)))
    Unique-permᴰ (Permᴰ.trans g h) u = Unique-permᴰ h (Unique-permᴰ g u)

    pub Unique-perm : {xs ys : List A} → Perm xs ys → Unique same xs → Unique same ys
    Unique-perm {xs} {ys} h u = ∥∥₁_elim h (Unique-prop same ys) (λ d. Unique-permᴰ d u)

  pub length-filter : (p : A → Bool) (xs : List A) → length (filter p xs) ≡ count_if p xs
  length-filter p [] = refl
  length-filter p (x ∷ xs) = ground (arith, length-filter p xs)
