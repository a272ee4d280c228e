-- ===== src/Base/Rows.antt =====
-- Lemmas on filtered, updated and appended lists of rows, and on keys that are unique in them.
use mathlib.Core.Path.{◌≡◌, refl}
use mathlib.Core.Bool.{Bool, true, false, not, ◌&&◌, ◌||◌}
use mathlib.Core.List.{List, [], ◌∷◌, ◌++◌}
use mathlib.Core.Logic.{inl, inr}
use native.Mathlib.Omega.{arith}
use yggmail.Base.Tests.{if◌then◌else◌, Bool-cases}
use yggmail.Base.Lists.{any, filter, All, Unique, update_if}

module _ {ℓ} {A : Type ℓ} where
  pub any-filter : (p f : A → Bool) (xs : List A) → any p (filter f xs) ≡ any (λ x. f x && p x) xs
  any-filter p f [] = refl
  any-filter p f (x ∷ xs) = ground (arith, any-filter p f xs)

  pub any-append : (p : A → Bool) (xs ys : List A) → any p (xs ++ ys) ≡ (any p xs || any p ys)
  any-append p [] ys = refl
  any-append p (x ∷ xs) ys = ground (arith, any-append p xs ys)

  -- A test that holds at fewer items.
  pub any_mono :
      (p q : A → Bool) (xs : List A)
      → ((x : A) → p x ≡ true → q x ≡ true)
      → any p xs ≡ true
      → any q xs ≡ true
  any_mono p q [] h e = e
  any_mono p q (x ∷ xs) h e = ground (arith, h x, any_mono p q xs h)

  pub any_mono_false :
      (p q : A → Bool) (xs : List A)
      → ((x : A) → p x ≡ true → q x ≡ true)
      → any q xs ≡ false
      → any p xs ≡ false
  any_mono_false p q [] h e = refl
  any_mono_false p q (x ∷ xs) h e = ground (arith, h x, any_mono_false p q xs h)

  pub any-filter-false :
      (p q : A → Bool) (xs : List A) → any p xs ≡ false → any p (filter q xs) ≡ false
  any-filter-false p q [] e = refl
  any-filter-false p q (x ∷ xs) e = ground (arith, any-filter-false p q xs)

  -- What passes the test stays, where every such item passes the filter too.
  pub any-filter_keep :
      (p q : A → Bool) (xs : List A)
      → ((x : A) → p x ≡ true → q x ≡ true)
      → any p (filter q xs) ≡ any p xs
  any-filter_keep p q [] h = refl
  any-filter_keep p q (x ∷ xs) h = ground (arith, h x, any-filter_keep p q xs h)

  pub any-filter_gone : (p : A → Bool) (xs : List A) → any p (filter (λ x. not (p x)) xs) ≡ false
  any-filter_gone p [] = refl
  any-filter_gone p (x ∷ xs) = ground (arith, any-filter_gone p xs)

  pub All-mono {κ ν} :
      (P : A → Type κ) (Q : A → Type ν) (xs : List A) → ((x : A) → P x → Q x) → All P xs → All Q xs
  All-mono P Q [] h a = tt
  All-mono P Q (x ∷ xs) h a = (h x a.0, All-mono P Q xs h a.1)

  pub All-append {κ} : (P : A → Type κ) (xs ys : List A) → All P xs → All P ys → All P (xs ++ ys)
  All-append P [] ys a b = b
  All-append P (x ∷ xs) ys a b = (a.0, All-append P xs ys a.1 b)

  pub All-of_any-false : (p : A → Bool) (xs : List A) → any p xs ≡ false → All (λ x. p x ≡ false) xs
  All-of_any-false p [] e = tt
  All-of_any-false p (x ∷ xs) e = ground (arith, All-of_any-false p xs)

  -- The items that a filter keeps have what holds of all, and pass the test.
  pub All-filter {κ ν} :
      (P : A → Type κ) (Q : A → Type ν) (p : A → Bool) (xs : List A)
      → ((x : A) → p x ≡ true → P x → Q x)
      → All P xs
      → All Q (filter p xs)
  All-filter P Q p [] h a = tt
  All-filter P Q p (x ∷ xs) h a = elim (Bool-cases (p x)) [
    | inl e ↦ rw e (h x e a.0, All-filter P Q p xs h a.1)
    | inr e ↦ rw e (All-filter P Q p xs h a.1)
  ]

  pub All-update_if {κ ν} :
      (P : A → Type κ) (Q : A → Type ν) (p : A → Bool) (f : A → A) (xs : List A)
      → ((x : A) → P x → Q (if p x then f x else x))
      → All P xs
      → All Q (update_if p f xs)
  All-update_if P Q p f [] h a = tt
  All-update_if P Q p f (x ∷ xs) h a = (h x a.0, All-update_if P Q p f xs h a.1)

  pub Unique-filter :
      (same : A → A → Bool) (p : A → Bool) (xs : List A)
      → Unique same xs
      → Unique same (filter p xs)
  Unique-filter same p [] u = tt
  Unique-filter same p (x ∷ xs) u = elim (Bool-cases (p x)) [
    | inl e ↦ rw e (any-filter-false (same x) p xs u.0, Unique-filter same p xs u.1)
    | inr e ↦ rw e (Unique-filter same p xs u.1)
  ]

  pub Unique-append_one :
      (same : A → A → Bool) (xs : List A) (y : A)
      → Unique same xs
      → any (λ x. same x y) xs ≡ false
      → Unique same (xs ++ y ∷ [])
  Unique-append_one same [] y u e = (refl, tt)
  Unique-append_one same (x ∷ xs) y u e =
      ground (arith, any-append (same x) xs (y ∷ []), Unique-append_one same xs y)

  -- An update that merges no two keys of rows with `P` keeps keys unique.
  pub any-update_if-false {κ} :
      (P : A → Type κ) (p q : A → Bool) (r : A → Bool) (f : A → A) (xs : List A)
      → ((x : A) → P x → r (if p x then f x else x) ≡ true → q x ≡ true)
      → All P xs
      → any q xs ≡ false
      → any r (update_if p f xs) ≡ false
  any-update_if-false P p q r f [] h a e = refl
  any-update_if-false P p q r f (x ∷ xs) h a e =
      ground (arith, h x a.0, any-update_if-false P p q r f xs h a.1)

  pub Unique-update_if {κ} :
      (P : A → Type κ) (same : A → A → Bool) (p : A → Bool) (f : A → A) (xs : List A)
      → ((x y : A)
          → P x
          → P y
          → same (if p x then f x else x) (if p y then f y else y) ≡ true
          → same x y ≡ true)
      → All P xs
      → Unique same xs
      → Unique same (update_if p f xs)
  Unique-update_if P same p f [] h a u = tt
  Unique-update_if P same p f (x ∷ xs) h a u = (
    any-update_if-false P p (same x) (same (if p x then f x else x)) f xs (λ y py. h x y a.0 py) a.1
        u.0,
    Unique-update_if P same p f xs h a.1 u.1,
  )

  -- A test that holds after the update wherever it held, in a possibly different form.
  pub any-update_if :
      (p q r : A → Bool) (f : A → A) (xs : List A)
      → ((x : A) → q x ≡ true → r (if p x then f x else x) ≡ true)
      → any q xs ≡ true
      → any r (update_if p f xs) ≡ true
  any-update_if p q r f [] h e = e
  any-update_if p q r f (x ∷ xs) h e = ground (arith, h x, any-update_if p q r f xs h)

  pub any-false_of_All : (p : A → Bool) (xs : List A) → All (λ x. p x ≡ false) xs → any p xs ≡ false
  any-false_of_All p [] a = refl
  any-false_of_All p (x ∷ xs) a = ground (arith, any-false_of_All p xs)

  -- An item that passes `q` outlives the deletion of those with `p`, if none of these passes `q`.
  pub any-filter_others :
      (p q : A → Bool) (xs : List A)
      → any q xs ≡ true
      → any (λ x. p x && q x) xs ≡ false
      → any q (filter (λ x. not (p x)) xs) ≡ true
  any-filter_others p q [] e h = e
  any-filter_others p q (x ∷ xs) e h = ground (arith, any-filter_others p q xs)

  pub All-of {κ} : (P : A → Type κ) (xs : List A) → ((x : A) → P x) → All P xs
  All-of P [] h = tt
  All-of P (x ∷ xs) h = (h x, All-of P xs h)
