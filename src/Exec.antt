-- ===== src/Exec.antt =====
-- Go functions that change state and return an `error`: what was written before an error stays
-- written, so the state comes back in every case. A panic ends the call as well.
pub mod Preserves
pub mod Completes
pub mod Gives
use yggmail.Base.{Bool, true, false, List, [], ◌∷◌}

-- The errors that a caller can tell apart. `fmt.Errorf("…: %w", err)` keeps its cause.
pub data Error : Type 0 where
  no_rows unique foreign_key engine_fault out_of_range : Error
  protected not_found wrong_identity bad_password bad_address bad_domain bad_hex : Error
  unexpected_mode message_error dial_error remote_refused : Error

-- `errors.Is(err, sql.ErrNoRows)`
abbrev pub is_no_rows : Error → Bool
is_no_rows no_rows = true
is_no_rows _ = false

pub data Result {ℓ} (A : Type ℓ) : Type ℓ where
  ok : A → Result A
  err : Error → Result A
  panic : Result A

-- A value or an error in the caller's hands.
pub data Tried {ℓ} (A : Type ℓ) : Type ℓ where
  done : A → Tried A
  failed : Error → Tried A

abbrev pub Exec {ℓ} : Type ℓ → Type ℓ → Type ℓ
Exec S A = S → Result A × S

module _ {ℓ} {S A : Type ℓ} where
  pub pure : A → Exec S A
  pure a s = (ok a, s)

  pub fail : Error → Exec S A
  fail e s = (err e, s)

  pub crash : Exec S A
  crash s = (panic, s)

  -- A result that needs no state.
  pub lift : Result A → Exec S A
  lift r s = (r, s)

  abbrev pub settle : Result A × S → Result (Tried A) × S
  settle (ok a, s) = (ok (done a), s)
  settle (err e, s) = (ok (failed e), s)
  settle (panic, s) = (panic, s)

  -- `a, err := m()` where the caller goes on in both cases. A panic is not caught.
  pub attempt : Exec S A → Exec S (Tried A)
  attempt m s = settle (m s)

  -- `return a, err` with what was tried before.
  pub rethrow : Tried A → Exec S A
  rethrow (done a) s = (ok a, s)
  rethrow (failed e) s = (err e, s)

module _ {ℓ} {S A B : Type ℓ} where
  abbrev pub resume : (A → Exec S B) → Result A × S → Result B × S
  resume f (ok a, s) = f a s
  resume f (err e, s) = (err e, s)
  resume f (panic, s) = (panic, s)

  infixl 5 ◌>>=◌ ◌>>◌
  -- Opening this opens what actions are built from.
  unfoldable pub ◌>>=◌ : Exec S A → (A → Exec S B) → Exec S B
  unfolding pure fail crash lift attempt rethrow
  ◌>>=◌ m f s = resume f (m s)

  abbrev pub ◌>>◌ : Exec S A → Exec S B → Exec S B
  m >> k = m >>= λ _. k

abbrev pub Done : Type 0
Done = Unit

-- `for _, x := range xs { body(x) }`, ended by the first error.
unfoldable pub for_each : {S X : Type 0} → List X → (X → Exec S Done) → Exec S Done
unfolding ◌>>=◌
for_each [] body = pure tt
for_each (x ∷ xs) body = body x >> for_each xs body
