-- ===== src/Base/Signed.antt =====
-- Signed integers over the native numbers, for Go's `int` and `int32`.
use Prim.Native.Nat.{ℕ, ◌-◌, ◌%◌, ◌^◌}
use mathlib.Core.Bool.{Bool, false}
use yggmail.Base.Tests.{ltb, ◌==◌, if◌then◌else◌}

-- `negsuc n` is -(n + 1).
pub data ℤ : Type 0 where
  pos : ℕ → ℤ
  negsuc : ℕ → ℤ

-- A stored id is never negative; a negative argument of a query equals none of them.
abbrev pub int_eq : ℤ → ℕ → Bool
int_eq (pos n) m = n == m
int_eq (negsuc n) m = false

abbrev pub u32 : ℕ → ℕ
u32 n = n % 2 ^ 32

-- The conversion `int32(i)` of an unsigned value: two's complement.
abbrev pub int32 : ℕ → ℤ
int32 n = let m = u32 n in if ltb m (2 ^ 31) then pos m else negsuc (2 ^ 32 - 1 - m)
