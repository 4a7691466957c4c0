-- ===== src/Shared/Int.antt =====
-- Go's `int` and `time.Duration` where a sign matters, over the native numbers.
use wacht.Shared.Tests.{ltb, if◌then◌else◌}
use Prim.Native.Nat.{ℕ, ◌+◌, ◌-◌, ◌%◌, ◌^◌, suc}
use mathlib.Core.Bool.{Bool, true}

-- `negsuc n` is -(n + 1).
pub data ℤ : Type 0 where
  pos : ℕ → ℤ
  negsuc : ℕ → ℤ

-- The test `x <= 0`.
abbrev pub is_nonpositive : ℤ → Bool
is_nonpositive (pos n) = ltb n 1
is_nonpositive (negsuc n) = true

-- The 64-bit pattern of a natural number, read as a signed integer.
abbrev pub int64 : ℕ → ℤ
int64 n = let m = n % 2 ^ 64 in if ltb m (2 ^ 63) then pos m else negsuc (2 ^ 64 - 1 - m)

-- An instant moved by a duration; instants before the zero time are not represented.
abbrev pub shift : ℕ → ℤ → ℕ
shift t (pos n) = t + n
shift t (negsuc n) = t - suc n
