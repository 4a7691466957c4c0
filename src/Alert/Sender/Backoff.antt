-- ===== src/Alert/Sender/Backoff.antt =====
-- nextRetryDelayWithBackoff (internal/alert/sender.go).
use native.Mathlib.Nat.{pow-le-pow_right}
use Prim.Native.Nat.{min}
use wacht.Shared.{
  ℕ, zero, suc, ◌≤◌, ◌<◌, ◌*◌, ◌^◌, ◌≡◌, refl, some, arith, ltb, false, inl, inr, Bool-cases, leb,
}
use wacht.Shared.Int.{ℤ, int64}
use wacht.Alert.Sender.{next_retry_delay_with_backoff, cap_delay}

-- In nanoseconds: a second, twice as much after each further attempt, and five minutes at most.
abbrev pub doubled : ℤ → ℕ
doubled (ℤ.negsuc n) = 1000000000
doubled (ℤ.pos zero) = 1000000000
doubled (ℤ.pos (suc n)) = min (1000000000 * 2 ^ n) 300000000000

pow_monotone : (a b : ℕ) → a ≤ b → 2 ^ a ≤ 2 ^ b
pow_monotone a b h = pow-le-pow_right (omega arith) h

small_int64 : (n : ℕ) → n < 2 ^ 63 → int64 n ≡ ℤ.pos n
small_int64 n h = ground arith

capped : (n : ℕ) → n < 2 ^ 63 → cap_delay (some (int64 n)) ≡ some (ℤ.pos (min n 300000000000))
capped n h = rw (small_int64 n h) (ground arith)

after_shift :
    (n : ℕ)
    → cap_delay (some (int64 (1000000000 * 2 ^ min n 10)))
      ≡ some (ℤ.pos (min (1000000000 * 2 ^ n) 300000000000))
after_shift n = elim (Bool-cases (leb n 10)) [
  | inl small ↦ ground (arith, capped (1000000000 * 2 ^ min n 10), pow_monotone n 10)
  | inr large ↦ ground (arith, capped (1000000000 * 2 ^ min n 10), pow_monotone 10 n)
]

-- On every integer, whatever its size and sign, the delay after an attempt neither panics nor
-- overflows 64 bits: it is 1,000,000,000 nanoseconds up to the first attempt, twice as much after each
-- further one, and never more than 300,000,000,000.
pub next_retry_delay_with_backoff-doubled :
    (attempt : ℤ) → next_retry_delay_with_backoff attempt ≡ some (ℤ.pos (doubled attempt))
unfolding next_retry_delay_with_backoff
next_retry_delay_with_backoff-doubled (ℤ.negsuc n) = refl
next_retry_delay_with_backoff-doubled (ℤ.pos zero) = refl
next_retry_delay_with_backoff-doubled (ℤ.pos (suc n)) =
    let positive : ltb (suc n) 1 ≡ false = ground arith in rw positive (after_shift n)
