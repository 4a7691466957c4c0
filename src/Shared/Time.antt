-- ===== src/Shared/Time.antt =====
-- Go's `time.Time` and `time.Duration`. An instant is a number of nanoseconds since Go's zero time,
-- so 0 is `time.Time{}`, and `UTC()`, which changes the zone and not the instant, is left out.
use wacht.Shared.Tests.{ltb, nat_eq}
use wacht.Shared.Int.{ℤ, shift}
use Prim.Native.Nat.{ℕ}
use mathlib.Core.Bool.{Bool}

abbrev pub Time : Type 0
Time = ℕ

abbrev pub zero_time : Time
zero_time = 0

-- t.IsZero()
abbrev pub is_zero : Time → Bool
is_zero t = nat_eq t zero_time

-- t.After(u)
abbrev pub is_after : Time → Time → Bool
is_after t u = ltb u t

abbrev pub Duration : Type 0
Duration = ℤ

-- t.Add(d)
abbrev pub add : Time → Duration → Time
add t d = shift t d

abbrev pub second : ℕ
second = 1000000000
