-- ===== src/Server/RateLimiter.antt =====
-- internal/server/auth.go: the limiter of requests per client address. The lock makes a call one step,
-- and the clock shows one time during it.
pub mod Admitted
use wacht.Shared.{
  ℕ, ◌+◌, ◌*◌, String, Bool, true, false, Option, none, some, List, [], ◌∷◌, ltb, leb,
  if◌then◌else◌,
}
use wacht.Shared.Int.{ℤ, is_nonpositive}
use wacht.Shared.Dict.{Dict, lookup, insert}
use wacht.Shared.Time.{Time, is_after, second}

pub record TokenBucket : Type 0 where
  pub count : ℕ
  pub reset_at : Time

pub record RateLimiter : Type 0 where
  pub tokens : Dict TokenBucket
  pub limit : ℕ
  pub window : ℕ

-- config.DefaultAuthRateLimitRequests and config.DefaultAuthRateLimitWindow
abbrev default_requests : ℕ
default_requests = 10

abbrev default_window : ℕ
default_window = 60 * second

abbrev positive_or : ℕ → ℤ → ℕ
positive_or default (ℤ.pos n) = if ltb 0 n then n else default
positive_or default (ℤ.negsuc n) = default

unfoldable pub new_rate_limiter : ℤ → ℤ → RateLimiter
new_rate_limiter limit window = record {
  tokens = [];
  limit = positive_or default_requests limit;
  window = positive_or default_window window;
}

abbrev pub renew : String → Time → RateLimiter → RateLimiter × Bool
renew ip now rl = (
  record rl { tokens = insert ip (record { count = 1; reset_at = now + rl.window }) rl.tokens },
  true,
)

-- The bucket that the address has.
abbrev pub draw : String → Time → TokenBucket → RateLimiter → RateLimiter × Bool
draw ip now b rl =
    if is_after now b.reset_at
    then renew ip now rl
    else if leb rl.limit b.count
    then (rl, false)
    else (record rl { tokens = insert ip (record b { count = b.count + 1 }) rl.tokens }, true)

abbrev pub allow_found : Option TokenBucket → String → Time → RateLimiter → RateLimiter × Bool
allow_found none ip now rl = renew ip now rl
allow_found (some b) ip now rl = draw ip now b rl

unfoldable pub allow : String → Time → RateLimiter → RateLimiter × Bool
allow ip now rl = allow_found (lookup ip rl.tokens) ip now rl
