-- ===== src/Server/RateLimiter/Admitted.antt =====
-- Requests in sequence (rateLimiter.allow of internal/server/auth.go).
use mathlib.Core.Path.{subst}
use wacht.Shared.Dict.{lookup-insert_self, lookup, lookup-insert}
use wacht.Shared.{
  ◌<◌, ◌∙◌, ◌≡◌, ◌≤◌, ◌+◌, refl, ℕ, String, true, false, Option, none, some, List, [], ◌∷◌, arith,
  All, ◌==◌, if◌then◌else◌, inl, inr, Bool-cases, eq_iff, eq_refl, ◌&&◌,
}
use wacht.Shared.Time.{Time}
use wacht.Server.RateLimiter.{RateLimiter, TokenBucket, allow, allow_found, draw}

-- The requests of one address that are admitted, among requests of all addresses in their order.
pub admitted : String → List (String × Time) → RateLimiter → ℕ
unfolding allow
admitted ip [] rl = 0
admitted ip ((from, now) ∷ requests) rl =
    let step = allow from now rl in
    let rest = admitted ip requests step.0 in if from == ip && step.1 then rest + 1 else rest

-- What one request does to the bucket of an address.
abbrev bucket : String → RateLimiter → Option TokenBucket
bucket ip rl = lookup ip rl.tokens

-- The new bucket of an address, and the one after another request.
abbrev fresh_bucket : Time → RateLimiter → TokenBucket
fresh_bucket now rl = record { count = 1; reset_at = now + rl.window }

abbrev drawn : TokenBucket → TokenBucket
drawn b = record b { count = b.count + 1 }

allow_found_other :
    (ip from : String) (now : Time) (rl : RateLimiter) (found : Option TokenBucket)
    → (from == ip) ≡ false
    → bucket ip (allow_found found from now rl).0 ≡ bucket ip rl
allow_found_other ip from now rl none h =
    ground (arith, lookup-insert from ip (fresh_bucket now rl) rl.tokens)
allow_found_other ip from now rl (some b) h = ground (
  arith,
  lookup-insert from ip (fresh_bucket now rl) rl.tokens,
  lookup-insert from ip (drawn b) rl.tokens,
)

allow_other :
    (ip from : String) (now : Time) (rl : RateLimiter)
    → (from == ip) ≡ false
    → bucket ip (allow from now rl).0 ≡ bucket ip rl
unfolding allow
allow_other ip from now rl h = allow_found_other ip from now rl (lookup from rl.tokens) h

allow-limit :
    (from : String) (now : Time) (rl : RateLimiter) → (allow from now rl).0.limit ≡ rl.limit
unfolding allow
allow-limit from now rl = ground arith

draw_within :
    (ip : String) (now : Time) (rl : RateLimiter) (b : TokenBucket)
    → now ≤ b.reset_at
    → b.count ≤ rl.limit
    → let after = draw ip now b rl in
      let count = if after.1 then b.count + 1 else b.count in
      (lookup ip rl.tokens ≡ some b → bucket ip after.0 ≡ some (record b { count = count }))
      × (count ≤ rl.limit)
draw_within ip now rl b within fits =
    (λ h. ground (arith, lookup-insert_self ip (drawn b) rl.tokens), ground arith)

-- A request within the window of the bucket.
allow_within :
    (ip : String) (now : Time) (rl : RateLimiter) (b : TokenBucket)
    → bucket ip rl ≡ some b
    → now ≤ b.reset_at
    → b.count ≤ rl.limit
    → let after = allow ip now rl in
      let count = if after.1 then b.count + 1 else b.count in
      (bucket ip after.0 ≡ some (record b { count = count })) × (count ≤ rl.limit)
unfolding allow
allow_within ip now rl b h within fits =
    let step = draw_within ip now rl b within fits in rw h (step.0 h, step.1)

-- The requests of the address come before the time.
abbrev Until : String → Time → List (String × Time) → Type 0
Until ip end = All (λ (r : String × Time). (r.0 == ip) ≡ true → r.1 ≤ end)

admitted_within :
    (ip : String) (requests : List (String × Time)) (rl : RateLimiter) (b : TokenBucket)
    → bucket ip rl ≡ some b
    → Until ip b.reset_at requests
    → b.count ≤ rl.limit
    → admitted ip requests rl + b.count ≤ rl.limit
unfolding admitted
admitted_within ip [] rl b h until fits = omega arith
admitted_within ip ((from, now) ∷ requests) rl b h until fits = elim (Bool-cases (from == ip)) [
  | inr other ↦
      let rest =
        admitted_within ip requests (allow from now rl).0 b (allow_other ip from now rl other ∙ h)
          until.1 (omega (arith, allow-limit from now rl)) in
      ground (arith, rest, allow-limit from now rl)
  | inl own ↦
      let same : from ≡ ip = (eq_iff from ip).0 own in
      let step = allow_within ip now rl b h (until.0 own) fits in
      let count = if (allow ip now rl).1 then b.count + 1 else b.count in
      let rest =
        admitted_within ip requests (allow ip now rl).0 (record b { count = count }) step.0 until.1
          (omega (arith, allow-limit ip now rl, step.1)) in
      rw same (rw (eq_refl ip) (ground (arith, rest, allow-limit ip now rl)))
]

renewed_found :
    (ip : String) (now : Time) (rl : RateLimiter) (found : Option TokenBucket)
    → ((b : TokenBucket) → found ≡ some b → b.reset_at < now)
    → ((allow_found found ip now rl).1 ≡ true)
      × (bucket ip (allow_found found ip now rl).0
          ≡ some (record { count = 1; reset_at = now + rl.window }))
renewed_found ip now rl none ended =
    ground (arith, lookup-insert_self ip (fresh_bucket now rl) rl.tokens)
renewed_found ip now rl (some b) ended =
    let past = ended b refl in ground (arith, lookup-insert_self ip (fresh_bucket now rl) rl.tokens)

renewed :
    (ip : String) (now : Time) (rl : RateLimiter)
    → ((b : TokenBucket) → lookup ip rl.tokens ≡ some b → b.reset_at < now)
    → ((allow ip now rl).1 ≡ true)
      × (bucket ip (allow ip now rl).0 ≡ some (record { count = 1; reset_at = now + rl.window }))
unfolding allow
renewed ip now rl ended = renewed_found ip now rl (lookup ip rl.tokens) ended

-- When the window of an address has ended, or it has none, its next request is admitted and begins a
-- window; among all requests that follow, in any order with those of other addresses, those of
-- the address within that window are admitted at most up to the limit, the first one included.
pub admitted-allow :
    (ip : String) (now : Time) (requests : List (String × Time)) (rl : RateLimiter)
    → 1 ≤ rl.limit
    → ((b : TokenBucket) → lookup ip rl.tokens ≡ some b → b.reset_at < now)
    → Until ip (now + rl.window) requests
    → ((allow ip now rl).1 ≡ true) × (admitted ip requests (allow ip now rl).0 + 1 ≤ rl.limit)
admitted-allow ip now requests rl positive ended until =
    let fresh = renewed ip now rl ended in
    (
      fresh.0,
      subst (λ (limit : ℕ). admitted ip requests (allow ip now rl).0 + 1 ≤ limit)
          (allow-limit ip now rl)
          (admitted_within ip requests (allow ip now rl).0
            (record { count = 1; reset_at = now + rl.window }) fresh.1 until
            (omega (arith, allow-limit ip now rl))),
    )
