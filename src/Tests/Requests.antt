-- ===== src/Tests/Requests.antt =====
-- Concrete requests: internal/server.
use wacht.Shared.{
  ◌-◌, ◌++◌, if◌then◌else◌, ltb, arith, ◌<◌, refl, String, Bool, true, Option, none, some, List, [],
  ◌∷◌, ℕ, ◌≡◌, ◌≤◌, ◌+◌, nat_eq,
}
use Prim.Native.Char.{code}
use wacht.Store.Recovered.{monitoring_store}
use wacht.Shared.Dict.{lookup, insert}
use wacht.Shared.Time.{Time}
use wacht.Shared.Text.{trim_space}
use wacht.Shared.Action.{ok, err}
use wacht.Proto.{CheckResult}
use wacht.Monitoring.Result.{ObservedResult}
use wacht.Store.Connection.{exec}
use wacht.Server.ProbeProcessor.{normalize_batch, process_batch, mismatch}
use wacht.Store.Probes.{Probe}
use wacht.Server.ProbeProcessor.Vouched.{Vouched}
use wacht.Server.ProbeProcessor.Normalized.{normalize_batch-Vouched}
use wacht.Server.ProbeProcessor.AllOrNothing.{process_batch_all_or_nothing}
use wacht.Server.RateLimiter.{RateLimiter, TokenBucket, allow}
use wacht.Server.RateLimiter.Admitted.{admitted, admitted-allow}
use wacht.Server.ClientIp
use wacht.Server.ClientIp.{Request}
use wacht.Server.ClientIp.Chosen.{client_ip-last}
use wacht.Tests.Data.{interpreter, fleet, marshal, saw_down, working}
use wacht.Tests.Tables.{canonical, healthy}

abbrev probe_b : Probe
probe_b = record { probe_id = "b"; version = "1"; registered_at = none; last_seen_at = none }

abbrev down_at : String → Time → CheckResult
down_at probe_id at = (saw_down probe_id at).result

-- The second result is of another probe.
abbrev mixed : List CheckResult
mixed = down_at "b" 120 ∷ down_at "c" 121 ∷ []

mixed_refused :
    (process_batch marshal
      (monitoring_store canonical 500)
      500
      (some probe_b)
      mixed
      (fleet, healthy)).1
    ≡ err mismatch
unfolding process_batch lookup insert monitoring_store exec trim_space
mixed_refused = refl

process_batch_all_or_nothing_example :
    ((process_batch marshal
        (monitoring_store canonical 500)
        500
        (some probe_b)
        mixed
        (fleet, healthy)).0.0
      ≡ fleet)
    × ((process_batch marshal
          (monitoring_store canonical 500)
          500
          (some probe_b)
          mixed
          (fleet, healthy)).0.1.tables
        ≡ healthy.tables)
process_batch_all_or_nothing_example =
    process_batch_all_or_nothing canonical 500 marshal (λ p e h. cc) (some probe_b) mixed fleet
      healthy mixed_refused

abbrev own : List CheckResult
own = record (down_at "b" 120) { check_id = "shop"; target = "https://elsewhere.test" } ∷ []

abbrev vouched : List ObservedResult
vouched =
    record {
      check = (saw_down "b" 120).check;
      result = record (down_at "b" 500) { target = "https://shop.test" };
    }
    ∷ []

own_accepted : (normalize_batch working probe_b 500 own 0).1 ≡ ok vouched
unfolding normalize_batch lookup insert
own_accepted = refl

normalize_batch-Vouched_example : Vouched working probe_b 500 own vouched
normalize_batch-Vouched_example = normalize_batch-Vouched working probe_b 500 own 0 own_accepted

abbrev limiter : RateLimiter
limiter = record {
  tokens = ("b", record { count = 2; reset_at = 50 }) ∷ [];
  limit = 2;
  window = 60;
}

abbrev requests : List (String × Time)
requests = ("b", 101) ∷ ("c", 102) ∷ ("b", 103) ∷ ("b", 104) ∷ ("c", 400) ∷ []

ended : (b : TokenBucket) → lookup "b" limiter.tokens ≡ some b → b.reset_at < 100
unfolding lookup
ended b h = ground arith

admitted-allow_example :
    ((allow "b" 100 limiter).1 ≡ true) × (admitted "b" requests (allow "b" 100 limiter).0 + 1 ≤ 2)
admitted-allow_example = admitted-allow "b" 100 requests limiter (omega arith) ended (
  λ h. omega arith,
  (λ h. absurd cc, (λ h. omega arith, (λ h. omega arith, (λ h. absurd cc, tt)))),
)

-- Addresses are numbers written in one digit; those below 5 are trusted.
abbrev digit : String → Option ℕ
digit String.[] = none
digit (String.◌∷◌ c s) = some (code c - 48)

abbrev below : ℕ → ℕ → Bool
below prefix ip = ltb ip prefix

abbrev write : ℕ → String
write ip = if nat_eq ip 7 then "7" else "?"

abbrev forwarded : Request
forwarded = record { remote_addr = "1"; x_forwarded_for = "9,7, 2"; x_real_ip = "" }

abbrev no_port : String → Option String
no_port s = none

peer_parsed : ClientIp.parse_request_ip digit (λ a. a) below write no_port "1" ≡ some 1
unfolding ClientIp.parse_request_ip trim_space
peer_parsed = refl

chain_parsed :
    ClientIp.forwarded_chain digit
        (λ a. a)
        below
        write
        no_port
        forwarded
        (ClientIp.parse_forwarded_for digit (λ a. a) below write no_port "9,7, 2")
      ++ (1 ∷ [])
    ≡ (9 ∷ []) ++ (7 ∷ 2 ∷ 1 ∷ [])
unfolding ClientIp.parse_forwarded_for ClientIp.parse_ip trim_space
chain_parsed = refl

client_ip-last_example :
    ClientIp.client_ip digit (λ a. a) below write no_port (5 ∷ []) forwarded ≡ "7"
unfolding ClientIp.ip_in_prefixes
client_ip-last_example =
    client_ip-last digit (λ a. a) below write no_port (5 ∷ []) forwarded 1 7 (9 ∷ []) (2 ∷ 1 ∷ [])
      peer_parsed chain_parsed refl (refl, (refl, tt))
