-- ===== src/Alert/Sender.antt =====
-- internal/alert/sender.go: the workers that deliver webhooks from the table of notifications. The log
-- lines are left out.
pub mod Backoff
pub mod Dispatch
use Prim.Native.Nat.{min}
use wacht.Shared.{
  ℕ, zero, suc, ◌+◌, ◌-◌, ◌*◌, ◌^◌, String, Bool, Option, none, some, List, [], ◌∷◌, ltb,
  if◌then◌else◌,
}
use wacht.Shared.Int.{ℤ, is_nonpositive, int64}
use wacht.Shared.Time.{Time, second, add}
use wacht.Shared.Action.{Result, ok, err}
use wacht.Monitoring.Types.{Error}
use wacht.Store.Connection.{Connection}
use wacht.Store.Deliveries.{
  claim_due_incident_notifications, mark_incident_notification_delivered,
  mark_incident_notification_retry, NotificationJob,
}

-- The durations and counts that are set.
pub record Sender : Type 0 where
  pub poll_interval : ℕ
  pub stale_after : ℕ
  pub claim_batch : ℕ

pub data BatchResult : Type 0 where
  idle processed stopped : BatchResult

abbrev webhook_timeout : ℕ
webhook_timeout = 5 * second

abbrev positive_or : ℕ → ℤ → ℕ
positive_or default (ℤ.pos n) = if ltb 0 n then n else default
positive_or default (ℤ.negsuc n) = default

-- newSender without its workers and its HTTP client.
unfoldable pub new_sender : ℤ → ℤ → ℤ → Sender
new_sender claim_batch poll_interval stale_after = record {
  poll_interval = positive_or second poll_interval;
  stale_after = positive_or (4 * webhook_timeout) stale_after;
  claim_batch = positive_or 1 claim_batch;
}

abbrev pub max_webhook_retry_delay : ℕ
max_webhook_retry_delay = 300 * second

-- x << n of a time.Duration, a signed integer of 64 bits; `none` is the panic of a negative count.
abbrev shift_left : ℕ → ℤ → Option ℤ
shift_left x (ℤ.pos n) = some (int64 (x * 2 ^ n))
shift_left x (ℤ.negsuc n) = none

-- attempt - 1, of which the least integer is not a case.
abbrev minus_one : ℤ → ℤ
minus_one (ℤ.pos zero) = ℤ.negsuc 0
minus_one (ℤ.pos (suc n)) = ℤ.pos n
minus_one (ℤ.negsuc n) = ℤ.negsuc (suc n)

-- min(n, 10)
abbrev at_most_ten : ℤ → ℤ
at_most_ten (ℤ.pos n) = ℤ.pos (min n 10)
at_most_ten (ℤ.negsuc n) = ℤ.negsuc n

abbrev at_least_one : ℤ → ℤ
at_least_one attempt = if is_nonpositive attempt then ℤ.pos 1 else attempt

abbrev cap_delay : Option ℤ → Option ℤ
cap_delay none = none
cap_delay (some (ℤ.negsuc n)) = some (ℤ.negsuc n)
cap_delay (some (ℤ.pos n)) =
    if ltb max_webhook_retry_delay n then some (ℤ.pos max_webhook_retry_delay) else some (ℤ.pos n)

unfoldable pub next_retry_delay_with_backoff : ℤ → Option ℤ
next_retry_delay_with_backoff attempt =
    cap_delay (shift_left second (at_most_ten (minus_one (at_least_one attempt))))

-- The call after a failed request, which a panic would not reach.
abbrev pub put_off : Time → NotificationJob → String → Option ℤ → Connection → Connection
put_off now job message none c = c
put_off now job message (some delay) c =
    (mark_incident_notification_retry job.id (add now delay) message c).0

abbrev pub record_outcome : Time → NotificationJob → Option String → Connection → Connection
record_outcome now job none c = (mark_incident_notification_delivered job.id now c).0
record_outcome now job (some message) c =
    put_off now job message (next_retry_delay_with_backoff (ℤ.pos job.attempts)) c

-- `send` is the outcome of the request that the job asks for, `some` with the text of an error. The
-- job holds the number of its attempt, so that attempts may end in different ways. An error of the
-- store is logged and dropped.
module _ (send : NotificationJob → Option String) where
  unfoldable pub dispatch : Time → NotificationJob → Connection → Connection
  unfolding next_retry_delay_with_backoff
  dispatch now job c = record_outcome now job (send job) c

  -- `stop` says of which job on the closed channel is seen.
  unfoldable pub dispatch_each :
      (NotificationJob → Bool) → Time → List NotificationJob → Connection → Connection × BatchResult
  unfolding dispatch
  dispatch_each stop now [] c = (c, BatchResult.processed)
  dispatch_each stop now (job ∷ jobs) c =
      let rest = dispatch_each stop now jobs (dispatch now job c) in
      if stop job then (c, BatchResult.stopped) else rest

  abbrev pub after_claim :
      (NotificationJob → Bool)
      → Time
      → Connection × Result Error (List NotificationJob)
      → Connection × BatchResult
  after_claim stop now (c, err e) = (c, BatchResult.idle)
  after_claim stop now (c, ok []) = (c, BatchResult.idle)
  after_claim stop now (c, ok (job ∷ jobs)) = dispatch_each stop now (job ∷ jobs) c

  -- `locked` holds the webhooks that the claim skips for a lock of another transaction; the clock shows `now`.
  unfoldable pub run_batch :
      Sender → List ℕ → (NotificationJob → Bool) → Time → Connection → Connection × BatchResult
  unfolding dispatch_each
  run_batch s locked stop now c =
      after_claim stop now
        (claim_due_incident_notifications locked now (now - s.stale_after) s.claim_batch c)
