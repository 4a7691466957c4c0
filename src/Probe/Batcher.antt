-- ===== src/Probe/Batcher.antt =====
-- cmd/wacht-probe/result_batcher.go: the buffer between the checks of a probe and the server. Each
-- function that holds the lock `mu` is one step. The channel `wakeFlush` has room for one value, so it
-- is a Boolean; the channel `stop` is closed where `closed` is set.
pub mod Bounds
pub mod Flow
pub mod Ordered
pub mod Enqueued
pub mod Answered
pub mod Order
pub mod Shutdown
use wacht.Shared.{
  ℕ, zero, suc, ◌+◌, ◌-◌, ◌*◌, Bool, true, false, ◌&&◌, ◌||◌, Option, none, some, List, [], ◌∷◌,
  ◌++◌, length, take, drop, ltb, leb, if◌then◌else◌,
}
use wacht.Shared.Int.{ℤ, pos, negsuc, is_nonpositive, int64}
use wacht.Shared.Time.{Duration, second}
use wacht.Proto.{CheckResult}
use wacht.Probe.Api.{PostError, is_retryable_post_results_error}

abbrev default_result_batch_max_size : ℕ
default_result_batch_max_size = 64

abbrev default_result_pending_max_batches : ℕ
default_result_pending_max_batches = 16

-- config.DefaultProbeResultFlushInterval
abbrev default_probe_result_flush_interval : Duration
default_probe_result_flush_interval = pos (10 * second)

pub record ResultBatcher : Type 0 where
  pub flush_interval : Duration
  pub max_batch_size : ℕ
  pub max_pending : ℕ
  pub pending : List CheckResult
  pub closed : Bool
  pub wake_flush : Bool

-- The product may wrap, and then the limit is one batch.
pending_limit : ℕ → ℤ → ℕ
pending_limit size (pos n) = if ltb n size then size else n
pending_limit size (negsuc n) = size

with_limits : Duration → ℕ → ResultBatcher
unfolding pending_limit
with_limits flush_interval size = record {
  flush_interval = flush_interval;
  max_batch_size = size;
  max_pending = pending_limit size (int64 (size * default_result_pending_max_batches));
  pending = [];
  closed = false;
  wake_flush = false;
}

size_or_default : ℤ → ℕ
size_or_default (pos (suc n)) = suc n
size_or_default _ = default_result_batch_max_size

unfoldable pub new_result_batcher : Duration → ℤ → ResultBatcher
unfolding with_limits size_or_default
new_result_batcher flush_interval max_batch_size =
    with_limits
      (if is_nonpositive flush_interval
        then default_probe_result_flush_interval
        else flush_interval)
      (size_or_default max_batch_size)

-- `len(b.pending) - b.maxPending` where there are too many, and nothing otherwise.
unfoldable pub excess : ResultBatcher → ℕ
excess b =
    if leb b.max_pending 0 || leb (length b.pending) b.max_pending
    then 0
    else length b.pending - b.max_pending

unfoldable pub trim_pending : ResultBatcher → ResultBatcher × ℕ
unfolding excess
trim_pending b = (record b { pending = drop (excess b) b.pending }, excess b)

unfoldable pub signal_flush : ResultBatcher → ResultBatcher
signal_flush b = record b { wake_flush = true }

-- The `if len(b.pending) >= b.maxBatchSize`.
unfoldable pub signal_full : ResultBatcher → ResultBatcher
unfolding signal_flush
signal_full b = if leb b.max_batch_size (length b.pending) then signal_flush b else b

unfoldable pub enqueue : CheckResult → ResultBatcher → ResultBatcher
unfolding trim_pending signal_full
enqueue result b =
    if b.closed
    then b
    else signal_full (trim_pending (record b { pending = b.pending ++ (result ∷ []) })).0

unfoldable pub close : ResultBatcher → ResultBatcher
close b = record b { closed = true }

unfoldable pub take_batch : ResultBatcher → ResultBatcher × List CheckResult
take_batch b =
    let size =
      if ltb b.max_batch_size (length b.pending) then b.max_batch_size else length b.pending in
    (record b { pending = drop size b.pending }, take size b.pending)

unfoldable pub requeue : List CheckResult → ResultBatcher → ResultBatcher × ℕ
unfolding trim_pending
requeue batch b = trim_pending (record b { pending = batch ++ b.pending })

-- What `flushOne` does with the answer to the upload of a batch, and its result `flushed`.
unfoldable pub finish_upload :
    List CheckResult → Option PostError → ResultBatcher → ResultBatcher × Bool
unfolding requeue signal_full
finish_upload batch none b = (signal_full b, true)
finish_upload batch (some e) b =
    if is_retryable_post_results_error (some e)
    then ((requeue batch b).0, false)
    else (signal_full b, true)

-- The interface `resultPoster`, over a state of the server.
module _ {S : Type 0} (post_results : List CheckResult → S → S × Option PostError) where
  upload_batch : List CheckResult → ResultBatcher → S → (ResultBatcher × S) × (Bool × Bool)
  unfolding finish_upload
  upload_batch [] b s = ((b, s), (false, true))
  upload_batch (result ∷ results) b s =
      let answer = post_results (result ∷ results) s in
      let done = finish_upload (result ∷ results) answer.1 b in ((done.0, answer.0), (true, done.1))

  -- `flushOne` with no other call in between; the results are `hadBatch` and `flushed`.
  unfoldable pub flush_one : ResultBatcher → S → (ResultBatcher × S) × (Bool × Bool)
  unfolding take_batch upload_batch
  flush_one b s = let t = take_batch b in upload_batch t.1 t.0 s

  -- The loop of `flushPendingForShutdown`, for at most as many rounds as the fuel.
  unfoldable pub flush_pending_for_shutdown : ℕ → ResultBatcher → S → Option (ResultBatcher × S)
  unfolding flush_one
  flush_pending_for_shutdown zero b s = none
  flush_pending_for_shutdown (suc fuel) b s =
      let step = flush_one b s in
      let rest = flush_pending_for_shutdown fuel step.0.0 step.0.1 in
      if step.1.0 && step.1.1 then rest else some step.0
