-- ===== src/Probe/Batcher/Bounds.antt =====
-- cmd/wacht-probe/result_batcher.go: the limits of the buffer and of the batches.
use wacht.Shared.{
  ℕ, zero, suc, ◌-◌, ◌*◌, ◌≤◌, Option, none, some, List, [], ◌∷◌, ◌++◌, arith, length, length-take,
  length-drop,
}
use wacht.Shared.Int.{ℤ, pos, negsuc, int64}
use wacht.Shared.Time.{Duration}
use wacht.Proto.{CheckResult}
use wacht.Probe.Api.{PostError}
use wacht.Probe.Batcher.{
  ResultBatcher, new_result_batcher, pending_limit, trim_pending, enqueue, take_batch,
  finish_upload,
}

pub record Fits (b : ResultBatcher) : Type 0 where
  pub batch_size_positive : 1 ≤ b.max_batch_size
  pub batch_fits : b.max_batch_size ≤ b.max_pending
  pub pending_fits : length b.pending ≤ b.max_pending

pending_limit-ge : (size : ℕ) (limit : ℤ) → size ≤ pending_limit size limit
unfolding pending_limit
pending_limit-ge size (pos n) = ground arith
pending_limit-ge size (negsuc n) = ground arith

pub new_result_batcher-Fits :
    (flush_interval : Duration) (max_batch_size : ℤ)
    → Fits (new_result_batcher flush_interval max_batch_size)
unfolding new_result_batcher
new_result_batcher-Fits flush_interval (pos zero) = record {
  batch_size_positive = omega arith;
  batch_fits = pending_limit-ge 64 (int64 (64 * 16));
  pending_fits = omega arith;
}
new_result_batcher-Fits flush_interval (pos (suc n)) = record {
  batch_size_positive = omega arith;
  batch_fits = pending_limit-ge (suc n) (int64 (suc n * 16));
  pending_fits = omega arith;
}
new_result_batcher-Fits flush_interval (negsuc n) = record {
  batch_size_positive = omega arith;
  batch_fits = pending_limit-ge 64 (int64 (64 * 16));
  pending_fits = omega arith;
}

pub length-trim_pending :
    (b : ResultBatcher) → 1 ≤ b.max_pending → length (trim_pending b).0.pending ≤ b.max_pending
unfolding trim_pending
length-trim_pending b h = ground (arith, length-drop (length b.pending - b.max_pending) b.pending)

pub enqueue-Fits : (x : CheckResult) (b : ResultBatcher) → Fits b → Fits (enqueue x b)
unfolding enqueue
enqueue-Fits x b h =
    ground (arith, length-trim_pending (record b { pending = b.pending ++ (x ∷ []) }))

pub take_batch-Fits : (b : ResultBatcher) → Fits b → Fits (take_batch b).0
unfolding take_batch
take_batch-Fits b h =
    ground (arith, length-drop b.max_batch_size b.pending, length-drop (length b.pending) b.pending)

pub length-take_batch : (b : ResultBatcher) → length (take_batch b).1 ≤ b.max_batch_size
unfolding take_batch
length-take_batch b =
    ground (arith, length-take b.max_batch_size b.pending, length-take (length b.pending) b.pending)

pub finish_upload-Fits :
    (batch : List CheckResult) (answer : Option PostError) (b : ResultBatcher)
    → Fits b
    → Fits (finish_upload batch answer b).0
unfolding finish_upload
finish_upload-Fits batch none b h = ground arith
finish_upload-Fits batch (some e) b h =
    ground (arith, length-trim_pending (record b { pending = batch ++ b.pending }))
