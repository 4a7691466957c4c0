-- ===== src/Probe/Batcher/Order.antt =====
-- cmd/wacht-probe/result_batcher.go: the order of delivery and the limits in a run.
use wacht.Shared.{
  ◌≡◌, refl, sym, ◌∙◌, inl, none, some, List, [], ◌++◌, arith, length, take, if◌then◌else◌, ltb,
}
use mathlib.Core.Path.{subst}
use wacht.Shared.Int.{ℤ}
use wacht.Shared.Time.{Duration}
use wacht.Proto.{CheckResult}
use wacht.Shared.Within.{Within, done, append-Within, cut_again}
use wacht.Probe.Batcher.Flow.{
  Flow, start, taken, Step, enqueues, closes, takes, answers, Reach, here, next,
}
use wacht.Probe.Batcher.{new_result_batcher, enqueue, close, take_batch, finish_upload}
use wacht.Probe.Batcher.Bounds.{Fits, new_result_batcher-Fits, take_batch-Fits}
use wacht.Probe.Batcher.Ordered.{Ordered, all-Within, delivered-Within}
use wacht.Probe.Batcher.Enqueued.{enqueued-Ordered}
use wacht.Probe.Batcher.Answered.{answered-Ordered}

module _ (f : Flow) (h : Ordered f) where
  taken-Ordered : Ordered (taken f)
  unfolding take_batch
  taken-Ordered =
      let b = f.batcher in
      let size =
        if ltb b.max_batch_size (length b.pending) then b.max_batch_size else length b.pending in
      record {
        fits = take_batch-Fits b h.fits;
        past = h.past ++ take size b.pending;
        split = h.split ∙ cut_again h.past b.pending size;
        place = inl (h.past, refl, (delivered-Within f h));
      }

  closed-Ordered : Ordered (record f { batcher = close f.batcher })
  unfolding close
  closed-Ordered = record {
    fits = record {
      batch_size_positive = h.fits.batch_size_positive;
      batch_fits = h.fits.batch_fits;
      pending_fits = h.fits.pending_fits;
    };
    past = h.past;
    split = h.split;
    place = h.place;
  }

Step-Ordered : {f g : Flow} → Ordered f → Step f g → Ordered g
Step-Ordered h (enqueues f x) = enqueued-Ordered f h x
Step-Ordered h (closes f) = closed-Ordered f h
Step-Ordered h (takes f none_) = taken-Ordered f h
Step-Ordered h (answers f x xs answer some_) = answered-Ordered f h answer

new-Ordered :
    (flush_interval : Duration) (max_batch_size : ℤ)
    → Ordered (start (new_result_batcher flush_interval max_batch_size))
unfolding new_result_batcher
new-Ordered flush_interval max_batch_size = record {
  fits = new_result_batcher-Fits flush_interval max_batch_size;
  past = [];
  split = refl;
  place = inl ([], refl, done);
}

reached-Ordered : {f g : Flow} → Ordered f → Reach f g → Ordered g
reached-Ordered h here = h
reached-Ordered h (next before step) = Step-Ordered (reached-Ordered h before) step

-- In every run of a new batcher, with calls in any order and any answers to the uploads: what was
-- delivered, then what is in flight, then the buffer are results that were accepted, each once and in
-- the order in which they were accepted, and the buffer holds the newest of them.
pub Reach-Within :
    (flush_interval : Duration) (max_batch_size : ℤ) {f : Flow}
    → Reach (start (new_result_batcher flush_interval max_batch_size)) f
    → Within ((f.delivered ++ f.in_flight) ++ f.batcher.pending) f.accepted
      × ((past : List CheckResult) × (f.accepted ≡ past ++ f.batcher.pending))
Reach-Within flush_interval max_batch_size {f} run =
    let h = reached-Ordered (new-Ordered flush_interval max_batch_size) run in
    (
      subst (Within ((f.delivered ++ f.in_flight) ++ f.batcher.pending)) (sym h.split)
          (append-Within f.batcher.pending (all-Within f h)),
      (h.past, h.split),
    )

-- No call changes the limit.
limit_kept : {f g : Flow} → Step f g → g.batcher.max_pending ≡ f.batcher.max_pending
unfolding enqueue close take_batch finish_upload
limit_kept (enqueues f x) = ground arith
limit_kept (closes f) = refl
limit_kept (takes f none_) = refl
limit_kept (answers f x xs none some_) = ground arith
limit_kept (answers f x xs (some e) some_) = ground arith

reached_limit : {f g : Flow} → Reach f g → g.batcher.max_pending ≡ f.batcher.max_pending
reached_limit here = refl
reached_limit (next before step) = limit_kept step ∙ reached_limit before

-- In every run of a new batcher the buffer never holds more than the limit that the batcher started
-- with, which is at least one batch, and a batch may hold at least one result.
pub Reach-Fits :
    (flush_interval : Duration) (max_batch_size : ℤ) {f : Flow}
    → Reach (start (new_result_batcher flush_interval max_batch_size)) f
    → Fits f.batcher
      × (f.batcher.max_pending ≡ (new_result_batcher flush_interval max_batch_size).max_pending)
Reach-Fits flush_interval max_batch_size run =
    ((reached-Ordered (new-Ordered flush_interval max_batch_size) run).fits, reached_limit run)
