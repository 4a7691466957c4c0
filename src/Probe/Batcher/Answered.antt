-- ===== src/Probe/Batcher/Answered.antt =====
-- cmd/wacht-probe/result_batcher.go: the answer to an upload, and the invariant of the runs.
use wacht.Shared.{
  ◌≡◌, refl, sym, ap, ◌∙◌, inl, inr, true, false, Bool-cases, Option, none, some, List, [], ◌++◌,
  arith, length, take, drop, length-append,
}
use wacht.Proto.{CheckResult}
use wacht.Probe.Api.{PostError, is_retryable_post_results_error}
use wacht.Shared.Within.{Within, later-Within, append_assoc, append_nil, drop-append, cut_again}
use wacht.Probe.Batcher.Flow.{Flow, delivered_by, answered}
use wacht.Probe.Batcher.{excess, finish_upload}
use wacht.Probe.Batcher.Bounds.{finish_upload-Fits}
use wacht.Probe.Batcher.Ordered.{Ordered, all-Within, delivered-Within}

module _ (f : Flow) (h : Ordered f) where
  back_pending :
      (e : PostError)
      → is_retryable_post_results_error (some e) ≡ true
      → (finish_upload f.in_flight (some e) f.batcher).0.pending
        ≡ drop
            (excess (record f.batcher { pending = f.in_flight ++ f.batcher.pending }))
            (f.in_flight ++ f.batcher.pending)
  unfolding finish_upload
  back_pending e again = ground arith

  accepted_pending :
      (answer : Option PostError)
      → is_retryable_post_results_error answer ≡ false
      → (finish_upload f.in_flight answer f.batcher).0.pending ≡ f.batcher.pending
  unfolding finish_upload
  accepted_pending none gone = ground arith
  accepted_pending (some e) gone = ground arith

  -- A full buffer has no room for the batch.
  excess_full :
      length f.batcher.pending ≡ f.batcher.max_pending
      → excess (record f.batcher { pending = f.in_flight ++ f.batcher.pending })
        ≡ length f.in_flight
  unfolding excess
  excess_full full = ground (
    arith,
    length-append f.in_flight f.batcher.pending,
    h.fits.batch_size_positive,
    h.fits.batch_fits,
  )

  answered_kept :
      (answer : Option PostError)
      → (finish_upload f.in_flight answer f.batcher).0.pending ≡ f.batcher.pending
      → Within (f.delivered ++ delivered_by answer f.in_flight) h.past
      → Ordered (answered answer f)
  answered_kept answer same w = record {
    fits = finish_upload-Fits f.in_flight answer f.batcher h.fits;
    past = h.past;
    split = rw same h.split;
    place = inl (h.past, sym (append_nil h.past), w);
  }

  -- A batch that goes back to the front of the buffer.
  answered_again :
      (e : PostError)
      → is_retryable_post_results_error (some e) ≡ true
      → Ordered (answered (some e) f)
  answered_again e again =
      let q = f.in_flight ++ f.batcher.pending in
      let n = excess (record f.batcher { pending = q }) in
      let back : (finish_upload f.in_flight (some e) f.batcher).0.pending ≡ drop n q =
        back_pending e again in
      let only : Within (f.delivered ++ []) h.past =
        rw (append_nil f.delivered) (delivered-Within f h) in
      elim h.place [
        | inl (old, at_end, w) ↦ record {
          fits = finish_upload-Fits f.in_flight (some e) f.batcher h.fits;
          past = old ++ take n q;
          split = rw back (
              h.split
              ∙ ap (λ (t : List CheckResult). t ++ f.batcher.pending) at_end
              ∙ append_assoc old f.in_flight f.batcher.pending
              ∙ cut_again old q n);
          place = inl (
            old ++ take n q,
            sym (append_nil (old ++ take n q)),
            later-Within (take n q) (rw (append_nil f.delivered) w),
          );
        }
        | inr (full, w) ↦
            answered_kept (some e)
              (back ∙ rw (excess_full full) (drop-append f.in_flight f.batcher.pending)) only
      ]

  pub answered-Ordered : (answer : Option PostError) → Ordered (answered answer f)
  unfolding is_retryable_post_results_error
  answered-Ordered none = answered_kept none (accepted_pending none refl) (all-Within f h)
  answered-Ordered (some e) = elim (Bool-cases (is_retryable_post_results_error (some e))) [
    | inl again ↦ answered_again e again
    | inr gone ↦
        answered_kept (some e) (accepted_pending (some e) gone)
          (rw (append_nil f.delivered) (delivered-Within f h))
  ]
