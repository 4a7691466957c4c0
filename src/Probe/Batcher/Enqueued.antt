-- ===== src/Probe/Batcher/Enqueued.antt =====
-- cmd/wacht-probe/result_batcher.go: `Enqueue`, and the invariant of the runs.
use wacht.Shared.{
  ◌≤◌, ◌≡◌, sym, ap, ◌∙◌, inl, inr, true, false, Bool-cases, List, [], ◌∷◌, ◌++◌, arith, length,
  take, drop, length-append,
}
use mathlib.Core.Path.{subst}
use wacht.Proto.{CheckResult}
use wacht.Shared.Within.{later-Within, append_assoc, append_nil, cut_again}
use wacht.Probe.Batcher.Flow.{Flow, enqueued}
use wacht.Probe.Batcher.{excess, enqueue}
use wacht.Probe.Batcher.Bounds.{enqueue-Fits}
use wacht.Probe.Batcher.Ordered.{Place, Ordered, trim_full, trim_cases, all-Within}

module _ (f : Flow) (h : Ordered f) where
  full_enqueue :
      (x : CheckResult)
      → f.batcher.closed ≡ false
      → (enqueue x f.batcher).pending
        ≡ drop
            (excess (record f.batcher { pending = f.batcher.pending ++ (x ∷ []) }))
            (f.batcher.pending ++ (x ∷ []))
  unfolding enqueue
  full_enqueue x open_ = ground arith

  limit-enqueue : (x : CheckResult) → (enqueue x f.batcher).max_pending ≡ f.batcher.max_pending
  unfolding enqueue
  limit-enqueue x = ground arith

  enqueued_shut : (x : CheckResult) → f.batcher.closed ≡ true → enqueued x f ≡ f
  unfolding enqueue
  enqueued_shut x shut = ground arith

  enqueued-Place :
      (x : CheckResult)
      → f.batcher.closed ≡ false
      → let longer = record f.batcher { pending = f.batcher.pending ++ (x ∷ []) } in
        Place (enqueued x f) (h.past ++ take (excess longer) longer.pending)
  enqueued-Place x open_ =
      let longer = record f.batcher { pending = f.batcher.pending ++ (x ∷ []) } in
      let n = excess longer in
      let positive : 1 ≤ f.batcher.max_pending =
        omega (arith, h.fits.batch_size_positive, h.fits.batch_fits) in
      let full : length (drop n longer.pending) ≡ f.batcher.max_pending
          → Place (enqueued x f) (h.past ++ take n longer.pending) =
        λ e. inr (
          ap length (full_enqueue x open_) ∙ e ∙ sym (limit-enqueue x),
          later-Within (take n longer.pending) (all-Within f h),
        ) in
      elim h.place [
        | inr (k, w) ↦
            full
              (trim_full longer positive (omega (arith, length-append f.batcher.pending (x ∷ []))))
        | inl (old, e, w) ↦ elim (trim_cases longer positive) [
          | inr k ↦ full k
          | inl none_ ↦ inl (old, rw none_ (append_nil h.past ∙ e), w)
        ]
      ]

  accepted_open :
      (x : CheckResult)
      → f.batcher.closed ≡ false
      → (enqueued x f).accepted ≡ f.accepted ++ (x ∷ [])
  accepted_open x open_ = ground arith

  pub enqueued-Ordered : (x : CheckResult) → Ordered (enqueued x f)
  enqueued-Ordered x = elim (Bool-cases f.batcher.closed) [
    | inl shut ↦ subst Ordered (sym (enqueued_shut x shut)) h
    | inr open_ ↦
        let longer = record f.batcher { pending = f.batcher.pending ++ (x ∷ []) } in
        record {
          fits = enqueue-Fits x f.batcher h.fits;
          past = h.past ++ take (excess longer) longer.pending;
          split =
              accepted_open x open_
              ∙ ap (λ (t : List CheckResult). t ++ (x ∷ [])) h.split
              ∙ append_assoc h.past f.batcher.pending (x ∷ [])
              ∙ cut_again h.past longer.pending (excess longer)
              ∙ ap (λ (t : List CheckResult). (h.past ++ take (excess longer) longer.pending) ++ t)
                  (sym (full_enqueue x open_));
          place = enqueued-Place x open_;
        }
  ]
