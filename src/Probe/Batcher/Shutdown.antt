-- ===== src/Probe/Batcher/Shutdown.antt =====
-- `flushPendingForShutdown` of cmd/wacht-probe/result_batcher.go: the end of the loop.
use wacht.Shared.{
  ℕ, zero, suc, ◌+◌, ◌≤◌, ◌<◌, ◌≡◌, refl, ap, ◌∙◌, Bool, true, false, ◌&&◌, Option, none, some,
  List, [], ◌∷◌, arith, length, length-take, length-drop, Bool-cases, inl, inr, ◌⊎◌,
}
use wacht.Proto.{CheckResult}
use wacht.Probe.Api.{PostError}
use wacht.Probe.Batcher.{
  ResultBatcher, take_batch, finish_upload, upload_batch, flush_one, flush_pending_for_shutdown,
}
use wacht.Probe.Batcher.Bounds.{Fits, take_batch-Fits, finish_upload-Fits}

finish_upload_on :
    (batch : List CheckResult) (answer : Option PostError) (b : ResultBatcher)
    → (finish_upload batch answer b).1 ≡ true
    → (finish_upload batch answer b).0.pending ≡ b.pending
unfolding finish_upload
finish_upload_on batch none b e = ground arith
finish_upload_on batch (some x) b e = ground arith

lengths-take_batch :
    (b : ResultBatcher)
    → length (take_batch b).1 + length (take_batch b).0.pending ≡ length b.pending
unfolding take_batch
lengths-take_batch b = ground (
  arith,
  length-take b.max_batch_size b.pending,
  length-drop b.max_batch_size b.pending,
  length-take (length b.pending) b.pending,
  length-drop (length b.pending) b.pending,
)

no_length : {A : Type 0} (xs : List A) → length xs ≡ 0 → xs ≡ []
no_length [] e = refl
no_length (x ∷ xs) e = absurd (omega (arith, e))

take_batch_empty :
    (b : ResultBatcher) → Fits b → (take_batch b).1 ≡ [] → (take_batch b).0.pending ≡ []
unfolding take_batch
take_batch_empty b h e = no_length (take_batch b).0.pending (
    ground (
      arith,
      h.batch_size_positive,
      lengths-take_batch b,
      length-take b.max_batch_size b.pending,
      length-take (length b.pending) b.pending,
    ))

module _ {S : Type 0} (post_results : List CheckResult → S → S × Option PostError) where
  abbrev goes_on : (ResultBatcher × S) × (Bool × Bool) → Bool
  goes_on step = step.1.0 && step.1.1

  upload_batch_on :
      (batch : List CheckResult) (b : ResultBatcher) (s : S)
      → goes_on (upload_batch post_results batch b s) ≡ true
      → (1 ≤ length batch) × ((upload_batch post_results batch b s).0.0.pending ≡ b.pending)
  unfolding upload_batch
  upload_batch_on [] b s e = cc
  upload_batch_on (x ∷ xs) b s e =
      (omega arith, finish_upload_on (x ∷ xs) (post_results (x ∷ xs) s).1 b e)

  upload_batch-Fits :
      (batch : List CheckResult) (b : ResultBatcher) (s : S)
      → Fits b
      → Fits (upload_batch post_results batch b s).0.0
  unfolding upload_batch
  upload_batch-Fits [] b s h = h
  upload_batch-Fits (x ∷ xs) b s h = finish_upload-Fits (x ∷ xs) (post_results (x ∷ xs) s).1 b h

  -- A round that goes on has made the buffer shorter.
  flush_one_shrinks :
      (b : ResultBatcher) (s : S)
      → goes_on (flush_one post_results b s) ≡ true
      → length (flush_one post_results b s).0.0.pending < length b.pending
  unfolding flush_one
  flush_one_shrinks b s e =
      let t = take_batch b in
      let on = upload_batch_on t.1 t.0 s e in rw on.1 (omega (arith, on.0, lengths-take_batch b))

  -- How the loop ends: nothing is left, or the last upload was put back.
  abbrev pub Ended : ResultBatcher × S → Type 0
  Ended x =
      (x.0.pending ≡ [])
      ⊎ ((b : ResultBatcher) × (s : S) × (flush_one post_results b s ≡ (x, (true, false))))

  upload_batch_off :
      (batch : List CheckResult) (b : ResultBatcher) (s : S)
      → goes_on (upload_batch post_results batch b s) ≡ false
      → ((upload_batch post_results batch b s).1 ≡ (true, false))
        ⊎ ((batch ≡ []) × ((upload_batch post_results batch b s).0.0 ≡ b))
  unfolding upload_batch
  upload_batch_off [] b s e = inr (refl, refl)
  upload_batch_off (x ∷ xs) b s e = ground arith

  flush_one-Ended :
      (b : ResultBatcher) (s : S)
      → Fits b
      → goes_on (flush_one post_results b s) ≡ false
      → Ended (flush_one post_results b s).0
  unfolding flush_one
  flush_one-Ended b s h e =
      let t = take_batch b in
      elim (upload_batch_off t.1 t.0 s e) [
        | inl off ↦ inr (b, s, ap (λ (r : Bool × Bool). ((flush_one post_results b s).0, r)) off)
        | inr (empty, same) ↦
            inl (ap (λ (c : ResultBatcher). c.pending) same ∙ take_batch_empty b h empty)
      ]

  flush_one-Fits : (b : ResultBatcher) (s : S) → Fits b → Fits (flush_one post_results b s).0.0
  unfolding flush_one
  flush_one-Fits b s h = upload_batch-Fits (take_batch b).1 (take_batch b).0 s (take_batch-Fits b h)

  -- From a batcher within its limits, with more rounds than there are results in the buffer, the
  -- shutdown loop ends, whatever the server answers: either the buffer is empty, or the last upload
  -- failed with an error that is tried again.
  pub flush_pending_for_shutdown_ends :
      (fuel : ℕ) (b : ResultBatcher) (s : S)
      → Fits b
      → length b.pending < fuel
      → (x : ResultBatcher × S) × (flush_pending_for_shutdown post_results fuel b s ≡ some x)
        × Ended x
  unfolding flush_pending_for_shutdown
  flush_pending_for_shutdown_ends zero b s fits h = absurd (omega (arith, h))
  flush_pending_for_shutdown_ends (suc fuel) b s fits h =
      let step = flush_one post_results b s in
      elim (Bool-cases (goes_on step)) [
        | inl on ↦
            let rest =
              flush_pending_for_shutdown_ends fuel step.0.0 step.0.1 (flush_one-Fits b s fits)
                (omega (arith, flush_one_shrinks b s on, h)) in
            (rest.0, rw (on, flush_pending_for_shutdown) rest.1, rest.2)
        | inr off ↦
            (step.0, rw (off, flush_pending_for_shutdown) refl, flush_one-Ended b s fits off)
      ]
