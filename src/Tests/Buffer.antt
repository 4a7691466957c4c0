-- ===== src/Tests/Buffer.antt =====
-- Runs of the result batcher.
use wacht.Shared.{◌+◌, ◌≡◌, ◌<◌, refl, ℕ, Option, some, none, List, [], ◌∷◌, ◌++◌, length, arith}
use wacht.Shared.Int.{ℤ}
use wacht.Shared.Within.{Within}
use wacht.Proto.{CheckResult}
use wacht.Probe.Api.{PostError, is_retryable_post_results_error}
use wacht.Probe.Batcher.{
  ResultBatcher, new_result_batcher, enqueue, take_batch, finish_upload, flush_pending_for_shutdown,
}
use wacht.Probe.Batcher.Bounds.{Fits, new_result_batcher-Fits, enqueue-Fits}
use wacht.Probe.Batcher.Flow.{Flow, Step, Reach, here, next, start, enqueued, taken, answered}
use wacht.Probe.Batcher.Order.{Reach-Within, Reach-Fits}
use wacht.Probe.Batcher.Shutdown.{Ended, flush_pending_for_shutdown_ends}
use wacht.Tests.Data.{saw_down}

abbrev first_result : CheckResult
first_result = (saw_down "a" 3).result

abbrev second_result : CheckResult
second_result = (saw_down "b" 4).result

abbrev fresh : ResultBatcher
fresh = new_result_batcher (ℤ.pos 5) (ℤ.pos 1)

-- A batch is taken, a second result comes, the upload fails and is put back, and then succeeds.
abbrev waiting : Flow
waiting = enqueued second_result (taken (enqueued first_result (start fresh)))

abbrev put_back : Flow
put_back = answered (some PostError.network) waiting

abbrev sent : Flow
sent = answered none (taken put_back)

in_flight_first : waiting.in_flight ≡ first_result ∷ []
unfolding new_result_batcher enqueue take_batch
in_flight_first = refl

in_flight_again : (taken put_back).in_flight ≡ first_result ∷ []
unfolding new_result_batcher enqueue take_batch finish_upload is_retryable_post_results_error
in_flight_again = refl

uploads : Reach (start fresh) sent
uploads =
    next
      (next
        (next
          (next
            (next (next here (Step.enqueues (start fresh) first_result))
              (Step.takes (enqueued first_result (start fresh)) refl))
            (Step.enqueues (taken (enqueued first_result (start fresh))) second_result))
          (Step.answers waiting first_result [] (some PostError.network) in_flight_first))
        (Step.takes put_back refl))
      (Step.answers (taken put_back) first_result [] none in_flight_again)

Reach-Within_example :
    Within ((sent.delivered ++ sent.in_flight) ++ sent.batcher.pending) sent.accepted
    × ((past : List CheckResult) × (sent.accepted ≡ past ++ sent.batcher.pending))
Reach-Within_example = Reach-Within (ℤ.pos 5) (ℤ.pos 1) uploads

Reach-Fits_example : Fits sent.batcher × (sent.batcher.max_pending ≡ fresh.max_pending)
Reach-Fits_example = Reach-Fits (ℤ.pos 5) (ℤ.pos 1) uploads

-- A server that counts the batches and takes each.
abbrev counting : List CheckResult → ℕ → ℕ × Option PostError
counting batch n = (n + 1, none)

abbrev holding : ResultBatcher
holding = enqueue second_result (enqueue first_result fresh)

holding-Fits : Fits holding
holding-Fits =
    enqueue-Fits second_result _
      (enqueue-Fits first_result _ (new_result_batcher-Fits (ℤ.pos 5) (ℤ.pos 1)))

two_left : length holding.pending < 3
unfolding new_result_batcher enqueue
two_left = omega arith

flush_pending_for_shutdown_ends_example :
    (x : ResultBatcher × ℕ) × (flush_pending_for_shutdown counting 3 holding 0 ≡ some x)
    × Ended counting x
flush_pending_for_shutdown_ends_example =
    flush_pending_for_shutdown_ends counting 3 holding 0 holding-Fits two_left
