-- ===== src/Tests/Runs.antt =====
-- Runs of the runtime: batches, heartbeats, recovery, and sections one after another.
use wacht.Shared.{◌≡◌, ◌≢◌, refl, some, List, [], ◌∷◌, ℕ, All}
use wacht.Shared.Dict.{lookup, insert}
use wacht.Shared.Action.{ok, err}
use wacht.Monitoring.Types.{ProbeState, check_state_of}
use wacht.Monitoring.Runtime.{Runtime, apply_probe_degradation}
use wacht.Monitoring.Runtime.WellFormed.{IsWellFormed}
use wacht.Monitoring.Runtime.Degradation.{apply_probe_degradation_accepted}
use wacht.Monitoring.Heartbeat.{heartbeat, heartbeat_write}
use wacht.Monitoring.Heartbeat.Effect.{transaction, heartbeat-transaction}
use wacht.Monitoring.CheckMachine
use wacht.Monitoring.CheckMachine.{check_configuration}
use wacht.Monitoring.QuorumMachine
use wacht.Monitoring.Notice.{monitoring_write_for_check_event, notification_request}
use wacht.Monitoring.Result.{
  ObservedResult, apply_observed_result, observed_update, observe_result, prepare_observed,
}
use wacht.Monitoring.Batch.{observed_result_batch, apply_result_batch}
use wacht.Monitoring.ProbeSweep.{sweep_probe}
use wacht.Shared.Int.{ℤ}
use wacht.Monitoring.Batch.Atomicity.{apply_result_batch_atomic}
use wacht.Monitoring.Recovery.{build_runtime}
use wacht.Monitoring.Recovery.Restored.{IsAdmitted, build_runtime-IsWellFormed}
use wacht.Monitoring.Reachable.{Step, Reach, here, next, Reach-IsWellFormed}
use wacht.Tests.Data.{
  interpreter, shop, working, failing, full_disk, marshal, fleet, saw_down, saved_rows,
  saved_probes, fleet-IsWellFormed,
}

-- The first result makes the majority for down stable, which opens the incident.
abbrev items : List ObservedResult
items = saw_down "b" 120 ∷ saw_down "c" 121 ∷ saw_down "b" 122 ∷ []

batch_fails : (apply_result_batch marshal (some fleet) (some failing) items 0).1 ≡ err full_disk
unfolding apply_result_batch apply_observed_result lookup insert observed_update observe_result
    prepare_observed QuorumMachine.observe_down CheckMachine.observe_down check_configuration
    monitoring_write_for_check_event notification_request
batch_fails = refl

apply_result_batch_atomic_example :
    (apply_result_batch marshal (some fleet) (some failing) items 0).0.0 ≡ some fleet
apply_result_batch_atomic_example =
    apply_result_batch_atomic marshal (λ p e h. cc) (some fleet) (some failing) items 0 batch_fails

-- With a store that works, the same batch opens the incident.
batch_opens : (apply_result_batch marshal (some fleet) (some working) items 0).1 ≡ ok tt
unfolding apply_result_batch apply_observed_result lookup insert observed_update observe_result
    prepare_observed QuorumMachine.observe_down CheckMachine.observe_down check_configuration
    monitoring_write_for_check_event notification_request
batch_opens = refl

heartbeat-transaction_example :
    heartbeat failing "a" 130 (fleet, 0)
    ≡ transaction
        (lookup "a" fleet.probes)
        (failing.persist_write (heartbeat_write "a" 130) 0)
        "a"
        130
        fleet
        0
heartbeat-transaction_example = heartbeat-transaction failing "a" 130 fleet 0

saved_rows-IsAdmitted : All IsAdmitted saved_rows
unfolding check_state_of
saved_rows-IsAdmitted = ((λ h. cc), tt)

build_runtime-IsWellFormed_example :
    (r : Runtime) × (build_runtime (shop ∷ []) saved_probes saved_rows ("shop" ∷ []) ≡ ok r)
    × IsWellFormed r
build_runtime-IsWellFormed_example =
    build_runtime-IsWellFormed (shop ∷ []) saved_probes saved_rows ("shop" ∷ [])
      saved_rows-IsAdmitted

apply_probe_degradation_accepted_example :
    (apply_probe_degradation "a" ProbeState.error "lost" fleet).1 ≢ err full_disk
apply_probe_degradation_accepted_example =
    apply_probe_degradation_accepted fleet fleet-IsWellFormed "a" ProbeState.error "lost" full_disk

-- A heartbeat, a batch of results, and a sweep of the probe that has gone.
abbrev after_beat : Runtime × ℕ
after_beat = (heartbeat working "b" 130 (fleet, 0)).0

abbrev after_batch : Runtime × ℕ
after_batch = (observed_result_batch marshal working items after_beat).0

abbrev after_sweep : Runtime × ℕ
after_sweep = ((sweep_probe 140 (ℤ.pos 60) "a" after_batch.0).0, after_batch.1)

abbrev run : Reach marshal working (fleet, 0) after_sweep
run =
    next
      (next (next here (Step.beats fleet 0 "b" 130)) (Step.applies after_beat.0 after_beat.1 items))
      (Step.sweeps_probe after_batch.0 after_batch.1 140 (ℤ.pos 60) "a")

Reach-IsWellFormed_example : IsWellFormed after_sweep.0
Reach-IsWellFormed_example = Reach-IsWellFormed marshal working (λ p e h. cc) fleet-IsWellFormed run
