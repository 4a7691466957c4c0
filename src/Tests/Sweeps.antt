-- ===== src/Tests/Sweeps.antt =====
-- Runs of the two sweeps.
use wacht.Shared.{
  ◌≡◌, ◌<◌, ◌*◌, refl, true, some, none, String, length, arith, All, Bool, false, Option, [], ◌∷◌,
}
use wacht.Shared.Int.{ℤ}
use wacht.Shared.Dict.{lookup, insert}
use wacht.Shared.Action.{ok, Result, err}
use wacht.Monitoring.Types.{QuorumState, CheckState, Error}
use wacht.Monitoring.QuorumMachine.{QuorumMachine, quorum_contribution}
use wacht.Monitoring.QuorumMachine.Votes.{votes}
use wacht.Monitoring.Notice.{monitoring_write_for_check_event}
use wacht.Monitoring.Result.{
  ObservedResultRollback, apply_observed_result, observed_update, observe_result, prepare_observed,
}
use wacht.Monitoring.Runtime.{Runtime, apply_probe_degradation, degrade_quorum, each_quorum}
use wacht.Monitoring.ProbeSweep.{
  is_sweepable, sweep_probe, sweep_probes, capture_probe_sweep_rollback,
}
use wacht.Monitoring.ProbeSweep.Expiry.{IsSwept, sweep_probe-IsSwept}
use wacht.Monitoring.ProbeSweep.Silent.{without_evidence, sweep_probe_silent}
use wacht.Monitoring.ProbeSweep.Complete.{IsFresh, sweep_probes-IsFresh}
use wacht.Monitoring.CheckSweep.{Assignment, sweep_check}
use wacht.Monitoring.CheckSweep.Effect.{either, swept, sweep_check-either}
use wacht.Store.Writes.{MonitoringWrite}
use wacht.Monitoring.QuorumMachine
use wacht.Monitoring.CheckMachine
use wacht.Monitoring.ProbeMachine
use wacht.Monitoring.CheckMachine.{check_configuration}
use wacht.Monitoring.Result.Down.{IsStableDown, StaysDown}
use wacht.Tests.Data.{
  saw_down, interpreter, shop, working, failing, marshal, fleet, shop_quorum, evidence, seen_probe,
  fleet-IsWellFormed,
}

sweep_probe-IsSwept_example :
    IsSwept 140 (ℤ.pos 60) "a" fleet (sweep_probe 140 (ℤ.pos 60) "a" fleet)
sweep_probe-IsSwept_example = sweep_probe-IsSwept 140 (ℤ.pos 60) "a" fleet fleet-IsWellFormed

sweep_probes-IsFresh_example :
    (r' : Runtime) × ((sweep_probes (some fleet) (some working) 140 (ℤ.pos 60)).0 ≡ some r')
    × ((sweep_probes (some fleet) (some working) 140 (ℤ.pos 60)).1.error ≡ none)
    × ((j : String) → IsFresh 140 (ℤ.pos 60) (lookup j r'.probes))
sweep_probes-IsFresh_example =
    sweep_probes-IsFresh 140 (ℤ.pos 60) fleet working fleet-IsWellFormed refl

known : lookup "a" fleet.probes ≡ some (seen_probe "a" 5)
unfolding lookup
known = refl

here : lookup "shop" fleet.quorums ≡ some shop_quorum
unfolding lookup
here = refl

child : lookup "a" shop_quorum.checks ≡ some (evidence "a" CheckState.up)
unfolding lookup
child = refl

due : is_sweepable 140 (ℤ.pos 60) (seen_probe "a" 5) ≡ true
unfolding is_sweepable
due = refl

abbrev assigned : Assignment
assigned = record { check_id = "shop"; probe_id = "a" }

sweep_check-either_example :
    let step = sweep_check marshal failing 140 assigned (fleet, 0) in
    step.0.0 ≡ either fleet (swept marshal failing assigned shop_quorum fleet) step.1
sweep_check-either_example =
    sweep_check-either marshal failing 140 assigned fleet 0 shop_quorum (evidence "a" CheckState.up)
      fleet-IsWellFormed here child

majority :
    let m = without_evidence "a" (evidence "a" CheckState.up) shop_quorum in
    length m < 2 * votes CheckState.down shop_quorum.state m
unfolding votes insert quorum_contribution
majority = omega arith

-- After the sweep the probe "b" reports the check down once more.
abbrev swept_fleet : Runtime
swept_fleet = (sweep_probe 140 (ℤ.pos 60) "a" fleet).0

abbrev report : Runtime × Result Error (MonitoringWrite × ObservedResultRollback)
report = apply_observed_result marshal shop (saw_down "b" 141).result swept_fleet

is_ok : {A : Type 0} → Result Error A → Bool
is_ok (ok a) = true
is_ok (err e) = false

accepted : {A : Type 0} (r : Result Error A) → is_ok r ≡ true → (a : A) × (r ≡ ok a)
unfolding is_ok
accepted (ok a) h = (a, refl)
accepted (err e) h = absurd cc

report_accepted : (a : MonitoringWrite × ObservedResultRollback) × (report.1 ≡ ok a)
unfolding is_ok sweep_probe is_sweepable apply_probe_degradation degrade_quorum each_quorum
    capture_probe_sweep_rollback apply_observed_result lookup insert observed_update observe_result
    prepare_observed QuorumMachine.observe_down CheckMachine.observe_down check_configuration
    monitoring_write_for_check_event ProbeMachine.expire_heartbeat ProbeMachine.probe_configuration
    QuorumMachine.lose_evidence CheckMachine.lose_evidence
report_accepted = accepted report.1 refl

quorum_or : Option QuorumMachine → QuorumMachine
quorum_or none = shop_quorum
quorum_or (some q) = q

report_down : IsStableDown "shop" report.0
unfolding quorum_or sweep_probe is_sweepable apply_probe_degradation degrade_quorum each_quorum
    capture_probe_sweep_rollback apply_observed_result lookup insert observed_update observe_result
    prepare_observed QuorumMachine.observe_down CheckMachine.observe_down check_configuration
    monitoring_write_for_check_event ProbeMachine.expire_heartbeat ProbeMachine.probe_configuration
    QuorumMachine.lose_evidence CheckMachine.lose_evidence
report_down = (quorum_or (lookup "shop" report.0.quorums), refl, refl)

stays_down : StaysDown marshal shop swept_fleet report.0 (report_accepted.0.0 ∷ [])
stays_down =
    StaysDown.observed (saw_down "b" 141).result report_accepted.0.0 report_accepted.0.1
      StaysDown.begins (λ i. (report.0, report_accepted.1 i)) report_down

sweep_probe_silent_example :
    (q' : QuorumMachine) × (lookup "shop" swept_fleet.quorums ≡ some q')
    × (q'.state.last_stable_state ≡ QuorumState.down)
    × (q'.state.incident_open ≡ true)
    × All (λ (w : MonitoringWrite). w.incident_check_id ≡ "") (report_accepted.0.0 ∷ [])
sweep_probe_silent_example =
    sweep_probe_silent 140 (ℤ.pos 60) "a" shop fleet (seen_probe "a" 5) shop_quorum
      (evidence "a" CheckState.up) fleet-IsWellFormed known due here child refl refl majority
      marshal report.0 (report_accepted.0.0 ∷ []) stays_down
