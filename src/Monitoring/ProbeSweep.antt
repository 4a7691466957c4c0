-- ===== src/Monitoring/ProbeSweep.antt =====
-- `SweepProbes` of internal/monitoring/sweepers.go. The lock is taken for each probe anew, so the
-- step on one probe is a definition of its own. A nil runtime or store is `none`.
pub mod Effect
pub mod Silent
pub mod Expiry
pub mod Complete
use wacht.Shared.{
  ℕ, ◌+◌, String, Bool, true, false, ◌||◌, Option, none, some, List, [], ◌∷◌, if◌then◌else◌,
}
use wacht.Shared.Int.{is_nonpositive}
use wacht.Shared.Time.{Time, Duration, add, is_after}
use wacht.Shared.Text.{sort_strings}
use wacht.Shared.Dict.{Dict, lookup, insert, keys}
use wacht.Shared.Action.{Result, ok, err, Action}
use wacht.Store.Writes.{MonitoringStore}
use wacht.Monitoring.Types.{
  ProbeState, ProbeRuntimeState, CheckExecState, CheckQuorumState, Error, same_probe_state,
}
use wacht.Monitoring.Stateless.{Stateless}
use wacht.Monitoring.ProbeMachine
use wacht.Monitoring.ProbeMachine.{ProbeMachine}
use wacht.Monitoring.QuorumMachine.{QuorumMachine}
use wacht.Monitoring.Runtime.{Runtime, apply_probe_degradation}

pub record ProbeSweepRollback : Type 0 where
  pub probe : Option ProbeRuntimeState
  pub checks : Dict CheckExecState
  pub quorums : Dict CheckQuorumState

unfoldable pub capture_quorums :
    String → Dict QuorumMachine → ProbeSweepRollback → ProbeSweepRollback
capture_quorums probe_id [] b = b
capture_quorums probe_id ((check_id, quorum) ∷ m) b =
    capture_quorums probe_id m (elim (lookup probe_id quorum.checks) [
      | none ↦ b
      | some check ↦ record b {
        checks = insert check_id check b.checks;
        quorums = insert check_id quorum.state b.quorums;
      }
    ])

unfoldable pub capture_probe_sweep_rollback : String → Runtime → ProbeSweepRollback
unfolding capture_quorums
capture_probe_sweep_rollback probe_id r =
    capture_quorums probe_id r.quorums
      (record { probe = lookup probe_id r.probes; checks = []; quorums = [] })

restore_child : String → CheckExecState → Option CheckQuorumState → QuorumMachine → QuorumMachine
restore_child probe_id check none q = record q { checks = insert probe_id check q.checks }
restore_child probe_id check (some state) q = record q {
  checks = insert probe_id check q.checks;
  state = state;
}

restore_quorum : String → CheckExecState → Option CheckQuorumState → QuorumMachine → QuorumMachine
unfolding restore_child
restore_quorum probe_id check state q = elim (lookup probe_id q.checks) [
  | none ↦ q
  | some _ ↦ restore_child probe_id check state q
]

-- The loop over the noted checks.
restore_checks :
    String → Dict CheckExecState → Dict CheckQuorumState → Dict QuorumMachine → Dict QuorumMachine
unfolding restore_quorum
restore_checks probe_id [] states m = m
restore_checks probe_id ((check_id, check) ∷ noted) states m =
    restore_checks probe_id noted states (elim (lookup check_id m) [
      | none ↦ m
      | some q ↦ insert check_id (restore_quorum probe_id check (lookup check_id states) q) m
    ])

restore_probe : String → Option ProbeRuntimeState → Dict ProbeMachine → Dict ProbeMachine
restore_probe probe_id none m = m
restore_probe probe_id (some previous) m = elim (lookup probe_id m) [
  | none ↦ m
  | some _ ↦ insert probe_id previous m
]

unfoldable pub restore_probe_sweep_rollback : String → ProbeSweepRollback → Runtime → Runtime
unfolding restore_probe restore_checks
restore_probe_sweep_rollback probe_id b r = record r {
  probes = restore_probe probe_id b.probe r.probes;
  quorums = restore_checks probe_id b.checks b.quorums r.quorums;
}

-- The heartbeat is missing or fresh enough, or the probe is offline as it is.
unfoldable pub is_sweepable : Time → Duration → ProbeMachine → Bool
is_sweepable now offline_after probe = elim probe.last_heartbeat_at [
  | none ↦ false
  | some at ↦
      if same_probe_state probe.state ProbeState.offline || is_after (add at offline_after) now
      then false
      else true
]

-- The variables `expired` and `err` that the sweeps return together.
pub record Swept : Type 0 where
  pub expired : ℕ
  pub error : Option Error

abbrev pub swept_nothing : Error → Swept
swept_nothing e = record { expired = 0; error = some e }

-- What follows `applyProbeDegradationLocked`.
keep_or_restore :
    String → ProbeSweepRollback → Runtime × Result Error (Unit {0}) → Runtime × Result Error Bool
keep_or_restore probe_id b (r, ok _) = (r, ok true)
keep_or_restore probe_id b (r, err e) = (restore_probe_sweep_rollback probe_id b r, err e)

module _ ⦃lib : Stateless⦄ where
  degrade_expired :
      {A : Type 0}
      → String
      → ProbeSweepRollback
      → Runtime
      → Result Error A
      → Runtime × Result Error Bool
  unfolding keep_or_restore
  degrade_expired probe_id b r (err e) = (r, err e)
  degrade_expired probe_id b r (ok _) =
      keep_or_restore probe_id b (apply_probe_degradation probe_id ProbeState.offline "" r)

  -- One round of the loop; `true` when the probe has expired.
  unfoldable pub sweep_probe : Time → Duration → String → Action Runtime Error Bool
  unfolding degrade_expired
  sweep_probe now offline_after probe_id r = elim (lookup probe_id r.probes) [
    | none ↦ (r, err Error.unknown_probe)
    | some probe ↦
        let p = ProbeMachine.expire_heartbeat probe in
        if is_sweepable now offline_after probe
        then degrade_expired probe_id (capture_probe_sweep_rollback probe_id r)
            (record r { probes = insert probe_id p.0 r.probes }) p.1
        else (r, ok false)
  ]

  unfoldable pub sweep_each : Time → Duration → List String → ℕ → Runtime → Runtime × Swept
  sweep_each now offline_after [] expired r = (r, record { expired = expired; error = none })
  sweep_each now offline_after (probe_id ∷ ids) expired r =
      let step = sweep_probe now offline_after probe_id r in
      elim step.1 [
        | err e ↦ (step.0, record { expired = expired; error = some e })
        | ok done ↦ sweep_each now offline_after ids (if done then expired + 1 else expired) step.0
      ]

  unfoldable pub sweep_probes :
      {S : Type 0}
      → Option Runtime
      → Option (MonitoringStore S Error)
      → Time
      → Duration
      → Option Runtime × Swept
  unfolding sweep_each
  sweep_probes none st now offline_after =
      (none, swept_nothing (Error.required "monitoring: runtime is required"))
  sweep_probes (some r) none now offline_after =
      (some r, swept_nothing (Error.required "monitoring: store is required"))
  sweep_probes (some r) (some st) now offline_after =
      if is_nonpositive offline_after
      then (some r, swept_nothing (Error.required "monitoring: offlineAfter must be positive"))
      else (let s = sweep_each now offline_after (sort_strings (keys r.probes)) 0 r in
          (some s.0, s.1))
