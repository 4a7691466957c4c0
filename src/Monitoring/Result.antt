-- ===== src/Monitoring/Result.antt =====
-- internal/monitoring/result.go: one batch of probe results. The JSON encoder is a parameter.
pub mod Rollback
pub mod Down
use wacht.Shared.{
  ℕ, suc, ◌*◌, String, Bool, true, false, not, ◌&&◌, Option, none, some, List, [], ◌∷◌, ◌==◌,
  if◌then◌else◌, is_some, length,
}
use wacht.Shared.Int.{ℤ, pos, negsuc, is_nonpositive, int64}
use wacht.Shared.Time.{Time, add, second}
use wacht.Shared.Text.{trim_space}
use wacht.Shared.Dict.{Dict, lookup, insert, delete}
use wacht.Shared.Action.{Result, ok, err, Action}
use wacht.Checks.{Check, default_interval}
use wacht.Proto.{CheckResult}
use wacht.Alert.Payload.{AlertPayload}
use wacht.Store.Writes.{NotificationRequest, CheckStateWrite, MonitoringWrite}
use wacht.Monitoring.Types.{
  zero_time, CheckState, QuorumState, CheckExecState, CheckQuorumState, CheckUpdate, Error,
  same_check_state, same_quorum_state, check_state_text, new_check_exec_state,
}
use wacht.Monitoring.Stateless.{Stateless}
use wacht.Monitoring.CheckMachine.{CheckMachine}
use wacht.Monitoring.Notice.{monitoring_write_for_check_event}
use wacht.Monitoring.QuorumMachine
use wacht.Monitoring.QuorumMachine.{QuorumMachine}
use wacht.Monitoring.Runtime.{Runtime, ensure_quorum}

pub record ObservedResult : Type 0 where
  pub check : Check
  pub result : CheckResult

pub record ObservedResultRollback : Type 0 where
  pub check_id : String
  pub probe_id : String
  pub created_quorum : Bool
  pub created_assignment : Bool
  pub previous_check : CheckExecState
  pub previous_quorum : CheckQuorumState

-- 2 * time.Duration(intervalSeconds) * time.Second, in 64 bits.
freshness : ℤ → ℤ
freshness (pos n) = int64 (2 * n * second)
freshness (negsuc n) = pos 0

unfoldable pub evidence_expires_at : Check → Time → Time
unfolding freshness
evidence_expires_at check observed_at =
    add observed_at
      (freshness (if is_nonpositive check.interval then pos default_interval else check.interval))

-- The child of a probe that the caller has added.
unfoldable pub child_of : String → QuorumMachine → CheckExecState
child_of probe_id q = elim (lookup probe_id q.checks) [
  | none ↦ new_check_exec_state "" ""
  | some check ↦ check
]

abbrev pub no_write : MonitoringWrite
no_write = record {
  check_state_writes = [];
  probe_heartbeat_id = "";
  probe_heartbeat_at = zero_time;
  incident_check_id = "";
  resolve_incident = false;
  incident_notification = none;
}

unfoldable pub check_state_write : String → String → CheckExecState → CheckStateWrite
check_state_write check_id probe_id check = record {
  check_id = check_id;
  probe_id = probe_id;
  last_result_at = check.last_result_at;
  last_outcome = check_state_text check.last_outcome;
  streak_len = check.streak_len;
  expires_at = check.expires_at;
  state = check_state_text check.state;
  last_error = check.last_error;
}

-- The loop of `rollbackObservedResultsLocked` takes the last rollback first.
rollback_quorum : ObservedResultRollback → QuorumMachine → QuorumMachine
rollback_quorum b q =
    let checks =
      if b.created_assignment
      then delete b.probe_id q.checks
      else (elim (lookup b.probe_id q.checks) [
        | none ↦ q.checks
        | some child ↦ insert b.probe_id b.previous_check q.checks
      ]) in
    record q { state = b.previous_quorum; checks = checks }

unfoldable pub rollback_observed_result : ObservedResultRollback → Runtime → Runtime
unfolding rollback_quorum
rollback_observed_result b r =
    if b.created_quorum
    then record r { quorums = delete b.check_id r.quorums }
    else elim (lookup b.check_id r.quorums) [
      | none ↦ r
      | some q ↦ record r { quorums = insert b.check_id (rollback_quorum b q) r.quorums }
    ]

unfoldable pub rollback_observed_results : List ObservedResultRollback → Runtime → Runtime
rollback_observed_results [] r = r
rollback_observed_results (b ∷ bs) r = rollback_observed_result b (rollback_observed_results bs r)

-- The quorum and the child that an accepted result is for, created where they are missing, and what
-- takes the result back.
pub record Prepared : Type 0 where
  pub runtime : Runtime
  pub quorum : QuorumMachine
  pub rollback : ObservedResultRollback

abbrev pub put_quorum : String → QuorumMachine → Runtime → Runtime
put_quorum check_id quorum r = record r { quorums = insert check_id quorum r.quorums }

unfoldable pub prepare_observed : String → String → Runtime → Prepared
unfolding ensure_quorum child_of
prepare_observed check_id probe_id r =
    let entry = ensure_quorum check_id r in
    let assignment_existed = is_some (lookup probe_id entry.1.checks) in
    let added = QuorumMachine.add_probe probe_id entry.1 in
    let quorum = if assignment_existed then entry.1 else added.0 in
    record {
      runtime = entry.0;
      quorum = quorum;
      rollback = record {
        check_id = check_id;
        probe_id = probe_id;
        created_quorum = not (is_some (lookup check_id r.quorums));
        created_assignment = not assignment_existed;
        previous_check = child_of probe_id quorum;
        previous_quorum = entry.1.state;
      };
    }

module _ ⦃lib : Stateless⦄ where
  -- The `if result.Up`.
  unfoldable pub observe_result : CheckResult → Time → Action QuorumMachine Error CheckUpdate
  observe_result result expires_at =
      if result.up
      then QuorumMachine.observe_up result.probe_id result.timestamp (some expires_at)
      else QuorumMachine.observe_down result.probe_id result.timestamp (some expires_at)
          (trim_space result.error)

-- What follows the observation. An error of the encoder leaves the runtime as it is.
finish_observed :
    Runtime
    → ObservedResultRollback
    → Result Error MonitoringWrite
    → Runtime × Result Error (MonitoringWrite × ObservedResultRollback)
finish_observed r rollback (err e) = (r, err e)
finish_observed r rollback (ok write) = (r, ok (write, rollback))

module _ (marshal : AlertPayload → Result Error String) where
  unfoldable pub observed_update :
      Check
      → String
      → ObservedResultRollback
      → QuorumMachine
      → Runtime
      → Result Error CheckUpdate
      → Runtime × Result Error (MonitoringWrite × ObservedResultRollback)
  unfolding rollback_observed_results finish_observed child_of
  observed_update check probe_id rollback quorum r (err e) =
      (rollback_observed_results (rollback ∷ []) r, err e)
  observed_update check probe_id rollback quorum r (ok update) = finish_observed r rollback (
      monitoring_write_for_check_event marshal check quorum rollback.previous_quorum update.quorum
        (record no_write {
          check_state_writes = check_state_write check.id probe_id (child_of probe_id quorum) ∷ [];
        }))

  module _ ⦃lib : Stateless⦄ where
    unfoldable pub apply_observed_result :
        Check → CheckResult → Action Runtime Error (MonitoringWrite × ObservedResultRollback)
    apply_observed_result check result r = elim (lookup result.probe_id r.probes) [
      | none ↦ (r, err Error.unknown_probe)
      | some _ ↦
          let p = prepare_observed check.id result.probe_id r in
          let u = observe_result result (evidence_expires_at check result.timestamp) p.quorum in
          observed_update check result.probe_id p.rollback u.0 (put_quorum check.id u.0 p.runtime)
            u.1
    ]
