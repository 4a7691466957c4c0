-- ===== src/Monitoring/Notice.antt =====
-- `monitoringWriteForCheckEvent`, `notificationRequest` and `quorumCounts` of
-- internal/monitoring/result.go: what a stable transition writes. The JSON encoder is a parameter.
use wacht.Shared.{
  ℕ, suc, String, Bool, true, ◌&&◌, Option, none, some, [], ◌∷◌, ◌==◌, if◌then◌else◌, length,
}
use wacht.Shared.Dict.{Dict}
use wacht.Shared.Action.{Result, ok, err}
use wacht.Checks.{Check}
use wacht.Alert.Payload.{AlertPayload}
use wacht.Store.Writes.{NotificationRequest, MonitoringWrite}
use wacht.Monitoring.Types.{
  CheckState, QuorumState, CheckQuorumState, Error, same_check_state, same_quorum_state,
}
use wacht.Monitoring.CheckMachine.{CheckMachine}
use wacht.Monitoring.QuorumMachine.{QuorumMachine}

unfoldable pub count_down : Dict CheckMachine → ℕ
count_down [] = 0
count_down ((probe_id, check) ∷ m) =
    let rest = count_down m in
    if same_check_state check.state CheckState.down then suc rest else rest

module _ (marshal : AlertPayload → Result Error String) where
  request_of : Check → Result Error String → Result Error (Option NotificationRequest)
  request_of check (err e) = err e
  request_of check (ok body) = ok (some (record { webhook_url = check.webhook; payload = body }))

  unfoldable pub notification_request :
      Check → String → QuorumMachine → Result Error (Option NotificationRequest)
  unfolding request_of count_down
  notification_request check status quorum =
      if check.webhook == ""
      then ok none
      else request_of check (
          marshal (record {
            check_id = check.id;
            check_name = check.name;
            target = check.target;
            status = status;
            probes_down = count_down quorum.checks;
            probes_total = length quorum.checks;
          }))

  incident_write :
      Check
      → Bool
      → MonitoringWrite
      → Result Error (Option NotificationRequest)
      → Result Error MonitoringWrite
  incident_write check resolve write (err e) = err e
  incident_write check resolve write (ok request) = ok (record write {
    incident_check_id = check.id;
    resolve_incident = resolve;
    incident_notification = request;
  })

  unfoldable pub monitoring_write_for_check_event :
      Check
      → QuorumMachine
      → CheckQuorumState
      → CheckQuorumState
      → MonitoringWrite
      → Result Error MonitoringWrite
  unfolding incident_write
  monitoring_write_for_check_event check quorum previous current write =
      if same_quorum_state previous.last_stable_state QuorumState.up
        && same_quorum_state current.last_stable_state QuorumState.down
      then incident_write check write.resolve_incident write
          (notification_request check "down" quorum)
      else if previous.incident_open
          && same_quorum_state previous.last_stable_state QuorumState.down
          && same_quorum_state current.last_stable_state QuorumState.up
      then incident_write check true write (notification_request check "up" quorum)
      else ok write
