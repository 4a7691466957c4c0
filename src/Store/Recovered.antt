-- ===== src/Store/Recovered.antt =====
-- internal/store/monitoring.go: what the server reads after a restart, and the store as the
-- monitoring package has it.
pub mod Together
use wacht.Shared.{String, Bool, not, ◌&&◌, Option, List, map, ◌==◌, if◌then◌else◌, is_some}
use wacht.Shared.Rows.{any, select, sort_by}
use wacht.Shared.Text.{le_text}
use wacht.Shared.Time.{Time}
use wacht.Shared.Action.{ok, Action, ◌>>=◌, pure}
use wacht.Monitoring.Types.{Error}
use wacht.Store.Writes.{MonitoringStore, PersistedCheckState, PersistedProbeState}
use wacht.Store.Tables.{Tables, ProbeRow, CheckRow, IncidentRow}
use wacht.Store.Connection.{Connection, exec}
use wacht.Store.Notifications.{is_active}
use wacht.Store.CheckRows.{list_all_checks, get_check_by_id}
use wacht.Store.MonitoringWrites.{persist_monitoring_batch, persist_monitoring_write}

abbrev probe_state : ProbeRow → PersistedProbeState
probe_state p = record { probe_id = p.probe_id; last_seen_at = p.last_seen_at }

unfoldable pub recoverable_probe_states : Action Connection Error (List PersistedProbeState)
recoverable_probe_states = exec (λ (t : Tables). (
  t,
  ok (
      map probe_state (
        sort_by (λ (p q : ProbeRow). le_text p.probe_id q.probe_id)
          (select (λ (p : ProbeRow). not (is_some p.revoked_at)) t.probes))),
))

-- ORDER BY check_id, probe_id
abbrev by_key : PersistedCheckState → PersistedCheckState → Bool
by_key s u =
    if s.check_id == u.check_id
    then le_text s.probe_id u.probe_id
    else le_text s.check_id u.check_id

unfoldable pub persisted_check_states : Action Connection Error (List PersistedCheckState)
persisted_check_states = exec (λ (t : Tables). (t, ok (sort_by by_key t.check_probe_state)))

-- An open incident that joins a check which is not deleted.
abbrev is_live : List CheckRow → IncidentRow → Bool
is_live checks i = any (is_active i.check_id) checks && not (is_some i.resolved_at)

unfoldable pub open_incident_check_ids : Action Connection Error (List String)
open_incident_check_ids = exec (λ (t : Tables). (
  t,
  ok (
      sort_by le_text
        (map (λ (i : IncidentRow). i.check_id) (select (is_live t.checks) t.incidents))),
))

-- The methods of *Store that the monitoring package calls, while the clock shows `now`.
unfoldable pub monitoring_store : (String → Option String) → Time → MonitoringStore Connection Error
unfolding persist_monitoring_batch persist_monitoring_write get_check_by_id list_all_checks
    recoverable_probe_states persisted_check_states open_incident_check_ids
monitoring_store canonical now = record {
  persist_write = λ w. persist_monitoring_write canonical now w >>= λ _. pure tt;
  persist_batch = λ ws. persist_monitoring_batch canonical now ws >>= λ _. pure tt;
  get_check_by_id = get_check_by_id canonical;
  list_all_checks = list_all_checks;
  recoverable_probe_states = recoverable_probe_states;
  persisted_check_states = persisted_check_states;
  open_incident_check_ids = open_incident_check_ids;
}
