-- ===== src/Store/MonitoringWrites.antt =====
-- internal/store/monitoring.go: what the monitoring package writes. `canonical` is uuid.Parse of
-- github.com/google/uuid followed by String, and `now` the time that the clock shows during a call.
pub mod Atomic
pub mod RoundTrip
use wacht.Store.CheckStates.{
  accept_trimmed, identified, invalid_check_state_write, is_incomplete, is_outcome_text,
  is_state_text, normalize_check_state_write, normalize_time, put_state, row_of, same_key,
  set_times, trim_check_state, upsert_check_state, upsert_check_states, upsert_prepared, upsert_row,
  with_check_id,
}
use wacht.Shared.{
  ◌^◌, String, Bool, true, false, not, ◌&&◌, ◌||◌, Option, none, some, List, [], ◌∷◌, map, ◌==◌,
  ltb, if◌then◌else◌, is_some,
}
use wacht.Shared.Rows.{any}
use wacht.Shared.Text.{trim_space}
use wacht.Shared.Time.{Time, zero_time, is_zero}
use wacht.Shared.Action.{Result, ok, err, Action, ◌>>=◌, ◌>>◌, pure}
use wacht.Monitoring.Types.{Error}
use wacht.Store.Writes.{NotificationRequest, CheckStateWrite, MonitoringWrite, PersistedCheckState}
use wacht.Store.Tables.{Tables, ProbeRow, CheckRow}
use wacht.Store.Connection.{Connection, exec, transaction}
use wacht.Store.CheckId.{normalize_check_id}
use wacht.Store.Notifications.{open_incident_with_notification, resolve_incident_with_notification}

abbrev pub invalid_probe_write : Error
invalid_probe_write = Error.external "store: invalid monitoring probe write"

abbrev pub invalid_incident_write : Error
invalid_incident_write = Error.external "store: invalid monitoring incident write"

-- internal/store/probes.go, updateProbeHeartbeatTx
abbrev pub see_row : String → Time → ProbeRow → ProbeRow
see_row probe_id at p =
    if p.probe_id == probe_id && not (is_some p.revoked_at)
    then record p { last_seen_at = some at }
    else p

unfoldable pub update_probe_heartbeat : Time → String → Time → Action Connection Error Time
unfolding normalize_time
update_probe_heartbeat now probe_id at = do
  exec (λ (t : Tables).
      (record t { probes = map (see_row probe_id (normalize_time now at)) t.probes }, ok tt))
  pure (normalize_time now at)

abbrev pub apply_identified :
    Time → Bool → Option NotificationRequest → Result Error String → Action Connection Error Bool
apply_identified now resolve request (err e) c = (c, err invalid_incident_write)
apply_identified now true request (ok id) c = resolve_incident_with_notification id request now c
apply_identified now false request (ok id) c =
    (do already_open ← open_incident_with_notification id request now; pure (not already_open)) c

unfoldable pub apply_monitoring_incident :
    (String → Option String)
    → Time
    → String
    → Bool
    → Option NotificationRequest
    → Action Connection Error Bool
unfolding normalize_check_id open_incident_with_notification resolve_incident_with_notification
apply_monitoring_incident canonical now check_id resolve request c =
    if check_id == ""
    then (c, ok false)
    else apply_identified now resolve request (normalize_check_id canonical check_id) c

abbrev pub no_write : MonitoringWrite
no_write = record {
  check_state_writes = [];
  probe_heartbeat_id = "";
  probe_heartbeat_at = zero_time;
  incident_check_id = "";
  resolve_incident = false;
  incident_notification = none;
}

-- The guards that a batch and a transaction share.
unfoldable pub validate_states : Time → List CheckStateWrite → Result Error (Unit {0})
unfolding normalize_check_state_write
validate_states now [] = ok tt
validate_states now (w ∷ ws) =
    let rest = validate_states now ws in
    elim (normalize_check_state_write now w) [ err e ↦ err e | ok _ ↦ rest ]

unfoldable pub validate_write : Time → MonitoringWrite → Result Error (Unit {0})
unfolding validate_states
validate_write now w =
    if w.probe_heartbeat_id == "" && not (is_zero w.probe_heartbeat_at)
    then err invalid_probe_write
    else if w.incident_check_id == "" && (w.resolve_incident || is_some w.incident_notification)
    then err invalid_incident_write
    else validate_states now w.check_state_writes

unfoldable pub validate_writes : Time → List MonitoringWrite → Result Error (Unit {0})
unfolding validate_write
validate_writes now [] = ok tt
validate_writes now (w ∷ ws) =
    let rest = validate_writes now ws in elim (validate_write now w) [ err e ↦ err e | ok _ ↦ rest ]

abbrev no_states : List CheckStateWrite → Bool
no_states [] = true
no_states (w ∷ ws) = false

abbrev pub is_empty_write : MonitoringWrite → Bool
is_empty_write w =
    no_states w.check_state_writes && w.probe_heartbeat_id == "" && w.incident_check_id == ""

abbrev pub heartbeat_of : Time → MonitoringWrite → Action Connection Error Time
heartbeat_of now w c =
    if w.probe_heartbeat_id == ""
    then (c, ok w.probe_heartbeat_at)
    else update_probe_heartbeat now w.probe_heartbeat_id w.probe_heartbeat_at c

unfoldable pub persist_parts :
    (String → Option String) → Time → MonitoringWrite → Action Connection Error MonitoringWrite
unfolding upsert_check_states update_probe_heartbeat apply_monitoring_incident
persist_parts canonical now w = do
  saved ← upsert_check_states canonical now w.check_state_writes
  heartbeat_at ← heartbeat_of now w
  apply_monitoring_incident canonical now w.incident_check_id w.resolve_incident
      w.incident_notification
  pure (record w { check_state_writes = saved; probe_heartbeat_at = heartbeat_at })

abbrev pub persist_valid :
    (String → Option String)
    → Time
    → MonitoringWrite
    → Result Error (Unit {0})
    → Action Connection Error MonitoringWrite
persist_valid canonical now w (err e) c = (c, err e)
persist_valid canonical now w (ok _) c =
    if is_empty_write w then (c, ok no_write) else persist_parts canonical now w c

unfoldable pub persist_monitoring_write_tx :
    (String → Option String) → Time → MonitoringWrite → Action Connection Error MonitoringWrite
unfolding validate_write persist_parts
persist_monitoring_write_tx canonical now w = persist_valid canonical now w (validate_write now w)

unfoldable pub persist_each :
    (String → Option String)
    → Time
    → List MonitoringWrite
    → Action Connection Error (List MonitoringWrite)
unfolding persist_monitoring_write_tx
persist_each canonical now [] = pure []
persist_each canonical now (w ∷ ws) = do
  saved ← persist_monitoring_write_tx canonical now w
  rest ← persist_each canonical now ws
  pure (saved ∷ rest)

abbrev pub persist_valid_batch :
    (String → Option String)
    → Time
    → List MonitoringWrite
    → Result Error (Unit {0})
    → Action Connection Error (List MonitoringWrite)
persist_valid_batch canonical now ws (err e) c = (c, err e)
persist_valid_batch canonical now ws (ok _) c =
    if any (λ (w : MonitoringWrite). not (is_empty_write w)) ws
    then transaction (persist_each canonical now ws) c
    else (c, ok [])

unfoldable pub persist_monitoring_batch :
    (String → Option String)
    → Time
    → List MonitoringWrite
    → Action Connection Error (List MonitoringWrite)
unfolding validate_writes persist_each
persist_monitoring_batch canonical now ws =
    persist_valid_batch canonical now ws (validate_writes now ws)

abbrev first_write : List MonitoringWrite → MonitoringWrite
first_write [] = no_write
first_write (w ∷ ws) = w

unfoldable pub persist_monitoring_write :
    (String → Option String) → Time → MonitoringWrite → Action Connection Error MonitoringWrite
unfolding persist_monitoring_batch
persist_monitoring_write canonical now w = do
  saved ← persist_monitoring_batch canonical now (w ∷ [])
  pure (first_write saved)
