-- ===== src/Store/Notifications/Persisting.antt =====
-- PersistMonitoringBatch (internal/store/monitoring.go) and the tables of incidents and webhooks.
use wacht.Store.MonitoringWrites.{
  invalid_incident_write, update_probe_heartbeat, apply_identified, apply_monitoring_incident,
  heartbeat_of, persist_parts, persist_valid, persist_monitoring_write_tx, persist_each,
  persist_valid_batch, persist_monitoring_batch, validate_write, validate_writes, is_empty_write,
  no_write, see_row,
}
use wacht.Store.CheckStates.{
  row_of, put_state, is_state_text, is_outcome_text, upsert_row, upsert_prepared,
  upsert_check_state, upsert_check_states, identified, normalize_check_state_write, normalize_time,
}
use wacht.Shared.{
  ◌&&◌, ◌^◌, ltb, [], ◌∷◌, String, Option, List, Bool, true, false, not, ◌==◌, map, if◌then◌else◌,
  Bool-cases, inl, inr,
}
use wacht.Store.Connection.Rules.{
  raise-Ensures, Ensures, exec-Ensures, bind-Ensures, pure-Ensures, transaction-Keeps,
}
use wacht.Shared.Rows.{any}
use wacht.Shared.Time.{Time}
use wacht.Shared.Action.{Result, ok, err, Action, ◌>>=◌}
use wacht.Monitoring.Types.{Error}
use wacht.Store.Writes.{CheckStateWrite, MonitoringWrite, NotificationRequest}
use wacht.Store.Tables.{Tables, CheckRow}
use wacht.Store.Connection.{Connection, exec}
use wacht.Store.CheckId.{normalize_check_id}
use wacht.Store.Notifications.{open_incident_with_notification}
use wacht.Store.Notifications.Consistent.{IsConsistent}
use wacht.Store.Notifications.Opening.{open_incident-Ensures}
use wacht.Store.Notifications.Resolving.{resolve_incident_with-Ensures}
use wacht.Store.Notifications.Deleting.{others-IsConsistent}

-- The body changes other tables only, or changes these in a transaction's order.
abbrev pub Keeps : {A : Type 0} → Action Connection Error A → Type 0
Keeps m = Ensures IsConsistent m (λ _. IsConsistent)

Keeps-bind :
    {A B : Type 0} (m : Action Connection Error A) (k : A → Action Connection Error B)
    → Keeps m
    → ((a : A) → Keeps (k a))
    → Keeps (m >>= k)
Keeps-bind m k f g = bind-Ensures IsConsistent (λ _. IsConsistent) (λ _. IsConsistent) m k f g

either-Ensures :
    {A : Type 0} (m n : Action Connection Error A) (b : Bool)
    → Keeps m
    → Keeps n
    → Keeps (λ (c : Connection). if b then m c else n c)
either-Ensures m n true f g c a h e = f c a h e
either-Ensures m n false f g c a h e = g c a h e

pub either-IsConsistent :
    {E : Type 0} (r s : Tables × E) (b : Bool)
    → IsConsistent r.0
    → IsConsistent s.0
    → IsConsistent (if b then r else s).0
either-IsConsistent r s true f g = f
either-IsConsistent r s false f g = g

upsert_row-Ensures : (w : CheckStateWrite) → Keeps (exec (upsert_row w))
unfolding upsert_row
upsert_row-Ensures w =
    exec-Ensures IsConsistent (λ _. IsConsistent) (upsert_row w)
      (λ t a h e. either-IsConsistent _ _ (not (ltb w.streak_len (2 ^ 31))) h (
        either-IsConsistent _ _ (not (is_outcome_text w.last_outcome && is_state_text w.state)) h (
          either-IsConsistent _ _ (not (any (λ (c : CheckRow). c.id == w.check_id) t.checks)) h (
            others-IsConsistent t.probes t.checks (put_state (row_of w) t.check_probe_state) t h))))

upsert_prepared-Ensures : (w : Result Error CheckStateWrite) → Keeps (upsert_prepared w)
upsert_prepared-Ensures (err x) = raise-Ensures IsConsistent (λ _. IsConsistent) x
upsert_prepared-Ensures (ok w) =
    Keeps-bind (exec (upsert_row w)) _ (upsert_row-Ensures w) (λ _. pure-Ensures IsConsistent w)

upsert_check_states-Ensures :
    (canonical : String → Option String) (now : Time) (ws : List CheckStateWrite)
    → Keeps (upsert_check_states canonical now ws)
unfolding upsert_check_states upsert_check_state
upsert_check_states-Ensures canonical now [] = pure-Ensures IsConsistent []
upsert_check_states-Ensures canonical now (w ∷ ws) =
    Keeps-bind (upsert_check_state canonical now w) _
      (upsert_prepared-Ensures (identified canonical (normalize_check_state_write now w)))
      (λ saved.
        Keeps-bind (upsert_check_states canonical now ws) _
          (upsert_check_states-Ensures canonical now ws)
          (λ rest. pure-Ensures IsConsistent (saved ∷ rest)))

heartbeat-Ensures : (now : Time) (w : MonitoringWrite) → Keeps (heartbeat_of now w)
unfolding update_probe_heartbeat
heartbeat-Ensures now w =
    either-Ensures _ _ (w.probe_heartbeat_id == "") (pure-Ensures IsConsistent w.probe_heartbeat_at)
      (Keeps-bind _ _
        (exec-Ensures IsConsistent (λ _. IsConsistent) _
          (λ t a h e.
            others-IsConsistent
              (map (see_row w.probe_heartbeat_id (normalize_time now w.probe_heartbeat_at))
                t.probes)
              t.checks t.check_probe_state t h))
        (λ _. pure-Ensures IsConsistent (normalize_time now w.probe_heartbeat_at)))

apply_identified-Ensures :
    (now : Time) (resolve : Bool) (request : Option NotificationRequest) (id : Result Error String)
    → Keeps (apply_identified now resolve request id)
apply_identified-Ensures now resolve request (err x) =
    raise-Ensures IsConsistent (λ _. IsConsistent) invalid_incident_write
apply_identified-Ensures now true request (ok id) = resolve_incident_with-Ensures id request now
apply_identified-Ensures now false request (ok id) =
    Keeps-bind (open_incident_with_notification id request now) _
      (open_incident-Ensures id request now)
      (λ already_open. pure-Ensures IsConsistent (not already_open))

apply_monitoring_incident-Ensures :
    (canonical : String → Option String) (now : Time) (check_id : String) (resolve : Bool)
    (request : Option NotificationRequest)
    → Keeps (apply_monitoring_incident canonical now check_id resolve request)
unfolding apply_monitoring_incident
apply_monitoring_incident-Ensures canonical now check_id resolve request =
    either-Ensures _ _ (check_id == "") (pure-Ensures IsConsistent false)
      (apply_identified-Ensures now resolve request (normalize_check_id canonical check_id))

persist_parts-Ensures :
    (canonical : String → Option String) (now : Time) (w : MonitoringWrite)
    → Keeps (persist_parts canonical now w)
unfolding persist_parts
persist_parts-Ensures canonical now w =
    Keeps-bind _ _ (upsert_check_states-Ensures canonical now w.check_state_writes) (λ saved.
      Keeps-bind _ _ (heartbeat-Ensures now w) (λ at.
        Keeps-bind _ _
          (apply_monitoring_incident-Ensures canonical now w.incident_check_id w.resolve_incident
            w.incident_notification)
          (λ _.
            pure-Ensures IsConsistent
              (record w { check_state_writes = saved; probe_heartbeat_at = at }))))

persist_valid-Ensures :
    (canonical : String → Option String) (now : Time) (w : MonitoringWrite)
    (valid : Result Error (Unit {0}))
    → Keeps (persist_valid canonical now w valid)
persist_valid-Ensures canonical now w (err x) = raise-Ensures IsConsistent (λ _. IsConsistent) x
persist_valid-Ensures canonical now w (ok u) =
    either-Ensures _ _ (is_empty_write w) (pure-Ensures IsConsistent no_write)
      (persist_parts-Ensures canonical now w)

persist_each-Ensures :
    (canonical : String → Option String) (now : Time) (ws : List MonitoringWrite)
    → Keeps (persist_each canonical now ws)
unfolding persist_each persist_monitoring_write_tx
persist_each-Ensures canonical now [] = pure-Ensures IsConsistent []
persist_each-Ensures canonical now (w ∷ ws) =
    Keeps-bind (persist_monitoring_write_tx canonical now w) _
      (persist_valid-Ensures canonical now w (validate_write now w))
      (λ saved.
        Keeps-bind (persist_each canonical now ws) _ (persist_each-Ensures canonical now ws)
          (λ rest. pure-Ensures IsConsistent (saved ∷ rest)))

persist_valid_batch-IsConsistent :
    (canonical : String → Option String) (now : Time) (ws : List MonitoringWrite)
    (valid : Result Error (Unit {0})) (c : Connection)
    → IsConsistent c.tables
    → IsConsistent (persist_valid_batch canonical now ws valid c).0.tables
persist_valid_batch-IsConsistent canonical now ws (err x) c h = h
persist_valid_batch-IsConsistent canonical now ws (ok u) c h =
    elim (Bool-cases (any (λ (w : MonitoringWrite). not (is_empty_write w)) ws)) [
      | inl some_write ↦ rw some_write (
          transaction-Keeps IsConsistent (persist_each canonical now ws)
            (persist_each-Ensures canonical now ws) c h)
      | inr all_empty ↦ rw all_empty h
    ]

pub persist_monitoring_batch-IsConsistent :
    (canonical : String → Option String) (now : Time) (ws : List MonitoringWrite) (c : Connection)
    → IsConsistent c.tables
    → IsConsistent (persist_monitoring_batch canonical now ws c).0.tables
unfolding persist_monitoring_batch
persist_monitoring_batch-IsConsistent canonical now ws c h =
    persist_valid_batch-IsConsistent canonical now ws (validate_writes now ws) c h
