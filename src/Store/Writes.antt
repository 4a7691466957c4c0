-- ===== src/Store/Writes.antt =====
-- The values that internal/store/monitoring.go and incident_notifications.go exchange with the
-- monitoring package, and the store as that package sees it.
use wacht.Shared.{ℕ, String, Bool, Option, List}
use wacht.Shared.Time.{Time}
use wacht.Shared.Action.{Action}
use wacht.Checks.{Check}

-- The payload is the JSON text.
pub record NotificationRequest : Type 0 where
  pub webhook_url : String
  pub payload : String

pub record CheckStateWrite : Type 0 where
  pub check_id : String
  pub probe_id : String
  pub last_result_at : Time
  pub last_outcome : String
  pub streak_len : ℕ
  pub expires_at : Time
  pub state : String
  pub last_error : String

pub record PersistedProbeState : Type 0 where
  pub probe_id : String
  pub last_seen_at : Option Time

pub record PersistedCheckState : Type 0 where
  pub check_id : String
  pub probe_id : String
  pub last_result_at : Time
  pub last_outcome : String
  pub streak_len : ℕ
  pub expires_at : Time
  pub state : String
  pub last_error : String

pub record MonitoringWrite : Type 0 where
  pub check_state_writes : List CheckStateWrite
  pub probe_heartbeat_id : String
  pub probe_heartbeat_at : Time
  pub incident_check_id : String
  pub resolve_incident : Bool
  pub incident_notification : Option NotificationRequest

-- The interfaces `heartbeatStore`, `resultBatchStore`, `sweeperStore` and `recoveryStore` in one: a
-- store with a state of type `S`, whose calls may fail with an error of type `E` and may change the
-- state in any way. The callers discard the writes that the source's methods return.
pub record MonitoringStore (S E : Type 0) : Type 0 where
  pub persist_write : MonitoringWrite → Action S E (Unit {0})
  pub persist_batch : List MonitoringWrite → Action S E (Unit {0})
  pub get_check_by_id : String → Action S E (Option Check)
  pub list_all_checks : Action S E (List Check)
  pub recoverable_probe_states : Action S E (List PersistedProbeState)
  pub persisted_check_states : Action S E (List PersistedCheckState)
  pub open_incident_check_ids : Action S E (List String)
