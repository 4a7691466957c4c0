-- ===== src/Store/Tables.antt =====
-- The tables of internal/store/migrations/000001_init.up.sql that the server's state lives in. A
-- column that may be NULL is an option; the texts of a CHECK constraint are a data type. A row that is
-- inserted comes last; `next_id` is the sequence of a table, which a transaction that is rolled back
-- gives back here.
use wacht.Shared.{ℕ, String, Bool, true, false, Option, List}
use wacht.Shared.Int.{ℤ}
use wacht.Shared.Time.{Time}
use wacht.Store.Writes.{PersistedCheckState}

pub record ProbeRow : Type 0 where
  pub probe_id : String
  pub secret_hash : String
  pub provisioned_by : String
  pub version : String
  pub created_at : Time
  pub registered_at : Option Time
  pub last_seen_at : Option Time
  pub revoked_at : Option Time

pub record CheckRow : Type 0 where
  pub id : String
  pub name : String
  pub check_type : String
  pub target : String
  pub webhook : String
  pub user_id : Option ℕ
  pub interval_seconds : ℤ
  pub deleted_at : Option Time

pub record IncidentRow : Type 0 where
  pub id : ℕ
  pub check_id : String
  pub user_id : Option ℕ
  pub started_at : Time
  pub resolved_at : Option Time

-- The constants notificationEventDown and notificationEventUp.
pub data NotificationEvent : Type 0 where
  down up : NotificationEvent

-- The constants notificationStatePending to notificationStateSuperseded.
pub data NotificationState : Type 0 where
  pending processing retrying delivered superseded : NotificationState

pub record NotificationRow : Type 0 where
  pub id : ℕ
  pub incident_id : ℕ
  pub event : NotificationEvent
  pub state : NotificationState
  pub webhook_url : String
  pub payload : String
  pub attempts : ℕ
  pub last_error : Option String
  pub last_attempt_at : Option Time
  pub next_attempt_at : Option Time
  pub delivered_at : Option Time

-- internal/store/auth.go, the struct User.
pub record User : Type 0 where
  pub id : ℕ
  pub email : String
  pub password_hash : String
  pub public_status_slug : String
  pub is_admin : Bool
  pub created_at : Time

pub record Session : Type 0 where
  pub token : String
  pub user_id : ℕ
  pub created_at : Time
  pub expires_at : Time

-- The constants signupStatusPending to signupStatusCompleted.
pub data SignupStatus : Type 0 where
  pending approved rejected completed : SignupStatus

-- With the column setup_token_hash, which the struct of internal/store/auth.go leaves out.
pub record SignupRequest : Type 0 where
  pub id : ℕ
  pub user_id : Option ℕ
  pub email : String
  pub requested_at : Time
  pub approved_at : Option Time
  pub rejected_at : Option Time
  pub completed_at : Option Time
  pub setup_token_hash : Option String
  pub setup_token_expires_at : Option Time
  pub setup_token_used_at : Option Time
  pub status : SignupStatus

-- `check_probe_state` has the columns that recovery reads.
pub record Tables : Type 0 where
  pub probes : List ProbeRow
  pub checks : List CheckRow
  pub check_probe_state : List PersistedCheckState
  pub incidents : List IncidentRow
  pub incident_notifications : List NotificationRow
  pub users : List User
  pub sessions : List Session
  pub signup_requests : List SignupRequest
  pub next_id : ℕ

abbrev pub same_event : NotificationEvent → NotificationEvent → Bool
same_event NotificationEvent.down NotificationEvent.down = true
same_event NotificationEvent.up NotificationEvent.up = true
same_event _ _ = false

abbrev pub same_notification_state : NotificationState → NotificationState → Bool
same_notification_state NotificationState.pending NotificationState.pending = true
same_notification_state NotificationState.processing NotificationState.processing = true
same_notification_state NotificationState.retrying NotificationState.retrying = true
same_notification_state NotificationState.delivered NotificationState.delivered = true
same_notification_state NotificationState.superseded NotificationState.superseded = true
same_notification_state _ _ = false
