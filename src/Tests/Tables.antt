-- ===== src/Tests/Tables.antt =====
-- Test data: small tables of the database, and connections to them.
use wacht.Shared.{arith, refl, String, false, Option, none, some, [], ◌∷◌}
use wacht.Shared.Int.{ℤ}
use wacht.Monitoring.Types.{CheckExecState, CheckState}
use wacht.Store.Tables.{
  Tables, CheckRow, IncidentRow, NotificationRow, NotificationEvent, NotificationState, User,
  SignupRequest, SignupStatus,
}
use wacht.Store.Connection.{Connection}
use wacht.Store.Notifications.Consistent.{IsConsistent}
use wacht.Tests.Data.{full_disk}

abbrev pub canonical : String → Option String
canonical s = some s

abbrev shop_row : CheckRow
shop_row = record {
  id = "shop";
  name = "Shop";
  check_type = "http";
  target = "https://shop.test";
  webhook = "https://hook.test";
  user_id = some 7;
  interval_seconds = ℤ.pos 30;
  deleted_at = none;
}

abbrev outage : IncidentRow
outage = record { id = 1; check_id = "shop"; user_id = some 7; started_at = 40; resolved_at = none }

abbrev pub down_row : NotificationState → NotificationRow
down_row state = record {
  id = 2;
  incident_id = 1;
  event = NotificationEvent.down;
  state = state;
  webhook_url = "https://hook.test";
  payload = "{}";
  attempts = 3;
  last_error = none;
  last_attempt_at = some 45;
  next_attempt_at = some 40;
  delivered_at = none;
}

abbrev owner : User
owner = record {
  id = 7;
  email = "owner@shop.test";
  password_hash = "#old";
  public_status_slug = "shop";
  is_admin = false;
  created_at = 1;
}

abbrev invitation : SignupRequest
invitation = record {
  id = 9;
  user_id = some 7;
  email = "owner@shop.test";
  requested_at = 1;
  approved_at = some 2;
  rejected_at = none;
  completed_at = none;
  setup_token_hash = some "token";
  setup_token_expires_at = some 1000;
  setup_token_used_at = none;
  status = SignupStatus.approved;
}

abbrev pub shop_tables : NotificationState → Tables
shop_tables state = record {
  probes = [];
  checks = shop_row ∷ [];
  check_probe_state = [];
  incidents = outage ∷ [];
  incident_notifications = down_row state ∷ [];
  users = owner ∷ [];
  sessions = [];
  signup_requests = invitation ∷ [];
  next_id = 10;
}

-- A connection whose statements succeed, and one on which the third one fails.
abbrev pub healthy : Connection
healthy = record { tables = shop_tables NotificationState.pending; faults = [] }

abbrev pub broken : Connection
broken = record {
  tables = shop_tables NotificationState.pending;
  faults = none ∷ none ∷ some full_disk ∷ [];
}

pub shop_tables-IsConsistent : IsConsistent (shop_tables NotificationState.pending)
shop_tables-IsConsistent = record {
  one_open = (refl, tt);
  incident_ids = (tt, tt);
  incidents_below = (omega arith, tt);
  notification_ids = (tt, tt);
  notifications_below = (omega arith, tt);
  settled = (λ down resolved. absurd cc, tt);
  timed = (refl, tt);
}

-- A state that is kept for an assignment.
abbrev pub kept_state : CheckExecState
kept_state = record {
  check_id = "shop";
  probe_id = "a";
  last_result_at = 7;
  last_outcome = CheckState.down;
  streak_len = 2;
  expires_at = 90;
  state = CheckState.down;
  last_error = "timeout";
}
