-- ===== src/Store/Notifications.antt =====
-- internal/store/incident_notifications.go: incidents and the webhooks that they owe. Each SQL statement
-- is a function on the tables.
pub mod Consistent
pub mod Statements
pub mod Opening
pub mod Resolving
pub mod Work
pub mod Deleting
pub mod Persisting
pub mod Lifecycle
pub mod Live
use wacht.Shared.{
  ℕ, ◌+◌, String, Bool, true, false, not, ◌&&◌, ◌||◌, Option, none, some, List, [], ◌∷◌, ◌++◌, map,
  take, ◌==◌, nat_eq, ltb, leb, if◌then◌else◌, is_some,
}
use wacht.Shared.Rows.{any, find, select, member}
use wacht.Shared.Bytes.{byte_length, cut_bytes}
use wacht.Shared.Time.{Time}
use wacht.Shared.Action.{Result, ok, err, Action, ◌>>=◌, ◌>>◌, pure}
use wacht.Monitoring.Types.{Error}
use wacht.Store.Writes.{NotificationRequest}
use wacht.Store.Tables.{
  Tables, CheckRow, IncidentRow, NotificationRow, NotificationEvent, NotificationState, same_event,
  same_notification_state,
}
use wacht.Store.Connection.{Connection, exec}

-- INSERT INTO incident_notifications ... ON CONFLICT (incident_id, event) DO NOTHING
abbrev pub is_for : ℕ → NotificationEvent → NotificationRow → Bool
is_for incident_id event n = nat_eq n.incident_id incident_id && same_event n.event event

unfoldable pub insert_notification :
    ℕ → NotificationEvent → NotificationRequest → Time → Action Tables Error (Unit {0})
insert_notification incident_id event request now t =
    if any (is_for incident_id event) t.incident_notifications then (t, ok tt) else (
      record t {
        incident_notifications =
            t.incident_notifications
            ++ (record {
              id = t.next_id;
              incident_id = incident_id;
              event = event;
              state = NotificationState.pending;
              webhook_url = request.webhook_url;
              payload = request.payload;
              attempts = 0;
              last_error = none;
              last_attempt_at = none;
              next_attempt_at = some now;
              delivered_at = none;
            }
                ∷ []);
        next_id = t.next_id + 1;
      },
      ok tt,
    )

unfoldable pub insert_incident_notification :
    ℕ → NotificationEvent → Option NotificationRequest → Time → Action Connection Error (Unit {0})
unfolding insert_notification
insert_incident_notification incident_id event none now c = (c, ok tt)
insert_incident_notification incident_id event (some request) now c =
    if request.webhook_url == "" || request.payload == ""
    then (c, ok tt)
    else exec (insert_notification incident_id event request now) c

abbrev pub is_open : String → IncidentRow → Bool
is_open check_id i = i.check_id == check_id && not (is_some i.resolved_at)

abbrev pub is_active : String → CheckRow → Bool
is_active check_id c = c.id == check_id && not (is_some c.deleted_at)

-- INSERT INTO incidents ... SELECT ... ON CONFLICT DO NOTHING RETURNING id
abbrev pub insert_incident_of :
    Option CheckRow → Bool → Time → Tables → Tables × Result Error (Option ℕ)
insert_incident_of none taken now t = (t, ok none)
insert_incident_of (some c) true now t = (t, ok none)
insert_incident_of (some c) false now t = (
  record t {
    incidents =
        t.incidents
        ++ (record {
          id = t.next_id;
          check_id = c.id;
          user_id = c.user_id;
          started_at = now;
          resolved_at = none;
        }
            ∷ []);
    next_id = t.next_id + 1;
  },
  ok (some t.next_id),
)

unfoldable pub insert_incident : String → Time → Action Tables Error (Option ℕ)
insert_incident check_id now t =
    insert_incident_of (find (is_active check_id) t.checks) (any (is_open check_id) t.incidents) now
      t

-- The result says whether the incident was open already.
abbrev pub notify_down : Option NotificationRequest → Time → Option ℕ → Action Connection Error Bool
notify_down request now none = pure true
notify_down request now (some incident_id) =
    insert_incident_notification incident_id NotificationEvent.down request now >> pure false

unfoldable pub open_incident_with_notification :
    String → Option NotificationRequest → Time → Action Connection Error Bool
unfolding insert_incident insert_incident_notification
open_incident_with_notification check_id request now = do
  opened ← exec (insert_incident check_id now)
  notify_down request now opened

abbrev pub resolve_row : String → Time → IncidentRow → IncidentRow
resolve_row check_id now i = if is_open check_id i then record i { resolved_at = some now } else i

abbrev pub id_of : Option IncidentRow → Option ℕ
id_of none = none
id_of (some i) = some i.id

-- UPDATE incidents SET resolved_at ... RETURNING id
unfoldable pub resolve_incident : String → Time → Action Tables Error (Option ℕ)
resolve_incident check_id now t = (
  record t { incidents = map (resolve_row check_id now) t.incidents },
  ok (id_of (find (is_open check_id) t.incidents)),
)

abbrev pub supersede : NotificationRow → NotificationRow
supersede n = record n { state = NotificationState.superseded; next_attempt_at = none }

abbrev pub supersede_down_row : ℕ → NotificationRow → NotificationRow
supersede_down_row incident_id n =
    if is_for incident_id NotificationEvent.down n
      && not (same_notification_state n.state NotificationState.delivered)
    then supersede n
    else n

unfoldable pub supersede_down : ℕ → Action Tables Error (Unit {0})
supersede_down incident_id t = (
  record t {
    incident_notifications = map (supersede_down_row incident_id) t.incident_notifications;
  },
  ok tt,
)

-- The result says whether an incident was open.
abbrev pub notify_up : Option NotificationRequest → Time → Option ℕ → Action Connection Error Bool
notify_up request now none = pure false
notify_up request now (some incident_id) = do
  exec (supersede_down incident_id)
  insert_incident_notification incident_id NotificationEvent.up request now
  pure true

unfoldable pub resolve_incident_with_notification :
    String → Option NotificationRequest → Time → Action Connection Error Bool
unfolding resolve_incident supersede_down insert_incident_notification
resolve_incident_with_notification check_id request now = do
  resolved ← exec (resolve_incident check_id now)
  notify_up request now resolved
