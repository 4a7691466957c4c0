-- ===== src/Store/Notifications/Statements.antt =====
-- The statements that open and resolve incidents (internal/store/incident_notifications.go), and the
-- webhook that a transition owes.
use wacht.Store.Notifications.Consistent.{
  IsConsistent, IsSettled, IsTimed, is_resolved, incident_key, notification_key,
}
use wacht.Store.Connection.Rules.{unless-Ensures, Ensures, exec-Ensures}
use wacht.Shared.{
  refl, [], ◌∷◌, none, some, ◌≡◌, Option, List, arith, true, false, ◌||◌, ◌==◌, ℕ, ◌<◌, ◌+◌, inl,
  inr, ◌++◌, Bool-cases,
}
use wacht.Shared.Rows.{any}
use wacht.Shared.Keyed.{Below, has, All-append, Unique-append, Below-later}
use wacht.Shared.Time.{Time}
use wacht.Store.Writes.{NotificationRequest}
use wacht.Store.Tables.{
  Tables, IncidentRow, NotificationRow, NotificationEvent, NotificationState, same_event,
}
use wacht.Store.Connection.{exec}
use wacht.Store.Notifications.{is_for, insert_notification, insert_incident_notification}

pub has-Below :
    (k : ℕ) (is : List IncidentRow)
    → Below incident_key k is
    → has incident_key is_resolved k is ≡ false
has-Below k [] b = refl
has-Below k (i ∷ is) b = ground (arith, has-Below k is b.1, b.0)

-- The incident may get a row for the event: one for its beginning only while it is not resolved.
abbrev pub Accepts : ℕ → NotificationEvent → Tables → Type 0
Accepts k event t =
    same_event event NotificationEvent.down ≡ true
    → has incident_key is_resolved k t.incidents ≡ false

abbrev fresh_row : ℕ → NotificationEvent → NotificationRequest → Time → ℕ → NotificationRow
fresh_row incident_id event request now id = record {
  id = id;
  incident_id = incident_id;
  event = event;
  state = NotificationState.pending;
  webhook_url = request.webhook_url;
  payload = request.payload;
  attempts = 0;
  last_error = none;
  last_attempt_at = none;
  next_attempt_at = some now;
  delivered_at = none;
}

add_row-IsConsistent :
    (k : ℕ) (event : NotificationEvent) (request : NotificationRequest) (now : Time) (t : Tables)
    → Accepts k event t
    → IsConsistent t
    → IsConsistent (record t {
      incident_notifications =
          t.incident_notifications ++ (fresh_row k event request now t.next_id ∷ []);
      next_id = t.next_id + 1;
    })
add_row-IsConsistent k event request now t a h = record {
  one_open = h.one_open;
  incident_ids = h.incident_ids;
  incidents_below =
      Below-later incident_key t.next_id (t.next_id + 1) t.incidents (omega arith)
        h.incidents_below;
  notification_ids =
      Unique-append notification_key t.incident_notifications
        (fresh_row k event request now t.next_id) h.notifications_below h.notification_ids;
  notifications_below =
      All-append (λ (n : NotificationRow). n.id < t.next_id + 1) t.incident_notifications
        (fresh_row k event request now t.next_id)
        (Below-later notification_key t.next_id (t.next_id + 1) t.incident_notifications
          (omega arith) h.notifications_below)
        (omega arith);
  settled =
      All-append (λ (n : NotificationRow). IsSettled t.incidents n) t.incident_notifications
        (fresh_row k event request now t.next_id) h.settled
        (λ down resolved. absurd (ground (arith, a down)));
  timed =
      All-append (λ (n : NotificationRow). IsTimed n) t.incident_notifications
        (fresh_row k event request now t.next_id) h.timed refl;
}

insert_notification-IsConsistent :
    (k : ℕ) (event : NotificationEvent) (request : NotificationRequest) (now : Time) (t : Tables)
    → IsConsistent t
    → Accepts k event t
    → IsConsistent (insert_notification k event request now t).0
unfolding insert_notification
insert_notification-IsConsistent k event request now t h a =
    elim (Bool-cases (any (is_for k event) t.incident_notifications)) [
      | inl there ↦ rw there h
      | inr new ↦ rw new (add_row-IsConsistent k event request now t a h)
    ]

pub insert_incident_notification-Ensures :
    (k : ℕ) (event : NotificationEvent) (request : Option NotificationRequest) (now : Time)
    → Ensures
        (λ (t : Tables). IsConsistent t × Accepts k event t)
        (insert_incident_notification k event request now)
        (λ _. IsConsistent)
unfolding insert_incident_notification
insert_incident_notification-Ensures k event none now c a h e = h.0
insert_incident_notification-Ensures k event (some request) now c a h e =
    unless-Ensures (λ (t : Tables). IsConsistent t × Accepts k event t) (λ _. IsConsistent)
      (request.webhook_url == "" || request.payload == "")
      (exec (insert_notification k event request now)) (λ t both. both.0)
      (exec-Ensures (λ (t : Tables). IsConsistent t × Accepts k event t) (λ _. IsConsistent)
        (insert_notification k event request now)
        (λ t u both f. insert_notification-IsConsistent k event request now t both.0 both.1))
      c a h e
