-- ===== src/Store/Notifications/Resolving.antt =====
-- Incidents that are resolved (internal/store/incident_notifications.go).
use wacht.Store.Notifications.{
  resolve_incident, NotificationEvent, insert_incident_notification, resolve_row, notify_up,
  supersede_down_row, exec, id_of, NotificationRow, is_open, resolve_incident_with_notification,
  supersede_down,
}
use wacht.Store.Notifications.Consistent.{
  has-resolve, OneOpen-resolve, any-find, map-resolve_none, IsTimed, IsSettled, notification_key,
  incident_key, IsConsistent, OneOpen,
}
use wacht.Store.Notifications.Statements.{insert_incident_notification-Ensures}
use wacht.Store.Tables.{NotificationEvent, NotificationRow, IncidentRow, Tables}
use wacht.Store.Connection.Rules.{pure-Ensures, exec-Ensures, bind-Ensures, Ensures}
use wacht.Store.Connection.{exec}
use wacht.Store.Writes.{NotificationRequest}
use wacht.Shared.{
  refl, none, some, ◌≡◌, String, Option, arith, true, false, ℕ, map, All, nat_eq, is_some, ap, ◌∙◌,
}
use wacht.Shared.Rows.{find}
use wacht.Shared.Keyed.{Unique, Below, All-map, All-implies, Unique-map, Below-map}
use wacht.Shared.Time.{Time}
use wacht.Shared.Action.{◌>>=◌, pure}

-- After the UPDATE of the open incident, the row for its beginning may still be owed.
record IsResolving (k : ℕ) (t : Tables) : Type 0 where
  one_open : OneOpen t.incidents
  incident_ids : Unique incident_key t.incidents
  incidents_below : Below incident_key t.next_id t.incidents
  notification_ids : Unique notification_key t.incident_notifications
  notifications_below : Below notification_key t.next_id t.incident_notifications
  settled :
      All
        (λ (n : NotificationRow). nat_eq k n.incident_id ≡ false → IsSettled t.incidents n)
        t.incident_notifications
  timed : All (λ (n : NotificationRow). IsTimed n) t.incident_notifications

abbrev Resolved : Option ℕ → Tables → Type 0
Resolved none t = IsConsistent t
Resolved (some k) t = IsResolving k t

resolve-Resolved :
    (check_id : String) (now : Time) (t : Tables) (found : Option IncidentRow) (a : Option ℕ)
    → find (is_open check_id) t.incidents ≡ found
    → IsConsistent t
    → id_of found ≡ a
    → Resolved a (record t { incidents = map (resolve_row check_id now) t.incidents })
resolve-Resolved check_id now t none none f h e =
    rw
      (map-resolve_none check_id now t.incidents
        (any-find (is_open check_id) t.incidents ∙ ap is_some f))
      h
resolve-Resolved check_id now t none (some k) f h e = absurd cc
resolve-Resolved check_id now t (some j) none f h e = absurd cc
resolve-Resolved check_id now t (some j) (some k) f h e = record {
  one_open = OneOpen-resolve check_id now t.incidents h.one_open;
  incident_ids =
      Unique-map incident_key (resolve_row check_id now) t.incidents (λ i. ground arith)
        h.incident_ids;
  incidents_below =
      Below-map incident_key (resolve_row check_id now) t.next_id t.incidents (λ i. ground arith)
        h.incidents_below;
  notification_ids = h.notification_ids;
  notifications_below = h.notifications_below;
  settled =
      All-implies (λ (n : NotificationRow). IsSettled t.incidents n)
        (λ (n : NotificationRow).
          nat_eq k n.incident_id ≡ false → IsSettled (map (resolve_row check_id now) t.incidents) n)
        t.incident_notifications
        (λ n s other down resolved. s down (
          ground
            (arith, has-resolve check_id now n.incident_id t.incidents j h.one_open f resolved)))
        h.settled;
  timed = h.timed;
}

resolve_incident-Ensures :
    (check_id : String) (now : Time)
    → Ensures IsConsistent (exec (resolve_incident check_id now)) Resolved
unfolding resolve_incident
resolve_incident-Ensures check_id now =
    exec-Ensures IsConsistent Resolved (resolve_incident check_id now) (λ t a h e.
      resolve-Resolved check_id now t (find (is_open check_id) t.incidents) a refl h (ground arith))

supersede_down-IsConsistent :
    (k : ℕ) (t : Tables) → IsResolving k t → IsConsistent (supersede_down k t).0
unfolding supersede_down
supersede_down-IsConsistent k t h = record {
  one_open = h.one_open;
  incident_ids = h.incident_ids;
  incidents_below = h.incidents_below;
  notification_ids =
      Unique-map notification_key (supersede_down_row k) t.incident_notifications
        (λ n. ground arith) h.notification_ids;
  notifications_below =
      Below-map notification_key (supersede_down_row k) t.next_id t.incident_notifications
        (λ n. ground arith) h.notifications_below;
  settled =
      All-map (λ (n : NotificationRow). nat_eq k n.incident_id ≡ false → IsSettled t.incidents n)
        (λ (n : NotificationRow). IsSettled t.incidents n) (supersede_down_row k)
        t.incident_notifications (λ n s. ground (arith, s)) h.settled;
  timed =
      All-map (λ (n : NotificationRow). IsTimed n) (λ (n : NotificationRow). IsTimed n)
        (supersede_down_row k) t.incident_notifications (λ n s. ground (arith, s)) h.timed;
}

notify_up-Ensures :
    (request : Option NotificationRequest) (now : Time) (resolved : Option ℕ)
    → Ensures (Resolved resolved) (notify_up request now resolved) (λ _. IsConsistent)
notify_up-Ensures request now none = pure-Ensures IsConsistent false
notify_up-Ensures request now (some k) =
    bind-Ensures (Resolved (some k)) (λ _. IsConsistent) (λ _. IsConsistent)
      (exec (supersede_down k))
      (λ _. insert_incident_notification k NotificationEvent.up request now >>= λ _. pure true)
      (exec-Ensures (IsResolving k) (λ _. IsConsistent) (supersede_down k)
        (λ t a h e. supersede_down-IsConsistent k t h))
      (λ a.
        bind-Ensures IsConsistent (λ _. IsConsistent) (λ _. IsConsistent)
          (insert_incident_notification k NotificationEvent.up request now) (λ _. pure true)
          (λ c u h e.
            insert_incident_notification-Ensures k NotificationEvent.up request now c u
              (h, λ d. absurd cc) e)
          (λ u. pure-Ensures IsConsistent true))

pub resolve_incident_with-Ensures :
    (check_id : String) (request : Option NotificationRequest) (now : Time)
    → Ensures IsConsistent
        (resolve_incident_with_notification check_id request now)
        (λ _. IsConsistent)
unfolding resolve_incident_with_notification
resolve_incident_with-Ensures check_id request now =
    bind-Ensures IsConsistent Resolved (λ _. IsConsistent) (exec (resolve_incident check_id now))
      (notify_up request now) (resolve_incident-Ensures check_id now)
      (notify_up-Ensures request now)
