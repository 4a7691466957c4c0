-- ===== src/Store/Notifications/Opening.antt =====
-- Incidents that open (internal/store/incident_notifications.go).
use wacht.Store.Notifications.Statements.{insert_incident_notification-Ensures, has-Below}
use wacht.Store.Tables.{NotificationEvent, NotificationRow, IncidentRow, CheckRow, Tables}
use wacht.Store.Notifications.{
  NotificationEvent, insert_incident_notification, NotificationRow, notify_down, exec,
  insert_incident_of, is_active, is_open, IncidentRow, open_incident_with_notification,
  insert_incident,
}
use wacht.Store.Notifications.Consistent.{
  IsSettled, has-append_other, notification_key, OneOpen-append, is_resolved, incident_key,
  IsConsistent,
}
use wacht.Store.Connection.Rules.{pure-Ensures, exec-Ensures, bind-Ensures, Ensures}
use wacht.Store.Connection.{exec}
use wacht.Store.Writes.{NotificationRequest}
use wacht.Shared.{
  refl, [], ◌∷◌, none, some, ◌≡◌, String, Option, List, arith, Bool, true, false, ℕ, ◌<◌, ◌+◌,
  eq_iff, ◌++◌, sym, ◌∙◌,
}
use mathlib.Core.Path.{subst}
use wacht.Shared.Rows.{any, find}
use wacht.Shared.Keyed.{has, All-append, All-implies, Unique-append, Below-later}
use wacht.Shared.Time.{Time}
use wacht.Shared.Action.{ok, pure}

-- After the INSERT INTO incidents.
abbrev Opened : Option ℕ → Tables → Type 0
Opened none t = IsConsistent t
Opened (some k) t = IsConsistent t × (has incident_key is_resolved k t.incidents ≡ false)

abbrev new_incident : CheckRow → Time → ℕ → IncidentRow
new_incident check now id = record {
  id = id;
  check_id = check.id;
  user_id = check.user_id;
  started_at = now;
  resolved_at = none;
}

add_incident-IsConsistent :
    (check : CheckRow) (now : Time) (t : Tables)
    → any (is_open check.id) t.incidents ≡ false
    → IsConsistent t
    → IsConsistent (record t {
      incidents = t.incidents ++ (new_incident check now t.next_id ∷ []);
      next_id = t.next_id + 1;
    })
add_incident-IsConsistent check now t f h = record {
  one_open = OneOpen-append t.incidents (new_incident check now t.next_id) f h.one_open;
  incident_ids =
      Unique-append incident_key t.incidents (new_incident check now t.next_id) h.incidents_below
        h.incident_ids;
  incidents_below =
      All-append (λ (i : IncidentRow). i.id < t.next_id + 1) t.incidents
        (new_incident check now t.next_id)
        (Below-later incident_key t.next_id (t.next_id + 1) t.incidents (omega arith)
          h.incidents_below)
        (omega arith);
  notification_ids = h.notification_ids;
  notifications_below =
      Below-later notification_key t.next_id (t.next_id + 1) t.incident_notifications (omega arith)
        h.notifications_below;
  settled =
      All-implies (λ (n : NotificationRow). IsSettled t.incidents n)
        (λ (n : NotificationRow).
          IsSettled (t.incidents ++ (new_incident check now t.next_id ∷ [])) n)
        t.incident_notifications
        (λ n s down resolved. s down (
          sym (has-append_other n.incident_id t.incidents (new_incident check now t.next_id) refl)
          ∙ resolved))
        h.settled;
  timed = h.timed;
}

insert_incident_of-Opened :
    (found : Option CheckRow) (taken : Bool) (now : Time) (t : Tables) (a : Option ℕ)
    → ((check : CheckRow)
        → found ≡ some check
        → taken ≡ false
        → any (is_open check.id) t.incidents ≡ false)
    → IsConsistent t
    → (insert_incident_of found taken now t).1 ≡ ok a
    → Opened a (insert_incident_of found taken now t).0
insert_incident_of-Opened none taken now t none f h e = h
insert_incident_of-Opened none taken now t (some a) f h e = absurd cc
insert_incident_of-Opened (some check) true now t none f h e = h
insert_incident_of-Opened (some check) true now t (some a) f h e = absurd cc
insert_incident_of-Opened (some check) false now t none f h e = absurd cc
insert_incident_of-Opened (some check) false now t (some a) f h e =
    let drawn : t.next_id ≡ a = ground arith in
    subst (λ (k : ℕ). Opened (some k) (insert_incident_of (some check) false now t).0) drawn
      (
        add_incident-IsConsistent check now t (f check refl refl) h,
        has-append_other t.next_id t.incidents (new_incident check now t.next_id) refl
            ∙ has-Below t.next_id t.incidents h.incidents_below,
      )

find-active :
    (check_id : String) (checks : List CheckRow) (check : CheckRow)
    → find (is_active check_id) checks ≡ some check
    → check.id ≡ check_id
find-active check_id [] check h = absurd cc
find-active check_id (c ∷ cs) check h =
    ground (arith, find-active check_id cs check, eq_iff c.id check_id)

insert_incident-Ensures :
    (check_id : String) (now : Time)
    → Ensures IsConsistent (exec (insert_incident check_id now)) Opened
unfolding insert_incident
insert_incident-Ensures check_id now =
    exec-Ensures IsConsistent Opened (insert_incident check_id now) (λ t a h e.
      insert_incident_of-Opened (find (is_active check_id) t.checks)
        (any (is_open check_id) t.incidents) now t a
        (λ check found free.
          subst (λ (id : String). any (is_open id) t.incidents ≡ false)
            (sym (find-active check_id t.checks check found)) free)
        h e)

notify_down-Ensures :
    (request : Option NotificationRequest) (now : Time) (opened : Option ℕ)
    → Ensures (Opened opened) (notify_down request now opened) (λ _. IsConsistent)
notify_down-Ensures request now none = pure-Ensures IsConsistent true
notify_down-Ensures request now (some k) =
    bind-Ensures (Opened (some k)) (λ _. IsConsistent) (λ _. IsConsistent)
      (insert_incident_notification k NotificationEvent.down request now) (λ _. pure false)
      (λ c a h e.
        insert_incident_notification-Ensures k NotificationEvent.down request now c a
          (h.0, λ d. h.1) e)
      (λ a. pure-Ensures IsConsistent false)

pub open_incident-Ensures :
    (check_id : String) (request : Option NotificationRequest) (now : Time)
    → Ensures IsConsistent
        (open_incident_with_notification check_id request now)
        (λ _. IsConsistent)
unfolding open_incident_with_notification
open_incident-Ensures check_id request now =
    bind-Ensures IsConsistent Opened (λ _. IsConsistent) (exec (insert_incident check_id now))
      (notify_down request now) (insert_incident-Ensures check_id now)
      (notify_down-Ensures request now)
