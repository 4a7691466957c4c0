-- ===== src/Store/CheckRows.antt =====
-- internal/store/store.go: the checks of the users and the checks that the probes run.
use wacht.Shared.{
  ℕ, ◌^◌, String, Bool, true, false, not, ◌&&◌, ◌||◌, Option, none, some, List, [], ◌∷◌, ◌++◌, map,
  ◌==◌, nat_eq, ltb, if◌then◌else◌, is_some,
}
use wacht.Shared.Int.{ℤ}
use wacht.Shared.Rows.{any, find, select, sort_by}
use wacht.Shared.Text.{le_text}
use wacht.Shared.Time.{Time}
use wacht.Shared.Action.{Result, ok, err, Action, ◌>>=◌, ◌>>◌, pure}
use wacht.Checks.{Check}
use wacht.Monitoring.Types.{Error}
use wacht.Store.Writes.{PersistedCheckState}
use wacht.Store.Tables.{
  Tables, CheckRow, IncidentRow, NotificationRow, NotificationState, same_notification_state,
}
use wacht.Store.Connection.{Connection, exec, transaction}
use wacht.Store.CheckId.{normalize_check_id}
use wacht.Store.Notifications.{is_active, supersede, resolve_row}

-- A 32-bit INTEGER column.
abbrev fits_integer : ℤ → Bool
fits_integer (ℤ.pos n) = ltb n (2 ^ 31)
fits_integer (ℤ.negsuc n) = ltb n (2 ^ 31)

unfoldable pub scan_check : CheckRow → Check
scan_check c = record {
  id = c.id;
  name = c.name;
  check_type = c.check_type;
  target = c.target;
  webhook = c.webhook;
  interval = c.interval_seconds;
}

abbrev pub owned_by : ℕ → Option ℕ → Bool
owned_by user_id none = false
owned_by user_id (some owner) = nat_eq owner user_id

abbrev pub is_deleted : CheckRow → Bool
is_deleted c = is_some c.deleted_at

-- ORDER BY name, id
abbrev by_name : CheckRow → CheckRow → Bool
by_name c d = if c.name == d.name then le_text c.id d.id else le_text c.name d.name

unfoldable pub list_checks : ℕ → Action Connection Error (List Check)
unfolding scan_check
list_checks user_id = exec (λ (t : Tables). (
  t,
  ok (
      map scan_check (
        sort_by by_name
          (select (λ (c : CheckRow). owned_by user_id c.user_id && not (is_deleted c)) t.checks))),
))

unfoldable pub list_all_checks : Action Connection Error (List Check)
unfolding scan_check
list_all_checks = exec (λ (t : Tables). (
  t,
  ok (map scan_check (sort_by by_name (select (λ (c : CheckRow). not (is_deleted c)) t.checks))),
))

abbrev pub scanned : Option CheckRow → Option Check
scanned none = none
scanned (some c) = some (scan_check c)

-- name = $1 AND user_id = $2 AND deleted_at IS NULL
abbrev pub is_named : String → ℕ → CheckRow → Bool
is_named name user_id c = c.name == name && owned_by user_id c.user_id && not (is_deleted c)

unfoldable pub get_check_by_name : String → ℕ → Action Connection Error (Option Check)
unfolding scan_check
get_check_by_name name user_id =
    exec (λ (t : Tables). (t, ok (scanned (find (is_named name user_id) t.checks))))

abbrev pub query_by_id : Result Error String → Action Connection Error (Option Check)
query_by_id (err e) c = (c, err e)
query_by_id (ok id) c = exec (λ (t : Tables). (t, ok (scanned (find (is_active id) t.checks)))) c

unfoldable pub get_check_by_id :
    (String → Option String) → String → Action Connection Error (Option Check)
unfolding scan_check normalize_check_id
get_check_by_id canonical id = query_by_id (normalize_check_id canonical id)

-- The index idx_checks_active_scope_name, where NULL and 0 are one owner.
abbrev scope : Option ℕ → ℕ
scope none = 0
scope (some user_id) = user_id

abbrev pub name_is_taken : Option ℕ → String → List CheckRow → Bool
name_is_taken owner name = any (λ (c : CheckRow).
    nat_eq (scope c.user_id) (scope owner) && c.name == name && not (is_deleted c))

abbrev pub new_row : String → Check → Option ℕ → CheckRow
new_row id c owner = record {
  id = id;
  name = c.name;
  check_type = c.check_type;
  target = c.target;
  webhook = c.webhook;
  user_id = owner;
  interval_seconds = c.interval;
  deleted_at = none;
}

abbrev pub add_check : CheckRow → Tables → Tables
add_check c t = record t { checks = t.checks ++ (c ∷ []) }

-- `id` is the value of gen_random_uuid().
unfoldable pub insert_check : String → Check → Option ℕ → Action Tables Error (Unit {0})
insert_check id c owner t =
    if not (fits_integer c.interval)
    then (t, err (Error.external "integer out of range"))
    else if name_is_taken owner c.name t.checks || any (λ (d : CheckRow). d.id == id) t.checks
    then (t, err (Error.external "duplicate key value violates unique constraint"))
    else (add_check (new_row id c owner) t, ok tt)

unfoldable pub create_check : String → Check → ℕ → Action Connection Error Check
unfolding insert_check
create_check id c user_id = do exec (insert_check id c (some user_id)); pure (record c { id = id })

-- ON CONFLICT DO NOTHING
unfoldable pub seed_check : String → Check → Option ℕ → Action Tables Error (Unit {0})
seed_check id c owner t =
    if not (fits_integer c.interval)
    then (t, err (Error.external "integer out of range"))
    else if name_is_taken owner c.name t.checks || any (λ (d : CheckRow). d.id == id) t.checks
    then (t, ok tt)
    else (add_check (new_row id c owner) t, ok tt)

-- Each check comes with the ID that the database draws for it.
unfoldable pub seed_checks : List (String × Check) → ℕ → Action Connection Error (Unit {0})
unfolding seed_check
seed_checks [] user_id = pure tt
seed_checks ((id, c) ∷ cs) user_id =
    exec (seed_check id c (if nat_eq user_id 0 then none else some user_id))
    >> seed_checks cs user_id

abbrev pub update_row : Check → ℕ → CheckRow → CheckRow
update_row new user_id c =
    if is_named new.name user_id c
    then record c {
      check_type = new.check_type;
      target = new.target;
      webhook = new.webhook;
      interval_seconds = new.interval;
    }
    else c

unfoldable pub update_check : Check → ℕ → Action Connection Error (Unit {0})
update_check new user_id = exec (λ (t : Tables).
    if fits_integer new.interval
    then (record t { checks = map (update_row new user_id) t.checks }, ok tt)
    else (t, err (Error.external "integer out of range")))

-- i.id = n.incident_id AND i.check_id = $3
abbrev pub is_about : String → List IncidentRow → NotificationRow → Bool
is_about check_id incidents n =
    any (λ (i : IncidentRow). nat_eq i.id n.incident_id && i.check_id == check_id) incidents

abbrev pub supersede_row : String → List IncidentRow → NotificationRow → NotificationRow
supersede_row check_id incidents n =
    if is_about check_id incidents n
      && not (same_notification_state n.state NotificationState.superseded)
      && not (same_notification_state n.state NotificationState.delivered)
    then supersede n
    else n

-- The four statements after the one that finds the check.
unfoldable pub supersede_all : String → Action Tables Error (Unit {0})
supersede_all check_id t = (
  record t {
    incident_notifications = map (supersede_row check_id t.incidents) t.incident_notifications;
  },
  ok tt,
)

unfoldable pub resolve_all : String → Time → Action Tables Error (Unit {0})
resolve_all check_id now t =
    (record t { incidents = map (resolve_row check_id now) t.incidents }, ok tt)

unfoldable pub delete_states : String → Action Tables Error (Unit {0})
delete_states check_id t = (
  record t {
    check_probe_state =
        select (λ (s : PersistedCheckState). not (s.check_id == check_id)) t.check_probe_state;
  },
  ok tt,
)

abbrev pub delete_row : String → Time → CheckRow → CheckRow
delete_row check_id now c = if c.id == check_id then record c { deleted_at = some now } else c

unfoldable pub mark_deleted : String → Time → Action Tables Error (Unit {0})
mark_deleted check_id now t = (record t { checks = map (delete_row check_id now) t.checks }, ok tt)

abbrev pub delete_found : Time → Option CheckRow → Action Connection Error (Bool × String)
delete_found now none = pure (false, "")
delete_found now (some c) = do
  exec (supersede_all c.id)
  exec (resolve_all c.id now)
  exec (delete_states c.id)
  exec (mark_deleted c.id now)
  pure (true, c.id)

unfoldable pub delete_check : String → ℕ → Time → Action Connection Error (Bool × String)
unfolding supersede_all resolve_all delete_states mark_deleted
delete_check name user_id now = transaction (do
  found ← exec (λ (t : Tables). (t, ok (find (is_named name user_id) t.checks)))
  delete_found now found)
