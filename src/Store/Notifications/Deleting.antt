-- ===== src/Store/Notifications/Deleting.antt =====
-- DeleteCheck (internal/store/store.go) and the incidents and webhooks of the check.
use wacht.Shared.{
  [], ◌∷◌, none, some, ◌≡◌, String, Option, List, arith, true, false, ◌&&◌, ◌||◌, ◌==◌, ℕ, map, All,
  nat_eq, sym, ◌∙◌,
}
use wacht.Shared.Rows.{any}
use wacht.Shared.Keyed.{has, Unique-map, Below-map, All-implies_both}
use wacht.Shared.Time.{Time}
use wacht.Store.Writes.{PersistedCheckState}
use wacht.Store.Tables.{Tables, CheckRow, ProbeRow, IncidentRow, NotificationRow}
use wacht.Store.Connection.{Connection, exec}
use wacht.Store.Connection.Rules.{
  Ensures, exec-Ensures, bind-Ensures, pure-Ensures, transaction-Keeps,
}
use wacht.Store.Notifications.{resolve_row}
use wacht.Store.Notifications.Consistent.{
  IsConsistent, IsSettled, is_resolved, is_final, incident_key, OneOpen-resolve,
}
use wacht.Store.Notifications.Work.{update_rows-IsConsistent}
use wacht.Store.CheckRows.{
  is_about, supersede_row, supersede_all, resolve_all, delete_states, mark_deleted, delete_found,
  delete_check,
}

-- The other tables do not matter.
pub others-IsConsistent :
    (probes : List ProbeRow) (checks : List CheckRow) (states : List PersistedCheckState)
    (t : Tables)
    → IsConsistent t
    → IsConsistent (record t { probes = probes; checks = checks; check_probe_state = states })
others-IsConsistent probes checks states t h = record {
  one_open = h.one_open;
  incident_ids = h.incident_ids;
  incidents_below = h.incidents_below;
  notification_ids = h.notification_ids;
  notifications_below = h.notifications_below;
  settled = h.settled;
  timed = h.timed;
}

-- No webhook is owed for an incident of the check.
abbrev Superseded : String → Tables → Type 0
Superseded check_id t =
    IsConsistent t
    × All
        (λ (n : NotificationRow). is_about check_id t.incidents n ≡ true → is_final n.state ≡ true)
        t.incident_notifications

about-supersede_row :
    (check_id : String) (is : List IncidentRow) (n : NotificationRow)
    → is_about check_id is (supersede_row check_id is n) ≡ is_about check_id is n
about-supersede_row check_id is n = ground arith

supersede_row-final :
    (check_id : String) (is : List IncidentRow) (n : NotificationRow)
    → is_about check_id is n ≡ true
    → is_final (supersede_row check_id is n).state ≡ true
supersede_row-final check_id is n h = ground arith

all_superseded :
    (check_id : String) (is : List IncidentRow) (ns : List NotificationRow)
    → All
        (λ (n : NotificationRow). is_about check_id is n ≡ true → is_final n.state ≡ true)
        (map (supersede_row check_id is) ns)
all_superseded check_id is [] = tt
all_superseded check_id is (n ∷ ns) = (
  λ h. supersede_row-final check_id is n (sym (about-supersede_row check_id is n) ∙ h),
  all_superseded check_id is ns,
)

supersede_all-Superseded :
    (check_id : String) (t : Tables)
    → IsConsistent t
    → Superseded check_id (supersede_all check_id t).0
unfolding supersede_all
supersede_all-Superseded check_id t h = (
  update_rows-IsConsistent (supersede_row check_id t.incidents) t (λ n. ground arith)
      (λ n s. ground (arith, s)) (λ n s. ground (arith, s)) h,
  all_superseded check_id t.incidents t.incident_notifications,
)

has-resolve_all :
    (check_id : String) (now : Time) (k : ℕ) (is : List IncidentRow)
    → has incident_key is_resolved k (map (resolve_row check_id now) is) ≡ true
    → (has incident_key is_resolved k is
        || any (λ (i : IncidentRow). nat_eq i.id k && i.check_id == check_id) is)
      ≡ true
has-resolve_all check_id now k [] h = absurd cc
has-resolve_all check_id now k (i ∷ is) h = ground (arith, has-resolve_all check_id now k is)

resolve_all-IsConsistent :
    (check_id : String) (now : Time) (t : Tables)
    → Superseded check_id t
    → IsConsistent (resolve_all check_id now t).0
unfolding resolve_all
resolve_all-IsConsistent check_id now t (h, over) = record {
  one_open = OneOpen-resolve check_id now t.incidents h.one_open;
  incident_ids =
      Unique-map incident_key (resolve_row check_id now) t.incidents (λ i. ground arith)
        h.incident_ids;
  incidents_below =
      Below-map incident_key (resolve_row check_id now) t.next_id t.incidents (λ i. ground arith)
        h.incidents_below;
  notification_ids = h.notification_ids;
  notifications_below = h.notifications_below;
  settled =
      All-implies_both (λ (n : NotificationRow). IsSettled t.incidents n)
        (λ (n : NotificationRow). is_about check_id t.incidents n ≡ true → is_final n.state ≡ true)
        (λ (n : NotificationRow). IsSettled (map (resolve_row check_id now) t.incidents) n)
        t.incident_notifications
        (λ n s a d r.
          ground (arith, has-resolve_all check_id now n.incident_id t.incidents r, s, a))
        h.settled over;
  timed = h.timed;
}

delete_states-Ensures :
    (check_id : String) → Ensures IsConsistent (exec (delete_states check_id)) (λ _. IsConsistent)
unfolding delete_states
delete_states-Ensures check_id =
    exec-Ensures IsConsistent (λ _. IsConsistent) (delete_states check_id)
      (λ t a h e.
        others-IsConsistent t.probes t.checks (delete_states check_id t).0.check_probe_state t h)

mark_deleted-Ensures :
    (check_id : String) (now : Time)
    → Ensures IsConsistent (exec (mark_deleted check_id now)) (λ _. IsConsistent)
unfolding mark_deleted
mark_deleted-Ensures check_id now =
    exec-Ensures IsConsistent (λ _. IsConsistent) (mark_deleted check_id now)
      (λ t a h e.
        others-IsConsistent t.probes (mark_deleted check_id now t).0.checks t.check_probe_state t h)

delete_found-Ensures :
    (now : Time) (found : Option CheckRow)
    → Ensures IsConsistent (delete_found now found) (λ _. IsConsistent)
delete_found-Ensures now none = pure-Ensures IsConsistent (false, "")
delete_found-Ensures now (some c) =
    bind-Ensures IsConsistent (λ _. Superseded c.id) (λ _. IsConsistent) (exec (supersede_all c.id))
      _
      (exec-Ensures IsConsistent (λ _. Superseded c.id) (supersede_all c.id)
        (λ t a h e. supersede_all-Superseded c.id t h))
      (λ _.
        bind-Ensures (Superseded c.id) (λ _. IsConsistent) (λ _. IsConsistent)
          (exec (resolve_all c.id now)) _
          (exec-Ensures (Superseded c.id) (λ _. IsConsistent) (resolve_all c.id now)
            (λ t a h e. resolve_all-IsConsistent c.id now t h))
          (λ _.
            bind-Ensures IsConsistent (λ _. IsConsistent) (λ _. IsConsistent)
              (exec (delete_states c.id)) _ (delete_states-Ensures c.id)
              (λ _.
                bind-Ensures IsConsistent (λ _. IsConsistent) (λ _. IsConsistent)
                  (exec (mark_deleted c.id now)) _ (mark_deleted-Ensures c.id now)
                  (λ _. pure-Ensures IsConsistent (true, c.id)))))

pub delete_check-IsConsistent :
    (name : String) (user_id : ℕ) (now : Time) (c : Connection)
    → IsConsistent c.tables
    → IsConsistent (delete_check name user_id now c).0.tables
unfolding delete_check
delete_check-IsConsistent name user_id now c h =
    transaction-Keeps IsConsistent _
      (bind-Ensures IsConsistent (λ _. IsConsistent) (λ _. IsConsistent) _ (delete_found now)
        (exec-Ensures IsConsistent (λ _. IsConsistent) _ (λ t a h e. h)) (delete_found-Ensures now))
      c h
