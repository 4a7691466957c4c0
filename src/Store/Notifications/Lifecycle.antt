-- ===== src/Store/Notifications/Lifecycle.antt =====
-- The tables of incidents and webhooks under every call that changes them (internal/store and its
-- callers), in any order.
use wacht.Store.CheckRows.{
  new_row, add_check, name_is_taken, create_check, insert_check, delete_check,
}
use wacht.Shared.{
  ◌==◌, ◌||◌, sym, refl, none, some, ◌≡◌, String, Option, List, ℕ, if◌then◌else◌, nat_eq,
}
use mathlib.Core.Path.{sym, subst}
use wacht.Shared.Action.{pure, continue, Result, ok, err}
use wacht.Store.Notifications.Persisting.{
  either-IsConsistent, persist_monitoring_batch-IsConsistent,
}
use wacht.Shared.Rows.{any}
use wacht.Shared.Time.{Time}
use wacht.Checks.{Check}
use wacht.Monitoring.Types.{Error}
use wacht.Store.Writes.{MonitoringWrite}
use wacht.Store.Tables.{Tables, CheckRow}
use wacht.Store.Connection.{Connection, exec}
use wacht.Store.Connection.Rules.{exec-Keeps}
use wacht.Store.Deliveries.{
  claim_due_incident_notifications, mark_incident_notification_delivered,
  mark_incident_notification_retry, retry_rows, truncate_error,
}
use wacht.Store.Notifications.Consistent.{IsConsistent}
use wacht.Store.Notifications.Work.{claim-IsConsistent, deliver-IsConsistent, retry-IsConsistent}
use wacht.Store.Notifications.Deleting.{delete_check-IsConsistent, others-IsConsistent}
use wacht.Store.MonitoringWrites.{persist_monitoring_batch}

-- One call of a goroutine of the server, or a change of what the connection will answer.
pub data Step (canonical : String → Option String) : Connection → Connection → Type 0 where
  persisted :
      (c : Connection) (now : Time) (ws : List MonitoringWrite)
      → Step canonical c (persist_monitoring_batch canonical now ws c).0
  claimed :
      (c : Connection) (locked : List ℕ) (now stale_before : Time) (limit : ℕ)
      → Step canonical c (claim_due_incident_notifications locked now stale_before limit c).0
  marked_delivered :
      (c : Connection) (id : ℕ) (at : Time)
      → Step canonical c (mark_incident_notification_delivered id at c).0
  marked_retry :
      (c : Connection) (id : ℕ) (next_attempt_at : Time) (message : String)
      → Step canonical c (mark_incident_notification_retry id next_attempt_at message c).0
  created :
      (c : Connection) (id : String) (check : Check) (user_id : ℕ)
      → Step canonical c (create_check id check user_id c).0
  deleted :
      (c : Connection) (name : String) (user_id : ℕ) (now : Time)
      → Step canonical c (delete_check name user_id now c).0
  failing :
      (c : Connection) (faults : List (Option Error))
      → Step canonical c (record c { faults = faults })

pub data Reach (canonical : String → Option String) : Connection → Connection → Type 0 where
  start : (c : Connection) → Reach canonical c c
  next : {a b c : Connection} → Reach canonical a b → Step canonical b c → Reach canonical a c

retry_rows-IsConsistent :
    (id : ℕ) (next_attempt_at : Time) (message : Option String) (t : Tables)
    → IsConsistent t
    → IsConsistent (retry_rows id next_attempt_at message t).0
retry_rows-IsConsistent id next_attempt_at none t h = h
retry_rows-IsConsistent id next_attempt_at (some m) t h =
    retry-IsConsistent id next_attempt_at m t h

insert_check-IsConsistent :
    (id : String) (check : Check) (owner : Option ℕ) (t : Tables)
    → IsConsistent t
    → IsConsistent (insert_check id check owner t).0
unfolding insert_check
insert_check-IsConsistent id check owner t h = either-IsConsistent _ _ _ h (
    either-IsConsistent _ _
      (name_is_taken owner check.name t.checks || any (λ (d : CheckRow). d.id == id) t.checks) h
      (others-IsConsistent t.probes (add_check (new_row id check owner) t).checks
        t.check_probe_state t h))

continue-pure :
    {A B : Type 0} (c : Connection) (r : Result Error A) (b : B)
    → (continue c r (λ _. pure b)).0 ≡ c
continue-pure c (ok a) b = refl
continue-pure c (err e) b = refl

Step-IsConsistent :
    {canonical : String → Option String} {b c : Connection}
    → Step canonical b c
    → IsConsistent b.tables
    → IsConsistent c.tables
unfolding claim_due_incident_notifications mark_incident_notification_delivered
    mark_incident_notification_retry create_check
Step-IsConsistent {canonical = canonical} (persisted c now ws) h =
    persist_monitoring_batch-IsConsistent canonical now ws c h
Step-IsConsistent (claimed c locked now stale_before limit) h =
    exec-Keeps IsConsistent _
      (claim-IsConsistent locked now stale_before (if nat_eq limit 0 then 1 else limit)) c h
Step-IsConsistent (marked_delivered c id at) h =
    exec-Keeps IsConsistent _ (deliver-IsConsistent id at) c h
Step-IsConsistent (marked_retry c id next_attempt_at message) h =
    exec-Keeps IsConsistent _ (retry_rows-IsConsistent id next_attempt_at (truncate_error message))
      c h
Step-IsConsistent (created c id check user_id) h =
    let inserted = exec (insert_check id check (some user_id)) c in
    subst (λ (d : Connection). IsConsistent d.tables)
      (sym (continue-pure inserted.0 inserted.1 (record check { id = id })))
      (exec-Keeps IsConsistent (insert_check id check (some user_id))
        (insert_check-IsConsistent id check (some user_id)) c h)
Step-IsConsistent (deleted c name user_id now) h = delete_check-IsConsistent name user_id now c h
Step-IsConsistent (failing c faults) h = h

-- In whatever order the server's calls come, and whichever statements fail, the tables stay
-- consistent: a check has at most one open incident, the webhook for the beginning of a resolved
-- incident is delivered or superseded, and every webhook that is still owed has the time at which it
-- is taken up next.
pub Reach-IsConsistent :
    {canonical : String → Option String} {a b : Connection}
    → IsConsistent a.tables
    → Reach canonical a b
    → IsConsistent b.tables
Reach-IsConsistent h (start c) = h
Reach-IsConsistent h (next path step) = Step-IsConsistent step (Reach-IsConsistent h path)
