-- ===== src/Store/Deliveries.antt =====
-- internal/store/incident_notifications.go: the webhooks that a worker claims, delivers or puts off.
-- Each SQL statement is a function on the tables.
use wacht.Shared.{
  ℕ, ◌+◌, String, Bool, true, false, not, ◌&&◌, ◌||◌, Option, none, some, List, [], ◌∷◌, map, take,
  ◌==◌, nat_eq, ltb, leb, if◌then◌else◌, is_some,
}
use wacht.Shared.Rows.{any, find, select, member}
use wacht.Shared.Bytes.{byte_length, cut_bytes}
use wacht.Shared.Time.{Time}
use wacht.Shared.Action.{ok, err, Action}
use wacht.Monitoring.Types.{Error}
use wacht.Store.Tables.{
  Tables, CheckRow, IncidentRow, NotificationRow, NotificationEvent, NotificationState, same_event,
  same_notification_state,
}
use wacht.Store.Connection.{Connection, exec}

pub record NotificationJob : Type 0 where
  pub id : ℕ
  pub incident_id : ℕ
  pub check_id : String
  pub event : NotificationEvent
  pub webhook_url : String
  pub payload : String
  pub attempts : ℕ

-- at <= limit, which is NULL and so not true where `at` is NULL
abbrev pub reached : Option Time → Time → Bool
reached none limit = false
reached (some at) limit = leb at limit

-- The first condition of the WHERE clause of `due`.
abbrev pub is_ready : NotificationState → NotificationRow → Time → Time → Bool
is_ready NotificationState.pending n now stale_before = reached n.next_attempt_at now
is_ready NotificationState.retrying n now stale_before = reached n.next_attempt_at now
is_ready NotificationState.processing n now stale_before = reached n.last_attempt_at stale_before
is_ready _ n now stale_before = false

-- An incident that the row joins, with its check, and that does not rule the row out.
abbrev pub joins : NotificationRow → List CheckRow → IncidentRow → Bool
joins n checks i =
    nat_eq i.id n.incident_id
    && any (λ (c : CheckRow). c.id == i.check_id) checks
    && not (same_event n.event NotificationEvent.down && is_some i.resolved_at)

unfoldable pub is_due : Tables → Time → Time → NotificationRow → Bool
is_due t now stale_before n =
    is_ready n.state n now stale_before && any (joins n t.checks) t.incidents

-- ORDER BY next_attempt_at ASC, id ASC, with NULL last
abbrev pub before_or_same : Option Time → ℕ → Option Time → ℕ → Bool
before_or_same (some s) i (some t) j = ltb s t || (nat_eq s t && leb i j)
before_or_same (some s) i none j = true
before_or_same none i (some t) j = false
before_or_same none i none j = leb i j

unfoldable pub insert_by_attempt : NotificationRow → List NotificationRow → List NotificationRow
insert_by_attempt n [] = n ∷ []
insert_by_attempt n (m ∷ ms) =
    if before_or_same n.next_attempt_at n.id m.next_attempt_at m.id
    then n ∷ m ∷ ms
    else m ∷ insert_by_attempt n ms

unfoldable pub sort_by_attempt : List NotificationRow → List NotificationRow
unfolding insert_by_attempt
sort_by_attempt [] = []
sort_by_attempt (n ∷ ns) = insert_by_attempt n (sort_by_attempt ns)

-- The IDs that `due` selects. FOR UPDATE SKIP LOCKED skips the rows in `locked`: those of which another
-- transaction has locked the webhook, its incident or its check.
unfoldable pub due_ids : Tables → List ℕ → Time → Time → ℕ → List ℕ
unfolding is_due sort_by_attempt
due_ids t locked now stale_before limit =
    map (λ (n : NotificationRow). n.id)
      (take limit (
        sort_by_attempt (
          select (λ (n : NotificationRow). is_due t now stale_before n && not (member n.id locked))
            t.incident_notifications)))

abbrev pub claim_row : List ℕ → Time → NotificationRow → NotificationRow
claim_row ids now n =
    if member n.id ids
    then record n {
      state = NotificationState.processing;
      attempts = n.attempts + 1;
      last_attempt_at = some now;
    }
    else n

-- i.check_id of the incident that the row joins
abbrev pub check_of : Option IncidentRow → String
check_of none = ""
check_of (some i) = i.check_id

abbrev pub job_of : Tables → NotificationRow → NotificationJob
job_of t n = record {
  id = n.id;
  incident_id = n.incident_id;
  check_id = check_of (find (λ (i : IncidentRow). nat_eq i.id n.incident_id) t.incidents);
  event = n.event;
  webhook_url = n.webhook_url;
  payload = n.payload;
  attempts = n.attempts;
}

unfoldable pub claim : List ℕ → Time → Time → ℕ → Action Tables Error (List NotificationJob)
unfolding due_ids
claim locked now stale_before limit t =
    let ids = due_ids t locked now stale_before limit in
    let rows = map (claim_row ids now) t.incident_notifications in
    (
      record t { incident_notifications = rows },
      ok (map (job_of t) (select (λ (n : NotificationRow). member n.id ids) rows)),
    )

-- `locked` holds the webhooks that the statement skips when it runs, for a lock on one of their rows. The limit is that of
-- the source, which takes 1 for one that is not positive.
unfoldable pub claim_due_incident_notifications :
    List ℕ → Time → Time → ℕ → Action Connection Error (List NotificationJob)
unfolding claim
claim_due_incident_notifications locked now stale_before limit =
    exec (claim locked now stale_before (if nat_eq limit 0 then 1 else limit))

abbrev pub deliver_row : ℕ → Time → NotificationRow → NotificationRow
deliver_row id delivered_at n =
    if nat_eq n.id id && same_notification_state n.state NotificationState.processing
    then record n {
      state = NotificationState.delivered;
      delivered_at = some delivered_at;
      next_attempt_at = none;
      last_error = none;
    }
    else n

unfoldable pub mark_incident_notification_delivered : ℕ → Time → Action Connection Error (Unit {0})
mark_incident_notification_delivered id delivered_at = exec (λ (t : Tables). (
  record t { incident_notifications = map (deliver_row id delivered_at) t.incident_notifications },
  ok tt,
))

-- The two CASE expressions.
abbrev pub retry_state : Bool → NotificationRow → Time → String → NotificationRow
retry_state true n next_attempt_at last_error = record n {
  state = NotificationState.superseded;
  next_attempt_at = none;
  last_error = some last_error;
}
retry_state false n next_attempt_at last_error = record n {
  state = NotificationState.retrying;
  next_attempt_at = some next_attempt_at;
  last_error = some last_error;
}

-- n.state = superseded, or n.event = down AND i.resolved_at IS NOT NULL
abbrev pub is_over : List IncidentRow → NotificationRow → Bool
is_over incidents n =
    same_notification_state n.state NotificationState.superseded
    || (same_event n.event NotificationEvent.down
        && any (λ (i : IncidentRow). nat_eq i.id n.incident_id && is_some i.resolved_at) incidents)

abbrev pub retry_row : List IncidentRow → ℕ → Time → String → NotificationRow → NotificationRow
retry_row incidents id next_attempt_at last_error n =
    if nat_eq n.id id
      && any (λ (i : IncidentRow). nat_eq i.id n.incident_id) incidents
      && not (same_notification_state n.state NotificationState.delivered)
    then retry_state (is_over incidents n) n next_attempt_at last_error
    else n

-- The bytes of a text parameter that are no UTF-8 are an error of the statement.
unfoldable pub truncate_error : String → Option String
truncate_error message =
    if leb (byte_length message) 512 then some message else cut_bytes 512 message

abbrev pub retry_rows : ℕ → Time → Option String → Action Tables Error (Unit {0})
retry_rows id next_attempt_at none t =
    (t, err (Error.external "invalid byte sequence for encoding \"UTF8\""))
retry_rows id next_attempt_at (some last_error) t = (
  record t {
    incident_notifications =
        map (retry_row t.incidents id next_attempt_at last_error) t.incident_notifications;
  },
  ok tt,
)

unfoldable pub mark_incident_notification_retry :
    ℕ → Time → String → Action Connection Error (Unit {0})
unfolding truncate_error
mark_incident_notification_retry id next_attempt_at last_error =
    exec (retry_rows id next_attempt_at (truncate_error last_error))
