-- ===== src/Alert/Sender/Dispatch.antt =====
-- dispatch (internal/alert/sender.go) over the store.
use wacht.Alert.Sender.{record_outcome, dispatch}
use wacht.Alert.Sender.Backoff.{doubled, next_retry_delay_with_backoff-doubled}
use wacht.Shared.{
  refl, ℕ, ◌+◌, ◌≡◌, String, Bool, true, false, ◌&&◌, Option, none, some, List, [], ◌∷◌, map, arith,
  nat_eq, ◌∙◌, ap, ltb, is_some, if◌then◌else◌,
}
use wacht.Shared.Bytes.{byte_length, cut_bytes}
use wacht.Shared.Int.{ℤ}
use wacht.Shared.Rows.{any, find}
use wacht.Shared.Time.{Time}
use wacht.Store.Tables.{Tables, IncidentRow, NotificationRow, NotificationState, NotificationEvent}
use wacht.Store.Connection.{exec}
use wacht.Store.Deliveries.{
  mark_incident_notification_delivered, mark_incident_notification_retry, deliver_row, retry_row,
  retry_rows, truncate_error, NotificationJob,
}

find-map :
    (f : NotificationRow → NotificationRow) (id : ℕ) (ns : List NotificationRow)
    (n : NotificationRow)
    → ((m : NotificationRow) → (f m).id ≡ m.id)
    → find (λ (m : NotificationRow). nat_eq m.id id) ns ≡ some n
    → find (λ (m : NotificationRow). nat_eq m.id id) (map f ns) ≡ some (f n)
find-map f id [] n key h = absurd cc
find-map f id (m ∷ ms) n key h = ground (arith, find-map f id ms n key, key m)

-- The text of an error as the column takes it: at most 512 bytes; nothing, where the cut would break
-- a character.
abbrev pub kept_text : String → Option String
kept_text message = if ltb 512 (byte_length message) then cut_bytes 512 message else some message

-- Whether the incident that the row is for has been resolved.
abbrev pub is_resolved : List IncidentRow → ℕ → Bool
is_resolved incidents id =
    any (λ (i : IncidentRow). nat_eq i.id id && is_some i.resolved_at) incidents

abbrev pub retry_later : Time → String → NotificationRow → NotificationRow
retry_later at text n = record n {
  state = NotificationState.retrying;
  next_attempt_at = some at;
  last_error = some text;
}

abbrev pub give_up : String → NotificationRow → NotificationRow
give_up text n = record n {
  state = NotificationState.superseded;
  next_attempt_at = none;
  last_error = some text;
}

-- What a failed attempt leaves of the row, from the row's event and whether its incident is resolved.
abbrev pub after_failure :
    NotificationEvent → Bool → Time → Option String → NotificationRow → NotificationRow
after_failure event resolved at none n = n
after_failure NotificationEvent.up resolved at (some text) n = retry_later at text n
after_failure NotificationEvent.down true at (some text) n = give_up text n
after_failure NotificationEvent.down false at (some text) n = retry_later at text n

-- What an attempt leaves of the row that it is for.
abbrev pub attempted : List IncidentRow → Time → Option String → NotificationRow → NotificationRow
attempted incidents now none n = record n {
  state = NotificationState.delivered;
  delivered_at = some now;
  next_attempt_at = none;
  last_error = none;
}
attempted incidents now (some message) n =
    after_failure n.event (is_resolved incidents n.incident_id) (now + doubled (ℤ.pos n.attempts))
      (kept_text message) n

retry_row-after_failure :
    (incidents : List IncidentRow) (at : Time) (text : String) (n : NotificationRow)
    (event : NotificationEvent) (resolved : Bool)
    → n.event ≡ event
    → is_resolved incidents n.incident_id ≡ resolved
    → n.state ≡ NotificationState.processing
    → any (λ (i : IncidentRow). nat_eq i.id n.incident_id) incidents ≡ true
    → retry_row incidents n.id at text n ≡ after_failure event resolved at (some text) n
retry_row-after_failure incidents at text n NotificationEvent.up resolved e r taken there =
    ground arith
retry_row-after_failure incidents at text n NotificationEvent.down true e r taken there =
    ground arith
retry_row-after_failure incidents at text n NotificationEvent.down false e r taken there =
    ground arith

retried :
    (t : Tables) (at : Time) (text : Option String) (n : NotificationRow)
    → find (λ (m : NotificationRow). nat_eq m.id n.id) t.incident_notifications ≡ some n
    → n.state ≡ NotificationState.processing
    → any (λ (i : IncidentRow). nat_eq i.id n.incident_id) t.incidents ≡ true
    → find
        (λ (m : NotificationRow). nat_eq m.id n.id)
        (exec
          (retry_rows n.id at text)
          (record { tables = t; faults = [] })).0.tables.incident_notifications
      ≡ some (after_failure n.event (is_resolved t.incidents n.incident_id) at text n)
unfolding exec
retried t at none n f taken there = f
retried t at (some text) n f taken there =
    find-map (retry_row t.incidents n.id at text) n.id t.incident_notifications n
      (λ m. ground arith) f
    ∙ ap some (
        retry_row-after_failure t.incidents at text n n.event
          (is_resolved t.incidents n.incident_id) refl refl taken there)

truncate_error-kept_text : (message : String) → truncate_error message ≡ kept_text message
unfolding truncate_error
truncate_error-kept_text message = ground arith

marked :
    (t : Tables) (at : Time) (message : String) (n : NotificationRow)
    → find (λ (m : NotificationRow). nat_eq m.id n.id) t.incident_notifications ≡ some n
    → n.state ≡ NotificationState.processing
    → any (λ (i : IncidentRow). nat_eq i.id n.incident_id) t.incidents ≡ true
    → find
        (λ (m : NotificationRow). nat_eq m.id n.id)
        (mark_incident_notification_retry n.id at message
          (record { tables = t; faults = [] })).0.tables.incident_notifications
      ≡ some
          (after_failure n.event (is_resolved t.incidents n.incident_id) at (kept_text message) n)
unfolding mark_incident_notification_retry
marked t at message n f taken there =
    retried t at (truncate_error message) n f taken there
    ∙ ap
        (λ (x : Option String).
          some (after_failure n.event (is_resolved t.incidents n.incident_id) at x n))
        (truncate_error-kept_text message)

record_outcome-attempted :
    (now : Time) (job : NotificationJob) (t : Tables) (n : NotificationRow)
    (outcome : Option String)
    → find (λ (m : NotificationRow). nat_eq m.id n.id) t.incident_notifications ≡ some n
    → job.id ≡ n.id
    → job.attempts ≡ n.attempts
    → n.state ≡ NotificationState.processing
    → any (λ (i : IncidentRow). nat_eq i.id n.incident_id) t.incidents ≡ true
    → find
        (λ (m : NotificationRow). nat_eq m.id n.id)
        (record_outcome now job outcome
          (record { tables = t; faults = [] })).tables.incident_notifications
      ≡ some (attempted t.incidents now outcome n)
unfolding mark_incident_notification_delivered exec
record_outcome-attempted now job t n none f key attempts taken there = rw key (
    find-map (deliver_row n.id now) n.id t.incident_notifications n (λ m. ground arith) f
    ∙ ap some (ground arith))
record_outcome-attempted now job t n (some message) f key attempts taken there =
    rw (key, attempts, next_retry_delay_with_backoff-doubled (ℤ.pos n.attempts))
      (marked t (now + doubled (ℤ.pos n.attempts)) message n f taken there)

module _ (send : NotificationJob → Option String) where
  -- When the store's statement does not fail by itself, an attempt for a claimed row leaves that row
  -- delivered, with no error and no further attempt, if the request succeeded. If it failed: the row
  -- is superseded, with no further attempt, where it is for a down event and its incident is
  -- resolved; it is retrying otherwise, due a second after the first attempt, twice as long after
  -- each further one and five minutes at most; both with the error's text, cut to 512 bytes. It
  -- stays as it was where the cut breaks a character.
  pub dispatch-attempted :
      (now : Time) (job : NotificationJob) (t : Tables) (n : NotificationRow)
      → find (λ (m : NotificationRow). nat_eq m.id n.id) t.incident_notifications ≡ some n
      → job.id ≡ n.id
      → job.attempts ≡ n.attempts
      → n.state ≡ NotificationState.processing
      → any (λ (i : IncidentRow). nat_eq i.id n.incident_id) t.incidents ≡ true
      → find
          (λ (m : NotificationRow). nat_eq m.id n.id)
          (dispatch send now job (record { tables = t; faults = [] })).tables.incident_notifications
        ≡ some (attempted t.incidents now (send job) n)
  unfolding dispatch
  dispatch-attempted now job t n f key attempts taken there =
      record_outcome-attempted now job t n (send job) f key attempts taken there
