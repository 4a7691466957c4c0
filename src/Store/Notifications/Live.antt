-- ===== src/Store/Notifications/Live.antt =====
-- Webhooks that are owed (internal/store/incident_notifications.go): a worker gets each of them.
use wacht.Store.Notifications.Consistent.{
  IsTimed, IsConsistent, IsSettled, has_time, is_resolved, is_final, incident_key,
}
use wacht.Shared.Keyed.{All-find, has}
use wacht.Shared.{
  ap, refl, [], ◌∷◌, none, some, ◌≡◌, Option, List, Bool, true, false, not, ◌&&◌, ◌==◌, ℕ, zero,
  suc, ◌≤◌, nat_eq, take, length, arith, ◌∙◌,
}
use mathlib.Core.Path.{ap}
use wacht.Shared.Rows.{any, find, select, member}
use wacht.Shared.Time.{Time}
use wacht.Store.Tables.{
  Tables, CheckRow, IncidentRow, NotificationRow, NotificationEvent, NotificationState, same_event,
}
use wacht.Store.Deliveries.{is_due, is_ready, joins, insert_by_attempt, sort_by_attempt, due_ids}
use wacht.Store.Notifications.Work.{member-map, any-sort_by_attempt}

-- The row's incident and check are there.
abbrev pub is_joined : Tables → NotificationRow → Bool
is_joined t n =
    any
      (λ (i : IncidentRow).
        nat_eq i.id n.incident_id && any (λ (c : CheckRow). c.id == i.check_id) t.checks)
      t.incidents

-- The time at which the row is taken up again.
abbrev pub known : Option Time → Time
known none = 0
known (some at) = at

abbrev pub due_time : NotificationState → NotificationRow → Time
due_time NotificationState.processing n = known n.last_attempt_at
due_time _ n = known n.next_attempt_at

any-joins :
    (n : NotificationRow) (checks : List CheckRow) (is : List IncidentRow)
    → (same_event n.event NotificationEvent.down ≡ true
        → has incident_key is_resolved n.incident_id is ≡ false)
    → any
        (λ (i : IncidentRow).
          nat_eq i.id n.incident_id && any (λ (c : CheckRow). c.id == i.check_id) checks)
        is
      ≡ true
    → any (joins n checks) is ≡ true
any-joins n checks [] s h = absurd cc
any-joins n checks (i ∷ is) s h = ground (arith, any-joins n checks is, s)

ready :
    (state : NotificationState) (n : NotificationRow) (now stale_before : Time)
    → is_final state ≡ false
    → has_time state n ≡ true
    → due_time state n ≤ now
    → due_time state n ≤ stale_before
    → is_ready state n now stale_before ≡ true
ready state n now stale_before f h a b = ground arith

length-insert_by_attempt :
    (n : NotificationRow) (ns : List NotificationRow)
    → length (insert_by_attempt n ns) ≡ suc (length ns)
unfolding insert_by_attempt
length-insert_by_attempt n [] = refl
length-insert_by_attempt n (m ∷ ms) = ground (arith, length-insert_by_attempt n ms)

length-sort_by_attempt : (ns : List NotificationRow) → length (sort_by_attempt ns) ≡ length ns
unfolding sort_by_attempt
length-sort_by_attempt [] = refl
length-sort_by_attempt (n ∷ ns) =
    ground (arith, length-insert_by_attempt n (sort_by_attempt ns), length-sort_by_attempt ns)

length-select :
    (p : NotificationRow → Bool) (ns : List NotificationRow) → length (select p ns) ≤ length ns
length-select p [] = omega arith
length-select p (n ∷ ns) = ground (arith, length-select p ns)

take_all : (limit : ℕ) (ns : List NotificationRow) → length ns ≤ limit → take limit ns ≡ ns
take_all zero [] h = refl
take_all zero (n ∷ ns) h = absurd (omega arith)
take_all (suc limit) [] h = refl
take_all (suc limit) (n ∷ ns) h = rw (take_all limit ns (omega arith)) refl

any-select_found :
    (k : ℕ) (p : NotificationRow → Bool) (ns : List NotificationRow) (n : NotificationRow)
    → find (λ (m : NotificationRow). nat_eq m.id k) ns ≡ some n
    → p n ≡ true
    → any (λ (m : NotificationRow). nat_eq m.id k) (select p ns) ≡ true
any-select_found k p [] n f h = absurd cc
any-select_found k p (m ∷ ms) n f h = ground (arith, any-select_found k p ms n)

due_ids-found :
    (t : Tables) (locked : List ℕ) (now stale_before : Time) (limit : ℕ) (n : NotificationRow)
    → find (λ (m : NotificationRow). nat_eq m.id n.id) t.incident_notifications ≡ some n
    → is_due t now stale_before n ≡ true
    → member n.id locked ≡ false
    → length t.incident_notifications ≤ limit
    → member n.id (due_ids t locked now stale_before limit) ≡ true
unfolding due_ids
due_ids-found t locked now stale_before limit n f due free fits =
    let able = λ (m : NotificationRow). is_due t now stale_before m && not (member m.id locked) in
    let rows = select able t.incident_notifications in
    let has_key = λ (m : NotificationRow). nat_eq m.id n.id in
    let short : length (sort_by_attempt rows) ≤ limit =
      omega (arith, length-sort_by_attempt rows, length-select able t.incident_notifications) in
    member-map n.id (take limit (sort_by_attempt rows))
    ∙ ap (any has_key) (take_all limit (sort_by_attempt rows) short)
    ∙ any-sort_by_attempt has_key rows
    ∙ any-select_found n.id able t.incident_notifications n f (ground arith)

is_due-owed :
    (t : Tables) (now stale_before : Time) (n : NotificationRow)
    → IsSettled t.incidents n
    → has_time n.state n ≡ true
    → is_final n.state ≡ false
    → is_joined t n ≡ true
    → due_time n.state n ≤ now
    → due_time n.state n ≤ stale_before
    → is_due t now stale_before n ≡ true
unfolding is_due
is_due-owed t now stale_before n s timed f j a b = ground (
  arith,
  ready n.state n now stale_before f timed a b,
  any-joins n t.checks t.incidents (λ d. ground (arith, s d)) j,
)

-- In consistent tables, a webhook that is neither delivered nor superseded, that is not skipped for a
-- lock of another transaction, and whose incident and check are there, has a time from which on a claim takes it: every
-- claim whose clock and stale time are past it and whose limit is no less than the number of rows.
pub due_ids-Owed :
    (t : Tables) (locked : List ℕ) (n : NotificationRow)
    → IsConsistent t
    → find (λ (m : NotificationRow). nat_eq m.id n.id) t.incident_notifications ≡ some n
    → is_final n.state ≡ false
    → is_joined t n ≡ true
    → member n.id locked ≡ false
    → (from : Time) × ((now stale_before : Time) (limit : ℕ)
        → from ≤ now
        → from ≤ stale_before
        → length t.incident_notifications ≤ limit
        → member n.id (due_ids t locked now stale_before limit) ≡ true)
due_ids-Owed t locked n h f final joined free =
    let has_key = λ (m : NotificationRow). nat_eq m.id n.id in
    (
      due_time n.state n,
      λ now stale_before limit a b fits.
          due_ids-found t locked now stale_before limit n f
            (is_due-owed t now stale_before n
              (All-find (λ (m : NotificationRow). IsSettled t.incidents m) has_key
                t.incident_notifications n h.settled f)
              (All-find (λ (m : NotificationRow). IsTimed m) has_key t.incident_notifications n
                h.timed f)
              final joined a b)
            free fits,
    )
