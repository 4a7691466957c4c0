-- ===== src/Store/Notifications/Consistent.antt =====
-- The tables incidents and incident_notifications (internal/store/incident_notifications.go): what
-- holds between the transactions.
use wacht.Shared.{
  refl, [], ◌∷◌, some, ◌≡◌, String, List, arith, Bool, true, false, ◌||◌, not, ℕ, map, eq_iff, All,
  nat_eq, is_some, ◌++◌,
}
use wacht.Shared.Rows.{any, find}
use wacht.Shared.Keyed.{Unique, Below, has, any-append}
use wacht.Shared.Time.{Time}
use wacht.Store.Tables.{
  Tables, IncidentRow, NotificationRow, NotificationEvent, NotificationState, same_event,
}
use wacht.Store.Notifications.{is_open, resolve_row}

abbrev pub incident_key : IncidentRow → ℕ
incident_key i = i.id

abbrev pub notification_key : NotificationRow → ℕ
notification_key n = n.id

abbrev pub is_resolved : IncidentRow → Bool
is_resolved i = is_some i.resolved_at

-- No worker takes such a row again.
abbrev pub is_final : NotificationState → Bool
is_final NotificationState.delivered = true
is_final NotificationState.superseded = true
is_final _ = false

-- At most one open incident of each check.
abbrev pub OneOpen : List IncidentRow → Type 0
OneOpen [] = Unit
OneOpen (i ∷ is) = ((is_resolved i || not (any (is_open i.check_id) is)) ≡ true) × OneOpen is

-- The webhook of a resolved incident's beginning is not owed any more.
abbrev pub IsSettled : List IncidentRow → NotificationRow → Type 0
IsSettled incidents n =
    same_event n.event NotificationEvent.down ≡ true
    → has incident_key is_resolved n.incident_id incidents ≡ true
    → is_final n.state ≡ true

-- A row that is not final has the time at which it is taken up again.
abbrev pub has_time : NotificationState → NotificationRow → Bool
has_time NotificationState.pending n = is_some n.next_attempt_at
has_time NotificationState.retrying n = is_some n.next_attempt_at
has_time NotificationState.processing n = is_some n.last_attempt_at
has_time _ n = true

abbrev pub IsTimed : NotificationRow → Type 0
IsTimed n = has_time n.state n ≡ true

pub record IsConsistent (t : Tables) : Type 0 where
  pub one_open : OneOpen t.incidents
  pub incident_ids : Unique incident_key t.incidents
  pub incidents_below : Below incident_key t.next_id t.incidents
  pub notification_ids : Unique notification_key t.incident_notifications
  pub notifications_below : Below notification_key t.next_id t.incident_notifications
  pub settled : All (λ (n : NotificationRow). IsSettled t.incidents n) t.incident_notifications
  pub timed : All (λ (n : NotificationRow). IsTimed n) t.incident_notifications

-- A new incident.
pub OneOpen-append :
    (is : List IncidentRow) (i : IncidentRow)
    → any (is_open i.check_id) is ≡ false
    → OneOpen is
    → OneOpen (is ++ (i ∷ []))
OneOpen-append [] i h o = (ground arith, tt)
OneOpen-append (j ∷ is) i h o = (
  ground (
    arith,
    any-append (is_open j.check_id) is i,
    o.0,
    eq_iff i.check_id j.check_id,
    eq_iff j.check_id i.check_id,
  ),
  OneOpen-append is i (ground arith) o.1,
)

pub has-append_other :
    (k : ℕ) (is : List IncidentRow) (i : IncidentRow)
    → is_resolved i ≡ false
    → has incident_key is_resolved k (is ++ (i ∷ [])) ≡ has incident_key is_resolved k is
has-append_other k [] i h = ground arith
has-append_other k (j ∷ is) i h = ground (arith, has-append_other k is i)

-- Where no incident of the check is open, to resolve it changes nothing.
pub map-resolve_none :
    (check_id : String) (now : Time) (is : List IncidentRow)
    → any (is_open check_id) is ≡ false
    → map (resolve_row check_id now) is ≡ is
map-resolve_none check_id now [] h = refl
map-resolve_none check_id now (i ∷ is) h = ground (arith, map-resolve_none check_id now is)

any-open_resolve :
    (check_id other : String) (now : Time) (is : List IncidentRow)
    → any (is_open other) (map (resolve_row check_id now) is) ≡ true
    → any (is_open other) is ≡ true
any-open_resolve check_id other now [] h = absurd cc
any-open_resolve check_id other now (i ∷ is) h =
    ground (arith, any-open_resolve check_id other now is)

pub OneOpen-resolve :
    (check_id : String) (now : Time) (is : List IncidentRow)
    → OneOpen is
    → OneOpen (map (resolve_row check_id now) is)
OneOpen-resolve check_id now [] o = tt
OneOpen-resolve check_id now (i ∷ is) o = (
  ground (arith, any-open_resolve check_id i.check_id now is, o.0),
  OneOpen-resolve check_id now is o.1,
)

pub any-find : (p : IncidentRow → Bool) (is : List IncidentRow) → any p is ≡ is_some (find p is)
any-find p [] = refl
any-find p (i ∷ is) = ground (arith, any-find p is)

-- What becomes resolved is the incident that was open.
pub has-resolve :
    (check_id : String) (now : Time) (k : ℕ) (is : List IncidentRow) (j : IncidentRow)
    → OneOpen is
    → find (is_open check_id) is ≡ some j
    → has incident_key is_resolved k (map (resolve_row check_id now) is) ≡ true
    → (has incident_key is_resolved k is || nat_eq j.id k) ≡ true
has-resolve check_id now k [] j o f h = absurd cc
has-resolve check_id now k (i ∷ is) j o f h = ground (
  arith,
  has-resolve check_id now k is j,
  o.0,
  o.1,
  map-resolve_none check_id now is,
  eq_iff i.check_id check_id,
  any-find (is_open check_id) is,
)
