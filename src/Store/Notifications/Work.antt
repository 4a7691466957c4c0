-- ===== src/Store/Notifications/Work.antt =====
-- The rows that a worker claims, delivers and puts off (internal/store/incident_notifications.go).
use wacht.Store.Tables.{
  CheckRow, Tables, IncidentRow, NotificationRow, NotificationEvent, same_event,
}
use wacht.Store.Notifications.{CheckRow}
use wacht.Store.Deliveries.{
  is_due, joins, insert_by_attempt, sort_by_attempt, due_ids, claim_row, claim, deliver_row,
  retry_row,
}
use wacht.Shared.{
  refl, [], ◌∷◌, ◌≡◌, String, List, arith, Bool, true, false, ◌&&◌, ◌||◌, not, ℕ, map, inl, inr,
  nat_eq, sym, ◌∙◌, Bool-cases, take, zero, suc,
}
use wacht.Shared.Rows.{any, select, member}
use wacht.Shared.Keyed.{
  Unique, has, All-map, Unique-map, Below-map, has_absent, has-Unique, All-implies_both,
}
use wacht.Shared.Time.{Time}
use wacht.Store.Notifications.Consistent.{
  IsConsistent, IsSettled, IsTimed, is_resolved, incident_key, notification_key,
}

pub member-map :
    (k : ℕ) (ns : List NotificationRow)
    → member k (map (λ (n : NotificationRow). n.id) ns)
      ≡ any (λ (n : NotificationRow). nat_eq n.id k) ns
member-map k [] = refl
member-map k (n ∷ ns) = ground (arith, member-map k ns)

any-take :
    (p : NotificationRow → Bool) (limit : ℕ) (ns : List NotificationRow)
    → any p (take limit ns) ≡ true
    → any p ns ≡ true
any-take p zero ns h = absurd cc
any-take p (suc limit) [] h = absurd cc
any-take p (suc limit) (n ∷ ns) h = ground (arith, any-take p limit ns)

any-insert_by_attempt :
    (p : NotificationRow → Bool) (n : NotificationRow) (ns : List NotificationRow)
    → any p (insert_by_attempt n ns) ≡ (p n || any p ns)
unfolding insert_by_attempt
any-insert_by_attempt p n [] = refl
any-insert_by_attempt p n (m ∷ ms) = ground (arith, any-insert_by_attempt p n ms)

pub any-sort_by_attempt :
    (p : NotificationRow → Bool) (ns : List NotificationRow) → any p (sort_by_attempt ns) ≡ any p ns
unfolding sort_by_attempt
any-sort_by_attempt p [] = refl
any-sort_by_attempt p (n ∷ ns) =
    ground (arith, any-insert_by_attempt p n (sort_by_attempt ns), any-sort_by_attempt p ns)

any-select :
    (k : ℕ) (p q : NotificationRow → Bool) (ns : List NotificationRow)
    → any (λ (n : NotificationRow). nat_eq n.id k) (select (λ (n : NotificationRow). p n && q n) ns)
      ≡ true
    → has notification_key p k ns ≡ true
any-select k p q [] h = absurd cc
any-select k p q (n ∷ ns) h = ground (arith, any-select k p q ns)

-- An ID that is selected is that of a row that is due.
pub due_ids-due :
    (t : Tables) (locked : List ℕ) (now stale_before : Time) (limit k : ℕ)
    → member k (due_ids t locked now stale_before limit) ≡ true
    → has notification_key (is_due t now stale_before) k t.incident_notifications ≡ true
unfolding due_ids
due_ids-due t locked now stale_before limit k h =
    let ready =
      select (λ (n : NotificationRow). is_due t now stale_before n && not (member n.id locked))
        t.incident_notifications in
    let has_key = λ (n : NotificationRow). nat_eq n.id k in
    any-select k (is_due t now stale_before) (λ (n : NotificationRow). not (member n.id locked))
      t.incident_notifications
      (sym (any-sort_by_attempt has_key ready)
        ∙ any-take has_key limit (sort_by_attempt ready)
            (sym (member-map k (take limit (sort_by_attempt ready))) ∙ h))

-- One incident has the key of a row.
not_both :
    (k : ℕ) (is : List IncidentRow)
    → Unique incident_key is
    → has incident_key is_resolved k is ≡ true
    → has incident_key (λ (i : IncidentRow). not (is_resolved i)) k is ≡ false
not_both k [] u h = refl
not_both k (i ∷ is) u h = elim (Bool-cases (nat_eq i.id k)) [
  | inl here ↦ ground (
    arith,
    has_absent incident_key is_resolved i.id is u.0,
    has_absent incident_key (λ (j : IncidentRow). not (is_resolved j)) i.id is u.0,
    here,
  )
  | inr there ↦ ground (arith, not_both k is u.1)
]

joins-open :
    (n : NotificationRow) (checks : List CheckRow) (is : List IncidentRow)
    → same_event n.event NotificationEvent.down ≡ true
    → any (joins n checks) is ≡ true
    → has incident_key (λ (i : IncidentRow). not (is_resolved i)) n.incident_id is ≡ true
joins-open n checks [] d h = absurd cc
joins-open n checks (i ∷ is) d h = ground (arith, joins-open n checks is d)

is_due-open :
    (t : Tables) (now stale_before : Time) (n : NotificationRow)
    → Unique incident_key t.incidents
    → is_due t now stale_before n ≡ true
    → same_event n.event NotificationEvent.down ≡ true
    → has incident_key is_resolved n.incident_id t.incidents ≡ false
unfolding is_due
is_due-open t now stale_before n u h d =
    ground (arith, joins-open n t.checks t.incidents d, not_both n.incident_id t.incidents u)

claim_row-Settled :
    (t : Tables) (ids : List ℕ) (now stale_before : Time) (n : NotificationRow)
    → Unique incident_key t.incidents
    → (member n.id ids ≡ true → is_due t now stale_before n ≡ true)
    → IsSettled t.incidents n
    → IsSettled t.incidents (claim_row ids now n)
claim_row-Settled t ids now stale_before n u due s =
    ground (arith, is_due-open t now stale_before n u, due, s)

pub claim-IsConsistent :
    (locked : List ℕ) (now stale_before : Time) (limit : ℕ) (t : Tables)
    → IsConsistent t
    → IsConsistent (claim locked now stale_before limit t).0
unfolding claim
claim-IsConsistent locked now stale_before limit t h =
    let ids = due_ids t locked now stale_before limit in
    let due =
      has-Unique notification_key (is_due t now stale_before) t.incident_notifications
        h.notification_ids in
    record {
      one_open = h.one_open;
      incident_ids = h.incident_ids;
      incidents_below = h.incidents_below;
      notification_ids =
          Unique-map notification_key (claim_row ids now) t.incident_notifications
            (λ n. ground arith) h.notification_ids;
      notifications_below =
          Below-map notification_key (claim_row ids now) t.next_id t.incident_notifications
            (λ n. ground arith) h.notifications_below;
      settled =
          All-map
            (λ (n : NotificationRow).
              (member n.id ids ≡ true → is_due t now stale_before n ≡ true)
              × IsSettled t.incidents n)
            (λ (n : NotificationRow). IsSettled t.incidents n) (claim_row ids now)
            t.incident_notifications
            (λ n both. claim_row-Settled t ids now stale_before n h.incident_ids both.0 both.1)
            (All-implies_both
              (λ (n : NotificationRow).
                has notification_key (is_due t now stale_before) n.id t.incident_notifications
                  ≡ true
                → is_due t now stale_before n ≡ true)
              (λ (n : NotificationRow). IsSettled t.incidents n)
              (λ (n : NotificationRow).
                (member n.id ids ≡ true → is_due t now stale_before n ≡ true)
                × IsSettled t.incidents n)
              t.incident_notifications
              (λ n f s. (λ m. f (due_ids-due t locked now stale_before limit n.id m), s)) due
              h.settled);
      timed =
          All-map (λ (n : NotificationRow). IsTimed n) (λ (n : NotificationRow). IsTimed n)
            (claim_row ids now) t.incident_notifications (λ n s. ground (arith, s)) h.timed;
    }

-- A change of the rows, one by one, that keeps their keys.
pub update_rows-IsConsistent :
    (f : NotificationRow → NotificationRow) (t : Tables)
    → ((n : NotificationRow) → (f n).id ≡ n.id)
    → ((n : NotificationRow) → IsSettled t.incidents n → IsSettled t.incidents (f n))
    → ((n : NotificationRow) → IsTimed n → IsTimed (f n))
    → IsConsistent t
    → IsConsistent (record t { incident_notifications = map f t.incident_notifications })
update_rows-IsConsistent f t key settled timed h = record {
  one_open = h.one_open;
  incident_ids = h.incident_ids;
  incidents_below = h.incidents_below;
  notification_ids = Unique-map notification_key f t.incident_notifications key h.notification_ids;
  notifications_below =
      Below-map notification_key f t.next_id t.incident_notifications key h.notifications_below;
  settled =
      All-map (λ (n : NotificationRow). IsSettled t.incidents n)
        (λ (n : NotificationRow). IsSettled t.incidents n) f t.incident_notifications settled
        h.settled;
  timed =
      All-map (λ (n : NotificationRow). IsTimed n) (λ (n : NotificationRow). IsTimed n) f
        t.incident_notifications timed h.timed;
}

pub deliver-IsConsistent :
    (id : ℕ) (at : Time) (t : Tables)
    → IsConsistent t
    → IsConsistent
        (record t { incident_notifications = map (deliver_row id at) t.incident_notifications })
deliver-IsConsistent id at t =
    update_rows-IsConsistent (deliver_row id at) t (λ n. ground arith) (λ n s. ground (arith, s))
      (λ n s. ground (arith, s))

pub retry-IsConsistent :
    (id : ℕ) (next : Time) (last_error : String) (t : Tables)
    → IsConsistent t
    → IsConsistent (record t {
      incident_notifications =
          map (retry_row t.incidents id next last_error) t.incident_notifications;
    })
retry-IsConsistent id next last_error t =
    update_rows-IsConsistent (retry_row t.incidents id next last_error) t (λ n. ground arith)
      (λ n s. ground (arith, s)) (λ n s. ground (arith, s))
