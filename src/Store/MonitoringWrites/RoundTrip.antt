-- ===== src/Store/MonitoringWrites/RoundTrip.antt =====
-- check_probe_state (internal/store/monitoring.go): a state of the monitoring package that is written
-- and read again.
use wacht.Shared.{
  sym, ◌∙◌, not, refl, [], ◌∷◌, some, ◌≢◌, ◌≡◌, String, Option, List, arith, Bool, true, false,
  ◌&&◌, ◌==◌, ◌<◌, ◌^◌, eq_iff, ap, if◌then◌else◌,
}
use mathlib.Core.Path.{sym, subst}
use wacht.Store.CheckStates.{
  row_of, accept_trimmed, is_state_text, is_outcome_text, put_state, normalize_check_state_write,
  set_times, upsert_check_state, upsert_row, trim_check_state, normalize_time,
}
use wacht.Shared.Rows.{any, find}
use wacht.Shared.Text.{trim_space}
use wacht.Shared.Time.{Time, is_zero}
use wacht.Shared.Action.{ok}
use wacht.Monitoring.Types.{CheckExecState, CheckState, check_state_text, check_state_of}
use wacht.Monitoring.Result.{check_state_write}
use wacht.Monitoring.Recovery.{persisted_check_exec_state}
use wacht.Store.Writes.{CheckStateWrite, PersistedCheckState}
use wacht.Store.Tables.{Tables, CheckRow}
use wacht.Store.Connection.{exec}
use wacht.Store.CheckId.{normalize_check_id}

-- PRIMARY KEY (check_id, probe_id)
abbrev pub has_key : String → String → PersistedCheckState → Bool
has_key check_id probe_id s = s.check_id == check_id && s.probe_id == probe_id

find-put_state :
    (check_id probe_id : String) (new : PersistedCheckState) (ss : List PersistedCheckState)
    → find (has_key check_id probe_id) (put_state new ss)
      ≡ (if has_key check_id probe_id new then some new else find (has_key check_id probe_id) ss)
unfolding put_state
find-put_state check_id probe_id new [] = ground arith
find-put_state check_id probe_id new (s ∷ ss) = ground (
  arith,
  find-put_state check_id probe_id new ss,
  eq_iff s.check_id new.check_id,
  eq_iff s.probe_id new.probe_id,
  eq_iff s.check_id check_id,
  eq_iff s.probe_id probe_id,
  eq_iff new.check_id check_id,
  eq_iff new.probe_id probe_id,
)

-- A state whose texts are trimmed, whose IDs are not empty, whose outcome and state the schema admits,
-- and whose streak has 31 bits.
pub record IsStorable (s : CheckExecState) : Type 0 where
  pub check_trimmed : trim_space s.check_id ≡ s.check_id
  pub probe_trimmed : trim_space s.probe_id ≡ s.probe_id
  pub error_trimmed : trim_space s.last_error ≡ s.last_error
  pub check_named : s.check_id ≢ ""
  pub probe_named : s.probe_id ≢ ""
  pub outcome_observed : s.last_outcome ≢ CheckState.missing
  pub outcome_known : s.last_outcome ≡ CheckState.unset → s.state ≡ CheckState.missing
  pub state_set : s.state ≢ CheckState.unset
  pub streak : s.streak_len < 2 ^ 31

-- The state as the table holds it: without a result it has the time of the write, and without a
-- deadline, as after its evidence is lost, the time of its last result.
abbrev pub stored : Time → CheckExecState → CheckExecState
stored now s =
    let at = if is_zero s.last_result_at then now else s.last_result_at in
    record s { last_result_at = at; expires_at = if is_zero s.expires_at then at else s.expires_at }

trim-check_state_text : (s : CheckState) → trim_space (check_state_text s) ≡ check_state_text s
unfolding trim_space check_state_text
trim-check_state_text CheckState.unset = refl
trim-check_state_text CheckState.up = refl
trim-check_state_text CheckState.down = refl
trim-check_state_text CheckState.missing = refl
trim-check_state_text CheckState.error = refl

check_state_of-text : (s : CheckState) → check_state_of (check_state_text s) ≡ s
unfolding check_state_of check_state_text
check_state_of-text CheckState.unset = refl
check_state_of-text CheckState.up = refl
check_state_of-text CheckState.down = refl
check_state_of-text CheckState.missing = refl
check_state_of-text CheckState.error = refl

abbrev AreComplete : CheckState → CheckState → Type 0
AreComplete outcome state =
    ((check_state_text state == "") ≡ false)
    × ((check_state_text outcome == "" && not (check_state_text state == "missing")) ≡ false)
    × (is_outcome_text (check_state_text outcome) ≡ true)
    × (is_state_text (check_state_text state) ≡ true)

complete_texts :
    (outcome state : CheckState)
    → outcome ≢ CheckState.missing
    → (outcome ≡ CheckState.unset → state ≡ CheckState.missing)
    → state ≢ CheckState.unset
    → AreComplete outcome state
unfolding check_state_text
complete_texts outcome CheckState.unset o k st = absurd (st refl)
complete_texts CheckState.missing state o k st = absurd (o refl)
complete_texts CheckState.unset state o k st =
    subst (λ (x : CheckState). AreComplete CheckState.unset x) (sym (k refl))
      (refl, refl, refl, refl)
complete_texts CheckState.up CheckState.up o k st = (refl, refl, refl, refl)
complete_texts CheckState.up CheckState.down o k st = (refl, refl, refl, refl)
complete_texts CheckState.up CheckState.missing o k st = (refl, refl, refl, refl)
complete_texts CheckState.up CheckState.error o k st = (refl, refl, refl, refl)
complete_texts CheckState.down CheckState.up o k st = (refl, refl, refl, refl)
complete_texts CheckState.down CheckState.down o k st = (refl, refl, refl, refl)
complete_texts CheckState.down CheckState.missing o k st = (refl, refl, refl, refl)
complete_texts CheckState.down CheckState.error o k st = (refl, refl, refl, refl)
complete_texts CheckState.error CheckState.up o k st = (refl, refl, refl, refl)
complete_texts CheckState.error CheckState.down o k st = (refl, refl, refl, refl)
complete_texts CheckState.error CheckState.missing o k st = (refl, refl, refl, refl)
complete_texts CheckState.error CheckState.error o k st = (refl, refl, refl, refl)

module _ (s : CheckExecState) (storable : IsStorable s) where
  abbrev written : CheckStateWrite
  written = check_state_write s.check_id s.probe_id s

  trim-written : trim_check_state written ≡ written
  unfolding check_state_write
  trim-written =
      rw
        (
          storable.check_trimmed,
          storable.probe_trimmed,
          storable.error_trimmed,
          trim-check_state_text s.last_outcome,
          trim-check_state_text s.state,
        )
        refl

  texts : AreComplete s.last_outcome s.state
  texts =
      complete_texts s.last_outcome s.state storable.outcome_observed storable.outcome_known
        storable.state_set

  abbrev saved : Time → CheckStateWrite
  saved now = check_state_write s.check_id s.probe_id (stored now s)

  accept-written : (now : Time) → accept_trimmed now written ≡ ok (saved now)
  unfolding set_times normalize_time check_state_write
  accept-written now = ground (
    arith,
    texts,
    storable.check_named,
    storable.probe_named,
    eq_iff s.check_id "",
    eq_iff s.probe_id "",
  )

  normalize-written : (now : Time) → normalize_check_state_write now written ≡ ok (saved now)
  unfolding normalize_check_state_write
  normalize-written now = ap (accept_trimmed now) trim-written ∙ accept-written now

  upsert_row-saved :
      (now : Time) (t : Tables)
      → any (λ (c : CheckRow). c.id == s.check_id) t.checks ≡ true
      → upsert_row (saved now) t ≡ (
        record t { check_probe_state = put_state (row_of (saved now)) t.check_probe_state },
        ok tt,
      )
  unfolding upsert_row check_state_write
  upsert_row-saved now t known = ground (arith, texts, storable.streak)

  upsert-written :
      (canonical : String → Option String) (now : Time) (t : Tables)
      → normalize_check_id canonical s.check_id ≡ ok s.check_id
      → any (λ (c : CheckRow). c.id == s.check_id) t.checks ≡ true
      → upsert_check_state canonical now written (record { tables = t; faults = [] }) ≡ (
        record {
          tables = record t {
            check_probe_state = put_state (row_of (saved now)) t.check_probe_state;
          };
          faults = [];
        },
        ok (saved now),
      )
  unfolding upsert_check_state exec check_state_write
  upsert-written canonical now t id known =
      rw (normalize-written now, id) (rw (upsert_row-saved now t known) refl)

  restored-saved : (now : Time) → persisted_check_exec_state (row_of (saved now)) ≡ stored now s
  unfolding persisted_check_exec_state check_state_write
  restored-saved now = rw (check_state_of-text s.last_outcome, check_state_of-text s.state) refl

  -- A state of an assignment whose texts are trimmed, whose IDs are not empty, whose outcome and state
  -- the schema admits and whose streak has 31 bits, of a check that the table has, is written when no
  -- statement fails by itself. The table then has, under the assignment's key, a row that recovery
  -- reads as that state, but for two times: where the state has no result, it is read with the
  -- time of the write as that of its last result, and where it has no deadline, with the time of its
  -- last result as its deadline. Under every other key the table has what it had.
  pub upsert-persisted_check_exec_state :
      (canonical : String → Option String) (now : Time) (t : Tables)
      → normalize_check_id canonical s.check_id ≡ ok s.check_id
      → any (λ (c : CheckRow). c.id == s.check_id) t.checks ≡ true
      → (row : PersistedCheckState) × (persisted_check_exec_state row ≡ stored now s)
        × (let after =
              upsert_check_state canonical now
                (check_state_write s.check_id s.probe_id s)
                (record { tables = t; faults = [] }) in
            (after.1 ≡ ok (check_state_write s.check_id s.probe_id (stored now s)))
            × ((check_id probe_id : String)
                → find (has_key check_id probe_id) after.0.tables.check_probe_state ≡ (
                    if s.check_id == check_id && s.probe_id == probe_id
                    then some row
                    else find (has_key check_id probe_id) t.check_probe_state)))
  upsert-persisted_check_exec_state canonical now t id known = (
    row_of (saved now),
    restored-saved now,
    (
      rw (upsert-written canonical now t id known) refl,
      λ i p.
          rw (upsert-written canonical now t id known) (
            unfold check_state_write in
            find-put_state i p (row_of (saved now)) t.check_probe_state),
    ),
  )
