-- ===== src/Store/CheckStates.antt =====
-- internal/store/monitoring.go: the state of an assignment, as a write and as a row. `canonical` is
-- uuid.Parse of github.com/google/uuid followed by String, and `now` the time that the clock shows
-- during a call.
use wacht.Shared.{
  ◌^◌, String, Bool, not, ◌&&◌, ◌||◌, Option, List, [], ◌∷◌, ◌==◌, ltb, if◌then◌else◌,
}
use wacht.Shared.Rows.{any}
use wacht.Shared.Text.{trim_space}
use wacht.Shared.Time.{Time, is_zero}
use wacht.Shared.Action.{Result, ok, err, Action, ◌>>=◌, ◌>>◌, pure}
use wacht.Monitoring.Types.{Error}
use wacht.Store.Writes.{CheckStateWrite, PersistedCheckState}
use wacht.Store.Tables.{Tables, CheckRow}
use wacht.Store.Connection.{Connection, exec}
use wacht.Store.CheckId.{normalize_check_id}

abbrev pub invalid_check_state_write : Error
invalid_check_state_write = Error.external "store: invalid monitoring check state write"

unfoldable pub normalize_time : Time → Time → Time
normalize_time now t = if is_zero t then now else t

abbrev pub trim_check_state : CheckStateWrite → CheckStateWrite
trim_check_state w = record w {
  check_id = trim_space w.check_id;
  probe_id = trim_space w.probe_id;
  last_outcome = trim_space w.last_outcome;
  state = trim_space w.state;
  last_error = trim_space w.last_error;
}

-- The two conditions that refuse a trimmed write; a streak is not negative here.
abbrev pub is_incomplete : CheckStateWrite → Bool
is_incomplete w =
    w.check_id == ""
    || w.probe_id == ""
    || w.state == ""
    || (w.last_outcome == "" && not (w.state == "missing"))

unfoldable pub set_times : Time → CheckStateWrite → CheckStateWrite
unfolding normalize_time
set_times now w =
    let at = normalize_time now w.last_result_at in
    record w { last_result_at = at; expires_at = if is_zero w.expires_at then at else w.expires_at }

abbrev pub accept_trimmed : Time → CheckStateWrite → Result Error CheckStateWrite
accept_trimmed now trimmed =
    if is_incomplete trimmed then err invalid_check_state_write else ok (set_times now trimmed)

unfoldable pub normalize_check_state_write : Time → CheckStateWrite → Result Error CheckStateWrite
unfolding set_times
normalize_check_state_write now w =
    let trimmed = trim_check_state w in
    if is_incomplete trimmed then err invalid_check_state_write else ok (set_times now trimmed)

-- The key of check_probe_state.
abbrev pub same_key : PersistedCheckState → PersistedCheckState → Bool
same_key s u = s.check_id == u.check_id && s.probe_id == u.probe_id

-- INSERT ... ON CONFLICT (check_id, probe_id) DO UPDATE
unfoldable pub put_state : PersistedCheckState → List PersistedCheckState → List PersistedCheckState
put_state new [] = new ∷ []
put_state new (s ∷ ss) =
    let rest = put_state new ss in if same_key s new then new ∷ ss else s ∷ rest

-- The constraints check_probe_state_last_outcome_check and check_probe_state_state_check.
abbrev pub is_outcome_text : String → Bool
is_outcome_text s = s == "" || s == "up" || s == "down" || s == "error"

abbrev pub is_state_text : String → Bool
is_state_text s = s == "up" || s == "down" || s == "missing" || s == "error"

abbrev pub row_of : CheckStateWrite → PersistedCheckState
row_of w = record {
  check_id = w.check_id;
  probe_id = w.probe_id;
  last_result_at = w.last_result_at;
  last_outcome = w.last_outcome;
  streak_len = w.streak_len;
  expires_at = w.expires_at;
  state = w.state;
  last_error = w.last_error;
}

unfoldable pub upsert_row : CheckStateWrite → Action Tables Error (Unit {0})
unfolding put_state
upsert_row w t =
    if not (ltb w.streak_len (2 ^ 31))
    then (t, err (Error.external "integer out of range"))
    else if not (is_outcome_text w.last_outcome && is_state_text w.state)
    then (t, err (Error.external "new row violates check constraint"))
    else if not (any (λ (c : CheckRow). c.id == w.check_id) t.checks)
    then (t, err (Error.external "insert or update violates foreign key constraint"))
    else (record t { check_probe_state = put_state (row_of w) t.check_probe_state }, ok tt)

-- The two checks at the start of upsertCheckStateTx.
abbrev pub with_check_id : CheckStateWrite → Result Error String → Result Error CheckStateWrite
with_check_id w (err e) = err invalid_check_state_write
with_check_id w (ok id) = ok (record w { check_id = id })

abbrev pub identified :
    (String → Option String) → Result Error CheckStateWrite → Result Error CheckStateWrite
identified canonical (err e) = err e
identified canonical (ok w) = with_check_id w (normalize_check_id canonical w.check_id)

abbrev pub upsert_prepared : Result Error CheckStateWrite → Action Connection Error CheckStateWrite
upsert_prepared (err e) c = (c, err e)
upsert_prepared (ok w) c = (exec (upsert_row w) >> pure w) c

unfoldable pub upsert_check_state :
    (String → Option String) → Time → CheckStateWrite → Action Connection Error CheckStateWrite
unfolding normalize_check_state_write normalize_check_id upsert_row
upsert_check_state canonical now w =
    upsert_prepared (identified canonical (normalize_check_state_write now w))

unfoldable pub upsert_check_states :
    (String → Option String)
    → Time
    → List CheckStateWrite
    → Action Connection Error (List CheckStateWrite)
unfolding upsert_check_state
upsert_check_states canonical now [] = pure []
upsert_check_states canonical now (w ∷ ws) = do
  saved ← upsert_check_state canonical now w
  rest ← upsert_check_states canonical now ws
  pure (saved ∷ rest)
