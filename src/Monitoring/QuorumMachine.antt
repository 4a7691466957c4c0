-- ===== src/Monitoring/QuorumMachine.antt =====
-- internal/monitoring/quorum_machine.go: the aggregate state of one check, over the machines of the
-- probes that report on it.
pub mod Votes
pub mod Incidents
pub mod WellFormed
use wacht.Shared.{
  ℕ, ◌+◌, ◌/◌, String, Bool, true, false, not, ◌&&◌, ◌||◌, Option, none, some, List, [], ◌∷◌,
  length, ltb, leb, if◌then◌else◌,
}
use wacht.Shared.Dict.{Dict, lookup, insert}
use wacht.Shared.Action.{ok, err, Action, ◌>>=◌}
use wacht.Monitoring.Types.{
  Time, is_zero, CheckState, QuorumState, CheckExecState, CheckQuorumState, CheckTransition,
  QuorumTransition, CheckUpdate, Error, same_quorum_state, new_check_quorum_state,
}
use wacht.Monitoring.Stateless.{Stateless}
use wacht.Monitoring.CheckMachine
use wacht.Monitoring.CheckMachine.{CheckMachine, consecutive_evidence_threshold, new_check_machine}
use wacht.Monitoring.Ids.{unique_ids}

pub record QuorumMachine : Type 0 where
  pub state : CheckQuorumState
  pub checks : Dict CheckMachine

-- The loop of `NewQuorumMachine` over the unique probe IDs.
unfoldable pub new_children : String → List String → Dict CheckMachine → Dict CheckMachine
new_children check_id [] m = m
new_children check_id (probe_id ∷ ids) m =
    new_children check_id ids (insert probe_id (new_check_machine check_id probe_id) m)

unfoldable pub new_quorum_machine : String → List String → QuorumMachine
unfolding new_check_quorum_state new_children unique_ids
new_quorum_machine check_id probe_ids = record {
  state = new_check_quorum_state check_id;
  checks = new_children check_id (unique_ids probe_ids) [];
}

-- The `switch` on `check.LastOutcome`.
abbrev pub vote : CheckState → CheckExecState → CheckQuorumState → CheckState
vote CheckState.down check current =
    if leb consecutive_evidence_threshold check.streak_len
    then CheckState.down
    else CheckState.missing
vote CheckState.up check current =
    if current.incident_open && ltb check.streak_len consecutive_evidence_threshold
    then CheckState.missing
    else if not (is_zero check.last_result_at)
    then CheckState.up
    else CheckState.missing
vote _ check current = CheckState.missing

unfoldable pub quorum_contribution : CheckExecState → CheckQuorumState → CheckState
quorum_contribution check current = vote check.last_outcome check current

unfoldable pub quorum_threshold : ℕ → ℕ
quorum_threshold total_assigned = total_assigned / 2 + 1

unfoldable pub is_stable_quorum_state : QuorumState → Bool
is_stable_quorum_state state =
    same_quorum_state state QuorumState.up || same_quorum_state state QuorumState.down

-- Votes for up and for down.
pub record Tally : Type 0 where
  pub up_votes : ℕ
  pub down_votes : ℕ

abbrev pub add_vote : CheckState → Tally → Tally
add_vote CheckState.up t = record t { up_votes = t.up_votes + 1 }
add_vote CheckState.down t = record t { down_votes = t.down_votes + 1 }
add_vote _ t = t

-- The loop over the children.
unfoldable pub tally : CheckQuorumState → Dict CheckMachine → Tally → Tally
unfolding quorum_contribution
tally current [] t = t
tally current ((probe_id, check) ∷ m) t =
    tally current m (add_vote (quorum_contribution check current) t)

-- `next.State`.
unfoldable pub decide_state : Tally → ℕ → QuorumState → QuorumState
unfolding quorum_threshold
decide_state t total last_stable =
    let required = quorum_threshold total in
    if ltb 0 total && leb required t.up_votes
    then QuorumState.up
    else if ltb 0 total && leb required t.down_votes
    then QuorumState.down
    else if same_quorum_state last_stable QuorumState.unset
    then QuorumState.pending
    else QuorumState.error

-- `next.LastStableState`.
unfoldable pub promote : CheckQuorumState → QuorumState → QuorumState
unfolding is_stable_quorum_state
promote current next =
    if is_stable_quorum_state next
      && (same_quorum_state current.last_stable_state next || same_quorum_state current.state next)
    then next
    else current.last_stable_state

-- `next.IncidentOpen`.
unfoldable pub incident_after : CheckQuorumState → QuorumState → Bool
incident_after current last_stable =
    if same_quorum_state current.last_stable_state QuorumState.up
      && same_quorum_state last_stable QuorumState.down
    then true
    else if same_quorum_state current.last_stable_state QuorumState.down
        && same_quorum_state last_stable QuorumState.up
    then false
    else current.incident_open

unfoldable pub next_state : Dict CheckMachine → CheckQuorumState → CheckQuorumState
unfolding tally decide_state promote incident_after
next_state checks current =
    let votes = tally current checks (record { up_votes = 0; down_votes = 0 }) in
    let next = decide_state votes (length checks) current.last_stable_state in
    let last_stable = promote current next in
    record current {
      state = next;
      last_stable_state = last_stable;
      incident_open = incident_after current last_stable;
    }

unfoldable pub recompute : QuorumMachine → QuorumMachine × QuorumTransition
unfolding next_state
recompute m =
    let next = next_state m.checks m.state in
    (
      record m { state = next },
      record {
        from_state = m.state.state;
        to_state = next.state;
        last_stable_state = next.last_stable_state;
      },
    )

unfoldable pub check_snapshot : String → QuorumMachine → Option CheckExecState
check_snapshot probe_id m = lookup probe_id m.checks

unfoldable pub add_probe : String → QuorumMachine → QuorumMachine × CheckExecState
unfolding recompute
add_probe probe_id m = elim (lookup probe_id m.checks) [
  | some check ↦ (m, check)
  | none ↦
      let check = new_check_machine m.state.check_id probe_id in
      ((recompute (record m { checks = insert probe_id check m.checks })).0, check)
]

-- Routes a call to the child of the probe, which is changed in place.
unfoldable pub on_child :
    {A : Type 0} → String → Action CheckMachine Error A → Action QuorumMachine Error A
on_child probe_id act m = elim (lookup probe_id m.checks) [
  | none ↦ (m, err Error.unknown_check_assignment)
  | some check ↦ let r = act check in (record m { checks = insert probe_id r.0 m.checks }, r.1)
]

unfoldable pub updated : CheckTransition → Action QuorumMachine Error CheckUpdate
unfolding recompute
updated transition m =
    let r = recompute m in
    (
      r.0,
      ok (record { check_transition = transition; quorum_transition = r.1; quorum = r.0.state }),
    )

module _ ⦃lib : Stateless⦄ where
  unfoldable pub observe_up : String → Time → Option Time → Action QuorumMachine Error CheckUpdate
  unfolding on_child updated
  observe_up probe_id at expires_at = do
    transition ← on_child probe_id (CheckMachine.observe_up at expires_at)
    updated transition

  unfoldable pub observe_down :
      String → Time → Option Time → String → Action QuorumMachine Error CheckUpdate
  unfolding on_child updated
  observe_down probe_id at expires_at message = do
    transition ← on_child probe_id (CheckMachine.observe_down at expires_at message)
    updated transition

  unfoldable pub lose_evidence : String → Action QuorumMachine Error CheckUpdate
  unfolding on_child updated
  lose_evidence probe_id = do
    transition ← on_child probe_id CheckMachine.lose_evidence
    updated transition

  unfoldable pub mark_check_error : String → String → Action QuorumMachine Error CheckUpdate
  unfolding on_child updated
  mark_check_error probe_id message = do
    transition ← on_child probe_id (CheckMachine.mark_error message)
    updated transition
