-- ===== src/Monitoring/Recovery.antt =====
-- internal/monitoring/recovery.go: the runtime that a server starts with.
pub mod Restored
use wacht.Shared.{Option, String, true, none, some, List, [], ◌∷◌, map, if◌then◌else◌}
use wacht.Shared.Dict.{Dict, lookup, insert}
use wacht.Shared.Action.{Result, ok, err, Action, ◌>>=◌}
use wacht.Checks.{Check}
use wacht.Store.Writes.{PersistedProbeState, PersistedCheckState, MonitoringStore}
use wacht.Monitoring.Types.{
  Time, ProbeState, QuorumState, CheckExecState, Error, check_state_of, new_check_quorum_state,
}
use wacht.Monitoring.Stateless.{Stateless}
use wacht.Monitoring.ProbeMachine.{ProbeMachine}
use wacht.Monitoring.QuorumMachine
use wacht.Monitoring.QuorumMachine.{QuorumMachine, recompute}
use wacht.Monitoring.Ids.{contains}
use wacht.Monitoring.Runtime.{Runtime, new_runtime, apply_probe_degradation}

unfoldable pub persisted_check_exec_state : PersistedCheckState → CheckExecState
persisted_check_exec_state state = record {
  check_id = state.check_id;
  probe_id = state.probe_id;
  last_result_at = state.last_result_at;
  last_outcome = check_state_of state.last_outcome;
  streak_len = state.streak_len;
  expires_at = state.expires_at;
  state = check_state_of state.state;
  last_error = state.last_error;
}

-- `quorum.AddProbe`, and the persisted state for the child.
restore_child : PersistedCheckState → QuorumMachine → QuorumMachine
unfolding persisted_check_exec_state
restore_child state q =
    let added = (QuorumMachine.add_probe state.probe_id q).0 in
    record added { checks = insert state.probe_id (persisted_check_exec_state state) added.checks }

-- One round of the loop over the persisted check states.
unfoldable pub restore_check_state : PersistedCheckState → Runtime → Runtime
unfolding restore_child
restore_check_state state r = elim (lookup state.check_id r.quorums) [
  | none ↦ r
  | some q ↦ elim (lookup state.probe_id r.probes) [
    | none ↦ r
    | some _ ↦ record r { quorums = insert state.check_id (restore_child state q) r.quorums }
  ]
]

unfoldable pub restore_check_states : List PersistedCheckState → Runtime → Runtime
unfolding restore_check_state
restore_check_states [] r = r
restore_check_states (state ∷ states) r = restore_check_states states (restore_check_state state r)

-- One round of the loop over the persisted probe states.
unfoldable pub restore_probe : PersistedProbeState → Runtime → Runtime
restore_probe state r = elim (lookup state.probe_id r.probes) [
  | none ↦ r
  | some probe ↦ elim state.last_seen_at [
    | none ↦ r
    | some at ↦ record r {
      probes =
          insert state.probe_id
            (record probe {
              state = ProbeState.online;
              last_heartbeat_at = some at;
              last_error = "";
            })
            r.probes;
    }
  ]
]

unfoldable pub restore_probes : List PersistedProbeState → Runtime → Runtime
unfolding restore_probe
restore_probes [] r = r
restore_probes (state ∷ states) r = restore_probes states (restore_probe state r)

-- One round of the loop over the quorums at the end.
unfoldable pub restart_quorum : List String → String → QuorumMachine → QuorumMachine
unfolding contains
restart_quorum open_ids check_id q =
    let fresh = new_check_quorum_state check_id in
    let state =
      if contains check_id open_ids
      then (record fresh {
        state = QuorumState.down;
        last_stable_state = QuorumState.down;
        incident_open = true;
      })
      else fresh in
    (recompute (record q { state = state })).0

unfoldable pub restart_quorums : List String → Dict QuorumMachine → Dict QuorumMachine
unfolding restart_quorum
restart_quorums open_ids [] = []
restart_quorums open_ids ((check_id, q) ∷ m) =
    (check_id, restart_quorum open_ids check_id q) ∷ restart_quorums open_ids m

module _ ⦃lib : Stateless⦄ where
  -- One round of the loop over the probes: a probe that was never seen loses its votes.
  unfoldable pub drop_one : Option Time → String → Action Runtime Error (Unit {0})
  drop_one (some at) probe_id r = (r, ok tt)
  drop_one none probe_id r = apply_probe_degradation probe_id ProbeState.offline "" r

  unfoldable pub drop_unseen : Dict ProbeMachine → Action Runtime Error (Unit {0})
  drop_unseen [] r = (r, ok tt)
  drop_unseen ((probe_id, probe) ∷ m) r =
      let step = drop_one probe.last_heartbeat_at probe_id r in
      elim step.1 [ err e ↦ (step.0, err e) | ok _ ↦ drop_unseen m step.0 ]

  finish : List String → Runtime × Result Error (Unit {0}) → Result Error Runtime
  finish open_ids (r, err e) = err e
  finish open_ids (r, ok _) = ok (record r { quorums = restart_quorums open_ids r.quorums })

  -- `LoadRuntime` after its four queries.
  unfoldable pub build_runtime :
      List Check
      → List PersistedProbeState
      → List PersistedCheckState
      → List String
      → Result Error Runtime
  unfolding finish drop_unseen restore_check_states restore_probes restart_quorums
  build_runtime checks probes states open_ids =
      let r = restore_probes probes (
        restore_check_states states
          (new_runtime (map (λ c. c.id) checks) (map (λ p. p.probe_id) probes))) in
      finish open_ids (drop_unseen r.probes r)

  -- `fmt.Errorf("...: %w", err)` around an error of a query.
  describe : {S A : Type 0} → String → Action S Error A → Action S Error A
  describe message query s =
      let r = query s in
      elim r.1 [ ok a ↦ (r.0, ok a) | err e ↦ (r.0, err (Error.wrapped message e)) ]

  unfoldable pub load_runtime : {S : Type 0} → MonitoringStore S Error → Action S Error Runtime
  unfolding describe
  load_runtime src = do
    checks ← describe "list checks" src.list_all_checks
    probes ← describe "list active probes" src.recoverable_probe_states
    states ← describe "list persisted check states" src.persisted_check_states
    open_ids ← describe "list open incidents" src.open_incident_check_ids
    λ s. (s, build_runtime checks probes states open_ids)
