-- ===== src/Monitoring/Runtime.antt =====
-- internal/monitoring/runtime.go: the probes and quorums that the server knows of. Each method holds
-- the lock `mu` from its first statement to its last, so it is one step on a `Runtime`.
pub mod WellFormed
pub mod Methods
pub mod Degradation
use wacht.Shared.{String, Option, none, some, List, [], ◌∷◌, map, ◌==◌, if◌then◌else◌}
use wacht.Shared.Dict.{Dict, lookup, insert, delete, keys}
use wacht.Shared.Text.{sort_strings}
use wacht.Shared.Action.{Result, ok, err, Action, ◌>>=◌, ◌>>◌, pure}
use wacht.Monitoring.Types.{
  Time, ProbeState, CheckQuorumState, CheckExecState, ProbeRuntimeState, ProbeTransition,
  CheckUpdate, Error, new_check_quorum_state,
}
use wacht.Monitoring.Stateless.{Stateless}
use wacht.Monitoring.ProbeMachine
use wacht.Monitoring.ProbeMachine.{ProbeMachine, new_probe_machine}
use wacht.Monitoring.QuorumMachine
use wacht.Monitoring.QuorumMachine.{QuorumMachine, new_quorum_machine, recompute}
use wacht.Monitoring.Ids.{unique_ids}

pub record Runtime : Type 0 where
  pub probes : Dict ProbeMachine
  pub quorums : Dict QuorumMachine

-- A new probe's entry, `none` for the empty ID, which the source answers with a zero value.
unfoldable pub add_probe : String → Runtime → Runtime × Option ProbeRuntimeState
add_probe probe_id r = if probe_id == "" then (r, none) else elim (lookup probe_id r.probes) [
  | some probe ↦ (r, some probe)
  | none ↦
      let probe = new_probe_machine probe_id in
      (record r { probes = insert probe_id probe r.probes }, some probe)
]

new_quorums : List String → Dict QuorumMachine → Dict QuorumMachine
new_quorums [] m = m
new_quorums (check_id ∷ ids) m =
    new_quorums ids (insert check_id (new_quorum_machine check_id []) m)

add_probes : List String → Runtime → Runtime
add_probes [] r = r
add_probes (probe_id ∷ ids) r = add_probes ids (add_probe probe_id r).0

unfoldable pub new_runtime : List String → List String → Runtime
unfolding new_quorums add_probes unique_ids
new_runtime check_ids probe_ids =
    add_probes (unique_ids probe_ids)
      (record { probes = []; quorums = new_quorums (unique_ids check_ids) [] })

-- Routes a call to the machine of a probe or of a check, which is changed in place.
unfoldable pub on_probe :
    {A : Type 0} → String → Action ProbeMachine Error A → Action Runtime Error A
on_probe probe_id act r = elim (lookup probe_id r.probes) [
  | none ↦ (r, err Error.unknown_probe)
  | some probe ↦ let p = act probe in (record r { probes = insert probe_id p.0 r.probes }, p.1)
]

unfoldable pub on_quorum :
    {A : Type 0} → String → Action QuorumMachine Error A → Action Runtime Error A
on_quorum check_id act r = elim (lookup check_id r.quorums) [
  | none ↦ (r, err Error.unknown_check)
  | some quorum ↦ let q = act quorum in (record r { quorums = insert check_id q.0 r.quorums }, q.1)
]

unfoldable pub probe_snapshot : String → Runtime → Result Error ProbeRuntimeState
probe_snapshot probe_id r = elim (lookup probe_id r.probes) [
  | none ↦ err Error.unknown_probe
  | some probe ↦ ok probe
]

unfoldable pub check_snapshot : String → String → Runtime → Result Error CheckExecState
check_snapshot check_id probe_id r = elim (lookup check_id r.quorums) [
  | none ↦ err Error.unknown_check
  | some quorum ↦ elim (QuorumMachine.check_snapshot probe_id quorum) [
    | none ↦ err Error.unknown_check_assignment
    | some check ↦ ok check
  ]
]

unfoldable pub quorum_snapshot : String → Runtime → Result Error CheckQuorumState
quorum_snapshot check_id r = elim (lookup check_id r.quorums) [
  | none ↦ err Error.unknown_check
  | some quorum ↦ ok quorum.state
]

-- `ensureQuorumLocked` of result.go.
unfoldable pub ensure_quorum : String → Runtime → Runtime × QuorumMachine
ensure_quorum check_id r = elim (lookup check_id r.quorums) [
  | some quorum ↦ (r, quorum)
  | none ↦
      let quorum = new_quorum_machine check_id [] in
      (record r { quorums = insert check_id quorum r.quorums }, quorum)
]

unfoldable pub ensure_check : String → Runtime → Runtime × CheckQuorumState
unfolding ensure_quorum
ensure_check check_id r = let e = ensure_quorum check_id r in (e.0, e.1.state)

unfoldable pub remove_check : String → Runtime → Runtime
remove_check check_id r = record r { quorums = delete check_id r.quorums }

snapshot_or_pending : Runtime → String → CheckQuorumState
snapshot_or_pending r check_id = elim (lookup check_id r.quorums) [
  | none ↦ new_check_quorum_state check_id
  | some quorum ↦ quorum.state
]

unfoldable pub quorum_snapshots : List String → Runtime → List CheckQuorumState
unfolding snapshot_or_pending unique_ids
quorum_snapshots check_ids r = map (snapshot_or_pending r) (unique_ids check_ids)

-- r.probes[probeID].Snapshot(), for the IDs that the map holds.
probes_at : Dict ProbeMachine → List String → List ProbeRuntimeState
probes_at probes [] = []
probes_at probes (probe_id ∷ ids) =
    let rest = probes_at probes ids in
    elim (lookup probe_id probes) [ none ↦ rest | some probe ↦ probe ∷ rest ]

unfoldable pub probe_snapshots : Runtime → List ProbeRuntimeState
unfolding probes_at
probe_snapshots r = probes_at r.probes (sort_strings (keys r.probes))

unfoldable pub recompute_check : String → Action Runtime Error CheckQuorumState
unfolding on_quorum
recompute_check check_id = on_quorum check_id (λ q. let q' = (recompute q).0 in (q', ok q'.state))

-- The loop over the quorums of `applyProbeDegradationLocked` (heartbeat.go), up to the first error.
unfoldable pub each_quorum :
    Action QuorumMachine Error (Unit {0}) → Action (Dict QuorumMachine) Error (Unit {0})
each_quorum act [] = ([], ok tt)
each_quorum act ((check_id, quorum) ∷ m) =
    let q = act quorum in
    let rest = each_quorum act m in
    elim q.1 [ err e ↦ ((check_id, q.0) ∷ m, err e) | ok _ ↦ ((check_id, q.0) ∷ rest.0, rest.1) ]

module _ ⦃lib : Stateless⦄ where
  -- The `switch` on the probe's new state.
  degrade_child : ProbeState → String → String → Action QuorumMachine Error (Unit {0})
  degrade_child ProbeState.offline probe_id message = do
    QuorumMachine.lose_evidence probe_id
    pure tt
  degrade_child ProbeState.error probe_id message = do
    QuorumMachine.mark_check_error probe_id message
    pure tt
  degrade_child ProbeState.online probe_id message = pure tt

  unfoldable pub degrade_quorum :
      String → ProbeState → String → Action QuorumMachine Error (Unit {0})
  unfolding degrade_child
  degrade_quorum probe_id state message q = elim (lookup probe_id q.checks) [
    | none ↦ (q, ok tt)
    | some check ↦ degrade_child state probe_id message q
  ]

  unfoldable pub apply_probe_degradation :
      String → ProbeState → String → Action Runtime Error (Unit {0})
  unfolding each_quorum degrade_quorum
  apply_probe_degradation probe_id state message r =
      let p = each_quorum (degrade_quorum probe_id state message) r.quorums in
      (record r { quorums = p.0 }, p.1)

  unfoldable pub receive_heartbeat : String → Time → Action Runtime Error ProbeTransition
  unfolding on_probe
  receive_heartbeat probe_id at = on_probe probe_id (ProbeMachine.receive_heartbeat at)

  unfoldable pub expire_heartbeat : String → Action Runtime Error ProbeTransition
  unfolding on_probe apply_probe_degradation
  expire_heartbeat probe_id = do
    transition ← on_probe probe_id ProbeMachine.expire_heartbeat
    apply_probe_degradation probe_id ProbeState.offline ""
    pure transition

  unfoldable pub mark_probe_error : String → String → Action Runtime Error ProbeTransition
  unfolding on_probe apply_probe_degradation
  mark_probe_error probe_id message = do
    transition ← on_probe probe_id (ProbeMachine.mark_error message)
    apply_probe_degradation probe_id ProbeState.error message
    pure transition

  -- `quorum.AddProbe(probeID)` and then the observation, for a known probe and a known check.
  observe_check :
      String → String → Action QuorumMachine Error CheckUpdate → Action Runtime Error CheckUpdate
  unfolding on_quorum
  observe_check check_id probe_id act r = elim (lookup probe_id r.probes) [
    | none ↦ (r, err Error.unknown_probe)
    | some probe ↦ on_quorum check_id (λ q. act (QuorumMachine.add_probe probe_id q).0) r
  ]

  unfoldable pub observe_check_up :
      String → String → Time → Option Time → Action Runtime Error CheckUpdate
  unfolding observe_check
  observe_check_up check_id probe_id at expires_at =
      observe_check check_id probe_id (QuorumMachine.observe_up probe_id at expires_at)

  unfoldable pub observe_check_down :
      String → String → Time → Option Time → String → Action Runtime Error CheckUpdate
  unfolding observe_check
  observe_check_down check_id probe_id at expires_at message =
      observe_check check_id probe_id (QuorumMachine.observe_down probe_id at expires_at message)

  unfoldable pub lose_check_evidence : String → String → Action Runtime Error CheckUpdate
  unfolding on_quorum
  lose_check_evidence check_id probe_id = on_quorum check_id (QuorumMachine.lose_evidence probe_id)

  unfoldable pub mark_check_error : String → String → String → Action Runtime Error CheckUpdate
  unfolding on_quorum
  mark_check_error check_id probe_id message =
      on_quorum check_id (QuorumMachine.mark_check_error probe_id message)
