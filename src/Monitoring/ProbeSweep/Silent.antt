-- ===== src/Monitoring/ProbeSweep/Silent.antt =====
-- One round of the probe sweep (internal/monitoring/sweepers.go) and what a later result of a
-- check writes.
use wacht.Shared.{◌*◌, ◌<◌, String, ◌≡◌, ◌≢◌, true, some, arith, length, inl, inr, List, All}
use wacht.Shared.Time.{Time, Duration}
use wacht.Shared.Dict.{Dict, lookup, insert}
use wacht.Shared.Dict.Every.{All-lookup}
use wacht.Shared.Action.{Result, Result-cases}
use wacht.Checks.{Check}
use wacht.Alert.Payload.{AlertPayload}
use wacht.Store.Writes.{MonitoringWrite}
use wacht.Monitoring.Types.{CheckState, QuorumState, ProbeState, Error}
use wacht.Monitoring.Stateless.{Stateless}
use wacht.Monitoring.ProbeMachine.{ProbeMachine}
use wacht.Monitoring.CheckMachine
use wacht.Monitoring.CheckMachine.{CheckMachine}
use wacht.Monitoring.CheckMachine.Assigned.{
  forgotten, lose_evidence-forgotten, lose_evidence_accepted,
}
use wacht.Monitoring.QuorumMachine
use wacht.Monitoring.QuorumMachine.{QuorumMachine, next_state}
use wacht.Monitoring.QuorumMachine.Votes.{votes, next_state-Majority}
use wacht.Monitoring.QuorumMachine.WellFormed.{IsChild}
use wacht.Monitoring.Runtime.{Runtime, degrade_quorum}
use wacht.Monitoring.Runtime.WellFormed.{IsWellFormed, lookup-IsQuorum}
use wacht.Monitoring.Result.Down.{StaysDown, StaysDown-silent}
use wacht.Monitoring.ProbeSweep.{is_sweepable, sweep_probe}
use wacht.Monitoring.ProbeSweep.Effect.{sweep_probe-outcome, lookup-map_values}

-- The children without the evidence of one probe.
abbrev pub without_evidence : String → CheckMachine → QuorumMachine → Dict CheckMachine
without_evidence probe_id c q = insert probe_id (forgotten c) q.checks

module _ ⦃lib : Stateless⦄ where
  pub degrade_quorum-without_evidence :
      (probe_id message : String) (q : QuorumMachine) (c : CheckMachine)
      → lookup probe_id q.checks ≡ some c
      → c.state ≢ CheckState.unset
      → (degrade_quorum probe_id ProbeState.offline message q).0 ≡ record q {
        checks = without_evidence probe_id c q;
        state = next_state (without_evidence probe_id c q) q.state;
      }
  unfolding degrade_quorum QuorumMachine.lose_evidence
  degrade_quorum-without_evidence probe_id message q c at set =
      elim (Result-cases (CheckMachine.lose_evidence c).1) [
        | inl (t, e) ↦ ground (arith, lose_evidence-forgotten c set)
        | inr (x, e) ↦ absurd (lose_evidence_accepted c set x e)
      ]

  -- In a well-formed runtime, let a check be stable up with the state down, and let the down majority
  -- not need the vote of a probe whose heartbeat is too old. Then the sweep of that probe makes down
  -- the check's stable state and opens its incident in memory; and from then on, as long as the
  -- stable state of the check is down, whatever else happens to the runtime, no accepted result of the
  -- check writes an incident.
  pub sweep_probe_silent :
      (now : Time) (offline_after : Duration) (probe_id : String) (check : Check) (r : Runtime)
      (probe : ProbeMachine) (q : QuorumMachine) (c : CheckMachine)
      → IsWellFormed r
      → lookup probe_id r.probes ≡ some probe
      → is_sweepable now offline_after probe ≡ true
      → lookup check.id r.quorums ≡ some q
      → lookup probe_id q.checks ≡ some c
      → q.state.last_stable_state ≡ QuorumState.up
      → q.state.state ≡ QuorumState.down
      → (let m = without_evidence probe_id c q in length m < 2 * votes CheckState.down q.state m)
      → (marshal : AlertPayload → Result Error String) (after : Runtime)
        (writes : List MonitoringWrite)
      → StaysDown marshal check (sweep_probe now offline_after probe_id r).0 after writes
      → (q' : QuorumMachine) × (lookup check.id (sweep_probe now offline_after probe_id r).0.quorums
          ≡ some q')
        × (q'.state.last_stable_state ≡ QuorumState.down)
        × (q'.state.incident_open ≡ true)
        × All (λ (w : MonitoringWrite). w.incident_check_id ≡ "") writes
  unfolding next_state
  sweep_probe_silent now offline_after probe_id check r probe q c h known due here child up down
        majority marshal after writes path =
      let act = λ (k : QuorumMachine). (degrade_quorum probe_id ProbeState.offline "" k).0 in
      let set =
        (All-lookup (IsChild r.probes check.id) probe_id q.checks
          (lookup-IsQuorum check.id r h here).children child).0.set in
      let m = without_evidence probe_id c q in
      let shape = degrade_quorum-without_evidence probe_id "" q c child set in
      let decided = (next_state-Majority q.state m).down_iff.1 majority in
      let at : lookup check.id (sweep_probe now offline_after probe_id r).0.quorums ≡ some (act q) =
        ground (
          arith,
          sweep_probe-outcome now offline_after probe_id r h,
          lookup-map_values act check.id r.quorums here,
        ) in
      let stable : (act q).state.last_stable_state ≡ QuorumState.down =
        ground (arith, shape, decided) in
      (
        act q,
        at,
        stable,
        ground (arith, shape, decided),
        (StaysDown-silent marshal check (sweep_probe now offline_after probe_id r).0
            (act q, at, stable) path).1,
      )
