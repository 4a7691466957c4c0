-- ===== src/Monitoring/ProbeSweep/Expiry.antt =====
-- One round of the probe sweep (internal/monitoring/sweepers.go): which probes expire, and what their
-- quorums lose.
use wacht.Shared.{
  Bool, String, ◌≡◌, ◌≢◌, ◌≤◌, ◌⊎◌, refl, ap, ◌∙◌, true, false, Option, none, some, [], ◌∷◌, arith,
  Option-cases, Bool-cases, inl, inr, All,
}
use wacht.Monitoring.ProbeSweep.{Bool, is_sweepable, sweep_probe}
use wacht.Shared.Time.{Time, Duration, add}
use wacht.Shared.Dict.{Dict, lookup, insert}
use wacht.Shared.Dict.Every.{All-lookup}
use wacht.Shared.Action.{Result, ok, err}
use wacht.Monitoring.Types.{ProbeState, Error}
use wacht.Monitoring.Stateless.{Stateless}
use wacht.Monitoring.ProbeMachine.{ProbeMachine}
use wacht.Monitoring.CheckMachine.{CheckMachine}
use wacht.Monitoring.CheckMachine.Assigned.{forgotten}
use wacht.Monitoring.QuorumMachine.{QuorumMachine, next_state}
use wacht.Monitoring.QuorumMachine.WellFormed.{IsChild}
use wacht.Monitoring.Runtime.{Runtime, degrade_quorum}
use wacht.Monitoring.Runtime.WellFormed.{IsWellFormed, IsQuorum}
use wacht.Monitoring.ProbeSweep.Effect.{sweep_probe-outcome, map_values}
use wacht.Monitoring.ProbeSweep.Silent.{degrade_quorum-without_evidence}

-- The probe is not offline, and the limit has passed since its last heartbeat.
abbrev pub IsExpired : Time → Duration → ProbeMachine → Type 0
IsExpired now offline_after probe =
    (at : Time) × (probe.last_heartbeat_at ≡ some at)
    × (probe.state ≢ ProbeState.offline)
    × (add at offline_after ≤ now)

-- The quorum with the child of the probe, if it has one, without evidence, and decided anew.
abbrev pub without_child : String → Option CheckMachine → QuorumMachine → QuorumMachine
without_child probe_id none q = q
without_child probe_id (some c) q = record q {
  checks = insert probe_id (forgotten c) q.checks;
  state = next_state (insert probe_id (forgotten c) q.checks) q.state;
}

abbrev pub without_vote : String → QuorumMachine → QuorumMachine
without_vote probe_id q = without_child probe_id (lookup probe_id q.checks) q

-- What a round makes of the runtime, and what it answers.
abbrev pub IsSwept : Time → Duration → String → Runtime → Runtime × Result Error Bool → Type 0
IsSwept now offline_after probe_id r after =
    ((lookup probe_id r.probes ≡ none) × (after ≡ (r, err Error.unknown_probe)))
    ⊎ ((probe : ProbeMachine) × (lookup probe_id r.probes ≡ some probe)
        × ((IsExpired now offline_after probe
              × (after ≡ (
                record {
                  probes = insert probe_id (record probe { state = ProbeState.offline }) r.probes;
                  quorums = map_values (without_vote probe_id) r.quorums;
                },
                ok true,
              )))
            ⊎ (¬ (IsExpired now offline_after probe) × (after ≡ (r, ok false)))))

is_sweepable-IsExpired :
    (now : Time) (offline_after : Duration) (probe : ProbeMachine)
    → is_sweepable now offline_after probe ≡ true
    → IsExpired now offline_after probe
unfolding is_sweepable
is_sweepable-IsExpired now offline_after probe h = elim (Option-cases probe.last_heartbeat_at) [
  | inl e ↦ absurd (ground arith)
  | inr (at, e) ↦ (at, e, ground arith, ground arith)
]

is_sweepable_not :
    (now : Time) (offline_after : Duration) (probe : ProbeMachine)
    → is_sweepable now offline_after probe ≡ false
    → ¬ (IsExpired now offline_after probe)
unfolding is_sweepable
is_sweepable_not now offline_after probe h x = ground (arith, x.1, x.2, x.3)

map_values-All :
    (P : String × QuorumMachine → Type 0) (f g : QuorumMachine → QuorumMachine)
    (m : Dict QuorumMachine)
    → ((id : String) (q : QuorumMachine) → P (id, q) → f q ≡ g q)
    → All P m
    → map_values f m ≡ map_values g m
map_values-All P f g [] same h = refl
map_values-All P f g ((id, q) ∷ m) same h = rw (same id q h.0, map_values-All P f g m same h.1) refl

module _ ⦃lib : Stateless⦄ where
  degrade_quorum-without_vote :
      (known : Dict ProbeMachine) (probe_id id : String) (q : QuorumMachine)
      → IsQuorum known (id, q)
      → (degrade_quorum probe_id ProbeState.offline "" q).0 ≡ without_vote probe_id q
  unfolding degrade_quorum
  degrade_quorum-without_vote known probe_id id q h =
      elim (Option-cases (lookup probe_id q.checks)) [
        | inl absent ↦ rw (absent, degrade_quorum) refl
        | inr (c, child) ↦
            let set = (All-lookup (IsChild known id) probe_id q.checks h.children child).0.set in
            rw child (degrade_quorum-without_evidence probe_id "" q c child set)
      ]

  -- In a well-formed runtime one round of the sweep fails exactly for an unknown probe, and then changes
  -- nothing. A probe expires exactly when it is not offline and has had a heartbeat since which the
  -- limit has passed. It is offline then, and in every quorum that it is assigned to its check has
  -- lost its outcome, its streak, its error and its expiry and is missing, and the aggregate
  -- state is decided anew. Otherwise nothing changes.
  pub sweep_probe-IsSwept :
      (now : Time) (offline_after : Duration) (probe_id : String) (r : Runtime)
      → IsWellFormed r
      → IsSwept now offline_after probe_id r (sweep_probe now offline_after probe_id r)
  sweep_probe-IsSwept now offline_after probe_id r h =
      let done = sweep_probe-outcome now offline_after probe_id r h in
      elim (Option-cases (lookup probe_id r.probes)) [
        | inl e ↦ inl (e, rw e at done)
        | inr (probe, e) ↦ inr (
          probe,
          e,
          elim (Bool-cases (is_sweepable now offline_after probe)) [
            | inl s ↦ inl (
              is_sweepable-IsExpired now offline_after probe s,
              (rw (e, s) at done)
                  ∙ ap
                      (λ (m : Dict QuorumMachine). (
                        record {
                          probes =
                              insert probe_id (record probe { state = ProbeState.offline })
                                r.probes;
                          quorums = m;
                        },
                        ok true,
                      ))
                      (map_values-All (IsQuorum r.probes)
                        (λ q. (degrade_quorum probe_id ProbeState.offline "" q).0)
                        (without_vote probe_id) r.quorums
                        (degrade_quorum-without_vote r.probes probe_id) h.quorums),
            )
            | inr s ↦ inr (is_sweepable_not now offline_after probe s, rw (e, s) at done)
          ],
        )
      ]
