-- ===== src/Monitoring/ProbeSweep/Effect.antt =====
-- One round of the probe sweep (internal/monitoring/sweepers.go) and the runtime.
use wacht.Shared.{
  String, ◌≡◌, ◌≢◌, refl, ap, Bool, true, false, Option, none, some, [], ◌∷◌, arith, Option-cases,
  Bool-cases, inl, inr, ◌==◌, if◌then◌else◌,
}
use wacht.Shared.Time.{Time, Duration}
use wacht.Shared.Dict.{Dict, lookup, insert}
use wacht.Shared.Action.{Action, Result, Result-cases, ok, err}
use wacht.Monitoring.Types.{ProbeState, ProbeTrigger, Error}
use wacht.Monitoring.Stateless.{Stateless}
use wacht.Monitoring.ProbeMachine
use wacht.Monitoring.ProbeMachine.{ProbeMachine}
use wacht.Monitoring.ProbeMachine.Fire.{fire-probe_configuration}
use wacht.Monitoring.QuorumMachine.{QuorumMachine}
use wacht.Monitoring.Runtime.{Runtime, each_quorum, degrade_quorum, apply_probe_degradation}
use wacht.Monitoring.Runtime.WellFormed.{IsWellFormed, put_probe-IsWellFormed}
use wacht.Monitoring.Runtime.Degradation.{apply_probe_degradation_accepted}
use wacht.Monitoring.ProbeSweep.{is_sweepable, sweep_probe}

-- A map with each value changed.
abbrev pub map_values {ℓ} : {V : Type ℓ} → (V → V) → Dict V → Dict V
map_values f [] = []
map_values f ((k, v) ∷ m) = (k, f v) ∷ map_values f m

pub lookup-map_values {ℓ} :
    {V : Type ℓ} (f : V → V) (k : String) (m : Dict V) {v : V}
    → lookup k m ≡ some v
    → lookup k (map_values f m) ≡ some (f v)
unfolding lookup
lookup-map_values f k [] h = cc
lookup-map_values f k ((j, w) ∷ m) {v} h = elim (Bool-cases (j == k)) [
  | inl here ↦ let same : some w ≡ some v = rw here at h in rw here (cc same)
  | inr there ↦ rw there (lookup-map_values f k m (rw there at h))
]

-- Where no quorum refuses, the loop changes every one.
each_quorum-map_values :
    (act : Action QuorumMachine Error (Unit {0})) (m : Dict QuorumMachine)
    → ((e : Error) → (each_quorum act m).1 ≢ err e)
    → (each_quorum act m).0 ≡ map_values (λ q. (act q).0) m
unfolding each_quorum
each_quorum-map_values act [] h = refl
each_quorum-map_values act ((id, q) ∷ m) h = elim (Result-cases (act q).1) [
  | inl (done, e) ↦
      rw (e, each_quorum)
        (ap (λ (rest : Dict QuorumMachine). (id, (act q).0) ∷ rest)
          (each_quorum-map_values act m (λ x r. h x (rw (e, each_quorum) r))))
  | inr (x, e) ↦ absurd (h x (rw (e, each_quorum) refl))
]

abbrev pub offline : ProbeMachine → ProbeMachine
offline probe = record probe { state = ProbeState.offline }

module _ ⦃lib : Stateless⦄ where
  -- The runtime after the probe has expired: it is offline and every quorum is degraded.
  abbrev pub expired : String → ProbeMachine → Runtime → Runtime
  expired probe_id probe r = record {
    probes = insert probe_id (offline probe) r.probes;
    quorums = map_values (λ q. (degrade_quorum probe_id ProbeState.offline "" q).0) r.quorums;
  }

  abbrev pub outcome :
      Option ProbeMachine → Time → Duration → String → Runtime → Runtime × Result Error Bool
  outcome none now offline_after probe_id r = (r, err Error.unknown_probe)
  outcome (some probe) now offline_after probe_id r =
      if is_sweepable now offline_after probe
      then (expired probe_id probe r, ok true)
      else (r, ok false)

  expire_heartbeat-offline :
      (probe : ProbeMachine) → (ProbeMachine.expire_heartbeat probe).0 ≡ offline probe
  unfolding ProbeMachine.expire_heartbeat
  expire_heartbeat-offline probe =
      ground (arith, fire-probe_configuration probe.state ProbeTrigger.heartbeat_expired)

  expire_heartbeat_accepted :
      (probe : ProbeMachine) (e : Error) → (ProbeMachine.expire_heartbeat probe).1 ≢ err e
  unfolding ProbeMachine.expire_heartbeat
  expire_heartbeat_accepted probe e h =
      ground (arith, fire-probe_configuration probe.state ProbeTrigger.heartbeat_expired)

  pub degradation-map_values :
      (probe_id : String) (r : Runtime)
      → IsWellFormed r
      → apply_probe_degradation probe_id ProbeState.offline "" r ≡ (
        record r {
          quorums = map_values (λ q. (degrade_quorum probe_id ProbeState.offline "" q).0) r.quorums;
        },
        ok tt,
      )
  unfolding apply_probe_degradation
  degradation-map_values probe_id r h =
      let act = degrade_quorum probe_id ProbeState.offline "" in
      let accepted = apply_probe_degradation_accepted r h probe_id ProbeState.offline "" in
      elim (Result-cases (each_quorum act r.quorums).1) [
        | inl (u, e) ↦ ground (arith, each_quorum-map_values act r.quorums accepted)
        | inr (x, e) ↦ absurd (accepted x e)
      ]

  -- In a well-formed runtime one round of the sweep fails only for an unknown probe, and then changes
  -- nothing; it expires the probe, in itself and in every quorum, exactly when the probe is not offline
  -- and its heartbeat is too old, and changes nothing otherwise.
  pub sweep_probe-outcome :
      (now : Time) (offline_after : Duration) (probe_id : String) (r : Runtime)
      → IsWellFormed r
      → sweep_probe now offline_after probe_id r
        ≡ outcome (lookup probe_id r.probes) now offline_after probe_id r
  unfolding sweep_probe
  sweep_probe-outcome now offline_after probe_id r h =
      elim (Option-cases (lookup probe_id r.probes)) [
        | inl e ↦ ground arith
        | inr (probe, e) ↦
            let r' : Runtime = record r { probes = insert probe_id (offline probe) r.probes } in
            elim (Result-cases (ProbeMachine.expire_heartbeat probe).1) [
              | inl (t, s) ↦ ground (
                arith,
                expire_heartbeat-offline probe,
                degradation-map_values probe_id r'
                    (put_probe-IsWellFormed probe_id (offline probe) r h),
              )
              | inr (x, s) ↦ absurd (expire_heartbeat_accepted probe x s)
            ]
      ]
