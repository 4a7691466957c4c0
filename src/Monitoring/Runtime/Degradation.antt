-- ===== src/Monitoring/Runtime/Degradation.antt =====
-- `applyProbeDegradationLocked` of internal/monitoring/heartbeat.go and the invariant of the runtime.
use wacht.Shared.{String, ◌≢◌, [], ◌∷◌, arith, All, Option-cases, inl, inr}
use wacht.Shared.Dict.{Dict, lookup}
use wacht.Shared.Action.{Action, Result-cases, err}
use wacht.Monitoring.Types.{Error, ProbeState}
use wacht.Monitoring.Stateless.{Stateless}
use wacht.Monitoring.ProbeMachine.{ProbeMachine}
use wacht.Monitoring.QuorumMachine
use wacht.Monitoring.QuorumMachine.{QuorumMachine, new_quorum_machine}
use wacht.Monitoring.QuorumMachine.WellFormed as Q
use wacht.Monitoring.Runtime.WellFormed.{IsQuorum, IsWellFormed}
use wacht.Monitoring.Runtime.{Runtime, each_quorum, degrade_quorum, apply_probe_degradation}

module _ (known : Dict ProbeMachine) (act : Action QuorumMachine Error (Unit {0})) where
  each_quorum-All :
      (m : Dict QuorumMachine)
      → ((id : String) (q : QuorumMachine)
          → IsQuorum known (id, q)
          → IsQuorum known (id, (act q).0))
      → All (IsQuorum known) m
      → All (IsQuorum known) (each_quorum act m).0
  unfolding each_quorum
  each_quorum-All [] keep h = tt
  each_quorum-All ((id, q) ∷ m) keep h = elim (Result-cases (act q).1) [
    | inl (done, e) ↦ rw (e, each_quorum) (keep id q h.0, each_quorum-All m keep h.1)
    | inr (x, e) ↦ rw (e, each_quorum) (keep id q h.0, h.1)
  ]

  each_quorum_accepted :
      (m : Dict QuorumMachine)
      → ((id : String) (q : QuorumMachine)
          → IsQuorum known (id, q)
          → (e : Error) → (act q).1 ≢ err e)
      → All (IsQuorum known) m
      → (e : Error) → (each_quorum act m).1 ≢ err e
  unfolding each_quorum
  each_quorum_accepted [] accept h e r = cc
  each_quorum_accepted ((id, q) ∷ m) accept h e r = elim (Result-cases (act q).1) [
    | inl (done, s) ↦ each_quorum_accepted m accept h.1 e (rw (s, each_quorum) at r)
    | inr (x, s) ↦ accept id q h.0 x s
  ]

module _ ⦃lib : Stateless⦄ (known : Dict ProbeMachine) (check_id : String) where
  degrade_quorum-IsWellFormed :
      (probe_id : String) (state : ProbeState) (message : String) (q : QuorumMachine)
      → Q.IsWellFormed known check_id q
      → Q.IsWellFormed known check_id (degrade_quorum probe_id state message q).0
  unfolding degrade_quorum
  degrade_quorum-IsWellFormed probe_id ProbeState.offline message q h =
      elim (Option-cases (lookup probe_id q.checks)) [
        | inl e ↦ rw (e, degrade_quorum) h
        | inr (c, e) ↦
            rw (e, degrade_quorum)
              (elim (Result-cases (QuorumMachine.lose_evidence probe_id q).1) [
                | inl (u, s) ↦ rw s (Q.lose_evidence-IsWellFormed known check_id probe_id q h)
                | inr (x, s) ↦ rw s (Q.lose_evidence-IsWellFormed known check_id probe_id q h)
              ])
      ]
  degrade_quorum-IsWellFormed probe_id ProbeState.error message q h =
      elim (Option-cases (lookup probe_id q.checks)) [
        | inl e ↦ rw (e, degrade_quorum) h
        | inr (c, e) ↦
            rw (e, degrade_quorum)
              (elim (Result-cases (QuorumMachine.mark_check_error probe_id message q).1) [
                | inl (u, s) ↦
                    rw s (Q.mark_check_error-IsWellFormed known check_id probe_id q h message)
                | inr (x, s) ↦
                    rw s (Q.mark_check_error-IsWellFormed known check_id probe_id q h message)
              ])
      ]
  degrade_quorum-IsWellFormed probe_id ProbeState.online message q h =
      elim (Option-cases (lookup probe_id q.checks)) [
        | inl e ↦ rw (e, degrade_quorum) h
        | inr (c, e) ↦ rw (e, degrade_quorum) h
      ]

  degrade_quorum_accepted :
      (probe_id : String) (state : ProbeState) (message : String) (q : QuorumMachine)
      → Q.IsWellFormed known check_id q
      → (e : Error) → (degrade_quorum probe_id state message q).1 ≢ err e
  unfolding degrade_quorum
  degrade_quorum_accepted probe_id ProbeState.offline message q h e =
      elim (Option-cases (lookup probe_id q.checks)) [
        | inl n ↦ ground arith
        | inr (c, s) ↦ ground (arith, Q.lose_evidence_accepted known check_id probe_id q h c e s)
      ]
  degrade_quorum_accepted probe_id ProbeState.error message q h e =
      elim (Option-cases (lookup probe_id q.checks)) [
        | inl n ↦ ground arith
        | inr (c, s) ↦
            ground (arith, Q.mark_check_error_accepted known check_id probe_id q h c message e s)
      ]
  degrade_quorum_accepted probe_id ProbeState.online message q h e = ground arith

module _ ⦃lib : Stateless⦄ (r : Runtime) (h : IsWellFormed r) where
  pub apply_probe_degradation-IsWellFormed :
      (probe_id : String) (state : ProbeState) (message : String)
      → IsWellFormed (apply_probe_degradation probe_id state message r).0
  unfolding apply_probe_degradation
  apply_probe_degradation-IsWellFormed probe_id state message = record {
    quorums =
        each_quorum-All r.probes (degrade_quorum probe_id state message) r.quorums
          (λ id q k. degrade_quorum-IsWellFormed r.probes id probe_id state message q k) h.quorums;
  }

  -- In a well-formed runtime the degradation of a probe never returns an error, which would end its
  -- loop before the last quorum.
  pub apply_probe_degradation_accepted :
      (probe_id : String) (state : ProbeState) (message : String) (e : Error)
      → (apply_probe_degradation probe_id state message r).1 ≢ err e
  unfolding apply_probe_degradation
  apply_probe_degradation_accepted probe_id state message e =
      each_quorum_accepted r.probes (degrade_quorum probe_id state message) r.quorums
        (λ id q k. degrade_quorum_accepted r.probes id probe_id state message q k) h.quorums e
