-- ===== src/Monitoring/Runtime/Methods.antt =====
-- The methods of internal/monitoring/runtime.go and the invariant of the runtime.
use wacht.Shared.{
  ap, String, Option, List, [], ◌∷◌, is_some, Option-cases, Bool-cases, inl, inr, ◌==◌,
}
use wacht.Shared.Dict.{Dict, lookup, insert}
use wacht.Shared.Dict.Every.{All-delete}
use wacht.Shared.Action.{Action, Result-cases}
use wacht.Monitoring.Types.{Time, Error, ProbeState, CheckUpdate}
use wacht.Monitoring.Stateless.{Stateless}
use wacht.Monitoring.ProbeMachine
use wacht.Monitoring.ProbeMachine.{ProbeMachine, new_probe_machine}
use wacht.Monitoring.QuorumMachine
use wacht.Monitoring.QuorumMachine.{QuorumMachine, new_quorum_machine}
use wacht.Monitoring.QuorumMachine.WellFormed as Q
use wacht.Monitoring.Runtime.Degradation.{apply_probe_degradation-IsWellFormed}
use wacht.Monitoring.Runtime.WellFormed.{
  IsQuorum, IsWellFormed, put_probe-IsWellFormed, put_quorum-IsWellFormed, lookup-IsQuorum,
  on_probe-IsWellFormed, on_quorum-IsWellFormed,
}
use wacht.Monitoring.Ids.{unique_ids}
use wacht.Monitoring.Runtime.{
  Runtime, add_probe, add_probes, new_quorums, new_runtime, on_probe, ensure_quorum, remove_check,
  recompute_check, apply_probe_degradation, receive_heartbeat, expire_heartbeat, mark_probe_error,
  observe_check, observe_check_up, observe_check_down, lose_check_evidence, mark_check_error,
}

pub add_probe-IsWellFormed :
    (probe_id : String) (r : Runtime) → IsWellFormed r → IsWellFormed (add_probe probe_id r).0
unfolding add_probe
add_probe-IsWellFormed probe_id r h = elim (Bool-cases (probe_id == "")) [
  | inl e ↦ rw (e, add_probe) h
  | inr e ↦ elim (Option-cases (lookup probe_id r.probes)) [
    | inl new ↦
        rw (e, new, add_probe) (put_probe-IsWellFormed probe_id (new_probe_machine probe_id) r h)
    | inr (probe, known) ↦ rw (e, known, add_probe) h
  ]
]

add_probes-IsWellFormed :
    (ids : List String) (r : Runtime) → IsWellFormed r → IsWellFormed (add_probes ids r)
unfolding add_probes
add_probes-IsWellFormed [] r h = h
add_probes-IsWellFormed (p ∷ ids) r h =
    add_probes-IsWellFormed ids (add_probe p r).0 (add_probe-IsWellFormed p r h)

new_quorums-IsWellFormed :
    (ids : List String) (m : Dict QuorumMachine)
    → IsWellFormed (record { probes = []; quorums = m })
    → IsWellFormed (record { probes = []; quorums = new_quorums ids m })
unfolding new_quorums
new_quorums-IsWellFormed [] m h = h
new_quorums-IsWellFormed (id ∷ ids) m h =
    new_quorums-IsWellFormed ids (insert id (new_quorum_machine id []) m) (
      put_quorum-IsWellFormed id (new_quorum_machine id []) (record { probes = []; quorums = m }) h
        (Q.new_quorum_machine-IsWellFormed [] id))

pub new_runtime-IsWellFormed :
    (check_ids probe_ids : List String) → IsWellFormed (new_runtime check_ids probe_ids)
unfolding new_runtime
new_runtime-IsWellFormed check_ids probe_ids =
    add_probes-IsWellFormed (unique_ids probe_ids) _
      (new_quorums-IsWellFormed (unique_ids check_ids) [] (record { quorums = tt }))

pub ensure_quorum-IsWellFormed :
    (check_id : String) (r : Runtime)
    → IsWellFormed r
    → IsWellFormed (ensure_quorum check_id r).0
      × IsQuorum r.probes (check_id, (ensure_quorum check_id r).1)
unfolding ensure_quorum
ensure_quorum-IsWellFormed check_id r h = elim (Option-cases (lookup check_id r.quorums)) [
  | inl e ↦
      let k = Q.new_quorum_machine-IsWellFormed r.probes check_id in
      rw (e, ensure_quorum)
        (put_quorum-IsWellFormed check_id (new_quorum_machine check_id []) r h k, k)
  | inr (q, e) ↦ rw (e, ensure_quorum) (h, lookup-IsQuorum check_id r h e)
]

pub remove_check-IsWellFormed :
    (check_id : String) (r : Runtime) → IsWellFormed r → IsWellFormed (remove_check check_id r)
unfolding remove_check
remove_check-IsWellFormed check_id r h = record {
  quorums = All-delete (IsQuorum r.probes) check_id r.quorums h.quorums;
}

module _ ⦃lib : Stateless⦄ (r : Runtime) (h : IsWellFormed r) where
  pub receive_heartbeat-IsWellFormed :
      (probe_id : String) (at : Time) → IsWellFormed (receive_heartbeat probe_id at r).0
  unfolding receive_heartbeat
  receive_heartbeat-IsWellFormed probe_id at =
      on_probe-IsWellFormed probe_id (ProbeMachine.receive_heartbeat at) r h

  pub expire_heartbeat-IsWellFormed :
      (probe_id : String) → IsWellFormed (expire_heartbeat probe_id r).0
  unfolding expire_heartbeat
  expire_heartbeat-IsWellFormed probe_id =
      let p = on_probe probe_id ProbeMachine.expire_heartbeat r in
      let h' = on_probe-IsWellFormed probe_id ProbeMachine.expire_heartbeat r h in
      let d = apply_probe_degradation probe_id ProbeState.offline "" p.0 in
      let h'' = apply_probe_degradation-IsWellFormed p.0 h' probe_id ProbeState.offline "" in
      elim (Result-cases p.1) [
        | inl (t, e) ↦
            rw e (elim (Result-cases d.1) [ inl (u, f) ↦ rw f h'' | inr (x, f) ↦ rw f h'' ])
        | inr (x, e) ↦ rw e h'
      ]

  pub mark_probe_error-IsWellFormed :
      (probe_id message : String) → IsWellFormed (mark_probe_error probe_id message r).0
  unfolding mark_probe_error
  mark_probe_error-IsWellFormed probe_id message =
      let p = on_probe probe_id (ProbeMachine.mark_error message) r in
      let h' = on_probe-IsWellFormed probe_id (ProbeMachine.mark_error message) r h in
      let d = apply_probe_degradation probe_id ProbeState.error message p.0 in
      let h'' = apply_probe_degradation-IsWellFormed p.0 h' probe_id ProbeState.error message in
      elim (Result-cases p.1) [
        | inl (t, e) ↦
            rw e (elim (Result-cases d.1) [ inl (u, f) ↦ rw f h'' | inr (x, f) ↦ rw f h'' ])
        | inr (x, e) ↦ rw e h'
      ]

  observe_check-IsWellFormed :
      (check_id probe_id : String) (act : Action QuorumMachine Error CheckUpdate)
      → ((q : QuorumMachine)
          → IsQuorum r.probes (check_id, q)
          → IsQuorum r.probes (check_id, (act q).0))
      → IsWellFormed (observe_check check_id probe_id act r).0
  unfolding observe_check
  observe_check-IsWellFormed check_id probe_id act keep =
      elim (Option-cases (lookup probe_id r.probes)) [
        | inl e ↦ rw (e, observe_check) h
        | inr (probe, e) ↦
            rw (e, observe_check)
              (on_quorum-IsWellFormed check_id (λ q. act (QuorumMachine.add_probe probe_id q).0) r
                (λ q k.
                  keep _ (Q.add_probe-IsWellFormed r.probes check_id probe_id q (ap is_some e) k))
                h)
      ]

  pub observe_check_up-IsWellFormed :
      (check_id probe_id : String) (at : Time) (expires_at : Option Time)
      → IsWellFormed (observe_check_up check_id probe_id at expires_at r).0
  unfolding observe_check_up
  observe_check_up-IsWellFormed check_id probe_id at expires_at =
      observe_check-IsWellFormed check_id probe_id (QuorumMachine.observe_up probe_id at expires_at)
        (λ q k. Q.observe_up-IsWellFormed r.probes check_id probe_id q k at expires_at)

  pub observe_check_down-IsWellFormed :
      (check_id probe_id : String) (at : Time) (expires_at : Option Time) (message : String)
      → IsWellFormed (observe_check_down check_id probe_id at expires_at message r).0
  unfolding observe_check_down
  observe_check_down-IsWellFormed check_id probe_id at expires_at message =
      observe_check-IsWellFormed check_id probe_id
        (QuorumMachine.observe_down probe_id at expires_at message)
        (λ q k. Q.observe_down-IsWellFormed r.probes check_id probe_id q k at expires_at message)

  pub lose_check_evidence-IsWellFormed :
      (check_id probe_id : String) → IsWellFormed (lose_check_evidence check_id probe_id r).0
  unfolding lose_check_evidence
  lose_check_evidence-IsWellFormed check_id probe_id =
      on_quorum-IsWellFormed check_id (QuorumMachine.lose_evidence probe_id) r
        (λ q k. Q.lose_evidence-IsWellFormed r.probes check_id probe_id q k) h

  pub mark_check_error-IsWellFormed :
      (check_id probe_id message : String)
      → IsWellFormed (mark_check_error check_id probe_id message r).0
  unfolding mark_check_error
  mark_check_error-IsWellFormed check_id probe_id message =
      on_quorum-IsWellFormed check_id (QuorumMachine.mark_check_error probe_id message) r
        (λ q k. Q.mark_check_error-IsWellFormed r.probes check_id probe_id q k message) h

  pub recompute_check-IsWellFormed :
      (check_id : String) → IsWellFormed (recompute_check check_id r).0
  unfolding recompute_check
  recompute_check-IsWellFormed check_id =
      on_quorum-IsWellFormed check_id _ r (λ q k. Q.recompute-IsWellFormed r.probes check_id q k) h
