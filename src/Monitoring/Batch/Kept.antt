-- ===== src/Monitoring/Batch/Kept.antt =====
-- Batches of results (internal/monitoring/result.go): the batch that is accepted, and the
-- invariant of the runtime.
use wacht.Shared.{
  String, ◌≡◌, refl, true, some, List, [], ◌∷◌, arith, Option-cases, Bool-cases, inl, inr, is_some,
  ap, sym,
}
use mathlib.Core.Path.{subst}
use wacht.Shared.Time.{Time}
use wacht.Shared.Text.{trim_space}
use wacht.Shared.Dict.{lookup}
use wacht.Shared.Action.{Result, Result-cases, ok, err}
use wacht.Alert.Payload.{AlertPayload}
use wacht.Checks.{Check}
use wacht.Proto.{CheckResult}
use wacht.Store.Writes.{MonitoringWrite, MonitoringStore}
use wacht.Monitoring.Types.{Error}
use wacht.Monitoring.Stateless.{Stateless}
use wacht.Monitoring.QuorumMachine.{QuorumMachine}
use wacht.Monitoring.QuorumMachine.WellFormed as Q
use wacht.Monitoring.Result.{
  ObservedResult, ObservedResultRollback, prepare_observed, observe_result, evidence_expires_at,
  put_quorum, apply_observed_result,
}
use wacht.Monitoring.Runtime.{Runtime, ensure_quorum}
use wacht.Monitoring.Runtime.WellFormed.{IsQuorum, IsWellFormed, put_quorum-IsWellFormed}
use wacht.Monitoring.Runtime.Methods.{ensure_quorum-IsWellFormed}
use wacht.Monitoring.Batch.{
  Applied, append_applied, apply_each, nothing_applied, keep_or_rollback, persist_applied,
  observed_result_batch,
}
use wacht.Monitoring.Batch.Atomicity.{observed_update_accepted}

prepared-IsQuorum :
    (check_id probe_id : String) (r : Runtime)
    → IsWellFormed r
    → is_some (lookup probe_id r.probes) ≡ true
    → IsQuorum r.probes (check_id, (prepare_observed check_id probe_id r).quorum)
unfolding prepare_observed
prepared-IsQuorum check_id probe_id r h known =
    let q = (ensure_quorum check_id r).1 in
    let k = (ensure_quorum-IsWellFormed check_id r h).1 in
    elim (Bool-cases (is_some (lookup probe_id q.checks))) [
      | inl e ↦ rw e k
      | inr e ↦ rw e (Q.add_probe-IsWellFormed r.probes check_id probe_id q known k)
    ]

probes-ensure_quorum :
    (check_id : String) (r : Runtime) → (ensure_quorum check_id r).0.probes ≡ r.probes
unfolding ensure_quorum
probes-ensure_quorum check_id r = ground arith

module _ ⦃lib : Stateless⦄ where
  observe_result-IsQuorum :
      (result : CheckResult) (expires_at : Time) (check_id : String) (r : Runtime)
      (q : QuorumMachine)
      → IsQuorum r.probes (check_id, q)
      → IsQuorum r.probes (check_id, (observe_result result expires_at q).0)
  unfolding observe_result
  observe_result-IsQuorum result expires_at check_id r q k = elim (Bool-cases result.up) [
    | inl e ↦ rw e (
        Q.observe_up-IsWellFormed r.probes check_id result.probe_id q k result.timestamp
          (some expires_at))
    | inr e ↦ rw e (
        Q.observe_down-IsWellFormed r.probes check_id result.probe_id q k result.timestamp
          (some expires_at) (trim_space result.error))
  ]

  module _ (marshal : AlertPayload → Result Error String) where
    apply_observed_result-IsWellFormed :
        (check : Check) (result : CheckResult) (r : Runtime) {w : MonitoringWrite}
        {b : ObservedResultRollback}
        → IsWellFormed r
        → (apply_observed_result marshal check result r).1 ≡ ok (w, b)
        → IsWellFormed (apply_observed_result marshal check result r).0
    unfolding apply_observed_result prepare_observed
    apply_observed_result-IsWellFormed check result r {w} {b} h e =
        elim (Option-cases (lookup result.probe_id r.probes)) [
          | inl n ↦ absurd (ground arith)
          | inr (probe, known) ↦
              let p = prepare_observed check.id result.probe_id r in
              let expires_at = evidence_expires_at check result.timestamp in
              let u = observe_result result expires_at p.quorum in
              let entry = ensure_quorum check.id r in
              let k =
                observe_result-IsQuorum result expires_at check.id r p.quorum
                  (prepared-IsQuorum check.id result.probe_id r h (ap is_some known)) in
              let done =
                observed_update_accepted marshal check result.probe_id p.rollback u.0
                  (put_quorum check.id u.0 p.runtime) u.1 {w = w} {b' = b} in
              let shape : (apply_observed_result marshal check result r).0
                  ≡ put_quorum check.id u.0 entry.0 =
                ground (arith, done) in
              subst IsWellFormed (sym shape) (
                put_quorum-IsWellFormed check.id u.0 entry.0
                  (ensure_quorum-IsWellFormed check.id r h).0 (rw probes-ensure_quorum k))
        ]

    -- The loop, if it accepts every result.
    pub apply_each-IsWellFormed :
        (items : List ObservedResult) (applied : Applied) (r : Runtime) {done : Applied}
        → IsWellFormed r
        → (apply_each marshal items applied r).1 ≡ ok done
        → IsWellFormed (apply_each marshal items applied r).0
    unfolding apply_each
    apply_each-IsWellFormed [] applied r h e = h
    apply_each-IsWellFormed (item ∷ items) applied r {done} h e =
        let step = apply_observed_result marshal item.check item.result r in
        elim (Result-cases step.1) [
          | inl (d, s) ↦
              rw (s, apply_each)
                (apply_each-IsWellFormed items (append_applied applied d) step.0 {done = done}
                  (apply_observed_result-IsWellFormed item.check item.result r h s)
                  (rw (s, apply_each) at e))
          | inr (x, s) ↦ absurd (ground arith)
        ]

    module _ {S : Type 0} (st : MonitoringStore S Error) where
      keep_or_rollback_done :
          (bs : List ObservedResultRollback) (r : Runtime) (x : S × Result Error (Unit {0}))
          → (keep_or_rollback bs r x).1 ≡ ok tt
          → (keep_or_rollback bs r x).0.0 ≡ r
      unfolding keep_or_rollback
      keep_or_rollback_done bs r (s, ok u) f = refl
      keep_or_rollback_done bs r (s, err e) f = cc

      -- A batch that succeeds keeps the invariant of the runtime.
      pub batch_done-IsWellFormed :
          (r : Runtime) (s : S) (items : List ObservedResult)
          → IsWellFormed r
          → (observed_result_batch marshal st items (r, s)).1 ≡ ok tt
          → IsWellFormed (observed_result_batch marshal st items (r, s)).0.0
      unfolding observed_result_batch persist_applied
      batch_done-IsWellFormed r s items h f =
          let a = apply_each marshal items nothing_applied r in
          elim (Result-cases a.1) [
            | inl (applied, e) ↦
                subst IsWellFormed
                  (sym (
                    ground (
                      arith,
                      keep_or_rollback_done applied.rollbacks a.0
                          (st.persist_batch applied.writes s),
                    )))
                  (apply_each-IsWellFormed items nothing_applied r h e)
            | inr (x, e) ↦ absurd (ground arith)
          ]
