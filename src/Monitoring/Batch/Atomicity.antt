-- ===== src/Monitoring/Batch/Atomicity.antt =====
-- Batches of results (internal/monitoring/result.go): the batch that ends in an error.
use wacht.Shared.{
  inl, inr, Option-cases, none, some, String, ◌≡◌, refl, ◌∙◌, ap, Option, List, [], ◌∷◌, ◌++◌,
  arith, length, ◌≢◌,
}
use wacht.Shared.Dict.{lookup}
use wacht.Monitoring.Batch.{
  Applied, append_applied, apply_each, nothing_applied, observed_result_batch, apply_result_batch,
}
use wacht.Shared.Action.{Result-cases, Result, ok, err}
use wacht.Alert.Payload.{AlertPayload}
use wacht.Checks.{Check}
use wacht.Proto.{CheckResult}
use wacht.Store.Writes.{MonitoringWrite, MonitoringStore}
use wacht.Monitoring.Types.{Error, CheckQuorumState, CheckUpdate}
use wacht.Monitoring.Stateless.{Stateless}
use wacht.Monitoring.QuorumMachine.{QuorumMachine}
use wacht.Monitoring.Runtime.{Runtime}
use wacht.Monitoring.Notice.{notification_request, count_down, monitoring_write_for_check_event}
use wacht.Monitoring.Result.Rollback.{observed-rollback}
use wacht.Monitoring.Result.{
  observed_update, child_of, check_state_write, no_write, ObservedResult, observe_result,
  prepare_observed, put_quorum, evidence_expires_at, ObservedResultRollback,
  rollback_observed_result, rollback_observed_results, apply_observed_result,
}

-- Rollbacks are applied from the last to the first.
rollback-append :
    (bs cs : List ObservedResultRollback) (r : Runtime)
    → rollback_observed_results (bs ++ cs) r
      ≡ rollback_observed_results bs (rollback_observed_results cs r)
unfolding rollback_observed_results
rollback-append [] cs r = refl
rollback-append (b ∷ bs) cs r = ap (rollback_observed_result b) (rollback-append bs cs r)

module _ ⦃lib : Stateless⦄ (marshal : AlertPayload → Result Error String)
    (marshal_total : (p : AlertPayload) (e : Error) → marshal p ≢ err e) where
  notification_request_total :
      (check : Check) (status : String) (q : QuorumMachine) (e : Error)
      → notification_request marshal check status q ≢ err e
  unfolding notification_request
  notification_request_total check status q e h = ground (
    arith,
    marshal_total
        (record {
          check_id = check.id;
          check_name = check.name;
          target = check.target;
          status = status;
          probes_down = count_down q.checks;
          probes_total = length q.checks;
        })
        e,
  )

  write_total :
      (check : Check) (q : QuorumMachine) (previous current : CheckQuorumState)
      (w : MonitoringWrite) (e : Error)
      → monitoring_write_for_check_event marshal check q previous current w ≢ err e
  unfolding monitoring_write_for_check_event
  write_total check q previous current w e h = ground (
    arith,
    notification_request_total check "down" q e,
    notification_request_total check "up" q e,
  )

  -- An error after the observation is the observation's own, and has been taken back.
  observed_update_refused :
      (check : Check) (probe_id : String) (b : ObservedResultRollback) (q : QuorumMachine)
      (r : Runtime) (u : Result Error CheckUpdate) {e : Error}
      → (observed_update marshal check probe_id b q r u).1 ≡ err e
      → (observed_update marshal check probe_id b q r u).0 ≡ rollback_observed_result b r
  unfolding observed_update
  observed_update_refused check probe_id b q r (err e') h = refl
  observed_update_refused check probe_id b q r (ok update) {e} h = ground (
    arith,
    write_total check q b.previous_quorum update.quorum
        (record no_write {
          check_state_writes = check_state_write check.id probe_id (child_of probe_id q) ∷ [];
        })
        e,
  )

  -- A result that is refused has changed nothing.
  apply_observed_result_refused :
      (check : Check) (result : CheckResult) (r : Runtime) {e : Error}
      → (apply_observed_result marshal check result r).1 ≡ err e
      → (apply_observed_result marshal check result r).0 ≡ r
  unfolding apply_observed_result
  apply_observed_result_refused check result r {e} h =
      elim (Option-cases (lookup result.probe_id r.probes)) [
        | inl unknown ↦ ground arith
        | inr (probe, known) ↦
            let expires_at = evidence_expires_at check result.timestamp in
            let p = prepare_observed check.id result.probe_id r in
            let u = observe_result result expires_at p.quorum in
            ground (
              arith,
              observed_update_refused check result.probe_id p.rollback u.0
                  (put_quorum check.id u.0 p.runtime) u.1 {e = e},
              observed-rollback check.id result expires_at r,
            )
      ]

module _ ⦃lib : Stateless⦄ (marshal : AlertPayload → Result Error String) where
  -- A success hands over the rollback that was noted.
  pub observed_update_accepted :
      (check : Check) (probe_id : String) (b : ObservedResultRollback) (q : QuorumMachine)
      (r : Runtime) (u : Result Error CheckUpdate) {w : MonitoringWrite}
      {b' : ObservedResultRollback}
      → (observed_update marshal check probe_id b q r u).1 ≡ ok (w, b')
      → (b' ≡ b) × ((observed_update marshal check probe_id b q r u).0 ≡ r)
  unfolding observed_update
  observed_update_accepted check probe_id b q r (err e) h = ground arith
  observed_update_accepted check probe_id b q r (ok update) h = ground arith

  -- An accepted result is taken back by its rollback.
  pub apply_observed_result_accepted :
      (check : Check) (result : CheckResult) (r : Runtime) {w : MonitoringWrite}
      {b : ObservedResultRollback}
      → (apply_observed_result marshal check result r).1 ≡ ok (w, b)
      → rollback_observed_result b (apply_observed_result marshal check result r).0 ≡ r
  unfolding apply_observed_result
  apply_observed_result_accepted check result r {w} {b} h =
      let expires_at = evidence_expires_at check result.timestamp in
      let p = prepare_observed check.id result.probe_id r in
      let u = observe_result result expires_at p.quorum in
      ground (
        arith,
        observed_update_accepted check result.probe_id p.rollback u.0
            (put_quorum check.id u.0 p.runtime) u.1 {w = w} {b' = b},
        observed-rollback check.id result expires_at r,
      )

-- The noted rollbacks lead back to the runtime before the batch, and an error already has.
abbrev Undone : Runtime → Runtime → Result Error Applied → Type 0
Undone before r (ok applied) = rollback_observed_results applied.rollbacks r ≡ before
Undone before r (err e) = r ≡ before

module _ ⦃lib : Stateless⦄ (marshal : AlertPayload → Result Error String)
    (marshal_total : (p : AlertPayload) (e : Error) → marshal p ≢ err e) where
  append_applied-Undone :
      (before r r' : Runtime) (applied : Applied) (done : MonitoringWrite × ObservedResultRollback)
      → rollback_observed_results applied.rollbacks r ≡ before
      → rollback_observed_result done.1 r' ≡ r
      → rollback_observed_results (append_applied applied done).rollbacks r' ≡ before
  unfolding rollback_observed_results
  append_applied-Undone before r r' applied (write, b) h e =
      rollback-append applied.rollbacks (b ∷ []) r'
      ∙ ap (rollback_observed_results applied.rollbacks) e
      ∙ h

  apply_each-Undone :
      (items : List ObservedResult) (applied : Applied) (before r : Runtime)
      → rollback_observed_results applied.rollbacks r ≡ before
      → let a = apply_each marshal items applied r in Undone before a.0 a.1
  unfolding apply_each
  apply_each-Undone [] applied before r h = h
  apply_each-Undone (item ∷ items) applied before r h =
      let step = apply_observed_result marshal item.check item.result r in
      elim (Result-cases step.1) [
        | inl (done, e) ↦
            rw (e, apply_each)
              (apply_each-Undone items (append_applied applied done) before step.0 (
                append_applied-Undone before r step.0 applied done h
                  (apply_observed_result_accepted marshal item.check item.result r e)))
        | inr (x, e) ↦
            rw (e, apply_each)
              (ap (rollback_observed_results applied.rollbacks)
                  (apply_observed_result_refused marshal marshal_total item.check item.result r e)
                ∙ h)
      ]

  pub batch_atomic :
      {S : Type 0} (st : MonitoringStore S Error) (items : List ObservedResult) (r : Runtime)
      (s : S) {e : Error}
      → (observed_result_batch marshal st items (r, s)).1 ≡ err e
      → (observed_result_batch marshal st items (r, s)).0.0 ≡ r
  unfolding observed_result_batch
  batch_atomic st items r s h = ground (
    arith,
    apply_each-Undone items nothing_applied r r (unfold rollback_observed_results in refl),
  )

  -- If the encoder never fails, a batch that ends in an error, be it a nil argument, a refused result
  -- or a failed write of the store, leaves the runtime as it was.
  pub apply_result_batch_atomic :
      {S : Type 0} (r : Option Runtime) (st : Option (MonitoringStore S Error))
      (items : List ObservedResult) (s : S) {e : Error}
      → (apply_result_batch marshal r st items s).1 ≡ err e
      → (apply_result_batch marshal r st items s).0.0 ≡ r
  unfolding apply_result_batch
  apply_result_batch_atomic none st items s h = refl
  apply_result_batch_atomic (some r) none items s h = refl
  apply_result_batch_atomic (some r) (some st) [] s h = refl
  apply_result_batch_atomic (some r) (some st) (item ∷ items) s h =
      ap some (batch_atomic st (item ∷ items) r s h)
