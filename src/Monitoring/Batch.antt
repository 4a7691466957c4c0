-- ===== src/Monitoring/Batch.antt =====
-- `ApplyResultBatch` of internal/monitoring/result.go. A nil runtime or store is `none`.
pub mod Atomicity
pub mod Kept
use wacht.Shared.{String, ◌≡◌, refl, Option, none, some, List, [], ◌∷◌, ◌++◌}
use wacht.Shared.Action.{Result, ok, err, Action}
use wacht.Alert.Payload.{AlertPayload}
use wacht.Store.Writes.{MonitoringWrite, MonitoringStore}
use wacht.Monitoring.Types.{Error}
use wacht.Monitoring.Stateless.{Stateless}
use wacht.Monitoring.Runtime.{Runtime}
use wacht.Monitoring.Result.{
  ObservedResult, ObservedResultRollback, rollback_observed_results, apply_observed_result,
}

-- The loop's variables `writes` and `rollbacks`.
pub record Applied : Type 0 where
  pub writes : List MonitoringWrite
  pub rollbacks : List ObservedResultRollback

abbrev pub nothing_applied : Applied
nothing_applied = record { writes = []; rollbacks = [] }

abbrev pub append_applied : Applied → MonitoringWrite × ObservedResultRollback → Applied
append_applied a (write, rollback) = record {
  writes = a.writes ++ (write ∷ []);
  rollbacks = a.rollbacks ++ (rollback ∷ []);
}

-- The outcome of the store's call: an error takes every result of the batch back.
unfoldable pub keep_or_rollback :
    {S : Type 0}
    → List ObservedResultRollback
    → Runtime
    → S × Result Error (Unit {0})
    → (Runtime × S) × Result Error (Unit {0})
keep_or_rollback rollbacks r (s, ok _) = ((r, s), ok tt)
keep_or_rollback rollbacks r (s, err e) = ((rollback_observed_results rollbacks r, s), err e)

module _ ⦃lib : Stateless⦄ (marshal : AlertPayload → Result Error String) where
  -- The loop, up to the first error, which takes the earlier results back.
  unfoldable pub apply_each : List ObservedResult → Applied → Action Runtime Error Applied
  apply_each [] applied r = (r, ok applied)
  apply_each (item ∷ items) applied r =
      let step = apply_observed_result marshal item.check item.result r in
      elim step.1 [
        | err e ↦ (rollback_observed_results applied.rollbacks step.0, err e)
        | ok done ↦ apply_each items (append_applied applied done) step.0
      ]

  module _ {S : Type 0} (st : MonitoringStore S Error) where
    unfoldable pub persist_applied :
        Runtime × Result Error Applied → S → (Runtime × S) × Result Error (Unit {0})
    unfolding keep_or_rollback
    persist_applied (r, err e) s = ((r, s), err e)
    persist_applied (r, ok applied) s =
        keep_or_rollback applied.rollbacks r (st.persist_batch applied.writes s)

    unfoldable pub observed_result_batch :
        List ObservedResult → Action (Runtime × S) Error (Unit {0})
    unfolding apply_each persist_applied
    observed_result_batch observed (r, s) =
        persist_applied (apply_each observed nothing_applied r) s

  -- The exported function, with its checks for nil and for an empty batch.
  unfoldable pub apply_result_batch :
      {S : Type 0}
      → Option Runtime
      → Option (MonitoringStore S Error)
      → List ObservedResult
      → S
      → (Option Runtime × S) × Result Error (Unit {0})
  unfolding observed_result_batch
  apply_result_batch none st observed s =
      ((none, s), err (Error.required "monitoring: runtime is required"))
  apply_result_batch (some r) none observed s =
      ((some r, s), err (Error.required "monitoring: store is required"))
  apply_result_batch (some r) (some st) [] s = ((some r, s), ok tt)
  apply_result_batch (some r) (some st) (item ∷ items) s =
      let ((r', s'), result) = observed_result_batch st (item ∷ items) (r, s) in
      ((some r', s'), result)
