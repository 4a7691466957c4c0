-- ===== src/Store/Recovered/Together.antt =====
-- ApplyResultBatch (internal/monitoring/result.go) over the store of internal/store.
use wacht.Monitoring.Batch.{
  nothing_applied, apply_each, observed_result_batch, apply_result_batch, Applied, persist_applied,
  keep_or_rollback,
}
use wacht.Monitoring.Batch.Atomicity.{apply_result_batch_atomic}
use wacht.Shared.{refl, [], ◌∷◌, some, ◌≢◌, ◌≡◌, String, Option, List, arith}
use wacht.Monitoring.Result.{ObservedResult}
use wacht.Shared.Time.{Time}
use wacht.Shared.Action.{Result, ok, err}
use wacht.Alert.Payload.{AlertPayload}
use wacht.Monitoring.Types.{Error}
use wacht.Monitoring.Stateless.{Stateless}
use wacht.Monitoring.Runtime.{Runtime}
use wacht.Store.Writes.{MonitoringWrite}
use wacht.Store.Connection.{Connection}
use wacht.Store.MonitoringWrites.Atomic.{persist_monitoring_batch_refused}
use wacht.Store.Recovered.{monitoring_store}

persist_batch_refused :
    (canonical : String → Option String) (now : Time) (ws : List MonitoringWrite) (c : Connection)
    {e : Error}
    → ((monitoring_store canonical now).persist_batch ws c).1 ≡ err e
    → ((monitoring_store canonical now).persist_batch ws c).0.tables ≡ c.tables
unfolding monitoring_store
persist_batch_refused canonical now ws c {e} h =
    ground (arith, persist_monitoring_batch_refused canonical now ws c {e = e})

module _ ⦃lib : Stateless⦄ (marshal : AlertPayload → Result Error String)
    (canonical : String → Option String) (now : Time) where
  keep_or_rollback_refused :
      (applied : Applied) (r : Runtime) (c : Connection) {e : Error}
      → (persist_applied marshal (monitoring_store canonical now) (r, ok applied) c).1 ≡ err e
      → (persist_applied marshal (monitoring_store canonical now) (r, ok applied) c).0.1.tables
        ≡ c.tables
  unfolding persist_applied keep_or_rollback
  keep_or_rollback_refused applied r c {e} h =
      ground (arith, persist_batch_refused canonical now applied.writes c {e = e})

  pub observed_result_batch_refused :
      (items : List ObservedResult) (step : Runtime × Result Error Applied) (c : Connection)
      {e : Error}
      → (persist_applied marshal (monitoring_store canonical now) step c).1 ≡ err e
      → (persist_applied marshal (monitoring_store canonical now) step c).0.1.tables ≡ c.tables
  unfolding persist_applied
  observed_result_batch_refused items (r, err x) c h = refl
  observed_result_batch_refused items (r, ok applied) c h = keep_or_rollback_refused applied r c h

  -- If the encoder never fails, a batch of results that ends in an error leaves the runtime and every
  -- table of the database as they were, whichever statement failed.
  pub apply_result_batch_all_or_nothing :
      (marshal_total : (p : AlertPayload) (e : Error) → marshal p ≢ err e) (r : Runtime)
      (items : List ObservedResult) (c : Connection) {e : Error}
      → (apply_result_batch marshal (some r) (some (monitoring_store canonical now)) items c).1
        ≡ err e
      → let after =
          apply_result_batch marshal (some r) (some (monitoring_store canonical now)) items c in
        (after.0.0 ≡ some r) × (after.0.1.tables ≡ c.tables)
  unfolding apply_result_batch observed_result_batch
  apply_result_batch_all_or_nothing marshal_total r [] c h = (refl, refl)
  apply_result_batch_all_or_nothing marshal_total r (item ∷ items) c h = (
    apply_result_batch_atomic marshal marshal_total (some r) (some (monitoring_store canonical now))
        (item ∷ items) c h,
    observed_result_batch_refused (item ∷ items)
        (apply_each marshal (item ∷ items) nothing_applied r) c h,
  )
