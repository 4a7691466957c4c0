-- ===== src/Store/MonitoringWrites/Atomic.antt =====
-- PersistMonitoringBatch and PersistMonitoringWrite (internal/store/monitoring.go): the call that ends
-- in an error.
use wacht.Shared.{arith, ◌≡◌, refl, String, Option, List}
use wacht.Shared.Action.{ok, Result, err}
use wacht.Shared.Time.{Time}
use wacht.Monitoring.Types.{Error}
use wacht.Store.Writes.{MonitoringWrite}
use wacht.Store.Connection.{Connection}
use wacht.Store.Connection.Rollback.{transaction_refused}
use wacht.Store.MonitoringWrites.{
  persist_monitoring_batch, persist_each, persist_valid_batch, validate_writes,
}

persist_valid_batch_refused :
    (canonical : String → Option String) (now : Time) (ws : List MonitoringWrite)
    (valid : Result Error (Unit {0})) (c : Connection) {e : Error}
    → (persist_valid_batch canonical now ws valid c).1 ≡ err e
    → (persist_valid_batch canonical now ws valid c).0.tables ≡ c.tables
persist_valid_batch_refused canonical now ws (err x) c h = refl
persist_valid_batch_refused canonical now ws (ok x) c {e} h =
    ground (arith, transaction_refused (persist_each canonical now ws) c {e = e})

-- A batch that is refused, that is invalid, or in which some statement fails, changes no table.
pub persist_monitoring_batch_refused :
    (canonical : String → Option String) (now : Time) (ws : List MonitoringWrite) (c : Connection)
    {e : Error}
    → (persist_monitoring_batch canonical now ws c).1 ≡ err e
    → (persist_monitoring_batch canonical now ws c).0.tables ≡ c.tables
unfolding persist_monitoring_batch
persist_monitoring_batch_refused canonical now ws c h =
    persist_valid_batch_refused canonical now ws (validate_writes now ws) c h
