-- ===== src/Tests/Database.antt =====
-- Concrete runs of internal/store and internal/alert.
use wacht.Monitoring.Types.{check_state_text, CheckExecState, CheckState}
use wacht.Store.Connection.{exec, transaction, Connection}
use wacht.Monitoring.QuorumMachine
use wacht.Monitoring.CheckMachine
use wacht.Shared.{
  ◌&&◌, ◌==◌, nat_eq, if◌then◌else◌, arith, refl, String, true, false, Option, none, some, List, [],
  ◌∷◌, ℕ, ◌≡◌, ◌≤◌,
}
use wacht.Store.Tables.{NotificationEvent, NotificationState, NotificationRow}
use wacht.Store.Deliveries.{claim_due_incident_notifications, due_ids, NotificationJob}
use wacht.Shared.Dict.{lookup, insert}
use wacht.Shared.Time.{Time}
use wacht.Shared.Text.{trim_space}
use wacht.Shared.Rows.{find, member}
use wacht.Shared.Action.{ok, err}
use wacht.Monitoring.Result.{
  ObservedResult, apply_observed_result, observed_update, observe_result, prepare_observed,
  check_state_write,
}
use wacht.Monitoring.Notice.{monitoring_write_for_check_event, notification_request}
use wacht.Monitoring.Batch.{apply_result_batch}
use wacht.Monitoring.CheckMachine.{check_configuration}
use wacht.Monitoring.Recovery.{persisted_check_exec_state}
use wacht.Store.Writes.{MonitoringWrite, PersistedCheckState}
use wacht.Store.CheckId.{normalize_check_id}
use wacht.Store.MonitoringWrites.{persist_monitoring_batch}
use wacht.Store.CheckStates.{upsert_check_state}
use wacht.Store.MonitoringWrites.RoundTrip.{IsStorable, has_key, upsert-persisted_check_exec_state}
use wacht.Store.Recovered.{monitoring_store}
use wacht.Store.Recovered.Together.{apply_result_batch_all_or_nothing}
use wacht.Store.Notifications.Consistent.{IsConsistent}
use wacht.Store.Notifications.Lifecycle.{
  start, next, persisted, claimed, failing, Reach-IsConsistent,
}
use wacht.Store.Notifications.Live.{due_ids-Owed}
use wacht.Alert.Sender.{next_retry_delay_with_backoff, dispatch}
use wacht.Alert.Sender.Backoff.{doubled, next_retry_delay_with_backoff-doubled}
use wacht.Shared.Int.{ℤ}
use wacht.Alert.Sender.Dispatch.{attempted, dispatch-attempted}
use wacht.Tests.Data.{interpreter, fleet, marshal, saw_down, full_disk}
use wacht.Tests.Tables.{
  canonical, shop_tables, healthy, broken, down_row, shop_tables-IsConsistent, kept_state,
}

abbrev items : List ObservedResult
items = saw_down "b" 130 ∷ []

-- The state of the assignment and the new incident are written in one transaction, whose third
-- statement fails.
batch_breaks :
    (apply_result_batch marshal (some fleet) (some (monitoring_store canonical 500)) items broken).1
    ≡ err full_disk
unfolding apply_result_batch apply_observed_result lookup insert observed_update observe_result
    prepare_observed QuorumMachine.observe_down CheckMachine.observe_down check_configuration
    monitoring_write_for_check_event notification_request monitoring_store persist_monitoring_batch
    check_state_write trim_space check_state_text transaction exec
batch_breaks = refl

apply_result_batch_all_or_nothing_example :
    ((apply_result_batch marshal
        (some fleet)
        (some (monitoring_store canonical 500))
        items
        broken).0.0
      ≡ some fleet)
    × ((apply_result_batch marshal
          (some fleet)
          (some (monitoring_store canonical 500))
          items
          broken).0.1.tables
        ≡ broken.tables)
apply_result_batch_all_or_nothing_example =
    apply_result_batch_all_or_nothing marshal canonical 500 (λ p e h. cc) fleet items broken
      batch_breaks

abbrev two_writes : List MonitoringWrite
two_writes =
    record {
      check_state_writes = [];
      probe_heartbeat_id = "a";
      probe_heartbeat_at = 100;
      incident_check_id = "";
      resolve_incident = false;
      incident_notification = none;
    }
    ∷ record {
      check_state_writes = check_state_write "shop" "a" kept_state ∷ [];
      probe_heartbeat_id = "";
      probe_heartbeat_at = 0;
      incident_check_id = "shop";
      resolve_incident = true;
      incident_notification = none;
    }
    ∷ []

writes_break : (persist_monitoring_batch canonical 500 two_writes broken).1 ≡ err full_disk
unfolding persist_monitoring_batch check_state_write trim_space check_state_text transaction exec
writes_break = refl

-- As the sweep leaves a state: its deadline is gone.
abbrev lost_state : CheckExecState
lost_state = record kept_state {
  last_outcome = CheckState.unset;
  streak_len = 0;
  expires_at = 0;
  state = CheckState.missing;
  last_error = "";
}

lost_state-IsStorable : IsStorable lost_state
unfolding trim_space
lost_state-IsStorable = record {
  check_trimmed = refl;
  probe_trimmed = refl;
  error_trimmed = refl;
  check_named = λ h. absurd cc;
  probe_named = λ h. absurd cc;
  outcome_observed = λ h. absurd cc;
  outcome_known = λ h. refl;
  state_set = λ h. absurd cc;
  streak = omega arith;
}

shop_id : normalize_check_id canonical "shop" ≡ ok "shop"
unfolding normalize_check_id trim_space
shop_id = refl

upsert-persisted_check_exec_state_example :
    (row : PersistedCheckState) × (persisted_check_exec_state row
      ≡ record lost_state { expires_at = 7 })
    × (let after =
          upsert_check_state canonical 500
            (check_state_write "shop" "a" lost_state)
            (record { tables = shop_tables NotificationState.pending; faults = [] }) in
        (after.1 ≡ ok (check_state_write "shop" "a" (record lost_state { expires_at = 7 })))
        × ((check_id probe_id : String)
            → find (has_key check_id probe_id) after.0.tables.check_probe_state ≡ (
                if "shop" == check_id && "a" == probe_id
                then some row
                else find (has_key check_id probe_id) [])))
upsert-persisted_check_exec_state_example =
    upsert-persisted_check_exec_state lost_state lost_state-IsStorable canonical 500
      (shop_tables NotificationState.pending) shop_id refl

-- A worker claims the webhook, the check recovers, and then a statement is going to fail.
abbrev after_claim : Connection
after_claim = (claim_due_incident_notifications [] 50 30 1 healthy).0

abbrev after_recovery : Connection
after_recovery = (persist_monitoring_batch canonical 500 two_writes after_claim).0

Reach-IsConsistent_example :
    IsConsistent (record after_recovery { faults = some full_disk ∷ [] }).tables
Reach-IsConsistent_example = Reach-IsConsistent {canonical = canonical} shop_tables-IsConsistent (
    next
      (next (next (start healthy) (claimed healthy [] 50 30 1))
        (persisted after_claim 500 two_writes))
      (failing after_recovery (some full_disk ∷ [])))

due_ids-Owed_example :
    (from : Time) × ((now stale_before : Time) (limit : ℕ)
      → from ≤ now
      → from ≤ stale_before
      → 1 ≤ limit
      → member 2 (due_ids (shop_tables NotificationState.pending) [] now stale_before limit) ≡ true)
due_ids-Owed_example =
    due_ids-Owed (shop_tables NotificationState.pending) [] (down_row NotificationState.pending)
      shop_tables-IsConsistent refl refl refl refl

next_retry_delay_with_backoff-doubled_example :
    next_retry_delay_with_backoff (ℤ.pos 1000) ≡ some (ℤ.pos (doubled (ℤ.pos 1000)))
next_retry_delay_with_backoff-doubled_example = next_retry_delay_with_backoff-doubled (ℤ.pos 1000)

abbrev job : NotificationJob
job = record {
  id = 2;
  incident_id = 1;
  check_id = "shop";
  event = NotificationEvent.down;
  webhook_url = "https://hook.test";
  payload = "{}";
  attempts = 3;
}

abbrev refuse : NotificationJob → Option String
refuse j = some "connection refused"

dispatch-attempted_example :
    find
      (λ (m : NotificationRow). nat_eq m.id 2)
      (dispatch refuse 60 job (record {
        tables = shop_tables NotificationState.processing;
        faults = [];
      })).tables.incident_notifications
    ≡ some (
        attempted
          (shop_tables NotificationState.processing).incidents
          60
          (some "connection refused")
          (down_row NotificationState.processing))
dispatch-attempted_example =
    dispatch-attempted refuse 60 job (shop_tables NotificationState.processing)
      (down_row NotificationState.processing) refl refl refl refl refl

-- After the third attempt the fourth waits for four seconds.
waits : next_retry_delay_with_backoff (ℤ.pos 3) ≡ some (ℤ.pos 4000000000)
unfolding next_retry_delay_with_backoff
waits = refl
