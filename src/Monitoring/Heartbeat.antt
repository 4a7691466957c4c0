-- ===== src/Monitoring/Heartbeat.antt =====
-- `ApplyHeartbeat` of internal/monitoring/heartbeat.go. A nil runtime or store is `none`.
pub mod Effect
use wacht.Shared.{String, false, Option, none, some, []}
use wacht.Shared.Dict.{lookup, insert}
use wacht.Shared.Action.{Result, ok, err, Action}
use wacht.Store.Writes.{MonitoringWrite, MonitoringStore}
use wacht.Monitoring.Types.{Time, Error}
use wacht.Monitoring.Stateless.{Stateless}
use wacht.Monitoring.ProbeMachine
use wacht.Monitoring.ProbeMachine.{ProbeMachine}
use wacht.Monitoring.Runtime.{Runtime}

abbrev pub heartbeat_write : String → Time → MonitoringWrite
heartbeat_write probe_id at = record {
  check_state_writes = [];
  probe_heartbeat_id = probe_id;
  probe_heartbeat_at = at;
  incident_check_id = "";
  resolve_incident = false;
  incident_notification = none;
}

set_probe : String → ProbeMachine → Runtime → Runtime
set_probe probe_id probe r = record r { probes = insert probe_id probe r.probes }

-- The outcome of the store's call: an error puts the previous probe state back.
keep_or_restore :
    {S : Type 0}
    → String
    → ProbeMachine
    → Runtime
    → S × Result Error (Unit {0})
    → (Runtime × S) × Result Error (Unit {0})
unfolding set_probe
keep_or_restore probe_id previous r (s, ok _) = ((r, s), ok tt)
keep_or_restore probe_id previous r (s, err e) = ((set_probe probe_id previous r, s), err e)

module _ ⦃lib : Stateless⦄ {S : Type 0} (st : MonitoringStore S Error) where
  persist_heartbeat :
      String
      → Time
      → ProbeMachine
      → Runtime
      → S
      → Result Error (Unit {0})
      → (Runtime × S) × Result Error (Unit {0})
  unfolding keep_or_restore
  persist_heartbeat probe_id at previous r s (err e) = ((r, s), err e)
  persist_heartbeat probe_id at previous r s (ok _) =
      keep_or_restore probe_id previous r (st.persist_write (heartbeat_write probe_id at) s)

  unit_result : {A : Type 0} → Result Error A → Result Error (Unit {0})
  unit_result (ok _) = ok tt
  unit_result (err e) = err e

  unfoldable pub heartbeat : String → Time → Action (Runtime × S) Error (Unit {0})
  unfolding set_probe persist_heartbeat unit_result
  heartbeat probe_id at (r, s) = elim (lookup probe_id r.probes) [
    | none ↦ ((r, s), err Error.unknown_probe)
    | some previous ↦
        let p = ProbeMachine.receive_heartbeat at previous in
        persist_heartbeat probe_id at previous (set_probe probe_id p.0 r) s (unit_result p.1)
  ]

-- The exported function, with its checks for nil.
unfoldable pub apply_heartbeat :
    ⦃lib : Stateless⦄ {S : Type 0}
    → Option Runtime
    → Option (MonitoringStore S Error)
    → String
    → Time
    → S
    → (Option Runtime × S) × Result Error (Unit {0})
unfolding heartbeat
apply_heartbeat none st probe_id at s =
    ((none, s), err (Error.required "monitoring: runtime is required"))
apply_heartbeat (some r) none probe_id at s =
    ((some r, s), err (Error.required "monitoring: store is required"))
apply_heartbeat (some r) (some st) probe_id at s =
    let ((r', s'), result) = heartbeat st probe_id at (r, s) in ((some r', s'), result)
