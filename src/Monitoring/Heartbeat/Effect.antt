-- ===== src/Monitoring/Heartbeat/Effect.antt =====
-- `applyHeartbeat` (internal/monitoring/heartbeat.go) as a transaction of runtime and store.
use wacht.Shared.{String, ◌≡◌, ◌≢◌, Option, none, some, arith, Option-cases, inl, inr}
use wacht.Shared.Dict.{lookup, insert, insert-insert, insert_same}
use wacht.Shared.Action.{Result, Result-cases, ok, err}
use wacht.Store.Writes.{MonitoringStore}
use wacht.Monitoring.Types.{Time, ProbeState, ProbeTrigger, Error}
use wacht.Monitoring.Stateless.{Stateless}
use wacht.Monitoring.ProbeMachine
use wacht.Monitoring.ProbeMachine.{ProbeMachine}
use wacht.Monitoring.ProbeMachine.Fire.{fire-probe_configuration}
use wacht.Monitoring.Runtime.{Runtime}
use wacht.Monitoring.Heartbeat.{heartbeat_write, heartbeat}

-- The probe after a heartbeat that was accepted.
abbrev pub beaten : Time → ProbeMachine → ProbeMachine
beaten at probe = record probe {
  state = ProbeState.online;
  last_heartbeat_at = some at;
  last_error = "";
}

-- A heartbeat as a transaction: the write of the store decides, and an error changes no probe.
abbrev pub transaction :
    {S : Type 0}
    → Option ProbeMachine
    → S × Result Error (Unit {0})
    → String
    → Time
    → Runtime
    → S
    → (Runtime × S) × Result Error (Unit {0})
transaction none persisted probe_id at r s = ((r, s), err Error.unknown_probe)
transaction (some probe) (s', ok _) probe_id at r s =
    ((record r { probes = insert probe_id (beaten at probe) r.probes }, s'), ok tt)
transaction (some probe) (s', err e) probe_id at r s = ((r, s'), err e)

module _ ⦃lib : Stateless⦄ {S : Type 0} (st : MonitoringStore S Error) where
  receive_heartbeat-beaten :
      (at : Time) (probe : ProbeMachine)
      → (ProbeMachine.receive_heartbeat at probe).0 ≡ beaten at probe
  unfolding ProbeMachine.receive_heartbeat
  receive_heartbeat-beaten at probe =
      ground (arith, fire-probe_configuration probe.state ProbeTrigger.receive_heartbeat)

  receive_heartbeat_accepted :
      (at : Time) (probe : ProbeMachine) (e : Error)
      → (ProbeMachine.receive_heartbeat at probe).1 ≢ err e
  unfolding ProbeMachine.receive_heartbeat
  receive_heartbeat_accepted at probe e h =
      ground (arith, fire-probe_configuration probe.state ProbeTrigger.receive_heartbeat)

  -- A heartbeat of an unknown probe is an error that changes nothing. One of a known probe is a
  -- single write to the store: if it succeeds, the probe is online, with the heartbeat's time and no
  -- error text, and if it fails, the runtime is as it was.
  pub heartbeat-transaction :
      (probe_id : String) (at : Time) (r : Runtime) (s : S)
      → heartbeat st probe_id at (r, s)
        ≡ transaction
            (lookup probe_id r.probes)
            (st.persist_write (heartbeat_write probe_id at) s)
            probe_id
            at
            r
            s
  unfolding heartbeat
  heartbeat-transaction probe_id at r s = elim (Option-cases (lookup probe_id r.probes)) [
    | inl unknown ↦ ground arith
    | inr (probe, known) ↦
        let p = ProbeMachine.receive_heartbeat at probe in
        elim (Result-cases p.1) [
          | inl (done, e) ↦ ground (
            arith,
            receive_heartbeat-beaten at probe,
            insert-insert probe_id probe (beaten at probe) r.probes,
            insert_same probe_id probe r.probes,
          )
          | inr (x, e) ↦ absurd (receive_heartbeat_accepted at probe x e)
        ]
  ]
