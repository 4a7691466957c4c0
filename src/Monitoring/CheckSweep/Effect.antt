-- ===== src/Monitoring/CheckSweep/Effect.antt =====
-- One round of the check sweep (internal/monitoring/sweepers.go) and the runtime.
use wacht.Shared.{
  [], ◌∷◌, String, ◌≡◌, ◌≢◌, refl, Bool, Option, none, some, arith, Bool-cases, inl, inr,
  if◌then◌else◌,
}
use wacht.Shared.Time.{Time}
use wacht.Shared.Dict.{lookup, insert-insert, insert_same}
use wacht.Shared.Action.{Result, ok, err}
use wacht.Alert.Payload.{AlertPayload}
use wacht.Checks.{Check}
use wacht.Store.Writes.{MonitoringWrite, MonitoringStore}
use wacht.Monitoring.Types.{CheckExecState, CheckQuorumState, CheckUpdate, Error, same_quorum_state}
use wacht.Monitoring.Stateless.{Stateless}
use wacht.Monitoring.CheckMachine
use wacht.Monitoring.CheckMachine.{CheckMachine}
use wacht.Monitoring.QuorumMachine
use wacht.Monitoring.QuorumMachine.{QuorumMachine}
use wacht.Monitoring.QuorumMachine.WellFormed as Q
use wacht.Monitoring.Notice.{monitoring_write_for_check_event}
use wacht.Monitoring.Result.{put_quorum, no_write, check_state_write, child_of}
use wacht.Monitoring.Runtime.{Runtime}
use wacht.Monitoring.Runtime.WellFormed.{IsWellFormed, lookup-IsQuorum}
use wacht.Monitoring.CheckSweep.{
  Assignment, restore_child, persist_event, persist_defined, persist_expired, sweep_check,
}

-- The runtime after a round: `kept` if it succeeded and `restored` if it failed.
abbrev pub either : Runtime → Runtime → Result Error Bool → Runtime
either restored kept (ok done) = if done then kept else restored
either restored kept (err e) = restored

module _ ⦃lib : Stateless⦄ (marshal : AlertPayload → Result Error String) {S : Type 0}
    (st : MonitoringStore S Error) where
  persist_event-either :
      (restored r : Runtime) (w : Result Error MonitoringWrite) (s : S)
      → (persist_event marshal st restored r w s).0.0
        ≡ either restored r (persist_event marshal st restored r w s).1
  unfolding persist_event
  persist_event-either restored r (err e) s = refl
  persist_event-either restored r (ok write) s = ground arith

  persist_defined-either :
      (previous q : QuorumMachine) (current : CheckQuorumState) (write : MonitoringWrite)
      (restored r : Runtime) (found : S × Result Error (Option Check))
      → (persist_defined marshal st previous q current write restored r found).0.0
        ≡ either restored r (persist_defined marshal st previous q current write restored r found).1
  unfolding persist_defined
  persist_defined-either previous q current write restored r (s, err e) = refl
  persist_defined-either previous q current write restored r (s, ok none) =
      persist_event-either restored r (ok write) s
  persist_defined-either previous q current write restored r (s, ok (some check)) =
      persist_event-either restored r
        (monitoring_write_for_check_event marshal check q previous.state current write) s

  persist_expired-either :
      (a : Assignment) (previous q : QuorumMachine) (c : CheckExecState) (r : Runtime) (s : S)
      (u : Result Error CheckUpdate)
      → ((e : Error) → u ≢ err e)
      → (persist_expired marshal st a previous q c r s u).0.0
        ≡ either
            (restore_child a previous c q r)
            r
            (persist_expired marshal st a previous q c r s u).1
  unfolding persist_expired
  persist_expired-either a previous q c r s (err e) h = absurd (h e refl)
  persist_expired-either a previous q c r s (ok update) h =
      let write : MonitoringWrite = record no_write {
        check_state_writes = check_state_write a.check_id a.probe_id (child_of a.probe_id q) ∷ [];
      } in
      let restored = restore_child a previous c q r in
      let found = st.get_check_by_id a.check_id s in
      elim (Bool-cases
        (same_quorum_state previous.state.last_stable_state update.quorum.last_stable_state)) [
          | inl e ↦ rw (e, persist_expired) (persist_event-either restored r (ok write) s)
          | inr e ↦
              rw (e, persist_expired)
                (persist_defined-either previous q update.quorum write restored r found)
        ]

  -- What a successful sweep of an assignment makes of the runtime.
  abbrev pub swept : Assignment → QuorumMachine → Runtime → Runtime
  swept a q r = put_quorum a.check_id (QuorumMachine.lose_evidence a.probe_id q).0 r

  restored_same :
      (a : Assignment) (q : QuorumMachine) (c : CheckMachine) (r : Runtime)
      → lookup a.check_id r.quorums ≡ some q
      → lookup a.probe_id q.checks ≡ some c
      → restore_child a q c (QuorumMachine.lose_evidence a.probe_id q).0 (swept a q r) ≡ r
  unfolding restore_child QuorumMachine.lose_evidence
  restored_same a q c r here child = ground (
    arith,
    insert-insert a.probe_id c (CheckMachine.lose_evidence c).0 q.checks,
    insert_same a.probe_id c q.checks,
    insert-insert a.check_id q (QuorumMachine.lose_evidence a.probe_id q).0 r.quorums,
    insert_same a.check_id q r.quorums,
  )

  -- In a well-formed runtime, one round of the check sweep for an assignment that the runtime has,
  -- whatever the store answers, takes the evidence of the assignment if it returns `true`, and leaves
  -- the runtime as it was if it returns `false` or an error.
  pub sweep_check-either :
      (now : Time) (a : Assignment) (r : Runtime) (s : S) (q : QuorumMachine) (c : CheckMachine)
      → IsWellFormed r
      → lookup a.check_id r.quorums ≡ some q
      → lookup a.probe_id q.checks ≡ some c
      → let step = sweep_check marshal st now a (r, s) in step.0.0 ≡ either r (swept a q r) step.1
  unfolding sweep_check
  sweep_check-either now a r s q c h here child =
      let u = QuorumMachine.lose_evidence a.probe_id q in
      let k = lookup-IsQuorum a.check_id r h here in
      ground (
        arith,
        restored_same a q c r here child,
        persist_expired-either a q u.0 c (swept a q r) s u.1
            (λ e. Q.lose_evidence_accepted r.probes a.check_id a.probe_id q k c e child),
      )
