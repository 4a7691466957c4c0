-- ===== src/Monitoring/CheckSweep.antt =====
-- `SweepChecks` of internal/monitoring/sweepers.go. The lock is taken for each assignment anew, so
-- the step on one assignment is a definition of its own. A nil runtime or store is `none`.
pub mod Effect
use wacht.Shared.{
  ℕ, ◌+◌, String, Bool, true, false, not, ◌||◌, Option, none, some, List, [], ◌∷◌, ◌++◌, ◌==◌,
  if◌then◌else◌,
}
use wacht.Shared.Time.{Time, is_zero, is_after}
use wacht.Shared.Text.{le_text}
use wacht.Shared.Dict.{Dict, lookup, insert}
use wacht.Shared.Action.{Result, ok, err, Action}
use wacht.Checks.{Check}
use wacht.Alert.Payload.{AlertPayload}
use wacht.Store.Writes.{MonitoringWrite, MonitoringStore}
use wacht.Monitoring.Types.{
  CheckState, CheckExecState, CheckQuorumState, CheckUpdate, Error, same_check_state,
  same_quorum_state,
}
use wacht.Monitoring.Stateless.{Stateless}
use wacht.Monitoring.CheckMachine.{CheckMachine}
use wacht.Monitoring.QuorumMachine
use wacht.Monitoring.QuorumMachine.{QuorumMachine}
use wacht.Monitoring.Notice.{monitoring_write_for_check_event}
use wacht.Monitoring.Result.{no_write, check_state_write, child_of, put_quorum}
use wacht.Monitoring.Runtime.{Runtime}
use wacht.Monitoring.ProbeSweep.{Swept, swept_nothing}

-- The evidence is to be swept: it is not an error, and has a deadline that is not in the future.
unfoldable pub is_expired : Time → CheckExecState → Bool
is_expired now check = not (
    same_check_state check.state CheckState.error
    || is_zero check.expires_at
    || is_after check.expires_at now)

pub record Assignment : Type 0 where
  pub check_id : String
  pub probe_id : String

expired_children : Time → String → Dict CheckMachine → List Assignment
expired_children now check_id [] = []
expired_children now check_id ((probe_id, check) ∷ m) =
    let rest = expired_children now check_id m in
    if is_expired now check
    then record { check_id = check_id; probe_id = probe_id } ∷ rest
    else rest

unfoldable pub expired_assignments : Time → Dict QuorumMachine → List Assignment
unfolding expired_children is_expired
expired_assignments now [] = []
expired_assignments now ((check_id, quorum) ∷ m) =
    expired_children now check_id quorum.checks ++ expired_assignments now m

-- By check ID, then by probe ID.
abbrev le_assignment : Assignment → Assignment → Bool
le_assignment a b =
    if a.check_id == b.check_id
    then le_text a.probe_id b.probe_id
    else le_text a.check_id b.check_id

insert_assignment : Assignment → List Assignment → List Assignment
insert_assignment a [] = a ∷ []
insert_assignment a (b ∷ bs) = if le_assignment a b then a ∷ b ∷ bs else b ∷ insert_assignment a bs

unfoldable pub sort_assignments : List Assignment → List Assignment
unfolding insert_assignment
sort_assignments [] = []
sort_assignments (a ∷ as_) = insert_assignment a (sort_assignments as_)

-- check.state = previousCheck; quorum.state = previousQuorum
restore_child : Assignment → QuorumMachine → CheckExecState → QuorumMachine → Runtime → Runtime
restore_child a previous previous_check q r =
    put_quorum a.check_id
      (record q { checks = insert a.probe_id previous_check q.checks; state = previous.state }) r

-- The outcome of the store's last call.
persist_or_restore :
    {S : Type 0}
    → Runtime
    → Runtime
    → S × Result Error (Unit {0})
    → (Runtime × S) × Result Error Bool
persist_or_restore restored r (s, ok _) = ((r, s), ok true)
persist_or_restore restored r (s, err e) = ((restored, s), err e)

module _ ⦃lib : Stateless⦄ (marshal : AlertPayload → Result Error String) {S : Type 0}
    (st : MonitoringStore S Error) where
  persist_event :
      Runtime → Runtime → Result Error MonitoringWrite → S → (Runtime × S) × Result Error Bool
  unfolding persist_or_restore
  persist_event restored r (err e) s = ((restored, s), err e)
  persist_event restored r (ok write) s = persist_or_restore restored r (st.persist_write write s)

  -- What follows `GetCheckByID`.
  persist_defined :
      QuorumMachine
      → QuorumMachine
      → CheckQuorumState
      → MonitoringWrite
      → Runtime
      → Runtime
      → S × Result Error (Option Check)
      → (Runtime × S) × Result Error Bool
  unfolding persist_event
  persist_defined previous q current write restored r (s, err e) = ((restored, s), err e)
  persist_defined previous q current write restored r (s, ok none) =
      persist_event restored r (ok write) s
  persist_defined previous q current write restored r (s, ok (some check)) =
      persist_event restored r
        (monitoring_write_for_check_event marshal check q previous.state current write) s

  persist_expired :
      Assignment
      → QuorumMachine
      → QuorumMachine
      → CheckExecState
      → Runtime
      → S
      → Result Error CheckUpdate
      → (Runtime × S) × Result Error Bool
  unfolding persist_defined restore_child child_of
  persist_expired a previous q previous_check r s (err e) = ((r, s), err e)
  persist_expired a previous q previous_check r s (ok update) =
      let write = record no_write {
        check_state_writes = check_state_write a.check_id a.probe_id (child_of a.probe_id q) ∷ [];
      } in
      let restored = restore_child a previous previous_check q r in
      if same_quorum_state previous.state.last_stable_state update.quorum.last_stable_state
      then persist_event restored r (ok write) s
      else persist_defined previous q update.quorum write restored r
          (st.get_check_by_id a.check_id s)

  -- One round of the loop; `true` when the evidence has been swept.
  unfoldable pub sweep_check : Time → Assignment → Action (Runtime × S) Error Bool
  unfolding persist_expired is_expired
  sweep_check now a (r, s) = elim (lookup a.check_id r.quorums) [
    | none ↦ ((r, s), err Error.unknown_check)
    | some quorum ↦ elim (lookup a.probe_id quorum.checks) [
      | none ↦ ((r, s), err Error.unknown_check_assignment)
      | some check ↦
          let u = QuorumMachine.lose_evidence a.probe_id quorum in
          if is_expired now check
          then persist_expired a quorum u.0 check (put_quorum a.check_id u.0 r) s u.1
          else ((r, s), ok false)
    ]
  ]

  unfoldable pub sweep_each : Time → List Assignment → ℕ → Runtime × S → (Runtime × S) × Swept
  sweep_each now [] expired r = (r, record { expired = expired; error = none })
  sweep_each now (a ∷ as_) expired r =
      let step = sweep_check now a r in
      elim step.1 [
        | err e ↦ (step.0, record { expired = expired; error = some e })
        | ok done ↦ sweep_each now as_ (if done then expired + 1 else expired) step.0
      ]

unfoldable pub sweep_checks :
    ⦃lib : Stateless⦄ (marshal : AlertPayload → Result Error String) {S : Type 0}
    → Option Runtime
    → Option (MonitoringStore S Error)
    → Time
    → S
    → (Option Runtime × S) × Swept
unfolding sweep_each expired_assignments sort_assignments
sweep_checks marshal none st now s =
    ((none, s), swept_nothing (Error.required "monitoring: runtime is required"))
sweep_checks marshal (some r) none now s =
    ((some r, s), swept_nothing (Error.required "monitoring: store is required"))
sweep_checks marshal (some r) (some st) now s =
    let ((r', s'), swept) =
      sweep_each marshal st now (sort_assignments (expired_assignments now r.quorums)) 0 (r, s) in
    ((some r', s'), swept)
