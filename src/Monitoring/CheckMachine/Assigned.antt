-- ===== src/Monitoring/CheckMachine/Assigned.antt =====
-- internal/monitoring/check_machine.go: the machine of a check that is assigned to a probe.
use wacht.Shared.{String, ◌≡◌, ◌≢◌, Option, arith}
use wacht.Monitoring.Types.{Time, CheckState, CheckTrigger, Error, zero_time}
use wacht.Shared.Action.{err}
use wacht.Monitoring.Stateless.{Stateless}
use wacht.Monitoring.CheckMachine.{
  CheckMachine, new_check_machine, observe_up, observe_down, lose_evidence, mark_error,
}
use wacht.Monitoring.CheckMachine.Fire.{fire-fired}

pub record IsAssigned (check_id probe_id : String) (c : CheckMachine) : Type 0 where
  pub check : c.check_id ≡ check_id
  pub probe : c.probe_id ≡ probe_id
  pub set : c.state ≢ CheckState.unset

pub new_check_machine-IsAssigned :
    (check_id probe_id : String)
    → IsAssigned check_id probe_id (new_check_machine check_id probe_id)
unfolding new_check_machine
new_check_machine-IsAssigned check_id probe_id = ground arith

module _ ⦃lib : Stateless⦄ {check_id probe_id : String} (c : CheckMachine)
    (h : IsAssigned check_id probe_id c) where
  pub observe_up-IsAssigned :
      (at : Time) (expires_at : Option Time)
      → IsAssigned check_id probe_id (observe_up at expires_at c).0
  unfolding observe_up
  observe_up-IsAssigned at expires_at = ground (arith, fire-fired c.state CheckTrigger.observe_up)

  pub observe_down-IsAssigned :
      (at : Time) (expires_at : Option Time) (message : String)
      → IsAssigned check_id probe_id (observe_down at expires_at message c).0
  unfolding observe_down
  observe_down-IsAssigned at expires_at message =
      ground (arith, fire-fired c.state CheckTrigger.observe_down)

  pub lose_evidence-IsAssigned : IsAssigned check_id probe_id (lose_evidence c).0
  unfolding lose_evidence
  lose_evidence-IsAssigned = ground (arith, fire-fired c.state CheckTrigger.lose_evidence)

  pub mark_error-IsAssigned :
      (message : String) → IsAssigned check_id probe_id (mark_error message c).0
  unfolding mark_error
  mark_error-IsAssigned message = ground (arith, fire-fired c.state CheckTrigger.mark_error)

-- The child after its evidence is lost.
abbrev pub forgotten : CheckMachine → CheckMachine
forgotten c = record c {
  state = CheckState.missing;
  expires_at = zero_time;
  last_outcome = CheckState.unset;
  streak_len = 0;
  last_error = "";
}

module _ ⦃lib : Stateless⦄ (c : CheckMachine) (set : c.state ≢ CheckState.unset) where
  pub lose_evidence-forgotten : (lose_evidence c).0 ≡ forgotten c
  unfolding lose_evidence
  lose_evidence-forgotten = ground (arith, fire-fired c.state CheckTrigger.lose_evidence)

  pub lose_evidence_accepted : (e : Error) → (lose_evidence c).1 ≢ err e
  unfolding lose_evidence
  lose_evidence_accepted e h = ground (arith, fire-fired c.state CheckTrigger.lose_evidence)

  pub mark_error_accepted : (message : String) (e : Error) → (mark_error message c).1 ≢ err e
  unfolding mark_error
  mark_error_accepted message e h = ground (arith, fire-fired c.state CheckTrigger.mark_error)
