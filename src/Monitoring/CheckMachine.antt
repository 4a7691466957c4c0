-- ===== src/Monitoring/CheckMachine.antt =====
-- internal/monitoring/check_machine.go: the evidence of one probe about one check. The machine's
-- own state is its `CheckExecState`; `sm` is the library's machine over the field `state` of it.
pub mod Fire
pub mod Streak
pub mod Assigned
use wacht.Shared.{
  ℕ, ◌+◌, String, ◌≡◌, refl, Bool, Option, none, some, List, [], ◌∷◌, arith, ltb, if◌then◌else◌,
}
use wacht.Shared.Action.{Result, ok, err, Action, ◌>>=◌, ◌>>◌, pure, gets, modify}
use wacht.Monitoring.Types.{
  Time, zero_time, CheckState, CheckTrigger, CheckExecState, CheckTransition, Error,
  same_check_state, new_check_exec_state,
}
use wacht.Monitoring.Stateless.{Stateless, Configuration, permit, permit_reentry}

abbrev pub CheckMachine : Type 0
CheckMachine = CheckExecState

abbrev pub consecutive_evidence_threshold : ℕ
consecutive_evidence_threshold = 2

unfoldable pub new_check_machine : String → String → CheckMachine
unfolding new_check_exec_state
new_check_machine check_id probe_id = new_check_exec_state check_id probe_id

unfoldable pub check_configuration : Configuration CheckState CheckTrigger
check_configuration =
    (
      CheckState.missing,
      permit CheckTrigger.observe_up CheckState.up
          ∷ permit CheckTrigger.observe_down CheckState.down
          ∷ permit CheckTrigger.mark_error CheckState.error
          ∷ permit_reentry CheckTrigger.lose_evidence
          ∷ [],
    )
    ∷ (
      CheckState.up,
      permit_reentry CheckTrigger.observe_up
          ∷ permit CheckTrigger.observe_down CheckState.down
          ∷ permit CheckTrigger.lose_evidence CheckState.missing
          ∷ permit CheckTrigger.mark_error CheckState.error
          ∷ [],
    )
    ∷ (
      CheckState.down,
      permit CheckTrigger.observe_up CheckState.up
          ∷ permit_reentry CheckTrigger.observe_down
          ∷ permit CheckTrigger.lose_evidence CheckState.missing
          ∷ permit CheckTrigger.mark_error CheckState.error
          ∷ [],
    )
    ∷ (
      CheckState.error,
      permit CheckTrigger.observe_up CheckState.up
          ∷ permit CheckTrigger.observe_down CheckState.down
          ∷ permit CheckTrigger.lose_evidence CheckState.missing
          ∷ permit_reentry CheckTrigger.mark_error
          ∷ [],
    )
    ∷ []

unfoldable pub bump_outcome : CheckState → CheckMachine → CheckMachine
bump_outcome outcome m = record m {
  streak_len = if same_check_state m.last_outcome outcome then m.streak_len + 1 else 1;
  last_outcome = outcome;
}

abbrev expiry : Option Time → Time
expiry none = zero_time
expiry (some t) = t

unfoldable pub record_observation :
    CheckState → Time → Option Time → String → CheckMachine → CheckMachine
unfolding bump_outcome
record_observation outcome at expires_at message m =
    bump_outcome outcome
      (record m { last_result_at = at; last_error = message; expires_at = expiry expires_at })

unfoldable pub contribution_state_for : CheckState → CheckMachine → CheckState
contribution_state_for outcome m =
    if ltb m.streak_len consecutive_evidence_threshold then CheckState.missing else outcome

unfoldable pub forget_outcome : CheckMachine → CheckMachine
forget_outcome m = record m {
  expires_at = zero_time;
  last_outcome = CheckState.unset;
  streak_len = 0;
  last_error = "";
}

-- The storage callbacks of the machine read and write the field `state`.
unfoldable pub store_fired :
    CheckTrigger → Option CheckState → Action CheckMachine Error CheckTransition
store_fired trigger none m = (m, err Error.refused)
store_fired trigger (some to) m = (
  record m { state = to },
  ok (record {
    from_state = m.state;
    to_state = to;
    trigger = trigger;
    reentry = same_check_state m.state to;
  }),
)

module _ ⦃lib : Stateless⦄ where
  unfoldable pub fire : CheckTrigger → Action CheckMachine Error CheckTransition
  unfolding store_fired
  fire trigger m = store_fired trigger (lib.check.fire check_configuration m.state trigger) m

  unfoldable pub observe :
      CheckTrigger
      → CheckState
      → Time
      → Option Time
      → String
      → Action CheckMachine Error CheckTransition
  unfolding fire record_observation contribution_state_for
  observe trigger outcome at expires_at message = do
    from ← gets (λ m. m.state)
    fire trigger
    modify (record_observation outcome at expires_at message)
    modify (λ m. record m { state = contribution_state_for outcome m })
    to ← gets (λ m. m.state)
    pure (record {
      from_state = from;
      to_state = to;
      trigger = trigger;
      reentry = same_check_state from to;
    })

  unfoldable pub observe_up : Time → Option Time → Action CheckMachine Error CheckTransition
  unfolding observe
  observe_up at expires_at = observe CheckTrigger.observe_up CheckState.up at expires_at ""

  unfoldable pub observe_down :
      Time → Option Time → String → Action CheckMachine Error CheckTransition
  unfolding observe
  observe_down at expires_at message =
      observe CheckTrigger.observe_down CheckState.down at expires_at message

  unfoldable pub lose_evidence : Action CheckMachine Error CheckTransition
  unfolding fire forget_outcome
  lose_evidence = do
    transition ← fire CheckTrigger.lose_evidence
    modify forget_outcome
    pure transition

  unfoldable pub mark_error : String → Action CheckMachine Error CheckTransition
  unfolding fire bump_outcome
  mark_error message = do
    transition ← fire CheckTrigger.mark_error
    modify (bump_outcome CheckState.error)
    modify (λ m. record m { last_error = message })
    pure transition
