-- ===== src/Monitoring/ProbeMachine.antt =====
-- internal/monitoring/probe_machine.go: the liveness of one probe. The machine's own state is its
-- `ProbeRuntimeState`; `sm` is the library's machine over the field `state` of it. `clone` and
-- `Snapshot` copy a value, so they are the identity here.
pub mod Fire
use wacht.Shared.{String, Option, none, some, [], ◌∷◌}
use wacht.Shared.Action.{ok, err, Action, ◌>>=◌, ◌>>◌, pure, modify}
use wacht.Monitoring.Types.{
  Time, ProbeState, ProbeTrigger, ProbeRuntimeState, ProbeTransition, Error, same_probe_state,
  new_probe_runtime_state,
}
use wacht.Monitoring.Stateless.{Stateless, Configuration, permit, permit_reentry}

abbrev pub ProbeMachine : Type 0
ProbeMachine = ProbeRuntimeState

unfoldable pub new_probe_machine : String → ProbeMachine
unfolding new_probe_runtime_state
new_probe_machine probe_id = new_probe_runtime_state probe_id

unfoldable pub probe_configuration : Configuration ProbeState ProbeTrigger
probe_configuration =
    (
      ProbeState.online,
      permit_reentry ProbeTrigger.receive_heartbeat
          ∷ permit ProbeTrigger.heartbeat_expired ProbeState.offline
          ∷ permit ProbeTrigger.mark_error ProbeState.error
          ∷ [],
    )
    ∷ (
      ProbeState.offline,
      permit ProbeTrigger.receive_heartbeat ProbeState.online
          ∷ permit_reentry ProbeTrigger.heartbeat_expired
          ∷ permit ProbeTrigger.mark_error ProbeState.error
          ∷ [],
    )
    ∷ (
      ProbeState.error,
      permit ProbeTrigger.receive_heartbeat ProbeState.online
          ∷ permit_reentry ProbeTrigger.mark_error
          ∷ permit ProbeTrigger.heartbeat_expired ProbeState.offline
          ∷ [],
    )
    ∷ []

unfoldable pub store_fired :
    ProbeTrigger → Option ProbeState → Action ProbeMachine Error ProbeTransition
store_fired trigger none m = (m, err Error.refused)
store_fired trigger (some to) m = (
  record m { state = to },
  ok (record {
    from_state = m.state;
    to_state = to;
    trigger = trigger;
    reentry = same_probe_state m.state to;
  }),
)

module _ ⦃lib : Stateless⦄ where
  unfoldable pub fire : ProbeTrigger → Action ProbeMachine Error ProbeTransition
  unfolding store_fired
  fire trigger m = store_fired trigger (lib.probe.fire probe_configuration m.state trigger) m

  unfoldable pub receive_heartbeat : Time → Action ProbeMachine Error ProbeTransition
  unfolding fire
  receive_heartbeat at = do
    transition ← fire ProbeTrigger.receive_heartbeat
    modify (λ m. record m { last_heartbeat_at = some at; last_error = "" })
    pure transition

  unfoldable pub expire_heartbeat : Action ProbeMachine Error ProbeTransition
  unfolding fire
  expire_heartbeat = fire ProbeTrigger.heartbeat_expired

  unfoldable pub mark_error : String → Action ProbeMachine Error ProbeTransition
  unfolding fire
  mark_error message = do
    transition ← fire ProbeTrigger.mark_error
    modify (λ m. record m { last_error = message })
    pure transition
