-- ===== src/Monitoring/ProbeMachine/Fire.antt =====
-- The library's `Fire` on the configuration of internal/monitoring/probe_machine.go.
use wacht.Shared.{◌≡◌, refl, some}
use wacht.Monitoring.Types.{ProbeState, ProbeTrigger}
use wacht.Monitoring.Stateless.{Stateless}
use wacht.Monitoring.ProbeMachine.{probe_configuration}

abbrev pub target_of : ProbeTrigger → ProbeState
target_of ProbeTrigger.receive_heartbeat = ProbeState.online
target_of ProbeTrigger.heartbeat_expired = ProbeState.offline
target_of ProbeTrigger.mark_error = ProbeState.error

module _ ⦃lib : Stateless⦄ where
  pub fire-probe_configuration :
      (s : ProbeState) (t : ProbeTrigger)
      → lib.probe.fire probe_configuration s t ≡ some (target_of t)
  unfolding probe_configuration
  fire-probe_configuration ProbeState.online ProbeTrigger.receive_heartbeat =
      lib.probe.fire_permitted _ _ _ _ refl
  fire-probe_configuration ProbeState.online ProbeTrigger.heartbeat_expired =
      lib.probe.fire_permitted _ _ _ _ refl
  fire-probe_configuration ProbeState.online ProbeTrigger.mark_error =
      lib.probe.fire_permitted _ _ _ _ refl
  fire-probe_configuration ProbeState.offline ProbeTrigger.receive_heartbeat =
      lib.probe.fire_permitted _ _ _ _ refl
  fire-probe_configuration ProbeState.offline ProbeTrigger.heartbeat_expired =
      lib.probe.fire_permitted _ _ _ _ refl
  fire-probe_configuration ProbeState.offline ProbeTrigger.mark_error =
      lib.probe.fire_permitted _ _ _ _ refl
  fire-probe_configuration ProbeState.error ProbeTrigger.receive_heartbeat =
      lib.probe.fire_permitted _ _ _ _ refl
  fire-probe_configuration ProbeState.error ProbeTrigger.heartbeat_expired =
      lib.probe.fire_permitted _ _ _ _ refl
  fire-probe_configuration ProbeState.error ProbeTrigger.mark_error =
      lib.probe.fire_permitted _ _ _ _ refl
