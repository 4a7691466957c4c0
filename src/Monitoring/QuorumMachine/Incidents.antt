-- ===== src/Monitoring/QuorumMachine/Incidents.antt =====
-- `Recompute` of internal/monitoring/quorum_machine.go: the stable state and the incident.
use wacht.Shared.{String, ◌≡◌, ◌≢◌, ◌⊎◌, ◌↔◌, true, arith}
use wacht.Shared.Dict.{Dict}
use wacht.Monitoring.Types.{QuorumState, CheckQuorumState, new_check_quorum_state}
use wacht.Monitoring.CheckMachine.{CheckMachine}
use wacht.Monitoring.QuorumMachine.{next_state}

-- What holds of an aggregate state between two calls.
pub record IsCoherent (s : CheckQuorumState) : Type 0 where
  pub stable :
      (s.last_stable_state ≡ QuorumState.unset)
      ⊎ (s.last_stable_state ≡ QuorumState.up)
      ⊎ (s.last_stable_state ≡ QuorumState.down)
  pub open_is_down : s.incident_open ≡ true → s.last_stable_state ≡ QuorumState.down
  pub pending_is_new : s.state ≡ QuorumState.pending → s.last_stable_state ≡ QuorumState.unset
  pub error_is_old : s.state ≡ QuorumState.error → s.last_stable_state ≢ QuorumState.unset

pub new-IsCoherent : (check_id : String) → IsCoherent (new_check_quorum_state check_id)
unfolding new_check_quorum_state
new-IsCoherent check_id = ground arith

-- Recomputing keeps the invariant, whatever the children are.
pub next_state-IsCoherent :
    (m : Dict CheckMachine) (s : CheckQuorumState) → IsCoherent s → IsCoherent (next_state m s)
unfolding next_state
next_state-IsCoherent m s h = ground arith

-- If a recomputation changes the last stable state, then the new one is the state that it arrives at,
-- and was the state before it too.
pub next_state_confirmed :
    (m : Dict CheckMachine) (s : CheckQuorumState)
    → (next_state m s).last_stable_state ≢ s.last_stable_state
    → (s.state ≡ (next_state m s).state)
      × ((next_state m s).last_stable_state ≡ (next_state m s).state)
unfolding next_state
next_state_confirmed m s h = ground arith

-- From a coherent state, an incident is open after a recomputation exactly when the stable state is
-- down then, and either the incident was open before or the stable state was up before.
pub incident_open_iff :
    (m : Dict CheckMachine) (s : CheckQuorumState)
    → IsCoherent s
    → ((next_state m s).incident_open ≡ true) ↔ (
        ((next_state m s).last_stable_state ≡ QuorumState.down)
        × ((s.incident_open ≡ true) ⊎ (s.last_stable_state ≡ QuorumState.up)))
unfolding next_state
incident_open_iff m s h = ground arith
