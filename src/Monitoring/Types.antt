-- ===== src/Monitoring/Types.antt =====
-- internal/monitoring/types.go, machine_types.go and the errors of runtime.go: the states of probes,
-- checks and quorums, and what a transition reports. The states are Go strings; `unset` is the empty
-- one. The schema of the database admits no other text in the columns that hold them.
-- Counters are unbounded: a streak grows by one for a result, so it never nears the bound of `int`.
pub use wacht.Shared.Time.{Time, zero_time, is_zero}
use wacht.Shared.{◌==◌, if◌then◌else◌, ℕ, String, Bool, true, false, Option, none}

pub data ProbeState : Type 0 where
  online offline error : ProbeState

pub data CheckState : Type 0 where
  unset up down missing error : CheckState

pub data QuorumState : Type 0 where
  unset pending up down error : QuorumState

pub data ProbeTrigger : Type 0 where
  receive_heartbeat heartbeat_expired mark_error : ProbeTrigger

pub data CheckTrigger : Type 0 where
  observe_up observe_down lose_evidence mark_error : CheckTrigger

-- The comparisons `==` of the source.
abbrev pub same_probe_state : ProbeState → ProbeState → Bool
same_probe_state ProbeState.online ProbeState.online = true
same_probe_state ProbeState.offline ProbeState.offline = true
same_probe_state ProbeState.error ProbeState.error = true
same_probe_state _ _ = false

abbrev pub same_check_state : CheckState → CheckState → Bool
same_check_state CheckState.unset CheckState.unset = true
same_check_state CheckState.up CheckState.up = true
same_check_state CheckState.down CheckState.down = true
same_check_state CheckState.missing CheckState.missing = true
same_check_state CheckState.error CheckState.error = true
same_check_state _ _ = false

abbrev pub same_quorum_state : QuorumState → QuorumState → Bool
same_quorum_state QuorumState.unset QuorumState.unset = true
same_quorum_state QuorumState.pending QuorumState.pending = true
same_quorum_state QuorumState.up QuorumState.up = true
same_quorum_state QuorumState.down QuorumState.down = true
same_quorum_state QuorumState.error QuorumState.error = true
same_quorum_state _ _ = false

abbrev pub same_probe_trigger : ProbeTrigger → ProbeTrigger → Bool
same_probe_trigger ProbeTrigger.receive_heartbeat ProbeTrigger.receive_heartbeat = true
same_probe_trigger ProbeTrigger.heartbeat_expired ProbeTrigger.heartbeat_expired = true
same_probe_trigger ProbeTrigger.mark_error ProbeTrigger.mark_error = true
same_probe_trigger _ _ = false

abbrev pub same_check_trigger : CheckTrigger → CheckTrigger → Bool
same_check_trigger CheckTrigger.observe_up CheckTrigger.observe_up = true
same_check_trigger CheckTrigger.observe_down CheckTrigger.observe_down = true
same_check_trigger CheckTrigger.lose_evidence CheckTrigger.lose_evidence = true
same_check_trigger CheckTrigger.mark_error CheckTrigger.mark_error = true
same_check_trigger _ _ = false

-- What the package's functions return as `error`; `refused` is an error of the state machine library
-- and `external` one of the store or of the JSON encoder.
pub data Error : Type 0 where
  unknown_check unknown_probe unknown_check_assignment refused : Error
  required : String → Error
  external : String → Error
  wrapped : String → Error → Error

pub record ProbeTransition : Type 0 where
  pub from_state : ProbeState
  pub to_state : ProbeState
  pub trigger : ProbeTrigger
  pub reentry : Bool

pub record CheckTransition : Type 0 where
  pub from_state : CheckState
  pub to_state : CheckState
  pub trigger : CheckTrigger
  pub reentry : Bool

pub record QuorumTransition : Type 0 where
  pub from_state : QuorumState
  pub to_state : QuorumState
  pub last_stable_state : QuorumState

pub record ProbeRuntimeState : Type 0 where
  pub probe_id : String
  pub state : ProbeState
  pub last_heartbeat_at : Option Time
  pub last_error : String

pub record CheckExecState : Type 0 where
  pub check_id : String
  pub probe_id : String
  pub last_result_at : Time
  pub last_outcome : CheckState
  pub streak_len : ℕ
  pub expires_at : Time
  pub state : CheckState
  pub last_error : String

pub record CheckQuorumState : Type 0 where
  pub check_id : String
  pub state : QuorumState
  pub last_stable_state : QuorumState
  pub incident_open : Bool

pub record CheckUpdate : Type 0 where
  pub check_transition : CheckTransition
  pub quorum_transition : QuorumTransition
  pub quorum : CheckQuorumState

unfoldable pub new_probe_runtime_state : String → ProbeRuntimeState
new_probe_runtime_state probe_id = record {
  probe_id = probe_id;
  state = ProbeState.offline;
  last_heartbeat_at = none;
  last_error = "";
}

unfoldable pub new_check_exec_state : String → String → CheckExecState
new_check_exec_state check_id probe_id = record {
  check_id = check_id;
  probe_id = probe_id;
  last_result_at = zero_time;
  last_outcome = CheckState.unset;
  streak_len = 0;
  expires_at = zero_time;
  state = CheckState.missing;
  last_error = "";
}

unfoldable pub new_check_quorum_state : String → CheckQuorumState
new_check_quorum_state check_id = record {
  check_id = check_id;
  state = QuorumState.pending;
  last_stable_state = QuorumState.unset;
  incident_open = false;
}

-- string(state)
unfoldable pub check_state_text : CheckState → String
check_state_text CheckState.unset = ""
check_state_text CheckState.up = "up"
check_state_text CheckState.down = "down"
check_state_text CheckState.missing = "missing"
check_state_text CheckState.error = "error"

-- CheckState(text), for the texts that the schema admits; another text is read as the empty one.
unfoldable pub check_state_of : String → CheckState
check_state_of text =
    if text == "up"
    then CheckState.up
    else if text == "down"
    then CheckState.down
    else if text == "missing"
    then CheckState.missing
    else if text == "error"
    then CheckState.error
    else CheckState.unset
