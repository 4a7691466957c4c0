-- ===== src/Tests/Data.antt =====
-- Test data: a state machine library, stores that answer in a fixed way, and small runtimes.
use wacht.Shared.{
  ◌≢◌, refl, inl, inr, ap, String, Bool, false, Option, none, some, List, [], ◌∷◌, ℕ, suc,
}
use wacht.Shared.Int.{ℤ}
use wacht.Shared.Dict.{Dict, lookup}
use wacht.Shared.Action.{Result, ok, err}
use wacht.Checks.{Check}
use wacht.Alert.Payload.{AlertPayload}
use wacht.Store.Writes.{MonitoringStore, PersistedCheckState, PersistedProbeState}
use wacht.Monitoring.Types.{
  Time, Error, ProbeState, CheckState, QuorumState, CheckQuorumState, same_probe_state,
  same_probe_trigger, same_check_state, same_check_trigger,
}
use wacht.Monitoring.Stateless.{Stateless, StateMachine, targets}
use wacht.Monitoring.ProbeMachine.{ProbeMachine}
use wacht.Monitoring.CheckMachine.{CheckMachine}
use wacht.Monitoring.QuorumMachine.{QuorumMachine}
use wacht.Monitoring.CheckMachine.Assigned.{IsAssigned}
use wacht.Monitoring.QuorumMachine.Incidents.{IsCoherent}
use wacht.Monitoring.QuorumMachine.WellFormed as Q
use wacht.Monitoring.Runtime.{Runtime}
use wacht.Monitoring.Runtime.WellFormed.{IsWellFormed}
use wacht.Monitoring.Result.{ObservedResult}

abbrev only : {S : Type 0} → List S → Option S
only (d ∷ []) = some d
only _ = none

-- A machine that fires where the configuration has one transition.
abbrev machine :
    {S T : Type 0} (same_state : S → S → Bool) (same_trigger : T → T → Bool)
    → StateMachine same_state same_trigger
machine same_state same_trigger = record {
  fire = λ config s t. only (targets same_state same_trigger config s t);
  fire_permitted = λ config s t d h. ap only h;
  fire_refused = λ config s t h. ap only h;
}

instance abbrev pub interpreter : Stateless
interpreter = record {
  probe = machine same_probe_state same_probe_trigger;
  check = machine same_check_state same_check_trigger;
}

abbrev pub shop : Check
shop = record {
  id = "shop";
  name = "Shop";
  check_type = "http";
  target = "https://shop.test";
  webhook = "https://hook.test";
  interval = ℤ.pos 30;
}

-- A store that counts the calls which change it.
abbrev pub working : MonitoringStore ℕ Error
working = record {
  persist_write = λ w n. (suc n, ok tt);
  persist_batch = λ ws n. (suc n, ok tt);
  get_check_by_id = λ id n. (n, ok (some shop));
  list_all_checks = λ n. (n, ok (shop ∷ []));
  recoverable_probe_states = λ n. (n, ok []);
  persisted_check_states = λ n. (n, ok []);
  open_incident_check_ids = λ n. (n, ok []);
}

abbrev pub full_disk : Error
full_disk = Error.external "disk full"

abbrev pub failing : MonitoringStore ℕ Error
failing = record working {
  persist_write = λ w n. (n, err full_disk);
  persist_batch = λ ws n. (n, err full_disk);
}

abbrev pub marshal : AlertPayload → Result Error String
marshal p = ok p.status

abbrev pub seen_probe : String → Time → ProbeMachine
seen_probe id at = record {
  probe_id = id;
  state = ProbeState.online;
  last_heartbeat_at = some at;
  last_error = "";
}

-- The evidence of a probe about the check `shop` that has been repeated.
abbrev pub evidence : String → CheckState → CheckMachine
evidence probe_id outcome = record {
  check_id = "shop";
  probe_id = probe_id;
  last_result_at = 7;
  last_outcome = outcome;
  streak_len = 2;
  expires_at = 90;
  state = outcome;
  last_error = "";
}

-- Two probes say down and a third says up.
abbrev pub children : Dict CheckMachine
children =
    ("a", evidence "a" CheckState.up)
    ∷ ("b", evidence "b" CheckState.down)
    ∷ ("c", evidence "c" CheckState.down)
    ∷ []

-- Stable up, with a first majority for down.
abbrev pub wavering : CheckQuorumState
wavering = record {
  check_id = "shop";
  state = QuorumState.down;
  last_stable_state = QuorumState.up;
  incident_open = false;
}

abbrev pub shop_quorum : QuorumMachine
shop_quorum = record { state = wavering; checks = children }

abbrev pub fleet : Runtime
fleet = record {
  probes = ("a", seen_probe "a" 5) ∷ ("b", seen_probe "b" 100) ∷ ("c", seen_probe "c" 100) ∷ [];
  quorums = ("shop", shop_quorum) ∷ [];
}

pub wavering-IsCoherent : IsCoherent wavering
wavering-IsCoherent = record {
  stable = inr (inl refl);
  open_is_down = λ h. cc;
  pending_is_new = λ h. cc;
  error_is_old = λ h. cc;
}

evidence-IsAssigned :
    (probe_id : String) (outcome : CheckState)
    → outcome ≢ CheckState.unset
    → IsAssigned "shop" probe_id (evidence probe_id outcome)
evidence-IsAssigned probe_id outcome h = record { check = refl; probe = refl; set = h }

fleet_quorum : Q.IsWellFormed fleet.probes "shop" shop_quorum
unfolding lookup
fleet_quorum = record {
  named = refl;
  coherent = wavering-IsCoherent;
  children = (
    (evidence-IsAssigned "a" CheckState.up (λ h. cc), refl),
    (
      (evidence-IsAssigned "b" CheckState.down (λ h. cc), refl),
      ((evidence-IsAssigned "c" CheckState.down (λ h. cc), refl), tt),
    ),
  );
}

pub fleet-IsWellFormed : IsWellFormed fleet
unfolding lookup
fleet-IsWellFormed = record { quorums = (fleet_quorum, tt) }

abbrev pub saw_down : String → Time → ObservedResult
saw_down probe_id at = record {
  check = shop;
  result = record {
    check_id = "shop";
    check_name = "Shop";
    probe_id = probe_id;
    check_type = "http";
    target = "https://shop.test";
    up = false;
    latency = ℤ.pos 3;
    error = " timeout ";
    timestamp = at;
  };
}

abbrev pub saved_rows : List PersistedCheckState
saved_rows =
    record {
      check_id = "shop";
      probe_id = "a";
      last_result_at = 7;
      last_outcome = "down";
      streak_len = 2;
      expires_at = 90;
      state = "down";
      last_error = "timeout";
    }
    ∷ []

abbrev pub saved_probes : List PersistedProbeState
saved_probes = record { probe_id = "a"; last_seen_at = some 7 } ∷ []
