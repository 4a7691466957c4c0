-- ===== src/Monitoring/Stateless.antt =====
-- The state machine library github.com/qmuntal/stateless, which is not part of the repository. A
-- machine's configuration is what the calls `Configure(s).Permit(t, d)` and `.PermitReentry(t)` say.
-- `Fire` is a parameter: given the state that the external storage returns, it stores the new state
-- or fails and stores nothing. The laws are its documented behaviour.
use wacht.Shared.{◌≡◌, Bool, Option, none, some, List, [], ◌∷◌, ◌++◌, if◌then◌else◌}
use wacht.Monitoring.Types.{
  same_probe_state, same_probe_trigger, same_check_state, same_check_trigger,
}

pub data Permit (S T : Type 0) : Type 0 where
  permit : T → S → Permit S T
  permit_reentry : T → Permit S T

abbrev pub Configuration : Type 0 → Type 0 → Type 0
Configuration S T = List (S × List (Permit S T))

module _ {S T : Type 0} (same_state : S → S → Bool) (same_trigger : T → T → Bool) where
  -- Where the trigger may lead from a state with these permits.
  abbrev pub permitted : S → T → List (Permit S T) → List S
  permitted s t [] = []
  permitted s t (permit u d ∷ ps) =
      let rest = permitted s t ps in if same_trigger u t then d ∷ rest else rest
  permitted s t (permit_reentry u ∷ ps) =
      let rest = permitted s t ps in if same_trigger u t then s ∷ rest else rest

  abbrev pub targets : Configuration S T → S → T → List S
  targets [] s t = []
  targets ((u, ps) ∷ config) s t =
      let rest = targets config s t in if same_state u s then permitted s t ps ++ rest else rest

  pub record StateMachine : Type 0 where
    pub fire : Configuration S T → S → T → Option S
    -- A trigger with one permitted transition makes it.
    pub fire_permitted :
        (config : Configuration S T) (s : S) (t : T) (d : S)
        → targets config s t ≡ d ∷ []
        → fire config s t ≡ some d
    -- A trigger that the current state does not permit is an error.
    pub fire_refused :
        (config : Configuration S T) (s : S) (t : T)
        → targets config s t ≡ []
        → fire config s t ≡ none

-- The library at the two kinds of machine that the program builds.
pub record Stateless : Type 0 where
  pub probe : StateMachine same_probe_state same_probe_trigger
  pub check : StateMachine same_check_state same_check_trigger
