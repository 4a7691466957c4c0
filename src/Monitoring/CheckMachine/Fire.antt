-- ===== src/Monitoring/CheckMachine/Fire.antt =====
-- The library's `Fire` on the configuration of internal/monitoring/check_machine.go.
use wacht.Shared.{◌≡◌, refl, Option, none, some}
use wacht.Monitoring.Types.{CheckState, CheckTrigger}
use wacht.Monitoring.Stateless.{Stateless}
use wacht.Monitoring.CheckMachine.{check_configuration}

abbrev pub target_of : CheckTrigger → CheckState
target_of CheckTrigger.observe_up = CheckState.up
target_of CheckTrigger.observe_down = CheckState.down
target_of CheckTrigger.lose_evidence = CheckState.missing
target_of CheckTrigger.mark_error = CheckState.error

-- Every trigger is permitted in every state but the empty one, and its target is fixed.
abbrev pub fired : CheckState → CheckTrigger → Option CheckState
fired CheckState.unset t = none
fired _ t = some (target_of t)

module _ ⦃lib : Stateless⦄ where
  pub fire-fired :
      (s : CheckState) (t : CheckTrigger) → lib.check.fire check_configuration s t ≡ fired s t
  unfolding check_configuration
  fire-fired CheckState.unset t = lib.check.fire_refused _ _ _ refl
  fire-fired CheckState.up CheckTrigger.observe_up = lib.check.fire_permitted _ _ _ _ refl
  fire-fired CheckState.up CheckTrigger.observe_down = lib.check.fire_permitted _ _ _ _ refl
  fire-fired CheckState.up CheckTrigger.lose_evidence = lib.check.fire_permitted _ _ _ _ refl
  fire-fired CheckState.up CheckTrigger.mark_error = lib.check.fire_permitted _ _ _ _ refl
  fire-fired CheckState.down CheckTrigger.observe_up = lib.check.fire_permitted _ _ _ _ refl
  fire-fired CheckState.down CheckTrigger.observe_down = lib.check.fire_permitted _ _ _ _ refl
  fire-fired CheckState.down CheckTrigger.lose_evidence = lib.check.fire_permitted _ _ _ _ refl
  fire-fired CheckState.down CheckTrigger.mark_error = lib.check.fire_permitted _ _ _ _ refl
  fire-fired CheckState.missing CheckTrigger.observe_up = lib.check.fire_permitted _ _ _ _ refl
  fire-fired CheckState.missing CheckTrigger.observe_down = lib.check.fire_permitted _ _ _ _ refl
  fire-fired CheckState.missing CheckTrigger.lose_evidence = lib.check.fire_permitted _ _ _ _ refl
  fire-fired CheckState.missing CheckTrigger.mark_error = lib.check.fire_permitted _ _ _ _ refl
  fire-fired CheckState.error CheckTrigger.observe_up = lib.check.fire_permitted _ _ _ _ refl
  fire-fired CheckState.error CheckTrigger.observe_down = lib.check.fire_permitted _ _ _ _ refl
  fire-fired CheckState.error CheckTrigger.lose_evidence = lib.check.fire_permitted _ _ _ _ refl
  fire-fired CheckState.error CheckTrigger.mark_error = lib.check.fire_permitted _ _ _ _ refl
