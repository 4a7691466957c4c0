-- ===== src/Monitoring/CheckMachine/Streak.antt =====
-- internal/monitoring/check_machine.go: a machine after a history of calls.
use wacht.Shared.{
  ℕ, suc, ◌+◌, ◌≤◌, String, ◌≡◌, ◌≢◌, refl, Option, List, [], ◌∷◌, arith, if◌then◌else◌,
}
use wacht.Monitoring.Types.{Time, CheckState, CheckTrigger, same_check_state}
use wacht.Monitoring.Stateless.{Stateless}
use wacht.Monitoring.CheckMachine.{
  CheckMachine, new_check_machine, observe_up, observe_down, lose_evidence, mark_error,
}
use wacht.Monitoring.CheckMachine.Fire.{fire-fired}

-- A call of one of the four methods.
pub data CheckEvent : Type 0 where
  saw_up : Time → Option Time → CheckEvent
  saw_down : Time → Option Time → String → CheckEvent
  lost : CheckEvent
  failed : String → CheckEvent

-- The outcome that an event reports.
abbrev pub outcome_of : CheckEvent → CheckState
outcome_of (saw_up at expires_at) = CheckState.up
outcome_of (saw_down at expires_at message) = CheckState.down
outcome_of lost = CheckState.unset
outcome_of (failed message) = CheckState.error

-- Histories have the newest event first.
abbrev pub newest : List CheckEvent → CheckState
newest [] = CheckState.unset
newest (e ∷ past) = outcome_of e

-- How many of the newest events, one after another, report the outcome.
abbrev pub repeats : CheckState → List CheckEvent → ℕ
repeats o [] = 0
repeats o (e ∷ past) =
    let rest = repeats o past in if same_check_state (outcome_of e) o then suc rest else 0

abbrev pub streak : List CheckEvent → ℕ
streak [] = 0
streak (lost ∷ past) = 0
streak (e ∷ past) = repeats (outcome_of e) (e ∷ past)

-- An observation counts once the event before it has the same outcome.
abbrev pub verdict : List CheckEvent → CheckState
verdict [] = CheckState.missing
verdict (lost ∷ past) = CheckState.missing
verdict (failed message ∷ past) = CheckState.error
verdict (e ∷ past) =
    if same_check_state (newest past) (outcome_of e) then outcome_of e else CheckState.missing

module _ ⦃lib : Stateless⦄ where
  pub apply : CheckEvent → CheckMachine → CheckMachine
  apply (saw_up at expires_at) m = (observe_up at expires_at m).0
  apply (saw_down at expires_at message) m = (observe_down at expires_at message m).0
  apply lost m = (lose_evidence m).0
  apply (failed message) m = (mark_error message m).0

  pub after : String → String → List CheckEvent → CheckMachine
  after check_id probe_id [] = new_check_machine check_id probe_id
  after check_id probe_id (e ∷ past) = apply e (after check_id probe_id past)

  pub record Remembers (m : CheckMachine) (past : List CheckEvent) : Type 0 where
    pub outcome : m.last_outcome ≡ newest past
    pub length : m.streak_len ≡ streak past
    pub voted : m.state ≡ verdict past

  verdict_set : (past : List CheckEvent) → verdict past ≢ CheckState.unset
  verdict_set [] h = cc
  verdict_set (e ∷ past) h = ground arith

  -- A further event of the same outcome makes the run one longer.
  streak-cons :
      (e : CheckEvent) (past : List CheckEvent)
      → e ≢ lost
      → streak (e ∷ past)
        ≡ (if same_check_state (newest past) (outcome_of e) then streak past + 1 else 1)
  streak-cons e [] h = ground arith
  streak-cons e (f ∷ past) h = ground arith

  streak_pos : (past : List CheckEvent) → newest past ≢ CheckState.unset → 1 ≤ streak past
  streak_pos [] h = absurd (h refl)
  streak_pos (e ∷ past) h = ground arith

  apply-Remembers :
      (e : CheckEvent) (m : CheckMachine) (past : List CheckEvent)
      → Remembers m past
      → Remembers (apply e m) (e ∷ past)
  unfolding apply observe_up observe_down lose_evidence mark_error
  apply-Remembers (saw_up at expires_at) m past h = ground (
    arith,
    fire-fired m.state CheckTrigger.observe_up,
    verdict_set past,
    streak_pos past,
    streak-cons (saw_up at expires_at) past,
  )
  apply-Remembers (saw_down at expires_at message) m past h = ground (
    arith,
    fire-fired m.state CheckTrigger.observe_down,
    verdict_set past,
    streak_pos past,
    streak-cons (saw_down at expires_at message) past,
  )
  apply-Remembers lost m past h =
      ground (arith, fire-fired m.state CheckTrigger.lose_evidence, verdict_set past)
  apply-Remembers (failed message) m past h = ground (
    arith,
    fire-fired m.state CheckTrigger.mark_error,
    verdict_set past,
    streak-cons (failed message) past,
  )

  -- After any calls on a new machine, the stored outcome is that of the newest call, the streak is
  -- the number of newest calls in a row with that outcome (0 once the evidence is lost), and the
  -- state is missing unless the two newest calls are observations of one outcome, or error after a
  -- call that marks an error.
  pub after-Remembers :
      (check_id probe_id : String) (past : List CheckEvent)
      → Remembers (after check_id probe_id past) past
  unfolding after new_check_machine
  after-Remembers check_id probe_id [] = record { outcome = refl; length = refl; voted = refl }
  after-Remembers check_id probe_id (e ∷ past) =
      apply-Remembers e (after check_id probe_id past) past (after-Remembers check_id probe_id past)
