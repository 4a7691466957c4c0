-- ===== src/Tests/Machines.antt =====
-- Runs of the check and quorum machines, and of `uniqueIDs`.
use mathlib.Core.List.{Permᴰ}
use wacht.Shared.{◌≡◌, ◌≢◌, ◌⊎◌, ◌↔◌, refl, true, none, List, [], ◌∷◌, String}
use wacht.Shared.Dict.{Dict}
use wacht.Monitoring.Types.{QuorumState}
use wacht.Monitoring.CheckMachine.{CheckMachine}
use wacht.Monitoring.CheckMachine.Streak.{
  CheckEvent, saw_up, saw_down, lost, after, Remembers, after-Remembers,
}
use wacht.Monitoring.QuorumMachine.{next_state}
use wacht.Monitoring.QuorumMachine.Votes.{Majority, next_state-Majority, next_state-Perm}
use wacht.Monitoring.QuorumMachine.Incidents.{incident_open_iff, next_state_confirmed}
use wacht.Monitoring.Ids.{unique_ids}
use wacht.Monitoring.Ids.Unique.{IsUnique, unique_ids-IsUnique}
use wacht.Tests.Data.{interpreter, children, wavering, wavering-IsCoherent}

abbrev history : List CheckEvent
history = saw_down 9 none "timeout" ∷ saw_down 8 none "timeout" ∷ lost ∷ saw_up 3 none ∷ []

after-Remembers_example : Remembers (after "shop" "a" history) history
after-Remembers_example = after-Remembers "shop" "a" history

next_state-Majority_example : Majority wavering children
next_state-Majority_example = next_state-Majority wavering children

-- Two votes of three are for down, a second time: the incident opens.
incident_opens :
    next_state children wavering
    ≡ record wavering { last_stable_state = QuorumState.down; incident_open = true }
unfolding next_state
incident_opens = refl

abbrev turned : Dict CheckMachine
turned = elim children [ a ∷ b ∷ rest ↦ b ∷ a ∷ rest | m ↦ m ]

next_state-Perm_example : next_state children wavering ≡ next_state turned wavering
next_state-Perm_example = next_state-Perm wavering children turned ∣ Permᴰ.swap refl refl ∣₁

incident_open_iff_example : ((next_state children wavering).incident_open ≡ true) ↔ (
    ((next_state children wavering).last_stable_state ≡ QuorumState.down)
    × ((wavering.incident_open ≡ true) ⊎ (wavering.last_stable_state ≡ QuorumState.up)))
incident_open_iff_example = incident_open_iff children wavering wavering-IsCoherent

stable_changes : (next_state children wavering).last_stable_state ≢ wavering.last_stable_state
unfolding next_state
stable_changes h = cc

next_state_confirmed_example :
    (wavering.state ≡ (next_state children wavering).state)
    × ((next_state children wavering).last_stable_state ≡ (next_state children wavering).state)
next_state_confirmed_example = next_state_confirmed children wavering stable_changes

abbrev ids : List String
ids = "b" ∷ "" ∷ "a" ∷ "b" ∷ []

unique_ids-IsUnique_example : IsUnique ids (unique_ids ids)
unique_ids-IsUnique_example = unique_ids-IsUnique ids
