-- ===== src/Monitoring/QuorumMachine/Votes.antt =====
-- `Recompute` of internal/monitoring/quorum_machine.go: the votes and the aggregate state.
use mathlib.Core.List.{Perm, Permᴰ}
use mathlib.Core.Logic.{∥∥₁_elim}
use text.Mathlib.TextEquality.{IsScalar-prop}
use wacht.Shared.{
  refl, ◌∙◌, ap, ℕ, suc, ◌+◌, ◌*◌, ◌≤◌, ◌<◌, ◌≡◌, ◌↔◌, [], ◌∷◌, arith, length, if◌then◌else◌,
}
use wacht.Shared.Dict.{Dict}
use wacht.Monitoring.Types.{CheckState, QuorumState, CheckQuorumState, same_check_state}
use wacht.Monitoring.CheckMachine.{CheckMachine}
use wacht.Monitoring.QuorumMachine.{Tally, add_vote, tally, quorum_contribution, next_state}

-- How many children cast this vote.
unfoldable pub votes : CheckState → CheckQuorumState → Dict CheckMachine → ℕ
votes v current [] = 0
votes v current ((probe_id, check) ∷ m) =
    let rest = votes v current m in
    if same_check_state (quorum_contribution check current) v then suc rest else rest

pub tally-votes :
    (current : CheckQuorumState) (m : Dict CheckMachine) (t : Tally)
    → tally current m t ≡ record {
      up_votes = t.up_votes + votes CheckState.up current m;
      down_votes = t.down_votes + votes CheckState.down current m;
    }
unfolding tally votes
tally-votes current [] t = ground arith
tally-votes current ((probe_id, check) ∷ m) t =
    ground (arith, tally-votes current m (add_vote (quorum_contribution check current) t))

pub votes-le-length :
    (current : CheckQuorumState) (m : Dict CheckMachine)
    → votes CheckState.up current m + votes CheckState.down current m ≤ length m
unfolding votes
votes-le-length current [] = omega arith
votes-le-length current (e ∷ m) = ground (arith, votes-le-length current m)

-- What the votes decide.
pub record Majority (current : CheckQuorumState) (m : Dict CheckMachine) : Type 0 where
  pub up_iff :
      ((next_state m current).state ≡ QuorumState.up)
      ↔ (length m < 2 * votes CheckState.up current m)
  pub down_iff :
      ((next_state m current).state ≡ QuorumState.down)
      ↔ (length m < 2 * votes CheckState.down current m)
  pub pending_iff : ((next_state m current).state ≡ QuorumState.pending) ↔ (
      (2 * votes CheckState.up current m ≤ length m)
      × (2 * votes CheckState.down current m ≤ length m)
      × (current.last_stable_state ≡ QuorumState.unset))

-- The aggregate state becomes up exactly when more than half of the children vote up, down exactly
-- when more than half vote down, and pending exactly when neither holds and no state has been stable
-- yet.
pub next_state-Majority : (current : CheckQuorumState) (m : Dict CheckMachine) → Majority current m
unfolding next_state
next_state-Majority current m = ground (
  arith,
  votes-le-length current m,
  tally-votes current m (record { up_votes = 0; down_votes = 0 }),
)

-- The order in which the map is gone through does not matter.
votes-permᴰ :
    (v : CheckState) (current : CheckQuorumState) {m n : Dict CheckMachine}
    → Permᴰ m n
    → votes v current m ≡ votes v current n
unfolding votes
votes-permᴰ v current Permᴰ.nil = refl
votes-permᴰ v current (Permᴰ.cons e p) = ground (arith, e, votes-permᴰ v current p)
votes-permᴰ v current (Permᴰ.swap e f) = ground (arith, e, f)
votes-permᴰ v current (Permᴰ.trans p q) = votes-permᴰ v current p ∙ votes-permᴰ v current q

length-permᴰ : {m n : Dict CheckMachine} → Permᴰ m n → length m ≡ length n
length-permᴰ Permᴰ.nil = refl
length-permᴰ (Permᴰ.cons e p) = ap suc (length-permᴰ p)
length-permᴰ (Permᴰ.swap e f) = refl
length-permᴰ (Permᴰ.trans p q) = length-permᴰ p ∙ length-permᴰ q

-- Two maps with the same entries, gone through in any orders, give one aggregate state.
pub next_state-Perm :
    (current : CheckQuorumState) (m n : Dict CheckMachine)
    → Perm m n
    → next_state m current ≡ next_state n current
unfolding next_state
next_state-Perm current m n p =
    let zero_tally : Tally = record { up_votes = 0; down_votes = 0 } in
    ∥∥₁_elim p (hlevel IsScalar-prop) λ q. ground (
      arith,
      tally-votes current m zero_tally,
      tally-votes current n zero_tally,
      votes-permᴰ CheckState.up current q,
      votes-permᴰ CheckState.down current q,
      length-permᴰ q,
    )
