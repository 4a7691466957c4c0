-- ===== src/Monitoring/ProbeSweep/Complete.antt =====
-- `SweepProbes` of internal/monitoring/sweepers.go: the probes after the whole sweep.
use wacht.Shared.{
  ℕ, ◌+◌, String, ◌≡◌, refl, true, false, Option, none, some, List, [], ◌∷◌, arith, ◌||◌, ◌⊎◌, inl,
  inr, is_some, eq_iff, eq_refl, ◌==◌, if◌then◌else◌, Option-cases, Bool-cases,
}
use mathlib.Core.Path.{subst}
use wacht.Shared.Time.{Time, Duration}
use wacht.Shared.Int.{is_nonpositive}
use wacht.Shared.Text.{insert_sorted, sort_strings}
use wacht.Shared.Dict.{Dict, lookup, insert, keys, lookup-insert}
use wacht.Shared.Action.{Result, Result-cases}
use wacht.Store.Writes.{MonitoringStore}
use wacht.Monitoring.Types.{ProbeState, Error}
use wacht.Monitoring.Stateless.{Stateless}
use wacht.Monitoring.ProbeMachine.{ProbeMachine}
use wacht.Monitoring.Ids.{contains}
use wacht.Monitoring.Runtime.{Runtime}
use wacht.Monitoring.Runtime.WellFormed.{IsWellFormed, put_probe-IsWellFormed}
use wacht.Monitoring.Runtime.Degradation.{apply_probe_degradation-IsWellFormed}
use wacht.Monitoring.ProbeSweep.{is_sweepable, sweep_probe, sweep_each, sweep_probes}
use wacht.Monitoring.ProbeSweep.Effect.{sweep_probe-outcome, degradation-map_values, offline}

-- A probe, if it is there, is offline, has no heartbeat, or has one that is fresh.
abbrev pub IsFresh : Time → Duration → Option ProbeMachine → Type 0
IsFresh now offline_after none = Unit
IsFresh now offline_after (some probe) = is_sweepable now offline_after probe ≡ false

contains-keys : (j : String) (m : Dict ProbeMachine) → contains j (keys m) ≡ is_some (lookup j m)
unfolding contains lookup
contains-keys j [] = refl
contains-keys j ((k, v) ∷ m) = ground (arith, contains-keys j m)

module _ ⦃lib : Stateless⦄ (now : Time) (offline_after : Duration) where
  pub sweep_probe-IsWellFormed :
      (probe_id : String) (r : Runtime)
      → IsWellFormed r
      → IsWellFormed (sweep_probe now offline_after probe_id r).0
  sweep_probe-IsWellFormed probe_id r h =
      rw (sweep_probe-outcome now offline_after probe_id r h)
        (elim (Option-cases (lookup probe_id r.probes)) [
          | inl e ↦ rw e h
          | inr (probe, e) ↦ elim (Bool-cases (is_sweepable now offline_after probe)) [
            | inr s ↦ rw e (rw s h)
            | inl s ↦
                let r' : Runtime = record r { probes = insert probe_id (offline probe) r.probes } in
                let h' = put_probe-IsWellFormed probe_id (offline probe) r h in
                rw e (
                  rw s (
                    subst (λ (p : Runtime × Result Error (Unit {0})). IsWellFormed p.0)
                      (degradation-map_values probe_id r' h')
                      (apply_probe_degradation-IsWellFormed r' h' probe_id ProbeState.offline "")))
          ]
        ])

  sweep_probe_known :
      (probe_id j : String) (r : Runtime)
      → IsWellFormed r
      → is_some (lookup j r.probes) ≡ true
      → is_some (lookup j (sweep_probe now offline_after probe_id r).0.probes) ≡ true
  sweep_probe_known probe_id j r h k = elim (Option-cases (lookup probe_id r.probes)) [
    | inl e ↦ ground (arith, sweep_probe-outcome now offline_after probe_id r h)
    | inr (probe, e) ↦ ground (
      arith,
      sweep_probe-outcome now offline_after probe_id r h,
      lookup-insert probe_id j (offline probe) r.probes,
    )
  ]

  -- The swept probe is fresh, and the others stay as fresh as they were.
  sweep_probe-IsFresh :
      (probe_id j : String) (r : Runtime)
      → IsWellFormed r
      → ((probe_id == j) ≡ true) ⊎ IsFresh now offline_after (lookup j r.probes)
      → IsFresh now offline_after (lookup j (sweep_probe now offline_after probe_id r).0.probes)
  unfolding is_sweepable
  sweep_probe-IsFresh probe_id j r h f = elim (Option-cases (lookup probe_id r.probes)) [
    | inl e ↦ ground (arith, sweep_probe-outcome now offline_after probe_id r h, eq_iff probe_id j)
    | inr (probe, e) ↦ ground (
      arith,
      sweep_probe-outcome now offline_after probe_id r h,
      lookup-insert probe_id j (offline probe) r.probes,
      eq_iff probe_id j,
    )
  ]

  sweep_each-IsFresh :
      (ids : List String) (n : ℕ) (j : String) (r : Runtime)
      → IsWellFormed r
      → ((id : String) → contains id ids ≡ true → is_some (lookup id r.probes) ≡ true)
      → (contains j ids ≡ true) ⊎ IsFresh now offline_after (lookup j r.probes)
      → IsFresh now offline_after (lookup j (sweep_each now offline_after ids n r).0.probes)
        × ((sweep_each now offline_after ids n r).1.error ≡ none)
  unfolding sweep_each contains
  sweep_each-IsFresh [] n j r h known f = ground arith
  sweep_each-IsFresh (id ∷ ids) n j r h known f =
      let step = sweep_probe now offline_after id r in
      elim (Option-cases (lookup id r.probes)) [
        | inl e ↦ absurd (ground (arith, known id, eq_refl id))
        | inr (probe, e) ↦ elim (Result-cases step.1) [
          | inr (x, s) ↦ absurd (ground (arith, sweep_probe-outcome now offline_after id r h))
          | inl (done, s) ↦
              rw (s, sweep_each)
                (sweep_each-IsFresh ids (if done then n + 1 else n) j step.0
                  (sweep_probe-IsWellFormed id r h)
                  (λ k c. sweep_probe_known id k r h (ground (arith, known k)))
                  (ground (arith, sweep_probe-IsFresh id j r h)))
        ]
      ]

contains-insert_sorted :
    (j s : String) (ts : List String) → contains j (insert_sorted s ts) ≡ (s == j || contains j ts)
unfolding contains insert_sorted
contains-insert_sorted j s [] = refl
contains-insert_sorted j s (t ∷ ts) = ground (arith, contains-insert_sorted j s ts)

contains-sort_strings :
    (j : String) (ss : List String) → contains j (sort_strings ss) ≡ contains j ss
unfolding contains sort_strings
contains-sort_strings j [] = refl
contains-sort_strings j (s ∷ ss) =
    ground (arith, contains-insert_sorted j s (sort_strings ss), contains-sort_strings j ss)

-- A sweep of a well-formed runtime with a positive limit succeeds, and after it every probe is offline,
-- has no heartbeat, or has a heartbeat that is younger than the limit.
pub sweep_probes-IsFresh :
    ⦃lib : Stateless⦄ {S : Type 0} (now : Time) (offline_after : Duration) (r : Runtime)
    (st : MonitoringStore S Error)
    → IsWellFormed r
    → is_nonpositive offline_after ≡ false
    → (r' : Runtime) × ((sweep_probes (some r) (some st) now offline_after).0 ≡ some r')
      × ((sweep_probes (some r) (some st) now offline_after).1.error ≡ none)
      × ((j : String) → IsFresh now offline_after (lookup j r'.probes))
unfolding sweep_probes
sweep_probes-IsFresh now offline_after r st h positive =
    let ids = sort_strings (keys r.probes) in
    let known : (id : String) → contains id ids ≡ true → is_some (lookup id r.probes) ≡ true =
      λ id c. ground (arith, contains-sort_strings id (keys r.probes), contains-keys id r.probes) in
    let all : (j : String)
        → (contains j ids ≡ true) ⊎ IsFresh now offline_after (lookup j r.probes) =
      λ j. ground (arith, contains-sort_strings j (keys r.probes), contains-keys j r.probes) in
    let done = λ (j : String). sweep_each-IsFresh now offline_after ids 0 j r h known (all j) in
    (
      (sweep_each now offline_after ids 0 r).0,
      rw positive refl,
      rw positive (done "").1,
      λ j. (done j).0,
    )
