-- ===== src/Monitoring/Recovery/Restored.antt =====
-- internal/monitoring/recovery.go: the invariant of the runtime that a server starts with.
use wacht.Shared.{
  String, ◌≡◌, ◌≢◌, refl, ap, true, Option, none, some, List, [], ◌∷◌, arith, All, is_some,
  Option-cases, Bool-cases, inl, inr, map,
}
use wacht.Shared.Dict.{Dict, lookup}
use wacht.Shared.Dict.Every.{All-insert}
use wacht.Shared.Action.{Result-cases, ok, err}
use wacht.Checks.{Check}
use wacht.Store.Writes.{PersistedProbeState, PersistedCheckState}
use wacht.Monitoring.Types.{
  Time, CheckState, ProbeState, Error, check_state_of, new_check_quorum_state,
}
use wacht.Monitoring.Stateless.{Stateless}
use wacht.Monitoring.ProbeMachine.{ProbeMachine}
use wacht.Monitoring.QuorumMachine
use wacht.Monitoring.QuorumMachine.{QuorumMachine, recompute}
use wacht.Monitoring.QuorumMachine.WellFormed as Q
use wacht.Monitoring.Ids.{contains}
use wacht.Monitoring.Runtime.{Runtime, new_runtime}
use wacht.Monitoring.Runtime.WellFormed.{
  IsQuorum, IsWellFormed, put_probe-IsWellFormed, put_quorum-IsWellFormed, lookup-IsQuorum,
}
use wacht.Monitoring.Runtime.Methods.{new_runtime-IsWellFormed}
use wacht.Monitoring.Runtime.Degradation.{
  apply_probe_degradation-IsWellFormed, apply_probe_degradation_accepted,
}
use wacht.Monitoring.Recovery.{
  persisted_check_exec_state, restore_child, restore_check_state, restore_check_states,
  restore_probe, restore_probes, restart_quorum, restart_quorums, drop_unseen, build_runtime,
  drop_one,
}

-- The state of a row is one that the schema admits.
abbrev pub IsAdmitted : PersistedCheckState → Type 0
IsAdmitted row = check_state_of row.state ≢ CheckState.unset

restore_child-IsWellFormed :
    (known : Dict ProbeMachine) (row : PersistedCheckState) (q : QuorumMachine)
    → IsAdmitted row
    → is_some (lookup row.probe_id known) ≡ true
    → Q.IsWellFormed known row.check_id q
    → Q.IsWellFormed known row.check_id (restore_child row q)
unfolding restore_child
restore_child-IsWellFormed known row q a k h =
    let added = Q.add_probe-IsWellFormed known row.check_id row.probe_id q k h in
    record {
      named = added.named;
      coherent = added.coherent;
      children =
          All-insert (Q.IsChild known row.check_id) row.probe_id (persisted_check_exec_state row)
            (QuorumMachine.add_probe row.probe_id q).0.checks added.children
            (record { check = refl; probe = refl; set = a }, k);
    }

restore_check_state-IsWellFormed :
    (row : PersistedCheckState) (r : Runtime)
    → IsAdmitted row
    → IsWellFormed r
    → IsWellFormed (restore_check_state row r)
unfolding restore_check_state
restore_check_state-IsWellFormed row r a h = elim (Option-cases (lookup row.check_id r.quorums)) [
  | inl e ↦ rw (e, restore_check_state) h
  | inr (q, e) ↦ elim (Option-cases (lookup row.probe_id r.probes)) [
    | inl f ↦ rw (e, f, restore_check_state) h
    | inr (probe, f) ↦
        rw (e, f, restore_check_state)
          (put_quorum-IsWellFormed row.check_id (restore_child row q) r h (
            restore_child-IsWellFormed r.probes row q a (ap is_some f)
              (lookup-IsQuorum row.check_id r h e)))
  ]
]

restore_check_states-IsWellFormed :
    (rows : List PersistedCheckState) (r : Runtime)
    → All IsAdmitted rows
    → IsWellFormed r
    → IsWellFormed (restore_check_states rows r)
unfolding restore_check_states
restore_check_states-IsWellFormed [] r a h = h
restore_check_states-IsWellFormed (row ∷ rows) r a h =
    restore_check_states-IsWellFormed rows (restore_check_state row r) a.1
      (restore_check_state-IsWellFormed row r a.0 h)

restore_probes-IsWellFormed :
    (rows : List PersistedProbeState) (r : Runtime)
    → IsWellFormed r
    → IsWellFormed (restore_probes rows r)
unfolding restore_probes
restore_probes-IsWellFormed [] r h = h
restore_probes-IsWellFormed (row ∷ rows) r h =
    restore_probes-IsWellFormed rows (restore_probe row r)
      (elim (Option-cases (lookup row.probe_id r.probes)) [
        | inl e ↦ rw (e, restore_probe) h
        | inr (probe, e) ↦ elim (Option-cases row.last_seen_at) [
          | inl f ↦ rw (e, f, restore_probe) h
          | inr (at, f) ↦ rw (e, f, restore_probe) (put_probe-IsWellFormed row.probe_id _ r h)
        ]
      ])

restart_quorum-IsWellFormed :
    (known : Dict ProbeMachine) (open_ids : List String) (check_id : String) (q : QuorumMachine)
    → Q.IsWellFormed known check_id q
    → Q.IsWellFormed known check_id (restart_quorum open_ids check_id q)
unfolding restart_quorum new_check_quorum_state
restart_quorum-IsWellFormed known open_ids check_id q h =
    elim (Bool-cases (contains check_id open_ids)) [
      | inl e ↦
          rw (e, restart_quorum)
            (Q.recompute-IsWellFormed known check_id _
              (record { named = refl; coherent = ground arith; children = h.children }))
      | inr e ↦
          rw (e, restart_quorum)
            (Q.recompute-IsWellFormed known check_id _
              (record { named = refl; coherent = ground arith; children = h.children }))
    ]

restart_quorums-All :
    (known : Dict ProbeMachine) (open_ids : List String) (m : Dict QuorumMachine)
    → All (IsQuorum known) m
    → All (IsQuorum known) (restart_quorums open_ids m)
unfolding restart_quorums
restart_quorums-All known open_ids [] h = tt
restart_quorums-All known open_ids ((check_id, q) ∷ m) h = (
  restart_quorum-IsWellFormed known open_ids check_id q h.0,
  restart_quorums-All known open_ids m h.1,
)

module _ ⦃lib : Stateless⦄ where
  drop_one-IsWellFormed :
      (at : Option Time) (probe_id : String) (r : Runtime)
      → IsWellFormed r
      → IsWellFormed (drop_one at probe_id r).0
  unfolding drop_one
  drop_one-IsWellFormed (some at) probe_id r h = h
  drop_one-IsWellFormed none probe_id r h =
      apply_probe_degradation-IsWellFormed r h probe_id ProbeState.offline ""

  drop_one_accepted :
      (at : Option Time) (probe_id : String) (r : Runtime)
      → IsWellFormed r
      → (e : Error) → (drop_one at probe_id r).1 ≢ err e
  unfolding drop_one
  drop_one_accepted (some at) probe_id r h e f = cc
  drop_one_accepted none probe_id r h e f =
      apply_probe_degradation_accepted r h probe_id ProbeState.offline "" e f

  drop_unseen-IsWellFormed :
      (m : Dict ProbeMachine) (r : Runtime)
      → IsWellFormed r
      → IsWellFormed (drop_unseen m r).0 × ((drop_unseen m r).1 ≡ ok tt)
  unfolding drop_unseen
  drop_unseen-IsWellFormed [] r h = (h, refl)
  drop_unseen-IsWellFormed ((probe_id, probe) ∷ m) r h =
      let step = drop_one probe.last_heartbeat_at probe_id r in
      elim (Result-cases step.1) [
        | inl (done, s) ↦
            rw (s, drop_unseen)
              (drop_unseen-IsWellFormed m step.0
                (drop_one-IsWellFormed probe.last_heartbeat_at probe_id r h))
        | inr (x, s) ↦ absurd (drop_one_accepted probe.last_heartbeat_at probe_id r h x s)
      ]

  -- If every persisted check state has a state that the schema admits, the runtime is built, and it
  -- is well formed.
  pub build_runtime-IsWellFormed :
      (checks : List Check) (probes : List PersistedProbeState) (rows : List PersistedCheckState)
      (open_ids : List String)
      → All IsAdmitted rows
      → (r : Runtime) × (build_runtime checks probes rows open_ids ≡ ok r) × IsWellFormed r
  unfolding build_runtime
  build_runtime-IsWellFormed checks probes rows open_ids a =
      let start = new_runtime (map (λ c. c.id) checks) (map (λ p. p.probe_id) probes) in
      let r = restore_probes probes (restore_check_states rows start) in
      let h =
        restore_probes-IsWellFormed probes (restore_check_states rows start)
          (restore_check_states-IsWellFormed rows start a (new_runtime-IsWellFormed _ _)) in
      let d = drop_unseen r.probes r in
      let k = drop_unseen-IsWellFormed r.probes r h in
      (
        record d.0 { quorums = restart_quorums open_ids d.0.quorums },
        ground (arith, k.1),
        record { quorums = restart_quorums-All d.0.probes open_ids d.0.quorums k.0.quorums },
      )
