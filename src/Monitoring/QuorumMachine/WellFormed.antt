-- ===== src/Monitoring/QuorumMachine/WellFormed.antt =====
-- internal/monitoring/quorum_machine.go: the invariant of the machine of a check.
use wacht.Shared.{
  String, ◌≡◌, ◌≢◌, refl, true, Option, some, [], arith, All, is_some, Option-cases, inl, inr,
}
use wacht.Shared.Dict.{Dict, lookup, insert}
use wacht.Shared.Dict.Every.{All-lookup, All-insert}
use wacht.Shared.Action.{Action, Result-cases, err, ◌>>=◌}
use wacht.Monitoring.Types.{Time, Error, CheckTransition}
use wacht.Monitoring.Stateless.{Stateless}
use wacht.Monitoring.ProbeMachine.{ProbeMachine}
use wacht.Monitoring.CheckMachine
use wacht.Monitoring.CheckMachine.{CheckMachine, new_check_machine}
use wacht.Monitoring.CheckMachine.Assigned.{
  IsAssigned, new_check_machine-IsAssigned, observe_up-IsAssigned, observe_down-IsAssigned,
  lose_evidence-IsAssigned, mark_error-IsAssigned,
}
use wacht.Monitoring.QuorumMachine.{
  QuorumMachine, new_quorum_machine, recompute, add_probe, on_child, updated, observe_up,
  observe_down, lose_evidence, mark_check_error,
}
use wacht.Monitoring.QuorumMachine.Incidents.{IsCoherent, new-IsCoherent, next_state-IsCoherent}

module _ (known : Dict ProbeMachine) (check_id : String) where
  -- An entry of the map of children: the machine of a known probe, under the probe's ID.
  abbrev pub IsChild : String × CheckMachine → Type 0
  IsChild (probe_id, c) = IsAssigned check_id probe_id c × (is_some (lookup probe_id known) ≡ true)

  pub record IsWellFormed (q : QuorumMachine) : Type 0 where
    pub named : q.state.check_id ≡ check_id
    pub coherent : IsCoherent q.state
    pub children : All IsChild q.checks

  pub new_quorum_machine-IsWellFormed : IsWellFormed (new_quorum_machine check_id [])
  unfolding new_quorum_machine
  new_quorum_machine-IsWellFormed = record {
    named = refl;
    coherent = new-IsCoherent check_id;
    children = tt;
  }

  pub recompute-IsWellFormed : (q : QuorumMachine) → IsWellFormed q → IsWellFormed (recompute q).0
  unfolding recompute
  recompute-IsWellFormed q h = record {
    named = h.named;
    coherent = next_state-IsCoherent q.checks q.state h.coherent;
    children = h.children;
  }

  pub add_probe-IsWellFormed :
      (probe_id : String) (q : QuorumMachine)
      → is_some (lookup probe_id known) ≡ true
      → IsWellFormed q
      → IsWellFormed (add_probe probe_id q).0
  unfolding add_probe
  add_probe-IsWellFormed probe_id q k h = elim (Option-cases (lookup probe_id q.checks)) [
    | inr (c, e) ↦ rw (e, add_probe) h
    | inl e ↦
        rw (e, add_probe)
          (recompute-IsWellFormed _ (record {
            named = h.named;
            coherent = h.coherent;
            children =
                All-insert IsChild probe_id (new_check_machine q.state.check_id probe_id) q.checks
                  h.children (rw h.named (new_check_machine-IsAssigned check_id probe_id), k);
          }))
  ]

  -- A call that keeps the children assigned, and what follows it.
  route-IsWellFormed :
      (probe_id : String) (act : Action CheckMachine Error CheckTransition) (q : QuorumMachine)
      → ((c : CheckMachine)
          → IsAssigned check_id probe_id c
          → IsAssigned check_id probe_id (act c).0)
      → IsWellFormed q
      → IsWellFormed ((on_child probe_id act >>= updated) q).0
  unfolding on_child updated
  route-IsWellFormed probe_id act q keep h = elim (Option-cases (lookup probe_id q.checks)) [
    | inl e ↦ rw (e, on_child) h
    | inr (c, e) ↦
        let child = All-lookup IsChild probe_id q.checks h.children e in
        let q' : QuorumMachine = record q { checks = insert probe_id (act c).0 q.checks } in
        let h' : IsWellFormed q' = record {
          named = h.named;
          coherent = h.coherent;
          children =
              All-insert IsChild probe_id (act c).0 q.checks h.children (keep c child.0, child.1);
        } in
        elim (Result-cases (act c).1) [
          | inl (t, a) ↦ rw (e, on_child) (rw (a) (recompute-IsWellFormed q' h'))
          | inr (x, a) ↦ rw (e, on_child) (rw (a) h')
        ]
  ]

  module _ ⦃lib : Stateless⦄ (probe_id : String) (q : QuorumMachine) (h : IsWellFormed q) where
    pub observe_up-IsWellFormed :
        (at : Time) (expires_at : Option Time)
        → IsWellFormed (observe_up probe_id at expires_at q).0
    unfolding observe_up
    observe_up-IsWellFormed at expires_at =
        route-IsWellFormed probe_id (CheckMachine.observe_up at expires_at) q
          (λ c a. observe_up-IsAssigned c a at expires_at) h

    pub observe_down-IsWellFormed :
        (at : Time) (expires_at : Option Time) (message : String)
        → IsWellFormed (observe_down probe_id at expires_at message q).0
    unfolding observe_down
    observe_down-IsWellFormed at expires_at message =
        route-IsWellFormed probe_id (CheckMachine.observe_down at expires_at message) q
          (λ c a. observe_down-IsAssigned c a at expires_at message) h

    pub lose_evidence-IsWellFormed : IsWellFormed (lose_evidence probe_id q).0
    unfolding lose_evidence
    lose_evidence-IsWellFormed =
        route-IsWellFormed probe_id CheckMachine.lose_evidence q
          (λ c a. lose_evidence-IsAssigned c a) h

    pub mark_check_error-IsWellFormed :
        (message : String) → IsWellFormed (mark_check_error probe_id message q).0
    unfolding mark_check_error
    mark_check_error-IsWellFormed message =
        route-IsWellFormed probe_id (CheckMachine.mark_error message) q
          (λ c a. mark_error-IsAssigned c a message) h

    -- A call for a child that is there never fails.
    pub lose_evidence_accepted :
        (c : CheckMachine) (e : Error)
        → lookup probe_id q.checks ≡ some c
        → (lose_evidence probe_id q).1 ≢ err e
    unfolding lose_evidence
    lose_evidence_accepted c e at r = ground (
      arith,
      CheckMachine.Assigned.lose_evidence_accepted c
          (All-lookup IsChild probe_id q.checks h.children at).0.set e,
    )

    pub mark_check_error_accepted :
        (c : CheckMachine) (message : String) (e : Error)
        → lookup probe_id q.checks ≡ some c
        → (mark_check_error probe_id message q).1 ≢ err e
    unfolding mark_check_error
    mark_check_error_accepted c message e at r = ground (
      arith,
      CheckMachine.Assigned.mark_error_accepted c
          (All-lookup IsChild probe_id q.checks h.children at).0.set message e,
    )
