-- ===== src/Monitoring/Result/Rollback.antt =====
-- internal/monitoring/result.go: one result and its rollback.
use wacht.Shared.{
  String, ◌≡◌, refl, true, false, none, some, [], arith, Option-cases, inl, inr, if◌then◌else◌,
}
use wacht.Shared.Time.{Time}
use wacht.Shared.Dict.{
  lookup, insert, lookup-insert_self, insert-insert, insert_same, delete-insert_new,
}
use wacht.Shared.Action.{Action}
use wacht.Proto.{CheckResult}
use wacht.Monitoring.Types.{Error}
use wacht.Monitoring.Stateless.{Stateless}
use wacht.Monitoring.CheckMachine.{CheckMachine, new_check_machine}
use wacht.Monitoring.CheckMachine
use wacht.Shared.Text.{trim_space}
use wacht.Monitoring.QuorumMachine
use wacht.Monitoring.QuorumMachine.{QuorumMachine, new_quorum_machine, on_child, updated}
use wacht.Monitoring.Runtime.{Runtime, ensure_quorum}
use wacht.Monitoring.Result.{
  ObservedResultRollback, rollback_quorum, rollback_observed_result, put_quorum, prepare_observed,
  observe_result,
}

-- A call that is routed to a child changes that child alone.
pub checks-on_child :
    {A : Type 0} (probe_id : String) (act : Action CheckMachine Error A) (q : QuorumMachine)
    {c : CheckMachine}
    → lookup probe_id q.checks ≡ some c
    → (on_child probe_id act q).0.checks ≡ insert probe_id (act c).0 q.checks
unfolding on_child
checks-on_child probe_id act q h = ground arith

checks-add_probe :
    (probe_id : String) (q : QuorumMachine)
    → lookup probe_id q.checks ≡ none
    → (QuorumMachine.add_probe probe_id q).0.checks
      ≡ insert probe_id (new_check_machine q.state.check_id probe_id) q.checks
unfolding QuorumMachine.add_probe
checks-add_probe probe_id q h = ground arith

module _ (probe_id : String) (b : ObservedResultRollback) (q u : QuorumMachine) where
  -- For a child that was there.
  rollback_quorum_known :
      (c c' : CheckMachine)
      → lookup probe_id q.checks ≡ some c
      → b.probe_id ≡ probe_id
      → b.created_assignment ≡ false
      → b.previous_check ≡ c
      → b.previous_quorum ≡ q.state
      → u.checks ≡ insert probe_id c' q.checks
      → rollback_quorum b u ≡ q
  unfolding rollback_quorum
  rollback_quorum_known c c' known p a pc pq e = ground (
    arith,
    lookup-insert_self probe_id c' q.checks,
    insert-insert probe_id c c' q.checks,
    insert_same probe_id c q.checks,
  )

  -- For a child that the result created.
  rollback_quorum_created :
      (c c' : CheckMachine)
      → lookup probe_id q.checks ≡ none
      → b.probe_id ≡ probe_id
      → b.created_assignment ≡ true
      → b.previous_quorum ≡ q.state
      → u.checks ≡ insert probe_id c' (insert probe_id c q.checks)
      → rollback_quorum b u ≡ q
  unfolding rollback_quorum
  rollback_quorum_created c c' new p a pq e =
      ground (arith, insert-insert probe_id c' c q.checks, delete-insert_new probe_id c' q.checks)

-- What `prepare_observed` makes of the quorum, and the rollback that it notes.
module _ (check_id probe_id : String) (r : Runtime) where
  prepared_quorum :
      (q : QuorumMachine) (u : QuorumMachine) (c' : CheckMachine)
      → (ensure_quorum check_id r).1 ≡ q
      → u.checks ≡ insert probe_id c' (prepare_observed check_id probe_id r).quorum.checks
      → rollback_quorum (prepare_observed check_id probe_id r).rollback u ≡ q
  unfolding prepare_observed
  prepared_quorum q u c' eq e = elim (Option-cases (lookup probe_id q.checks)) [
    | inl new ↦
        let c = new_check_machine q.state.check_id probe_id in
        rollback_quorum_created probe_id (prepare_observed check_id probe_id r).rollback q u c c'
          new refl (ground arith) (ground arith) (ground (arith, checks-add_probe probe_id q new))
    | inr (c, known) ↦
        rollback_quorum_known probe_id (prepare_observed check_id probe_id r).rollback q u c c'
          known refl (ground arith) (ground arith) (ground arith) (ground arith)
  ]

  -- The rollback takes back any change of the prepared child and of the quorum's state.
  pub prepared-rollback :
      (u : QuorumMachine) (c' : CheckMachine)
      → u.checks ≡ insert probe_id c' (prepare_observed check_id probe_id r).quorum.checks
      → let p = prepare_observed check_id probe_id r in
        rollback_observed_result p.rollback (put_quorum check_id u p.runtime) ≡ r
  unfolding rollback_observed_result prepare_observed
  prepared-rollback u c' e = elim (Option-cases (lookup check_id r.quorums)) [
    | inl new ↦ ground (
      arith,
      insert-insert check_id u (new_quorum_machine check_id []) r.quorums,
      delete-insert_new check_id u r.quorums,
    )
    | inr (q, known) ↦ ground (
      arith,
      prepared_quorum q u c',
      lookup-insert_self check_id u r.quorums,
      insert-insert check_id q u r.quorums,
      insert_same check_id q r.quorums,
    )
  ]

pub prepared_child :
    (check_id probe_id : String) (r : Runtime)
    → (c : CheckMachine) × (lookup probe_id (prepare_observed check_id probe_id r).quorum.checks
        ≡ some c)
unfolding prepare_observed
prepared_child check_id probe_id r =
    let q = (ensure_quorum check_id r).1 in
    let c = new_check_machine q.state.check_id probe_id in
    elim (Option-cases (lookup probe_id q.checks)) [
      | inl new ↦ (
        c,
        ground (arith, checks-add_probe probe_id q new, lookup-insert_self probe_id c q.checks),
      )
      | inr (c, known) ↦ (c, ground arith)
    ]

module _ ⦃lib : Stateless⦄ where
  pub child_after : CheckResult → Time → CheckMachine → CheckMachine
  child_after result expires_at c =
      if result.up
      then (CheckMachine.observe_up result.timestamp (some expires_at) c).0
      else (CheckMachine.observe_down result.timestamp (some expires_at) (trim_space result.error)
          c).0

  -- An observation changes the child of its probe alone.
  pub checks-observe_result :
      (result : CheckResult) (expires_at : Time) (q : QuorumMachine) (c : CheckMachine)
      → lookup result.probe_id q.checks ≡ some c
      → (observe_result result expires_at q).0.checks
        ≡ insert result.probe_id (child_after result expires_at c) q.checks
  unfolding observe_result child_after QuorumMachine.observe_up QuorumMachine.observe_down
  checks-observe_result result expires_at q c h = ground arith

  -- The rollback takes an observation back.
  pub observed-rollback :
      (check_id : String) (result : CheckResult) (expires_at : Time) (r : Runtime)
      → let p = prepare_observed check_id result.probe_id r in
        rollback_observed_result p.rollback
          (put_quorum check_id (observe_result result expires_at p.quorum).0 p.runtime)
        ≡ r
  observed-rollback check_id result expires_at r =
      let p = prepare_observed check_id result.probe_id r in
      let (c, known) = prepared_child check_id result.probe_id r in
      prepared-rollback check_id result.probe_id r (observe_result result expires_at p.quorum).0
        (child_after result expires_at c) (checks-observe_result result expires_at p.quorum c known)
