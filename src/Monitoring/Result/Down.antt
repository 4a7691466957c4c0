-- ===== src/Monitoring/Result/Down.antt =====
-- internal/monitoring/result.go: the results of a check whose stable state is down and stays down.
use wacht.Shared.{
  String, ◌≡◌, refl, ap, sym, ◌∙◌, some, List, [], ◌∷◌, arith, All, inl, inr, Option-cases,
  Bool-cases,
}
use mathlib.Core.Path.{subst}
use wacht.Shared.Time.{Time}
use wacht.Shared.Text.{trim_space}
use wacht.Shared.Dict.{lookup, lookup-insert_self}
use wacht.Shared.Action.{Action, Result, Result-cases, ok, err, ◌>>=◌}
use wacht.Checks.{Check}
use wacht.Proto.{CheckResult}
use wacht.Alert.Payload.{AlertPayload}
use wacht.Store.Writes.{MonitoringWrite}
use wacht.Monitoring.Types.{QuorumState, CheckQuorumState, CheckTransition, CheckUpdate, Error}
use wacht.Monitoring.Stateless.{Stateless}
use wacht.Monitoring.CheckMachine
use wacht.Monitoring.CheckMachine.{CheckMachine}
use wacht.Monitoring.QuorumMachine
use wacht.Monitoring.QuorumMachine.{QuorumMachine, on_child, updated}
use wacht.Monitoring.Notice.{monitoring_write_for_check_event}
use wacht.Monitoring.Runtime.{Runtime, ensure_quorum}
use wacht.Monitoring.Result.{
  ObservedResultRollback, observed_update, observe_result, prepare_observed, apply_observed_result,
  evidence_expires_at, put_quorum, finish_observed, no_write, check_state_write, child_of,
}

abbrev pub IsStableDown : String → Runtime → Type 0
IsStableDown check_id r =
    (q : QuorumMachine) × (lookup check_id r.quorums ≡ some q)
    × (q.state.last_stable_state ≡ QuorumState.down)

-- The runtime over some time, in which the stable state of the check is down after every step, and the
-- writes of the results of the check that were accepted, the last one first. Anything else may happen to
-- the runtime in between.
pub data StaysDown ⦃lib : Stateless⦄ (marshal : AlertPayload → Result Error String) (check : Check)
    (r : Runtime) : Runtime → List MonitoringWrite → Type 0 where
  begins : StaysDown marshal check r r []
  observed :
      {before after : Runtime} {writes : List MonitoringWrite} (result : CheckResult)
      (write : MonitoringWrite) (rollback : ObservedResultRollback)
      → StaysDown marshal check r before writes
      → apply_observed_result marshal check result before ≡ (after, ok (write, rollback))
      → IsStableDown check.id after
      → StaysDown marshal check r after (write ∷ writes)
  changed :
      {before : Runtime} {writes : List MonitoringWrite} (after : Runtime)
      → StaysDown marshal check r before writes
      → IsStableDown check.id after
      → StaysDown marshal check r after writes

-- The update of an observation carries the state that the quorum has after it.
updated-quorum :
    (probe_id : String) (act : Action CheckMachine Error CheckTransition) (q : QuorumMachine)
    (u : CheckUpdate)
    → ((on_child probe_id act >>= updated) q).1 ≡ ok u
    → u.quorum ≡ ((on_child probe_id act >>= updated) q).0.state
unfolding updated
updated-quorum probe_id act q u h = elim (Result-cases (on_child probe_id act q).1) [
  | inl (t, e) ↦ ground arith
  | inr (x, e) ↦ absurd (ground arith)
]

module _ ⦃lib : Stateless⦄ where
  observe_result-quorum :
      (result : CheckResult) (expires_at : Time) (q : QuorumMachine) (u : CheckUpdate)
      → (observe_result result expires_at q).1 ≡ ok u
      → u.quorum ≡ (observe_result result expires_at q).0.state
  unfolding observe_result QuorumMachine.observe_up QuorumMachine.observe_down
  observe_result-quorum result expires_at q u h = elim (Bool-cases result.up) [
    | inl up ↦ rw up (
        updated-quorum result.probe_id (CheckMachine.observe_up result.timestamp (some expires_at))
          q u (rw up at h))
    | inr down ↦ rw down (
        updated-quorum result.probe_id
          (CheckMachine.observe_down result.timestamp (some expires_at) (trim_space result.error)) q
          u (rw down at h))
  ]

module _ (marshal : AlertPayload → Result Error String) where
  -- From down to down.
  write_unchanged :
      (check : Check) (q : QuorumMachine) (previous current : CheckQuorumState)
      (write : MonitoringWrite)
      → previous.last_stable_state ≡ QuorumState.down
      → current.last_stable_state ≡ QuorumState.down
      → monitoring_write_for_check_event marshal check q previous current write ≡ ok write
  unfolding monitoring_write_for_check_event
  write_unchanged check q previous current write h k = ground arith

  finished :
      (r after : Runtime) (b b' : ObservedResultRollback) (m : Result Error MonitoringWrite)
      (w : MonitoringWrite)
      → finish_observed r b m ≡ (after, ok (w, b'))
      → (r ≡ after) × (m ≡ ok w)
  unfolding finish_observed
  finished r after b b' (err e) w h = absurd cc
  finished r after b b' (ok x) w h = ground arith

  observed_update-silent :
      (check : Check) (probe_id : String) (b b' : ObservedResultRollback) (q : QuorumMachine)
      (r after : Runtime) (u : Result Error CheckUpdate) (w : MonitoringWrite)
      → observed_update marshal check probe_id b q r u ≡ (after, ok (w, b'))
      → b.previous_quorum.last_stable_state ≡ QuorumState.down
      → ((update : CheckUpdate) → u ≡ ok update → update.quorum ≡ q.state)
      → (r ≡ after) × (q.state.last_stable_state ≡ QuorumState.down → w.incident_check_id ≡ "")
  unfolding observed_update
  observed_update-silent check probe_id b b' q r after (err e) w h before same = absurd cc
  observed_update-silent check probe_id b b' q r after (ok update) w h before same =
      let write : MonitoringWrite = record no_write {
        check_state_writes = check_state_write check.id probe_id (child_of probe_id q) ∷ [];
      } in
      let m =
        monitoring_write_for_check_event marshal check q b.previous_quorum update.quorum write in
      let done = finished r after b b' m w h in
      (
        done.0,
        λ down.
            let quiet =
              write_unchanged check q b.previous_quorum update.quorum write before
                (ap (λ (s : CheckQuorumState). s.last_stable_state) (same update refl) ∙ down) in
            let equal : write ≡ w = ground (arith, done.1, quiet) in
            ap (λ (x : MonitoringWrite). x.incident_check_id) (sym equal),
      )

  module _ ⦃lib : Stateless⦄ where
    prepared-previous :
        (check_id probe_id : String) (r : Runtime) (q : QuorumMachine)
        → lookup check_id r.quorums ≡ some q
        → (prepare_observed check_id probe_id r).rollback.previous_quorum ≡ q.state
    unfolding prepare_observed ensure_quorum
    prepared-previous check_id probe_id r q h = rw (h, prepare_observed, ensure_quorum) refl

    -- A result between two stable down states writes no incident.
    apply_observed_result-silent :
        (check : Check) (result : CheckResult) (r after : Runtime) (w : MonitoringWrite)
        (b : ObservedResultRollback)
        → IsStableDown check.id r
        → apply_observed_result marshal check result r ≡ (after, ok (w, b))
        → IsStableDown check.id after
        → w.incident_check_id ≡ ""
    unfolding apply_observed_result
    apply_observed_result-silent check result r after w b (q, at, down) h (q', at', down') =
        elim (Option-cases (lookup result.probe_id r.probes)) [
          | inl unknown ↦ absurd (ground arith)
          | inr (probe, known) ↦
              let expires_at = evidence_expires_at check result.timestamp in
              let p = prepare_observed check.id result.probe_id r in
              let u = observe_result result expires_at p.quorum in
              let done =
                observed_update-silent check result.probe_id p.rollback b u.0
                  (put_quorum check.id u.0 p.runtime) after u.1 w
                  (rw (known, apply_observed_result) at h)
                  (ap (λ (s : CheckQuorumState). s.last_stable_state)
                      (prepared-previous check.id result.probe_id r q at)
                    ∙ down)
                  (observe_result-quorum result expires_at p.quorum) in
              let put : lookup check.id after.quorums ≡ some u.0 =
                subst (λ (x : Runtime). lookup check.id x.quorums ≡ some u.0) done.0
                  (lookup-insert_self check.id u.0 p.runtime.quorums) in
              let same : u.0 ≡ q' = ground (arith, put, at') in
              done.1 (ap (λ (x : QuorumMachine). x.state.last_stable_state) same ∙ down')
        ]

    pub StaysDown-silent :
        (check : Check) (r : Runtime) {after : Runtime} {writes : List MonitoringWrite}
        → IsStableDown check.id r
        → StaysDown marshal check r after writes
        → IsStableDown check.id after
          × All (λ (w : MonitoringWrite). w.incident_check_id ≡ "") writes
    StaysDown-silent check r h StaysDown.begins = (h, tt)
    StaysDown-silent check r h
          (StaysDown.observed {before} {after} result write rollback path e down) =
        let rest = StaysDown-silent check r h path in
        (
          down,
          (
            apply_observed_result-silent check result before after write rollback rest.0 e down,
            rest.1,
          ),
        )
    StaysDown-silent check r h (StaysDown.changed after path down) =
        (down, (StaysDown-silent check r h path).1)
