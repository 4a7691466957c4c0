-- ===== src/Monitoring/Reachable.antt =====
-- The server's runs (internal/monitoring): critical sections of the runtime in any order, with any
-- store.
use mathlib.Core.Path.{subst}
use wacht.Shared.{
  String, ◌≢◌, sym, Bool, true, false, Option, none, some, List, Option-cases, inl, inr,
}
use wacht.Shared.Time.{Time, Duration}
use wacht.Shared.Dict.{lookup}
use wacht.Shared.Action.{Result, Result-cases, ok, err}
use wacht.Alert.Payload.{AlertPayload}
use wacht.Store.Writes.{MonitoringStore}
use wacht.Monitoring.Types.{Error}
use wacht.Monitoring.Stateless.{Stateless}
use wacht.Monitoring.ProbeMachine.{ProbeMachine}
use wacht.Monitoring.QuorumMachine.WellFormed as Q
use wacht.Monitoring.Runtime as Runtimes
use wacht.Monitoring.Runtime.{Runtime, add_probe, ensure_check, remove_check, ensure_quorum}
use wacht.Monitoring.Runtime.WellFormed.{
  IsWellFormed, put_probe-IsWellFormed, put_quorum-IsWellFormed, lookup-IsQuorum,
}
use wacht.Monitoring.Runtime.Methods.{
  add_probe-IsWellFormed, ensure_quorum-IsWellFormed, remove_check-IsWellFormed,
  receive_heartbeat-IsWellFormed, expire_heartbeat-IsWellFormed, mark_probe_error-IsWellFormed,
  observe_check_up-IsWellFormed, observe_check_down-IsWellFormed, lose_check_evidence-IsWellFormed,
  mark_check_error-IsWellFormed, recompute_check-IsWellFormed,
}
use wacht.Monitoring.Heartbeat.{heartbeat, heartbeat_write}
use wacht.Monitoring.Heartbeat.Effect.{heartbeat-transaction, transaction, beaten}
use wacht.Monitoring.Result.{ObservedResult}
use wacht.Monitoring.Batch.{observed_result_batch}
use wacht.Monitoring.Batch.Atomicity.{batch_atomic}
use wacht.Monitoring.Batch.Kept.{batch_done-IsWellFormed}
use wacht.Monitoring.ProbeSweep.{sweep_probe}
use wacht.Monitoring.ProbeSweep.Complete.{sweep_probe-IsWellFormed}
use wacht.Monitoring.CheckSweep.{Assignment, sweep_check}
use wacht.Monitoring.CheckSweep.Effect.{sweep_check-either, swept, either}

module _ ⦃lib : Stateless⦄ (marshal : AlertPayload → Result Error String) {S : Type 0}
    (st : MonitoringStore S Error) where
  -- One critical section, or a change of the store by another process.
  pub data Step : Runtime × S → Runtime × S → Type 0 where
    store_changes : (r : Runtime) (s s' : S) → Step (r, s) (r, s')
    adds_probe : (r : Runtime) (s : S) (p : String) → Step (r, s) ((add_probe p r).0, s)
    ensures_check : (r : Runtime) (s : S) (c : String) → Step (r, s) ((ensure_check c r).0, s)
    removes_check : (r : Runtime) (s : S) (c : String) → Step (r, s) (remove_check c r, s)
    beats :
        (r : Runtime) (s : S) (p : String) (at : Time) → Step (r, s) (heartbeat st p at (r, s)).0
    applies :
        (r : Runtime) (s : S) (items : List ObservedResult)
        → Step (r, s) (observed_result_batch marshal st items (r, s)).0
    sweeps_probe :
        (r : Runtime) (s : S) (now : Time) (offline_after : Duration) (p : String)
        → Step (r, s) ((sweep_probe now offline_after p r).0, s)
    sweeps_check :
        (r : Runtime) (s : S) (now : Time) (a : Assignment)
        → Step (r, s) (sweep_check marshal st now a (r, s)).0
    receives :
        (r : Runtime) (s : S) (p : String) (at : Time)
        → Step (r, s) ((Runtimes.receive_heartbeat p at r).0, s)
    expires :
        (r : Runtime) (s : S) (p : String) → Step (r, s) ((Runtimes.expire_heartbeat p r).0, s)
    marks_probe :
        (r : Runtime) (s : S) (p m : String) → Step (r, s) ((Runtimes.mark_probe_error p m r).0, s)
    observes_up :
        (r : Runtime) (s : S) (c p : String) (at : Time) (e : Option Time)
        → Step (r, s) ((Runtimes.observe_check_up c p at e r).0, s)
    observes_down :
        (r : Runtime) (s : S) (c p : String) (at : Time) (e : Option Time) (m : String)
        → Step (r, s) ((Runtimes.observe_check_down c p at e m r).0, s)
    loses :
        (r : Runtime) (s : S) (c p : String)
        → Step (r, s) ((Runtimes.lose_check_evidence c p r).0, s)
    marks_check :
        (r : Runtime) (s : S) (c p m : String)
        → Step (r, s) ((Runtimes.mark_check_error c p m r).0, s)
    recomputes :
        (r : Runtime) (s : S) (c : String) → Step (r, s) ((Runtimes.recompute_check c r).0, s)

  pub data Reach (x : Runtime × S) : Runtime × S → Type 0 where
    here : Reach x x
    next : {y z : Runtime × S} → Reach x y → Step y z → Reach x z

  heartbeat-IsWellFormed :
      (r : Runtime) (s : S) (p : String) (at : Time)
      → IsWellFormed r
      → IsWellFormed (heartbeat st p at (r, s)).0.0
  heartbeat-IsWellFormed r s p at h =
      rw (heartbeat-transaction st p at r s)
        (go (lookup p r.probes) (st.persist_write (heartbeat_write p at) s))
    where
      go :
          (o : Option ProbeMachine) (x : S × Result Error (Unit {0}))
          → IsWellFormed (transaction o x p at r s).0.0
      go none x = h
      go (some probe) (s', ok u) = put_probe-IsWellFormed p (beaten at probe) r h
      go (some probe) (s', err e) = h

  either-IsWellFormed :
      (r r' : Runtime) (x : Result Error Bool)
      → IsWellFormed r
      → IsWellFormed r'
      → IsWellFormed (either r r' x)
  either-IsWellFormed r r' (ok true) h h' = h'
  either-IsWellFormed r r' (ok false) h h' = h
  either-IsWellFormed r r' (err e) h h' = h

  sweep_check-IsWellFormed :
      (r : Runtime) (s : S) (now : Time) (a : Assignment)
      → IsWellFormed r
      → IsWellFormed (sweep_check marshal st now a (r, s)).0.0
  unfolding sweep_check
  sweep_check-IsWellFormed r s now a h = elim (Option-cases (lookup a.check_id r.quorums)) [
    | inl e ↦ rw (e, sweep_check) h
    | inr (q, e) ↦ elim (Option-cases (lookup a.probe_id q.checks)) [
      | inl f ↦ rw (e, f, sweep_check) h
      | inr (c, f) ↦ rw (sweep_check-either marshal st now a r s q c h e f) (
          either-IsWellFormed r (swept marshal st a q r) _ h (
            put_quorum-IsWellFormed a.check_id _ r h (
              Q.lose_evidence-IsWellFormed r.probes a.check_id a.probe_id q
                (lookup-IsQuorum a.check_id r h e))))
    ]
  ]

  -- A batch that fails is taken back, and one that succeeds keeps the invariant.
  batch-IsWellFormed :
      ((p : AlertPayload) (e : Error) → marshal p ≢ err e)
      → (r : Runtime) (s : S) (items : List ObservedResult) → IsWellFormed r
      → IsWellFormed (observed_result_batch marshal st items (r, s)).0.0
  batch-IsWellFormed total r s items h =
      let out = observed_result_batch marshal st items (r, s) in
      elim (Result-cases out.1) [
        | inr (e, f) ↦ subst IsWellFormed (sym (batch_atomic marshal total st items r s f)) h
        | inl (done, f) ↦ batch_done-IsWellFormed marshal st r s items h f
      ]

  -- A step keeps the invariant of the runtime.
  Step-IsWellFormed :
      ((p : AlertPayload) (e : Error) → marshal p ≢ err e)
      → {x y : Runtime × S} → IsWellFormed x.0
      → Step x y
      → IsWellFormed y.0
  Step-IsWellFormed total h (store_changes r s s') = h
  Step-IsWellFormed total h (adds_probe r s p) = add_probe-IsWellFormed p r h
  Step-IsWellFormed total h (ensures_check r s c) =
      unfold ensure_check in (ensure_quorum-IsWellFormed c r h).0
  Step-IsWellFormed total h (removes_check r s c) = remove_check-IsWellFormed c r h
  Step-IsWellFormed total h (beats r s p at) = heartbeat-IsWellFormed r s p at h
  Step-IsWellFormed total h (applies r s items) = batch-IsWellFormed total r s items h
  Step-IsWellFormed total h (sweeps_probe r s now offline_after p) =
      sweep_probe-IsWellFormed now offline_after p r h
  Step-IsWellFormed total h (sweeps_check r s now a) = sweep_check-IsWellFormed r s now a h
  Step-IsWellFormed total h (receives r s p at) = receive_heartbeat-IsWellFormed r h p at
  Step-IsWellFormed total h (expires r s p) = expire_heartbeat-IsWellFormed r h p
  Step-IsWellFormed total h (marks_probe r s p m) = mark_probe_error-IsWellFormed r h p m
  Step-IsWellFormed total h (observes_up r s c p at e) = observe_check_up-IsWellFormed r h c p at e
  Step-IsWellFormed total h (observes_down r s c p at e m) =
      observe_check_down-IsWellFormed r h c p at e m
  Step-IsWellFormed total h (loses r s c p) = lose_check_evidence-IsWellFormed r h c p
  Step-IsWellFormed total h (marks_check r s c p m) = mark_check_error-IsWellFormed r h c p m
  Step-IsWellFormed total h (recomputes r s c) = recompute_check-IsWellFormed r h c

  -- If the encoder never fails, every runtime that the critical sections reach from a well-formed one,
  -- in any order, with any store and with changes of the store in between, is well formed: each quorum
  -- stands under its own check, its incident field agrees with its last stable state, and each of its
  -- children stands under its own probe, is of its check and is of a known probe.
  pub Reach-IsWellFormed :
      ((p : AlertPayload) (e : Error) → marshal p ≢ err e)
      → {x y : Runtime × S} → IsWellFormed x.0
      → Reach x y
      → IsWellFormed y.0
  Reach-IsWellFormed total h here = h
  Reach-IsWellFormed total h (next before step) =
      Step-IsWellFormed total (Reach-IsWellFormed total h before) step
