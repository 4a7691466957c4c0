-- ===== src/Probe/Scheduler/Updates.antt =====
-- cmd/wacht-probe/scheduler.go: a scheduler after any calls of `Reconcile`.
use wacht.Shared.{String, List, [], ◌∷◌, arith, Option-cases, Bool-cases, inl, inr}
use wacht.Shared.Dict.{Dict, lookup}
use wacht.Shared.Dict.Keys.{IsMap, insert-IsMap, delete-IsMap}
use wacht.Proto.{ProbeCheck}
use wacht.Probe.Scheduler.{
  RunningCheck, Scheduler, new_scheduler, run_check, same_probe_check, reconcile_one,
  reconcile_running, start_rest, desired, reconcile,
}
use wacht.Probe.Scheduler.Accounted.{IsAccounted, reconcile-IsAccounted}

one_kept :
    (id : String) (job : RunningCheck) (x : Scheduler × Dict ProbeCheck)
    → IsMap x.0.running
    → IsMap (reconcile_one id job x).0.running
unfolding reconcile_one run_check
one_kept id job (s, next) h = elim (Option-cases (lookup id next)) [
  | inl absent ↦ rw (absent, reconcile_one) (delete-IsMap id s.running h)
  | inr (check, wanted) ↦
      rw (wanted, reconcile_one)
        (elim (Bool-cases (same_probe_check job.check check)) [
          | inl same ↦ rw same h
          | inr other ↦ rw other (insert-IsMap id _ s.running h)
        ])
]

running_kept :
    (m : Dict RunningCheck) (x : Scheduler × Dict ProbeCheck)
    → IsMap x.0.running
    → IsMap (reconcile_running m x).0.running
unfolding reconcile_running
running_kept [] x h = h
running_kept ((id, job) ∷ m) x h = running_kept m (reconcile_one id job x) (one_kept id job x h)

rest_kept : (m : Dict ProbeCheck) (s : Scheduler) → IsMap s.running → IsMap (start_rest m s).running
unfolding start_rest run_check
rest_kept [] s h = h
rest_kept ((id, check) ∷ m) s h =
    rest_kept m (run_check id check s) (unfold run_check in insert-IsMap id _ s.running h)

pub reconcile-IsMap :
    (latest : List ProbeCheck) (s : Scheduler)
    → IsMap s.running
    → IsMap (reconcile latest s).running
unfolding reconcile
reconcile-IsMap latest s h =
    let r = reconcile_running s.running (s, desired latest []) in
    rest_kept r.1 r.0 (running_kept s.running (s, desired latest []) h)

-- The scheduler after these calls of `Reconcile`, the newest first.
abbrev pub after_updates : List (List ProbeCheck) → Scheduler
after_updates [] = new_scheduler
after_updates (latest ∷ past) = reconcile latest (after_updates past)

-- After any calls of `Reconcile` on a new scheduler no ID stands twice among the running checks, every
-- worker that was started is cancelled or runs for one ID, and no running worker is cancelled.
pub after_updates-IsAccounted :
    (updates : List (List ProbeCheck))
    → IsMap (after_updates updates).running × IsAccounted (after_updates updates)
unfolding lookup
after_updates-IsAccounted [] = (
  tt,
  record {
    live = λ i a e. cc;
    apart = λ i j a b e f w. cc;
    accounted = λ k l. absurd (omega (arith, l));
    stopped = λ k m. cc;
  },
)
after_updates-IsAccounted (latest ∷ past) =
    let before = after_updates-IsAccounted past in
    (
      reconcile-IsMap latest (after_updates past) before.0,
      reconcile-IsAccounted latest (after_updates past) before.0 before.1,
    )
