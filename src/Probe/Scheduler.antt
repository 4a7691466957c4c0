-- ===== src/Probe/Scheduler.antt =====
-- cmd/wacht-probe/scheduler.go: which checks a probe runs. A worker is a goroutine; the model knows it
-- by the number of workers that were started before it, and notes the numbers that were cancelled.
pub mod Rounds
pub mod Accounted
pub mod Updates
pub mod Settled
pub mod Latest
use wacht.Shared.{
  ℕ, ◌+◌, String, Bool, true, false, ◌&&◌, Option, none, some, List, [], ◌∷◌, ◌==◌, nat_eq,
  if◌then◌else◌,
}
use wacht.Shared.Int.{ℤ, pos, negsuc}
use wacht.Shared.Dict.{Dict, lookup, insert, delete}
use wacht.Proto.{ProbeCheck}

pub record RunningCheck : Type 0 where
  pub check : ProbeCheck
  pub worker : ℕ

pub record Scheduler : Type 0 where
  pub running : Dict RunningCheck
  pub started : ℕ
  pub cancelled : List ℕ

abbrev pub new_scheduler : Scheduler
new_scheduler = record { running = []; started = 0; cancelled = [] }

abbrev same_int : ℤ → ℤ → Bool
same_int (pos m) (pos n) = nat_eq m n
same_int (negsuc m) (negsuc n) = nat_eq m n
same_int _ _ = false

-- job.check == check
unfoldable pub same_probe_check : ProbeCheck → ProbeCheck → Bool
same_probe_check a b =
    a.id == b.id
    && a.name == b.name
    && a.check_type == b.check_type
    && a.target == b.target
    && same_int a.interval b.interval

-- s.running[id] = s.startWorker(check)
unfoldable pub run_check : String → ProbeCheck → Scheduler → Scheduler
run_check id check s = record s {
  running = insert id (record { check = check; worker = s.started }) s.running;
  started = s.started + 1;
}

-- job.cancel()
unfoldable pub cancel : RunningCheck → Scheduler → Scheduler
cancel job s = record s { cancelled = job.worker ∷ s.cancelled }

-- The loop that fills `next`.
unfoldable pub desired : List ProbeCheck → Dict ProbeCheck → Dict ProbeCheck
desired [] next = next
desired (check ∷ latest) next = desired latest (insert check.id check next)

-- One round of the loop over the running checks.
unfoldable pub reconcile_one :
    String → RunningCheck → Scheduler × Dict ProbeCheck → Scheduler × Dict ProbeCheck
unfolding cancel run_check
reconcile_one id job (s, next) = elim (lookup id next) [
  | none ↦ (record (cancel job s) { running = delete id s.running }, next)
  | some check ↦ (
    (if same_probe_check job.check check then s else run_check id check (cancel job s)),
    delete id next,
  )
]

unfoldable pub reconcile_running :
    Dict RunningCheck → Scheduler × Dict ProbeCheck → Scheduler × Dict ProbeCheck
reconcile_running [] x = x
reconcile_running ((id, job) ∷ m) x = reconcile_running m (reconcile_one id job x)

unfoldable pub start_rest : Dict ProbeCheck → Scheduler → Scheduler
start_rest [] s = s
start_rest ((id, check) ∷ m) s = start_rest m (run_check id check s)

unfoldable pub reconcile : List ProbeCheck → Scheduler → Scheduler
unfolding reconcile_running start_rest desired
reconcile latest s =
    let r = reconcile_running s.running (s, desired latest []) in start_rest r.1 r.0

-- The loop of `Close` over the running checks.
close_each : Dict RunningCheck → Scheduler → Scheduler
unfolding cancel
close_each [] s = s
close_each ((id, job) ∷ m) s =
    close_each m (record (cancel job s) { running = delete id s.running })

unfoldable pub close : Scheduler → Scheduler
unfolding close_each
close s = close_each s.running s
