-- ===== src/Probe/Scheduler/Latest.antt =====
-- cmd/wacht-probe/scheduler.go: the workers after `Reconcile`, by the list that it is given.
use wacht.Shared.{
  ap, eq_refl, true, ℕ, ◌⊎◌, ◌≢◌, Option, if◌then◌else◌, String, ◌≡◌, refl, ◌∙◌, none, some, List,
  [], ◌∷◌, arith, eq_iff, ◌==◌, Bool-cases, inl, inr,
}
use wacht.Shared.Dict.{Dict, lookup, insert, lookup-insert}
use wacht.Shared.Dict.Keys.{IsMap}
use wacht.Proto.{ProbeCheck}
use wacht.Probe.Scheduler.Rounds.{Started, IsSettled}
use mathlib.Core.Path.{subst}
use wacht.Shared.Int.{ℤ, pos, negsuc}
use wacht.Probe.Scheduler.{RunningCheck, same_int, same_probe_check, Scheduler, desired, reconcile}
use wacht.Probe.Scheduler.Settled.{reconcile-IsSettled}

-- The last of the checks with this ID.
abbrev pub or_else : Option ProbeCheck → Option ProbeCheck → Option ProbeCheck
or_else none other = other
or_else (some check) other = some check

abbrev pub last_with_id : String → List ProbeCheck → Option ProbeCheck
last_with_id id [] = none
last_with_id id (check ∷ latest) =
    or_else (last_with_id id latest) (if check.id == id then some check else none)

or_else-or_else : (x y z : Option ProbeCheck) → or_else x (or_else y z) ≡ or_else (or_else x y) z
or_else-or_else none y z = refl
or_else-or_else (some check) y z = refl

or_else-none : (x : Option ProbeCheck) → or_else x none ≡ x
or_else-none none = refl
or_else-none (some check) = refl

lookup-desired :
    (id : String) (latest : List ProbeCheck) (next : Dict ProbeCheck)
    → lookup id (desired latest next) ≡ or_else (last_with_id id latest) (lookup id next)
unfolding desired
lookup-desired id [] next = refl
lookup-desired id (check ∷ latest) next =
    lookup-desired id latest (insert check.id check next)
    ∙ ap (or_else (last_with_id id latest)) (ground (arith, lookup-insert check.id id check next))
    ∙ or_else-or_else (last_with_id id latest) (if check.id == id then some check else none)
        (lookup id next)

same_int-eq : (m n : ℤ) → same_int m n ≡ true → m ≡ n
same_int-eq (pos m) (pos n) h = ground arith
same_int-eq (pos m) (negsuc n) h = absurd cc
same_int-eq (negsuc m) (pos n) h = absurd cc
same_int-eq (negsuc m) (negsuc n) h = ground arith

same_int_self : (m : ℤ) → same_int m m ≡ true
same_int_self (pos m) = ground arith
same_int_self (negsuc m) = ground arith

same_probe_check-eq : (a b : ProbeCheck) → same_probe_check a b ≡ true → a ≡ b
unfolding same_probe_check
same_probe_check-eq a b h = ground (
  arith,
  eq_iff a.id b.id,
  eq_iff a.name b.name,
  eq_iff a.check_type b.check_type,
  eq_iff a.target b.target,
  same_int-eq a.interval b.interval,
)

same_probe_check_self : (a : ProbeCheck) → same_probe_check a a ≡ true
unfolding same_probe_check
same_probe_check_self a =
    rw
      (
        eq_refl a.id,
        eq_refl a.name,
        eq_refl a.check_type,
        eq_refl a.target,
        same_int_self a.interval,
      )
      refl

-- The worker of an ID: none without a check for it; for an unchanged check the worker it had; for a
-- new or a changed one a worker that was started after the first `n`.
abbrev pub RunsLatest : ℕ → Option RunningCheck → Option ProbeCheck → Option RunningCheck → Type 0
RunsLatest n before none now = now ≡ none
RunsLatest n none (some check) now = Started n check now
RunsLatest n (some job) (some check) now =
    ((job.check ≡ check) × (now ≡ some job)) ⊎ ((job.check ≢ check) × Started n check now)

settled-RunsLatest :
    (n : ℕ) (before : Option RunningCheck) (wanted : Option ProbeCheck) (now : Option RunningCheck)
    → IsSettled n before wanted now
    → RunsLatest n before wanted now
settled-RunsLatest n before none now h = h
settled-RunsLatest n none (some check) now h = h
settled-RunsLatest n (some job) (some check) now h =
    elim (Bool-cases (same_probe_check job.check check)) [
      | inl same ↦ inl (same_probe_check-eq job.check check same, rw same at h)
      | inr differ ↦ inr (
        λ e.
            let same : same_probe_check job.check check ≡ true =
              subst (λ (x : ProbeCheck). same_probe_check job.check x ≡ true) e
                (same_probe_check_self job.check) in
            cc,
        rw differ at h,
      )
    ]

-- If no ID stands twice among the running checks: after `Reconcile` with a list of checks an ID that
-- no check of the list has has no worker. Any other has a worker for the last check of the list with
-- that ID: the worker it had, exactly if that ran an equal check, and one started now otherwise.
pub reconcile-RunsLatest :
    (latest : List ProbeCheck) (s : Scheduler) (id : String)
    → IsMap s.running
    → RunsLatest s.started
        (lookup id s.running)
        (last_with_id id latest)
        (lookup id (reconcile latest s).running)
unfolding lookup
reconcile-RunsLatest latest s id h =
    settled-RunsLatest s.started (lookup id s.running) (last_with_id id latest)
      (lookup id (reconcile latest s).running)
      (subst
        (λ (x : Option ProbeCheck).
          IsSettled s.started (lookup id s.running) x (lookup id (reconcile latest s).running))
        (lookup-desired id latest [] ∙ or_else-none (last_with_id id latest))
        (reconcile-IsSettled latest s id h))
