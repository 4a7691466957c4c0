-- ===== src/Probe/Scheduler/Settled.antt =====
-- cmd/wacht-probe/scheduler.go: the workers that `Reconcile` leaves.
use wacht.Shared.{
  String, ◌≡◌, refl, ◌∙◌, none, some, List, [], ◌∷◌, arith, eq_iff, ◌==◌, Bool-cases, Option-cases,
  inl, inr,
}
use wacht.Shared.Dict.{Dict, lookup, insert, lookup-insert}
use wacht.Shared.Dict.Keys.{IsMap, insert-IsMap}
use wacht.Proto.{ProbeCheck}
use wacht.Probe.Scheduler.Rounds.{
  Started, IsSettled, running_other, running_started, running-IsMap, running_own,
}
use wacht.Probe.Scheduler.{Scheduler, run_check, desired, reconcile_running, start_rest, reconcile}

pub desired-IsMap :
    (latest : List ProbeCheck) (next : Dict ProbeCheck) → IsMap next → IsMap (desired latest next)
unfolding desired
desired-IsMap [] next h = h
desired-IsMap (check ∷ latest) next h =
    desired-IsMap latest (insert check.id check next) (insert-IsMap check.id check next h)

-- The loop over the checks that are left.
rest_none :
    (m : Dict ProbeCheck) (j : String) (s : Scheduler)
    → lookup j m ≡ none
    → lookup j (start_rest m s).running ≡ lookup j s.running
unfolding start_rest lookup run_check
rest_none [] j s h = refl
rest_none ((id, check) ∷ m) j s h = elim (Bool-cases (id == j)) [
  | inl e ↦ absurd (ground arith)
  | inr e ↦
      rest_none m j (run_check id check s) (ground arith)
      ∙ ground (arith, lookup-insert id j (record { check = check; worker = s.started }) s.running)
]

rest_some :
    (m : Dict ProbeCheck) (j : String) (check : ProbeCheck) (s : Scheduler)
    → IsMap m
    → lookup j m ≡ some check
    → Started s.started check (lookup j (start_rest m s).running)
unfolding start_rest lookup run_check
rest_some [] j check s h e = absurd cc
rest_some ((id, c) ∷ m) j check s h e = elim (Bool-cases (id == j)) [
  | inl same ↦
      let at : id ≡ j = ground (arith, eq_iff id j) in
      (
        s.started,
        omega arith,
        rest_none m j (run_check id c s) (rw at at h.0)
            ∙ ground
                (arith, lookup-insert id j (record { check = c; worker = s.started }) s.running),
      )
  | inr other ↦
      let rest = rest_some m j check (run_check id c s) h.1 (ground arith) in
      (rest.0, omega (arith, rest.1), rest.2)
]

-- If no ID stands twice among the running checks: the workers, from those before and the checks wanted.
pub reconcile-IsSettled :
    (latest : List ProbeCheck) (s : Scheduler) (id : String)
    → IsMap s.running
    → IsSettled s.started
        (lookup id s.running)
        (lookup id (desired latest []))
        (lookup id (reconcile latest s).running)
unfolding reconcile
reconcile-IsSettled latest s id h =
    let next = desired latest [] in
    let r = reconcile_running s.running (s, next) in
    elim (Option-cases (lookup id s.running)) [
      | inr (job, old) ↦
          let own = running_own s.running id job (s, next) h old old in
          rw (old, rest_none r.1 id r.0 own.0) own.1
      | inl new ↦
          let other = running_other s.running id (s, next) new in
          elim (Option-cases (lookup id next)) [
            | inl absent ↦
                rw (new, absent) (rest_none r.1 id r.0 (other.1 ∙ absent) ∙ other.0 ∙ new)
            | inr (check, wanted) ↦
                let at =
                  rest_some r.1 id check r.0
                    (running-IsMap s.running (s, next) (desired-IsMap latest [] tt))
                    (other.1 ∙ wanted) in
                rw (new, wanted)
                  (at.0, omega (arith, at.1, running_started s.running (s, next)), at.2)
          ]
    ]
