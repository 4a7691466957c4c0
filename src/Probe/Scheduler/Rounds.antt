-- ===== src/Probe/Scheduler/Rounds.antt =====
-- cmd/wacht-probe/scheduler.go: the loop of `Reconcile` over the running checks.
use wacht.Shared.{
  ℕ, ◌≤◌, String, ◌≡◌, refl, sym, ◌∙◌, false, Option, none, some, [], ◌∷◌, arith, eq_iff, eq_refl,
  ◌==◌, if◌then◌else◌, Bool-cases, Option-cases, inl, inr,
}
use mathlib.Core.Path.{subst}
use wacht.Shared.Dict.{Dict, lookup, lookup-insert, lookup-insert_self, lookup-delete}
use wacht.Shared.Dict.Keys.{IsMap, delete-IsMap}
use wacht.Proto.{ProbeCheck}
use wacht.Probe.Scheduler.{
  RunningCheck, Scheduler, same_probe_check, reconcile_one, reconcile_running,
}

-- A worker that was started after the first `n`, for this check.
abbrev pub Started : ℕ → ProbeCheck → Option RunningCheck → Type 0
Started n check now = (k : ℕ) × (n ≤ k) × (now ≡ some (record { check = check; worker = k }))

-- The worker of an ID, from the one before and the check that is wanted.
abbrev pub IsSettled : ℕ → Option RunningCheck → Option ProbeCheck → Option RunningCheck → Type 0
IsSettled n before none now = now ≡ none
IsSettled n none (some check) now = Started n check now
IsSettled n (some job) (some check) now =
    if same_probe_check job.check check then now ≡ some job else Started n check now

-- A round changes the entry of its ID alone.
pub one_other :
    (id j : String) (job : RunningCheck) (x : Scheduler × Dict ProbeCheck)
    → (id == j) ≡ false
    → (lookup j (reconcile_one id job x).0.running ≡ lookup j x.0.running)
      × (lookup j (reconcile_one id job x).1 ≡ lookup j x.1)
unfolding reconcile_one
one_other id j job (s, next) e = elim (Option-cases (lookup id next)) [
  | inl absent ↦ rw (absent, reconcile_one) (ground (arith, lookup-delete id j s.running), refl)
  | inr (check, wanted) ↦
      rw (wanted, reconcile_one)
        (
          ground
              (arith, lookup-insert id j (record { check = check; worker = s.started }) s.running),
          ground (arith, lookup-delete id j next),
        )
]

one_own :
    (id : String) (job : RunningCheck) (x : Scheduler × Dict ProbeCheck)
    → lookup id x.0.running ≡ some job
    → (lookup id (reconcile_one id job x).1 ≡ none)
      × IsSettled x.0.started
          (some job)
          (lookup id x.1)
          (lookup id (reconcile_one id job x).0.running)
unfolding reconcile_one
one_own id job (s, next) h = elim (Option-cases (lookup id next)) [
  | inl absent ↦
      rw (absent, reconcile_one) (absent, ground (arith, lookup-delete id id s.running, eq_refl id))
  | inr (check, wanted) ↦
      rw (wanted, reconcile_one)
        (
          ground (arith, lookup-delete id id next, eq_refl id),
          elim (Bool-cases (same_probe_check job.check check)) [
            | inl same ↦ rw same h
            | inr other ↦ rw other (
              s.started,
              omega arith,
              lookup-insert_self id (record { check = check; worker = s.started }) s.running,
            )
          ],
        )
]

one_started :
    (id : String) (job : RunningCheck) (x : Scheduler × Dict ProbeCheck)
    → x.0.started ≤ (reconcile_one id job x).0.started
unfolding reconcile_one
one_started id job (s, next) = ground arith

one-IsMap :
    (id : String) (job : RunningCheck) (x : Scheduler × Dict ProbeCheck)
    → IsMap x.1
    → IsMap (reconcile_one id job x).1
unfolding reconcile_one
one-IsMap id job (s, next) h = elim (Option-cases (lookup id next)) [
  | inl absent ↦ rw (absent, reconcile_one) h
  | inr (check, wanted) ↦ rw (wanted, reconcile_one) (delete-IsMap id next h)
]

pub IsSettled-le :
    (n k : ℕ) (before : Option RunningCheck) (wanted : Option ProbeCheck)
    (now : Option RunningCheck)
    → n ≤ k
    → IsSettled k before wanted now
    → IsSettled n before wanted now
IsSettled-le n k before none now h d = d
IsSettled-le n k none (some check) now h d = (d.0, omega (arith, h, d.1), d.2)
IsSettled-le n k (some job) (some check) now h d =
    elim (Bool-cases (same_probe_check job.check check)) [
      | inl same ↦ rw same (rw same at d)
      | inr other ↦
          let at : Started k check now = rw other at d in
          rw other (at.0, omega (arith, h, at.1), at.2)
    ]

-- The loop over the running checks.
pub running_other :
    (m : Dict RunningCheck) (j : String) (x : Scheduler × Dict ProbeCheck)
    → lookup j m ≡ none
    → (lookup j (reconcile_running m x).0.running ≡ lookup j x.0.running)
      × (lookup j (reconcile_running m x).1 ≡ lookup j x.1)
unfolding reconcile_running lookup
running_other [] j x h = (refl, refl)
running_other ((id, job) ∷ m) j x h = elim (Bool-cases (id == j)) [
  | inl e ↦ absurd (ground (arith, eq_iff id j))
  | inr e ↦
      let rest = running_other m j (reconcile_one id job x) (ground arith) in
      let one = one_other id j job x e in (rest.0 ∙ one.0, rest.1 ∙ one.1)
]

pub running_started :
    (m : Dict RunningCheck) (x : Scheduler × Dict ProbeCheck)
    → x.0.started ≤ (reconcile_running m x).0.started
unfolding reconcile_running
running_started [] x = omega arith
running_started ((id, job) ∷ m) x =
    omega (arith, one_started id job x, running_started m (reconcile_one id job x))

pub running-IsMap :
    (m : Dict RunningCheck) (x : Scheduler × Dict ProbeCheck)
    → IsMap x.1
    → IsMap (reconcile_running m x).1
unfolding reconcile_running
running-IsMap [] x h = h
running-IsMap ((id, job) ∷ m) x h = running-IsMap m (reconcile_one id job x) (one-IsMap id job x h)

-- The round of an ID, and then the rounds of others.
own_first :
    (m : Dict RunningCheck) (j : String) (job : RunningCheck) (x : Scheduler × Dict ProbeCheck)
    → lookup j m ≡ none
    → lookup j x.0.running ≡ some job
    → let y = reconcile_running m (reconcile_one j job x) in
      (lookup j y.1 ≡ none) × IsSettled x.0.started (some job) (lookup j x.1) (lookup j y.0.running)
own_first m j job x h f =
    let one = one_own j job x f in
    let rest = running_other m j (reconcile_one j job x) h in (rest.1 ∙ one.0, rw rest.0 one.1)

pub running_own :
    (m : Dict RunningCheck) (j : String) (job : RunningCheck) (x : Scheduler × Dict ProbeCheck)
    → IsMap m
    → lookup j m ≡ some job
    → lookup j x.0.running ≡ some job
    → (lookup j (reconcile_running m x).1 ≡ none)
      × IsSettled x.0.started (some job) (lookup j x.1) (lookup j (reconcile_running m x).0.running)
unfolding reconcile_running lookup
running_own [] j job x h e f = absurd cc
running_own ((id, old) ∷ m) j job x h e f = elim (Bool-cases (id == j)) [
  | inl same ↦
      let here : id ≡ j = ground (arith, eq_iff id j) in
      let found : old ≡ job = ground arith in
      let entry : (id, old) ≡ (j, job) = cc in
      subst
        (λ (p : String × RunningCheck).
          let y = reconcile_running m (reconcile_one p.0 p.1 x) in
          (lookup j y.1 ≡ none)
          × IsSettled x.0.started (some job) (lookup j x.1) (lookup j y.0.running))
        (sym entry) (own_first m j job x (subst (λ (k : String). lookup k m ≡ none) here h.0) f)
  | inr other ↦
      let one = one_other id j old x other in
      let rest = running_own m j job (reconcile_one id old x) h.1 (ground arith) (one.0 ∙ f) in
      (
        rest.0,
        IsSettled-le x.0.started (reconcile_one id old x).0.started (some job) (lookup j x.1) _
            (one_started id old x)
            (subst
              (λ (w : Option ProbeCheck).
                IsSettled (reconcile_one id old x).0.started (some job) w
                  (lookup j (reconcile_running m (reconcile_one id old x)).0.running))
              one.1 rest.1),
      )
]
