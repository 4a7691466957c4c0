-- ===== src/Probe/Scheduler/Accounted.antt =====
-- cmd/wacht-probe/scheduler.go: the workers that were started, and those that were cancelled.
use wacht.Shared.{
  ℕ, ◌<◌, String, ◌≡◌, sym, ◌∙◌, Bool, true, false, ◌||◌, none, some, List, [], ◌∷◌, arith, eq_iff,
  eq_refl, ◌==◌, nat_eq, Bool-cases, Option-cases, inl, inr, ◌⊎◌,
}
use wacht.Shared.Dict.{Dict, lookup, delete, lookup-insert, lookup-insert_self, lookup-delete}
use wacht.Proto.{ProbeCheck}
use wacht.Probe.Scheduler.{
  RunningCheck, Scheduler, run_check, cancel, desired, same_probe_check, reconcile_one,
  reconcile_running, start_rest, reconcile,
}
use wacht.Shared.Dict.Keys.{IsMap}
use wacht.Probe.Scheduler.Rounds.{one_other, running_other, running_own, running-IsMap}
use wacht.Probe.Scheduler.Settled.{desired-IsMap}

abbrev pub member : ℕ → List ℕ → Bool
member k [] = false
member k (n ∷ ns) = nat_eq n k || member k ns

-- A worker is cancelled, or it runs for one ID, and not both.
pub record IsAccounted (s : Scheduler) : Type 0 where
  pub live :
      (i : String) (a : RunningCheck)
      → lookup i s.running ≡ some a
      → (a.worker < s.started) × (member a.worker s.cancelled ≡ false)
  pub apart :
      (i j : String) (a b : RunningCheck)
      → lookup i s.running ≡ some a
      → lookup j s.running ≡ some b
      → a.worker ≡ b.worker
      → i ≡ j
  pub accounted :
      (k : ℕ)
      → k < s.started
      → (member k s.cancelled ≡ true)
        ⊎ ((i : String) × (a : RunningCheck) × (lookup i s.running ≡ some a) × (a.worker ≡ k))
  pub stopped : (k : ℕ) → member k s.cancelled ≡ true → k < s.started

nat_eq_same : (m n : ℕ) → nat_eq m n ≡ true → m ≡ n
nat_eq_same m n h = ground arith

-- job.cancel() and delete(s.running, id)
stop-IsAccounted :
    (id : String) (job : RunningCheck) (s : Scheduler)
    → lookup id s.running ≡ some job
    → IsAccounted s
    → IsAccounted (record (cancel job s) { running = delete id s.running })
unfolding cancel
stop-IsAccounted id job s e h = record {
  live = λ i a f.
      ground (arith, lookup-delete id i s.running, h.live i a, h.apart id i job a, eq_iff id i);
  apart = λ i j a b f g w.
      ground (arith, lookup-delete id i s.running, lookup-delete id j s.running, h.apart i j a b);
  accounted = λ k l. elim (h.accounted k l) [
    | inl c ↦ inl (ground arith)
    | inr (i, a, f, w) ↦ elim (Bool-cases (id == i)) [
      | inl same ↦ inl (ground (arith, eq_iff id i))
      | inr other ↦ inr (i, a, ground (arith, lookup-delete id i s.running), w)
    ]
  ];
  stopped = λ k m. ground (arith, h.stopped k, h.live id job);
}

run_check-IsAccounted :
    (id : String) (check : ProbeCheck) (s : Scheduler)
    → lookup id s.running ≡ none
    → IsAccounted s
    → IsAccounted (run_check id check s)
unfolding run_check
run_check-IsAccounted id check s e h =
    let new : RunningCheck = record { check = check; worker = s.started } in
    record {
      live = λ i a f.
          ground (arith, lookup-insert id i new s.running, h.live i a, h.stopped s.started);
      apart = λ i j a b f g w. ground (
        arith,
        lookup-insert id i new s.running,
        lookup-insert id j new s.running,
        h.apart i j a b,
        h.live i a,
        h.live j b,
        eq_iff id i,
        eq_iff id j,
      );
      accounted = λ k l. elim (Bool-cases (nat_eq k s.started)) [
        | inl same ↦
            inr (id, new, lookup-insert_self id new s.running, sym (nat_eq_same k s.started same))
        | inr other ↦ elim (h.accounted k (ground arith)) [
          | inl c ↦ inl c
          | inr (i, a, f, w) ↦
              inr (i, a, ground (arith, lookup-insert id i new s.running, eq_iff id i), w)
        ]
      ];
      stopped = λ k m. ground (arith, h.stopped k);
    }

running-run_check :
    (id k : String) (check : ProbeCheck) (s : Scheduler)
    → (id == k) ≡ false
    → lookup k (run_check id check s).running ≡ lookup k s.running
unfolding run_check
running-run_check id k check s e =
    ground (arith, lookup-insert id k (record { check = check; worker = s.started }) s.running)

-- job.cancel() and s.running[id] = s.startWorker(check)
replace-IsAccounted :
    (id : String) (job : RunningCheck) (check : ProbeCheck) (s : Scheduler)
    → lookup id s.running ≡ some job
    → IsAccounted s
    → IsAccounted (run_check id check (cancel job s))
unfolding run_check cancel
replace-IsAccounted id job check s e h =
    let new : RunningCheck = record { check = check; worker = s.started } in
    record {
      live = λ i a f. ground (
        arith,
        lookup-insert id i new s.running,
        h.live i a,
        h.live id job,
        h.stopped s.started,
        h.apart id i job a,
        eq_iff id i,
      );
      apart = λ i j a b f g w. ground (
        arith,
        lookup-insert id i new s.running,
        lookup-insert id j new s.running,
        h.apart i j a b,
        h.live i a,
        h.live j b,
        eq_iff id i,
        eq_iff id j,
      );
      accounted = λ k l. elim (Bool-cases (nat_eq k s.started)) [
        | inl same ↦
            inr (id, new, lookup-insert_self id new s.running, sym (nat_eq_same k s.started same))
        | inr other ↦ elim (h.accounted k (ground arith)) [
          | inl c ↦ inl (ground arith)
          | inr (i, a, f, w) ↦ elim (Bool-cases (id == i)) [
            | inl same ↦ inl (ground (arith, eq_iff id i))
            | inr elsewhere ↦ inr (i, a, ground (arith, lookup-insert id i new s.running), w)
          ]
        ]
      ];
      stopped = λ k m. ground (arith, h.stopped k, h.live id job);
    }

one-IsAccounted :
    (id : String) (job : RunningCheck) (x : Scheduler × Dict ProbeCheck)
    → lookup id x.0.running ≡ some job
    → IsAccounted x.0
    → IsAccounted (reconcile_one id job x).0
unfolding reconcile_one
one-IsAccounted id job (s, next) e h = elim (Option-cases (lookup id next)) [
  | inl absent ↦ rw (absent, reconcile_one) (stop-IsAccounted id job s e h)
  | inr (check, wanted) ↦
      rw (wanted, reconcile_one)
        (elim (Bool-cases (same_probe_check job.check check)) [
          | inl same ↦ rw same h
          | inr other ↦ rw other (replace-IsAccounted id job check s e h)
        ])
]

running-IsAccounted :
    (m : Dict RunningCheck) (x : Scheduler × Dict ProbeCheck)
    → IsMap m
    → ((k : String) (a : RunningCheck) → lookup k m ≡ some a → lookup k x.0.running ≡ some a)
    → IsAccounted x.0
    → IsAccounted (reconcile_running m x).0
unfolding reconcile_running lookup
running-IsAccounted [] x d f h = h
running-IsAccounted ((id, job) ∷ m) x d f h =
    running-IsAccounted m (reconcile_one id job x) d.1
      (λ k a e. elim (Bool-cases (id == k)) [
        | inl same ↦ absurd (ground (arith, eq_iff id k))
        | inr other ↦ (one_other id k job x other).0 ∙ f k a (ground arith)
      ])
      (one-IsAccounted id job x (f id job (ground (arith, eq_refl id))) h)

rest-IsAccounted :
    (m : Dict ProbeCheck) (s : Scheduler)
    → IsMap m
    → ((k : String) (c : ProbeCheck) → lookup k m ≡ some c → lookup k s.running ≡ none)
    → IsAccounted s
    → IsAccounted (start_rest m s)
unfolding start_rest lookup
rest-IsAccounted [] s d f h = h
rest-IsAccounted ((id, check) ∷ m) s d f h =
    rest-IsAccounted m (run_check id check s) d.1
      (λ k c e. elim (Bool-cases (id == k)) [
        | inl same ↦ absurd (ground (arith, eq_iff id k))
        | inr other ↦ running-run_check id k check s other ∙ f k c (ground arith)
      ])
      (run_check-IsAccounted id check s (f id check (ground (arith, eq_refl id))) h)

pub reconcile-IsAccounted :
    (latest : List ProbeCheck) (s : Scheduler)
    → IsMap s.running
    → IsAccounted s
    → IsAccounted (reconcile latest s)
unfolding reconcile
reconcile-IsAccounted latest s d h =
    let next = desired latest [] in
    let r = reconcile_running s.running (s, next) in
    rest-IsAccounted r.1 r.0 (running-IsMap s.running (s, next) (desired-IsMap latest [] tt))
      (λ k c e. elim (Option-cases (lookup k s.running)) [
        | inl new ↦ (running_other s.running k (s, next) new).0 ∙ new
        | inr (job, old) ↦
            absurd (ground (arith, (running_own s.running k job (s, next) d old old).0))
      ])
      (running-IsAccounted s.running (s, next) d (λ k a e. e) h)
