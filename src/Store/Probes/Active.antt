-- ===== src/Store/Probes/Active.antt =====
-- SeedProbes (internal/store/probes.go): the probes that the seeds name.
use wacht.Shared.{
  refl, [], ◌∷◌, ◌≡◌, String, List, map, arith, Bool, true, false, ◌&&◌, ◌++◌, ◌==◌, eq_refl, inl,
  inr, Bool-cases, String-cases,
}
use mathlib.Core.Path.{subst, sym}
use wacht.Shared.Rows.{any}
use wacht.Shared.Time.{Time}
use wacht.Shared.Action.{ok}
use wacht.Store.Tables.{Tables, ProbeRow}
use wacht.Store.Connection.{Connection, exec}
use wacht.Store.Connection.Rules.{Ensures, exec-Ensures, bind-Ensures, pure-Ensures}
use wacht.Store.Probes.{
  ProbeSeed, has_id, reseed_row, revoke_row, revoke_probe, unless_kept, revoke_others, config_ids,
  upsert_seed, upsert_seeds, seed_probes, new_row, is_active_probe,
}
use wacht.Store.Probes.Seeded.{is_seed}

-- A row of the configuration that is not revoked.
abbrev pub is_active_seed : String → ProbeRow → Bool
is_active_seed id p = is_active_probe id p && p.provisioned_by == "config"

abbrev IsActive : String → Tables → Type 0
IsActive id t = any (is_active_seed id) t.probes ≡ true

abbrev Any : Tables → Type 0
Any t = Unit

-- One row that a seed is written to.
reseed_row-is_active :
    (id secret_hash : String) (p : ProbeRow)
    → has_id id p ≡ true
    → is_active_seed id (reseed_row id secret_hash p) ≡ true
reseed_row-is_active id secret_hash p h = rw h (rw h refl)

reseed_row_keeps :
    (id other secret_hash : String) (p : ProbeRow)
    → is_active_seed id p ≡ true
    → is_active_seed id (reseed_row other secret_hash p) ≡ true
reseed_row_keeps id other secret_hash p h = elim (Bool-cases (has_id other p)) [
  | inl named ↦ rw named (ground (arith, eq_refl "config"))
  | inr differ ↦ rw differ h
]

-- A test that holds of some row holds of some row after a change that carries it over.
any-map :
    (f g : ProbeRow → Bool) (change : ProbeRow → ProbeRow) (ps : List ProbeRow)
    → ((p : ProbeRow) → f p ≡ true → g (change p) ≡ true)
    → any f ps ≡ true
    → any g (map change ps) ≡ true
any-map f g change [] k h = absurd cc
any-map f g change (p ∷ ps) k h = elim (Bool-cases (f p)) [
  | inl here ↦ rw (k p here) refl
  | inr there ↦
      let rest : any g (map change ps) ≡ true = any-map f g change ps k (ground arith) in
      ground arith
]

any_reseeded :
    (id secret_hash : String) (ps : List ProbeRow)
    → any (has_id id) ps ≡ true
    → any (is_active_seed id) (map (reseed_row id secret_hash) ps) ≡ true
any_reseeded id secret_hash ps =
    any-map (has_id id) (is_active_seed id) (reseed_row id secret_hash) ps
      (reseed_row-is_active id secret_hash)

reseeded_keeps :
    (id other secret_hash : String) (ps : List ProbeRow)
    → any (is_active_seed id) ps ≡ true
    → any (is_active_seed id) (map (reseed_row other secret_hash) ps) ≡ true
reseeded_keeps id other secret_hash ps =
    any-map (is_active_seed id) (is_active_seed id) (reseed_row other secret_hash) ps
      (reseed_row_keeps id other secret_hash)

any_appended :
    (id : String) (ps : List ProbeRow) (q : ProbeRow)
    → is_active_seed id q ≡ true
    → any (is_active_seed id) (ps ++ (q ∷ [])) ≡ true
any_appended id [] q h = ground arith
any_appended id (p ∷ ps) q h = ground (arith, any_appended id ps q)

appended_keeps :
    (id : String) (ps : List ProbeRow) (q : ProbeRow)
    → any (is_active_seed id) ps ≡ true
    → any (is_active_seed id) (ps ++ (q ∷ [])) ≡ true
appended_keeps id [] q h = absurd cc
appended_keeps id (p ∷ ps) q h = ground (arith, appended_keeps id ps q)

revoked_keeps :
    (id other : String) (now : Time) (ps : List ProbeRow)
    → (id == other) ≡ false
    → any (is_active_seed id) ps ≡ true
    → any (is_active_seed id) (map (revoke_row other now) ps) ≡ true
revoked_keeps id other now [] d h = absurd cc
revoked_keeps id other now (p ∷ ps) d h = elim (String-cases p.probe_id id) [
  | inl same ↦
      let kept : (p.probe_id == other) ≡ false =
        subst (λ (x : String). (x == other) ≡ false) (sym same) d in
      ground (arith, revoked_keeps id other now ps)
  | inr differ ↦ ground (arith, revoked_keeps id other now ps)
]

-- A text that no seed names is not the ID of a seed.
seed_differs :
    (seeds : List ProbeSeed) (id other : String)
    → is_seed seeds id ≡ true
    → is_seed seeds other ≡ false
    → (id == other) ≡ false
seed_differs seeds id other h k = elim (String-cases id other) [
  | inl same ↦
      let named : is_seed seeds other ≡ true =
        subst (λ (x : String). is_seed seeds x ≡ true) same h in
      absurd cc
  | inr differ ↦ differ
]

unless_kept-IsActive :
    (seeds : List ProbeSeed) (id other : String) (now : Time)
    → is_seed seeds id ≡ true
    → Ensures (IsActive id) (unless_kept seeds other now) (λ (u : Unit {0}). IsActive id)
unfolding revoke_probe
unless_kept-IsActive seeds id other now k = elim (Bool-cases (is_seed seeds other)) [
  | inl kept ↦ rw kept (pure-Ensures (IsActive id) tt)
  | inr gone ↦ rw gone (
      exec-Ensures (IsActive id) (λ (u : Unit {0}). IsActive id)
        (λ (t : Tables). (record t { probes = map (revoke_row other now) t.probes }, ok tt))
        (λ t u g e. revoked_keeps id other now t.probes (seed_differs seeds id other k gone) g))
]

revoke_others-IsActive :
    (seeds : List ProbeSeed) (id : String) (now : Time) (ids : List String)
    → is_seed seeds id ≡ true
    → Ensures (IsActive id) (revoke_others seeds now ids) (λ (u : Unit {0}). IsActive id)
unfolding revoke_others
revoke_others-IsActive seeds id now [] k = pure-Ensures (IsActive id) tt
revoke_others-IsActive seeds id now (other ∷ ids) k =
    bind-Ensures (IsActive id) (λ u. IsActive id) (λ u. IsActive id) (unless_kept seeds other now)
      (λ u. revoke_others seeds now ids) (unless_kept-IsActive seeds id other now k)
      (λ u. revoke_others-IsActive seeds id now ids k)

module _ (hash : String → String) where
  upsert_seed-IsActive :
      (s : ProbeSeed) (now : Time) (t : Tables) (known : Bool)
      → any (has_id s.probe_id) t.probes ≡ known
      → IsActive s.probe_id (upsert_seed hash s now t).0
  upsert_seed-IsActive s now t true h = rw h (any_reseeded s.probe_id (hash s.secret) t.probes h)
  upsert_seed-IsActive s now t false h = rw h (
      any_appended s.probe_id t.probes (new_row s.probe_id (hash s.secret) "config" now)
        (ground (arith, eq_refl s.probe_id)))

  upsert_seed_keeps :
      (id : String) (s : ProbeSeed) (now : Time) (t : Tables)
      → IsActive id t
      → IsActive id (upsert_seed hash s now t).0
  upsert_seed_keeps id s now t g = elim (Bool-cases (any (has_id s.probe_id) t.probes)) [
    | inl known ↦ rw known (reseeded_keeps id s.probe_id (hash s.secret) t.probes g)
    | inr new ↦
        rw new (appended_keeps id t.probes (new_row s.probe_id (hash s.secret) "config" now) g)
  ]

  upsert_seeds_keep :
      (id : String) (seeds : List ProbeSeed) (now : Time)
      → Ensures (IsActive id) (upsert_seeds hash seeds now) (λ (u : Unit {0}). IsActive id)
  unfolding upsert_seeds
  upsert_seeds_keep id [] now = pure-Ensures (IsActive id) tt
  upsert_seeds_keep id (s ∷ seeds) now =
      bind-Ensures (IsActive id) (λ u. IsActive id) (λ u. IsActive id)
        (exec (upsert_seed hash s now)) (λ u. upsert_seeds hash seeds now)
        (exec-Ensures (IsActive id) (λ u. IsActive id) (upsert_seed hash s now)
          (λ t u g e. upsert_seed_keeps id s now t g))
        (λ u. upsert_seeds_keep id seeds now)

  upsert_seeds-IsActive :
      (id : String) (seeds : List ProbeSeed) (now : Time)
      → is_seed seeds id ≡ true
      → Ensures Any (upsert_seeds hash seeds now) (λ (u : Unit {0}). IsActive id)
  unfolding upsert_seeds
  upsert_seeds-IsActive id [] now k = absurd cc
  upsert_seeds-IsActive id (s ∷ seeds) now k = elim (String-cases s.probe_id id) [
    | inl same ↦
        bind-Ensures Any (λ u. IsActive id) (λ u. IsActive id) (exec (upsert_seed hash s now))
          (λ u. upsert_seeds hash seeds now)
          (exec-Ensures Any (λ u. IsActive id) (upsert_seed hash s now)
            (λ t u g e.
              subst (λ (x : String). IsActive x (upsert_seed hash s now t).0) same
                (upsert_seed-IsActive s now t (any (has_id s.probe_id) t.probes) refl)))
          (λ u. upsert_seeds_keep id seeds now)
    | inr differ ↦
        bind-Ensures Any (λ u. Any) (λ u. IsActive id) (exec (upsert_seed hash s now))
          (λ u. upsert_seeds hash seeds now) (λ c a p h. tt)
          (λ u. upsert_seeds-IsActive id seeds now (ground arith))
  ]

  seed_probes-Ensures :
      (id : String) (s : ProbeSeed) (seeds : List ProbeSeed) (now : Time)
      → is_seed (s ∷ seeds) id ≡ true
      → Ensures Any (seed_probes hash (s ∷ seeds) now) (λ (u : Unit {0}). IsActive id)
  unfolding seed_probes
  seed_probes-Ensures id s seeds now k =
      bind-Ensures Any (λ u. IsActive id) (λ u. IsActive id) (upsert_seeds hash (s ∷ seeds) now) _
        (upsert_seeds-IsActive id (s ∷ seeds) now k)
        (λ u.
          bind-Ensures (IsActive id) (λ ids. IsActive id) (λ (u : Unit {0}). IsActive id)
            (exec (λ (t : Tables). (t, ok (config_ids t)))) _
            (exec-Ensures (IsActive id) (λ ids. IsActive id)
              (λ (t : Tables). (t, ok (config_ids t))) (λ t ids g e. g))
            (λ ids. revoke_others-IsActive (s ∷ seeds) id now ids k))

  -- After a successful seeding, each probe that a seed names has a row of the configuration that is
  -- not revoked, also where the probe was revoked before or had been created by other means.
  pub seed_probes-is_active_seed :
      (id : String) (s : ProbeSeed) (seeds : List ProbeSeed) (now : Time) (c : Connection)
      → is_seed (s ∷ seeds) id ≡ true
      → (seed_probes hash (s ∷ seeds) now c).1 ≡ ok tt
      → any (is_active_seed id) (seed_probes hash (s ∷ seeds) now c).0.tables.probes ≡ true
  seed_probes-is_active_seed id s seeds now c k h = seed_probes-Ensures id s seeds now k c tt tt h
