-- ===== src/Store/Probes/Seeded.antt =====
-- SeedProbes (internal/store/probes.go): which probes of the configuration stay active.
use wacht.Shared.{
  refl, [], ◌∷◌, ◌≡◌, String, List, map, arith, Bool, true, false, not, ◌||◌, ◌==◌, eq_refl, inl,
  inr, String-cases, is_some, if◌then◌else◌, All,
}
use mathlib.Core.Path.{subst, sym}
use wacht.Shared.Keyed.{All-map, All-implies}
use wacht.Shared.Rows.{any, select}
use wacht.Shared.Time.{Time}
use wacht.Shared.Action.{ok}
use wacht.Store.Tables.{Tables, ProbeRow}
use wacht.Store.Connection.{Connection, exec}
use wacht.Store.Connection.Rules.{Ensures, exec-Ensures, bind-Ensures, pure-Ensures}
use wacht.Store.Probes.{
  ProbeSeed, revoke_row, revoke_probe, unless_kept, revoke_others, config_ids, upsert_seeds,
  seed_probes,
}

abbrev pub is_seed : List ProbeSeed → String → Bool
is_seed seeds probe_id = any (λ (s : ProbeSeed). s.probe_id == probe_id) seeds

-- The row is not of the configuration, or one of its seeds names it, or it is revoked.
abbrev pub is_settled : List ProbeSeed → ProbeRow → Bool
is_settled seeds p =
    not (p.provisioned_by == "config") || is_seed seeds p.probe_id || is_some p.revoked_at

-- The row is settled, or the loop has yet to come to it.
abbrev Covered : List ProbeSeed → List String → ProbeRow → Type 0
Covered seeds ids p = (is_settled seeds p || any (λ (id : String). p.probe_id == id) ids) ≡ true

abbrev AllCovered : List ProbeSeed → List String → Tables → Type 0
AllCovered seeds ids t = All (Covered seeds ids) t.probes

abbrev Any : Tables → Type 0
Any t = Unit

revoke_row-Covered :
    (seeds : List ProbeSeed) (id : String) (ids : List String) (now : Time) (p : ProbeRow)
    → Covered seeds (id ∷ ids) p
    → Covered seeds ids (revoke_row id now p)
revoke_row-Covered seeds id ids now p h = ground arith

kept-Covered :
    (seeds : List ProbeSeed) (id : String) (ids : List String) (p : ProbeRow)
    → is_seed seeds id ≡ true
    → Covered seeds (id ∷ ids) p
    → Covered seeds ids p
kept-Covered seeds id ids p k h = elim (String-cases p.probe_id id) [
  | inl same ↦
      let kept : is_seed seeds p.probe_id ≡ true =
        subst (λ (x : String). is_seed seeds x ≡ true) (sym same) k in
      ground arith
  | inr other ↦ ground arith
]

later-Covered :
    (seeds : List ProbeSeed) (id : String) (ids : List String) (p : ProbeRow)
    → Covered seeds ids p
    → Covered seeds (id ∷ ids) p
later-Covered seeds id ids p h = ground arith

-- What the loop is given covers every row.
abbrev is_ours : ProbeRow → Bool
is_ours p = p.provisioned_by == "config"

abbrev ids_of : List ProbeRow → List String
ids_of = map (λ (p : ProbeRow). p.probe_id)

next_row-Covered :
    (seeds : List ProbeSeed) (p : ProbeRow) (ps rest : List ProbeRow) (ours : Bool)
    → is_ours p ≡ ours
    → All (Covered seeds (ids_of rest)) ps
    → All (Covered seeds (ids_of (if ours then p ∷ rest else rest))) (p ∷ ps)
next_row-Covered seeds p ps rest true h k = (
  ground (arith, eq_refl p.probe_id),
  All-implies (Covered seeds (ids_of rest)) (Covered seeds (p.probe_id ∷ ids_of rest)) ps
      (later-Covered seeds p.probe_id (ids_of rest)) k,
)
next_row-Covered seeds p ps rest false h k = (ground arith, k)

listed-Covered :
    (seeds : List ProbeSeed) (ps : List ProbeRow)
    → All (Covered seeds (ids_of (select is_ours ps))) ps
listed-Covered seeds [] = tt
listed-Covered seeds (p ∷ ps) =
    next_row-Covered seeds p ps (select is_ours ps) (is_ours p) refl (listed-Covered seeds ps)

unless_kept-Covered :
    (kept : Bool) (seeds : List ProbeSeed) (id : String) (ids : List String) (now : Time)
    → is_seed seeds id ≡ kept
    → Ensures
        (AllCovered seeds (id ∷ ids))
        (λ (c : Connection). if kept then (c, ok tt) else revoke_probe id now c)
        (λ (u : Unit {0}). AllCovered seeds ids)
unfolding revoke_probe
unless_kept-Covered true seeds id ids now k c a p h =
    All-implies (Covered seeds (id ∷ ids)) (Covered seeds ids) c.tables.probes
      (λ q. kept-Covered seeds id ids q k) p
unless_kept-Covered false seeds id ids now k c a p h =
    exec-Ensures (AllCovered seeds (id ∷ ids)) (λ (u : Unit {0}). AllCovered seeds ids)
      (λ (t : Tables). (record t { probes = map (revoke_row id now) t.probes }, ok tt))
      (λ t u g e.
        All-map (Covered seeds (id ∷ ids)) (Covered seeds ids) (revoke_row id now) t.probes
          (revoke_row-Covered seeds id ids now) g)
      c a p h

revoke_others-Covered :
    (seeds : List ProbeSeed) (now : Time) (ids : List String)
    → Ensures
        (AllCovered seeds ids)
        (revoke_others seeds now ids)
        (λ (u : Unit {0}). AllCovered seeds [])
unfolding revoke_others
revoke_others-Covered seeds now [] = pure-Ensures (AllCovered seeds []) tt
revoke_others-Covered seeds now (id ∷ ids) =
    bind-Ensures (AllCovered seeds (id ∷ ids)) (λ u. AllCovered seeds ids)
      (λ u. AllCovered seeds []) (unless_kept seeds id now) (λ u. revoke_others seeds now ids)
      (unless_kept-Covered (is_seed seeds id) seeds id ids now refl)
      (λ u. revoke_others-Covered seeds now ids)

config_ids-Covered :
    (seeds : List ProbeSeed)
    → Ensures Any (exec (λ (t : Tables). (t, ok (config_ids t)))) (AllCovered seeds)
config_ids-Covered seeds =
    exec-Ensures Any (AllCovered seeds) (λ (t : Tables). (t, ok (config_ids t)))
      (λ t ids u e.
        let same : config_ids t ≡ ids = ground arith in
        subst (λ (x : List String). AllCovered seeds x t) same (listed-Covered seeds t.probes))

module _ (hash : String → String) where
  seed-Ensures :
      (s : ProbeSeed) (seeds : List ProbeSeed) (now : Time)
      → Ensures Any (seed_probes hash (s ∷ seeds) now) (λ (u : Unit {0}). AllCovered (s ∷ seeds) [])
  unfolding seed_probes
  seed-Ensures s seeds now =
      bind-Ensures Any (λ u. Any) (λ (u : Unit {0}). AllCovered (s ∷ seeds) [])
        (upsert_seeds hash (s ∷ seeds) now) _ (λ c a p h. tt)
        (λ u.
          bind-Ensures Any (AllCovered (s ∷ seeds)) (λ (u : Unit {0}). AllCovered (s ∷ seeds) [])
            (exec (λ (t : Tables). (t, ok (config_ids t)))) _ (config_ids-Covered (s ∷ seeds))
            (revoke_others-Covered (s ∷ seeds) now))

  -- After a successful seeding with at least one seed, whatever the tables held before, every probe
  -- that is of the configuration and that no seed names is revoked.
  pub seed_probes-is_settled :
      (s : ProbeSeed) (seeds : List ProbeSeed) (now : Time) (c : Connection)
      → (seed_probes hash (s ∷ seeds) now c).1 ≡ ok tt
      → All
          (λ (p : ProbeRow). is_settled (s ∷ seeds) p ≡ true)
          (seed_probes hash (s ∷ seeds) now c).0.tables.probes
  seed_probes-is_settled s seeds now c h =
      All-implies (Covered (s ∷ seeds) []) (λ (p : ProbeRow). is_settled (s ∷ seeds) p ≡ true)
        (seed_probes hash (s ∷ seeds) now c).0.tables.probes (λ p k. ground arith)
        (seed-Ensures s seeds now c tt tt h)
