-- ===== src/Monitoring/Ids/Unique.antt =====
-- `uniqueIDs` of internal/monitoring/runtime.go: the IDs of its result.
use wacht.Shared.{
  String, ◌≡◌, refl, true, false, not, ◌&&◌, List, [], ◌∷◌, arith, ◌==◌, eq_iff, eq_refl,
}
use wacht.Monitoring.Ids.{contains, unique_from, unique_ids}

-- No ID stands twice in the list.
abbrev pub Distinct : List String → Type 0
Distinct [] = Unit
Distinct (id ∷ ids) = (contains id ids ≡ false) × Distinct ids

contains-unique_from :
    (id : String) (seen ids : List String)
    → contains id (unique_from seen ids)
      ≡ (not (id == "") && (not (contains id seen) && contains id ids))
unfolding contains unique_from
contains-unique_from id seen [] = ground arith
contains-unique_from id seen (j ∷ ids) = ground (
  arith,
  eq_iff j id,
  eq_iff j "",
  eq_iff id "",
  contains-unique_from id seen ids,
  contains-unique_from id (j ∷ seen) ids,
)

Distinct-unique_from : (seen ids : List String) → Distinct (unique_from seen ids)
unfolding contains unique_from
Distinct-unique_from seen [] = tt
Distinct-unique_from seen (j ∷ ids) = ground (
  arith,
  eq_refl j,
  contains-unique_from j (j ∷ seen) ids,
  Distinct-unique_from seen ids,
  Distinct-unique_from (j ∷ seen) ids,
)

-- A list with no empty ID, no ID twice and none that was seen is kept whole.
unique_from_fresh :
    (seen ids : List String)
    → Distinct ids
    → contains "" ids ≡ false
    → ((id : String) → contains id ids ≡ true → contains id seen ≡ false)
    → unique_from seen ids ≡ ids
unfolding contains unique_from
unique_from_fresh seen [] d e f = refl
unique_from_fresh seen (j ∷ ids) d e f =
    let later : (id : String) → contains id ids ≡ true → contains id (j ∷ seen) ≡ false =
      λ id h. ground (arith, f id, eq_iff j id) in
    let rest = unique_from_fresh (j ∷ seen) ids d.1 (ground arith) later in
    ground (arith, eq_refl j, f j, rest)

pub record IsUnique (ids out : List String) : Type 0 where
  pub distinct : Distinct out
  pub same_ids : (id : String) → contains id out ≡ (not (id == "") && contains id ids)
  pub again : unique_ids out ≡ out

-- The result of `unique_ids` has no ID twice and exactly the IDs of the input but the empty one, and a
-- second call changes nothing.
pub unique_ids-IsUnique : (ids : List String) → IsUnique ids (unique_ids ids)
unfolding unique_ids
unique_ids-IsUnique ids = record {
  distinct = Distinct-unique_from [] ids;
  same_ids = λ id. ground (arith, contains-unique_from id [] ids);
  again =
      unique_from_fresh [] (unique_from [] ids) (Distinct-unique_from [] ids)
        (ground (arith, contains-unique_from "" [] ids, eq_refl "")) (λ id h. refl);
}
