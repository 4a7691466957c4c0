-- ===== src/Shared/Dict.antt =====
-- Go maps with text keys, as association lists. An assignment to a present key keeps its place and a
-- new key comes last; `range` goes through the list in its order.
pub mod Every
pub mod Keys
use Prim.Native.String.{String}
use mathlib.Core.Path.{◌≡◌, refl}
use mathlib.Core.Logic.{inl, inr}
use mathlib.Core.Option.{Option, none, some}
use mathlib.Core.List.{List, [], ◌∷◌, map}
use native.Mathlib.Omega.{arith}
use text.Mathlib.TextEquality.{eq_iff}
use text.Mathlib.TextPositions.{eq_refl}
use wacht.Shared.Tests.{◌==◌, if◌then◌else◌, Bool-cases}

abbrev pub Dict {ℓ} : Type ℓ → Type ℓ
Dict V = List (String × V)

module _ {ℓ} {V : Type ℓ} where
  -- v, ok := m[k]
  unfoldable pub lookup : String → Dict V → Option V
  lookup k [] = none
  lookup k ((j, v) ∷ m) = if j == k then some v else lookup k m

  -- m[k] = v
  unfoldable pub insert : String → V → Dict V → Dict V
  insert k v [] = (k, v) ∷ []
  insert k v ((j, w) ∷ m) = if j == k then (j, v) ∷ m else (j, w) ∷ insert k v m

  -- delete(m, k)
  unfoldable pub delete : String → Dict V → Dict V
  delete k [] = []
  delete k ((j, w) ∷ m) = let rest = delete k m in if j == k then rest else (j, w) ∷ rest

  -- After an assignment the key has the new value, and the others what they had.
  pub lookup-insert :
      (set asked : String) (v : V) (m : Dict V)
      → lookup asked (insert set v m) ≡ (if set == asked then some v else lookup asked m)
  unfolding lookup insert
  lookup-insert set asked v [] = refl
  lookup-insert set asked v ((key, old) ∷ m) =
      ground
        (arith, lookup-insert set asked v m, eq_iff key set, eq_iff key asked, eq_iff set asked)

  pub lookup-delete :
      (k j : String) (m : Dict V) → lookup j (delete k m) ≡ (if k == j then none else lookup j m)
  unfolding lookup delete
  lookup-delete k j [] = ground arith
  lookup-delete k j ((i, w) ∷ m) =
      ground (arith, eq_iff k j, eq_iff i k, eq_iff i j, lookup-delete k j m)

  pub lookup-insert_self : (k : String) (v : V) (m : Dict V) → lookup k (insert k v m) ≡ some v
  lookup-insert_self k v m = simp (lookup-insert, eq_refl)

  -- A second assignment to one key makes the first one void.
  pub insert-insert : (k : String) (v w : V) (m : Dict V) → insert k v (insert k w m) ≡ insert k v m
  unfolding insert
  insert-insert k v w [] = rw eq_refl
  insert-insert k v w ((j, u) ∷ m) = elim (Bool-cases (j == k)) [
    | inl here ↦ rw here (rw here refl)
    | inr there ↦ rw there (rw (there, insert-insert k v w m) refl)
  ]

  -- To assign what is there changes nothing.
  pub insert_same : (k : String) (v : V) (m : Dict V) → lookup k m ≡ some v → insert k v m ≡ m
  unfolding lookup insert
  insert_same k v [] h = ground arith
  insert_same k v ((j, u) ∷ m) h = ground (arith, insert_same k v m)

  pub delete_absent : (k : String) (m : Dict V) → lookup k m ≡ none → delete k m ≡ m
  unfolding lookup delete
  delete_absent k [] h = refl
  delete_absent k ((j, u) ∷ m) h = ground (arith, delete_absent k m)

  -- To delete a key that was new when it was assigned takes the map back.
  pub delete-insert_new :
      (k : String) (v : V) (m : Dict V) → lookup k m ≡ none → delete k (insert k v m) ≡ m
  unfolding lookup insert delete
  delete-insert_new k v [] h = rw eq_refl
  delete-insert_new k v ((j, u) ∷ m) h = ground (arith, delete-insert_new k v m)

abbrev pub keys {ℓ} : {V : Type ℓ} → Dict V → List String
keys = map (λ e. e.0)

pub ruleset dict_laws = (lookup-insert, lookup-delete, eq_refl)
