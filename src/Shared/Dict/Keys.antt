-- ===== src/Shared/Dict/Keys.antt =====
-- Association lists in which no key stands twice, as in a map.
use wacht.Shared.{String, ◌≡◌, refl, none, [], ◌∷◌, arith, eq_iff, ◌==◌, Bool-cases, inl, inr}
use wacht.Shared.Dict.{Dict, lookup, insert, delete, lookup-insert, lookup-delete}

module _ {ℓ} {V : Type ℓ} where
  abbrev pub IsMap : Dict V → Type ℓ
  IsMap [] = Unit
  IsMap ((k, v) ∷ m) = (lookup k m ≡ none) × IsMap m

  pub insert-IsMap : (k : String) (v : V) (m : Dict V) → IsMap m → IsMap (insert k v m)
  unfolding insert lookup
  insert-IsMap k v [] h = (refl, tt)
  insert-IsMap k v ((j, w) ∷ m) h = elim (Bool-cases (j == k)) [
    | inl e ↦ rw e (h.0, h.1)
    | inr e ↦
        rw e (ground (arith, lookup-insert k j v m, eq_iff k j, eq_iff j k), insert-IsMap k v m h.1)
  ]

  pub delete-IsMap : (k : String) (m : Dict V) → IsMap m → IsMap (delete k m)
  unfolding delete
  delete-IsMap k [] h = tt
  delete-IsMap k ((j, w) ∷ m) h = elim (Bool-cases (j == k)) [
    | inl e ↦ rw e (delete-IsMap k m h.1)
    | inr e ↦ rw e (ground (arith, lookup-delete k j m), delete-IsMap k m h.1)
  ]
