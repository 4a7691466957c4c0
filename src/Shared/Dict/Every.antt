-- ===== src/Shared/Dict/Every.antt =====
-- A property of every entry of a map, and how lookups and changes meet it.
use wacht.Shared.Tests.{◌==◌, Bool-cases}
use wacht.Shared.Lists.{All}
use Prim.Native.String.{String}
use mathlib.Core.Path.{◌≡◌, sym, subst, ap}
use mathlib.Core.Logic.{inl, inr}
use mathlib.Core.Option.{some}
use mathlib.Core.List.{[], ◌∷◌}
use text.Mathlib.TextEquality.{eq_iff}
use wacht.Shared.Dict.{Dict, lookup, insert, delete}

module _ {ℓ κ} {V : Type ℓ} (P : String × V → Type κ) where
  pub All-lookup : (k : String) (m : Dict V) {v : V} → All P m → lookup k m ≡ some v → P (k, v)
  unfolding lookup
  All-lookup k [] h e = cc
  All-lookup k ((j, w) ∷ m) {v} h e = elim (Bool-cases (j == k)) [
    | inl here ↦
        let same : w ≡ v = cc (rw here at e) in
        let place = (eq_iff j k).0 here in subst P (λ i. (place i, same i)) h.0
    | inr there ↦ All-lookup k m h.1 (rw there at e)
  ]

  pub All-insert : (k : String) (v : V) (m : Dict V) → All P m → P (k, v) → All P (insert k v m)
  unfolding insert
  All-insert k v [] h p = (p, tt)
  All-insert k v ((j, w) ∷ m) h p = elim (Bool-cases (j == k)) [
    | inl here ↦ rw here (subst P (ap (λ (i : String). (i, v)) (sym ((eq_iff j k).0 here))) p, h.1)
    | inr there ↦ rw there (h.0, All-insert k v m h.1 p)
  ]

  pub All-delete : (k : String) (m : Dict V) → All P m → All P (delete k m)
  unfolding delete
  All-delete k [] h = tt
  All-delete k ((j, w) ∷ m) h = elim (Bool-cases (j == k)) [
    | inl here ↦ rw here (All-delete k m h.1)
    | inr there ↦ rw there (h.0, All-delete k m h.1)
  ]
