-- ===== src/Shared/Within.antt =====
-- Lists with elements left out.
use Prim.Native.Nat.{ℕ}
use mathlib.Core.Path.{◌≡◌, refl, sym, ap, ◌∙◌, subst}
use mathlib.Core.List.{List, [], ◌∷◌, ◌++◌}
use wacht.Shared.Lists.{length, take, drop, take-append-drop}

-- The first list is the second with elements left out.
pub data Within {A : Type 0} : List A → List A → Type 0 where
  done : Within [] []
  skip : {xs ys : List A} (y : A) → Within xs ys → Within xs (y ∷ ys)
  keep : {xs ys : List A} (x : A) → Within xs ys → Within (x ∷ xs) (x ∷ ys)

module _ {A : Type 0} where
  pub nothing-Within : (ys : List A) → Within [] ys
  nothing-Within [] = done
  nothing-Within (y ∷ ys) = skip y (nothing-Within ys)

  pub append-Within : {xs ys : List A} (zs : List A) → Within xs ys → Within (xs ++ zs) (ys ++ zs)
  append-Within [] done = done
  append-Within (z ∷ zs) done = keep z (append-Within zs done)
  append-Within zs (skip y w) = skip y (append-Within zs w)
  append-Within zs (keep x w) = keep x (append-Within zs w)

  -- More may follow in the longer list.
  pub later-Within : {xs ys : List A} (zs : List A) → Within xs ys → Within xs (ys ++ zs)
  later-Within zs done = nothing-Within zs
  later-Within zs (skip y w) = skip y (later-Within zs w)
  later-Within zs (keep x w) = keep x (later-Within zs w)

  -- A beginning of the shorter list.
  pub prefix-Within :
      (xs zs : List A) {ws ys : List A} → Within ws ys → ws ≡ xs ++ zs → Within xs ys
  prefix-Within [] zs {ws} {ys} w e = nothing-Within ys
  prefix-Within (x ∷ xs) zs done e = absurd cc
  prefix-Within (x ∷ xs) zs (skip y w) e = skip y (prefix-Within (x ∷ xs) zs w e)
  prefix-Within (x ∷ xs) zs {ws} {ys} (keep v w) e =
      let same : v ≡ x = cc in
      subst (λ (u : A). Within (u ∷ xs) ys) same (keep v (prefix-Within xs zs w cc))

  pub append_assoc : (xs ys zs : List A) → (xs ++ ys) ++ zs ≡ xs ++ (ys ++ zs)
  append_assoc [] ys zs = refl
  append_assoc (x ∷ xs) ys zs = ap (λ (t : List A). x ∷ t) (append_assoc xs ys zs)

  pub append_nil : (xs : List A) → xs ++ [] ≡ xs
  append_nil [] = refl
  append_nil (x ∷ xs) = ap (λ (t : List A). x ∷ t) (append_nil xs)

  pub drop-append : (xs ys : List A) → drop (length xs) (xs ++ ys) ≡ ys
  drop-append [] ys = refl
  drop-append (x ∷ xs) ys = drop-append xs ys

  -- A list that is cut once more.
  pub cut_again : (past q : List A) (n : ℕ) → past ++ q ≡ (past ++ take n q) ++ drop n q
  cut_again past q n =
      ap (λ (t : List A). past ++ t) (sym (take-append-drop n q))
      ∙ sym (append_assoc past (take n q) (drop n q))
