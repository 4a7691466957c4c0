-- ===== src/Shared/Keyed.antt =====
-- Rows with a number as primary key, which a sequence draws.
use mathlib.Core.Logic.{inr, inl, ◌≢◌}
use mathlib.Core.Path.{subst, sym, ◌≡◌, refl, ◌∙◌}
use wacht.Shared.{Bool-cases, some, sym}
use wacht.Shared.Rows.{find, any}
use mathlib.Core.Bool.{◌||◌, Bool, true, false, ◌&&◌}
use wacht.Shared.Tests.{nat_eq}
use wacht.Shared.Lists.{All}
use Prim.Native.Nat.{ℕ, ◌<◌, ◌≤◌}
use mathlib.Core.List.{List, [], ◌∷◌, ◌++◌, map}
use native.Mathlib.Omega.{arith}

module _ {A : Type 0} where
  pub All-implies : (P Q : A → Type 0) (xs : List A) → ((x : A) → P x → Q x) → All P xs → All Q xs
  All-implies P Q [] f h = tt
  All-implies P Q (x ∷ xs) f h = (f x h.0, All-implies P Q xs f h.1)

  -- With a second property of each element.
  pub All-implies_both :
      (P Q R : A → Type 0) (xs : List A)
      → ((x : A) → P x → Q x → R x)
      → All P xs
      → All Q xs
      → All R xs
  All-implies_both P Q R [] f h k = tt
  All-implies_both P Q R (x ∷ xs) f h k = (f x h.0 k.0, All-implies_both P Q R xs f h.1 k.1)

  pub All-append : (P : A → Type 0) (xs : List A) (x : A) → All P xs → P x → All P (xs ++ (x ∷ []))
  All-append P [] x h p = (p, tt)
  All-append P (y ∷ ys) x h p = (h.0, All-append P ys x h.1 p)

  pub All-map :
      (P Q : A → Type 0) (f : A → A) (xs : List A)
      → ((x : A) → P x → Q (f x))
      → All P xs
      → All Q (map f xs)
  All-map P Q f [] g h = tt
  All-map P Q f (x ∷ xs) g h = (g x h.0, All-map P Q f xs g h.1)

  pub any-append : (p : A → Bool) (xs : List A) (x : A) → any p (xs ++ (x ∷ [])) ≡ (any p xs || p x)
  any-append p [] x = ground arith
  any-append p (y ∷ ys) x = ground (arith, any-append p ys x)

  abbrev pub Unique : (A → ℕ) → List A → Type 0
  Unique key [] = Unit
  Unique key (x ∷ xs) = All (λ (y : A). key y ≢ key x) xs × Unique key xs

  abbrev pub Below : (A → ℕ) → ℕ → List A → Type 0
  Below key n xs = All (λ (x : A). key x < n) xs

  pub Below-later : (key : A → ℕ) (n m : ℕ) (xs : List A) → n ≤ m → Below key n xs → Below key m xs
  Below-later key n m xs le h =
      All-implies (λ (x : A). key x < n) (λ (x : A). key x < m) xs (λ x lt. omega arith) h

  pub Unique-append :
      (key : A → ℕ) (xs : List A) (x : A)
      → Below key (key x) xs
      → Unique key xs
      → Unique key (xs ++ (x ∷ []))
  Unique-append key [] x b u = (tt, tt)
  Unique-append key (y ∷ ys) x b u = (
    All-append (λ (z : A). key z ≢ key y) ys x u.0 (λ e. omega (arith, b.0)),
    Unique-append key ys x b.1 u.1,
  )

  -- An update that leaves the keys alone.
  pub Unique-map :
      (key : A → ℕ) (f : A → A) (xs : List A)
      → ((x : A) → key (f x) ≡ key x)
      → Unique key xs
      → Unique key (map f xs)
  Unique-map key f [] same u = tt
  Unique-map key f (x ∷ xs) same u = (
    All-map (λ (y : A). key y ≢ key x) (λ (y : A). key y ≢ key (f x)) f xs
        (λ y ne e. ne (sym (same y) ∙ e ∙ same x)) u.0,
    Unique-map key f xs same u.1,
  )

  pub Below-map :
      (key : A → ℕ) (f : A → A) (n : ℕ) (xs : List A)
      → ((x : A) → key (f x) ≡ key x)
      → Below key n xs
      → Below key n (map f xs)
  Below-map key f n xs same h =
      All-map (λ (x : A). key x < n) (λ (x : A). key x < n) f xs (λ x lt. omega (arith, same x)) h

  -- Some row has the key and passes the test.
  abbrev pub has : (A → ℕ) → (A → Bool) → ℕ → List A → Bool
  has key p k xs = any (λ (y : A). nat_eq (key y) k && p y) xs

  pub has_absent :
      (key : A → ℕ) (p : A → Bool) (k : ℕ) (xs : List A)
      → All (λ (y : A). key y ≢ k) xs
      → has key p k xs ≡ false
  has_absent key p k [] h = refl
  has_absent key p k (x ∷ xs) h = ground (arith, has_absent key p k xs h.1, h.0)

  -- The row with the key of a row is that row.
  pub has-Unique :
      (key : A → ℕ) (p : A → Bool) (xs : List A)
      → Unique key xs
      → All (λ (x : A). has key p (key x) xs ≡ true → p x ≡ true) xs
  has-Unique key p [] u = tt
  has-Unique key p (x ∷ xs) u = (
    λ h. ground (arith, has_absent key p (key x) xs u.0),
    All-implies_both (λ (y : A). has key p (key y) xs ≡ true → p y ≡ true)
        (λ (y : A). key y ≢ key x) (λ (y : A). has key p (key y) (x ∷ xs) ≡ true → p y ≡ true) xs
        (λ y q ne h. ground (arith, q, ne)) (has-Unique key p xs u.1) u.0,
  )

  -- A row that a test finds has what all rows have.
  pub All-find :
      (P : A → Type 0) (p : A → Bool) (xs : List A) (x : A) → All P xs → find p xs ≡ some x → P x
  All-find P p [] x a f = absurd cc
  All-find P p (y ∷ ys) x a f = elim (Bool-cases (p y)) [
    | inl here ↦ subst P (ground arith) a.0
    | inr there ↦ All-find P p ys x a.1 (ground arith)
  ]
