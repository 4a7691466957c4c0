-- ===== src/Shared/Action.antt =====
-- Fallible results, and methods that change their receiver and may fail. What was written before
-- an error stays written, so the state comes back beside the error too.
use mathlib.Core.Path.{◌≡◌, refl}
use mathlib.Core.Logic.{◌⊎◌, inl, inr}

pub data Result {ℓ} (E A : Type ℓ) : Type ℓ where
  ok : A → Result E A
  err : E → Result E A

pub Result-cases {ℓ} :
    {E A : Type ℓ} (r : Result E A) → ((a : A) × (r ≡ ok a)) ⊎ ((e : E) × (r ≡ err e))
Result-cases (ok a) = inl (a, refl)
Result-cases (err e) = inr (e, refl)

abbrev pub Action {ℓ} : Type ℓ → Type ℓ → Type ℓ → Type ℓ
Action S E A = S → S × Result E A

abbrev pub continue {ℓ} : {S E A B : Type ℓ} → S → Result E A → (A → Action S E B) → S × Result E B
continue s (ok a) f = f a s
continue s (err e) f = (s, err e)

infixl 5 ◌>>=◌ ◌>>◌
abbrev pub ◌>>=◌ {ℓ} : {S E A B : Type ℓ} → Action S E A → (A → Action S E B) → Action S E B
◌>>=◌ m f s = let r = m s in continue r.0 r.1 f

abbrev pub ◌>>◌ {ℓ} : {S E A B : Type ℓ} → Action S E A → Action S E B → Action S E B
m >> n = m >>= λ _. n

abbrev pub pure {ℓ} : {S E A : Type ℓ} → A → Action S E A
pure a s = (s, ok a)

abbrev pub raise {ℓ} : {S E A : Type ℓ} → E → Action S E A
raise e s = (s, err e)

abbrev pub gets {ℓ} : {S E A : Type ℓ} → (S → A) → Action S E A
gets f s = (s, ok (f s))

abbrev pub modify {ℓ} : {S E : Type ℓ} → (S → S) → Action S E (Unit {ℓ})
modify f s = (f s, ok tt)
