-- ===== src/Base/Outcomes.antt =====
-- What a call of Go that returns a value and an error gives.
use mathlib.Core.Path.{◌≡◌, refl}
use mathlib.Core.Logic.{◌⊎◌, inl, inr}

pub data Outcome {ℓ κ} (E : Type ℓ) (A : Type κ) : Type (ℓ ⊔ κ) where
  fails : E → Outcome E A
  gives : A → Outcome E A

pub Outcome-cases {ℓ κ} :
    {E : Type ℓ} {A : Type κ} (o : Outcome E A)
    → ((e : E) × (o ≡ fails e)) ⊎ ((a : A) × (o ≡ gives a))
Outcome-cases (fails e) = inl (e, refl)
Outcome-cases (gives a) = inr (a, refl)
