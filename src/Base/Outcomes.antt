-- ===== src/Base/Outcomes.antt =====
-- What an operation that may raise gives: a value, or the exception.
use mathlib.Core.Path.{◌≡◌, refl}
use mathlib.Core.Logic.{◌⊎◌, inl, inr}
use mathlib.Core.Bool.{Bool, true, false}

pub data Outcome (E A : Type 0) : Type 0 where
  returned : A → Outcome E A
  raised : E → Outcome E A

abbrev pub is_returned : {E A : Type 0} → Outcome E A → Bool
is_returned (returned a) = true
is_returned (raised e) = false

pub Outcome-cases :
    {E A : Type 0} (o : Outcome E A) → ((a : A) × (o ≡ returned a)) ⊎ ((e : E) × (o ≡ raised e))
Outcome-cases (returned a) = inl (a, refl)
Outcome-cases (raised e) = inr (e, refl)
