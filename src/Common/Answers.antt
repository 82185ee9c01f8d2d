-- ===== src/Common/Answers.antt =====
-- What a call of other code answers.

use Prim.Native.String.{String}
use mathlib.Core.Path.{◌≡◌, refl}
use mathlib.Core.Logic.{◌⊎◌, inl, inr}

-- A result, or the text of an exception.
pub data Answer {ℓ} (A : Type ℓ) : Type ℓ where
  answer : A → Answer A
  raised : String → Answer A

pub Answer-cases {ℓ} :
    {A : Type ℓ} (a : Answer A) → ((x : A) × (a ≡ answer x)) ⊎ ((e : String) × (a ≡ raised e))
Answer-cases (answer x) = inl (x, refl)
Answer-cases (raised e) = inr (e, refl)
