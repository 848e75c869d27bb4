-- ===== src/Common/Fallible.antt =====
-- A call that returns a value or raises an error.
use mathlib.Core.Path.{◌≡◌, refl}
use mathlib.Core.Logic.{◌⊎◌, inl, inr}
use mathlib.Core.Bool.{Bool, true, false}

pub data Fallible {ℓ} (E A : Type ℓ) : Type ℓ where
  returns : A → Fallible E A
  raises : E → Fallible E A

infixl 5 ◌>>=◌ ◌>>◌
abbrev pub ◌>>=◌ {ℓ} : {E A B : Type ℓ} → Fallible E A → (A → Fallible E B) → Fallible E B
returns a >>= f = f a
raises e >>= f = raises e

abbrev pub ◌>>◌ : {E B : Type 0} → Fallible E (Unit {0}) → Fallible E B → Fallible E B
m >> k = m >>= λ _. k

-- `if not test: raise e`
abbrev pub ensure : {E : Type 0} → Bool → E → Fallible E (Unit {0})
ensure true e = returns tt
ensure false e = raises e

abbrev pub has_returned {ℓ} : {E A : Type ℓ} → Fallible E A → Bool
has_returned (returns a) = true
has_returned (raises e) = false

pub Fallible-cases {ℓ} :
    {E A : Type ℓ} (r : Fallible E A) → ((a : A) × (r ≡ returns a)) ⊎ ((e : E) × (r ≡ raises e))
Fallible-cases (returns a) = inl (a, refl)
Fallible-cases (raises e) = inr (e, refl)
