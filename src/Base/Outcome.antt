-- ===== src/Base/Outcome.antt =====
-- Rust's `Result`, and chains of fallible steps.
use mathlib.Core.Path.{◌≡◌, refl}
use mathlib.Core.Logic.{◌⊎◌, inl, inr}
use mathlib.Core.Bool.{Bool, true, false}

pub data Result {ℓ} (E A : Type ℓ) : Type ℓ where
  ok : A → Result E A
  err : E → Result E A

-- `?`: an error ends the function.
infixl 5 ◌>>=◌ ◌>>◌
abbrev pub ◌>>=◌ {ℓ} : {E A B : Type ℓ} → Result E A → (A → Result E B) → Result E B
ok a >>= f = f a
err e >>= f = err e

abbrev pub ◌>>◌ {ℓ} : {E B : Type ℓ} → Result E Unit → Result E B → Result E B
m >> k = m >>= λ _. k

-- `if bad { return Err(e); }`
abbrev pub refuse_if {ℓ} : {E : Type ℓ} → Bool → E → Result E Unit
refuse_if true e = err e
refuse_if false e = ok tt

abbrev pub is_ok {ℓ} : {E A : Type ℓ} → Result E A → Bool
is_ok (ok a) = true
is_ok (err e) = false

pub >>=-eq_ok {ℓ} :
    {E A B : Type ℓ} (m : Result E A) (f : A → Result E B) {b : B}
    → (m >>= f) ≡ ok b
    → (a : A) × (m ≡ ok a) × (f a ≡ ok b)
>>=-eq_ok (ok a) f h = (a, refl, h)
>>=-eq_ok (err e) f h = cc

pub Result-cases {ℓ} :
    {E A : Type ℓ} (r : Result E A) → ((a : A) × (r ≡ ok a)) ⊎ ((e : E) × (r ≡ err e))
Result-cases (ok a) = inl (a, refl)
Result-cases (err e) = inr (e, refl)

-- A chain that ends well ends with its last step.
pub >>-eq_ok {ℓ} :
    {E B : Type ℓ} (m : Result E Unit) (k : Result E B) {b : B} → (m >> k) ≡ ok b → k ≡ ok b
>>-eq_ok (ok _) k h = h
>>-eq_ok (err e) k h = cc
