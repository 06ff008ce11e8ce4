-- ===== src/Base/Run.antt =====
-- Code that returns a value, returns an error, or panics.
use mathlib.Core.Path.{◌≡◌, refl}
use mathlib.Core.Logic.{◌⊎◌, inl, inr}

pub data Run {ℓ} (E A : Type ℓ) : Type ℓ where
  done : A → Run E A
  failed : E → Run E A
  panicked : Run E A

infixl 5 ◌>>=◌
abbrev pub ◌>>=◌ {ℓ} : {E A B : Type ℓ} → Run E A → (A → Run E B) → Run E B
done a >>= f = f a
failed e >>= f = failed e
panicked >>= f = panicked

pub Run-cases {ℓ} :
    {E A : Type ℓ} (r : Run E A)
    → ((a : A) × (r ≡ done a)) ⊎ ((e : E) × (r ≡ failed e)) ⊎ (r ≡ panicked)
Run-cases (done a) = inl (a, refl)
Run-cases (failed e) = inr (inl (e, refl))
Run-cases panicked = inr (inr refl)
