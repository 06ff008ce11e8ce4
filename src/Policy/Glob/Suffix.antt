-- ===== src/Policy/Glob/Suffix.antt =====
-- Matching behind a `*`: some suffix of the text.
use abixio.Base.{
  ℕ, zero, suc, ◌≤◌, ◌<◌, ◌≡◌, ◌≢◌, inl, inr, refl, arith, Bool, true, [], ◌∷◌, Bytes, length, drop,
  Bool-cases, drop-nil,
}
use abixio.Policy.Glob.{only_stars, some_suffix, matches}

pub some_suffix_intro :
    (f : Bytes → Bool) (n : ℕ) (t : Bytes)
    → n ≤ length t
    → f (drop n t) ≡ true
    → some_suffix f t ≡ true
unfolding some_suffix
some_suffix_intro f zero [] b h = h
some_suffix_intro f zero (c ∷ t) b h = ground arith
some_suffix_intro f (suc n) [] b h = absurd (omega arith)
some_suffix_intro f (suc n) (c ∷ t) b h = ground (arith, some_suffix_intro f n t (omega arith) h)

pub some_suffix_elim :
    (f : Bytes → Bool) (t : Bytes)
    → some_suffix f t ≡ true
    → (n : ℕ) × (n ≤ length t) × (f (drop n t) ≡ true)
unfolding some_suffix
some_suffix_elim f [] h = (0, omega arith, h)
some_suffix_elim f (c ∷ t) h = elim (Bool-cases (f (c ∷ t))) [
  | inl here ↦ (0, omega arith, here)
  | inr there ↦ let (n, b, m) = some_suffix_elim f t (ground arith) in (suc n, omega arith, m)
]

pub only_stars_lem : (p : Bytes) → only_stars p ≡ matches p []
unfolding only_stars matches some_suffix
only_stars_lem [] = refl
only_stars_lem (q ∷ p) = ground (arith, only_stars_lem p)

-- A pattern that does not begin with `*` takes the first byte.
pub matches_byte :
    (q : ℕ) (p s : Bytes)
    → q ≢ b'*'
    → matches (q ∷ p) s ≡ true
    → (c : ℕ) × (u : Bytes) × (s ≡ c ∷ u) × (matches p u ≡ true)
unfolding matches
matches_byte q p [] ne h = absurd (ground arith)
matches_byte q p (c ∷ u) ne h = (c, u, refl, ground arith)

pub drop-suc :
    (n : ℕ) (t : Bytes) (c : ℕ) (u : Bytes)
    → drop n t ≡ c ∷ u
    → (drop (suc n) t ≡ u) × (n < length t)
drop-suc n [] c u h = absurd (ground (arith, drop-nil {A = ℕ} n))
drop-suc zero (x ∷ t) c u h = (ground arith, omega arith)
drop-suc (suc n) (x ∷ t) c u h = let (e, b) = drop-suc n t c u h in (e, omega arith)
