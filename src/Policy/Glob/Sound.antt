-- ===== src/Policy/Glob/Sound.antt =====
-- The matcher accepts nothing that the pattern does not match, on any text.
use abixio.Base.{
  ℕ, zero, suc, ◌≡◌, arith, Bool, true, false, ◌||◌, Option, none, some, [], ◌∷◌, Bytes, ◌==◌, drop,
  Bool-cases, inl, inr,
}
use abixio.Policy.Glob.{next_try, walk, fuel_for, glob_match, some_suffix, matches}
use abixio.Policy.Glob.Suffix.{only_stars_lem}

some_suffix_here : (f : Bytes → Bool) (t : Bytes) → f t ≡ true → some_suffix f t ≡ true
unfolding some_suffix
some_suffix_here f [] h = h
some_suffix_here f (c ∷ t) h = ground arith

some_suffix_later :
    (f : Bytes → Bool) (t : Bytes) → some_suffix f (drop 1 t) ≡ true → some_suffix f t ≡ true
unfolding some_suffix
some_suffix_later f [] h = h
some_suffix_later f (c ∷ t) h = ground arith

-- A match behind the last `*`, further on in its text.
abbrev behind : Option (Bytes × Bytes) → Bool
behind none = false
behind (some (star_p, star_t)) = some_suffix (matches star_p) (drop 1 star_t)

back_sound :
    (n : ℕ) (star : Option (Bytes × Bytes))
    → ((p t : Bytes) (s : Option (Bytes × Bytes))
        → walk n p t s ≡ true
        → (matches p t || behind s) ≡ true)
    → elim (next_try star) as (λ x. Bool) [
      | none ↦ false
      | some (star_p, star_t) ↦ walk n star_p star_t (some (star_p, star_t))
    ]
      ≡ true
    → behind star ≡ true
back_sound n none ih h = h
back_sound n (some (sp, st)) ih h = elim (Bool-cases (matches sp (drop 1 st))) [
  | inl here ↦ some_suffix_here (matches sp) (drop 1 st) here
  | inr not_here ↦
      some_suffix_later (matches sp) (drop 1 st)
        (ground (arith, ih sp (drop 1 st) (some (sp, drop 1 st)) h, not_here))
]

-- What the loop accepts is a match of what is left, or one behind the last `*`.
walk_sound :
    (n : ℕ) (p t : Bytes) (star : Option (Bytes × Bytes))
    → walk n p t star ≡ true
    → (matches p t || behind star) ≡ true
unfolding walk matches some_suffix
walk_sound zero p t star h = cc
walk_sound (suc n) p [] star h = ground (arith, only_stars_lem p)
walk_sound (suc n) [] (c ∷ t) star h = ground (arith, back_sound n star (walk_sound n) h)
walk_sound (suc n) (q ∷ p) (c ∷ t) star h = elim (Bool-cases (q == b'?' || q == c)) [
  | inl byte ↦
      let rest = walk_sound n p t star (ground arith) in
      ground (arith, rest, some_suffix_here (matches p) t)
  | inr no_byte ↦ elim (Bool-cases (q == b'*')) [
    | inl starred ↦
        let rest = walk_sound n p (c ∷ t) (some (p, c ∷ t)) (ground arith) in ground (arith, rest)
    | inr mismatch ↦ ground (arith, back_sound n star (walk_sound n) (ground arith))
  ]
]

-- What the matcher accepts, the recursive definition of matching accepts, on every text.
pub glob_match_sound : (pattern s : Bytes) → glob_match pattern s ≡ true → matches pattern s ≡ true
unfolding glob_match
glob_match_sound pattern s h = ground (arith, walk_sound (fuel_for pattern s) pattern s none h)
