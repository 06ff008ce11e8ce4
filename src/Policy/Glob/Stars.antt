-- ===== src/Policy/Glob/Stars.antt =====
-- A text with `*` in it.
use abixio.Base.{
  ℕ, suc, ◌+◌, ◌-◌, ◌≡◌, refl, ap, arith, true, false, none, [], ◌∷◌, Bytes, length, is_empty,
  drop_all, length-append, ◌++◌, sym, subst, ◌∙◌,
}
use abixio.Policy.Glob.{walk, fuel_for, glob_match, matches}
use abixio.Policy.Glob.Suffix.{some_suffix_intro}

walk_star : (n c : ℕ) (s : Bytes) → walk (suc (suc n)) (b'*' ∷ []) (b'*' ∷ c ∷ s) none ≡ false
unfolding walk
walk_star n c s = refl

star_matches : (s : Bytes) → matches (b'*' ∷ []) s ≡ true
unfolding matches
star_matches s =
    some_suffix_intro is_empty (length s) s (omega arith) (rw (drop_all (length s) s refl) refl)

walk-append : (u p t : Bytes) (n : ℕ) → walk (length u + n) (u ++ p) (u ++ t) none ≡ walk n p t none
unfolding walk
walk-append [] p t n = ap (λ (k : ℕ). walk k p t none) (omega arith)
walk-append (c ∷ u) p t n =
    let same : length (c ∷ u) + n ≡ suc (length u + n) = omega arith in
    subst (λ (k : ℕ). walk k (c ∷ u ++ p) (c ∷ u ++ t) none ≡ walk n p t none) (sym same)
      (ground (arith, walk-append u p t n))

matches-append : (u p t : Bytes) → matches p t ≡ true → matches (u ++ p) (u ++ t) ≡ true
unfolding matches
matches-append [] p t h = h
matches-append (c ∷ u) p t h =
    let rest = matches-append u p t h in
    ground (arith, rest, some_suffix_intro (matches (u ++ p)) 1 (c ∷ u ++ t) (omega arith) rest)

-- A pattern `u*` refuses the text `u*c...`, which it matches by the recursive definition, for every `u`:
-- the `*` of the text is taken for an equal byte, and the wildcard is lost.
pub glob_match_star :
    (u : Bytes) (c : ℕ) (s : Bytes)
    → (glob_match (u ++ b'*' ∷ []) (u ++ b'*' ∷ c ∷ s) ≡ false)
      × (matches (u ++ b'*' ∷ []) (u ++ b'*' ∷ c ∷ s) ≡ true)
unfolding glob_match
glob_match_star u c s =
    let p = u ++ b'*' ∷ [] in
    let t = u ++ b'*' ∷ c ∷ s in
    let fuel = fuel_for p t in
    let long : length p ≡ length u + 1 = length-append u (b'*' ∷ []) in
    let more : length u + suc (suc (fuel - (length u + 2))) ≡ fuel = omega (arith, long) in
    (
      subst (λ (n : ℕ). walk n p t none ≡ false) more
          (walk-append u (b'*' ∷ []) (b'*' ∷ c ∷ s) (suc (suc (fuel - (length u + 2))))
            ∙ walk_star (fuel - (length u + 2)) c s),
      matches-append u (b'*' ∷ []) (b'*' ∷ c ∷ s) (star_matches (b'*' ∷ c ∷ s)),
    )
