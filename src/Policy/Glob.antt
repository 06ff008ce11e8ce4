-- ===== src/Policy/Glob.antt =====
-- src/policy/glob.rs: the matcher for `*` and `?`. An index into the pattern or the text is the rest
-- of it from there.
pub mod Suffix
pub mod Greedy
pub mod Stars
pub mod Sound
use abixio.Base.{
  ℕ, zero, suc, ◌+◌, ◌*◌, Bool, true, false, ◌||◌, Option, none, some, [], ◌∷◌, Bytes, ◌==◌,
  if◌then◌else◌, length, drop, is_empty,
}

-- The last loop: nothing but `*` is left of the pattern.
unfoldable pub only_stars : Bytes → Bool
only_stars [] = true
only_stars (q ∷ p) = if q == b'*' then only_stars p else false

-- Behind a mismatch: one byte further than at the last `*`.
abbrev pub next_try : Option (Bytes × Bytes) → Option (Bytes × Bytes)
next_try none = none
next_try (some (star_p, star_t)) = some (star_p, drop 1 star_t)

-- The loop of `match_inner`, on fuel. `star` is the pattern behind the last `*` and the text there.
unfoldable pub walk : ℕ → Bytes → Bytes → Option (Bytes × Bytes) → Bool
unfolding only_stars
walk zero p t star = false
walk (suc n) p [] star = only_stars p
walk (suc n) [] (c ∷ t) star = elim (next_try star) [
  | none ↦ false
  | some (star_p, star_t) ↦ walk n star_p star_t (some (star_p, star_t))
]
walk (suc n) (q ∷ p) (c ∷ t) star =
    let step = walk n p t star in
    let starred = walk n p (c ∷ t) (some (p, c ∷ t)) in
    let back : Bool = elim (next_try star) [
      | none ↦ false
      | some (star_p, star_t) ↦ walk n star_p star_t (some (star_p, star_t))
    ] in
    if q == b'?' || q == c then step else if q == b'*' then starred else back

-- Every turn of the loop comes nearer to the end of the text behind the last `*`, or of the pattern.
abbrev pub fuel_for : Bytes → Bytes → ℕ
fuel_for p t = length t * suc (length p) + length p + 1

-- `glob_match`, with fuel for every turn that the loop can take.
unfoldable pub glob_match : Bytes → Bytes → Bool
unfolding walk
glob_match pattern s = walk (fuel_for pattern s) pattern s none

-- `*` matches any bytes, `?` any byte, every other byte itself.
unfoldable pub some_suffix : (Bytes → Bool) → Bytes → Bool
some_suffix f [] = f []
some_suffix f (c ∷ t) = f (c ∷ t) || some_suffix f t

unfoldable pub matches : Bytes → Bytes → Bool
unfolding some_suffix
matches [] t = is_empty t
matches (q ∷ p) t =
    let rest = matches p in
    if q == b'*'
    then some_suffix rest t
    else elim t [ [] ↦ false | c ∷ u ↦ if q == b'?' || q == c then rest u else false ]
