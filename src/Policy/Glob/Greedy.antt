-- ===== src/Policy/Glob/Greedy.antt =====
-- The matcher tries the last `*` only, and gives up where the text ends. Neither loses a match.
use abixio.Base.{
  ℕ, zero, suc, ◌+◌, ◌-◌, ◌*◌, ◌≤◌, ◌<◌, ◌≡◌, ◌≢◌, inl, inr, refl, arith, Bool, true, false, ◌||◌,
  Option, none, some, [], ◌∷◌, Bytes, ◌==◌, length, drop, any, Bool-cases, length-drop, drop-drop,
  sym, subst, ◌∙◌,
}
use abixio.Policy.Glob.{next_try, walk, fuel_for, glob_match, some_suffix, matches}
use abixio.Policy.Glob.Suffix.{
  some_suffix_intro, some_suffix_elim, only_stars_lem, matches_byte, drop-suc,
}

-- Every match of the pattern behind the last `*` further on in the text leads to a match of what is
-- left of the pattern further on in what is left of the text.
abbrev Ahead : Option (Bytes × Bytes) → Bytes → Bytes → Type 0
Ahead none p t = Unit
Ahead (some (star_p, star_t)) p t =
    (n : ℕ)
    → n < length star_t
    → matches star_p (drop (suc n) star_t) ≡ true
    → (m : ℕ) × (m < length t) × (matches p (drop (suc m) t) ≡ true)

Ahead-step :
    (star : Option (Bytes × Bytes)) (q c : ℕ) (p t : Bytes)
    → q ≢ b'*'
    → Ahead star (q ∷ p) (c ∷ t)
    → Ahead star p t
Ahead-step none q c p t ne a = tt
Ahead-step (some (sp, st)) q c p t ne a = λ n b h.
    let (m, in_t, found) = a n b h in
    let (d, u, e, rest) = matches_byte q p (drop m t) ne found in
    let (tail, inside) = drop-suc m t d u e in (m, inside, rw tail rest)

-- The tries that are left behind the last `*`.
abbrev retry : Option (Bytes × Bytes) → Bool
retry none = false
retry (some (star_p, [])) = false
retry (some (star_p, c ∷ star_t)) = some_suffix (matches star_p) star_t

retry_elim :
    (star : Option (Bytes × Bytes)) (p t : Bytes)
    → Ahead star p t
    → retry star ≡ true
    → (m : ℕ) × (m < length t) × (matches p (drop (suc m) t) ≡ true)
retry_elim none p t a h = cc
retry_elim (some (sp, [])) p t a h = cc
retry_elim (some (sp, c ∷ st)) p t a h =
    let (n, b, found) = some_suffix_elim (matches sp) st h in a n (omega arith) found

-- Behind a `*`, the tries of an earlier `*` find nothing more.
retry_star :
    (star : Option (Bytes × Bytes)) (p t : Bytes)
    → Ahead star (b'*' ∷ p) t
    → retry star ≡ true
    → some_suffix (matches p) t ≡ true
unfolding matches
retry_star star p t a h =
    let (m, b, found) = retry_elim star (b'*' ∷ p) t a h in
    let (k, inside, there) = some_suffix_elim (matches p) (drop (suc m) t) found in
    some_suffix_intro (matches p) (suc m + k) t (omega (arith, length-drop {A = ℕ} (suc m) t))
      (rw (sym (drop-drop k (suc m) t)) there)

retry_next :
    (sp : Bytes) (d : ℕ) (st : Bytes)
    → (matches sp st || retry (some (sp, st))) ≡ retry (some (sp, d ∷ st))
unfolding some_suffix
retry_next sp d [] = ground arith
retry_next sp d (e ∷ st) = refl

abbrev has_star : Bytes → Bool
has_star = any (λ c. c == b'*')

-- What holds of the last `*`: its text has no `*` and is at least what is left, its pattern is short.
abbrev IsBehind : ℕ → Option (Bytes × Bytes) → Bytes → Type 0
IsBehind bound none t = Unit
IsBehind bound (some (star_p, star_t)) t =
    (has_star star_t ≡ false) × (length star_p ≤ bound) × (length t ≤ length star_t)

-- The text that the loop can still walk.
abbrev ahead_of : Option (Bytes × Bytes) → Bytes → ℕ
ahead_of none t = length t
ahead_of (some (star_p, star_t)) t = length star_t

turn_at : (w' k b : ℕ) → w' * suc b + suc b ≤ (suc w' + k) * suc b
turn_at w' k b = omega arith

turn : (w' w b : ℕ) → suc w' ≤ w → w' * suc b + suc b ≤ w * suc b
turn w' w b h =
    let split : suc w' + (w - suc w') ≡ w = omega arith in
    rw (sym split) (turn_at w' (w - suc w') b)

absorb : (a b : Bool) → (b ≡ true → a ≡ true) → a ≡ (a || b)
absorb true b h = refl
absorb false true h = h refl
absorb false false h = refl

wider_at : (w' k b : ℕ) → w' * suc b ≤ (w' + k) * suc b
wider_at w' k b = omega arith

wider : (w' w b : ℕ) → w' ≤ w → w' * suc b ≤ w * suc b
wider w' w b h =
    let split : w' + (w - w') ≡ w = omega arith in
    subst (λ (v : ℕ). w' * suc b ≤ v * suc b) split (wider_at w' (w - w') b)

ahead_of_step :
    (star : Option (Bytes × Bytes)) (c : ℕ) (t : Bytes) (b : ℕ)
    → ahead_of star t * suc b ≤ ahead_of star (c ∷ t) * suc b
ahead_of_step none c t b = wider (length t) (length (c ∷ t)) b (omega arith)
ahead_of_step (some (sp, st)) c t b = omega arith

ahead_of_star :
    (star : Option (Bytes × Bytes)) (t : Bytes) (b : ℕ)
    → IsBehind b star t
    → length t * suc b ≤ ahead_of star t * suc b
ahead_of_star none t b h = omega arith
ahead_of_star (some (sp, st)) t b h = wider (length t) (length st) b h.2

IsBehind-step :
    (star : Option (Bytes × Bytes)) (c : ℕ) (t : Bytes) (b : ℕ)
    → IsBehind b star (c ∷ t)
    → IsBehind b star t
IsBehind-step none c t b h = tt
IsBehind-step (some (sp, st)) c t b h = (h.0, h.1, omega (arith, h.2))

module _ (bound : ℕ) where
  -- The loop finds a match of what is left, or one behind the last `*`.
  abbrev Walks : ℕ → Type 0
  Walks n =
      (p t : Bytes) (star : Option (Bytes × Bytes))
      → ahead_of star t * suc bound + length p < n
      → length p ≤ bound
      → has_star t ≡ false
      → IsBehind bound star t
      → Ahead star p t
      → walk n p t star ≡ (matches p t || retry star)

  -- Behind a mismatch, the loop goes on from the last `*`.
  back_lem :
      (n : ℕ) (t : Bytes) (c : ℕ) (star : Option (Bytes × Bytes))
      → Walks n
      → ahead_of star (c ∷ t) * suc bound ≤ n
      → IsBehind bound star (c ∷ t)
      → elim (next_try star) as (λ x. Bool) [
        | none ↦ false
        | some (star_p, star_t) ↦ walk n star_p star_t (some (star_p, star_t))
      ]
        ≡ retry star
  back_lem n t c none ih enough behind = refl
  back_lem n t c (some (sp, [])) ih enough behind = absurd (omega (arith, behind))
  back_lem n t c (some (sp, d ∷ st)) ih enough behind =
      ih sp st (some (sp, st))
        (omega (arith, behind, turn (length st) (length (d ∷ st)) bound (omega arith)))
        (omega (arith, behind)) (ground (arith, behind))
        (ground (arith, behind), omega (arith, behind), omega arith) (λ k b h. (k, b, h))
      ∙ retry_next sp d st

  walk_lem : (n : ℕ) → Walks n
  unfolding walk matches some_suffix
  walk_lem zero p t star enough short plain behind ahead = absurd (omega arith)
  walk_lem (suc n) p [] star enough short plain behind ahead =
      let no_more : retry star ≡ false = elim (Bool-cases (retry star)) [
        | inl more ↦ absurd (omega (arith, retry_elim star p [] ahead more))
        | inr none_left ↦ none_left
      ] in
      ground (arith, only_stars_lem p, no_more)
  walk_lem (suc n) [] (c ∷ t) star enough short plain behind ahead =
      back_lem n t c star (walk_lem n) (omega arith) behind
  walk_lem (suc n) (q ∷ p) (c ∷ t) star enough short plain behind ahead =
      elim (Bool-cases (q == b'?' || q == c)) [
        | inl byte ↦
            let ne : q ≢ b'*' = ground arith in
            rw byte (
              walk_lem n p t star (omega (arith, ahead_of_step star c t bound)) (omega arith)
                (ground arith) (IsBehind-step star c t bound behind)
                (Ahead-step star q c p t ne ahead)
              ∙ ground arith)
        | inr no_byte ↦ elim (Bool-cases (q == b'*')) [
          | inl starred ↦
              let star_q : q ≡ b'*' = ground arith in
              let next =
                walk_lem n p (c ∷ t) (some (p, c ∷ t))
                  (omega (arith, ahead_of_star star (c ∷ t) bound behind)) (omega arith) plain
                  (plain, omega arith, omega arith) (λ k b h. (k, b, h)) in
              rw (no_byte, starred)
                (next
                  ∙ absorb _ (retry star) (
                      retry_star star p (c ∷ t)
                        (subst (λ (k : ℕ). Ahead star (k ∷ p) (c ∷ t)) star_q ahead)))
          | inr mismatch ↦
              let back = back_lem n t c star (walk_lem n) (omega arith) behind in
              rw (no_byte, mismatch) back
        ]
      ]

-- On a text without the byte `*`, the matcher answers what the recursive definition of matching over bytes says: `*`
-- stands for any number of bytes and `?` for one byte, which is one character where the text is ASCII.
pub glob_match_lem :
    (pattern s : Bytes) → any (λ c. c == b'*') s ≡ false → glob_match pattern s ≡ matches pattern s
unfolding glob_match
glob_match_lem pattern s plain =
    walk_lem (length pattern) (fuel_for pattern s) pattern s none (omega arith) (omega arith) plain
      tt tt
    ∙ ground arith
