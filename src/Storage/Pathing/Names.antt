-- ===== src/Storage/Pathing/Names.antt =====
-- src/storage/pathing.rs: the names that validation lets through are single, ordinary components of a path.
use abixio.Base.{
  ℕ, zero, suc, ◌≡◌, refl, sym, ap, ◌∙◌, subst, arith, Bool, true, false, not, ◌&&◌, ◌||◌, some,
  List, [], ◌∷◌, ◌++◌, Bytes, ◌==◌, length, is_empty, any, all, str_eq, str_eq_iff, Bool-cases,
  Option-cases, inl, inr, Result, ok, err, ◌>>◌, refuse_if, >>-eq_ok,
}
use abixio.Cluster.Manager.Names.{trim, trim_start, trim_from, trim_back, behind_space}
use abixio.Storage.{StorageError}
use abixio.Storage.Pathing.{
  Component, normal, split_at, split, is_lower, is_digit, bad_segment, is_forbidden, push,
  validate_bucket_name, validate_object_key, validate_key_segments,
}

abbrev pub has_slash : Bytes → Bool
has_slash part = any (λ b. b == 47) part

-- A part that is one ordinary component: not empty, `.` or `..`, and without a `/`.
abbrev pub is_name : Bytes → Bool
is_name part =
    not (is_empty part || str_eq part (46 ∷ []) || str_eq part (46 ∷ 46 ∷ []))
    && not (has_slash part)

split_at-plain : (part : Bytes) → has_slash part ≡ false → split_at 47 part ≡ (part, [])
split_at-plain [] h = refl
split_at-plain (b ∷ part) h =
    let other : (b == 47) ≡ false = ground arith in
    rw (other, split_at-plain part (ground arith)) refl

pub push-name :
    (path : List Component) (part : Bytes)
    → is_name part ≡ true
    → push path part ≡ path ++ (normal part ∷ [])
push-name path [] h = cc
push-name path (b ∷ part) h =
    let plain : has_slash (b ∷ part) ≡ false = ground arith in
    let relative : (47 == b) ≡ false = ground arith in
    let not_dot : str_eq (b ∷ part) (46 ∷ []) ≡ false = ground arith in
    let not_dots : str_eq (b ∷ part) (46 ∷ 46 ∷ []) ≡ false = ground arith in
    let one : split_at 47 (b ∷ part) ≡ (b ∷ part, []) = split_at-plain (b ∷ part) plain in
    elim (Bool-cases (is_empty path)) [
      | inl empty ↦ rw (one, relative, empty, not_dot, not_dots) refl
      | inr more ↦ rw (one, relative, more, not_dot, not_dots) refl
    ]

-- The pieces of a text have no `/`.
split-plain : (text : Bytes) → all (λ piece. not (has_slash piece)) (split 47 text) ≡ true
split-plain [] = refl
split-plain (b ∷ text) = elim (Bool-cases (b == 47)) [
  | inl slash ↦ rw slash (split-plain text)
  | inr other ↦ rw other (ground (arith, split-plain text))
]

refuse_ok : (bad : Bool) (e : StorageError) → refuse_if bad e ≡ ok tt → bad ≡ false
refuse_ok true e h = cc
refuse_ok false e h = refl

first_ok : (m k : Result StorageError Unit) → (m >> k) ≡ ok tt → m ≡ ok tt
first_ok (ok _) k h = refl
first_ok (err e) k h = cc

or_parts : (a b c d e : Bool) → (a || b || c || d || e) ≡ false → not (a || c || d) ≡ true
or_parts false false false false false h = refl
or_parts true b c d e h = cc
or_parts false true c d e h = cc
or_parts false false true d e h = cc
or_parts false false false true e h = cc
or_parts false false false false true h = cc

names_of :
    (parts : List Bytes)
    → any bad_segment parts ≡ false
    → all (λ piece. not (has_slash piece)) parts ≡ true
    → all is_name parts ≡ true
names_of [] h p = refl
names_of (part ∷ parts) h p =
    let good : bad_segment part ≡ false = or_left (bad_segment part) (any bad_segment parts) h in
    let name : not (is_empty part || str_eq part (46 ∷ []) || str_eq part (46 ∷ 46 ∷ [])) ≡ true =
      or_parts (is_empty part) (not (str_eq (trim part) part)) (str_eq part (46 ∷ []))
        (str_eq part (46 ∷ 46 ∷ [])) (any is_forbidden part) good in
    let plain : not (has_slash part) ≡ true = ground arith in
    rw
      (
        name,
        plain,
        names_of parts (or_right (bad_segment part) (any bad_segment parts) h) (ground arith),
      )
      refl
  where
    or_left : (a b : Bool) → (a || b) ≡ false → a ≡ false
    or_left false b h = refl
    or_left true b h = cc

    or_right : (a b : Bool) → (a || b) ≡ false → b ≡ false
    or_right false b h = h
    or_right true b h = cc

pub key_names : (key : Bytes) → validate_object_key key ≡ ok tt → all is_name (split 47 key) ≡ true
unfolding validate_object_key validate_key_segments
key_names key h =
    names_of (split 47 key) (refuse_ok (any bad_segment (split 47 key)) _ (>>-eq_ok _ _ h))
      (split-plain key)

-- White space has no `/`, so trimming takes none off.
behind_space-slash :
    (text rest : Bytes) → behind_space text ≡ some rest → has_slash text ≡ has_slash rest
behind_space-slash [] rest h = cc
behind_space-slash (b ∷ []) rest h = ground arith
behind_space-slash (b ∷ c ∷ []) rest h = ground arith
behind_space-slash (b ∷ c ∷ d ∷ text) rest h = ground arith

trim_from-slash : (n : ℕ) (text : Bytes) → has_slash (trim_from n text) ≡ has_slash text
trim_from-slash zero text = refl
trim_from-slash (suc n) text = elim (Option-cases (behind_space text)) [
  | inl other ↦ rw (trim_from, other) refl
  | inr (rest, space) ↦
      rw (trim_from, space) (trim_from-slash n rest ∙ sym (behind_space-slash text rest space))
]

blank_plain : (text : Bytes) → is_empty (trim_start text) ≡ true → has_slash text ≡ false
blank_plain text h = sym (trim_from-slash (length text) text) ∙ empty_plain (trim_start text) h
  where
    empty_plain : (t : Bytes) → is_empty t ≡ true → has_slash t ≡ false
    empty_plain [] h = refl
    empty_plain (b ∷ t) h = cc

trim_back-slash : (text : Bytes) → has_slash (trim_back text) ≡ has_slash text
trim_back-slash [] = refl
trim_back-slash (b ∷ text) = elim (Bool-cases (is_empty (trim_start (b ∷ text)))) [
  | inl blank ↦ rw blank (sym (blank_plain (b ∷ text) blank))
  | inr more ↦ rw more (ap (λ t. (b == 47) || t) (trim_back-slash text))
]

trim-slash : (text : Bytes) → has_slash (trim text) ≡ has_slash text
trim-slash text = trim_back-slash (trim_start text) ∙ trim_from-slash (length text) text

abbrev is_bucket_char : ℕ → Bool
is_bucket_char c = is_lower c || is_digit c || c == 46 || c == 45

allowed_plain : (text : Bytes) → all is_bucket_char text ≡ true → has_slash text ≡ false
allowed_plain [] h = refl
allowed_plain (c ∷ text) h = ground (arith, allowed_plain text)

bucket_plain : (bucket : Bytes) → validate_bucket_name bucket ≡ ok tt → has_slash bucket ≡ false
unfolding validate_bucket_name
bucket_plain bucket h =
    let characters : not (all is_bucket_char (trim bucket)) ≡ false =
      refuse_ok _ _ (>>-eq_ok _ _ (first_ok _ _ h)) in
    sym (trim-slash bucket) ∙ allowed_plain (trim bucket) (is_true _ characters)
  where
    is_true : (b : Bool) → not b ≡ false → b ≡ true
    is_true true h = refl
    is_true false h = cc

pub bucket_name : (bucket : Bytes) → validate_bucket_name bucket ≡ ok tt → is_name bucket ≡ true
unfolding validate_bucket_name
bucket_name [] h = cc
bucket_name (b ∷ bucket) h = elim (Bool-cases (str_eq (b ∷ bucket) (46 ∷ []))) [
  | inl dot ↦
      let same : b ∷ bucket ≡ 46 ∷ [] = (str_eq_iff (b ∷ bucket) (46 ∷ [])).0 dot in
      let refused : validate_bucket_name (46 ∷ []) ≡ ok tt =
        subst (λ t. validate_bucket_name t ≡ ok tt) same h in
      cc
  | inr not_dot ↦ elim (Bool-cases (str_eq (b ∷ bucket) (46 ∷ 46 ∷ []))) [
    | inl dots ↦
        let same : b ∷ bucket ≡ 46 ∷ 46 ∷ [] = (str_eq_iff (b ∷ bucket) (46 ∷ 46 ∷ [])).0 dots in
        let refused : validate_bucket_name (46 ∷ 46 ∷ []) ≡ ok tt =
          subst (λ t. validate_bucket_name t ≡ ok tt) same h in
        cc
    | inr not_dots ↦ rw (not_dot, not_dots, bucket_plain (b ∷ bucket) h) refl
  ]
]
