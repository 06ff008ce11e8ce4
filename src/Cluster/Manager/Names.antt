-- ===== src/Cluster/Manager/Names.antt =====
-- src/cluster/mod.rs: the identifiers and endpoints. A text is its UTF-8 bytes.
use abixio.Base.{
  ℕ, zero, suc, Option, none, some, length, Bool, true, false, ◌&&◌, ◌||◌, List, [], ◌∷◌, ◌++◌,
  Bytes, ◌==◌, if◌then◌else◌, leb, is_empty, str_eq,
}

abbrev pub is_space : ℕ → Bool
is_space b = b == 32 || (leb 9 b && leb b 13)

-- The characters of three bytes with the property White_Space.
abbrev is_wide_space : ℕ → ℕ → ℕ → Bool
is_wide_space b c d =
    (b == 0xe1 && c == 0x9a && d == 0x80)
    || (b == 0xe2 && c == 0x80 && (leb 0x80 d && leb d 0x8a || d == 0xa8 || d == 0xa9 || d == 0xaf))
    || (b == 0xe2 && c == 0x81 && d == 0x9f)
    || (b == 0xe3 && c == 0x80 && d == 0x80)

abbrev pub behind_wide : ℕ → ℕ → Bytes → Option Bytes
behind_wide b c [] = none
behind_wide b c (d ∷ bs) = if is_wide_space b c d then some bs else none

abbrev pub behind_two : ℕ → Bytes → Option Bytes
behind_two b [] = none
behind_two b (c ∷ bs) =
    if b == 0xc2 && (c == 0x85 || c == 0xa0) then some bs else behind_wide b c bs

-- What follows a white-space character at the front, in UTF-8.
abbrev pub behind_space : Bytes → Option Bytes
behind_space [] = none
behind_space (b ∷ bs) = if is_space b then some bs else behind_two b bs

-- At most that many characters are taken off.
abbrev pub trim_from : ℕ → Bytes → Bytes
trim_from zero text = text
trim_from (suc n) text = elim (behind_space text) [ none ↦ text | some rest ↦ trim_from n rest ]

abbrev pub trim_start : Bytes → Bytes
trim_start text = trim_from (length text) text

-- The front up to which only white space follows.
abbrev pub trim_back : Bytes → Bytes
trim_back [] = []
trim_back (b ∷ bs) =
    let rest = trim_back bs in if is_empty (trim_start (b ∷ bs)) then [] else b ∷ rest

-- `trim_end_matches`
abbrev pub trim_end : (ℕ → Bool) → Bytes → Bytes
trim_end p [] = []
trim_end p (b ∷ bs) = let rest = trim_end p bs in if p b && is_empty rest then [] else b ∷ rest

abbrev pub trim : Bytes → Bytes
trim text = trim_back (trim_start text)

abbrev pub trim_slashes : Bytes → Bytes
trim_slashes = trim_end (λ b. b == 47)

abbrev pub has_prefix : Bytes → Bytes → Bool
has_prefix [] text = true
has_prefix (p ∷ ps) [] = false
has_prefix (p ∷ ps) (b ∷ bs) = p == b && has_prefix ps bs

abbrev pub text_http : Bytes
text_http = 104 ∷ 116 ∷ 116 ∷ 112 ∷ 58 ∷ 47 ∷ 47 ∷ []

abbrev pub text_https : Bytes
text_https = 104 ∷ 116 ∷ 116 ∷ 112 ∷ 115 ∷ 58 ∷ 47 ∷ 47 ∷ []

abbrev pub text_local : Bytes
text_local = 108 ∷ 111 ∷ 99 ∷ 97 ∷ 108 ∷ []

abbrev pub text_abixio : Bytes
text_abixio = 97 ∷ 98 ∷ 105 ∷ 120 ∷ 105 ∷ 111 ∷ 45 ∷ []

abbrev pub text_vol : Bytes
text_vol = 118 ∷ 111 ∷ 108 ∷ 45 ∷ []

unfoldable pub normalize_id : Bytes → Bytes
normalize_id value = let trimmed = trim value in if is_empty trimmed then text_local else trimmed

unfoldable pub normalize_endpoint : Bytes → Bytes
normalize_endpoint endpoint =
    let trimmed = trim_slashes (trim endpoint) in
    if has_prefix text_http trimmed || has_prefix text_https trimmed
    then trimmed
    else if is_empty trimmed
    then trimmed
    else text_http ++ trimmed

abbrev pub contains_str : Bytes → List Bytes → Bool
contains_str x [] = false
contains_str x (y ∷ ys) = str_eq x y || contains_str x ys

-- The loop of `normalize_nodes`; what is seen is what was pushed.
unfoldable pub normalize_from : List Bytes → List Bytes → List Bytes
unfolding normalize_endpoint
normalize_from normalized [] = normalized
normalize_from normalized (node ∷ nodes) =
    let value = normalize_endpoint node in
    normalize_from
      (if contains_str value normalized then normalized else normalized ++ (value ∷ [])) nodes

unfoldable pub normalize_nodes : List Bytes → List Bytes
unfolding normalize_from
normalize_nodes nodes = normalize_from [] nodes

-- What the calls of `update` feed into the hash.
abbrev pub fed : List Bytes → Bytes
fed [] = []
fed (node ∷ nodes) = node ++ fed nodes

-- The hash gives the first eight bytes of SHA-256 in hexadecimal.
module _ (hash_prefix : Bytes → Bytes) where
  unfoldable pub cluster_id_for : Bytes → List Bytes → Bytes
  cluster_id_for node_id nodes = text_abixio ++ hash_prefix (node_id ++ fed nodes)

  unfoldable pub volume_id_for : Bytes → Bytes → Bytes
  volume_id_for node_id path = text_vol ++ hash_prefix (node_id ++ path)
