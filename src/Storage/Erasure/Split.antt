-- ===== src/Storage/Erasure/Split.antt =====
-- src/storage/erasure_encode.rs, `split_data`: the sizes of the shards, and the data back from them.
use abixio.Base.{
  ℕ, zero, suc, ◌+◌, ◌-◌, ◌*◌, ◌/◌, ◌≤◌, ◌<◌, ◌≡◌, refl, sym, ap, ◌∙◌, max, arith, List, [], ◌∷◌,
  ◌++◌, Bytes, length, take, drop, replicate, All, length-append, length-take, length-drop,
  length-replicate, take-append-drop, take-append, All-append, inl, inr, ◌==◌, Bool-cases, leb,
  leb→le,
}
use mathlib.Core.List.{append_assoc, append-nil}
use native.Mathlib.Nat.{lt-mul-div-succ}
use abixio.Storage.Erasure.{
  div_ceil, shard_size, resize, split_from, split_data, block_shards, parity_of, ReedSolomon,
}

-- `extend_from_slice` of each shard in turn.
abbrev pub concat : List Bytes → Bytes
concat [] = []
concat (x ∷ xs) = x ++ concat xs

pub concat-append : (xs ys : List Bytes) → concat (xs ++ ys) ≡ concat xs ++ concat ys
concat-append [] ys = refl
concat-append (x ∷ xs) ys =
    ap (λ t. x ++ t) (concat-append xs ys) ∙ sym (append_assoc x (concat xs) (concat ys))

pub length-resize :
    (size : ℕ) (shard : Bytes) → length shard ≤ size → length (resize size shard) ≡ size
length-resize size shard h = omega (
  arith,
  length-append shard (replicate (size - length shard) 0),
  length-replicate {A = ℕ} (size - length shard) 0,
)

pub length-split_from : (n size : ℕ) (rest : Bytes) → length (split_from n size rest) ≡ n
unfolding split_from
length-split_from zero size rest = refl
length-split_from (suc n) size rest = ap suc (length-split_from n size (drop size rest))

pub sizes-split_from :
    (n size : ℕ) (rest : Bytes) → All (λ d. length d ≡ size) (split_from n size rest)
unfolding split_from
sizes-split_from zero size rest = tt
sizes-split_from (suc n) size rest = (
  length-resize size (take size rest) (omega (arith, length-take size rest)),
  sizes-split_from n size (drop size rest),
)

pub take-zero-length : (xs : Bytes) (ys : Bytes) → take (length xs) (xs ++ ys) ≡ xs
take-zero-length xs ys = take-append (length xs) xs ys refl

pub take_at : (m n : ℕ) (xs : Bytes) → m ≡ n → take m xs ≡ take n xs
take_at m n xs p = ap (λ k. take k xs) p

pub take_past : (m : ℕ) (xs ys : Bytes) → take (length xs + m) (xs ++ ys) ≡ xs ++ take m ys
take_past m [] ys = take_at (0 + m) m ys (omega arith)
take_past m (x ∷ xs) ys =
    take_at (suc (length xs) + m) (suc (length xs + m)) (x ∷ (xs ++ ys)) (omega arith)
    ∙ ap (λ t. x ∷ t) (take_past m xs ys)

pub take_all : (n : ℕ) (xs : Bytes) → length xs ≤ n → take n xs ≡ xs
take_all zero [] h = refl
take_all zero (x ∷ xs) h = absurd (omega arith)
take_all (suc n) [] h = refl
take_all (suc n) (x ∷ xs) h = ap (λ t. x ∷ t) (take_all n xs (omega arith))

pub drop_over : (n : ℕ) (xs : Bytes) → length xs ≤ n → drop n xs ≡ []
drop_over zero [] h = refl
drop_over zero (x ∷ xs) h = absurd (omega arith)
drop_over (suc n) [] h = refl
drop_over (suc n) (x ∷ xs) h = drop_over n xs (omega arith)

pub take_within : (n : ℕ) (xs ys : Bytes) → n ≤ length xs → take n (xs ++ ys) ≡ take n xs
take_within zero xs ys h = refl
take_within (suc n) [] ys h = absurd (omega arith)
take_within (suc n) (x ∷ xs) ys h = ap (λ t. x ∷ t) (take_within n xs ys (omega arith))

pub drop_within : (n : ℕ) (xs ys : Bytes) → n ≤ length xs → drop n (xs ++ ys) ≡ drop n xs ++ ys
drop_within zero xs ys h = refl
drop_within (suc n) [] ys h = absurd (omega arith)
drop_within (suc n) (x ∷ xs) ys h = drop_within n xs ys (omega arith)

pub resize_full : (size : ℕ) (shard : Bytes) → length shard ≡ size → resize size shard ≡ shard
resize_full size shard h =
    let none_left : size - length shard ≡ 0 = omega arith in rw none_left (append-nil shard)

take-resize :
    (size : ℕ) (rest more : Bytes)
    → length rest ≤ size
    → take (length rest) (resize size (take size rest) ++ more) ≡ rest
take-resize size rest more h =
    rw (take_all size rest h, append_assoc rest (replicate (size - length rest) 0) more)
      (take-zero-length rest _)

take_past_resize :
    (size : ℕ) (rest more : Bytes)
    → size < length rest
    → take (length (drop size rest)) more ≡ drop size rest
    → take (length rest) (resize size (take size rest) ++ more) ≡ rest
take_past_resize size rest more h ih =
    let cut : length (take size rest) ≡ size = omega (arith, length-take size rest) in
    let parts : length rest ≡ length (take size rest) + length (drop size rest) =
      omega (arith, cut, length-drop size rest) in
    ap (λ t. take (length rest) (t ++ more)) (resize_full size (take size rest) cut)
    ∙ ap (λ k. take k (take size rest ++ more)) parts
    ∙ take_past (length (drop size rest)) (take size rest) more
    ∙ ap (λ t. take size rest ++ t) ih
    ∙ take-append-drop size rest

mul_le : (n a b : ℕ) → a ≤ b → n * a ≤ n * b
mul_le zero a b h = omega arith
mul_le (suc n) a b h = omega (arith, mul_le n a b h)

-- Cut at `length rest`, the shards joined are the data that was split.
pub take-concat-split_from :
    (n size : ℕ) (rest : Bytes)
    → length rest ≤ n * size
    → take (length rest) (concat (split_from n size rest)) ≡ rest
unfolding split_from
take-concat-split_from zero size [] h = refl
take-concat-split_from zero size (x ∷ rest) h = absurd (omega arith)
take-concat-split_from (suc n) size rest h = elim (Bool-cases (leb (length rest) size)) [
  | inl small ↦ take-resize size rest _ (leb→le (length rest) size small)
  | inr big ↦
      let long : size < length rest = ground arith in
      take_past_resize size rest _ long
        (take-concat-split_from n size (drop size rest) (omega (arith, length-drop size rest)))
]

-- The shards of a block have room for its bytes.
pub length_le_shards : (n : ℕ) (block : Bytes) → 0 < n → length block ≤ n * shard_size block n
length_le_shards n block h =
    let len : ℕ = length block in
    let whole : len + (n - 1) < n * ((len + (n - 1)) / n + 1) = lt-mul-div-succ (len + (n - 1)) h in
    let least : n * div_ceil len n ≤ n * max (div_ceil len n) 1 =
      mul_le n (div_ceil len n) (max (div_ceil len n) 1) (omega arith) in
    omega (arith, whole, least)

pub length-split_data : (block : Bytes) (n : ℕ) → length (split_data block n) ≡ n
unfolding split_data
length-split_data block n = length-split_from n (shard_size block n) block

pub sizes-split_data :
    (block : Bytes) (n : ℕ) → All (λ d. length d ≡ shard_size block n) (split_data block n)
unfolding split_data
sizes-split_data block n = sizes-split_from n (shard_size block n) block

-- The data shards of a block, joined and cut at the length of the block, are the block.
pub take-concat-split_data :
    (block : Bytes) (n : ℕ) → 0 < n → take (length block) (concat (split_data block n)) ≡ block
unfolding split_data
take-concat-split_data block n h =
    take-concat-split_from n (shard_size block n) block (length_le_shards n block h)

module _ {data_n parity_n : ℕ} (rs : ReedSolomon data_n parity_n) where
  pub length-parity_of : (ds : List Bytes) → length (parity_of rs ds) ≡ parity_n
  length-parity_of ds = ground (arith, rs.length-encode ds)

  sizes-parity_of :
      (size : ℕ) (ds : List Bytes)
      → All (λ d. length d ≡ size) ds
      → length ds ≡ data_n
      → All (λ d. length d ≡ size) (parity_of rs ds)
  sizes-parity_of size ds h k = elim (Bool-cases (parity_n == 0)) [
    | inl e ↦ rw e tt
    | inr e ↦ rw e (rs.sizes-encode size ds h k)
  ]

  pub length-block_shards : (block : Bytes) → length (block_shards rs block) ≡ data_n + parity_n
  unfolding block_shards
  length-block_shards block = omega (
    arith,
    length-append (split_data block data_n) (parity_of rs (split_data block data_n)),
    length-split_data block data_n,
    length-parity_of (split_data block data_n),
  )

  pub sizes-block_shards :
      (block : Bytes) → All (λ d. length d ≡ shard_size block data_n) (block_shards rs block)
  unfolding block_shards
  sizes-block_shards block =
      let ds : List Bytes = split_data block data_n in
      let all_sizes : All (λ d. length d ≡ shard_size block data_n) ds =
        sizes-split_data block data_n in
      All-append _ ds (parity_of rs ds) all_sizes
        (sizes-parity_of (shard_size block data_n) ds all_sizes (length-split_data block data_n))
