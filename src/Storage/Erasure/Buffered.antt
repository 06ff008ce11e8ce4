-- ===== src/Storage/Erasure/Buffered.antt =====
-- src/storage/erasure_decode.rs, `read_and_decode`: an object read whole. It joins whole shards, which is
-- the order of the bytes for one block only.
use abixio.Base.{
  ℕ, suc, ◌+◌, ◌*◌, ◌≤◌, ◌<◌, ◌≡◌, refl, ap, ◌∙◌, arith, false, ◌&&◌, Option, some, List, [], ◌∷◌,
  ◌++◌, Bytes, ◌==◌, ltb, length, take, Bool-cases, inl, inr, ok, length-append, take-append,
  drop-append,
}
use mathlib.Core.List.{append-nil}
use abixio.Storage.Erasure.{
  ReedSolomon, Agrees, good_count, map_some, encode_body, block_shards, split_data, split_from,
  shard_size, parity_of, write_all,
}
use abixio.Storage.Erasure.Split.{concat, take_all, drop_over, resize_full, length-block_shards}
use abixio.Storage.Erasure.Chunks.{
  encode_body-shards_of, shards_of, shards_of_step, shards_of_nil, write_all-blank,
  length-write_all,
}
use abixio.Storage.Erasure.Agree.{all_good, flatten-take-map_some}
use abixio.Storage.Erasure.Stream.{restore-block_shards, join_data-block_shards}
use abixio.Storage.Erasure.Decode.{restore, decode_slots}

good_count-map_some : (full : List Bytes) → good_count (map_some full) ≡ length full
good_count-map_some [] = refl
good_count-map_some (f ∷ full) = ap suc (good_count-map_some full)

module _ {data_n parity_n : ℕ} (rs : ReedSolomon data_n parity_n) where
  shards_of_one_block :
      (block_size : ℕ) (body : Bytes)
      → 0 < length body
      → length body ≤ block_size
      → shards_of rs block_size body ≡ block_shards rs body
  shards_of_one_block block_size body p fits =
      shards_of_step rs block_size (omega arith) body p
      ∙ rw
          (
            take_all block_size body fits,
            drop_over block_size body fits,
            shards_of_nil rs block_size,
          )
          (write_all-blank (data_n + parity_n) (block_shards rs body))

  decode_slots-block_shards :
      (body : Bytes) (slots : List (Option Bytes))
      → 0 < data_n
      → Agrees slots (block_shards rs body)
      → data_n ≤ good_count slots
      → decode_slots rs slots (length body) ≡ ok body
  unfolding decode_slots
  decode_slots-block_shards body slots p h k =
      elim (Bool-cases (ltb 0 parity_n && ltb (good_count slots) (data_n + parity_n))) [
        | inl rebuild ↦
            let restored : restore rs slots ≡ some (map_some (block_shards rs body)) =
              restore-block_shards rs p body slots h k in
            let coded : (parity_n == 0) ≡ false = ground arith in
            let back : rs.reconstruct slots ≡ some (map_some (block_shards rs body)) =
              rw coded at restored in
            rw (rebuild, back) (ap ok (join_data-block_shards rs p body))
        | inr whole ↦
            let full : length (block_shards rs body) ≤ good_count slots =
              ground (arith, length-block_shards rs body) in
            rw (whole, all_good slots (block_shards rs body) h full)
              (ap ok (join_data-block_shards rs p body))
      ]

  -- A body that is not empty and no longer than a block, encoded for at least one data shard, is read back
  -- whole from slots that agree with what was written, when at least `data_n` of them hold a shard.
  pub decode_slots-encode_body :
      (block_size : ℕ) (chunks : List Bytes) (slots : List (Option Bytes))
      → 0 < data_n
      → 0 < length (concat chunks)
      → length (concat chunks) ≤ block_size
      → Agrees slots (encode_body rs block_size chunks)
      → data_n ≤ good_count slots
      → decode_slots rs slots (length (concat chunks)) ≡ ok (concat chunks)
  decode_slots-encode_body block_size chunks slots p q fits h k =
      let one : encode_body rs block_size chunks ≡ block_shards rs (concat chunks) =
        encode_body-shards_of rs block_size (omega arith) chunks
        ∙ shards_of_one_block block_size (concat chunks) q fits in
      decode_slots-block_shards (concat chunks) slots p (rw one at h) k

module _ (k : ℕ) (positive : 0 < k) where
  halves : (a b : Bytes) → length a ≡ k → length b ≡ k → split_data (a ++ b) 2 ≡ a ∷ b ∷ []
  unfolding split_data split_from
  halves a b p q =
      let half : shard_size (a ++ b) 2 ≡ k = omega (arith, length-append a b) in
      rw
        (
          half,
          take-append k a b p,
          drop-append k a b p,
          take_all k b (omega arith),
          resize_full k a p,
          resize_full k b q,
        )
        refl

  module _ {parity_n : ℕ} (rs : ReedSolomon 2 parity_n) where
    two_data :
        (a b : Bytes)
        → length a ≡ k
        → length b ≡ k
        → (more : List Bytes) × (block_shards rs (a ++ b) ≡ a ∷ b ∷ more)
    unfolding block_shards
    two_data a b p q = (
      parity_of rs (split_data (a ++ b) 2),
      ap (λ ds. ds ++ parity_of rs (split_data (a ++ b) 2)) (halves a b p q),
    )

    two_blocks :
        (x y : Bytes)
        → length x ≡ 2 * k
        → length y ≡ 2 * k
        → shards_of rs (2 * k) (x ++ y) ≡ write_all (block_shards rs x) (block_shards rs y)
    two_blocks x y p q =
        shards_of_step rs (2 * k) (omega arith) (x ++ y) (omega (arith, length-append x y))
        ∙ rw (take-append (2 * k) x y p, drop-append (2 * k) x y p)
            (ap (write_all (block_shards rs x))
              (shards_of_one_block rs (2 * k) y (omega arith) (omega arith)))

    joined :
        (full : List Bytes) (size : ℕ)
        → length full ≡ 2 + parity_n
        → decode_slots rs (map_some full) size ≡ ok (take size (concat (take 2 full)))
    unfolding decode_slots
    joined full size h =
        let whole : (ltb 0 parity_n && ltb (good_count (map_some full)) (2 + parity_n)) ≡ false =
          ground (arith, good_count-map_some full) in
        rw whole (ap (λ t. ok (take size (concat t))) (flatten-take-map_some 2 full))

    -- With two data shards and a body of two blocks whose halves are `a`, `b` and `c`, `d`, each of `k > 0`
    -- bytes, the whole read of the complete shards gives `a`, `c`, `b`, `d`: the middle parts of the object
    -- change places.
    pub decode_slots-two_blocks :
        (a b c d : Bytes)
        → length a ≡ k
        → length b ≡ k
        → length c ≡ k
        → length d ≡ k
        → decode_slots rs (map_some (encode_body rs (2 * k) (((a ++ b) ++ (c ++ d)) ∷ []))) (4 * k)
          ≡ ok ((a ++ c) ++ (b ++ d))
    decode_slots-two_blocks a b c d pa pb pc pd =
        let x : Bytes = a ++ b in
        let y : Bytes = c ++ d in
        let (p1, first) = two_data a b pa pb in
        let (p2, second) = two_data c d pc pd in
        let full : encode_body rs (2 * k) ((x ++ y) ∷ [])
            ≡ write_all (block_shards rs x) (block_shards rs y) =
          encode_body-shards_of rs (2 * k) (omega arith) ((x ++ y) ∷ [])
          ∙ ap (shards_of rs (2 * k)) (append-nil (x ++ y))
          ∙ two_blocks x y (omega (arith, length-append a b)) (omega (arith, length-append c d)) in
        let total : length (write_all (block_shards rs x) (block_shards rs y)) ≡ 2 + parity_n =
          length-write_all (block_shards rs x) (block_shards rs y) ∙ length-block_shards rs x in
        ap (λ t. decode_slots rs (map_some t) (4 * k)) full
        ∙ joined (write_all (block_shards rs x) (block_shards rs y)) (4 * k) total
        ∙ rw (first, second)
            (ap ok (
              ap (take (4 * k)) (ap (λ t. (a ++ c) ++ t) (append-nil (b ++ d)))
              ∙ take_all (4 * k) ((a ++ c) ++ (b ++ d)) (
                  omega (
                    arith,
                    length-append (a ++ c) (b ++ d),
                    length-append a c,
                    length-append b d,
                  ))))
