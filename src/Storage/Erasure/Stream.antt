-- ===== src/Storage/Erasure/Stream.antt =====
-- src/storage/erasure_decode.rs with src/storage/erasure_encode.rs: what is read back is what was written.
use abixio.Base.{
  ℕ, zero, suc, ◌+◌, ◌-◌, ◌≤◌, ◌<◌, ◌≡◌, refl, sym, ap, ◌∙◌, min, arith, true, false, Option, some,
  List, [], ◌∷◌, ◌++◌, map, Bytes, ◌==◌, ltb, length, take, drop, all, length-append, length-take,
  length-drop, take-append, take-append-drop, Bool-cases, inl, inr, Result, ok,
}
use mathlib.Core.List.{append-nil, append_assoc}
use abixio.Storage.{StorageError}
use abixio.Storage.Erasure.{
  ReedSolomon, shard_size, split_data, Agrees, good_count, map_some, parity_of, block_shards,
  write_all, encode_body,
}
use abixio.Storage.Erasure.Split.{
  concat, take-concat-split_data, length-split_data, sizes-split_data, length-block_shards,
  sizes-block_shards,
}
use abixio.Storage.Erasure.Chunks.{
  shards_of, shards_of_step, length-shards_of, encode_body-shards_of,
}
use abixio.Storage.Erasure.Agree.{
  all_good, Agrees-take, take-write_all, All-take, flatten-take-map_some, next_piece-Agrees,
  concat-send_slices,
}
use abixio.Storage.Erasure.Decode.{
  restore, join_data, has_more, next_piece, advance, send_slices, rebuild_block, decode_block,
  send_block, decode_blocks, received,
}

module _ {data_n parity_n : ℕ} (rs : ReedSolomon data_n parity_n) (some_data : 0 < data_n) where
  take-block_shards :
      (block : Bytes) → take data_n (block_shards rs block) ≡ split_data block data_n
  unfolding block_shards
  take-block_shards block =
      take-append data_n (split_data block data_n) (parity_of rs (split_data block data_n))
        (length-split_data block data_n)

  pub join_data-block_shards :
      (block : Bytes) → join_data rs (length block) (map_some (block_shards rs block)) ≡ block
  join_data-block_shards block =
      rw (flatten-take-map_some data_n (block_shards rs block), take-block_shards block)
        (take-concat-split_data block data_n some_data)

  -- Slots that agree with the shards of a block, as many as there are data shards, give all its shards.
  pub restore-block_shards :
      (block : Bytes) (slots : List (Option Bytes))
      → Agrees slots (block_shards rs block)
      → data_n ≤ good_count slots
      → restore rs slots ≡ some (map_some (block_shards rs block))
  unfolding block_shards
  restore-block_shards block slots h k =
      let ds : List Bytes = split_data block data_n in
      elim (Bool-cases (parity_n == 0)) [
        | inl e ↦ rw e (
            ap some (
              all_good slots (ds ++ []) (rw e at h)
                (omega (arith, length-append ds [], length-split_data block data_n))))
        | inr e ↦ rw e (
            rs.reconstruct-encode (shard_size block data_n) ds slots (omega arith)
              (sizes-split_data block data_n) (length-split_data block data_n) (rw e at h) k)
      ]

  rebuild_block-block_shards :
      (block : Bytes) (pieces : List (Option Bytes))
      → Agrees pieces (block_shards rs block)
      → data_n ≤ good_count pieces
      → rebuild_block rs (length block) pieces ≡ ok (block ∷ [])
  unfolding rebuild_block
  rebuild_block-block_shards block pieces h k =
      let quorum : ltb (good_count pieces) data_n ≡ false = ground arith in
      rw (quorum, restore-block_shards block pieces h k, join_data-block_shards block) refl

  fast_path :
      (block : Bytes) (slots : List (Option Bytes)) (later : List Bytes)
      → length later ≡ data_n + parity_n
      → Agrees slots (write_all (block_shards rs block) later)
      → all has_more (take data_n slots) ≡ true
      → concat (send_slices (shard_size block data_n) (length block) (take data_n slots)) ≡ block
  fast_path block slots later l h good =
      let full : List Bytes = block_shards rs block in
      let first : Agrees (take data_n slots) (write_all (take data_n full) (take data_n later)) =
        rw (sym (take-write_all data_n full later (omega (arith, length-block_shards rs block))))
          (Agrees-take data_n slots (write_all full later) h) in
      concat-send_slices (shard_size block data_n) (length block) (take data_n slots)
        (take data_n full) (take data_n later) (omega arith)
        (All-take (λ b. length b ≡ shard_size block data_n) data_n full
          (sizes-block_shards rs block))
        (omega
          (arith, length-take data_n full, length-take data_n later, length-block_shards rs block))
        first good
      ∙ ap (λ t. take (length block) (concat t)) (take-block_shards block)
      ∙ take-concat-split_data block data_n some_data

  received-send_block :
      (chunks : List Bytes) (later : List (Result StorageError Bytes)) (rest : Bytes)
      → received later ≡ ok rest
      → received (send_block (ok chunks) later) ≡ ok (concat chunks ++ rest)
  received-send_block [] later rest h = h
  received-send_block (c ∷ chunks) later rest h =
      rw (received-send_block chunks later rest h)
        (ap ok (sym (append_assoc c (concat chunks) rest)))

  received-decode_block :
      (block : Bytes) (slots : List (Option Bytes)) (later : List Bytes)
      (sent : List (Result StorageError Bytes)) (rest : Bytes)
      → length later ≡ data_n + parity_n
      → Agrees slots (write_all (block_shards rs block) later)
      → data_n ≤ good_count slots
      → received sent ≡ ok rest
      → received (send_block (decode_block rs (length block) (shard_size block data_n) slots) sent)
        ≡ ok (block ++ rest)
  unfolding decode_block
  received-decode_block block slots later sent rest l h k next =
      elim (Bool-cases (all has_more (take data_n slots))) [
        | inl good ↦ rw good (
            received-send_block
              (send_slices (shard_size block data_n) (length block) (take data_n slots)) sent rest
              next
            ∙ ap (λ t. ok (t ++ rest)) (fast_path block slots later l h good))
        | inr bad ↦
            let (pieces, _, n, _) =
              next_piece-Agrees (shard_size block data_n) slots (block_shards rs block) later
                (omega arith) (sizes-block_shards rs block)
                (omega (arith, length-block_shards rs block)) h in
            rw
              (
                bad,
                rebuild_block-block_shards block (map (next_piece (shard_size block data_n)) slots)
                    pieces (omega arith),
              )
              (received-send_block (block ∷ []) sent rest next
                ∙ ap (λ t. ok (t ++ rest)) (append-nil block))
      ]

  module _ (block_size : ℕ) (positive : 0 < block_size) where
    received-decode_blocks :
        (n : ℕ) (body : Bytes) (slots : List (Option Bytes))
        → length body ≤ n
        → Agrees slots (shards_of rs block_size body)
        → data_n ≤ good_count slots
        → received (decode_blocks rs block_size n (length body) slots) ≡ ok body
    unfolding decode_blocks
    received-decode_blocks zero [] slots fuel h k = refl
    received-decode_blocks zero (b ∷ body) slots fuel h k = absurd (omega arith)
    received-decode_blocks (suc n) [] slots fuel h k = refl
    received-decode_blocks (suc n) (b ∷ body) slots fuel h k =
        let whole : Bytes = b ∷ body in
        let block : Bytes = take block_size whole in
        let rest : Bytes = drop block_size whole in
        let later : List Bytes = shards_of rs block_size rest in
        let step : Agrees slots (write_all (block_shards rs block) later) =
          rw (sym (shards_of_step rs block_size positive whole (omega arith))) h in
        let size : min (length whole) block_size ≡ length block =
          omega (arith, length-take block_size whole) in
        let left : length whole - length block ≡ length rest =
          omega (arith, length-drop block_size whole, length-take block_size whole) in
        let (_, rests, _, m) =
          next_piece-Agrees (shard_size block data_n) slots (block_shards rs block) later
            (omega arith) (sizes-block_shards rs block)
            (omega (arith, length-block_shards rs block, length-shards_of rs block_size rest))
            step in
        let more : (length whole == 0) ≡ false = ground arith in
        rw (size, left, more)
          (received-decode_block block slots later _ rest (length-shards_of rs block_size rest) step
              k
              (received-decode_blocks n rest (map (advance (shard_size block data_n)) slots)
                (omega (arith, length-drop block_size whole)) rests (omega arith))
            ∙ ap ok (take-append-drop block_size whole))

    -- A body that is encoded from its chunks and streamed back from shards of which at least `data_n` are
    -- there, each with the bytes that were written to it, arrives whole, and without an error. This holds
    -- for any number of blocks and any cut of the body into chunks, on the fast and on the slow path.
    pub stream-encode_body :
        (chunks : List Bytes) (slots : List (Option Bytes))
        → Agrees slots (encode_body rs block_size chunks)
        → data_n ≤ good_count slots
        → received
            (decode_blocks rs block_size (length (concat chunks)) (length (concat chunks)) slots)
          ≡ ok (concat chunks)
    stream-encode_body chunks slots h k =
        received-decode_blocks (length (concat chunks)) (concat chunks) slots (omega arith)
          (rw (sym (encode_body-shards_of rs block_size positive chunks)) h) k
