-- ===== src/Storage/Erasure.antt =====
-- src/storage/erasure_encode.rs: how the bytes of an object are laid out in shards. The Reed-Solomon
-- library is the interface `ReedSolomon`. A position in the data that only moves forward is the rest of
-- the data from there.
pub mod Split
pub mod Chunks
pub mod Decode
pub mod Agree
pub mod Reads
pub mod Buffered
pub mod Write
pub mod Written
pub mod Samples
pub mod Stream
mod Tests
use abixio.Base.{
  ℕ, zero, suc, ◌+◌, ◌-◌, ◌*◌, ◌/◌, ◌≤◌, ◌<◌, ◌≡◌, max, Bool, Option, none, some, List, [], ◌∷◌,
  ◌++◌, Bytes, ◌==◌, if◌then◌else◌, ltb, leb, length, take, drop, replicate, is_empty, All,
}

-- `a.div_ceil(b)`
abbrev pub div_ceil : ℕ → ℕ → ℕ
div_ceil a b = (a + (b - 1)) / b

-- `data.len().div_ceil(count).max(1)`
abbrev pub shard_size : Bytes → ℕ → ℕ
shard_size block count = max (div_ceil (length block) count) 1

-- `shard.resize(size, 0)` of a shard that is not longer.
abbrev pub resize : ℕ → Bytes → Bytes
resize size shard = shard ++ replicate (size - length shard) 0

-- The loop of `split_data`: `rest` is the data from `i * shard_size` on.
unfoldable pub split_from : ℕ → ℕ → Bytes → List Bytes
split_from zero size rest = []
split_from (suc n) size rest = resize size (take size rest) ∷ split_from n size (drop size rest)

unfoldable pub split_data : Bytes → ℕ → List Bytes
unfolding split_from
split_data block count = split_from count (shard_size block count) block

-- How many slots hold a shard.
abbrev pub good_count : List (Option Bytes) → ℕ
good_count [] = 0
good_count (none ∷ slots) = good_count slots
good_count (some s ∷ slots) = suc (good_count slots)

-- Each slot is empty or holds the shard of its place.
abbrev pub Agrees : List (Option Bytes) → List Bytes → Type 0
Agrees [] [] = Unit
Agrees [] (f ∷ full) = ⊥
Agrees (s ∷ slots) [] = ⊥
Agrees (none ∷ slots) (f ∷ full) = Agrees slots full
Agrees (some s ∷ slots) (f ∷ full) = (s ≡ f) × Agrees slots full

abbrev pub map_some : List Bytes → List (Option Bytes)
map_some [] = []
map_some (s ∷ ss) = some s ∷ map_some ss

-- What the code relies on of `reed_solomon_erasure` for `data_n` data and `parity_n` parity shards: the
-- parity shards have the size of the data shards, and any `data_n` shards of the size give back all.
pub record ReedSolomon (data_n parity_n : ℕ) : Type 0 where
  pub encode : List Bytes → List Bytes
  pub reconstruct : List (Option Bytes) → Option (List (Option Bytes))
  pub length-encode : (ds : List Bytes) → length (encode ds) ≡ parity_n
  pub sizes-encode :
      (size : ℕ) (ds : List Bytes)
      → All (λ d. length d ≡ size) ds
      → length ds ≡ data_n
      → All (λ d. length d ≡ size) (encode ds)
  pub reconstruct-encode :
      (size : ℕ) (ds : List Bytes) (slots : List (Option Bytes))
      → 0 < size
      → All (λ d. length d ≡ size) ds
      → length ds ≡ data_n
      → Agrees slots (ds ++ encode ds)
      → data_n ≤ good_count slots
      → reconstruct slots ≡ some (map_some (ds ++ encode ds))

-- Each writer appends its shard.
abbrev pub write_all : List Bytes → List Bytes → List Bytes
write_all [] shards = []
write_all (w ∷ ws) [] = w ∷ ws
write_all (w ∷ ws) (s ∷ shards) = (w ++ s) ∷ write_all ws shards

module _ {data_n parity_n : ℕ} (rs : ReedSolomon data_n parity_n) where
  -- The parity shards; without parity no encoder is made.
  abbrev pub parity_of : List Bytes → List Bytes
  parity_of ds = if parity_n == 0 then [] else rs.encode ds

  -- The shards of one block, in the order of the writers (`write_block`).
  unfoldable pub block_shards : Bytes → List Bytes
  unfolding split_data
  block_shards block = let ds = split_data block data_n in ds ++ parity_of ds

  unfoldable pub write_block : Bytes → List Bytes → List Bytes
  unfolding block_shards
  write_block block writers = write_all writers (block_shards block)

  module _ (stream_block_size : ℕ) where
    -- The inner loop: whole blocks of the buffer are written, and the rest of the buffer is kept. Each
    -- round takes a block, so the length of the buffer is fuel enough.
    unfoldable pub write_full_blocks : ℕ → Bytes → List Bytes → Bytes × List Bytes
    unfolding write_block
    write_full_blocks zero buf writers = (buf, writers)
    write_full_blocks (suc n) buf writers =
        let more =
          write_full_blocks n (drop stream_block_size buf)
            (write_block (take stream_block_size buf) writers) in
        if leb stream_block_size (length buf) then more else (buf, writers)

    -- The loop over the chunks of the body.
    unfoldable pub encode_chunks : List Bytes → Bytes → List Bytes → Bytes × List Bytes
    unfolding write_full_blocks
    encode_chunks [] buf writers = (buf, writers)
    encode_chunks (chunk ∷ chunks) buf writers =
        let (buf', writers') = write_full_blocks (length (buf ++ chunk)) (buf ++ chunk) writers in
        encode_chunks chunks buf' writers'

    -- The whole body, with its last partial block.
    unfoldable pub encode_body : List Bytes → List Bytes
    unfolding encode_chunks
    encode_body chunks =
        let (buf, writers) = encode_chunks chunks [] (replicate (data_n + parity_n) []) in
        if is_empty buf then writers else write_block buf writers
