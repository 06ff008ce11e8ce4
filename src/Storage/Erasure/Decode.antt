-- ===== src/Storage/Erasure/Decode.antt =====
-- src/storage/erasure_decode.rs: an object read back from its shards, whole or as a stream of blocks. What
-- the disks answered is given, a failed read as `none`. A read position in a shard is the rest of the shard
-- from there, and the receiver of the stream is taken to read to the end.
use abixio.Base.{
  ℕ, zero, suc, ◌+◌, ◌-◌, min, max, Bool, true, false, not, ◌&&◌, ◌||◌, Option, none, some, List,
  [], ◌∷◌, ◌++◌, map, Bytes, ◌==◌, if◌then◌else◌, ltb, length, take, drop, replicate, is_empty, any,
  all, str_eq, Result, ok, err, ◌>>=◌, ◌>>◌, refuse_if,
}
use abixio.Storage.{StorageError, object_not_found, read_quorum, invalid_config}
use abixio.Storage.Metadata.{ObjectMeta, PartEntry, data_shards, parity_shards}
use abixio.Storage.Erasure.{ReedSolomon, div_ceil, good_count}
use abixio.Storage.Erasure.Split.{concat}

abbrev pub is_some {ℓ} : {A : Type ℓ} → Option A → Bool
is_some none = false
is_some (some a) = true

-- `slots[i] = Some(shard)`
abbrev pub set_slot : ℕ → Bytes → List (Option Bytes) → List (Option Bytes)
set_slot i shard [] = []
set_slot zero shard (s ∷ slots) = some shard ∷ slots
set_slot (suc i) shard (s ∷ slots) = s ∷ set_slot i shard slots

abbrev pub or_first : Option ObjectMeta → ObjectMeta → Option ObjectMeta
or_first none meta = some meta
or_first (some first) meta = some first

-- `.flatten()`
abbrev pub flatten : List (Option Bytes) → List Bytes
flatten [] = []
flatten (none ∷ slots) = flatten slots
flatten (some s ∷ slots) = s ∷ flatten slots

abbrev pub ok_or {ℓ} : {E A : Type ℓ} → E → Option A → Result E A
ok_or e none = err e
ok_or e (some a) = ok a

module _ (blake3_hex sha256_hex : Bytes → Bytes) where
  -- src/storage/bitrot.rs
  unfoldable pub verify_shard_checksum : Bytes → Bytes → Bool
  verify_shard_checksum shard stored =
      str_eq (blake3_hex shard) stored || str_eq (sha256_hex shard) stored

  -- One turn of the loop over the reads: a shard that fails its checksum is treated as missing.
  unfoldable pub place_shard :
      ℕ
      → Bytes × ObjectMeta
      → List (Option Bytes) × Option ObjectMeta
      → List (Option Bytes) × Option ObjectMeta
  unfolding verify_shard_checksum
  place_shard total (shard, meta) (slots, good) =
      if verify_shard_checksum shard meta.checksum && ltb meta.erasure.index total
      then (set_slot meta.erasure.index shard slots, or_first good meta)
      else (slots, good)

  unfoldable pub place_shards :
      ℕ
      → List (Option (Bytes × ObjectMeta))
      → List (Option Bytes) × Option ObjectMeta
      → List (Option Bytes) × Option ObjectMeta
  unfolding place_shard
  place_shards total [] placed = placed
  place_shards total (none ∷ reads) placed = place_shards total reads placed
  place_shards total (some read ∷ reads) placed =
      place_shards total reads (place_shard total read placed)

  -- The slots and the metadata that both kinds of read begin with.
  unfoldable pub read_slots :
      ℕ
      → ℕ
      → List (Option (Bytes × ObjectMeta))
      → Result StorageError (List (Option Bytes) × ObjectMeta)
  unfolding place_shards
  read_slots total data_n reads =
      let (slots, good_meta) = place_shards total reads (replicate total none, none) in
      refuse_if (not (any is_some reads)) object_not_found
      >> ok_or read_quorum good_meta
      >>= λ meta. refuse_if (ltb (good_count slots) data_n) read_quorum >> ok (slots, meta)

-- `read_offset < shard.len()`
abbrev pub has_more : Option Bytes → Bool
has_more none = false
has_more (some rest) = not (is_empty rest)

-- The next piece of a shard, for the slow path.
abbrev pub next_piece : ℕ → Option Bytes → Option Bytes
next_piece chunk none = none
next_piece chunk (some rest) = if is_empty rest then none else some (take chunk rest)

-- `shard_read_offset += shard_chunk_size`
abbrev pub advance : ℕ → Option Bytes → Option Bytes
advance chunk none = none
advance chunk (some rest) = some (drop chunk rest)

-- The fast path: a slice of each data shard, until the block is full.
unfoldable pub send_slices : ℕ → ℕ → List (Option Bytes) → List Bytes
send_slices chunk needed [] = []
send_slices chunk needed (none ∷ rests) = []
send_slices chunk needed (some rest ∷ rests) =
    let size = min (min chunk (length rest)) needed in
    let more = send_slices chunk (needed - size) rests in
    if size == 0 then [] else (take size rest ∷ more)

-- What a block puts into the channel; an error is the last thing sent.
abbrev pub send_block :
    Result StorageError (List Bytes)
    → List (Result StorageError Bytes)
    → List (Result StorageError Bytes)
send_block (ok []) later = later
send_block (ok (c ∷ chunks)) later = ok c ∷ send_block (ok chunks) later
send_block (err e) later = err e ∷ []

module _ {data_n parity_n : ℕ} (rs : ReedSolomon data_n parity_n) where
  -- `rs.reconstruct`, when there is an encoder.
  abbrev pub restore : List (Option Bytes) → Option (List (Option Bytes))
  restore slots = if parity_n == 0 then some slots else rs.reconstruct slots

  -- The data shards joined and cut to the size.
  abbrev pub join_data : ℕ → List (Option Bytes) → Bytes
  join_data size slots = take size (concat (flatten (take data_n slots)))

  -- What follows the quorum check of a whole read.
  unfoldable pub decode_slots : List (Option Bytes) → ℕ → Result StorageError Bytes
  decode_slots slots size =
      ok_or read_quorum (
        if ltb 0 parity_n && ltb (good_count slots) (data_n + parity_n)
        then rs.reconstruct slots
        else some slots)
      >>= λ restored. ok (join_data size restored)

  unfoldable pub read_and_decode :
      (Bytes → Bytes)
      → (Bytes → Bytes)
      → List (Option (Bytes × ObjectMeta))
      → Result StorageError (Bytes × ObjectMeta)
  unfolding read_slots decode_slots
  read_and_decode blake3_hex sha256_hex reads =
      read_slots blake3_hex sha256_hex (data_n + parity_n) data_n reads >>= λ placed.
      decode_slots placed.0 placed.1.size >>= λ body. ok (body, placed.1)

  -- The same on the reads of one version (`read_versioned_shard`).
  unfoldable pub read_and_decode_versioned :
      (Bytes → Bytes)
      → (Bytes → Bytes)
      → List (Option (Bytes × ObjectMeta))
      → Result StorageError (Bytes × ObjectMeta)
  unfolding read_slots decode_slots
  read_and_decode_versioned blake3_hex sha256_hex reads =
      read_slots blake3_hex sha256_hex (data_n + parity_n) data_n reads >>= λ placed.
      decode_slots placed.0 placed.1.size >>= λ body. ok (body, placed.1)

  -- The slow path: the block is rebuilt and sent in one chunk.
  unfoldable pub rebuild_block : ℕ → List (Option Bytes) → Result StorageError (List Bytes)
  rebuild_block block_size pieces =
      refuse_if (ltb (good_count pieces) data_n) read_quorum
      >> ok_or read_quorum (restore pieces)
      >>= λ restored. ok (join_data block_size restored ∷ [])

  unfoldable pub decode_block : ℕ → ℕ → List (Option Bytes) → Result StorageError (List Bytes)
  unfolding send_slices rebuild_block
  decode_block block_size chunk rests =
      if all has_more (take data_n rests)
      then ok (send_slices chunk block_size (take data_n rests))
      else rebuild_block block_size (map (next_piece chunk) rests)

  module _ (stream_block_size : ℕ) where
    -- The `while remaining > 0` loop. A block takes at least one byte off, so `remaining` is fuel enough.
    unfoldable pub decode_blocks : ℕ → ℕ → List (Option Bytes) → List (Result StorageError Bytes)
    unfolding decode_block
    decode_blocks zero remaining rests = []
    decode_blocks (suc n) remaining rests =
        let block_size = min remaining stream_block_size in
        let chunk = max (div_ceil block_size data_n) 1 in
        let later = decode_blocks n (remaining - block_size) (map (advance chunk) rests) in
        if remaining == 0 then [] else send_block (decode_block block_size chunk rests) later

    unfoldable pub read_and_decode_stream :
        (Bytes → Bytes)
        → (Bytes → Bytes)
        → List (Option (Bytes × ObjectMeta))
        → Result StorageError (ObjectMeta × List (Result StorageError Bytes))
    unfolding read_slots decode_blocks
    read_and_decode_stream blake3_hex sha256_hex reads =
        read_slots blake3_hex sha256_hex (data_n + parity_n) data_n reads >>= λ placed.
        ok (placed.1, decode_blocks placed.1.size placed.1.size placed.0)

-- What the receiver has when it read the stream to its end: all the bytes, or the error.
abbrev pub received : List (Result StorageError Bytes) → Result StorageError Bytes
received [] = ok []
received (ok c ∷ sent) = received sent >>= λ rest. ok (c ++ rest)
received (err e ∷ sent) = err e

-- The loop over the disks for one part: for each, the shard index of its part file's metadata and its shard,
-- or `none` when one of them cannot be read. No checksum is verified here.
unfoldable pub place_part :
    ℕ → List (Option (ℕ × Bytes)) → List (Option Bytes) → List (Option Bytes)
place_part total [] slots = slots
place_part total (none ∷ reads) slots = place_part total reads slots
place_part total (some (shard_idx, shard) ∷ reads) slots =
    place_part total reads (if ltb shard_idx total then set_slot shard_idx shard slots else slots)

-- `reed-solomon: `
abbrev pub text_reed_solomon : Bytes
text_reed_solomon =
    114 ∷ 101 ∷ 101 ∷ 100 ∷ 45 ∷ 115 ∷ 111 ∷ 108 ∷ 111 ∷ 109 ∷ 111 ∷ 110 ∷ 58 ∷ 32 ∷ []

-- `rs.reconstruct` by what `ReedSolomon::new` returned, with the text of its error.
abbrev pub reconstruct_with :
    {data_n parity_n : ℕ}
    → Result Bytes (ReedSolomon data_n parity_n)
    → List (Option Bytes)
    → Result StorageError (List (Option Bytes))
reconstruct_with (err e) slots = err (invalid_config (text_reed_solomon ++ e))
reconstruct_with (ok rs) slots = ok_or read_quorum (rs.reconstruct slots)

module _ (new_coder : (data_n parity_n : ℕ) → Result Bytes (ReedSolomon data_n parity_n)) where
  -- The `for part in &meta.parts` loop, each part with what the disks gave for it.
  unfoldable pub read_and_decode_multipart :
      List (PartEntry × List (Option (ℕ × Bytes))) → Result StorageError Bytes
  unfolding place_part data_shards parity_shards
  read_and_decode_multipart [] = ok []
  read_and_decode_multipart ((part, reads) ∷ parts) =
      let data_n = data_shards part.erasure in
      let parity_n = parity_shards part.erasure in
      let slots = place_part (data_n + parity_n) reads (replicate (data_n + parity_n) none) in
      let rebuild = ltb 0 parity_n && ltb (good_count slots) (data_n + parity_n) in
      refuse_if (ltb (good_count slots) data_n) read_quorum
      >> (if rebuild then reconstruct_with (new_coder data_n parity_n) slots else ok slots)
      >>= λ restored. read_and_decode_multipart parts >>= λ rest.
          ok (take part.size (concat (flatten (take data_n restored))) ++ rest)
