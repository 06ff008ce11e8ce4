-- ===== src/Storage/Erasure/Reads.antt =====
-- src/storage/erasure_decode.rs: what the disks answer, put into slots, and the quorum of the reads.
use abixio.Base.{
  ℕ, zero, suc, ◌+◌, ◌≤◌, ◌<◌, ◌≡◌, refl, sym, ap, ◌∙◌, arith, true, false, ◌&&◌, Option, none,
  some, List, [], ◌∷◌, Bytes, ltb, length, get_elem?, replicate, any, All, Bool-cases, Option-cases,
  inl, inr, Result, ok,
}
use abixio.Storage.{StorageError}
use abixio.Storage.Metadata.{ObjectMeta}
use abixio.Storage.Erasure.{ReedSolomon, Agrees, good_count, encode_body}
use abixio.Storage.Erasure.Split.{concat}
use abixio.Storage.Erasure.Chunks.{encode_body-shards_of, length-shards_of}
use abixio.Storage.Erasure.Stream.{stream-encode_body}
use abixio.Storage.Erasure.Decode.{
  is_some, set_slot, or_first, verify_shard_checksum, place_shard, place_shards, read_slots,
  decode_blocks, read_and_decode_stream, received,
}

pub Agrees-none : (n : ℕ) (full : List Bytes) → length full ≡ n → Agrees (replicate n none) full
Agrees-none zero [] h = tt
Agrees-none zero (f ∷ full) h = absurd (omega arith)
Agrees-none (suc n) [] h = absurd (omega arith)
Agrees-none (suc n) (f ∷ full) h = Agrees-none n full (omega arith)

pub set_slot-Agrees :
    (i : ℕ) (shard : Bytes) (slots : List (Option Bytes)) (full : List Bytes)
    → Agrees slots full
    → get_elem? full i ≡ some shard
    → Agrees (set_slot i shard slots) full
set_slot-Agrees i shard [] full h p = h
set_slot-Agrees i shard (s ∷ slots) [] h p = absurd h
set_slot-Agrees zero shard (none ∷ slots) (f ∷ full) h p = (ground arith, h)
set_slot-Agrees zero shard (some s ∷ slots) (f ∷ full) h p = (ground arith, h.1)
set_slot-Agrees (suc i) shard (none ∷ slots) (f ∷ full) h p = set_slot-Agrees i shard slots full h p
set_slot-Agrees (suc i) shard (some s ∷ slots) (f ∷ full) h p =
    (h.0, set_slot-Agrees i shard slots full h.1 p)

pub good_count-none : (n : ℕ) → good_count (replicate n none) ≡ 0
good_count-none zero = refl
good_count-none (suc n) = good_count-none n

module _ (blake3_hex sha256_hex : Bytes → Bytes) (full : List Bytes) (size : ℕ) where
  -- A read that passes its checksum has the bytes of the shard that its metadata names, of an object of
  -- the size.
  abbrev pub IsGenuine : Option (Bytes × ObjectMeta) → Type 0
  IsGenuine none = Unit
  IsGenuine (some (shard, meta)) =
      verify_shard_checksum blake3_hex sha256_hex shard meta.checksum ≡ true
      → (get_elem? full meta.erasure.index ≡ some shard) × (meta.size ≡ size)

  -- The slots hold shards of the object, and while there is no metadata, none.
  abbrev pub IsPlaced : List (Option Bytes) × Option ObjectMeta → Type 0
  IsPlaced (slots, none) = Agrees slots full × (good_count slots ≡ 0)
  IsPlaced (slots, some meta) = Agrees slots full × (meta.size ≡ size)

  place_shard-IsPlaced :
      (total : ℕ) (shard : Bytes) (meta : ObjectMeta)
      (placed : List (Option Bytes) × Option ObjectMeta)
      → IsGenuine (some (shard, meta))
      → IsPlaced placed
      → IsPlaced (place_shard blake3_hex sha256_hex total (shard, meta) placed)
  unfolding place_shard
  place_shard-IsPlaced total shard meta (slots, good) g h =
      elim (Bool-cases (
        verify_shard_checksum blake3_hex sha256_hex shard meta.checksum
        && ltb meta.erasure.index total)) [
          | inl valid ↦ rw valid (placed_one good h (g (ground arith)))
          | inr bad ↦ rw bad h
        ]
    where
      placed_one :
          (good : Option ObjectMeta)
          → IsPlaced (slots, good)
          → (get_elem? full meta.erasure.index ≡ some shard) × (meta.size ≡ size)
          → IsPlaced (set_slot meta.erasure.index shard slots, or_first good meta)
      placed_one none h g = (set_slot-Agrees meta.erasure.index shard slots full h.0 g.0, g.1)
      placed_one (some first) h g =
          (set_slot-Agrees meta.erasure.index shard slots full h.0 g.0, h.1)

  pub place_shards-IsPlaced :
      (total : ℕ) (reads : List (Option (Bytes × ObjectMeta)))
      (placed : List (Option Bytes) × Option ObjectMeta)
      → All IsGenuine reads
      → IsPlaced placed
      → IsPlaced (place_shards blake3_hex sha256_hex total reads placed)
  unfolding place_shards
  place_shards-IsPlaced total [] placed g h = h
  place_shards-IsPlaced total (none ∷ reads) placed g h =
      place_shards-IsPlaced total reads placed g.1 h
  place_shards-IsPlaced total (some (shard, meta) ∷ reads) placed g h =
      place_shards-IsPlaced total reads
        (place_shard blake3_hex sha256_hex total (shard, meta) placed) g.1
        (place_shard-IsPlaced total shard meta placed g.0 h)

  place_nothing :
      (total : ℕ) (reads : List (Option (Bytes × ObjectMeta)))
      (placed : List (Option Bytes) × Option ObjectMeta)
      → any is_some reads ≡ false
      → place_shards blake3_hex sha256_hex total reads placed ≡ placed
  unfolding place_shards
  place_nothing total [] placed h = refl
  place_nothing total (none ∷ reads) placed h = place_nothing total reads placed h
  place_nothing total (some read ∷ reads) placed h = cc

  placed_without_meta :
      (placed : List (Option Bytes) × Option ObjectMeta)
      → IsPlaced placed
      → placed.1 ≡ none
      → good_count placed.0 ≡ 0
  placed_without_meta (slots, none) h p = h.1
  placed_without_meta (slots, some first) h p = cc

  placed_with_meta :
      (placed : List (Option Bytes) × Option ObjectMeta) {meta : ObjectMeta}
      → IsPlaced placed
      → placed.1 ≡ some meta
      → Agrees placed.0 full × (meta.size ≡ size)
  placed_with_meta (slots, none) h p = cc
  placed_with_meta (slots, some first) {meta} h p =
      let same : first ≡ meta = cc in (h.0, ap (λ (m : ObjectMeta). m.size) (sym same) ∙ h.1)

  -- Genuine reads that fill `data_n` slots pass the quorum, with slots that agree with the shards and
  -- metadata of the object's size.
  pub read_slots-IsPlaced :
      (data_n total : ℕ) (reads : List (Option (Bytes × ObjectMeta)))
      → 0 < data_n
      → length full ≡ total
      → All IsGenuine reads
      → data_n
        ≤ good_count (place_shards blake3_hex sha256_hex total reads (replicate total none, none)).0
      → (slots : List (Option Bytes)) × (meta : ObjectMeta) × (read_slots blake3_hex sha256_hex
            total data_n reads
          ≡ ok (slots, meta))
        × Agrees slots full
        × (data_n ≤ good_count slots)
        × (meta.size ≡ size)
  unfolding read_slots
  read_slots-IsPlaced data_n total reads p l g k =
      let placed : List (Option Bytes) × Option ObjectMeta =
        place_shards blake3_hex sha256_hex total reads (replicate total none, none) in
      let good : IsPlaced placed =
        place_shards-IsPlaced total reads (replicate total none, none) g
          (Agrees-none total full l, good_count-none total) in
      let quorum : ltb (good_count placed.0) data_n ≡ false = ground arith in
      let found : any is_some reads ≡ true = elim (Bool-cases (any is_some reads)) [
        | inl yes_found ↦ yes_found
        | inr nothing ↦ absurd (
            omega (
              arith,
              ap (λ t. good_count t.0)
                  (place_nothing total reads (replicate total none, none) nothing),
              good_count-none total,
            ))
      ] in
      elim (Option-cases placed.1) [
        | inl no_meta ↦ absurd (omega (arith, placed_without_meta placed good no_meta))
        | inr (meta, has_meta) ↦
            let (agree, same) = placed_with_meta placed good has_meta in
            (placed.0, meta, rw (found, has_meta, quorum) refl, agree, k, same)
      ]

module _ {data_n parity_n : ℕ} (rs : ReedSolomon data_n parity_n) (block_size : ℕ) where
  -- An object of at least one data shard, encoded from the chunks of its body with a block size above 0, is
  -- streamed back whole when each read that passes its checksum has what was written to the shard that its
  -- metadata names, with the size of the body, and such reads fill at least `data_n` slots: the read
  -- succeeds, its metadata has the size of the body, and the stream ends without an error, with the body.
  pub stream-reads :
      (blake3_hex sha256_hex : Bytes → Bytes) (chunks : List Bytes)
      (reads : List (Option (Bytes × ObjectMeta)))
      → 0 < data_n
      → 0 < block_size
      → All
          (IsGenuine blake3_hex sha256_hex
            (encode_body rs block_size chunks)
            (length (concat chunks)))
          reads
      → data_n
        ≤ good_count
            (place_shards blake3_hex sha256_hex
              (data_n + parity_n)
              reads
              (replicate (data_n + parity_n) none, none)).0
      → (meta : ObjectMeta) × (sent : List (Result StorageError Bytes)) × (read_and_decode_stream rs
            block_size blake3_hex sha256_hex reads
          ≡ ok (meta, sent))
        × (meta.size ≡ length (concat chunks))
        × (received sent ≡ ok (concat chunks))
  unfolding read_and_decode_stream
  stream-reads blake3_hex sha256_hex chunks reads some_data positive g k =
      let full : List Bytes = encode_body rs block_size chunks in
      let total : length full ≡ data_n + parity_n =
        ap length (encode_body-shards_of rs block_size positive chunks)
        ∙ length-shards_of rs block_size (concat chunks) in
      let (slots, meta, passed, agree, enough, size) =
        read_slots-IsPlaced blake3_hex sha256_hex full (length (concat chunks)) data_n
          (data_n + parity_n) reads some_data total g k in
      (
        meta,
        decode_blocks rs block_size meta.size meta.size slots,
        rw passed refl,
        size,
        rw size (stream-encode_body rs some_data block_size positive chunks slots agree enough),
      )
