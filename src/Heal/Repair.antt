-- ===== src/Heal/Repair.antt =====
-- src/heal/worker.rs: what the healing of an object writes, and when it does.
use abixio.Base.{
  ℕ, ◌+◌, ◌≤◌, ◌<◌, ◌≡◌, ◌⊎◌, refl, ap, ◌∙◌, arith, Bool, Option, none, some, List, [], ◌++◌, Bytes,
  ◌==◌, if◌then◌else◌, ltb, length, replicate, All, Bool-cases, length-append, length-replicate,
  inl, inr, Result, ok,
}
use abixio.Storage.{StorageError}
use abixio.Storage.Pathing.{validate_bucket_name, validate_object_key}
use abixio.Storage.Metadata.{ObjectMeta, data_shards, parity_shards}
use abixio.Storage.Erasure.Split.{length-parity_of}
use abixio.Storage.Erasure.{ReedSolomon, Agrees, good_count, map_some, parity_of}
use abixio.Storage.Erasure.Agree.{all_good}
use abixio.Storage.Erasure.Reads.{Agrees-none}
use abixio.Storage.Erasure.Decode.{reconstruct_with}
use abixio.Heal.Worker.{
  Repair, HealResult, healthy, repaired, unrecoverable, classify, repairs_from, count_fixed,
  heal_slots, first_meta, find_consensus_meta, heal_object, heal_reads,
}
use abixio.Heal.Missing.{
  IsTrue, classify-Agrees, length-classify, IsRight, lost_from, indices, repairs_from-IsRight,
  All-IsRight,
}

module _ (blake3_hex sha256_hex : Bytes → Bytes) (consensus : ObjectMeta) (full : List Bytes) where
  -- The result of a healing whose slots hold shards of the object.
  abbrev pub IsHealed :
      (ℕ → Bool)
      → List Bytes
      → ℕ
      → List (Option Bytes)
      → Result StorageError (HealResult × List Repair)
      → Type 0
  IsHealed write_ok volumes data_n slots result =
      ((good_count slots ≡ length slots) × (result ≡ ok (healthy, [])))
      ⊎ (((good_count slots < data_n) × (result ≡ ok (unrecoverable, [])))
          ⊎ ((data_n ≤ good_count slots)
              × (repairs : List Repair) × (result
                  ≡ ok (repaired (count_fixed blake3_hex sha256_hex write_ok repairs), repairs))
              × All (IsRight blake3_hex sha256_hex consensus full volumes slots) repairs
              × (indices blake3_hex sha256_hex consensus full repairs
                  ≡ lost_from blake3_hex sha256_hex consensus full volumes 0 slots)))

module _ (blake3_hex sha256_hex : Bytes → Bytes)
    (new_coder : (data_n parity_n : ℕ) → Result Bytes (ReedSolomon data_n parity_n)) where
  -- Enough shards of a codeword give all of them.
  rebuilt-parity_of :
      {data_n parity_n : ℕ} (rs : ReedSolomon data_n parity_n) (size : ℕ) (ds : List Bytes)
      (slots : List (Option Bytes))
      → new_coder data_n parity_n ≡ ok rs
      → 0 < size
      → All (λ d. length d ≡ size) ds
      → length ds ≡ data_n
      → Agrees slots (ds ++ parity_of rs ds)
      → data_n ≤ good_count slots
      → (if parity_n == 0 then ok slots else reconstruct_with (new_coder data_n parity_n) slots)
        ≡ ok (map_some (ds ++ parity_of rs ds))
  rebuilt-parity_of {data_n} {parity_n} rs size ds slots made p sizes l h k =
      elim (Bool-cases (parity_n == 0)) [
        | inl e ↦
            rw e
              (ap ok (all_good slots (ds ++ []) (rw e at h) (omega (arith, length-append ds []))))
        | inr e ↦ rw (e, made, rs.reconstruct-encode size ds slots p sizes l (rw e at h) k) refl
      ]

  heal_slots-IsHealed :
      (write_ok : ℕ → Bool) (volumes : List Bytes) (consensus : ObjectMeta)
      (data_n parity_n size : ℕ) (rs : ReedSolomon data_n parity_n) (ds : List Bytes)
      (slots : List (Option Bytes))
      → new_coder data_n parity_n ≡ ok rs
      → 0 < size
      → All (λ d. length d ≡ size) ds
      → length ds ≡ data_n
      → Agrees slots (ds ++ parity_of rs ds)
      → length slots ≡ data_n + parity_n
      → IsHealed blake3_hex sha256_hex consensus
          (ds ++ parity_of rs ds)
          write_ok
          volumes
          data_n
          slots
          (heal_slots blake3_hex sha256_hex new_coder write_ok volumes consensus data_n parity_n
            slots)
  unfolding heal_slots
  heal_slots-IsHealed write_ok volumes consensus data_n parity_n size rs ds slots made p sizes l
        agree total =
      let full : List Bytes = ds ++ parity_of rs ds in
      let long : length slots ≡ length full =
        omega (arith, length-append ds (parity_of rs ds), length-parity_of rs ds) in
      let (right, all) =
        repairs_from-IsRight blake3_hex sha256_hex consensus full volumes 0 slots full long in
      elim (Bool-cases (good_count slots == length slots)) [
        | inl every ↦ inl (ground arith, rw every refl)
        | inr missing ↦ elim (Bool-cases (ltb (good_count slots) data_n)) [
          | inl few ↦ inr (inl (ground arith, rw (missing, few) refl))
          | inr enough ↦
              let have : data_n ≤ good_count slots = ground arith in
              inr (
                inr (
                  have,
                  repairs_from blake3_hex sha256_hex volumes consensus 0 slots (map_some full),
                  rw (missing, enough, rebuilt-parity_of rs size ds slots made p sizes l agree have)
                      refl,
                  All-IsRight blake3_hex sha256_hex consensus full volumes slots _ right,
                  all,
                ))
        ]
      ]

  -- For a bucket and a key with valid names, when a consensus is found, the shards that agree with the consensus and pass their
  -- checksum are those of an object of equal, non-empty data shards and their parity shards, and the coder can be made,
  -- `heal_object` reports the object as healthy with every shard there, gives it up with fewer than the data
  -- shards, and otherwise rebuilds it: it writes exactly the missing shards whose disk is there, each once and in order,
  -- with the bytes the shard had, to the shard's disk, with the metadata of the consensus under its index and with its
  -- checksum, and the result counts the writes that succeed. It does not fail.
  pub heal_object-IsHealed :
      (write_ok : ℕ → Bool) (volumes : List Bytes) (reads : List (Option (Bytes × ObjectMeta)))
      (bucket key : Bytes) (first consensus : ObjectMeta) (size : ℕ)
      (rs : ReedSolomon (data_shards first.erasure) (parity_shards first.erasure)) (ds : List Bytes)
      → validate_bucket_name bucket ≡ ok tt
      → validate_object_key key ≡ ok tt
      → first_meta reads ≡ some first
      → find_consensus_meta reads (data_shards first.erasure) ≡ ok consensus
      → new_coder (data_shards first.erasure) (parity_shards first.erasure) ≡ ok rs
      → 0 < size
      → All (λ d. length d ≡ size) ds
      → length ds ≡ data_shards first.erasure
      → All (IsTrue blake3_hex sha256_hex consensus (ds ++ parity_of rs ds)) reads
      → IsHealed blake3_hex sha256_hex consensus
          (ds ++ parity_of rs ds)
          write_ok
          volumes
          (data_shards first.erasure)
          (classify blake3_hex sha256_hex consensus
            (data_shards first.erasure + parity_shards first.erasure)
            reads
            (replicate (data_shards first.erasure + parity_shards first.erasure) none))
          (heal_object blake3_hex sha256_hex new_coder write_ok volumes reads bucket key)
  unfolding heal_object heal_reads
  heal_object-IsHealed write_ok volumes reads bucket key first consensus size rs ds named keyed
        has_first agreed made p sizes l true_reads =
      let data_n : ℕ = data_shards first.erasure in
      let parity_n : ℕ = parity_shards first.erasure in
      let full : List Bytes = ds ++ parity_of rs ds in
      let total : length full ≡ data_n + parity_n =
        omega (arith, length-append ds (parity_of rs ds), length-parity_of rs ds) in
      rw (named, keyed, has_first, agreed)
        (heal_slots-IsHealed write_ok volumes consensus data_n parity_n size rs ds
          (classify blake3_hex sha256_hex consensus (data_n + parity_n) reads
            (replicate (data_n + parity_n) none))
          made p sizes l
          (classify-Agrees blake3_hex sha256_hex consensus full (data_n + parity_n) reads
            (replicate (data_n + parity_n) none) true_reads
            (Agrees-none (data_n + parity_n) full total))
          (length-classify blake3_hex sha256_hex consensus full (data_n + parity_n) reads _
            ∙ length-replicate (data_n + parity_n) none))
