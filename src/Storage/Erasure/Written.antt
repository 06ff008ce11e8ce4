-- ===== src/Storage/Erasure/Written.antt =====
-- src/storage/erasure_encode.rs with src/storage/erasure_decode.rs: what is left on the disks after a write.
use abixio.Base.{
  ℕ, zero, suc, ◌+◌, ◌≤◌, ◌<◌, ◌≡◌, refl, sym, ap, ◌∙◌, arith, Bool, false, ◌&&◌, Option, none,
  some, List, [], ◌∷◌, Bytes, ◌==◌, ltb, Bool-cases, inl, inr, length, get_elem?, Result, ok, err,
}
use abixio.Storage.{StorageError, write_quorum}
use abixio.Storage.Metadata.{ObjectInfo}
use abixio.Storage.Erasure.{ReedSolomon, Agrees, good_count, encode_body}
use abixio.Storage.Erasure.Split.{concat}
use abixio.Storage.Erasure.Chunks.{encode_body-shards_of, length-shards_of}
use abixio.Storage.Erasure.Stream.{stream-encode_body}
use abixio.Storage.Erasure.Decode.{received, decode_blocks}
use abixio.Storage.Erasure.Write.{
  PutRequest, object_info, all_chunks, count_written, written_disks, write_quorum_of, finish,
  encode_and_write,
}
use abixio.Cluster.Placement.{PlacementRecord, PlacementShard, PlanError}

-- The shards on the disks: those of the writers that were finalized.
abbrev pub left_shards : List (Option StorageError) → List Bytes → List (Option Bytes)
left_shards [] full = []
left_shards (e ∷ errs) [] = []
left_shards (none ∷ errs) (s ∷ full) = some s ∷ left_shards errs full
left_shards (some e ∷ errs) (s ∷ full) = none ∷ left_shards errs full

-- A disk that fails later.
abbrev pub lose : ℕ → List (Option Bytes) → List (Option Bytes)
lose i [] = []
lose zero (s ∷ slots) = none ∷ slots
lose (suc i) (s ∷ slots) = s ∷ lose i slots

left_shards-Agrees :
    (errs : List (Option StorageError)) (full : List Bytes)
    → length errs ≡ length full
    → Agrees (left_shards errs full) full
      × (good_count (left_shards errs full) ≡ count_written errs)
left_shards-Agrees [] [] h = (tt, refl)
left_shards-Agrees [] (s ∷ full) h = absurd (omega arith)
left_shards-Agrees (e ∷ errs) [] h = absurd (omega arith)
left_shards-Agrees (none ∷ errs) (s ∷ full) h =
    let (agree, n) = left_shards-Agrees errs full (omega arith) in ((refl, agree), ap suc n)
left_shards-Agrees (some e ∷ errs) (s ∷ full) h = left_shards-Agrees errs full (omega arith)

lose-Agrees :
    (i : ℕ) (slots : List (Option Bytes)) (full : List Bytes)
    → Agrees slots full
    → Agrees (lose i slots) full × (good_count slots ≤ suc (good_count (lose i slots)))
lose-Agrees i [] full h = (h, omega arith)
lose-Agrees i (s ∷ slots) [] h = absurd h
lose-Agrees zero (none ∷ slots) (f ∷ full) h = (h, omega arith)
lose-Agrees zero (some s ∷ slots) (f ∷ full) h = (h.1, omega arith)
lose-Agrees (suc i) (none ∷ slots) (f ∷ full) h = lose-Agrees i slots full h
lose-Agrees (suc i) (some s ∷ slots) (f ∷ full) h =
    let (agree, n) = lose-Agrees i slots full h.1 in ((h.0, agree), omega arith)

pub written_disks_covers :
    (errs : List (Option StorageError)) (shards : List PlacementShard) (i : ℕ) (s : PlacementShard)
    → get_elem? errs i ≡ some none
    → get_elem? shards i ≡ some s
    → (k : ℕ) × (get_elem? (written_disks errs shards) k ≡ some s.backend_index)
written_disks_covers [] shards i s h p = cc
written_disks_covers (e ∷ errs) [] i s h p = cc
written_disks_covers (none ∷ errs) (t ∷ shards) zero s h p =
    (0, ap some (ap (λ (s : PlacementShard). s.backend_index) (some_eq p)))
  where
    some_eq : {x y : PlacementShard} → ◌≡◌ {A = Option PlacementShard} (some x) (some y) → x ≡ y
    some_eq h = cc
written_disks_covers (some e ∷ errs) (t ∷ shards) zero s h p = cc
written_disks_covers (none ∷ errs) (t ∷ shards) (suc i) s h p =
    let (k, q) = written_disks_covers errs shards i s h p in (suc k, q)
written_disks_covers (some e ∷ errs) (t ∷ shards) (suc i) s h p =
    written_disks_covers errs shards i s h p

module _ (md5_hex blake3_hex : Bytes → Bytes) (xxh64_hex : Bytes → ℕ → Bytes)
    (error_text : PlanError → Bytes) where
  module _ {data_n parity_n : ℕ} (rs : ReedSolomon data_n parity_n) (block_size : ℕ) where
    finished :
        (req : PutRequest) (placement : PlacementRecord) (chunks : List Bytes) (has_mrf : Bool)
        (errs : List (Option StorageError)) (info : ObjectInfo)
        → (finish md5_hex blake3_hex xxh64_hex rs block_size req placement chunks has_mrf
            errs).result
          ≡ ok info
        → 0 < parity_n
        → (data_n < count_written errs) × (info.size ≡ length (concat chunks))
    unfolding finish
    finished req placement chunks has_mrf errs info h coded =
        let some_parity : (parity_n == 0) ≡ false = ground arith in
        elim (Bool-cases (ltb (count_written errs) (data_n + 1))) [
          | inl few ↦ let refused : err write_quorum ≡ ok info = rw (some_parity, few) at h in cc
          | inr enough ↦
              let same : ok (object_info md5_hex blake3_hex xxh64_hex req (concat chunks))
                  ≡ ok info =
                rw (some_parity, enough) at h in
              (ground arith, ap (λ (i : ObjectInfo). i.size) (sym (ok_of same)))
        ]
      where
        ok_of : {x y : ObjectInfo} → ◌≡◌ {A = Result StorageError ObjectInfo} (ok x) (ok y) → x ≡ y
        ok_of h = cc

    -- An object that `encode_and_write` reports as written, with parity, at least one data shard, a block size
    -- above 0 and one answer for each writer, is streamed back whole from the shards that were written, even
    -- when any one of their disks is lost since: the write quorum is one more than the shards a read needs.
    -- The size that is reported is that of the body.
    pub encode_and_write-survives :
        (req : PutRequest) (placement : PlacementRecord) (body : List (Option Bytes))
        (chunks : List Bytes) (has_mrf : Bool) (errs : List (Option StorageError))
        (info : ObjectInfo) (i : ℕ)
        → 0 < data_n
        → 0 < parity_n
        → 0 < block_size
        → length errs ≡ data_n + parity_n
        → all_chunks body ≡ ok chunks
        → (encode_and_write md5_hex blake3_hex xxh64_hex rs block_size error_text req
            (ok placement)
            none
            body
            has_mrf
            errs).result
          ≡ ok info
        → (received (
              decode_blocks rs block_size info.size info.size
                (lose i (left_shards errs (encode_body rs block_size chunks))))
            ≡ ok (concat chunks))
          × (info.size ≡ length (concat chunks))
    unfolding encode_and_write
    encode_and_write-survives req placement body chunks has_mrf errs info i some_data coded positive
          answers all h =
        let not_alone : ((data_n == 1) && (parity_n == 0)) ≡ false = ground arith in
        let (quorum, size) =
          finished req placement chunks has_mrf errs info (rw (all, not_alone) at h) coded in
        let full : List Bytes = encode_body rs block_size chunks in
        let total : length full ≡ data_n + parity_n =
          ap length (encode_body-shards_of rs block_size positive chunks)
          ∙ length-shards_of rs block_size (concat chunks) in
        let (agree, n) = left_shards-Agrees errs full (omega arith) in
        let (left, m) = lose-Agrees i (left_shards errs full) full agree in
        (
          rw size (
              stream-encode_body rs some_data block_size positive chunks
                (lose i (left_shards errs full)) left (omega arith)),
          size,
        )

    -- When the write quorum is missed, `encode_and_write` calls for the deletion of the object on the disk of
    -- every shard that was written.
    pub finish-rolls_back :
        (req : PutRequest) (placement : PlacementRecord) (chunks : List Bytes) (has_mrf : Bool)
        (errs : List (Option StorageError)) (i : ℕ) (s : PlacementShard)
        → (finish md5_hex blake3_hex xxh64_hex rs block_size req placement chunks has_mrf
            errs).result
          ≡ err write_quorum
        → get_elem? errs i ≡ some none
        → get_elem? placement.shards i ≡ some s
        → (k : ℕ) × (get_elem?
              (finish md5_hex blake3_hex xxh64_hex rs block_size req placement chunks has_mrf
                errs).deleted
              k
            ≡ some s.backend_index)
    unfolding finish
    finish-rolls_back req placement chunks has_mrf errs i s h written at_i =
        elim (Bool-cases
          (ltb (count_written errs) (write_quorum_of md5_hex blake3_hex xxh64_hex rs block_size))) [
            | inl few ↦ rw few (written_disks_covers errs placement.shards i s written at_i)
            | inr enough ↦
                let fine : ok (object_info md5_hex blake3_hex xxh64_hex req (concat chunks))
                    ≡ err write_quorum =
                  rw enough at h in
                cc
          ]
