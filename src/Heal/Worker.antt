-- ===== src/Heal/Worker.antt =====
-- src/heal/worker.rs: the healing of one object. What the disks answer to the reads is given in their order, as
-- are their volume identifiers and whether a write to a disk succeeds.
use abixio.Base.{
  ℕ, suc, ◌+◌, Bool, ◌&&◌, Option, none, some, List, [], ◌∷◌, Bytes, ◌==◌, if◌then◌else◌, ltb, leb,
  length, replicate, get_elem?, str_eq, Result, ok, err, ◌>>=◌, ◌>>◌,
}
use abixio.Storage.{StorageError, object_not_found, read_quorum}
use abixio.Storage.Metadata.{ObjectMeta, data_shards, parity_shards, quorum_eq}
use abixio.Storage.Pathing.{validate_bucket_name, validate_object_key}
use abixio.Storage.Erasure.{ReedSolomon, good_count}
use abixio.Storage.Erasure.Decode.{set_slot, verify_shard_checksum, reconstruct_with, ok_or}

-- A shard that is written back, and the disk it goes to.
pub record Repair : Type 0 where
  pub disk_idx : ℕ
  pub shard : Bytes
  pub meta : ObjectMeta

pub data HealResult : Type 0 where
  healthy : HealResult
  repaired : ℕ → HealResult
  unrecoverable : HealResult

-- `if let Some(g) = groups.iter_mut().find(..)`
unfoldable pub add_meta : ObjectMeta → List (ObjectMeta × ℕ) → List (ObjectMeta × ℕ)
add_meta meta [] = (meta, 1) ∷ []
add_meta meta ((m, count) ∷ groups) =
    let later = add_meta meta groups in
    if quorum_eq m meta then (m, count + 1) ∷ groups else (m, count) ∷ later

unfoldable pub group_metas :
    List (Option (Bytes × ObjectMeta)) → List (ObjectMeta × ℕ) → List (ObjectMeta × ℕ)
unfolding add_meta
group_metas [] groups = groups
group_metas (none ∷ reads) groups = group_metas reads groups
group_metas (some (shard, meta) ∷ reads) groups = group_metas reads (add_meta meta groups)

-- The head after the stable sort: the first of the groups with the highest count.
abbrev pub best_group : ObjectMeta × ℕ → List (ObjectMeta × ℕ) → ObjectMeta × ℕ
best_group best [] = best
best_group best (g ∷ groups) = best_group (if ltb best.1 g.1 then g else best) groups

unfoldable pub find_consensus_meta :
    List (Option (Bytes × ObjectMeta)) → ℕ → Result StorageError ObjectMeta
unfolding group_metas
find_consensus_meta reads data_n = pick (group_metas reads [])
  where
    pick : List (ObjectMeta × ℕ) → Result StorageError ObjectMeta
    pick [] = err object_not_found
    pick (g ∷ groups) =
        let best = best_group g groups in if ltb best.1 data_n then err read_quorum else ok best.0

abbrev pub first_meta : List (Option (Bytes × ObjectMeta)) → Option ObjectMeta
first_meta [] = none
first_meta (none ∷ reads) = first_meta reads
first_meta (some (shard, meta) ∷ reads) = some meta

-- `vol_map.get(vid)`: the last disk with the identifier.
abbrev pub disk_of : Bytes → ℕ → List Bytes → Option ℕ
disk_of vid i [] = none
disk_of vid i (v ∷ volumes) = or_here (disk_of vid (suc i) volumes) (str_eq v vid)
  where
    or_here : Option ℕ → Bool → Option ℕ
    or_here (some later) here = some later
    or_here none here = if here then some i else none

-- The disk of a shard, by the volume identifier of the metadata, or else the shard's own index.
abbrev pub target_disk : List Bytes → ObjectMeta → ℕ → ℕ
target_disk volumes meta shard_idx = index_or (get_elem? meta.erasure.volume_ids shard_idx)
  where
    or_own : Option ℕ → ℕ
    or_own none = shard_idx
    or_own (some i) = i

    index_or : Option Bytes → ℕ
    index_or none = shard_idx
    index_or (some vid) = or_own (disk_of vid 0 volumes)

module _ (blake3_hex sha256_hex : Bytes → Bytes) where
  -- The loop that classifies the reads: a slot that is filled is a good shard.
  unfoldable pub classify :
      ObjectMeta
      → ℕ
      → List (Option (Bytes × ObjectMeta))
      → List (Option Bytes)
      → List (Option Bytes)
  unfolding verify_shard_checksum
  classify consensus total [] slots = slots
  classify consensus total (none ∷ reads) slots = classify consensus total reads slots
  classify consensus total (some (shard, meta) ∷ reads) slots = classify consensus total reads (
      if ltb meta.erasure.index total
        && quorum_eq meta consensus
        && verify_shard_checksum blake3_hex sha256_hex shard meta.checksum
      then set_slot meta.erasure.index shard slots
      else slots)

  abbrev pub repair_meta : ObjectMeta → ℕ → Bytes → ObjectMeta
  repair_meta consensus shard_idx shard = record consensus {
    erasure = record consensus.erasure { index = shard_idx };
    checksum = blake3_hex shard;
  }

  -- Step 5: each slot that was empty, with the shard that was rebuilt for it.
  unfoldable pub repairs_from :
      List Bytes → ObjectMeta → ℕ → List (Option Bytes) → List (Option Bytes) → List Repair
  repairs_from volumes consensus i [] rebuilt = []
  repairs_from volumes consensus i (s ∷ slots) [] = []
  repairs_from volumes consensus i (some s ∷ slots) (r ∷ rebuilt) =
      repairs_from volumes consensus (suc i) slots rebuilt
  repairs_from volumes consensus i (none ∷ slots) (none ∷ rebuilt) =
      repairs_from volumes consensus (suc i) slots rebuilt
  repairs_from volumes consensus i (none ∷ slots) (some shard ∷ rebuilt) =
      let later = repairs_from volumes consensus (suc i) slots rebuilt in
      let disk_idx = target_disk volumes consensus i in
      if leb (length volumes) disk_idx
      then later
      else record { disk_idx = disk_idx; shard = shard; meta = repair_meta consensus i shard }
        ∷ later

  -- The writes that succeed.
  abbrev pub count_fixed : (ℕ → Bool) → List Repair → ℕ
  count_fixed write_ok [] = 0
  count_fixed write_ok (r ∷ repairs) =
      (if write_ok r.disk_idx then 1 else 0) + count_fixed write_ok repairs

  module _ (new_coder : (data_n parity_n : ℕ) → Result Bytes (ReedSolomon data_n parity_n)) where
    -- From the slots on: the result and the writes.
    unfoldable pub heal_slots :
        (ℕ → Bool)
        → List Bytes
        → ObjectMeta
        → ℕ
        → ℕ
        → List (Option Bytes)
        → Result StorageError (HealResult × List Repair)
    unfolding repairs_from
    heal_slots write_ok volumes consensus data_n parity_n slots =
        if good_count slots == length slots
        then ok (healthy, [])
        else if ltb (good_count slots) data_n
        then ok (unrecoverable, [])
        else (if parity_n == 0
            then ok slots
            else reconstruct_with (new_coder data_n parity_n) slots)
          >>= rebuild
      where
        rebuild : List (Option Bytes) → Result StorageError (HealResult × List Repair)
        rebuild rebuilt =
            let repairs = repairs_from volumes consensus 0 slots rebuilt in
            ok (repaired (count_fixed write_ok repairs), repairs)

    -- The rest of `heal_object`, behind its two validations.
    unfoldable pub heal_reads :
        (ℕ → Bool)
        → List Bytes
        → List (Option (Bytes × ObjectMeta))
        → Result StorageError (HealResult × List Repair)
    unfolding find_consensus_meta classify heal_slots
    heal_reads write_ok volumes reads = ok_or object_not_found (first_meta reads) >>= λ first.
        find_consensus_meta reads (data_shards first.erasure) >>= λ consensus.
        let total = data_shards first.erasure + parity_shards first.erasure in
        heal_slots write_ok volumes consensus (data_shards first.erasure)
          (parity_shards first.erasure) (classify consensus total reads (replicate total none))

    unfoldable pub heal_object :
        (ℕ → Bool)
        → List Bytes
        → List (Option (Bytes × ObjectMeta))
        → Bytes
        → Bytes
        → Result StorageError (HealResult × List Repair)
    unfolding validate_bucket_name validate_object_key heal_reads
    heal_object write_ok volumes reads bucket key =
        validate_bucket_name bucket >> validate_object_key key >> heal_reads write_ok volumes reads
