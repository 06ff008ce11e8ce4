-- ===== src/Storage/Pool.antt =====
-- src/storage/volume_pool.rs: how many shards an object gets, and the quorums of deleting an object and of
-- making a bucket. The pool's disks are what they answer, in their order; the texts of errors are parameters.
pub mod Quorums
mod Tests
use abixio.Base.{
  ℕ, suc, ◌+◌, ◌-◌, min, Bool, true, false, not, ◌&&◌, ◌||◌, Option, none, some, List, [], ◌∷◌,
  Bytes, ◌==◌, if◌then◌else◌, ltb, leb, length, Result, ok, err, ◌>>=◌, ◌>>◌, refuse_if,
}
use abixio.Storage.{
  StorageError, invalid_config, object_not_found, write_quorum, bucket_exists, bucket_not_found,
}
use abixio.Storage.Metadata.{ObjectMeta, ObjectInfo, PutOptions, data_shards, parity_shards}
use abixio.Storage.Pathing.{validate_bucket_name, validate_object_key}
use abixio.Cluster.Placement.{PlacementVolume}

abbrev pub default_ftt : ℕ → ℕ
default_ftt num_disks = min 1 (num_disks - 1)

-- What a disk answers to `delete_object`.
pub data Deletion : Type 0 where
  deleted absent failed : Deletion

abbrev pub count_done : List Deletion → ℕ
count_done [] = 0
count_done (deleted ∷ answers) = suc (count_done answers)
count_done (absent ∷ answers) = suc (count_done answers)
count_done (failed ∷ answers) = count_done answers

abbrev pub any_deleted : List Deletion → Bool
any_deleted [] = false
any_deleted (deleted ∷ answers) = true
any_deleted (absent ∷ answers) = any_deleted answers
any_deleted (failed ∷ answers) = any_deleted answers

abbrev pub count_true : List Bool → ℕ
count_true [] = 0
count_true (true ∷ bs) = suc (count_true bs)
count_true (false ∷ bs) = count_true bs

abbrev pub meta_to_info : Bytes → Bytes → ObjectMeta → ObjectInfo
meta_to_info bucket key meta = record {
  bucket = bucket;
  key = key;
  size = meta.size;
  etag = meta.etag;
  content_type = meta.content_type;
  created_at = meta.created_at;
  user_metadata = meta.user_metadata;
  tags = meta.tags;
  version_id = meta.version_id;
  is_delete_marker = meta.is_delete_marker;
}

-- The first metadata of the cached entry, or of the first disk that has the object.
unfoldable pub read_ec_from_meta :
    Option (List ObjectMeta) → List (Option ObjectMeta) → Option (ℕ × ℕ)
read_ec_from_meta cached stats = from_cache cached
  where
    from_disks : List (Option ObjectMeta) → Option (ℕ × ℕ)
    from_disks [] = none
    from_disks (none ∷ stats) = from_disks stats
    from_disks (some meta ∷ stats) = some (data_shards meta.erasure, parity_shards meta.erasure)

    from_cache : Option (List ObjectMeta) → Option (ℕ × ℕ)
    from_cache none = from_disks stats
    from_cache (some []) = from_disks stats
    from_cache (some (meta ∷ metas)) = some (data_shards meta.erasure, parity_shards meta.erasure)

-- `head_bucket`, of what the disks say of its existence.
unfoldable pub head_bucket : Bytes → List Bool → Result StorageError Bool
unfolding validate_bucket_name
head_bucket bucket exists = validate_bucket_name bucket >> ok (leb 1 (count_true exists))

-- The disks' part of `delete_object`, after the entry was taken from the write cache.
unfoldable pub delete_answers : ℕ × ℕ → Bool → List Deletion → Result StorageError Unit
delete_answers (data_n, parity_n) was_cached answers =
    if not (any_deleted answers) && not was_cached
    then err object_not_found
    else if was_cached && not (any_deleted answers)
    then ok tt
    else refuse_if (ltb (count_done answers) (if parity_n == 0 then data_n else data_n + 1))
        write_quorum

module _ (ftt_text : ℕ → ℕ → Bytes) (mismatch_text : ℕ → ℕ → Bytes) where
  unfoldable pub ftt_to_ec : ℕ → ℕ → Result StorageError (ℕ × ℕ)
  ftt_to_ec ftt num_disks =
      refuse_if (num_disks == 0 || leb num_disks ftt) (invalid_config (ftt_text ftt num_disks))
      >> ok (num_disks - ftt, ftt)

  abbrev pub ok_else : ℕ × ℕ → Result StorageError (ℕ × ℕ) → ℕ × ℕ
  ok_else other (ok ec) = ec
  ok_else other (err e) = other

  -- The settings of a disk with the failures to tolerate, where the write succeeds.
  abbrev pub write_ftt : ℕ → List (Option ℕ) → List Bool → List (Option ℕ)
  write_ftt ftt [] written = []
  write_ftt ftt (s ∷ settings) [] = s ∷ settings
  write_ftt ftt (s ∷ settings) (true ∷ written) = some ftt ∷ write_ftt ftt settings written
  write_ftt ftt (s ∷ settings) (false ∷ written) = s ∷ write_ftt ftt settings written

  -- The settings of the disks afterwards; an error leaves them as they are. `exists` is what the disks say of
  -- the bucket, `written` whether their writes succeed.
  unfoldable pub set_ftt :
      Bytes → ℕ → List Bool → List (Option ℕ) → List Bool → Result StorageError (List (Option ℕ))
  unfolding validate_bucket_name head_bucket ftt_to_ec
  set_ftt bucket ftt exists settings written =
      validate_bucket_name bucket >> head_bucket bucket exists >>= λ there.
      refuse_if (not there) bucket_not_found
      >> (ftt_to_ec ftt (length settings) >>= λ ec.
          refuse_if (count_true written == 0) write_quorum >> ok (write_ftt ftt settings written))

  abbrev pub settings_or : List (Option ℕ) → Result StorageError (List (Option ℕ)) → List (Option ℕ)
  settings_or settings (ok changed) = changed
  settings_or settings (err e) = settings

  -- The settings of the disks afterwards, with the disks' answers to the test for the bucket, to its creation,
  -- and to the two steps of `set_ftt`, whose result is not looked at.
  unfoldable pub make_bucket :
      Bytes
      → List Bool
      → List Bool
      → List Bool
      → List (Option ℕ)
      → List Bool
      → Result StorageError (List (Option ℕ))
  unfolding validate_bucket_name set_ftt
  make_bucket bucket exists made there settings written =
      validate_bucket_name bucket
      >> refuse_if (ltb 0 (count_true exists)) bucket_exists
      >> refuse_if (count_true made == 0) write_quorum
      >> ok (
          settings_or settings
            (set_ftt bucket (default_ftt (length settings)) there settings written))

  -- The first disk whose settings of the bucket have a valid count of failures to tolerate.
  unfoldable pub bucket_ec : ℕ → List (Option ℕ) → ℕ × ℕ
  unfolding ftt_to_ec
  bucket_ec num_disks [] = ok_else (1, 0) (ftt_to_ec (default_ftt num_disks) num_disks)
  bucket_ec num_disks (none ∷ settings) = bucket_ec num_disks settings
  bucket_ec num_disks (some ftt ∷ settings) =
      ok_else (bucket_ec num_disks settings) (ftt_to_ec ftt num_disks)

  unfoldable pub resolve_ec : ℕ → List (Option ℕ) → PutOptions → Result StorageError (ℕ × ℕ)
  unfolding ftt_to_ec bucket_ec
  resolve_ec num_disks settings opts = by_object opts.ec_ftt
    where
      by_object : Option ℕ → Result StorageError (ℕ × ℕ)
      by_object none = ok (bucket_ec num_disks settings)
      by_object (some ftt) = ftt_to_ec ftt num_disks

  abbrev pub stored_or_bucket_ec : ℕ → List (Option ℕ) → Option (ℕ × ℕ) → ℕ × ℕ
  stored_or_bucket_ec num_disks settings none = bucket_ec num_disks settings
  stored_or_bucket_ec num_disks settings (some ec) = ec

  unfoldable pub delete_object :
      Bytes
      → Bytes
      → Bool
      → List (Option ObjectMeta)
      → List (Option ℕ)
      → List Deletion
      → Result StorageError Unit
  unfolding validate_bucket_name validate_object_key read_ec_from_meta delete_answers
  delete_object bucket key was_cached stats settings answers =
      validate_bucket_name bucket
      >> validate_object_key key
      >> delete_answers
          (stored_or_bucket_ec (length answers) settings (read_ec_from_meta none stats)) was_cached
          answers

  -- The disks of the new topology, when there are as many as the pool has.
  unfoldable pub set_placement_topology :
      ℕ → List PlacementVolume → Result StorageError (List PlacementVolume)
  set_placement_topology num_disks disks =
      refuse_if (not (length disks == num_disks))
        (invalid_config (mismatch_text num_disks (length disks)))
      >> ok disks
