-- ===== src/Storage/Pathing/Join.antt =====
-- src/storage/pathing.rs: the directories of buckets, objects, versions and uploads under the root of a volume.
use abixio.Base.{
  Bool, List, [], ◌∷◌, ◌++◌, Bytes, if◌then◌else◌, not, Result, ok, err, ◌>>=◌, ◌>>◌, refuse_if,
}
use abixio.Storage.{StorageError, invalid_object_key, invalid_version_id, invalid_upload_id}
use abixio.Storage.Pathing.{
  Component, split, normalize_path, path_starts, push, push_all, validate_bucket_name,
  validate_object_key,
}

-- The text of a path, for the error.
module _ (text_of : List Component → Bytes) (is_uuid : Bytes → Bool) where
  unfoldable pub safe_join : List Component → List Bytes → Result StorageError (List Component)
  unfolding normalize_path
  safe_join root parts =
      let candidate = push_all root parts in
      if path_starts (normalize_path root) (normalize_path candidate)
      then ok (normalize_path candidate)
      else err (invalid_object_key (text_of candidate))

  unfoldable pub validate_version_id : Bytes → Result StorageError Unit
  validate_version_id version_id =
      refuse_if (not (is_uuid version_id)) (invalid_version_id version_id)

  unfoldable pub validate_upload_id : Bytes → Result StorageError Unit
  validate_upload_id upload_id = refuse_if (not (is_uuid upload_id)) (invalid_upload_id upload_id)

  unfoldable pub bucket_dir : List Component → Bytes → Result StorageError (List Component)
  unfolding safe_join validate_bucket_name
  bucket_dir root bucket = validate_bucket_name bucket >> safe_join root (bucket ∷ [])

  unfoldable pub object_dir : List Component → Bytes → Bytes → Result StorageError (List Component)
  unfolding safe_join validate_bucket_name validate_object_key
  object_dir root bucket key =
      validate_bucket_name bucket
      >> validate_object_key key
      >> safe_join root (bucket ∷ split 47 key)

  -- `meta.json`, `shard.dat`
  abbrev pub text_meta : Bytes
  text_meta = 109 ∷ 101 ∷ 116 ∷ 97 ∷ 46 ∷ 106 ∷ 115 ∷ 111 ∷ 110 ∷ []

  abbrev pub text_shard : Bytes
  text_shard = 115 ∷ 104 ∷ 97 ∷ 114 ∷ 100 ∷ 46 ∷ 100 ∷ 97 ∷ 116 ∷ []

  unfoldable pub object_meta_path :
      List Component → Bytes → Bytes → Result StorageError (List Component)
  unfolding object_dir
  object_meta_path root bucket key = object_dir root bucket key >>= λ dir. ok (push dir text_meta)

  unfoldable pub object_shard_path :
      List Component → Bytes → Bytes → Result StorageError (List Component)
  unfolding object_dir
  object_shard_path root bucket key = object_dir root bucket key >>= λ dir. ok (push dir text_shard)

  unfoldable pub version_dir :
      List Component → Bytes → Bytes → Bytes → Result StorageError (List Component)
  unfolding object_dir validate_version_id
  version_dir root bucket key version_id =
      validate_version_id version_id >> object_dir root bucket key >>= λ dir.
      ok (push dir version_id)

  unfoldable pub version_shard_path :
      List Component → Bytes → Bytes → Bytes → Result StorageError (List Component)
  unfolding version_dir
  version_shard_path root bucket key version_id =
      version_dir root bucket key version_id >>= λ dir. ok (push dir text_shard)

  -- `.abixio.sys`, `buckets`, `multipart`, `settings.json`
  abbrev pub text_sys : Bytes
  text_sys = 46 ∷ 97 ∷ 98 ∷ 105 ∷ 120 ∷ 105 ∷ 111 ∷ 46 ∷ 115 ∷ 121 ∷ 115 ∷ []

  abbrev pub text_buckets : Bytes
  text_buckets = 98 ∷ 117 ∷ 99 ∷ 107 ∷ 101 ∷ 116 ∷ 115 ∷ []

  abbrev pub text_multipart : Bytes
  text_multipart = 109 ∷ 117 ∷ 108 ∷ 116 ∷ 105 ∷ 112 ∷ 97 ∷ 114 ∷ 116 ∷ []

  abbrev pub text_settings : Bytes
  text_settings = 115 ∷ 101 ∷ 116 ∷ 116 ∷ 105 ∷ 110 ∷ 103 ∷ 115 ∷ 46 ∷ 106 ∷ 115 ∷ 111 ∷ 110 ∷ []

  unfoldable pub bucket_settings_dir : List Component → Bytes → Result StorageError (List Component)
  unfolding safe_join validate_bucket_name
  bucket_settings_dir root bucket =
      validate_bucket_name bucket >> safe_join root (text_sys ∷ text_buckets ∷ bucket ∷ [])

  unfoldable pub bucket_settings_path :
      List Component → Bytes → Result StorageError (List Component)
  unfolding bucket_settings_dir
  bucket_settings_path root bucket =
      bucket_settings_dir root bucket >>= λ dir. ok (push dir text_settings)

  unfoldable pub multipart_bucket_dir :
      List Component → Bytes → Result StorageError (List Component)
  unfolding safe_join validate_bucket_name
  multipart_bucket_dir root bucket =
      validate_bucket_name bucket >> safe_join root (text_sys ∷ text_multipart ∷ bucket ∷ [])

  unfoldable pub multipart_upload_dir :
      List Component → Bytes → Bytes → Bytes → Result StorageError (List Component)
  unfolding safe_join validate_bucket_name validate_object_key validate_upload_id
  multipart_upload_dir root bucket key upload_id =
      validate_bucket_name bucket
      >> validate_object_key key
      >> validate_upload_id upload_id
      >> safe_join root (text_sys ∷ text_multipart ∷ bucket ∷ (split 47 key ++ (upload_id ∷ [])))
