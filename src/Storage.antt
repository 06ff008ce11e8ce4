-- ===== src/Storage.antt =====
-- src/storage: the error type that its modules share, and the modules.
pub mod Needle
pub mod Segment
pub mod Wal
pub mod Cache
pub mod Metadata
pub mod Pathing
pub mod LocalVolume
pub mod Pool
pub mod Erasure
use abixio.Base.{ℕ, Bytes}

-- The texts of `StorageError::Internal`.
pub data Cause : Type 0 where
  too_short truncated checksum_mismatch bad_bucket_utf8 bad_key_utf8 bad_version_id_utf8 : Cause
  bad_magic : ℕ → Cause
  msgpack_serialize msgpack_deserialize : Cause
  read_beyond_write_offset too_small_for_superblock bad_segment_magic too_large_for_segment : Cause

-- src/storage/mod.rs, `StorageError`. The operating system's error inside `Io` is not kept.
pub data StorageError : Type 0 where
  bucket_not_found object_not_found bucket_exists bucket_not_empty : StorageError
  write_quorum read_quorum bitrot io : StorageError
  invalid_config invalid_bucket_name invalid_object_key : Bytes → StorageError
  invalid_version_id invalid_upload_id : Bytes → StorageError
  internal : Cause → StorageError
