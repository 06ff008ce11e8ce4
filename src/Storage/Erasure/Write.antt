-- ===== src/Storage/Erasure/Write.antt =====
-- src/storage/erasure_encode.rs, `encode_and_write`: an object placed, encoded and written to its disks. What
-- the disks answer is given: the first error of opening the writers, and for each writer the error of its
-- `finalize`, if any. The hashes are parameters, and the writes of chunks are taken to succeed.
use abixio.Base.{
  ℕ, suc, ◌+◌, Bool, true, false, ◌&&◌, Option, none, some, List, [], ◌∷◌, Bytes, ◌==◌,
  if◌then◌else◌, ltb, length, is_empty, Result, ok, err, ◌>>=◌,
}
use abixio.Storage.{StorageError, invalid_config, io, write_quorum}
use abixio.Storage.Metadata.{ObjectMeta, ObjectInfo, PutOptions}
use abixio.Storage.Erasure.{ReedSolomon, encode_body}
use abixio.Storage.Erasure.Split.{concat}
use abixio.Cluster.Placement.{PlacementRecord, PlacementShard, PlanError}

-- The chunks of the body, up to its end or an error of the stream.
abbrev pub all_chunks : List (Option Bytes) → Result StorageError (List Bytes)
all_chunks [] = ok []
all_chunks (none ∷ body) = err io
all_chunks (some chunk ∷ body) = all_chunks body >>= λ chunks. ok (chunk ∷ chunks)

abbrev pub octet_stream : Bytes
octet_stream =
    97 ∷ 112 ∷ 112 ∷ 108 ∷ 105 ∷ 99 ∷ 97 ∷ 116 ∷ 105 ∷ 111 ∷ 110 ∷ 47 ∷ 111 ∷ 99 ∷ 116 ∷ 101 ∷ 116
    ∷ 45 ∷ 115 ∷ 116 ∷ 114 ∷ 101 ∷ 97 ∷ 109 ∷ []

abbrev pub content_type_of : PutOptions → Bytes
content_type_of opts = if is_empty opts.content_type then octet_stream else opts.content_type

abbrev pub or_empty : Option Bytes → Bytes
or_empty none = []
or_empty (some version_id) = version_id

-- A request to write an object.
pub record PutRequest : Type 0 where
  pub bucket : Bytes
  pub key : Bytes
  pub opts : PutOptions
  pub version_id : Option Bytes
  pub created_at : ℕ

-- What a write has done: its result, the metadata that was written behind each shard, the disks on which
-- `delete_object(bucket, key)` was called, and whether the object was put into the healing queue.
pub record PutOutcome : Type 0 where
  pub result : Result StorageError ObjectInfo
  pub metas : List ObjectMeta
  pub deleted : List ℕ
  pub queued : Bool

-- A return before anything is finalized.
abbrev pub refused : StorageError → PutOutcome
refused e = record { result = err e; metas = []; deleted = []; queued = false }

-- `errs.iter().filter(|e| e.is_none()).count()`
abbrev pub count_written : List (Option StorageError) → ℕ
count_written [] = 0
count_written (none ∷ errs) = suc (count_written errs)
count_written (some e ∷ errs) = count_written errs

-- The roll-back loop: the disks of the shards that were written.
abbrev pub written_disks : List (Option StorageError) → List PlacementShard → List ℕ
written_disks [] shards = []
written_disks (e ∷ errs) [] = []
written_disks (none ∷ errs) (s ∷ shards) = s.backend_index ∷ written_disks errs shards
written_disks (some e ∷ errs) (s ∷ shards) = written_disks errs shards

abbrev pub map_volumes : List PlacementShard → List Bytes
map_volumes [] = []
map_volumes (s ∷ shards) = s.volume_id ∷ map_volumes shards

module _ (md5_hex blake3_hex : Bytes → Bytes) (xxh64_hex : Bytes → ℕ → Bytes) where
  -- The tag that the client sent, or MD5, or the fast hash with the size.
  abbrev pub etag_of : PutOptions → Bytes → Bytes
  etag_of opts body =
      etag_or opts.precomputed_etag
        (if opts.skip_md5 then xxh64_hex body (length body) else md5_hex body)
    where
      etag_or : Option Bytes → Bytes → Bytes
      etag_or none computed = computed
      etag_or (some etag) computed = etag

  abbrev pub object_info : PutRequest → Bytes → ObjectInfo
  object_info req body = record {
    bucket = req.bucket;
    key = req.key;
    size = length body;
    etag = etag_of req.opts body;
    content_type = content_type_of req.opts;
    created_at = req.created_at;
    user_metadata = req.opts.user_metadata;
    tags = req.opts.tags;
    version_id = or_empty req.version_id;
    is_delete_marker = false;
  }

  abbrev pub shard_meta : PutRequest → Bytes → PlacementRecord → ℕ → ℕ → Bytes → ObjectMeta
  shard_meta req body placement parity_n shard_idx shard = record {
    size = length body;
    etag = etag_of req.opts body;
    content_type = content_type_of req.opts;
    created_at = req.created_at;
    erasure = record {
      ftt = parity_n;
      index = shard_idx;
      epoch_id = placement.epoch_id;
      volume_ids = map_volumes placement.shards;
    };
    checksum = blake3_hex shard;
    user_metadata = req.opts.user_metadata;
    tags = req.opts.tags;
    version_id = or_empty req.version_id;
    is_latest = true;
    is_delete_marker = false;
    parts = [];
    inline_data = none;
  }

  abbrev pub shard_metas :
      PutRequest → Bytes → PlacementRecord → ℕ → ℕ → List Bytes → List ObjectMeta
  shard_metas req body placement parity_n i [] = []
  shard_metas req body placement parity_n i (shard ∷ shards) =
      shard_meta req body placement parity_n i shard
      ∷ shard_metas req body placement parity_n (suc i) shards

  -- One disk and no parity: the chunks are the shard, and an error of the writer is the result.
  unfoldable pub write_1plus0 :
      PutRequest → PlacementRecord → List Bytes → List (Option StorageError) → PutOutcome
  write_1plus0 req placement chunks errs = record {
    result = result_of errs;
    metas = shard_meta req (concat chunks) placement 0 0 (concat chunks) ∷ [];
    deleted = [];
    queued = false;
  }
    where
      result_of : List (Option StorageError) → Result StorageError ObjectInfo
      result_of [] = ok (object_info req (concat chunks))
      result_of (none ∷ errs) = ok (object_info req (concat chunks))
      result_of (some e ∷ errs) = err e

  module _ {data_n parity_n : ℕ} (rs : ReedSolomon data_n parity_n) (stream_block_size : ℕ) where
    abbrev pub write_quorum_of : ℕ
    write_quorum_of = if parity_n == 0 then data_n else data_n + 1

    -- The writers finalized, and the write quorum.
    unfoldable pub finish :
        PutRequest → PlacementRecord → List Bytes → Bool → List (Option StorageError) → PutOutcome
    finish req placement chunks has_mrf errs =
        let metas =
          shard_metas req (concat chunks) placement parity_n 0
            (encode_body rs stream_block_size chunks) in
        if ltb (count_written errs) write_quorum_of
        then record {
          result = err write_quorum;
          metas = metas;
          deleted = written_disks errs placement.shards;
          queued = false;
        }
        else record {
          result = ok (object_info req (concat chunks));
          metas = metas;
          deleted = [];
          queued = ltb (count_written errs) (data_n + parity_n) && has_mrf;
        }

    unfoldable pub encode_and_write :
        (PlanError → Bytes)
        → PutRequest
        → Result PlanError PlacementRecord
        → Option StorageError
        → List (Option Bytes)
        → Bool
        → List (Option StorageError)
        → PutOutcome
    unfolding finish write_1plus0
    encode_and_write error_text req (err e) opened body has_mrf errs =
        refused (invalid_config (error_text e))
    encode_and_write error_text req (ok placement) (some e) body has_mrf errs = refused e
    encode_and_write error_text req (ok placement) none body has_mrf errs =
        written (all_chunks body)
      where
        written : Result StorageError (List Bytes) → PutOutcome
        written (err e) = refused e
        written (ok chunks) =
            if (data_n == 1) && (parity_n == 0)
            then write_1plus0 req placement chunks errs
            else finish req placement chunks has_mrf errs
