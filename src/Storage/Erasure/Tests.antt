-- ===== src/Storage/Erasure/Tests.antt =====
-- Runs of the erasure coding on small objects: a mirror as the coder of one data and one parity shard, and
-- no coder at all.
use abixio.Base.{
  ℕ, ◌≤◌, ◌≡◌, refl, arith, true, false, Option, none, some, List, [], ◌∷◌, Bytes, take, All,
  get_elem?, Result, ok, err,
}
use abixio.Storage.{StorageError, io, write_quorum}
use abixio.Storage.Metadata.{ObjectMeta, ObjectInfo}
use abixio.Storage.Erasure.{
  Agrees, good_count, map_some, encode_body, encode_chunks, write_full_blocks, write_block,
  block_shards, split_data, split_from,
}
use abixio.Storage.Erasure.Samples.{mirror, plain}
use abixio.Storage.Erasure.Split.{concat, take-concat-split_data}
use abixio.Storage.Erasure.Chunks.{encode_body-shards_of, shards_of}
use abixio.Storage.Erasure.Stream.{stream-encode_body}
use abixio.Storage.Erasure.Reads.{IsGenuine, stream-reads}
use abixio.Storage.Erasure.Buffered.{decode_slots-encode_body, decode_slots-two_blocks}
use abixio.Storage.Erasure.Written.{left_shards, lose, encode_and_write-survives, finish-rolls_back}
use abixio.Storage.Erasure.Write.{PutRequest, encode_and_write, finish, object_info}
use abixio.Cluster.Placement.{PlacementRecord, PlanError}
use abixio.Storage.Erasure.Decode.{
  received, decode_blocks, decode_slots, place_shards, place_shard, verify_shard_checksum,
  read_and_decode_stream,
}

abbrev two_chunks : List Bytes
two_chunks = (1 ∷ 2 ∷ 3 ∷ []) ∷ (4 ∷ 5 ∷ []) ∷ []

-- Only the copy is there.
abbrev copy_slots : List (Option Bytes)
copy_slots = none ∷ some (1 ∷ 2 ∷ 3 ∷ 4 ∷ 5 ∷ []) ∷ []

two_chunks_shards :
    encode_body mirror 2 two_chunks ≡ (1 ∷ 2 ∷ 3 ∷ 4 ∷ 5 ∷ []) ∷ (1 ∷ 2 ∷ 3 ∷ 4 ∷ 5 ∷ []) ∷ []
unfolding encode_body encode_chunks write_full_blocks write_block block_shards split_data split_from
two_chunks_shards = refl

copy_slots-agree :
    (b : ℕ)
    → encode_body mirror b two_chunks ≡ (1 ∷ 2 ∷ 3 ∷ 4 ∷ 5 ∷ []) ∷ (1 ∷ 2 ∷ 3 ∷ 4 ∷ 5 ∷ []) ∷ []
    → Agrees copy_slots (encode_body mirror b two_chunks)
copy_slots-agree b h = rw h (refl, tt)

abbrev copy_meta : ObjectMeta
copy_meta = record {
  size = 5;
  etag = [];
  content_type = [];
  created_at = 0;
  erasure = record { ftt = 1; index = 1; epoch_id = 0; volume_ids = [] };
  checksum = 1 ∷ 2 ∷ 3 ∷ 4 ∷ 5 ∷ [];
  user_metadata = [];
  tags = [];
  version_id = [];
  is_latest = true;
  is_delete_marker = false;
  parts = [];
  inline_data = none;
}

abbrev copy_reads : List (Option (Bytes × ObjectMeta))
copy_reads = none ∷ some (1 ∷ 2 ∷ 3 ∷ 4 ∷ 5 ∷ [], copy_meta) ∷ []

abbrev plain_hash : Bytes → Bytes
plain_hash shard = shard

abbrev other_hash : Bytes → Bytes
other_hash shard = 0 ∷ shard

copy_reads-IsGenuine :
    All (IsGenuine plain_hash other_hash (encode_body mirror 2 two_chunks) 5) copy_reads
copy_reads-IsGenuine = (tt, ((λ _. (rw two_chunks_shards refl, refl)), tt))

copy_reads-enough :
    1 ≤ good_count (place_shards plain_hash other_hash 2 copy_reads (none ∷ none ∷ [], none)).0
unfolding place_shards place_shard verify_shard_checksum
copy_reads-enough = omega arith

stream-encode_body_example :
    received (decode_blocks mirror 2 5 5 copy_slots) ≡ ok (1 ∷ 2 ∷ 3 ∷ 4 ∷ 5 ∷ [])
stream-encode_body_example =
    stream-encode_body mirror (omega arith) 2 (omega arith) two_chunks copy_slots
      (copy_slots-agree 2 two_chunks_shards) (omega arith)

encode_body-shards_of_example :
    encode_body mirror 2 two_chunks ≡ shards_of mirror 2 (1 ∷ 2 ∷ 3 ∷ 4 ∷ 5 ∷ [])
encode_body-shards_of_example = encode_body-shards_of mirror 2 (omega arith) two_chunks

stream-reads_example :
    (meta : ObjectMeta) × (sent : List (Result StorageError Bytes)) × (read_and_decode_stream mirror
        2 plain_hash other_hash copy_reads
      ≡ ok (meta, sent))
    × (meta.size ≡ 5)
    × (received sent ≡ ok (1 ∷ 2 ∷ 3 ∷ 4 ∷ 5 ∷ []))
stream-reads_example =
    stream-reads mirror 2 plain_hash other_hash two_chunks copy_reads (omega arith) (omega arith)
      copy_reads-IsGenuine copy_reads-enough

large_block_shards :
    encode_body mirror 8 two_chunks ≡ (1 ∷ 2 ∷ 3 ∷ 4 ∷ 5 ∷ []) ∷ (1 ∷ 2 ∷ 3 ∷ 4 ∷ 5 ∷ []) ∷ []
unfolding encode_body encode_chunks write_full_blocks write_block block_shards split_data split_from
large_block_shards = refl

decode_slots-encode_body_example : decode_slots mirror copy_slots 5 ≡ ok (1 ∷ 2 ∷ 3 ∷ 4 ∷ 5 ∷ [])
decode_slots-encode_body_example =
    decode_slots-encode_body mirror 8 two_chunks copy_slots (omega arith) (omega arith)
      (omega arith) (copy_slots-agree 8 large_block_shards) (omega arith)

decode_slots-two_blocks_example :
    decode_slots (plain 2) (map_some (encode_body (plain 2) 2 ((1 ∷ 2 ∷ 3 ∷ 4 ∷ []) ∷ []))) 4
    ≡ ok (1 ∷ 3 ∷ 2 ∷ 4 ∷ [])
decode_slots-two_blocks_example =
    decode_slots-two_blocks 1 (omega arith) (plain 2) (1 ∷ []) (2 ∷ []) (3 ∷ []) (4 ∷ []) refl refl
      refl refl

take-concat-split_data_example : take 3 (concat (split_data (7 ∷ 8 ∷ 9 ∷ []) 2)) ≡ (7 ∷ 8 ∷ 9 ∷ [])
take-concat-split_data_example = take-concat-split_data (7 ∷ 8 ∷ 9 ∷ []) 2 (omega arith)

-- The fourth byte of the two shards is a zero that fills the last shard.
split_data_pads : split_data (7 ∷ 8 ∷ 9 ∷ []) 2 ≡ (7 ∷ 8 ∷ []) ∷ (9 ∷ 0 ∷ []) ∷ []
unfolding split_data split_from
split_data_pads = refl

abbrev request : PutRequest
request = record {
  bucket = 98 ∷ [];
  key = 107 ∷ [];
  opts = record {
    content_type = 116 ∷ [];
    user_metadata = [];
    tags = [];
    ec_ftt = none;
    precomputed_etag = none;
    skip_md5 = false;
  };
  version_id = none;
  created_at = 0;
}

abbrev two_disks : PlacementRecord
two_disks = record {
  epoch_id = 0;
  cluster_id = [];
  data_n = 1;
  parity_n = 1;
  shards =
      record { index = 0; backend_index = 4; node_id = []; volume_id = [] }
      ∷ record { index = 1; backend_index = 7; node_id = []; volume_id = [] }
      ∷ [];
}

abbrev fast_hash : Bytes → ℕ → Bytes
fast_hash body size = body

abbrev no_text : PlanError → Bytes
no_text e = []

abbrev whole_body : List (Option Bytes)
whole_body = some (1 ∷ 2 ∷ 3 ∷ []) ∷ some (4 ∷ 5 ∷ []) ∷ []

abbrev written_info : ObjectInfo
written_info = object_info plain_hash other_hash fast_hash request (1 ∷ 2 ∷ 3 ∷ 4 ∷ 5 ∷ [])

both_written :
    (encode_and_write plain_hash other_hash fast_hash mirror 2 no_text request
      (ok two_disks)
      none
      whole_body
      true
      (none ∷ none ∷ [])).result
    ≡ ok written_info
unfolding encode_and_write finish
both_written = refl

encode_and_write-survives_example :
    (received (
        decode_blocks mirror 2 5 5
          (lose 0 (left_shards (none ∷ none ∷ []) (encode_body mirror 2 two_chunks))))
      ≡ ok (1 ∷ 2 ∷ 3 ∷ 4 ∷ 5 ∷ []))
    × (◌≡◌ {A = ℕ} 5 5)
encode_and_write-survives_example =
    encode_and_write-survives plain_hash other_hash fast_hash no_text mirror 2 request two_disks
      whole_body two_chunks true (none ∷ none ∷ []) written_info 0 (omega arith) (omega arith)
      (omega arith) refl refl both_written

-- The second writer fails, and one shard is below the write quorum of two.
one_written :
    (finish plain_hash other_hash fast_hash mirror 2 request two_disks two_chunks true
      (none ∷ some io ∷ [])).result
    ≡ err write_quorum
unfolding finish
one_written = refl

finish-rolls_back_example :
    (k : ℕ) × (get_elem?
        (finish plain_hash other_hash fast_hash mirror 2 request two_disks two_chunks true
          (none ∷ some io ∷ [])).deleted
        k
      ≡ some 4)
finish-rolls_back_example =
    finish-rolls_back plain_hash other_hash fast_hash no_text mirror 2 request two_disks two_chunks
      true (none ∷ some io ∷ []) 0
      (record { index = 0; backend_index = 4; node_id = []; volume_id = [] }) one_written refl refl
