-- ===== src/Storage/Needle.antt =====
-- src/storage/needle.rs: the record format of the log segments. A Rust string is its UTF-8 bytes.
-- `xxh64` (crate xxhash-rust) is a parameter. The header is written as the memory of a packed
-- struct, so its words are little endian, as on every target that the project builds for.
pub mod Layout
pub mod RoundTrip
pub mod Reject
mod Tests
pub mod Samples
use abixio.Base.{
  ℕ, ◌+◌, ◌-◌, Bool, not, Option, none, some, List, [], ◌∷◌, ◌++◌, Bytes, length, replicate, ltb,
  ◌==◌, Result, ok, err, ◌>>=◌, ◌>>◌, refuse_if, if◌then◌else◌,
}
use abixio.Base.Slices.{slice_of, write_at}
use abixio.Base.Words.{as_u8, as_u16, as_u32, le_bytes, le_value}
use abixio.Base.Utf8.{is_utf8}
use abixio.Storage.{StorageError, internal, Cause}

abbrev pub needle_magic : ℕ
needle_magic = 0xab1c4e00

abbrev pub header_size : ℕ
header_size = 24

abbrev pub flag_normal : ℕ
flag_normal = 0

abbrev pub flag_delete : ℕ
flag_delete = 1

pub record RawHeader : Type 0 where
  pub magic : ℕ
  pub flags : ℕ
  pub bucket_len : ℕ
  pub key_len : ℕ
  pub meta_len : ℕ
  pub data_len : ℕ
  pub checksum : ℕ
  pub version_id_len : ℕ
  pub pad : ℕ

pub record Needle : Type 0 where
  pub flags : ℕ
  pub bucket : Bytes
  pub key : Bytes
  pub version_id : Bytes
  pub meta_bytes : Bytes
  pub payload : Bytes

abbrev pub or_empty : Option Bytes → Bytes
or_empty none = []
or_empty (some s) = s

-- `Needle::new`; `to_vec` is `rmp_serde::to_vec` on the metadata.
unfoldable pub new :
    {Meta : Type 0}
    → (Meta → Option Bytes)
    → Bytes
    → Bytes
    → Option Bytes
    → Meta
    → Bytes
    → Result StorageError Needle
new to_vec bucket key version_id meta shard_data = elim (to_vec meta) [
  | none ↦ err (internal Cause.msgpack_serialize)
  | some meta_bytes ↦ ok (record {
    flags = flag_normal;
    bucket = bucket;
    key = key;
    version_id = or_empty version_id;
    meta_bytes = meta_bytes;
    payload = shard_data;
  })
]

unfoldable pub tombstone_versioned : Bytes → Bytes → Option Bytes → Needle
tombstone_versioned bucket key version_id = record {
  flags = flag_delete;
  bucket = bucket;
  key = key;
  version_id = or_empty version_id;
  meta_bytes = [];
  payload = [];
}

unfoldable pub tombstone : Bytes → Bytes → Needle
unfolding tombstone_versioned
tombstone bucket key = tombstone_versioned bucket key none

unfoldable pub serialized_size : Needle → ℕ
serialized_size n =
    header_size
    + length n.bucket
    + length n.key
    + length n.version_id
    + length n.meta_bytes
    + length n.payload

-- The 24 bytes of the packed struct.
unfoldable pub header_bytes : RawHeader → Bytes
unfolding le_bytes
header_bytes h =
    le_bytes 4 h.magic
    ++ (le_bytes 1 h.flags
        ++ (le_bytes 1 h.bucket_len
            ++ (le_bytes 2 h.key_len
                ++ (le_bytes 2 h.meta_len
                    ++ (le_bytes 4 h.data_len
                        ++ (le_bytes 8 h.checksum
                            ++ (le_bytes 1 h.version_id_len ++ le_bytes 1 h.pad)))))))

-- `read_unaligned` of the packed struct.
unfoldable pub read_raw : Bytes → RawHeader
unfolding le_value
read_raw buf = record {
  magic = le_value (slice_of buf 0 4);
  flags = le_value (slice_of buf 4 1);
  bucket_len = le_value (slice_of buf 5 1);
  key_len = le_value (slice_of buf 6 2);
  meta_len = le_value (slice_of buf 8 2);
  data_len = le_value (slice_of buf 10 4);
  checksum = le_value (slice_of buf 14 8);
  version_id_len = le_value (slice_of buf 22 1);
  pad = le_value (slice_of buf 23 1);
}

abbrev pub payload_len : RawHeader → ℕ
payload_len h = h.bucket_len + h.key_len + h.version_id_len + h.meta_len + h.data_len

abbrev pub fields : Needle → List Bytes
fields n = n.bucket ∷ n.key ∷ n.version_id ∷ n.meta_bytes ∷ n.payload ∷ []

-- The copies of `serialize_into`, one behind the other from `off` on; `none` is a panic.
unfoldable pub put_fields : ℕ → List Bytes → Bytes → Option Bytes
put_fields off [] dest = some dest
put_fields off (f ∷ fs) dest = elim (write_at dest off f) [
  | none ↦ none
  | some dest' ↦ put_fields (off + length f) fs dest'
]

-- The header that is written for `n`, each length cut to the width of its field.
unfoldable pub header_of : Needle → ℕ → RawHeader
header_of n checksum = record {
  magic = needle_magic;
  flags = n.flags;
  bucket_len = as_u8 (length n.bucket);
  key_len = as_u16 (length n.key);
  meta_len = as_u16 (length n.meta_bytes);
  data_len = as_u32 (length n.payload);
  checksum = checksum;
  version_id_len = as_u8 (length n.version_id);
  pad = 0;
}

-- What `deserialize` returns.
pub record Decoded : Type 0 where
  pub flags : ℕ
  pub bucket : Bytes
  pub key : Bytes
  pub version_id : Bytes
  pub meta_bytes : Bytes
  pub payload : Bytes
  pub total : ℕ

-- What `read_header` returns: offsets in place of copies.
pub record Located : Type 0 where
  pub flags : ℕ
  pub bucket : Bytes
  pub key : Bytes
  pub version_id : Bytes
  pub meta_offset : ℕ
  pub meta_len : ℕ
  pub data_offset : ℕ
  pub data_len : ℕ
  pub total : ℕ

unfoldable pub from_utf8 : Bytes → Cause → Result StorageError Bytes
from_utf8 bs cause = if is_utf8 bs then ok bs else err (internal cause)

-- The part of `deserialize` behind the checks: the fields one after the other.
unfoldable pub decode_parts : Bytes → RawHeader → Result StorageError Decoded
unfolding from_utf8
decode_parts buf h = do
  let key_at = header_size + h.bucket_len
  let version_id_at = key_at + h.key_len
  let meta_at = version_id_at + h.version_id_len
  let data_at = meta_at + h.meta_len
  bucket ← from_utf8 (slice_of buf header_size h.bucket_len) Cause.bad_bucket_utf8
  key ← from_utf8 (slice_of buf key_at h.key_len) Cause.bad_key_utf8
  version_id ← from_utf8 (slice_of buf version_id_at h.version_id_len) Cause.bad_version_id_utf8
  ok (record {
    flags = h.flags;
    bucket = bucket;
    key = key;
    version_id = version_id;
    meta_bytes = slice_of buf meta_at h.meta_len;
    payload = slice_of buf data_at h.data_len;
    total = header_size + payload_len h;
  })

-- The part of `read_header` behind the checks.
unfoldable pub locate_parts : Bytes → RawHeader → Result StorageError Located
unfolding from_utf8
locate_parts buf h = do
  let key_at = header_size + h.bucket_len
  let version_id_at = key_at + h.key_len
  let meta_at = version_id_at + h.version_id_len
  bucket ← from_utf8 (slice_of buf header_size h.bucket_len) Cause.bad_bucket_utf8
  key ← from_utf8 (slice_of buf key_at h.key_len) Cause.bad_key_utf8
  version_id ← from_utf8 (slice_of buf version_id_at h.version_id_len) Cause.bad_version_id_utf8
  ok (record {
    flags = h.flags;
    bucket = bucket;
    key = key;
    version_id = version_id;
    meta_offset = meta_at;
    meta_len = h.meta_len;
    data_offset = meta_at + h.meta_len;
    data_len = h.data_len;
    total = header_size + payload_len h;
  })

module _ (xxh64 : Bytes → ℕ) where
  -- The number of bytes written and the new contents of `dest`; `none` is a panic.
  unfoldable pub serialize_into : Needle → Bytes → Option (ℕ × Bytes)
  serialize_into n dest =
      let total = serialized_size n in
      elim (put_fields header_size (fields n) dest) [
        | none ↦ none
        | some body ↦
            elim (write_at body 0 (
              header_bytes
                (header_of n (xxh64 (slice_of body header_size (total - header_size)))))) [
                  | none ↦ none
                  | some out ↦ some (total, out)
                ]
      ]

  unfoldable pub serialize : Needle → Option Bytes
  unfolding serialize_into
  serialize n = elim (serialize_into n (replicate (serialized_size n) 0)) [
    | none ↦ none
    | some (written, out) ↦ some out
  ]

  -- The checks that `deserialize` and `read_header` share, word for word.
  unfoldable pub checked_header : Bytes → Result StorageError RawHeader
  checked_header buf =
      let h = read_raw buf in
      let total = header_size + payload_len h in
      if ltb (length buf) header_size
      then err (internal Cause.too_short)
      else if not (h.magic == needle_magic)
      then err (internal (Cause.bad_magic h.magic))
      else if ltb (length buf) total
      then err (internal Cause.truncated)
      else if not (xxh64 (slice_of buf header_size (total - header_size)) == h.checksum)
      then err (internal Cause.checksum_mismatch)
      else ok h

  unfoldable pub deserialize : Bytes → Result StorageError Decoded
  deserialize buf = do h ← checked_header buf; decode_parts buf h

  unfoldable pub read_header : Bytes → Result StorageError Located
  read_header buf = do h ← checked_header buf; locate_parts buf h
