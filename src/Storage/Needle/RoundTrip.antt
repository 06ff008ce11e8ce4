-- ===== src/Storage/Needle/RoundTrip.antt =====
-- What `deserialize` and `read_header` make of the bytes that `serialize` wrote.
use abixio.Base.{
  ℕ, ◌+◌, ◌-◌, ◌≡◌, refl, ap, sym, ◌∙◌, arith, true, some, List, [], ◌∷◌, ◌++◌, Bytes, length,
  length-append, ok,
}
use mathlib.Core.List.{append_assoc}
use abixio.Base.Slices.{slice_of, slice_of-append}
use abixio.Base.Words.{IsU8, IsU16, IsU32, IsU64, le_value-le_bytes}
use abixio.Base.Utf8.{is_utf8}
use abixio.Storage.Needle.{
  Needle, RawHeader, header_bytes, read_raw, header_of, payload_len, header_size, needle_magic,
  serialized_size, checked_header, serialize, deserialize, read_header, decode_parts, locate_parts,
  Decoded, Located,
}
use abixio.Storage.Needle.Layout.{
  joined, joined-append, payload_of, length-payload_of, image, length-header_bytes, length-image,
  serialize-image,
}

-- Every word of the header fits its field.
pub record IsWide (h : RawHeader) : Type 0 where
  pub magic : IsU32 h.magic
  pub flags : IsU8 h.flags
  pub bucket_len : IsU8 h.bucket_len
  pub key_len : IsU16 h.key_len
  pub meta_len : IsU16 h.meta_len
  pub data_len : IsU32 h.data_len
  pub checksum : IsU64 h.checksum
  pub version_id_len : IsU8 h.version_id_len
  pub pad : IsU8 h.pad

pub read_raw-header_bytes :
    (h : RawHeader) (rest : Bytes) → IsWide h → read_raw (header_bytes h ++ rest) ≡ h
unfolding read_raw header_bytes
read_raw-header_bytes h rest w = ground (
  arith,
  le_value-le_bytes 4 h.magic,
  le_value-le_bytes 1 h.flags,
  le_value-le_bytes 1 h.bucket_len,
  le_value-le_bytes 2 h.key_len,
  le_value-le_bytes 2 h.meta_len,
  le_value-le_bytes 4 h.data_len,
  le_value-le_bytes 8 h.checksum,
  le_value-le_bytes 1 h.version_id_len,
  le_value-le_bytes 1 h.pad,
)

-- What a needle must satisfy for its header to hold its lengths. Rust's `String` gives the UTF-8.
pub record IsEncodable (n : Needle) : Type 0 where
  pub flags : IsU8 n.flags
  pub bucket : IsU8 (length n.bucket)
  pub key : IsU16 (length n.key)
  pub version_id : IsU8 (length n.version_id)
  pub meta_bytes : IsU16 (length n.meta_bytes)
  pub payload : IsU32 (length n.payload)
  pub bucket_utf8 : is_utf8 n.bucket ≡ true
  pub key_utf8 : is_utf8 n.key ≡ true
  pub version_id_utf8 : is_utf8 n.version_id ≡ true

-- The header with the lengths themselves.
abbrev pub plain_header : Needle → ℕ → RawHeader
plain_header n checksum = record {
  magic = needle_magic;
  flags = n.flags;
  bucket_len = length n.bucket;
  key_len = length n.key;
  meta_len = length n.meta_bytes;
  data_len = length n.payload;
  checksum = checksum;
  version_id_len = length n.version_id;
  pad = 0;
}

pub header_of-plain : (n : Needle) (c : ℕ) → IsEncodable n → header_of n c ≡ plain_header n c
unfolding header_of
header_of-plain n c e = ground arith

pub plain_header-IsWide : (n : Needle) (c : ℕ) → IsEncodable n → IsU64 c → IsWide (plain_header n c)
plain_header-IsWide n c e u = omega arith

-- Slices of a record are slices of what follows its header.
pub slice_of-image :
    (h : RawHeader) (pre mid post : Bytes) (off len : ℕ)
    → off ≡ header_size + length pre
    → length mid ≡ len
    → slice_of (header_bytes h ++ (pre ++ (mid ++ post))) off len ≡ mid
slice_of-image h pre mid post off len p q =
    ap (λ (b : Bytes). slice_of b off len) (sym (append_assoc (header_bytes h) pre (mid ++ post)))
    ∙ slice_of-append (header_bytes h ++ pre) mid post off len
        (omega (arith, length-append (header_bytes h) pre, length-header_bytes h)) q

field_at :
    (h : RawHeader) (before : List Bytes) (f : Bytes) (after : List Bytes) (rest : Bytes)
    (off len : ℕ)
    → off ≡ header_size + length (joined before)
    → length f ≡ len
    → slice_of (header_bytes h ++ (joined (before ++ f ∷ after) ++ rest)) off len ≡ f
field_at h before f after rest off len p q =
    rw (joined-append, append_assoc, append_assoc)
      (slice_of-image h (joined before) f (joined after ++ rest) off len p q)

abbrev pub decoded : Needle → Decoded
decoded n = record {
  flags = n.flags;
  bucket = n.bucket;
  key = n.key;
  version_id = n.version_id;
  meta_bytes = n.meta_bytes;
  payload = n.payload;
  total = serialized_size n;
}

-- Where `serialize` puts the metadata and the data.
abbrev pub located : Needle → Located
located n =
    let meta_at = header_size + length n.bucket + length n.key + length n.version_id in
    record {
      flags = n.flags;
      bucket = n.bucket;
      key = n.key;
      version_id = n.version_id;
      meta_offset = meta_at;
      meta_len = length n.meta_bytes;
      data_offset = meta_at + length n.meta_bytes;
      data_len = length n.payload;
      total = serialized_size n;
    }

module _ (xxh64 : Bytes → ℕ) (u64 : (b : Bytes) → IsU64 (xxh64 b)) where
  module _ (n : Needle) (rest : Bytes) (e : IsEncodable n) where
    pub image-plain :
        image xxh64 n ++ rest
        ≡ header_bytes (plain_header n (xxh64 (payload_of n))) ++ (payload_of n ++ rest)
    image-plain =
        rw (header_of-plain n (xxh64 (payload_of n)) e)
          (append_assoc (header_bytes (plain_header n (xxh64 (payload_of n)))) (payload_of n) rest)

    -- Where each field lies.
    bucket_cut : slice_of (image xxh64 n ++ rest) header_size (length n.bucket) ≡ n.bucket
    bucket_cut = rw image-plain (
        field_at _ [] n.bucket (n.key ∷ n.version_id ∷ n.meta_bytes ∷ n.payload ∷ []) rest
          header_size _ (omega arith) refl)

    key_cut :
        slice_of (image xxh64 n ++ rest) (header_size + length n.bucket) (length n.key) ≡ n.key
    key_cut = rw image-plain (
        field_at _ (n.bucket ∷ []) n.key (n.version_id ∷ n.meta_bytes ∷ n.payload ∷ []) rest _ _
          (omega (arith, length-append {0})) refl)

    version_id_cut :
        slice_of
          (image xxh64 n ++ rest)
          (header_size + length n.bucket + length n.key)
          (length n.version_id)
        ≡ n.version_id
    version_id_cut = rw image-plain (
        field_at _ (n.bucket ∷ n.key ∷ []) n.version_id (n.meta_bytes ∷ n.payload ∷ []) rest _ _
          (omega (arith, length-append {0})) refl)

    pub meta_cut :
        slice_of
          (image xxh64 n ++ rest)
          (header_size + length n.bucket + length n.key + length n.version_id)
          (length n.meta_bytes)
        ≡ n.meta_bytes
    meta_cut = rw image-plain (
        field_at _ (n.bucket ∷ n.key ∷ n.version_id ∷ []) n.meta_bytes (n.payload ∷ []) rest _ _
          (omega (arith, length-append {0})) refl)

    pub data_cut :
        slice_of
          (image xxh64 n ++ rest)
          (header_size + length n.bucket + length n.key + length n.version_id + length n.meta_bytes)
          (length n.payload)
        ≡ n.payload
    data_cut = rw image-plain (
        field_at _ (n.bucket ∷ n.key ∷ n.version_id ∷ n.meta_bytes ∷ []) n.payload [] rest _ _
          (omega (arith, length-append {0})) refl)

    pub payload_cut :
        (k : ℕ)
        → k ≡ length (payload_of n)
        → slice_of (image xxh64 n ++ rest) header_size k ≡ payload_of n
    payload_cut k p = rw image-plain (
        slice_of-image (plain_header n (xxh64 (payload_of n))) [] (payload_of n) rest header_size k
          (omega arith) (sym p))

    pub long_enough : length (image xxh64 n ++ rest) ≡ serialized_size n + length rest
    long_enough = omega (arith, length-append (image xxh64 n) rest, length-image xxh64 n)

    pub checked_header-image :
        checked_header xxh64 (image xxh64 n ++ rest) ≡ ok (plain_header n (xxh64 (payload_of n)))
    unfolding checked_header serialized_size
    checked_header-image =
        let h = plain_header n (xxh64 (payload_of n)) in
        let raw : read_raw (image xxh64 n ++ rest) ≡ h =
          rw image-plain (read_raw-header_bytes h _ (plain_header-IsWide n _ e (u64 _))) in
        let hashed =
          payload_cut (header_size + payload_len h - header_size)
            (omega (arith, length-payload_of n)) in
        rw (raw, checked_header) (ground (arith, hashed, long_enough))

    -- Reading a written needle back, whatever bytes follow it.
    pub deserialize-image : deserialize xxh64 (image xxh64 n ++ rest) ≡ ok (decoded n)
    unfolding deserialize decode_parts serialized_size
    deserialize-image =
        rw (checked_header-image, deserialize)
          (ground (
            arith, e.bucket_utf8, e.key_utf8, e.version_id_utf8, bucket_cut, key_cut,
            version_id_cut, meta_cut, data_cut,
          ))

    pub read_header-image : read_header xxh64 (image xxh64 n ++ rest) ≡ ok (located n)
    unfolding read_header locate_parts serialized_size
    read_header-image =
        rw (checked_header-image, read_header)
          (ground (
            arith, e.bucket_utf8, e.key_utf8, e.version_id_utf8, bucket_cut, key_cut,
            version_id_cut,
          ))

  -- An encodable needle is serialised without a panic into exactly `serialized_size` bytes, and
  -- `deserialize` returns its fields from those bytes, whatever follows them.
  pub deserialize-serialize :
      (n : Needle) (rest : Bytes)
      → IsEncodable n
      → (buf : Bytes) × (serialize xxh64 n ≡ some buf)
        × (length buf ≡ serialized_size n)
        × (deserialize xxh64 (buf ++ rest) ≡ ok (decoded n))
  deserialize-serialize n rest e =
      (image xxh64 n, serialize-image xxh64 n, length-image xxh64 n, deserialize-image n rest e)

  -- `read_header` accepts the same bytes, and the ranges that it returns hold the metadata and the
  -- shard data.
  pub read_header-serialize :
      (n : Needle) (rest : Bytes)
      → IsEncodable n
      → (buf : Bytes) × (serialize xxh64 n ≡ some buf)
        × (read_header xxh64 (buf ++ rest) ≡ ok (located n))
        × (slice_of (buf ++ rest) (located n).meta_offset (located n).meta_len ≡ n.meta_bytes)
        × (slice_of (buf ++ rest) (located n).data_offset (located n).data_len ≡ n.payload)
  read_header-serialize n rest e = (
    image xxh64 n,
    serialize-image xxh64 n,
    read_header-image n rest e,
    meta_cut n rest e,
    data_cut n rest e,
  )
