-- ===== src/Storage/Needle/Tests.antt =====
-- A needle at work, and the theorems at concrete inputs.
use abixio.Base.{◌≡◌, refl, arith, some, [], ◌∷◌, ◌++◌, Bytes, length, drop, ok, err, take}
use abixio.Base.Words.{le_value}
use abixio.Base.Slices.{slice_of, write_at}
use abixio.Base.Utf8.{is_utf8}
use abixio.Storage.{internal, Cause}
use abixio.Storage.Needle.{
  tombstone, serialize, serialize_into, serialized_size, deserialize, read_header, header_bytes,
  checked_header, read_raw, put_fields, header_of, decode_parts,
}
use abixio.Storage.Needle.Samples.{value_hash, value_hash-IsU64, small, small-IsEncodable}
use abixio.Storage.Needle.Layout.{image, payload_of, serialize_into-image}
use abixio.Storage.Needle.RoundTrip.{
  decoded, located, plain_header, deserialize-serialize, read_header-serialize,
}
use abixio.Storage.Needle.Reject.{
  deserialize_truncated, deserialize_corrupted, deserialize-read_header, Agrees,
}

tombstone_reads_back :
    (buf : Bytes) × (serialize value_hash (tombstone (b'b' ∷ []) (b'k' ∷ [])) ≡ some buf)
    × (deserialize value_hash buf
        ≡ ok (record {
          flags = 1;
          bucket = b'b' ∷ [];
          key = b'k' ∷ [];
          version_id = [];
          meta_bytes = [];
          payload = [];
          total = 26;
        }))
unfolding serialize deserialize tombstone header_bytes checked_header read_raw put_fields write_at
    header_of is_utf8 decode_parts serialized_size le_value
tombstone_reads_back = (_, refl, refl)

deserialize-serialize_example :
    (buf : Bytes) × (serialize value_hash small ≡ some buf)
    × (length buf ≡ serialized_size small)
    × (deserialize value_hash (buf ++ 9 ∷ []) ≡ ok (decoded small))
deserialize-serialize_example =
    deserialize-serialize value_hash value_hash-IsU64 small (9 ∷ []) small-IsEncodable

read_header-serialize_example :
    (buf : Bytes) × (serialize value_hash small ≡ some buf)
    × (read_header value_hash (buf ++ 9 ∷ []) ≡ ok (located small))
    × (slice_of (buf ++ 9 ∷ []) (located small).meta_offset (located small).meta_len ≡ 1 ∷ 2 ∷ [])
    × (slice_of (buf ++ 9 ∷ []) (located small).data_offset (located small).data_len ≡ 7 ∷ [])
read_header-serialize_example =
    read_header-serialize value_hash value_hash-IsU64 small (9 ∷ []) small-IsEncodable

serialize_into-image_example :
    serialize_into value_hash small (take 40 (image value_hash small ++ image value_hash small))
    ≡ some (
      serialized_size small,
      image value_hash small
          ++ drop
              (serialized_size small)
              (take 40 (image value_hash small ++ image value_hash small)),
    )
unfolding serialized_size header_bytes
serialize_into-image_example =
    serialize_into-image value_hash small
      (take 40 (image value_hash small ++ image value_hash small)) (omega arith)

deserialize_truncated_example :
    deserialize value_hash (take 25 (image value_hash small)) ≡ err (internal Cause.truncated)
unfolding serialized_size
deserialize_truncated_example =
    deserialize_truncated value_hash value_hash-IsU64 small 25 small-IsEncodable (omega arith)

deserialize_corrupted_example :
    deserialize value_hash (
      header_bytes (plain_header small (value_hash (payload_of small)))
      ++ ((1 ∷ 2 ∷ 3 ∷ 4 ∷ 5 ∷ []) ++ []))
    ≡ err (internal Cause.checksum_mismatch)
unfolding le_value
deserialize_corrupted_example =
    deserialize_corrupted value_hash value_hash-IsU64 small (1 ∷ 2 ∷ 3 ∷ 4 ∷ 5 ∷ []) []
      small-IsEncodable (omega arith) (omega arith)

deserialize-read_header_example :
    Agrees
      (image value_hash small)
      (deserialize value_hash (image value_hash small))
      (read_header value_hash (image value_hash small))
deserialize-read_header_example = deserialize-read_header value_hash (image value_hash small)
