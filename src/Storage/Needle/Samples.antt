-- ===== src/Storage/Needle/Samples.antt =====
-- Sample data for the tests of the storage modules.
use abixio.Base.{ℕ, ◌%◌, ◌≡◌, refl, arith, true, [], ◌∷◌, Bytes}
use abixio.Base.Words.{IsU64, le_value}
use abixio.Base.Utf8.{is_utf8}
use abixio.Storage.Needle.{Needle}
use abixio.Storage.Needle.RoundTrip.{IsEncodable}

-- A hash for the tests.
abbrev pub value_hash : Bytes → ℕ
value_hash bs = le_value bs % 18446744073709551616

pub value_hash-IsU64 : (b : Bytes) → IsU64 (value_hash b)
value_hash-IsU64 b = omega arith

abbrev pub small : Needle
small = record {
  flags = 0;
  bucket = b'b' ∷ [];
  key = b'k' ∷ [];
  version_id = [];
  meta_bytes = 1 ∷ 2 ∷ [];
  payload = 7 ∷ [];
}

small_utf8 : (is_utf8 (b'b' ∷ []) ≡ true) × (is_utf8 (b'k' ∷ []) ≡ true) × (is_utf8 [] ≡ true)
unfolding is_utf8
small_utf8 = (refl, refl, refl)

pub small-IsEncodable : IsEncodable small
small-IsEncodable = record {
  flags = omega arith;
  bucket = omega arith;
  key = omega arith;
  version_id = omega arith;
  meta_bytes = omega arith;
  payload = omega arith;
  bucket_utf8 = small_utf8.0;
  key_utf8 = small_utf8.1;
  version_id_utf8 = small_utf8.2;
}
