-- ===== src/Storage/Needle/Reject.antt =====
-- What `deserialize` and `read_header` refuse, and how the two agree on any bytes.
use abixio.Base.{
  ℕ, zero, suc, ◌+◌, ◌-◌, ◌≤◌, ◌<◌, ◌≡◌, ◌≢◌, refl, ap, ◌∙◌, arith, Result, ok, err, [], ◌∷◌, ◌++◌,
  Bytes, length, take, inl, inr, Bool-cases, Result-cases, ltb, if◌then◌else◌, length-append,
  length-take,
}
use abixio.Base.Slices.{slice_of}
use abixio.Base.Utf8.{is_utf8}
use abixio.Base.Words.{IsU64}
use abixio.Storage.{StorageError, internal, Cause}
use abixio.Storage.Needle.{
  Needle, RawHeader, header_bytes, read_raw, payload_len, header_size, serialized_size,
  checked_header, deserialize, read_header, decode_parts, locate_parts, Decoded, Located,
}
use abixio.Storage.Needle.Layout.{
  payload_of, length-payload_of, image, length-header_bytes, length-image,
}
use abixio.Storage.Needle.RoundTrip.{
  IsEncodable, plain_header, header_of-plain, plain_header-IsWide, read_raw-header_bytes,
  slice_of-image,
}

-- The copies that `deserialize` makes are the slices that `read_header` locates.
abbrev pub Agrees : Bytes → Result StorageError Decoded → Result StorageError Located → Type 0
Agrees buf (ok d) (ok l) =
    (d.flags ≡ l.flags)
    × (d.bucket ≡ l.bucket)
    × (d.key ≡ l.key)
    × (d.version_id ≡ l.version_id)
    × (d.meta_bytes ≡ slice_of buf l.meta_offset l.meta_len)
    × (d.payload ≡ slice_of buf l.data_offset l.data_len)
    × (d.total ≡ l.total)
    × (l.data_offset + l.data_len ≡ l.total)
    × (l.total ≤ length buf)
Agrees buf (err a) (err b) = a ≡ b
Agrees buf _ _ = ⊥

-- The front of a record that breaks off inside the payload.
take-append_past :
    (k : ℕ) (hdr rest : Bytes)
    → length hdr ≤ k
    → take k (hdr ++ rest) ≡ hdr ++ take (k - length hdr) rest
take-append_past k [] rest h = ap (λ (j : ℕ). take j rest) (omega arith)
take-append_past zero (x ∷ hdr) rest h = absurd (omega arith)
take-append_past (suc k) (x ∷ hdr) rest h =
    ap (λ t. x ∷ t)
      (take-append_past k hdr rest (omega arith) ∙ ap (λ (j : ℕ). hdr ++ take j rest) (omega arith))

decode_parts-locate_parts :
    (buf : Bytes) (h : RawHeader)
    → header_size + payload_len h ≤ length buf
    → Agrees buf (decode_parts buf h) (locate_parts buf h)
unfolding decode_parts locate_parts
decode_parts-locate_parts buf h fits =
    elim (Bool-cases (is_utf8 (slice_of buf header_size h.bucket_len))) [
      | inr no1 ↦ rw no1 refl
      | inl yes1 ↦
          rw yes1
            (elim (Bool-cases (is_utf8 (slice_of buf (header_size + h.bucket_len) h.key_len))) [
              | inr no2 ↦ rw no2 refl
              | inl yes2 ↦
                  rw yes2
                    (elim (Bool-cases (
                      is_utf8
                        (slice_of buf (header_size + h.bucket_len + h.key_len) h.version_id_len))) [
                          | inr no3 ↦ rw no3 refl
                          | inl yes3 ↦
                              rw yes3 (refl, refl, refl, refl, refl, refl, refl, omega arith, fits)
                        ])
            ])
    ]

module _ (xxh64 : Bytes → ℕ) where
  checked_header-fits :
      (buf : Bytes) (h : RawHeader)
      → checked_header xxh64 buf ≡ ok h
      → header_size + payload_len h ≤ length buf
  unfolding checked_header
  checked_header-fits buf h e = ground arith

  -- On any bytes at all the two readers refuse with the same error, or they accept together
  -- and locate what they copy inside the buffer.
  pub deserialize-read_header :
      (buf : Bytes) → Agrees buf (deserialize xxh64 buf) (read_header xxh64 buf)
  unfolding deserialize read_header
  deserialize-read_header buf = elim (Result-cases (checked_header xxh64 buf)) [
    | inr (x, e) ↦ rw (e, deserialize, read_header) refl
    | inl (h, e) ↦
        rw (e, deserialize, read_header)
          (decode_parts-locate_parts buf h (checked_header-fits buf h e))
  ]

module _ (xxh64 : Bytes → ℕ) (u64 : (b : Bytes) → IsU64 (xxh64 b)) where
  -- A record cut off anywhere is refused: inside the header as too short, behind it as truncated.
  pub deserialize_truncated :
      (n : Needle) (k : ℕ)
      → IsEncodable n
      → k < serialized_size n
      → deserialize xxh64 (take k (image xxh64 n))
        ≡ err (internal (if ltb k header_size then Cause.too_short else Cause.truncated))
  unfolding deserialize checked_header serialized_size
  deserialize_truncated n k e short =
      let hdr = header_bytes (plain_header n (xxh64 (payload_of n))) in
      let len : length (take k (image xxh64 n)) ≡ k =
        omega (arith, length-take k (image xxh64 n), length-image xxh64 n) in
      elim (Bool-cases (ltb k header_size)) [
        | inl inside ↦ ground (arith, len)
        | inr behind ↦
            let same : take k (image xxh64 n) ≡ hdr ++ take (k - length hdr) (payload_of n) =
              rw (header_of-plain n (xxh64 (payload_of n)) e) (
                take-append_past k hdr (payload_of n)
                  (ground (arith, length-header_bytes (plain_header n (xxh64 (payload_of n)))))) in
            let raw : read_raw (take k (image xxh64 n)) ≡ plain_header n (xxh64 (payload_of n)) =
              rw same (
                read_raw-header_bytes (plain_header n (xxh64 (payload_of n))) _
                  (plain_header-IsWide n _ e (u64 _))) in
            rw (raw, deserialize) (ground (arith, len, length-payload_of n))
      ]

  -- A record whose payload was replaced by one of the same length is refused where the hashes differ.
  pub deserialize_corrupted :
      (n : Needle) (bad rest : Bytes)
      → IsEncodable n
      → length bad ≡ length (payload_of n)
      → xxh64 bad ≢ xxh64 (payload_of n)
      → deserialize xxh64 (header_bytes (plain_header n (xxh64 (payload_of n))) ++ (bad ++ rest))
        ≡ err (internal Cause.checksum_mismatch)
  unfolding deserialize checked_header serialized_size
  deserialize_corrupted n bad rest e same_length differs =
      let h = plain_header n (xxh64 (payload_of n)) in
      let buf = header_bytes h ++ (bad ++ rest) in
      let raw : read_raw buf ≡ h =
        read_raw-header_bytes h (bad ++ rest) (plain_header-IsWide n _ e (u64 _)) in
      let sizes : payload_len h ≡ length bad = omega (arith, length-payload_of n) in
      let cut : slice_of buf header_size (header_size + payload_len h - header_size) ≡ bad =
        slice_of-image h [] bad rest header_size _ (omega arith) (omega arith) in
      let fits : header_size + payload_len h ≤ length buf = omega (
        arith,
        length-append (header_bytes h) (bad ++ rest),
        length-append bad rest,
        length-header_bytes h,
      ) in
      rw (raw, deserialize) (ground (arith, cut, fits))
