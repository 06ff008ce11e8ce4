-- ===== src/Storage/Segment/Scan.antt =====
-- Reading a segment back: `open` finds the end of the records, `scan` visits each of them.
use abixio.Base.{
  ℕ, zero, suc, ◌+◌, ◌≤◌, ◌≡◌, refl, ap, sym, subst, arith, true, List, [], ◌∷◌, ◌++◌, Bytes,
  length, drop, replicate, length-append, drop-append, All, ok, err, le→leb, lt→not_leb, Bool-cases,
  inl, inr, str_eq, length-replicate, ltb, le→not_ltb,
}
use mathlib.Core.List.{append_assoc}
use abixio.Base.Slices.{slice_of}
use abixio.Base.Words.{IsU64, IsU32, le_bytes, le_value, le_value-le_bytes}
use abixio.Storage.{StorageError, internal, Cause}
use abixio.Storage.Needle.{
  Needle, serialized_size, header_size, read_header, checked_header, read_raw,
}
use abixio.Storage.Needle.Layout.{image, length-image, length-payload_of}
use abixio.Storage.Needle.RoundTrip.{IsEncodable, located, read_header-image}
use abixio.Storage.Segment.{
  segment_magic, ActiveSegment, SealedSegment, Visit, seal, visit_of, superblock_size, scan,
  scan_from, data_end, open_segment, superblock_bytes, superblock,
}
use abixio.Storage.Segment.Contents.{Holds, images, length-superblock_bytes}

-- One visit for each needle, in the order of the writes.
abbrev pub visits : ℕ → List Needle → List Visit
visits offset [] = []
visits offset (n ∷ ns) = visit_of offset (located n) ∷ visits (offset + serialized_size n) ns

header-le-size : (n : Needle) → header_size ≤ serialized_size n
header-le-size n = omega (arith, length-payload_of n)

abbrev pub sealed_of : ActiveSegment → SealedSegment
sealed_of seg = record { segment_id = seg.segment_id; mmap = seg.mmap; size = seg.write_offset }

superblock_magic :
    (id t : ℕ) (rest : Bytes)
    → slice_of (superblock_bytes (superblock id t) ++ rest) 0 4 ≡ segment_magic
unfolding superblock_bytes
superblock_magic id t rest = refl

superblock_id :
    (id t : ℕ) (rest : Bytes)
    → slice_of (superblock_bytes (superblock id t) ++ rest) 8 4 ≡ le_bytes 4 id
unfolding superblock_bytes
superblock_id id t rest = refl

module _ (xxh64 : Bytes → ℕ) (u64 : (b : Bytes) → IsU64 (xxh64 b)) where
  pub length-le-images : (ns : List Needle) → length ns ≤ length (images xxh64 ns)
  length-le-images [] = omega arith
  length-le-images (n ∷ ns) = omega (
    arith,
    length-le-images ns,
    length-append (image xxh64 n) (images xxh64 ns),
    length-image xxh64 n,
    header-le-size n,
  )

  read_next :
      (pre : Bytes) (n : Needle) (ns : List Needle) (rest : Bytes) (offset : ℕ)
      → length pre ≡ offset
      → IsEncodable n
      → read_header xxh64 (drop offset (pre ++ (images xxh64 (n ∷ ns) ++ rest))) ≡ ok (located n)
  read_next pre n ns rest offset p e =
      rw (drop-append offset pre (images xxh64 (n ∷ ns) ++ rest) p, append_assoc)
        (read_header-image xxh64 u64 n (images xxh64 ns ++ rest) e)

  -- The file with one needle moved from what is to be read to what is behind.
  regroup :
      (pre : Bytes) (n : Needle) (ns : List Needle) (rest : Bytes)
      → pre ++ (images xxh64 (n ∷ ns) ++ rest) ≡ (pre ++ image xxh64 n) ++ (images xxh64 ns ++ rest)
  regroup pre n ns rest = simp append_assoc

  data_end-images :
      (fuel : ℕ) (pre : Bytes) (ns : List Needle) (rest : Bytes) (offset : ℕ) {x : StorageError}
      → length pre ≡ offset
      → All IsEncodable ns
      → length ns ≤ fuel
      → read_header xxh64 rest ≡ err x
      → data_end xxh64 fuel (pre ++ (images xxh64 ns ++ rest)) offset
        ≡ offset + length (images xxh64 ns)
  unfolding data_end
  data_end-images zero pre [] rest offset p e f stop = omega arith
  data_end-images zero pre (n ∷ ns) rest offset p e f stop = absurd (omega arith)
  data_end-images (suc fuel) pre [] rest offset p e f stop =
      rw (drop-append offset pre rest p, stop, data_end) (ground arith)
  data_end-images (suc fuel) pre (n ∷ ns) rest offset p e f stop =
      let long : offset + header_size ≤ length (pre ++ (images xxh64 (n ∷ ns) ++ rest)) = omega (
        arith,
        length-append pre (images xxh64 (n ∷ ns) ++ rest),
        length-append (images xxh64 (n ∷ ns)) rest,
        length-append (image xxh64 n) (images xxh64 ns),
        length-image xxh64 n,
        header-le-size n,
      ) in
      let ends =
        data_end-images fuel (pre ++ image xxh64 n) ns rest (offset + serialized_size n)
          (omega (arith, length-append pre (image xxh64 n), length-image xxh64 n)) e.1 (omega arith)
          stop in
      rw (le→leb _ _ long, read_next pre n ns rest offset p e.0, data_end)
        (rw (regroup pre n ns rest) (
          omega
            (arith, ends, length-append (image xxh64 n) (images xxh64 ns), length-image xxh64 n)))

  scan_from-images :
      (fuel : ℕ) (id : ℕ) (pre : Bytes) (ns : List Needle) (rest : Bytes) (offset size : ℕ)
      → length pre ≡ offset
      → size ≡ offset + length (images xxh64 ns)
      → All IsEncodable ns
      → length ns ≤ fuel
      → scan_from xxh64 fuel
          (record { segment_id = id; mmap = pre ++ (images xxh64 ns ++ rest); size = size })
          offset
        ≡ visits offset ns
  unfolding scan_from
  scan_from-images zero id pre [] rest offset size p s e f = refl
  scan_from-images zero id pre (n ∷ ns) rest offset size p s e f = absurd (omega arith)
  scan_from-images (suc fuel) id pre [] rest offset size p s e f =
      rw (lt→not_leb (offset + header_size) size (omega arith))
  scan_from-images (suc fuel) id pre (n ∷ ns) rest offset size p s e f =
      let more : length (images xxh64 (n ∷ ns)) ≡ serialized_size n + length (images xxh64 ns) =
        omega (arith, length-append (image xxh64 n) (images xxh64 ns), length-image xxh64 n) in
      rw
        (
          le→leb (offset + header_size) size (omega (arith, header-le-size n)),
          read_next pre n ns rest offset p e.0,
          scan_from,
        )
        (rw (regroup pre n ns rest) (
          ap (λ t. visit_of offset (located n) ∷ t)
            (scan_from-images fuel id (pre ++ image xxh64 n) ns rest (offset + serialized_size n)
              size (omega (arith, length-append pre (image xxh64 n), length-image xxh64 n))
              (omega arith) e.1 (omega arith))))

  module _ (seg : ActiveSegment) (t : ℕ) (ns : List Needle) (rest : Bytes)
      (h : Holds xxh64 seg t ns rest) (e : All IsEncodable ns) where
    -- A sealed segment is visited needle by needle, in the order of the writes, with the offsets
    -- at which they lie; what the file holds behind the write offset is not visited.
    pub scan-seal :
        (seal true seg ≡ ok (sealed_of seg))
        × (scan xxh64 (sealed_of seg) ≡ visits superblock_size ns)
    unfolding seal scan
    scan-seal = (
      refl,
      rw h.bytes (
          scan_from-images seg.write_offset seg.segment_id
            (superblock_bytes (superblock seg.segment_id t)) ns rest superblock_size
            seg.write_offset (length-superblock_bytes seg.segment_id t) h.next e
            (omega (arith, h.next, length-le-images ns))),
    )

    -- After a crash the segment is opened from the bytes of its file alone. If no record can be read
    -- where the written ones end, that gives the same segment as sealing would have given.
    pub open_segment-seal :
        (x : StorageError)
        → IsU32 seg.segment_id
        → read_header xxh64 rest ≡ err x
        → open_segment xxh64 true seg.mmap ≡ seal true seg
    unfolding seal open_segment
    open_segment-seal x id stop =
        let sb = superblock_bytes (superblock seg.segment_id t) in
        let size : length seg.mmap ≡ superblock_size + length (images xxh64 ns) + length rest =
          omega (
            arith,
            ap (λ (b : Bytes). length b) h.bytes,
            length-append sb (images xxh64 ns ++ rest),
            length-append (images xxh64 ns) rest,
            length-superblock_bytes seg.segment_id t,
          ) in
        let ends : data_end xxh64 (length seg.mmap) seg.mmap superblock_size ≡ seg.write_offset =
          rw h.next (
            subst
              (λ b.
                data_end xxh64 (length seg.mmap) b superblock_size
                ≡ superblock_size + length (images xxh64 ns))
              (sym h.bytes)
              (data_end-images (length seg.mmap) sb ns rest superblock_size
                (length-superblock_bytes seg.segment_id t) e
                (omega (arith, size, length-le-images ns)) stop)) in
        let marked : str_eq (slice_of seg.mmap 0 4) segment_magic ≡ true =
          rw (h.bytes, superblock_magic) refl in
        let named : le_value (slice_of seg.mmap 8 4) ≡ seg.segment_id =
          rw (h.bytes, superblock_id) (le_value-le_bytes 4 seg.segment_id id) in
        rw (le→not_ltb (length seg.mmap) superblock_size (omega (arith, size)), marked, named, ends)
          refl

magic_zero : (k : ℕ) → 4 ≤ k → le_value (slice_of (replicate k 0) 0 4) ≡ 0
unfolding le_value
magic_zero (suc (suc (suc (suc k)))) h = refl
magic_zero (suc (suc (suc zero))) h = absurd (omega arith)
magic_zero (suc (suc zero)) h = absurd (omega arith)
magic_zero (suc zero) h = absurd (omega arith)
magic_zero zero h = absurd (omega arith)

-- No record can be read from zeros.
pub zeros_stop :
    (xxh64 : Bytes → ℕ) (k : ℕ) → (x : StorageError) × (read_header xxh64 (replicate k 0) ≡ err x)
unfolding read_header checked_header read_raw
zeros_stop xxh64 k = elim (Bool-cases (ltb (length {A = ℕ} (replicate k 0)) header_size)) [
  | inl short ↦ (internal Cause.too_short, rw short refl)
  | inr long ↦ (
    internal (Cause.bad_magic 0),
    rw (long, magic_zero k (ground (arith, length-replicate {A = ℕ} k 0))) refl,
  )
]
