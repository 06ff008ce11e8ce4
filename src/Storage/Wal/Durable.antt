-- ===== src/Storage/Wal/Durable.antt =====
-- What recovery finds in a segment: a needle that no later one of its key supersedes is pending again.
use abixio.Base.{
  ℕ, ◌+◌, ◌≤◌, ◌≡◌, ◌≢◌, refl, ap, arith, false, some, List, [], ◌∷◌, ◌++◌, Bytes, le→leb, nat_eq,
  str_has_eq, pair_eq, pair_beq_iff, length, length-append, All, ◌∙◌,
}
use mathlib.Core.List.{append_assoc}
use abixio.Base.Keyed
use abixio.Base.Keyed.{get-insert, get-remove}
use abixio.Base.Words.{IsU64, IsU32, as_u16, as_u32}
use abixio.Base.Slices.{slice_of}
use abixio.Storage.Needle.{Needle, flag_delete, serialized_size, header_size}
use abixio.Storage.Needle.Layout.{image, length-image}
use abixio.Storage.Needle.RoundTrip.{IsEncodable, located, meta_cut, data_cut}
use abixio.Storage.Segment.{
  ActiveSegment, SealedSegment, Visit, visit_of, superblock_size, superblock_bytes, superblock,
  scan, sealed_slice,
}
use abixio.Storage.Segment.Contents.{Holds, images, images-append, length-superblock_bytes}
use abixio.Storage.Segment.Scan.{visits, sealed_of, scan-seal}
use abixio.Storage.Segment.Recovery.{slice_past}
use abixio.Storage.Wal.{Wal, WalEntry, PendingKey, pending_key, add_pending, get_versioned}
use abixio.Storage.Wal.Recover.{
  Outside, recover_visit, recover_visits, recover_segment, visit_created_at,
}

abbrev pub key_of : Needle → PendingKey
key_of n = pending_key n.bucket n.key n.version_id

visits-append :
    (xxh64 : Bytes → ℕ) (o : ℕ) (ns ms : List Needle)
    → visits o (ns ++ ms) ≡ visits o ns ++ visits (o + length (images xxh64 ns)) ms
visits-append xxh64 o [] ms = ap (λ (k : ℕ). visits k ms) (omega arith)
visits-append xxh64 o (n ∷ ns) ms =
    ap (λ t. visit_of o (located n) ∷ t)
      (visits-append xxh64 (o + serialized_size n) ns ms
        ∙ ap (λ (k : ℕ). visits (o + serialized_size n) ns ++ visits k ms)
            (omega (arith, length-append (image xxh64 n) (images xxh64 ns), length-image xxh64 n)))

module _ (out : Outside) (seg : SealedSegment) where
  recover_visits-append :
      (w : Wal) (vs us : List Visit)
      → recover_visits out seg w (vs ++ us)
        ≡ recover_visits out seg (recover_visits out seg w vs) us
  unfolding recover_visits
  recover_visits-append w [] us = refl
  recover_visits-append w (v ∷ vs) us = recover_visits-append (recover_visit out seg w v) vs us

  recover_visit_other :
      (w : Wal) (o : ℕ) (n : Needle) (k : PendingKey)
      → key_of n ≢ k
      → Keyed.get k (recover_visit out seg w (visit_of o (located n))).pending
        ≡ Keyed.get k w.pending
  unfolding recover_visit add_pending
  recover_visit_other w o n k other = ground (
    arith,
    pair_beq_iff (key_of n) k,
    get-remove (key_of n) k w.pending,
    get-insert (key_of n) k
        (record {
          segment_id = seg.segment_id;
          data_offset = as_u32 (visit_of o (located n)).data_offset;
          data_len = as_u32 (visit_of o (located n)).data_len;
          meta_offset = as_u32 (visit_of o (located n)).meta_offset;
          meta_len = as_u16 (visit_of o (located n)).meta_len;
          created_at = visit_created_at out seg (visit_of o (located n));
        })
        w.pending,
  )

  -- Needles of other keys do not touch the entry of `k`.
  recover_visits_other :
      (w : Wal) (o : ℕ) (ns : List Needle) (k : PendingKey)
      → All (λ m. key_of m ≢ k) ns
      → Keyed.get k (recover_visits out seg w (visits o ns)).pending ≡ Keyed.get k w.pending
  unfolding recover_visits
  recover_visits_other w o [] k a = refl
  recover_visits_other w o (n ∷ ns) k a =
      recover_visits_other (recover_visit out seg w (visit_of o (located n)))
        (o + serialized_size n) ns k a.1
      ∙ recover_visit_other w o n k a.0

-- The entry that recovery makes of a needle at `o`.
abbrev pub entry_at : Outside → SealedSegment → ℕ → Needle → WalEntry
entry_at out seg o n = record {
  segment_id = seg.segment_id;
  data_offset = as_u32 (visit_of o (located n)).data_offset;
  data_len = as_u32 (visit_of o (located n)).data_len;
  meta_offset = as_u32 (visit_of o (located n)).meta_offset;
  meta_len = as_u16 (visit_of o (located n)).meta_len;
  created_at = visit_created_at out seg (visit_of o (located n));
}

recover_visit_own :
    (out : Outside) (seg : SealedSegment) (w : Wal) (o : ℕ) (n : Needle)
    → n.flags ≢ flag_delete
    → out.on_disk (key_of n) ≡ false
    → Keyed.get (key_of n) (recover_visit out seg w (visit_of o (located n))).pending
      ≡ some (entry_at out seg o n)
unfolding recover_visit add_pending
recover_visit_own out seg w o n live absent = ground (
  arith,
  absent,
  pair_beq_iff (key_of n) (key_of n),
  get-insert (key_of n) (key_of n) (entry_at out seg o n) w.pending,
)

sealed_slice-at :
    (seg : SealedSegment) (off len off' len' : ℕ) (m b : Bytes)
    → off' ≡ off
    → len' ≡ len
    → off + len ≤ length seg.mmap
    → seg.mmap ≡ m
    → slice_of m off len ≡ b
    → sealed_slice seg off' len' ≡ some b
unfolding sealed_slice
sealed_slice-at seg off len off' len' m b p q fits r cut =
    rw (p, q, le→leb _ _ fits, r) (ap some cut)

All-head :
    (ns : List Needle) (n : Needle) (later : List Needle)
    → All IsEncodable (ns ++ n ∷ later)
    → IsEncodable n
All-head [] n later e = e.0
All-head (m ∷ ns) n later e = All-head ns n later e.1

serialized_size_lem :
    (n : Needle)
    → serialized_size n
      ≡ header_size
        + length n.bucket
        + length n.key
        + length n.version_id
        + length n.meta_bytes
        + length n.payload
unfolding serialized_size
serialized_size_lem n = omega arith

module _ (xxh64 : Bytes → ℕ) (u64 : (b : Bytes) → IsU64 (xxh64 b)) (out : Outside) where
  -- Where a segment below 2 ^ 32 bytes holds encodable needles, recovery makes each of them pending that
  -- is no tombstone, is not on disk, and is not followed by another needle of its key; and its entry leads
  -- to its shard data and its metadata.
  pub recover_segment-durable :
      (w : Wal) (seg : ActiveSegment) (t : ℕ) (ns : List Needle) (n : Needle) (later : List Needle)
      (rest : Bytes)
      → Holds xxh64 seg t (ns ++ n ∷ later) rest
      → All IsEncodable (ns ++ n ∷ later)
      → IsU32 seg.capacity
      → n.flags ≢ flag_delete
      → out.on_disk (key_of n) ≡ false
      → All (λ m. key_of m ≢ key_of n) later
      → (entry : WalEntry) × (get_versioned
            (recover_segment xxh64 out w (sealed_of seg))
            n.bucket
            n.key
            n.version_id
          ≡ some entry)
        × (entry.segment_id ≡ seg.segment_id)
        × (sealed_slice (sealed_of seg) entry.data_offset entry.data_len ≡ some n.payload)
        × (sealed_slice (sealed_of seg) entry.meta_offset entry.meta_len ≡ some n.meta_bytes)
  unfolding recover_segment recover_visits get_versioned
  recover_segment-durable w seg t ns n later rest h e wide live absent last =
      let o = superblock_size + length (images xxh64 ns) in
      let s = sealed_of seg in
      let w1 = recover_visits out s w (visits superblock_size ns) in
      let w2 = recover_visit out s w1 (visit_of o (located n)) in
      let seen =
        (scan-seal xxh64 u64 seg t (ns ++ n ∷ later) rest h e).1
        ∙ visits-append xxh64 superblock_size ns (n ∷ later) in
      let found =
        recover_visits_other out s w2 (o + serialized_size n) later (key_of n) last
        ∙ recover_visit_own out s w1 o n live absent in
      let kept : Keyed.get (key_of n) (recover_visits out s w (scan xxh64 s)).pending
          ≡ some (entry_at out s o n) =
        ap (λ vs. Keyed.get (key_of n) (recover_visits out s w vs).pending) seen
        ∙ ap (λ (v : Wal). Keyed.get (key_of n) v.pending)
            (recover_visits-append out s w (visits superblock_size ns) (visits o (n ∷ later)))
        ∙ found in
      let sb = superblock_bytes (superblock seg.segment_id t) in
      let pre = sb ++ images xxh64 ns in
      let rest' = images xxh64 later ++ rest in
      let split : seg.mmap ≡ pre ++ (image xxh64 n ++ rest') =
        h.bytes ∙ simp (images-append, append_assoc) in
      let size : length seg.mmap ≡ o + serialized_size n + length rest' = omega (
        arith,
        ap (λ (b : Bytes). length b) split,
        length-append pre (image xxh64 n ++ rest'),
        length-append sb (images xxh64 ns),
        length-append (image xxh64 n) rest',
        length-image xxh64 n,
        length-superblock_bytes seg.segment_id t,
      ) in
      let front : length pre ≡ o =
        omega
          (arith, length-append sb (images xxh64 ns), length-superblock_bytes seg.segment_id t) in
      let member : IsEncodable n = All-head ns n later e in
      let meta_at = header_size + length n.bucket + length n.key + length n.version_id in
      let bound = serialized_size_lem n in
      (
        entry_at out s o n,
        kept,
        refl,
        sealed_slice-at s (o + (meta_at + length n.meta_bytes)) (length n.payload) _ _
            (pre ++ (image xxh64 n ++ rest')) n.payload (omega (arith, size, bound, h.mapped))
            (omega (arith, size, bound, h.mapped)) (omega (arith, size, bound)) split
            (slice_past xxh64 u64 pre (image xxh64 n ++ rest') (o + (meta_at + length n.meta_bytes))
                (meta_at + length n.meta_bytes) (length n.payload) (omega (arith, front))
              ∙ data_cut xxh64 u64 n rest' member),
        sealed_slice-at s (o + meta_at) (length n.meta_bytes) _ _ (pre ++ (image xxh64 n ++ rest'))
            n.meta_bytes (omega (arith, size, bound, h.mapped))
            (omega (arith, size, bound, member.meta_bytes)) (omega (arith, size, bound)) split
            (slice_past xxh64 u64 pre (image xxh64 n ++ rest') (o + meta_at) meta_at
                (length n.meta_bytes) (omega (arith, front))
              ∙ meta_cut xxh64 u64 n rest' member),
      )
