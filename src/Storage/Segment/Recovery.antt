-- ===== src/Storage/Segment/Recovery.antt =====
-- A segment from its creation to its recovery, and where `append` says that a needle lies.
use abixio.Base.{
  ℕ, zero, suc, Bool-cases, inl, inr, ltb, ◌∙◌, ◌+◌, ◌-◌, ◌≤◌, ◌≡◌, refl, ap, sym, subst, arith,
  true, some, List, [], ◌∷◌, ◌++◌, Bytes, length, drop, take, drop-drop, drop-append, replicate,
  length-append, All, ok, le→not_ltb,
}
use mathlib.Core.List.{append_assoc, append-nil}
use abixio.Base.Run.{done}
use abixio.Base.Slices.{slice_of}
use abixio.Base.Words.{IsU64, IsU32}
use abixio.Storage.Needle.{Needle, serialized_size, header_size}
use abixio.Storage.Needle.Layout.{image}
use abixio.Storage.Needle.RoundTrip.{IsEncodable, meta_cut, data_cut}
use abixio.Storage.Segment.{
  ActiveSegment, SealedSegment, NeedleLocation, superblock_size, superblock_bytes, superblock,
  create, append, scan, open_segment, location, read_at, set_len,
}
use abixio.Storage.Segment.Contents.{
  Holds, images, images-append, create-Holds, append-Holds, append-full, length-superblock_bytes,
}
use abixio.Storage.Segment.Scan.{visits, sealed_of, scan-seal, open_segment-seal, zeros_stop}

-- `s'` comes from `s` by appends that wrote `ns`, in this order.
pub data Grown (xxh64 : Bytes → ℕ) (s : ActiveSegment) : List Needle → ActiveSegment → Type 0 where
  start : Grown xxh64 s [] s
  more :
      {ns : List Needle} {s' s'' : ActiveSegment} {loc : NeedleLocation} (n : Needle)
      → Grown xxh64 s ns s'
      → append xxh64 s' n ≡ done (some loc, s'')
      → Grown xxh64 s (ns ++ n ∷ []) s''

drop_zeros : (k m : ℕ) → drop k (replicate {A = ℕ} m 0) ≡ replicate (m - k) 0
drop_zeros zero m = ap (λ (j : ℕ). replicate {A = ℕ} j 0) (omega arith)
drop_zeros (suc k) zero = ap (λ (j : ℕ). replicate {A = ℕ} j 0) {x = 0} (omega arith)
drop_zeros (suc k) (suc m) =
    drop_zeros k m
    ∙ ap (λ (j : ℕ). replicate {A = ℕ} j 0) {x = m - k} {y = suc m - suc k} (omega arith)

set_len_new : (k : ℕ) → set_len k [] ≡ replicate {A = ℕ} k 0
set_len_new zero = refl
set_len_new (suc k) = ap (λ (b : Bytes). 0 ∷ b) (set_len_new k)

module _ (xxh64 : Bytes → ℕ) where
  -- An append that succeeded did fit.
  append-fits :
      (seg seg' : ActiveSegment) (n : Needle) (loc : NeedleLocation)
      → append xxh64 seg n ≡ done (some loc, seg')
      → seg.write_offset + serialized_size n ≤ seg.capacity
  append-fits seg seg' n loc e =
      elim (Bool-cases (ltb seg.capacity (seg.write_offset + serialized_size n))) [
        | inl over ↦ cc (e, append-full xxh64 seg n (ground (arith, over)))
        | inr fits ↦ ground (arith, fits)
      ]

  -- The segment after the appends: the needles behind the superblock, then zeros.
  Grown-Holds :
      {s s' : ActiveSegment} {ns : List Needle} (t k : ℕ)
      → Holds xxh64 s t [] (replicate k 0)
      → Grown xxh64 s ns s'
      → (m : ℕ) × Holds xxh64 s' t ns (replicate m 0) × (s'.segment_id ≡ s.segment_id)
  Grown-Holds t k h start = (k, h, refl)
  Grown-Holds {s} t k h (more {ns = ns} {s' = s'} {s'' = s''} {loc = loc} n g e) =
      let (m, held, id) = Grown-Holds t k h g in
      let (s1, eq, held1, cap1, id1, at1) =
        append-Holds xxh64 s' t ns (replicate m 0) n held (append-fits s' s'' n loc e) in
      let same : s1 ≡ s'' = cc (e, eq) in
      (
        m - serialized_size n,
        subst
            (λ (x : ActiveSegment).
              Holds xxh64 x t (ns ++ n ∷ []) (replicate (m - serialized_size n) 0))
            same
            (subst (λ (b : Bytes). Holds xxh64 s1 t (ns ++ n ∷ []) b)
              (drop_zeros (serialized_size n) m) held1),
        rw (← same) (id1 ∙ id),
      )

module _ (xxh64 : Bytes → ℕ) (u64 : (b : Bytes) → IsU64 (xxh64 b)) where
  -- A segment created as a new file, of a capacity for the superblock and a 32-bit id, and written by any
  -- number of appends of encodable needles, is recovered from the bytes of its file alone: opening and
  -- scanning it visits the needles that were appended, each of them once, in their order.
  pub scan-appends :
      (now id capacity : ℕ) (ns : List Needle) (s s' : ActiveSegment)
      → superblock_size ≤ capacity
      → IsU32 id
      → create true [] now id capacity ≡ done s
      → Grown xxh64 s ns s'
      → All IsEncodable ns
      → (r : SealedSegment) × (open_segment xxh64 true s'.mmap ≡ ok r)
        × (r.segment_id ≡ id)
        × (scan xxh64 r ≡ visits superblock_size ns)
  scan-appends now id capacity ns s s' room wide made g e =
      let (s0, eq, held0, cap0, id0) = create-Holds xxh64 [] now id capacity room in
      let same : s0 ≡ s = cc (eq, made) in
      let zeros = (set_len_new capacity) in
      let start_held : Holds xxh64 s now [] (replicate (capacity - superblock_size) 0) =
        subst
          (λ (x : ActiveSegment). Holds xxh64 x now [] (replicate (capacity - superblock_size) 0))
          same
          (subst (λ (b : Bytes). Holds xxh64 s0 now [] b)
            (ap (λ (b : Bytes). drop superblock_size b) zeros ∙ drop_zeros superblock_size capacity)
            held0) in
      let (m, held, same_id) = Grown-Holds xxh64 now (capacity - superblock_size) start_held g in
      let (x, stop) = zeros_stop xxh64 m in
      let named : s'.segment_id ≡ id = same_id ∙ rw (← same) id0 in
      let (sealed, seen) = scan-seal xxh64 u64 s' now ns (replicate m 0) held e in
      let opened =
        open_segment-seal xxh64 u64 s' now ns (replicate m 0) held e x (rw named wide) stop in
      (sealed_of s', opened ∙ sealed, named, seen)

  pub slice_past :
      (pre b : Bytes) (off o len : ℕ)
      → off ≡ length pre + o
      → slice_of (pre ++ b) off len ≡ slice_of b o len
  slice_past pre b off o len p =
      ap (λ (k : ℕ). slice_of (pre ++ b) k len) {y = length pre + o} p
      ∙ ap (take len) (
          sym (drop-drop o (length pre) (pre ++ b))
          ∙ ap (drop o) (drop-append (length pre) pre b refl))

  read_at-slice :
      (seg : ActiveSegment) (off len len' : ℕ) (m b : Bytes)
      → off + len ≤ seg.write_offset
      → len ≡ len'
      → seg.mmap ≡ m
      → slice_of m off len' ≡ b
      → read_at seg off len ≡ ok b
  unfolding read_at
  read_at-slice seg off len len' m b fits p q r = rw (le→not_ltb _ _ fits, p, q) (ap ok r)

  -- While the segment is smaller than 2 ^ 32 bytes, the location that `append` returns is where
  -- `read_at` finds the metadata and the shard data of the needle.
  pub read_at-append :
      (seg : ActiveSegment) (t : ℕ) (ns : List Needle) (rest : Bytes) (n : Needle)
      → Holds xxh64 seg t ns rest
      → IsEncodable n
      → IsU32 seg.capacity
      → seg.write_offset + serialized_size n ≤ seg.capacity
      → (seg' : ActiveSegment) × (append xxh64 seg n ≡ done (some (location seg n), seg'))
        × (read_at seg' (location seg n).meta_offset (location seg n).meta_len ≡ ok n.meta_bytes)
        × (read_at seg' (location seg n).data_offset (location seg n).data_len ≡ ok n.payload)
  unfolding read_at serialized_size
  read_at-append seg t ns rest n h e wide room =
      let (seg', eq, held, cap, id, at) = append-Holds xxh64 seg t ns rest n h room in
      let sb = superblock_bytes (superblock seg'.segment_id t) in
      let rest' = drop (serialized_size n) rest in
      let pre = sb ++ images xxh64 ns in
      let start : length pre ≡ seg.write_offset = omega (
        arith,
        length-append sb (images xxh64 ns),
        length-superblock_bytes seg'.segment_id t,
        h.next,
      ) in
      let split : seg'.mmap ≡ pre ++ (image xxh64 n ++ rest') =
        held.bytes ∙ simp (images-append, append_assoc, append-nil) in
      let meta_at = header_size + length n.bucket + length n.key + length n.version_id in
      let meta_of =
        slice_past pre (image xxh64 n ++ rest') (location seg n).meta_offset meta_at
          (length n.meta_bytes) (omega arith)
        ∙ meta_cut xxh64 u64 n rest' e in
      let data_of =
        slice_past pre (image xxh64 n ++ rest') (location seg n).data_offset
          (meta_at + length n.meta_bytes) (length n.payload) (omega arith)
        ∙ data_cut xxh64 u64 n rest' e in
      (
        seg',
        eq,
        read_at-slice seg' _ _ (length n.meta_bytes) _ _ (omega (arith, at)) (omega arith) split
            meta_of,
        read_at-slice seg' _ _ (length n.payload) _ _ (omega (arith, at)) (omega arith) split
            data_of,
      )
