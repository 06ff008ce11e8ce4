-- ===== src/Storage/Segment/Contents.antt =====
-- An active segment as a list of needles, and what `create` and `append` do to that list.
use abixio.Base.{
  ℕ, ◌+◌, ◌≤◌, ◌<◌, ◌≡◌, refl, ap, sym, ◌∙◌, arith, true, some, none, List, [], ◌∷◌, ◌++◌, Bytes,
  length, drop, replicate, length-append, length-drop, length-take, length-replicate, drop_all,
  lt→ltb, le→not_ltb,
}
use mathlib.Core.List.{append_assoc, append-nil}
use abixio.Base.Run.{done}
use abixio.Base.Slices.{slice_of, write_at, write_at-append}
use abixio.Storage.Needle.{Needle, serialized_size, serialize_into}
use abixio.Storage.Needle.Layout.{image, length-image, serialize_into-image}
use abixio.Storage.Segment.{
  ActiveSegment, superblock_bytes, superblock, superblock_size, create, append, set_len, location,
}

pub length-superblock_bytes :
    (id t : ℕ) → length (superblock_bytes (superblock id t)) ≡ superblock_size
unfolding superblock_bytes
length-superblock_bytes id t = refl

module _ (xxh64 : Bytes → ℕ) where
  abbrev pub images : List Needle → Bytes
  images [] = []
  images (n ∷ ns) = image xxh64 n ++ images ns

  pub images-append : (ns ms : List Needle) → images (ns ++ ms) ≡ images ns ++ images ms
  images-append [] ms = refl
  images-append (n ∷ ns) ms = simp (images-append ns ms, append_assoc)

  -- The file is a superblock, the records of `ns`, and `rest`; the next write goes behind `ns`.
  pub record Holds (seg : ActiveSegment) (created_at : ℕ) (ns : List Needle) (rest : Bytes)
      : Type 0 where
    pub bytes :
        seg.mmap ≡ superblock_bytes (superblock seg.segment_id created_at) ++ (images ns ++ rest)
    pub next : seg.write_offset ≡ superblock_size + length (images ns)
    pub mapped : length seg.mmap ≡ seg.capacity

  -- A segment that is created over a file holds no needle; behind the superblock the file keeps
  -- its bytes.
  pub create-Holds :
      (file : Bytes) (now id capacity : ℕ)
      → superblock_size ≤ capacity
      → (seg : ActiveSegment) × (create true file now id capacity ≡ done seg)
        × Holds seg now [] (drop superblock_size (set_len capacity file))
        × (seg.capacity ≡ capacity)
        × (seg.segment_id ≡ id)
  unfolding create superblock_bytes
  create-Holds file now id capacity room =
      let sb = superblock_bytes (superblock id now) in
      let space = set_len capacity file in
      let size : length space ≡ capacity = omega (
        arith,
        length-take capacity (file ++ replicate capacity 0),
        length-append file (replicate capacity 0),
        length-replicate {A = ℕ} capacity 0,
      ) in
      let rest = drop superblock_size space in
      let seg : ActiveSegment = record {
        segment_id = id;
        mmap = sb ++ rest;
        write_offset = superblock_size;
        capacity = capacity;
      } in
      (
        seg,
        rw
            (
              write_at-append [] space sb 0 refl (omega (arith, length-superblock_bytes id now)),
              create,
            )
            refl,
        record {
          bytes = refl;
          next = omega arith;
          mapped = omega (
            arith,
            length-append sb rest,
            length-drop superblock_size space,
            length-superblock_bytes id now,
          );
        },
        refl,
        refl,
      )

  append-done :
      (seg : ActiveSegment) (n : Needle) (pre rest : Bytes)
      → seg.mmap ≡ pre ++ rest
      → length pre ≡ seg.write_offset
      → length seg.mmap ≡ seg.capacity
      → seg.write_offset + serialized_size n ≤ seg.capacity
      → append xxh64 seg n
        ≡ done (
          some (location seg n),
          record seg {
            mmap = (pre ++ image xxh64 n) ++ drop (serialized_size n) rest;
            write_offset = seg.write_offset + serialized_size n;
          },
        )
  unfolding append
  append-done seg n pre rest m at len room =
      let size = serialized_size n in
      let whole : length pre + length rest ≡ seg.capacity =
        omega (arith, length-append pre rest, ap (λ (b : Bytes). length b) m) in
      let room_for : Bytes = slice_of seg.mmap seg.write_offset size in
      let cut : length room_for ≡ size = omega (
        arith,
        length-take size (drop seg.write_offset seg.mmap),
        length-drop seg.write_offset seg.mmap,
      ) in
      let written : serialize_into xxh64 n room_for ≡ some (size, image xxh64 n) =
        serialize_into-image xxh64 n room_for (omega arith)
        ∙ ap (λ (b : Bytes). some (size, b))
            (ap (λ (b : Bytes). image xxh64 n ++ b) (drop_all size room_for cut)
              ∙ append-nil (image xxh64 n)) in
      let placed : write_at seg.mmap seg.write_offset (image xxh64 n)
          ≡ some ((pre ++ image xxh64 n) ++ drop size rest) =
        rw (m, ← length-image xxh64 n)
          (write_at-append pre rest (image xxh64 n) seg.write_offset at
            (omega (arith, length-image xxh64 n))) in
      rw (le→not_ltb seg.capacity (seg.write_offset + size) room, written, append)
        (rw (placed, append) refl)

  -- A needle that fits is written behind the others; the rest of the file gives up its space.
  pub append-Holds :
      (seg : ActiveSegment) (t : ℕ) (ns : List Needle) (rest : Bytes) (n : Needle)
      → Holds seg t ns rest
      → seg.write_offset + serialized_size n ≤ seg.capacity
      → (seg' : ActiveSegment) × (append xxh64 seg n ≡ done (some (location seg n), seg'))
        × Holds seg' t (ns ++ n ∷ []) (drop (serialized_size n) rest)
        × (seg'.capacity ≡ seg.capacity)
        × (seg'.segment_id ≡ seg.segment_id)
        × (seg'.write_offset ≡ seg.write_offset + serialized_size n)
  append-Holds seg t ns rest n h room =
      let sb = superblock_bytes (superblock seg.segment_id t) in
      let size = serialized_size n in
      let pre = sb ++ images ns in
      let mmap' = (pre ++ image xxh64 n) ++ drop size rest in
      let seg' : ActiveSegment = record seg {
        mmap = mmap';
        write_offset = seg.write_offset + size;
      } in
      let start : length pre ≡ seg.write_offset =
        omega
          (arith, length-append sb (images ns), length-superblock_bytes seg.segment_id t, h.next) in
      let split : seg.mmap ≡ pre ++ rest = h.bytes ∙ sym (append_assoc sb (images ns) rest) in
      (
        seg',
        append-done seg n pre rest split start h.mapped room,
        record {
          bytes = simp (images-append, append_assoc, append-nil);
          next = omega (
            arith,
            h.next,
            ap (λ (b : Bytes). length b) (images-append ns (n ∷ [])),
            length-append (images ns) (images (n ∷ [])),
            length-append (image xxh64 n) [],
            length-image xxh64 n,
          );
          mapped = omega (
            arith,
            h.mapped,
            ap (λ (b : Bytes). length b) split,
            length-append pre rest,
            length-append (pre ++ image xxh64 n) (drop size rest),
            length-append pre (image xxh64 n),
            length-drop size rest,
            length-image xxh64 n,
          );
        },
        refl,
        refl,
        refl,
      )

  -- A needle that does not fit is refused, and the segment stays as it was.
  pub append-full :
      (seg : ActiveSegment) (n : Needle)
      → seg.capacity < seg.write_offset + serialized_size n
      → append xxh64 seg n ≡ done (none, seg)
  unfolding append
  append-full seg n over = rw (lt→ltb _ _ over)
