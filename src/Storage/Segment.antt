-- ===== src/Storage/Segment.antt =====
-- src/storage/segment.rs: the pre-allocated segment files of the log. A mapped file is its bytes;
-- what the operating system does (open, set_len, map, flush) succeeds or fails by an argument.
-- Words of 32 bits wrap, as in a release build.
pub mod Contents
pub mod Scan
pub mod Recovery
pub mod Samples
mod Tests
use abixio.Base.{
  ℕ, zero, suc, ◌+◌, ◌-◌, ◌%◌, Bool, Option, none, some, List, [], ◌∷◌, ◌++◌, Bytes, length, take,
  drop, replicate, ltb, leb, str_eq, not, Result, ok, err, if◌then◌else◌,
}
use abixio.Base.Run.{Run, done, failed, panicked}
use abixio.Base.Slices.{slice_of, write_at}
use abixio.Base.Words.{as_u16, as_u32, le_bytes, le_value}
use abixio.Storage.{StorageError, io, internal, Cause}
use abixio.Storage.Needle.{
  Needle, Located, header_size, serialized_size, serialize_into, read_header,
}

-- b"ABXL"
abbrev pub segment_magic : Bytes
segment_magic = b'A' ∷ b'B' ∷ b'X' ∷ b'L' ∷ []

abbrev pub superblock_size : ℕ
superblock_size = 32

pub record Superblock : Type 0 where
  pub magic : Bytes
  pub version : ℕ
  pub segment_id : ℕ
  pub created_at : ℕ
  pub reserved : Bytes

-- The 32 bytes of the packed struct.
unfoldable pub superblock_bytes : Superblock → Bytes
unfolding le_bytes
superblock_bytes sb =
    sb.magic
    ++ (le_bytes 4 sb.version
        ++ (le_bytes 4 sb.segment_id ++ (le_bytes 8 sb.created_at ++ sb.reserved)))

pub record NeedleLocation : Type 0 where
  pub segment_id : ℕ
  pub offset : ℕ
  pub meta_offset : ℕ
  pub meta_len : ℕ
  pub data_offset : ℕ
  pub data_len : ℕ
  pub created_at : ℕ

pub record ActiveSegment : Type 0 where
  pub segment_id : ℕ
  pub mmap : Bytes
  pub write_offset : ℕ
  pub capacity : ℕ

pub record SealedSegment : Type 0 where
  pub segment_id : ℕ
  pub mmap : Bytes
  pub size : ℕ

-- `set_len`: the file is cut, or filled up with zeros.
abbrev pub set_len : ℕ → Bytes → Bytes
set_len n file = take n (file ++ replicate n 0)

abbrev pub superblock : ℕ → ℕ → Superblock
superblock segment_id created_at = record {
  magic = segment_magic;
  version = 1;
  segment_id = segment_id;
  created_at = created_at;
  reserved = replicate 12 0;
}

-- `ActiveSegment::create` over a file with the bytes `file` (none of them, if it is new), at the
-- time `now`; `opened` says whether the system calls succeed.
unfoldable pub create : Bool → Bytes → ℕ → ℕ → ℕ → Run StorageError ActiveSegment
create opened file now segment_id capacity =
    if opened
    then elim (write_at (set_len capacity file) 0 (superblock_bytes (superblock segment_id now))) [
      | none ↦ panicked
      | some mmap ↦ done (record {
        segment_id = segment_id;
        mmap = mmap;
        write_offset = superblock_size;
        capacity = capacity;
      })
    ]
    else failed io

abbrev pub add_u32 : ℕ → ℕ → ℕ
add_u32 a b = (a + b) % 4294967296

abbrev pub location : ActiveSegment → Needle → NeedleLocation
location seg n =
    let offset = as_u32 seg.write_offset in
    let meta_offset =
      add_u32
        (add_u32 (add_u32 (add_u32 offset header_size) (as_u32 (length n.bucket)))
          (as_u32 (length n.key)))
        (as_u32 (length n.version_id)) in
    record {
      segment_id = seg.segment_id;
      offset = offset;
      meta_offset = meta_offset;
      meta_len = as_u16 (length n.meta_bytes);
      data_offset = add_u32 meta_offset (as_u32 (length n.meta_bytes));
      data_len = as_u32 (length n.payload);
      created_at = 0;
    }

unfoldable pub read_at : ActiveSegment → ℕ → ℕ → Result StorageError Bytes
read_at seg offset len =
    if ltb seg.write_offset (offset + len)
    then err (internal Cause.read_beyond_write_offset)
    else ok (slice_of seg.mmap offset len)

unfoldable pub active_slice : ActiveSegment → ℕ → ℕ → Option Bytes
active_slice seg offset len =
    if leb (offset + len) seg.write_offset then some (slice_of seg.mmap offset len) else none

unfoldable pub remaining : ActiveSegment → ℕ
remaining seg = seg.capacity - seg.write_offset

unfoldable pub is_full : ActiveSegment → Bool
unfolding remaining
is_full seg = ltb (remaining seg) (header_size + 64)

unfoldable pub fsync : Bool → ActiveSegment → Result StorageError Unit
fsync flushed seg = if flushed then ok tt else err io

-- `seal`; the read-only mapping has the same bytes.
unfoldable pub seal : Bool → ActiveSegment → Result StorageError SealedSegment
seal flushed seg =
    if flushed
    then ok (record { segment_id = seg.segment_id; mmap = seg.mmap; size = seg.write_offset })
    else err io

unfoldable pub sealed_slice : SealedSegment → ℕ → ℕ → Option Bytes
sealed_slice seg offset len =
    if leb (offset + len) (length seg.mmap) then some (slice_of seg.mmap offset len) else none

-- What the visitor of `scan` is called with.
pub record Visit : Type 0 where
  pub flags : ℕ
  pub bucket : Bytes
  pub key : Bytes
  pub version_id : Bytes
  pub meta_offset : ℕ
  pub meta_len : ℕ
  pub data_offset : ℕ
  pub data_len : ℕ
  pub needle_offset : ℕ

abbrev pub visit_of : ℕ → Located → Visit
visit_of offset l = record {
  flags = l.flags;
  bucket = l.bucket;
  key = l.key;
  version_id = l.version_id;
  meta_offset = offset + l.meta_offset;
  meta_len = l.meta_len;
  data_offset = offset + l.data_offset;
  data_len = l.data_len;
  needle_offset = offset;
}

module _ (xxh64 : Bytes → ℕ) where
  unfoldable pub append :
      ActiveSegment → Needle → Run StorageError (Option NeedleLocation × ActiveSegment)
  append seg n =
      let total = serialized_size n in
      if ltb seg.capacity (seg.write_offset + total)
      then done (none, seg)
      else elim (serialize_into xxh64 n (slice_of seg.mmap seg.write_offset total)) [
        | none ↦ panicked
        | some (written, out) ↦ elim (write_at seg.mmap seg.write_offset out) [
          | none ↦ panicked
          | some mmap ↦ done (
            some (location seg n),
            record seg { mmap = mmap; write_offset = seg.write_offset + total },
          )
        ]
      ]

  -- The loop of `open` that looks for the end of the valid records. Each round takes at least a
  -- header, so as many rounds as the file has bytes are enough.
  unfoldable pub data_end : ℕ → Bytes → ℕ → ℕ
  data_end zero mmap offset = offset
  data_end (suc fuel) mmap offset =
      if leb (offset + header_size) (length mmap)
      then elim (read_header xxh64 (drop offset mmap)) [
        | ok l ↦ data_end fuel mmap (offset + l.total)
        | err e ↦ offset
      ]
      else offset

  -- `SealedSegment::open` on the bytes of a file.
  unfoldable pub open_segment : Bool → Bytes → Result StorageError SealedSegment
  open_segment mapped mmap =
      if not mapped
      then err io
      else if ltb (length mmap) superblock_size
      then err (internal Cause.too_small_for_superblock)
      else if not (str_eq (slice_of mmap 0 4) segment_magic)
      then err (internal Cause.bad_segment_magic)
      else ok (record {
        segment_id = le_value (slice_of mmap 8 4);
        mmap = mmap;
        size = data_end (length mmap) mmap superblock_size;
      })

  -- The visits of `scan`, in order.
  unfoldable pub scan_from : ℕ → SealedSegment → ℕ → List Visit
  scan_from zero seg offset = []
  scan_from (suc fuel) seg offset =
      if leb (offset + header_size) seg.size
      then elim (read_header xxh64 (drop offset seg.mmap)) [
        | ok l ↦ visit_of offset l ∷ scan_from fuel seg (offset + l.total)
        | err e ↦ []
      ]
      else []

  unfoldable pub scan : SealedSegment → List Visit
  unfolding scan_from
  scan seg = scan_from seg.size seg superblock_size
