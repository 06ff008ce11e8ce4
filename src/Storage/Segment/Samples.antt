-- ===== src/Storage/Segment/Samples.antt =====
-- A sample segment for the tests.
use abixio.Base.{◌+◌, ◌≡◌, refl, arith, true, some, [], ◌∷◌, ◌++◌, drop, replicate}
use abixio.Base.Run.{done}
use abixio.Base.Slices.{write_at}
use abixio.Storage.Needle.{serialized_size}
use abixio.Storage.Needle.Samples.{value_hash, small}
use abixio.Storage.Segment.{ActiveSegment, create, superblock_bytes, superblock, append, location}
use abixio.Storage.Segment.Contents.{Holds, append-Holds}

-- A segment of 100 bytes, new and after one append.
abbrev pub fresh : ActiveSegment
fresh = record {
  segment_id = 3;
  mmap = superblock_bytes (superblock 3 1700) ++ replicate 68 0;
  write_offset = 32;
  capacity = 100;
}

pub fresh_created : create true [] 1700 3 100 ≡ done fresh
unfolding create superblock_bytes write_at
fresh_created = refl

pub fresh-Holds : Holds value_hash fresh 1700 [] (replicate 68 0)
unfolding superblock_bytes
fresh-Holds = record { bytes = refl; next = refl; mapped = refl }

-- The segment behind one append.
pub small_appended :
    (seg' : ActiveSegment) × (append value_hash fresh small
      ≡ done (some (location fresh small), seg'))
    × Holds value_hash seg' 1700 (small ∷ []) (drop (serialized_size small) (replicate 68 0))
    × (seg'.capacity ≡ 100)
    × (seg'.segment_id ≡ 3)
    × (seg'.write_offset ≡ 32 + serialized_size small)
unfolding serialized_size
small_appended =
    append-Holds value_hash fresh 1700 [] (replicate 68 0) small fresh-Holds (omega arith)

-- `fresh` with one needle in it.
abbrev pub one : ActiveSegment
one = small_appended.0

pub one-Holds :
    Holds value_hash one 1700 (small ∷ []) (drop (serialized_size small) (replicate 68 0))
one-Holds = small_appended.2

pub capacity_one : one.capacity ≡ 100
capacity_one = small_appended.3
