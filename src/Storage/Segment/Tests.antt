-- ===== src/Storage/Segment/Tests.antt =====
-- The theorems on segments at concrete inputs.
use abixio.Base.{◌+◌, ◌≡◌, arith, true, some, [], ◌∷◌, drop, ok, replicate}
use abixio.Base.Run.{done}
use abixio.Storage.Needle.{serialized_size}
use abixio.Storage.Needle.Samples.{value_hash, value_hash-IsU64, small, small-IsEncodable}
use abixio.Storage.Segment.Samples.{
  fresh, fresh_created, fresh-Holds, one, small_appended, one-Holds,
}
use abixio.Storage.Segment.{
  ActiveSegment, SealedSegment, superblock_size, create, append, seal, scan, open_segment, location,
  read_at, set_len,
}
use abixio.Storage.Segment.Contents.{Holds, create-Holds, append-Holds}
use abixio.Storage.Segment.Scan.{visits, scan-seal, sealed_of, open_segment-seal, zeros_stop}
use abixio.Storage.Segment.Recovery.{Grown, scan-appends, read_at-append}

create-Holds_example :
    (seg : ActiveSegment) × (create true [] 1700 3 100 ≡ done seg)
    × Holds value_hash seg 1700 [] (drop superblock_size (set_len 100 []))
    × (seg.capacity ≡ 100)
    × (seg.segment_id ≡ 3)
create-Holds_example = create-Holds value_hash [] 1700 3 100 (omega arith)

append-Holds_example :
    (seg' : ActiveSegment) × (append value_hash fresh small
      ≡ done (some (location fresh small), seg'))
    × Holds value_hash seg' 1700 (small ∷ []) (drop (serialized_size small) (replicate 68 0))
    × (seg'.capacity ≡ 100)
    × (seg'.segment_id ≡ 3)
    × (seg'.write_offset ≡ 32 + serialized_size small)
unfolding serialized_size
append-Holds_example =
    append-Holds value_hash fresh 1700 [] (replicate 68 0) small fresh-Holds (omega arith)

read_at-append_example :
    (seg' : ActiveSegment) × (append value_hash fresh small
      ≡ done (some (location fresh small), seg'))
    × (read_at seg' (location fresh small).meta_offset (location fresh small).meta_len
        ≡ ok (1 ∷ 2 ∷ []))
    × (read_at seg' (location fresh small).data_offset (location fresh small).data_len
        ≡ ok (7 ∷ []))
unfolding serialized_size
read_at-append_example =
    read_at-append value_hash value_hash-IsU64 fresh 1700 [] (replicate 68 0) small fresh-Holds
      small-IsEncodable (omega arith) (omega arith)

one-Grown : Grown value_hash fresh (small ∷ []) one
one-Grown = Grown.more small Grown.start small_appended.1

scan-appends_example :
    (r : SealedSegment) × (open_segment value_hash true one.mmap ≡ ok r)
    × (r.segment_id ≡ 3)
    × (scan value_hash r ≡ visits superblock_size (small ∷ []))
scan-appends_example =
    scan-appends value_hash value_hash-IsU64 1700 3 100 (small ∷ []) fresh one (omega arith)
      (omega arith) fresh_created one-Grown (small-IsEncodable, tt)

scan-seal_example :
    (seal true one ≡ ok (sealed_of one))
    × (scan value_hash (sealed_of one) ≡ visits superblock_size (small ∷ []))
scan-seal_example =
    scan-seal value_hash value_hash-IsU64 one 1700 (small ∷ [])
      (drop (serialized_size small) (replicate 68 0)) one-Holds (small-IsEncodable, tt)

open_segment-seal_example : open_segment value_hash true fresh.mmap ≡ seal true fresh
open_segment-seal_example =
    open_segment-seal value_hash value_hash-IsU64 fresh 1700 [] (replicate 68 0) fresh-Holds tt
      (zeros_stop value_hash 68).0 (omega arith) (zeros_stop value_hash 68).1
