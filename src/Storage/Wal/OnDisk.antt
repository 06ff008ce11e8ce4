-- ===== src/Storage/Wal/OnDisk.antt =====
-- `recover_segment` and the keys whose shard is on disk.
use abixio.Base.{
  true, none, ℕ, ◌≡◌, arith, List, [], ◌∷◌, Bytes, nat_eq, str_has_eq, pair_eq, pair_beq_iff,
}
use abixio.Base.Keyed
use abixio.Base.Keyed.{get-insert, get-remove}
use abixio.Base.Words.{as_u16, as_u32}
use abixio.Storage.Segment.{SealedSegment, Visit, scan}
use abixio.Storage.Wal.{Wal, PendingKey, pending_key, add_pending}
use abixio.Storage.Wal.Recover.{
  Outside, recover_visit, recover_visits, recover_segment, visit_created_at,
}

recover_visits-on_disk :
    (out : Outside) (seg : SealedSegment) (w : Wal) (vs : List Visit) (k : PendingKey)
    → out.on_disk k ≡ true
    → Keyed.get k w.pending ≡ none
    → Keyed.get k (recover_visits out seg w vs).pending ≡ none
unfolding recover_visits recover_visit add_pending
recover_visits-on_disk out seg w [] k there absent = absent
recover_visits-on_disk out seg w (v ∷ vs) k there absent =
    let own = pending_key v.bucket v.key v.version_id in
    recover_visits-on_disk out seg (recover_visit out seg w v) vs k there (
      ground (
        arith,
        there,
        absent,
        pair_beq_iff own k,
        get-remove own k w.pending,
        get-insert own k
            (record {
              segment_id = seg.segment_id;
              data_offset = as_u32 v.data_offset;
              data_len = as_u32 v.data_len;
              meta_offset = as_u32 v.meta_offset;
              meta_len = as_u16 v.meta_len;
              created_at = visit_created_at out seg v;
            })
            w.pending,
      ))

-- A key whose shard is on disk, and that is not pending yet, is not made pending by recovery, whatever
-- needles of it the segment holds.
pub recover_segment-on_disk :
    (xxh64 : Bytes → ℕ) (out : Outside) (w : Wal) (seg : SealedSegment) (k : PendingKey)
    → out.on_disk k ≡ true
    → Keyed.get k w.pending ≡ none
    → Keyed.get k (recover_segment xxh64 out w seg).pending ≡ none
unfolding recover_segment
recover_segment-on_disk xxh64 out w seg k there absent =
    recover_visits-on_disk out seg w (scan xxh64 seg) k there absent
