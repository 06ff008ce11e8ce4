-- ===== src/Storage/Wal/Recover.antt =====
-- `recover_segment` and `Wal::open`: the pending entries are rebuilt from the segment files.
use abixio.Base.{
  ℕ, Bool, true, Option, none, some, List, [], ◌∷◌, ◌++◌, Bytes, ◌==◌, ok, err, if◌then◌else◌, ltb,
  leb, nat_eq, str_has_eq, pair_eq,
}
use abixio.Base.Keyed
use abixio.Base.Run.{Run, done, failed, panicked}
use abixio.Base.Words.{as_u16, as_u32}
use abixio.Storage.{StorageError}
use abixio.Storage.Needle.{flag_delete}
use abixio.Storage.Segment.{
  ActiveSegment, SealedSegment, Visit, create, open_segment, scan, sealed_slice, add_u32,
}
use abixio.Storage.Wal.{Wal, PendingKey, pending_key, add_pending, or_zero}

-- What recovery asks of the outside: whether the shard of a key is on disk already
-- (`object_shard_path` or `version_shard_path` is a file), and the creation time in metadata bytes
-- (`Needle::decode_meta`).
pub record Outside : Type 0 where
  pub on_disk : PendingKey → Bool
  pub created_at : Bytes → Option ℕ

-- `created_at as u32`, and 0 where the metadata cannot be read.
unfoldable pub visit_created_at : Outside → SealedSegment → Visit → ℕ
visit_created_at out seg v = elim (sealed_slice seg v.meta_offset v.meta_len) [
  | none ↦ 0
  | some meta ↦ as_u32 (or_zero (out.created_at meta))
]

unfoldable pub recover_visit : Outside → SealedSegment → Wal → Visit → Wal
unfolding visit_created_at
recover_visit out seg w v =
    let k = pending_key v.bucket v.key v.version_id in
    if v.flags == flag_delete
    then record w { pending = Keyed.remove k w.pending }
    else if out.on_disk k
    then w
    else add_pending k
        (record {
          segment_id = seg.segment_id;
          data_offset = as_u32 v.data_offset;
          data_len = as_u32 v.data_len;
          meta_offset = as_u32 v.meta_offset;
          meta_len = as_u16 v.meta_len;
          created_at = visit_created_at out seg v;
        })
        w

unfoldable pub recover_visits : Outside → SealedSegment → Wal → List Visit → Wal
recover_visits out seg w [] = w
recover_visits out seg w (v ∷ vs) = recover_visits out seg (recover_visit out seg w v) vs

module _ (xxh64 : Bytes → ℕ) (out : Outside) where
  unfoldable pub recover_segment : Wal → SealedSegment → Wal
  recover_segment w seg = recover_visits out seg w (scan xxh64 seg)

  -- One segment file of `open`: kept while something is pending in it, unlinked otherwise, and
  -- skipped where it cannot be opened.
  unfoldable pub open_file : Wal → Bytes → Wal
  unfolding recover_segment
  open_file w file = elim (open_segment xxh64 true file) [
    | err e ↦ w
    | ok seg ↦
        let named = record w {
          next_segment_id =
              if leb w.next_segment_id seg.segment_id
              then add_u32 seg.segment_id 1
              else w.next_segment_id;
        } in
        let w' = recover_segment named seg in
        if ltb 0 (or_zero (Keyed.get seg.segment_id w'.counts))
        then record w' { sealed = w'.sealed ++ seg ∷ [] }
        else record w' { unlinked = seg.segment_id ∷ w'.unlinked }
  ]

  unfoldable pub open_files : Wal → List Bytes → Wal
  open_files w [] = w
  open_files w (file ∷ files) = open_files (open_file w file) files

  -- `Wal::open`. `first` is what `create` returns for segment 1; `files` are the bytes of the segment
  -- files that the directory then holds, in the order of their names.
  unfoldable pub open_wal :
      Run StorageError ActiveSegment → ℕ → List Bytes → Bool → Bytes → ℕ → Run StorageError Wal
  open_wal first capacity files opened file now = elim first [
    | panicked ↦ panicked
    | failed e ↦ failed e
    | done one ↦
        let w =
          open_files
            (record {
              active = one;
              sealed = [];
              pending = [];
              counts = [];
              next_segment_id = 2;
              segment_capacity = capacity;
              unlinked = [];
            })
            files in
        elim (create opened file now w.next_segment_id capacity) [
          | panicked ↦ panicked
          | failed e ↦ failed e
          | done seg ↦
              done (record w { active = seg; next_segment_id = add_u32 w.next_segment_id 1 })
        ]
  ]
