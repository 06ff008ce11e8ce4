-- ===== src/Storage/Wal/Reads.antt =====
-- `append` and `rotate_active`: what can be read afterwards.
use abixio.Base.{
  ℕ, ◌+◌, ◌≤◌, ◌≡◌, ◌≢◌, refl, arith, false, none, some, List, Bytes, nat_eq, str_has_eq, pair_eq,
  inl, inr, beq_refl, ==_refl, pair_beq_iff, length,
}
use abixio.Base.Keyed
use abixio.Base.Keyed.{get-insert, total-insert}
use abixio.Base.Run.{done, Run-cases}
use abixio.Base.Words.{IsU64, IsU32}
use abixio.Storage.Needle.{Needle, serialized_size}
use abixio.Storage.Needle.RoundTrip.{IsEncodable}
use abixio.Storage.Segment.{ActiveSegment, create, seal, read_at, sealed_slice, location}
use abixio.Storage.Segment.Contents.{Holds}
use abixio.Storage.Segment.Recovery.{read_at-append}
use abixio.Storage.Wal.{
  Wal, WalEntry, PendingKey, Rotation, pending_key, add_pending, find_sealed, loc_to_entry,
  rotate_active, try_append, append, get_versioned, read_range, read_data, read_meta_bytes,
}
use abixio.Storage.Wal.Counts.{IsValid, count_of, lies_in, get-count_up, pending_in}
use abixio.Storage.Wal.Keeps.{find_sealed-append, segment_id-create, append_first}

module _ (xxh64 : Bytes → ℕ) (u64 : (b : Bytes) → IsU64 (xxh64 b)) where
  -- An encodable needle that fits the active segment, which is smaller than 2 ^ 32 bytes, can be read
  -- back at once: its key is pending, and the entry leads to its shard data and its metadata. Every other
  -- key keeps its entry.
  pub read_data-append :
      (io : Rotation) (w : Wal) (n : Needle) (t : ℕ) (ns : List Needle) (rest : Bytes)
      → Holds xxh64 w.active t ns rest
      → IsEncodable n
      → IsU32 w.active.capacity
      → w.active.write_offset + serialized_size n ≤ w.active.capacity
      → (entry : WalEntry) × (w' : Wal) × (append xxh64 io w n ≡ (done entry, w'))
        × (get_versioned w' n.bucket n.key n.version_id ≡ some entry)
        × (read_data w' entry ≡ some n.payload)
        × (read_meta_bytes w' entry ≡ some n.meta_bytes)
        × ((b k v : Bytes)
            → pending_key b k v ≢ pending_key n.bucket n.key n.version_id
            → get_versioned w' b k v ≡ get_versioned w b k v)
  unfolding try_append add_pending get_versioned read_data read_meta_bytes read_range
  read_data-append io w n t ns rest h e wide room =
      let (seg, done_eq, meta_read, data_read) =
        read_at-append xxh64 u64 w.active t ns rest n h e wide room in
      let entry = loc_to_entry seg.segment_id (location w.active n) in
      let key = pending_key n.bucket n.key n.version_id in
      let found = get-insert key key entry w.pending in
      (
        entry,
        add_pending key entry (record w { active = seg }),
        append_first xxh64 io w n entry _ (rw (done_eq, try_append) refl),
        rw (found, beq_refl key) refl,
        rw (==_refl seg.segment_id, data_read) refl,
        rw (==_refl seg.segment_id, meta_read) refl,
        λ b k v other. ground (
          arith,
          get-insert key (pending_key b k v) entry w.pending,
          pair_beq_iff key (pending_key b k v),
        ),
      )

-- A completed rotation loses no reads: every range that could be read before, in the active or in a
-- sealed segment, reads the same bytes after it. The id of the active segment may not be among the sealed
-- ones, its write offset not be behind its file, and the read not concern the next id.
pub read_range-rotate :
    (io : Rotation) (w w' : Wal) (id off len : ℕ) (b : Bytes)
    → rotate_active io w ≡ (done tt, w')
    → id ≢ w.next_segment_id
    → find_sealed w.active.segment_id w.sealed ≡ none
    → w.active.write_offset ≤ length w.active.mmap
    → read_range w id off len ≡ some b
    → read_range w' id off len ≡ some b
unfolding rotate_active seal read_range read_at sealed_slice
read_range-rotate io w w' id off len b e fresh_id unique inside reads =
    elim (Run-cases
      (create io.opened_next io.file_next io.now w.next_segment_id w.segment_capacity)) [
        | inl (fresh, e') ↦ ground (
          arith,
          e',
          segment_id-create io.opened_next io.file_next io.now w.next_segment_id w.segment_capacity
              fresh e',
          find_sealed-append id w.sealed (record {
            segment_id = w.active.segment_id;
            mmap = w.active.mmap;
            size = w.active.write_offset;
          }),
        )
        | inr (inl (x, e')) ↦ ground (arith, e')
        | inr (inr e') ↦ ground (arith, e')
      ]

-- Where the spare is made and the flush of the old segment fails, that segment is lost to the readers:
-- no range of it can be read, while the pending entries stay. Its id has to be positive and not among the
-- sealed ones.
pub rotate_active-unflushed :
    (io : Rotation) (w : Wal) (spare : ActiveSegment) (off len : ℕ)
    → create io.opened_spare io.file_spare io.now 0 w.segment_capacity ≡ done spare
    → io.flushed ≡ false
    → w.active.segment_id ≢ 0
    → find_sealed w.active.segment_id w.sealed ≡ none
    → (read_range (rotate_active io w).1 w.active.segment_id off len ≡ none)
      × ((rotate_active io w).1.pending ≡ w.pending)
unfolding rotate_active seal read_range
rotate_active-unflushed io w spare off len made f id unique =
    ground (
      arith,
      segment_id-create io.opened_spare io.file_spare io.now 0 w.segment_capacity spare made,
    )

-- Under the invariant, overwriting an entry that is still pending leaves the count of its old segment
-- above the number of the entries that are pending there.
pub add_pending-overcounts :
    (k : PendingKey) (old e : WalEntry) (w : Wal)
    → IsValid w
    → Keyed.get k w.pending ≡ some old
    → pending_in old.segment_id (add_pending k e w) + 1
      ≤ count_of old.segment_id (add_pending k e w)
unfolding add_pending
add_pending-overcounts k old e w v found = ground (
  arith,
  v.covered old.segment_id,
  get-count_up e.segment_id old.segment_id w.counts,
  total-insert (lies_in old.segment_id) k e w.pending v.distinct,
)
