-- ===== src/Storage/Wal.antt =====
-- src/storage/wal.rs: the write-ahead log of one volume. `pending` and `segment_pending_counts` are
-- maps (`Base.Keyed`); a file that the code unlinks is listed in `unlinked`. What the system calls
-- of a rotation return is an argument (`Rotation`), and so are the files that recovery finds.
pub mod Counts
pub mod Keeps
pub mod Reads
pub mod Recover
pub mod Durable
pub mod OnDisk
pub mod Listing
mod Tests
use abixio.Base.{
  ℕ, ◌+◌, ◌-◌, Bool, true, false, Option, none, some, List, [], ◌∷◌, ◌++◌, Bytes, is_empty, is_ok,
  ◌==◌, Result, ok, err, if◌then◌else◌, nat_eq, str_has_eq, pair_eq, map, ltb, leb, str_eq, ◌&&◌,
}
use abixio.Base.Keyed
use abixio.Base.Run.{Run, done, failed, panicked}
use abixio.Base.Words.{as_u16, as_u32}
use abixio.Storage.{StorageError, internal, object_not_found, Cause}
use abixio.Storage.Needle.{Needle, flag_delete}
use abixio.Storage.Segment.{
  ActiveSegment, SealedSegment, NeedleLocation, Visit, create, append as append_segment, seal,
  read_at, sealed_slice, open_segment, scan, add_u32,
}

pub record WalEntry : Type 0 where
  pub segment_id : ℕ
  pub data_offset : ℕ
  pub data_len : ℕ
  pub meta_offset : ℕ
  pub meta_len : ℕ
  pub created_at : ℕ

-- (bucket, key, version_id); an empty version_id means unversioned.
abbrev pub PendingKey : Type 0
PendingKey = Bytes × (Bytes × Bytes)

abbrev pub pending_key : Bytes → Bytes → Bytes → PendingKey
pending_key bucket key version_id = (bucket, (key, version_id))

pub record Wal : Type 0 where
  pub active : ActiveSegment
  pub sealed : List SealedSegment
  pub pending : List (PendingKey × WalEntry)
  pub counts : List (ℕ × ℕ)
  pub next_segment_id : ℕ
  pub segment_capacity : ℕ
  pub unlinked : List ℕ

abbrev pub loc_to_entry : ℕ → NeedleLocation → WalEntry
loc_to_entry segment_id loc = record {
  segment_id = segment_id;
  data_offset = loc.data_offset;
  data_len = loc.data_len;
  meta_offset = loc.meta_offset;
  meta_len = loc.meta_len;
  created_at = loc.created_at;
}

abbrev pub or_zero : Option ℕ → ℕ
or_zero none = 0
or_zero (some n) = n

-- `*segment_pending_counts.entry(id).or_insert(0) += 1`
unfoldable pub count_up : ℕ → List (ℕ × ℕ) → List (ℕ × ℕ)
count_up id counts = Keyed.insert id (or_zero (Keyed.get id counts) + 1) counts

-- An entry becomes pending, and its segment counts it.
unfoldable pub add_pending : PendingKey → WalEntry → Wal → Wal
unfolding count_up
add_pending key entry w = record w {
  pending = Keyed.insert key entry w.pending;
  counts = count_up entry.segment_id w.counts;
}

-- What the environment gives to one rotation: the outcomes of its system calls, the bytes that the
-- two files hold already, and the time.
pub record Rotation : Type 0 where
  pub opened_spare : Bool
  pub file_spare : Bytes
  pub flushed : Bool
  pub opened_next : Bool
  pub file_next : Bytes
  pub now : ℕ

-- The second half of `rotate_active`: the sealed segment is kept and a new one made.
unfoldable pub start_next : Rotation → Wal → SealedSegment → Run StorageError Unit × Wal
start_next io w s =
    let kept = record w {
      sealed = w.sealed ++ s ∷ [];
      next_segment_id = add_u32 w.next_segment_id 1;
    } in
    elim (create io.opened_next io.file_next io.now w.next_segment_id w.segment_capacity) [
      | done fresh ↦ (done tt, record kept { active = fresh })
      | failed e ↦ (failed e, kept)
      | panicked ↦ (panicked, kept)
    ]

-- `rotate_active`. The spare segment 0 stands in while the old one is sealed.
unfoldable pub rotate_active : Rotation → Wal → Run StorageError Unit × Wal
unfolding start_next
rotate_active io w = elim (create io.opened_spare io.file_spare io.now 0 w.segment_capacity) [
  | failed e ↦ (failed e, w)
  | panicked ↦ (panicked, w)
  | done spare ↦ elim (seal io.flushed w.active) [
    | err e ↦ (failed e, record w { active = spare })
    | ok s ↦ start_next io (record w { active = spare }) s
  ]
]

unfoldable pub get_versioned : Wal → Bytes → Bytes → Bytes → Option WalEntry
get_versioned w bucket key version_id = Keyed.get (pending_key bucket key version_id) w.pending

unfoldable pub find_sealed : ℕ → List SealedSegment → Option SealedSegment
find_sealed id [] = none
find_sealed id (s ∷ ss) = if s.segment_id == id then some s else find_sealed id ss

-- `read_data` and `read_meta_bytes` read a range the same way.
unfoldable pub read_range : Wal → ℕ → ℕ → ℕ → Option Bytes
read_range w segment_id offset len =
    if segment_id == w.active.segment_id
    then elim (read_at w.active offset len) [ ok b ↦ some b | err e ↦ none ]
    else elim (find_sealed segment_id w.sealed) [ none ↦ none | some s ↦ sealed_slice s offset len ]

unfoldable pub read_data : Wal → WalEntry → Option Bytes
read_data w entry = read_range w entry.segment_id entry.data_offset entry.data_len

unfoldable pub read_meta_bytes : Wal → WalEntry → Option Bytes
read_meta_bytes w entry = read_range w entry.segment_id entry.meta_offset entry.meta_len

-- `read_meta`; `decode` is `Needle::decode_meta`, that is `rmp_serde::from_slice`.
unfoldable pub read_meta :
    {Meta : Type 0} → (Bytes → Option Meta) → Wal → WalEntry → Result StorageError Meta
read_meta decode w entry = elim (read_meta_bytes w entry) [
  | none ↦ err object_not_found
  | some b ↦ elim (decode b) [ none ↦ err (internal Cause.msgpack_deserialize) | some m ↦ ok m ]
]

-- `sealed.remove(position of the first segment with this id)`
unfoldable pub drop_sealed : ℕ → List SealedSegment → List SealedSegment
drop_sealed id [] = []
drop_sealed id (s ∷ ss) = if s.segment_id == id then ss else s ∷ drop_sealed id ss

unfoldable pub try_delete_segment : ℕ → Wal → Wal
try_delete_segment id w = if id == w.active.segment_id then w else elim (find_sealed id w.sealed) [
  | none ↦ w
  | some s ↦ record w { sealed = drop_sealed id w.sealed; unlinked = id ∷ w.unlinked }
]

-- One entry fewer in a segment; the last one takes the segment with it.
unfoldable pub count_down : ℕ → Wal → Wal
unfolding try_delete_segment
count_down id w = elim (Keyed.get id w.counts) [
  | none ↦ w
  | some count ↦
      if count - 1 == 0
      then try_delete_segment id (record w { counts = Keyed.remove id w.counts })
      else record w { counts = Keyed.insert id (count - 1) w.counts }
]

unfoldable pub mark_materialized_versioned : Wal → Bytes → Bytes → Bytes → Wal
unfolding count_down
mark_materialized_versioned w bucket key version_id =
    let k = pending_key bucket key version_id in
    elim (Keyed.get k w.pending) [
      | none ↦ w
      | some entry ↦ count_down entry.segment_id (record w { pending = Keyed.remove k w.pending })
    ]

-- The prefix test of `str::starts_with`.
abbrev pub starts_with : Bytes → Bytes → Bool
starts_with s [] = true
starts_with [] (p ∷ ps) = false
starts_with (c ∷ s) (p ∷ ps) = c == p && starts_with s ps

module _ (xxh64 : Bytes → ℕ) where
  -- One try of `append` on the active segment: `none` when the segment is full.
  unfoldable pub try_append : Wal → Needle → Run StorageError (Option WalEntry) × Wal
  unfolding add_pending
  try_append w n = elim (append_segment xxh64 w.active n) [
    | panicked ↦ (panicked, w)
    | failed e ↦ (failed e, w)
    | done (none, seg) ↦ (done none, record w { active = seg })
    | done (some loc, seg) ↦
        let entry = loc_to_entry seg.segment_id loc in
        (
          done (some entry),
          add_pending (pending_key n.bucket n.key n.version_id) entry (record w { active = seg }),
        )
  ]

  -- The second try, behind a rotation.
  unfoldable pub retry_append : Wal → Needle → Run StorageError WalEntry × Wal
  retry_append w n =
      let (second, w') = try_append w n in
      elim second [
        | panicked ↦ (panicked, w')
        | failed e ↦ (failed e, w')
        | done none ↦ (failed (internal Cause.too_large_for_segment), w')
        | done (some entry) ↦ (done entry, w')
      ]

  unfoldable pub append : Rotation → Wal → Needle → Run StorageError WalEntry × Wal
  append io w n =
      let (first, w') = try_append w n in
      elim first [
        | panicked ↦ (panicked, w')
        | failed e ↦ (failed e, w')
        | done (some entry) ↦ (done entry, w')
        | done none ↦
            (let (rotated, w'') = rotate_active io w' in
              elim rotated [
                | panicked ↦ (panicked, w'')
                | failed e ↦ (failed e, w'')
                | done _ ↦ retry_append w'' n
              ])
      ]
