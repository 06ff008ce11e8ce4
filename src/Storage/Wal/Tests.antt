-- ===== src/Storage/Wal/Tests.antt =====
-- The theorems on the log at concrete inputs.
use abixio.Base.{
  ◌+◌, ◌≤◌, ◌≡◌, ◌≢◌, refl, arith, true, false, some, none, [], ◌∷◌, ◌++◌, ◌&&◌, drop, Bytes,
  replicate, str_has_eq, nat_eq, pair_eq,
}
use abixio.Base.Keyed
use abixio.Base.Run.{done}
use abixio.Base.Slices.{write_at}
use abixio.Storage.Needle.{serialized_size}
use abixio.Storage.Needle.Samples.{value_hash, value_hash-IsU64, small, small-IsEncodable}
use abixio.Storage.Segment.{
  sealed_slice, ActiveSegment, create, superblock, superblock_bytes, read_at, seal,
}
use abixio.Storage.Segment.Samples.{one, one-Holds, capacity_one, fresh, fresh-Holds}
use abixio.Storage.Wal.{
  Wal, WalEntry, PendingKey, Rotation, pending_key, add_pending, append, get_versioned, read_data,
  read_meta_bytes, read_range, rotate_active, find_sealed, mark_materialized_versioned,
}
use abixio.Storage.Segment.Scan.{sealed_of}
use abixio.Storage.Wal.{starts_with}
use abixio.Storage.Wal.Recover.{Outside, recover_segment}
use abixio.Storage.Wal.OnDisk.{recover_segment-on_disk}
use abixio.Storage.Wal.Durable.{key_of, recover_segment-durable}
use abixio.Storage.Wal.Listing.{list_keys, list_keys_lem, IsUnique, is_pending, contains_key}
use abixio.Storage.Wal.Counts.{
  IsValid, pending_in, count_of, add_pending-IsValid, mark_materialized_versioned-IsValid,
}
use abixio.Storage.Wal.Keeps.{rotate_active-IsValid, append-IsValid}
use abixio.Storage.Wal.Reads.{
  read_data-append, read_range-rotate, rotate_active-unflushed, add_pending-overcounts,
}

abbrev empty_log : Wal
empty_log = record {
  active = fresh;
  sealed = [];
  pending = [];
  counts = [];
  next_segment_id = 4;
  segment_capacity = 100;
  unlinked = [];
}

abbrev rotation : Rotation
rotation = record {
  opened_spare = true;
  file_spare = [];
  flushed = true;
  opened_next = true;
  file_next = [];
  now = 1700;
}

abbrev unflushed : Rotation
unflushed = record rotation { flushed = false }

abbrev entry : WalEntry
entry = record {
  segment_id = 3;
  data_offset = 70;
  data_len = 1;
  meta_offset = 68;
  meta_len = 2;
  created_at = 0;
}

abbrev key_b : PendingKey
key_b = pending_key (b'b' ∷ []) (b'k' ∷ []) []

-- One entry is pending.
abbrev one_pending : Wal
one_pending = add_pending key_b entry empty_log

empty_log-IsValid : IsValid empty_log
unfolding Keyed.total Keyed.get
empty_log-IsValid = record {
  distinct = tt;
  covered = λ id. omega arith;
  kept = λ id some_in. absurd (omega arith);
}

one_pending-IsValid : IsValid one_pending
one_pending-IsValid = add_pending-IsValid key_b entry empty_log refl empty_log-IsValid

mark_materialized_versioned-IsValid_example :
    IsValid (mark_materialized_versioned one_pending (b'b' ∷ []) (b'k' ∷ []) [])
mark_materialized_versioned-IsValid_example =
    mark_materialized_versioned-IsValid one_pending (b'b' ∷ []) (b'k' ∷ []) [] one_pending-IsValid

rotate_active-IsValid_example : IsValid (rotate_active rotation one_pending).1
rotate_active-IsValid_example = rotate_active-IsValid rotation one_pending refl one_pending-IsValid

append-IsValid_example : IsValid (append value_hash rotation one_pending small).1
append-IsValid_example =
    append-IsValid value_hash rotation one_pending small refl one_pending-IsValid

read_data-append_example :
    (e : WalEntry) × (w' : Wal) × (append value_hash rotation empty_log small ≡ (done e, w'))
    × (get_versioned w' (b'b' ∷ []) (b'k' ∷ []) [] ≡ some e)
    × (read_data w' e ≡ some (7 ∷ []))
    × (read_meta_bytes w' e ≡ some (1 ∷ 2 ∷ []))
    × ((b k v : Bytes)
        → pending_key b k v ≢ key_b
        → get_versioned w' b k v ≡ get_versioned empty_log b k v)
unfolding serialized_size
read_data-append_example =
    read_data-append value_hash value_hash-IsU64 rotation empty_log small 1700 [] (replicate 68 0)
      fresh-Holds small-IsEncodable (omega arith) (omega arith)

add_pending-overcounts_example :
    pending_in 3 (add_pending key_b entry one_pending) + 1
    ≤ count_of 3 (add_pending key_b entry one_pending)
unfolding add_pending Keyed.insert Keyed.get
add_pending-overcounts_example =
    add_pending-overcounts key_b entry entry one_pending one_pending-IsValid refl

rotated : rotate_active rotation empty_log ≡ (done tt, (rotate_active rotation empty_log).1)
unfolding rotate_active create seal write_at superblock_bytes
rotated = refl

read_first : read_range empty_log 3 0 2 ≡ some (65 ∷ 66 ∷ [])
unfolding read_range read_at superblock_bytes
read_first = refl

read_range-rotate_example :
    read_range (rotate_active rotation empty_log).1 3 0 2 ≡ some (65 ∷ 66 ∷ [])
unfolding find_sealed superblock_bytes
read_range-rotate_example =
    read_range-rotate rotation empty_log (rotate_active rotation empty_log).1 3 0 2 (65 ∷ 66 ∷ [])
      rotated (λ e. omega arith) refl (omega arith) read_first

abbrev spare : ActiveSegment
spare = record {
  segment_id = 0;
  mmap = superblock_bytes (superblock 0 1700) ++ replicate 68 0;
  write_offset = 32;
  capacity = 100;
}

spare_created : create true [] 1700 0 100 ≡ done spare
unfolding create superblock_bytes write_at
spare_created = refl

rotate_active-unflushed_example :
    (read_range (rotate_active unflushed empty_log).1 3 0 2 ≡ none)
    × ((rotate_active unflushed empty_log).1.pending ≡ empty_log.pending)
unfolding find_sealed
rotate_active-unflushed_example =
    rotate_active-unflushed unflushed empty_log spare 0 2 spare_created refl (λ e. omega arith) refl

-- Nothing is on disk, and no metadata can be read.
abbrev bare : Outside
bare = record { on_disk = λ k. false; created_at = λ b. none }

recover_segment-durable_example :
    (e : WalEntry) × (get_versioned
        (recover_segment value_hash bare empty_log (sealed_of one))
        (b'b' ∷ [])
        (b'k' ∷ [])
        []
      ≡ some e)
    × (e.segment_id ≡ one.segment_id)
    × (sealed_slice (sealed_of one) e.data_offset e.data_len ≡ some (7 ∷ []))
    × (sealed_slice (sealed_of one) e.meta_offset e.meta_len ≡ some (1 ∷ 2 ∷ []))
recover_segment-durable_example =
    recover_segment-durable value_hash value_hash-IsU64 bare empty_log one 1700 [] small []
      (drop (serialized_size small) (replicate 68 0)) one-Holds (small-IsEncodable, tt)
      (omega (arith, capacity_one)) (λ p. omega arith) refl tt

list_keys_lem_example :
    IsUnique (list_keys one_pending (b'b' ∷ []) [])
    × ((key : Bytes)
        → contains_key key (list_keys one_pending (b'b' ∷ []) [])
          ≡ (is_pending (b'b' ∷ []) key one_pending.pending && starts_with key []))
list_keys_lem_example = list_keys_lem (b'b' ∷ []) [] one_pending

-- Everything is on disk already.
abbrev full_disk : Outside
full_disk = record { on_disk = λ k. true; created_at = λ b. none }

nothing_pending : Keyed.get (key_of small) empty_log.pending ≡ none
unfolding Keyed.get
nothing_pending = refl

recover_segment-on_disk_example :
    Keyed.get
      (key_of small)
      (recover_segment value_hash full_disk empty_log (sealed_of one)).pending
    ≡ none
recover_segment-on_disk_example =
    recover_segment-on_disk value_hash full_disk empty_log (sealed_of one) (key_of small) refl
      nothing_pending
