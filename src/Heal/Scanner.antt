-- ===== src/Heal/Scanner.antt =====
-- src/heal/scanner.rs, and the scan cycle of src/heal/worker.rs: which objects are looked at again, and which are
-- put into the queue. `now` is the time of the call.
use abixio.Base.{
  ℕ, ◌+◌, ◌-◌, Bool, true, false, ◌&&◌, Option, none, some, List, [], ◌∷◌, ◌++◌, Bytes,
  if◌then◌else◌, ltb, leb, length, str_has_eq,
}
use abixio.Base.Keyed.{get, insert}
use abixio.Storage.Metadata.{ObjectMeta, data_shards, parity_shards, quorum_eq}
use abixio.Storage.Erasure.Decode.{verify_shard_checksum}
use abixio.Heal.Mrf.{MrfQueue, enqueue}

pub record ScanState : Type 0 where
  pub last_checked : List (Bytes × ℕ)
  pub heal_interval : ℕ

-- `format!("{}/{}", bucket, key)`
abbrev pub obj_key : Bytes → Bytes → Bytes
obj_key bucket key = bucket ++ (47 ∷ key)

unfoldable pub should_scan : ℕ → Bytes → Bytes → ScanState → Bool
unfolding get
should_scan now bucket key s = due (get (obj_key bucket key) s.last_checked)
  where
    due : Option ℕ → Bool
    due none = true
    due (some last) = leb s.heal_interval (now - last)

unfoldable pub mark_checked : ℕ → Bytes → Bytes → ScanState → ScanState
unfolding insert
mark_checked now bucket key s = record s {
  last_checked = insert (obj_key bucket key) now s.last_checked;
}

abbrev pub checked_count : ScanState → ℕ
checked_count s = length s.last_checked

module _ (blake3_hex sha256_hex : Bytes → Bytes) where
  abbrev pub count_good : ObjectMeta → List (Option (Bytes × ObjectMeta)) → ℕ
  count_good meta [] = 0
  count_good meta (none ∷ reads) = count_good meta reads
  count_good meta (some (shard, disk_meta) ∷ reads) =
      (if ltb disk_meta.erasure.index (data_shards meta.erasure + parity_shards meta.erasure)
          && quorum_eq disk_meta meta
          && verify_shard_checksum blake3_hex sha256_hex shard disk_meta.checksum
        then 1
        else 0)
      + count_good meta reads

  -- The first disk with metadata, and the reads of all disks.
  unfoldable pub object_needs_healing :
      Option ObjectMeta → List (Option (Bytes × ObjectMeta)) → Bool
  object_needs_healing none reads = false
  object_needs_healing (some meta) reads =
      ltb (count_good meta reads) (data_shards meta.erasure + parity_shards meta.erasure)

-- One object of a scan cycle, when `needs` says whether it needs healing.
unfoldable pub scan_object :
    ℕ → (Bytes → Bytes → Bool) → Bytes → Bytes → ScanState × MrfQueue → ScanState × MrfQueue
unfolding should_scan mark_checked
scan_object now needs bucket key (s, q) =
    if should_scan now bucket key s
    then (
      mark_checked now bucket key s,
      if needs bucket key then (enqueue (record { bucket = bucket; key = key }) q).1 else q,
    )
    else (s, q)

unfoldable pub scan_keys :
    ℕ → (Bytes → Bytes → Bool) → Bytes → List Bytes → ScanState × MrfQueue → ScanState × MrfQueue
unfolding scan_object
scan_keys now needs bucket [] st = st
scan_keys now needs bucket (key ∷ keys) st =
    scan_keys now needs bucket keys (scan_object now needs bucket key st)

-- `run_scan_cycle`, with the buckets of the first disk and the keys of each; the reads that fail are left out.
unfoldable pub run_scan_cycle :
    ℕ
    → (Bytes → Bytes → Bool)
    → List (Bytes × List Bytes)
    → ScanState × MrfQueue
    → ScanState × MrfQueue
unfolding scan_keys
run_scan_cycle now needs [] st = st
run_scan_cycle now needs ((bucket, keys) ∷ buckets) st =
    run_scan_cycle now needs buckets (scan_keys now needs bucket keys st)
