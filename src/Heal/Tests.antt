-- ===== src/Heal/Tests.antt =====
-- A mirrored object whose copy is lost, and a queue of one place.
use abixio.Base.{
  ℕ, zero, suc, ◌≤◌, ◌≡◌, ◌↔◌, ◌&&◌, str_eq, ◌⊎◌, refl, arith, true, false, Option, none, some,
  List, [], ◌∷◌, Bytes, length, str_has_eq, Result, ok, err,
}
use abixio.Base.Keyed.{get}
use abixio.Storage.Metadata.{ObjectMeta, data_shards, parity_shards, quorum_eq}
use abixio.Storage.Erasure.{ReedSolomon}
use abixio.Storage.Erasure.Samples.{mirror}
use abixio.Heal.Mrf.{
  MrfEntry, MrfQueue, new, enqueue, receive, finish, mark_done, pending_count, contains_entry,
  IsValid,
}
use abixio.Heal.Queue.{
  QueueRun, started, stepped, enqueued, received, QueueRun-IsValid, enqueue_in_flight,
}
use abixio.Heal.Scanner.{ScanState, should_scan, mark_checked, scan_object}
use abixio.Heal.Scans.{IsPlain, should_scan-mark_checked, scan_object_lem}
use abixio.Storage.Pathing.{validate_bucket_name, validate_object_key, validate_key_segments}
use abixio.Heal.Drain.{Disks, drain, worker_turn, heal_in_flight, heal_entry, heal_all, drain_lem}
use abixio.Heal.Worker.{
  Repair, repaired, heal_reads, heal_slots, repairs_from, repair_meta, heal_object,
  find_consensus_meta, group_metas, add_meta, classify,
}
use abixio.Heal.Repair.{IsHealed, heal_object-IsHealed}

abbrev entry : MrfEntry
entry = record { bucket = 98 ∷ []; key = 107 ∷ [] }

abbrev one_queued : MrfQueue
one_queued = (enqueue entry (new 1)).1

abbrev one_queued_reachable : QueueRun 1 one_queued
one_queued_reachable = stepped started (enqueued entry (new 1))

enqueued_idle : one_queued.in_flight ≡ none
unfolding enqueue new
enqueued_idle = refl

received_busy : (receive one_queued).in_flight ≡ some entry
unfolding receive enqueue new
received_busy = refl

QueueRun-IsValid_example : IsValid (receive one_queued)
QueueRun-IsValid_example =
    QueueRun-IsValid 1 (receive one_queued) (stepped one_queued_reachable (received one_queued))

enqueue_in_flight_example : enqueue entry (receive one_queued) ≡ (ok tt, receive one_queued)
enqueue_in_flight_example =
    enqueue_in_flight 1 (receive one_queued) entry
      (stepped one_queued_reachable (received one_queued)) received_busy

abbrev hourly : ScanState
hourly = record { last_checked = []; heal_interval = 60 }

should_scan-mark_checked_example :
    should_scan 50 (98 ∷ []) (108 ∷ []) (mark_checked 10 (98 ∷ []) (107 ∷ []) hourly) ≡ true
unfolding should_scan get
should_scan-mark_checked_example =
    should_scan-mark_checked 10 50 (98 ∷ []) (98 ∷ []) (107 ∷ []) (108 ∷ []) hourly refl refl

due_at_first : should_scan 5 (98 ∷ []) (107 ∷ []) hourly ≡ true
unfolding should_scan get
due_at_first = refl

scan_object_lem_example :
    ((contains_entry entry (scan_object 5 (λ b k. true) (98 ∷ []) (107 ∷ []) (hourly, new 1)).1.seen
        ≡ true)
      ⊎ (((new 1).closed ≡ true) ⊎ ((new 1).capacity ≤ length (new 1).queued)))
    × ((should_scan 64
            (98 ∷ [])
            (107 ∷ [])
            (scan_object 5 (λ b k. true) (98 ∷ []) (107 ∷ []) (hourly, new 1)).0
          ≡ true)
        ↔ (65 ≤ 64))
    × ((c l : Bytes)
        → IsPlain c
        → (str_eq (98 ∷ []) c && str_eq (107 ∷ []) l) ≡ false
        → should_scan 64 c l (scan_object 5 (λ b k. true) (98 ∷ []) (107 ∷ []) (hourly, new 1)).0
          ≡ should_scan 64 c l hourly)
scan_object_lem_example =
    scan_object_lem 5 64 (λ b k. true) (98 ∷ []) (107 ∷ []) hourly (new 1) refl due_at_first refl
      (omega arith)

-- The library makes the mirror, and nothing else.
abbrev mirror_only : (data_n parity_n : ℕ) → Result Bytes (ReedSolomon data_n parity_n)
mirror_only zero parity_n = err []
mirror_only (suc zero) zero = err []
mirror_only (suc zero) (suc zero) = ok mirror
mirror_only (suc zero) (suc (suc parity_n)) = err []
mirror_only (suc (suc data_n)) parity_n = err []

abbrev text_hash : Bytes → Bytes
text_hash shard = shard

abbrev other_hash : Bytes → Bytes
other_hash shard = 0 ∷ shard

abbrev first_meta_of : ObjectMeta
first_meta_of = record {
  size = 2;
  etag = [];
  content_type = [];
  created_at = 0;
  erasure = record { ftt = 1; index = 0; epoch_id = 0; volume_ids = (1 ∷ []) ∷ (2 ∷ []) ∷ [] };
  checksum = 7 ∷ 8 ∷ [];
  user_metadata = [];
  tags = [];
  version_id = [];
  is_latest = true;
  is_delete_marker = false;
  parts = [];
  inline_data = none;
}

abbrev half_reads : List (Option (Bytes × ObjectMeta))
half_reads = some (7 ∷ 8 ∷ [], first_meta_of) ∷ none ∷ []

half_agreed : find_consensus_meta half_reads 1 ≡ ok first_meta_of
unfolding find_consensus_meta group_metas add_meta
half_agreed = refl

-- The bucket `b1` and the key `k`.
abbrev bucket_b1 : Bytes
bucket_b1 = 98 ∷ 49 ∷ []

b1_named : validate_bucket_name bucket_b1 ≡ ok tt
unfolding validate_bucket_name
b1_named = refl

k_named : validate_object_key (107 ∷ []) ≡ ok tt
unfolding validate_object_key validate_key_segments
k_named = refl

-- The lost copy is written to the second disk.
half_healed :
    (heal_object text_hash other_hash mirror_only
      (λ disk. true)
      ((1 ∷ []) ∷ (2 ∷ []) ∷ [])
      half_reads
      bucket_b1
      (107 ∷ []))
    ≡ ok (
      repaired 1,
      record {
        disk_idx = 1;
        shard = 7 ∷ 8 ∷ [];
        meta = repair_meta text_hash other_hash first_meta_of 1 (7 ∷ 8 ∷ []);
      }
          ∷ [],
    )
unfolding heal_object heal_reads heal_slots find_consensus_meta group_metas add_meta classify
    repairs_from validate_bucket_name validate_object_key validate_key_segments data_shards
    parity_shards quorum_eq
half_healed = refl

heal_object-IsHealed_example :
    IsHealed text_hash other_hash first_meta_of
      ((7 ∷ 8 ∷ []) ∷ (7 ∷ 8 ∷ []) ∷ [])
      (λ disk. true)
      ((1 ∷ []) ∷ (2 ∷ []) ∷ [])
      1
      (classify text_hash other_hash first_meta_of 2 half_reads (none ∷ none ∷ []))
      (heal_object text_hash other_hash mirror_only
        (λ disk. true)
        ((1 ∷ []) ∷ (2 ∷ []) ∷ [])
        half_reads
        bucket_b1
        (107 ∷ []))
unfolding data_shards parity_shards
heal_object-IsHealed_example =
    heal_object-IsHealed text_hash other_hash mirror_only (λ disk. true) ((1 ∷ []) ∷ (2 ∷ []) ∷ [])
      half_reads bucket_b1 (107 ∷ []) first_meta_of first_meta_of 2 mirror ((7 ∷ 8 ∷ []) ∷ [])
      b1_named k_named refl half_agreed refl (omega arith) (refl, tt) refl ((λ a b. refl), (tt, tt))

-- Disks that keep what was last written to them.
abbrev Shards : Type 0
Shards = List (Option (Bytes × ObjectMeta))

abbrev write_one : ℕ → Bytes × ObjectMeta → Shards → Shards
write_one i shard [] = []
write_one zero shard (d ∷ disks) = some shard ∷ disks
write_one (suc i) shard (d ∷ disks) = d ∷ write_one i shard disks

abbrev write_repairs : List Repair → Shards → Shards
write_repairs [] disks = disks
write_repairs (r ∷ repairs) disks =
    write_repairs repairs (write_one r.disk_idx (r.shard, r.meta) disks)

abbrev two_disks : Disks Shards
two_disks = record {
  volumes = (1 ∷ []) ∷ (2 ∷ []) ∷ [];
  read_shards = λ bucket key disks. disks;
  write_ok = λ bucket key disks i. true;
  write_shards = λ bucket key repairs disks. write_repairs repairs disks;
}

abbrev named_entry : MrfEntry
named_entry = record { bucket = bucket_b1; key = 107 ∷ [] }

abbrev named_queued : MrfQueue
named_queued = (enqueue named_entry (new 1)).1

named_idle : named_queued.in_flight ≡ none
unfolding enqueue new
named_idle = refl

drain_lem_example :
    let after =
      drain text_hash other_hash mirror_only two_disks
        (length named_queued.queued)
        (named_queued, half_reads) in
    (after.0.queued ≡ [])
    × (pending_count after.0 ≡ 0)
    × (after.1 ≡ heal_all text_hash other_hash mirror_only two_disks named_queued.queued half_reads)
drain_lem_example =
    drain_lem text_hash other_hash mirror_only two_disks 1 named_queued half_reads
      (stepped started (enqueued named_entry (new 1))) named_idle

-- The worker brings the lost copy back.
drained_copy :
    (drain text_hash other_hash mirror_only two_disks 1 (named_queued, half_reads)).1
    ≡ some (7 ∷ 8 ∷ [], first_meta_of)
      ∷ some (7 ∷ 8 ∷ [], repair_meta text_hash other_hash first_meta_of 1 (7 ∷ 8 ∷ []))
      ∷ []
unfolding drain worker_turn receive heal_in_flight heal_entry enqueue new heal_object heal_reads
    heal_slots find_consensus_meta group_metas add_meta classify repairs_from validate_bucket_name
    validate_object_key validate_key_segments data_shards parity_shards quorum_eq finish mark_done
drained_copy = refl
