-- ===== src/Heal/Drain.antt =====
-- src/heal/worker.rs: mrf_drain_worker, which takes objects from the queue and heals them. The disks are a
-- state that is read and written; the shutdown signal and the log are left out.
use abixio.Base.{
  ℕ, zero, suc, ◌≡◌, refl, sym, ap, subst, arith, Bool, false, Option, none, some, List, [], ◌∷◌,
  Bytes, length, Result, ok, err,
}
use abixio.Storage.{StorageError}
use abixio.Storage.Metadata.{ObjectMeta}
use abixio.Storage.Erasure.{ReedSolomon}
use abixio.Heal.Mrf.{
  MrfEntry, MrfQueue, contains_entry, remove_entry, receive, finish, mark_done, pending_count,
  IsValid,
}
use abixio.Heal.Queue.{
  QueueRun, QueueRun-IsValid, queue_of, receive-IsValid, finish-IsValid, entry_eq_refl,
}
use abixio.Heal.Worker.{Repair, HealResult, heal_object}

-- What the worker does with the disks: reading an object from each, and writing shards back; whether the write
-- to a disk succeeds is known beforehand.
pub record Disks (D : Type 0) : Type 0 where
  pub volumes : List Bytes
  pub read_shards : Bytes → Bytes → D → List (Option (Bytes × ObjectMeta))
  pub write_ok : Bytes → Bytes → D → ℕ → Bool
  pub write_shards : Bytes → Bytes → List Repair → D → D

nothing_seen : (seen : List MrfEntry) → ((e : MrfEntry) → contains_entry e seen ≡ false) → seen ≡ []
nothing_seen [] h = refl
nothing_seen (e ∷ seen) h = absurd (ground (arith, h e, entry_eq_refl e))

module _ {D : Type 0} (blake3_hex sha256_hex : Bytes → Bytes)
    (new_coder : (data_n parity_n : ℕ) → Result Bytes (ReedSolomon data_n parity_n))
    (disks : Disks D) where
  -- One healing: an error leaves the disks as they are.
  unfoldable pub heal_entry : MrfEntry → D → D
  unfolding heal_object
  heal_entry e d = written (
      heal_object blake3_hex sha256_hex new_coder (disks.write_ok e.bucket e.key d) disks.volumes
        (disks.read_shards e.bucket e.key d) e.bucket e.key)
    where
      written : Result StorageError (HealResult × List Repair) → D
      written (ok (result, repairs)) = disks.write_shards e.bucket e.key repairs d
      written (err error) = d

  unfoldable pub heal_in_flight : Option MrfEntry → D → D
  unfolding heal_entry
  heal_in_flight none d = d
  heal_in_flight (some e) d = heal_entry e d

  -- A turn of the worker that waits: it receives an entry, heals it and marks it as done.
  unfoldable pub worker_turn : MrfQueue × D → MrfQueue × D
  unfolding receive heal_in_flight finish
  worker_turn (q, d) = let busy = receive q in (finish busy, heal_in_flight busy.in_flight d)

  -- `n` turns.
  unfoldable pub drain : ℕ → MrfQueue × D → MrfQueue × D
  unfolding worker_turn
  drain zero st = st
  drain (suc n) st = drain n (worker_turn st)

  -- Each of the objects healed once, in order.
  abbrev pub heal_all : List MrfEntry → D → D
  heal_all [] d = d
  heal_all (e ∷ entries) d = heal_all entries (heal_entry e d)

  abbrev IsDrained : List MrfEntry → D → MrfQueue × D → Type 0
  IsDrained entries d (q, after) =
      (q.queued ≡ []) × (pending_count q ≡ 0) × (after ≡ heal_all entries d)

  drain_fields :
      (capacity : ℕ) (closed : Bool) (queued seen : List MrfEntry) (d : D)
      → IsValid (queue_of capacity closed queued seen none)
      → IsDrained queued d (drain (length queued) (queue_of capacity closed queued seen none, d))
  unfolding drain worker_turn receive finish mark_done heal_in_flight
  drain_fields capacity closed [] seen d (distinct, apart, tracked, bound) =
      (refl, ap length (nothing_seen seen (λ e. ground (arith, tracked e))), refl)
  drain_fields capacity closed (e ∷ queued) seen d h =
      drain_fields capacity closed queued (remove_entry e seen) (heal_entry e d) (
        finish-IsValid capacity closed queued seen (some e)
          (receive-IsValid capacity closed (e ∷ queued) seen none h))

  -- When nothing is enqueued meanwhile, a worker that waits takes every queued object in as many turns as there
  -- are, also when a healing fails: the channel is then empty, no object is pending, and the disks are as after
  -- one call of `heal_object` for each of the objects, in the order of the queue.
  pub drain_lem :
      (capacity : ℕ) (q : MrfQueue) (d : D)
      → QueueRun capacity q
      → q.in_flight ≡ none
      → ((drain (length q.queued) (q, d)).0.queued ≡ [])
        × (pending_count (drain (length q.queued) (q, d)).0 ≡ 0)
        × ((drain (length q.queued) (q, d)).1 ≡ heal_all q.queued d)
  drain_lem capacity q d r idle =
      let same : queue_of q.capacity q.closed q.queued q.seen none ≡ q =
        ap (queue_of q.capacity q.closed q.queued q.seen) (sym idle) in
      subst (λ (t : MrfQueue). IsDrained t.queued d (drain (length t.queued) (t, d))) same
        (drain_fields q.capacity q.closed q.queued q.seen d
          (subst IsValid (sym same) (QueueRun-IsValid capacity q r)))
