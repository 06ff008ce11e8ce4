-- ===== src/Storage/Pool/Quorums.antt =====
-- src/storage/volume_pool.rs: every object gets as many shards as there are disks, and what an acknowledged
-- deletion leaves.
use abixio.Base.{
  ℕ, zero, suc, ◌+◌, ◌-◌, ◌≤◌, ◌<◌, ◌≡◌, refl, ap, subst, arith, Bool, true, false, Option, none,
  some, List, [], ◌∷◌, ◌++◌, Bytes, ◌==◌, if◌then◌else◌, ltb, leb, length, replicate, Bool-cases,
  inl, inr, Result, ok, err, refuse_if, length-append, length-replicate,
}
use abixio.Storage.{StorageError, object_not_found}
use abixio.Storage.Pool.{
  default_ftt, ftt_to_ec, ok_else, bucket_ec, Deletion, deleted, absent, failed, count_done,
  any_deleted, delete_answers,
}

-- All disks get a shard, one of data at least.
abbrev pub IsFull : ℕ → ℕ × ℕ → Type 0
IsFull num_disks (data_n, parity_n) = (data_n + parity_n ≡ num_disks) × (0 < data_n)

module _ (ftt_text mismatch_text : ℕ → ℕ → Bytes) where
  ok_else-IsFull :
      (ftt num_disks : ℕ) (other : ℕ × ℕ)
      → (leb num_disks ftt ≡ true → IsFull num_disks other)
      → 0 < num_disks
      → IsFull num_disks
          (ok_else ftt_text mismatch_text other (ftt_to_ec ftt_text mismatch_text ftt num_disks))
  unfolding ftt_to_ec
  ok_else-IsFull ftt num_disks other h p =
      let some_disk : (num_disks == 0) ≡ false = ground arith in
      elim (Bool-cases (leb num_disks ftt)) [
        | inl many ↦ rw (some_disk, many) (h many)
        | inr fits ↦ rw (some_disk, fits) (ground arith, ground arith)
      ]

  pub bucket_ec-IsFull :
      (num_disks : ℕ) (settings : List (Option ℕ))
      → 0 < num_disks
      → IsFull num_disks (bucket_ec ftt_text mismatch_text num_disks settings)
  unfolding bucket_ec
  bucket_ec-IsFull num_disks [] p =
      ok_else-IsFull (default_ftt num_disks) num_disks (1, 0) (λ h. absurd (ground arith)) p
  bucket_ec-IsFull num_disks (none ∷ settings) p = bucket_ec-IsFull num_disks settings p
  bucket_ec-IsFull num_disks (some ftt ∷ settings) p =
      ok_else-IsFull ftt num_disks _ (λ h. bucket_ec-IsFull num_disks settings p) p

count_done_le : (answers : List Deletion) → count_done answers ≤ length answers
count_done_le [] = omega arith
count_done_le (deleted ∷ answers) = omega (arith, count_done_le answers)
count_done_le (absent ∷ answers) = omega (arith, count_done_le answers)
count_done_le (failed ∷ answers) = omega (arith, count_done_le answers)

refuse_ok : (bad : Bool) (e : StorageError) → refuse_if bad e ≡ ok tt → bad ≡ false
refuse_ok true e h = cc
refuse_ok false e h = refl

err_not_ok : {e : StorageError} → ◌≡◌ {A = Result StorageError Unit} (err e) (ok tt) → ⊥
err_not_ok h = subst (λ (r : Result StorageError Unit). is_err r) h tt
  where
    is_err : Result StorageError Unit → Type 0
    is_err (ok a) = ⊥
    is_err (err e) = Unit

none_done : (n : ℕ) → count_done (replicate n failed) ≡ 0
none_done zero = refl
none_done (suc n) = none_done n

count_done-rest : (m n : ℕ) → count_done (replicate m deleted ++ replicate n failed) ≡ m
count_done-rest zero n = none_done n
count_done-rest (suc m) n = ap suc (count_done-rest m n)

-- With at most as many parity shards as data shards, and one answer for each shard, a deletion of an object
-- that is not cached is acknowledged only when the disks that failed are too few to read the object.
pub delete_answers_done :
    (data_n parity_n : ℕ) (answers : List Deletion)
    → 0 < data_n
    → parity_n ≤ data_n
    → length answers ≡ data_n + parity_n
    → delete_answers (data_n, parity_n) false answers ≡ ok tt
    → length answers < count_done answers + data_n
unfolding delete_answers
delete_answers_done data_n parity_n answers p few total h =
    elim (Bool-cases (any_deleted answers)) [
      | inl found ↦
          let quorum : ℕ = if parity_n == 0 then data_n else data_n + 1 in
          let enough : ltb (count_done answers) quorum ≡ false =
            refuse_ok (ltb (count_done answers) quorum) _ (rw found at h) in
          ground arith
      | inr nothing ↦
          let refused : err object_not_found ≡ ok tt = rw nothing at h in
          absurd (err_not_ok refused)
    ]

-- With more parity shards than data shards, a deletion is acknowledged although the disks that failed hold
-- enough shards to read the object: the quorum is one more than the data shards.
pub delete_answers_leaves :
    (data_n parity_n : ℕ)
    → 0 < data_n
    → data_n < parity_n
    → (answers : List Deletion) × (length answers ≡ data_n + parity_n)
      × (delete_answers (data_n, parity_n) false answers ≡ ok tt)
      × (count_done answers + data_n ≤ length answers)
unfolding delete_answers
delete_answers_leaves data_n parity_n p many =
    let rest : List Deletion = replicate data_n deleted ++ replicate (parity_n - 1) failed in
    let done : count_done rest ≡ data_n = count_done-rest data_n (parity_n - 1) in
    let size : length rest ≡ data_n + (parity_n - 1) = omega (
      arith,
      length-append (replicate data_n deleted) (replicate (parity_n - 1) failed),
      length-replicate data_n deleted,
      length-replicate (parity_n - 1) failed,
    ) in
    let coded : (parity_n == 0) ≡ false = ground arith in
    let enough : ltb (suc (count_done rest)) (data_n + 1) ≡ false = ground arith in
    (deleted ∷ rest, omega arith, rw (coded, enough) refl, omega arith)
