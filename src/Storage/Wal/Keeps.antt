-- ===== src/Storage/Wal/Keeps.antt =====
-- `append` and `rotate_active`: the counts of the segments and their pending entries.
use abixio.Base.{
  ℕ, ◌≡◌, refl, ap, arith, Bool, true, Option, none, some, List, [], ◌∷◌, ◌++◌, Bytes, ◌==◌,
  if◌then◌else◌, nat_eq, str_has_eq, pair_eq, inl, inr,
}
use abixio.Base.Run.{Run, done, Run-cases}
use abixio.Storage.{StorageError}
use abixio.Storage.Needle.{Needle}
use abixio.Storage.Segment.{
  ActiveSegment, SealedSegment, NeedleLocation, append as append_segment, create, seal,
}
use abixio.Storage.Wal.{
  Wal, WalEntry, Rotation, find_sealed, start_next, rotate_active, try_append, retry_append, append,
}
use abixio.Storage.Wal.Counts.{IsValid, has, add_pending-IsValid}

pub find_sealed-append :
    (id : ℕ) (ss : List SealedSegment) (s : SealedSegment)
    → find_sealed id (ss ++ s ∷ []) ≡ elim (find_sealed id ss) [
      | none ↦ if s.segment_id == id then some s else none
      | some r ↦ some r
    ]
unfolding find_sealed
find_sealed-append id [] s = refl
find_sealed-append id (r ∷ ss) s = ground (arith, find_sealed-append id ss s)

pub segment_id-create :
    (opened : Bool) (file : Bytes) (now id capacity : ℕ) (s : ActiveSegment)
    → create opened file now id capacity ≡ done s
    → s.segment_id ≡ id
unfolding create
segment_id-create opened file now id capacity s e = ground arith

-- The sealed list with one more segment has what it had, and that segment.
has-append :
    (id : ℕ) (ss : List SealedSegment) (s : SealedSegment)
    → has id (ss ++ s ∷ []) ≡ (if s.segment_id == id then true else has id ss)
has-append id ss s = ground (arith, find_sealed-append id ss s)

sealed-IsValid :
    (w w' : Wal) (s : SealedSegment)
    → IsValid w
    → s.segment_id ≡ w.active.segment_id
    → w'.sealed ≡ w.sealed ++ s ∷ []
    → w'.pending ≡ w.pending
    → w'.counts ≡ w.counts
    → IsValid w'
sealed-IsValid w w' s v p q r c = record {
  distinct = rw r v.distinct;
  covered = λ id. rw (r, c) (v.covered id);
  kept = λ id some_in. rw q (ground (arith, has-append id w.sealed s, v.kept id, p, r));
}

-- A rotation keeps the invariant, whether its files could be created or not, as long as the flush of
-- the sealed segment succeeds.
pub rotate_active-IsValid :
    (io : Rotation) (w : Wal) → io.flushed ≡ true → IsValid w → IsValid (rotate_active io w).1
unfolding rotate_active seal
rotate_active-IsValid io w f v =
    elim (Run-cases (create io.opened_spare io.file_spare io.now 0 w.segment_capacity)) [
      | inl (spare, e) ↦
          rw (e, f, rotate_active)
            (elim (Run-cases
              (create io.opened_next io.file_next io.now w.next_segment_id w.segment_capacity)) [
                | inl (fresh, e') ↦ rw (e', start_next) (sealed-IsValid w _ _ v refl refl refl refl)
                | inr (inl (x, e')) ↦
                    rw (e', start_next) (sealed-IsValid w _ _ v refl refl refl refl)
                | inr (inr e') ↦ rw (e', start_next) (sealed-IsValid w _ _ v refl refl refl refl)
              ])
      | inr (inl (x, e)) ↦ rw (e, rotate_active) v
      | inr (inr e) ↦ rw (e, rotate_active) v
    ]

module _ (xxh64 : Bytes → ℕ) where
  segment_id-append :
      (seg seg' : ActiveSegment) (n : Needle) (loc : Option NeedleLocation)
      → append_segment xxh64 seg n ≡ done (loc, seg')
      → seg'.segment_id ≡ seg.segment_id
  unfolding append_segment
  segment_id-append seg seg' n loc e = ground arith

  try_append-IsValid : (w : Wal) (n : Needle) → IsValid w → IsValid (try_append xxh64 w n).1
  unfolding try_append
  try_append-IsValid w n v = elim (Run-cases (append_segment xxh64 w.active n)) [
    | inl ((none, seg), e) ↦
        rw (e, try_append)
          (record {
            distinct = v.distinct;
            covered = v.covered;
            kept = λ id some_in. ground (arith, v.kept id, segment_id-append w.active seg n none e);
          })
    | inl ((some loc, seg), e) ↦
        rw (e, try_append)
          (add_pending-IsValid _ _ (record w { active = seg }) (ground arith)
            (record {
              distinct = v.distinct;
              covered = v.covered;
              kept = λ id some_in.
                  ground (arith, v.kept id, segment_id-append w.active seg n (some loc) e);
            }))
    | inr (inl (x, e)) ↦ rw (e, try_append) v
    | inr (inr e) ↦ rw (e, try_append) v
  ]

  retry_append-IsValid : (w : Wal) (n : Needle) → IsValid w → IsValid (retry_append xxh64 w n).1
  unfolding retry_append
  retry_append-IsValid w n v =
      let v' = try_append-IsValid w n v in
      elim (Run-cases (try_append xxh64 w n).0) [
        | inl (none, e) ↦ rw (e, retry_append) v'
        | inl (some entry, e) ↦ rw (e, retry_append) v'
        | inr (inl (x, e)) ↦ rw (e, retry_append) v'
        | inr (inr e) ↦ rw (e, retry_append) v'
      ]

  pub append_first :
      (io : Rotation) (w : Wal) (n : Needle) (entry : WalEntry) (w' : Wal)
      → try_append xxh64 w n ≡ (done (some entry), w')
      → append xxh64 io w n ≡ (done entry, w')
  unfolding append
  append_first io w n entry w' e =
      let next : (try_append xxh64 w n).1 ≡ w' =
        ap (λ (p : Run StorageError (Option WalEntry) × Wal). p.1) e in
      rw (e, append) (ap {B = Run StorageError WalEntry × Wal} (λ x. (done entry, x)) next)

  -- `append` keeps the invariant of the counts on every path: the needle fits, the segment is rotated, the
  -- needle is too large, or a file cannot be created. Only the flush of a sealed segment has to succeed.
  pub append-IsValid :
      (io : Rotation) (w : Wal) (n : Needle)
      → io.flushed ≡ true
      → IsValid w
      → IsValid (append xxh64 io w n).1
  unfolding append
  append-IsValid io w n f v =
      let v' = try_append-IsValid w n v in
      let w' = (try_append xxh64 w n).1 in
      let v'' = rotate_active-IsValid io w' f v' in
      elim (Run-cases (try_append xxh64 w n).0) [
        | inl (some entry, e) ↦ rw (e, append) v'
        | inr (inl (x, e)) ↦ rw (e, append) v'
        | inr (inr e) ↦ rw (e, append) v'
        | inl (none, e) ↦
            rw (e, append)
              (elim (Run-cases (rotate_active io w').0) [
                | inl (t, e') ↦ rw (e', append) (retry_append-IsValid _ n v'')
                | inr (inl (x, e')) ↦ rw (e', append) v''
                | inr (inr e') ↦ rw (e', append) v''
              ])
      ]
