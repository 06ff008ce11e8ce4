-- ===== src/Storage/Wal/Counts.antt =====
-- The count of a segment covers its pending entries, so that no segment is unlinked while one of
-- them lies in it.
use abixio.Base.{
  ℕ, ◌+◌, ◌-◌, ◌≤◌, ◌<◌, ◌≡◌, ◌≢◌, refl, arith, Bool, true, false, none, some, List, [], ◌∷◌, Bytes,
  ◌==◌, if◌then◌else◌, nat_eq, str_has_eq, pair_eq, Option-cases, Bool-cases, inl, inr,
}
use abixio.Base.Keyed
use abixio.Base.Keyed.{
  total, size_at, IsDistinct, total-remove, total-insert, get-insert, get-remove, insert-IsDistinct,
  remove-IsDistinct,
}
use abixio.Storage.Segment.{SealedSegment}
use abixio.Storage.Wal.{
  Wal, WalEntry, PendingKey, pending_key, or_zero, count_up, add_pending, count_down,
  try_delete_segment, find_sealed, drop_sealed, mark_materialized_versioned,
}

-- 1 for an entry of the segment.
abbrev pub lies_in : ℕ → WalEntry → ℕ
lies_in id e = if e.segment_id == id then 1 else 0

-- How many pending entries lie in a segment.
abbrev pub pending_in : ℕ → Wal → ℕ
pending_in id w = total (lies_in id) w.pending

abbrev pub count_of : ℕ → Wal → ℕ
count_of id w = or_zero (Keyed.get id w.counts)

abbrev pub has : ℕ → List SealedSegment → Bool
has id ss = elim (find_sealed id ss) [ none ↦ false | some s ↦ true ]

-- A segment that can be read.
abbrev pub is_kept : ℕ → Wal → Bool
is_kept id w = if id == w.active.segment_id then true else has id w.sealed

pub record IsValid (w : Wal) : Type 0 where
  pub distinct : IsDistinct w.pending
  pub covered : (id : ℕ) → pending_in id w ≤ count_of id w
  pub kept : (id : ℕ) → 0 < pending_in id w → is_kept id w ≡ true

pub get-count_up :
    (id j : ℕ) (counts : List (ℕ × ℕ))
    → or_zero (Keyed.get j (count_up id counts))
      ≡ or_zero (Keyed.get j counts) + (if id == j then 1 else 0)
unfolding count_up
get-count_up id j counts =
    ground (arith, get-insert id j (or_zero (Keyed.get id counts) + 1) counts)

-- Adding an entry of a segment that is kept keeps the invariant, also where it replaces another.
pub add_pending-IsValid :
    (k : PendingKey) (e : WalEntry) (w : Wal)
    → is_kept e.segment_id w ≡ true
    → IsValid w
    → IsValid (add_pending k e w)
unfolding add_pending
add_pending-IsValid k e w there v = record {
  distinct = insert-IsDistinct k e w.pending v.distinct;
  covered = λ id. ground (
    arith,
    v.covered id,
    get-count_up e.segment_id id w.counts,
    total-insert (lies_in id) k e w.pending v.distinct,
  );
  kept = λ id some_in.
      ground (arith, v.kept id, total-insert (lies_in id) k e w.pending v.distinct, there);
}

find_sealed-drop :
    (id j : ℕ) (ss : List SealedSegment)
    → id ≢ j
    → find_sealed j (drop_sealed id ss) ≡ find_sealed j ss
unfolding find_sealed drop_sealed
find_sealed-drop id j [] ne = refl
find_sealed-drop id j (s ∷ ss) ne = ground (arith, find_sealed-drop id j ss)

-- What holds between the removal of an entry of segment `id` and the update of its count.
record IsOver (id : ℕ) (w : Wal) : Type 0 where
  distinct : IsDistinct w.pending
  covered : (j : ℕ) → pending_in j w + (if id == j then 1 else 0) ≤ count_of j w
  kept : (j : ℕ) → 0 < pending_in j w → is_kept j w ≡ true

remove-IsOver :
    (k : PendingKey) (e : WalEntry) (w : Wal)
    → Keyed.get k w.pending ≡ some e
    → IsValid w
    → IsOver e.segment_id (record w { pending = Keyed.remove k w.pending })
remove-IsOver k e w found v = record {
  distinct = remove-IsDistinct k w.pending v.distinct;
  covered = λ j. ground (arith, v.covered j, total-remove (lies_in j) k w.pending v.distinct);
  kept = λ j some_in. ground (arith, v.kept j, total-remove (lies_in j) k w.pending v.distinct);
}

-- Deleting a segment in which nothing is pending.
try_delete_segment-IsValid :
    (id : ℕ) (w : Wal) → IsValid w → pending_in id w ≡ 0 → IsValid (try_delete_segment id w)
unfolding try_delete_segment
try_delete_segment-IsValid id w v empty = elim (Bool-cases (id == w.active.segment_id)) [
  | inl active ↦ rw active v
  | inr other ↦ elim (Option-cases (find_sealed id w.sealed)) [
    | inl missing ↦ rw (other, missing, try_delete_segment) v
    | inr (s, found) ↦
        rw (other, found, try_delete_segment)
          (record {
            distinct = v.distinct;
            covered = v.covered;
            kept = λ j some_in. ground (arith, v.kept j, find_sealed-drop id j w.sealed);
          })
  ]
]

count_down-IsValid : (id : ℕ) (w : Wal) → IsOver id w → IsValid (count_down id w)
unfolding count_down
count_down-IsValid id w o = elim (Option-cases (Keyed.get id w.counts)) [
  | inl missing ↦ absurd (ground (arith, o.covered id, missing))
  | inr (c, found) ↦ elim (Bool-cases (c - 1 == 0)) [
    | inl last ↦
        rw (found, last, count_down)
          (try_delete_segment-IsValid id _
            (record {
              distinct = o.distinct;
              covered = λ j. ground (arith, o.covered j, found, last, get-remove id j w.counts);
              kept = o.kept;
            })
            (ground (arith, o.covered id, found, last)))
    | inr more ↦
        rw (found, more, count_down)
          (record {
            distinct = o.distinct;
            covered =
                λ j. ground (arith, o.covered j, found, more, get-insert id j (c - 1) w.counts);
            kept = o.kept;
          })
  ]
]

-- Marking an entry as materialised keeps the invariant, under which each count covers the pending
-- entries of its segment, and a segment in which an entry is pending is active or sealed.
pub mark_materialized_versioned-IsValid :
    (w : Wal) (bucket key version_id : Bytes)
    → IsValid w
    → IsValid (mark_materialized_versioned w bucket key version_id)
unfolding mark_materialized_versioned
mark_materialized_versioned-IsValid w bucket key version_id v =
    let k = pending_key bucket key version_id in
    elim (Option-cases (Keyed.get k w.pending)) [
      | inl missing ↦ rw (missing, mark_materialized_versioned) v
      | inr (e, found) ↦
          rw (found, mark_materialized_versioned)
            (count_down-IsValid e.segment_id _ (remove-IsOver k e w found v))
    ]
