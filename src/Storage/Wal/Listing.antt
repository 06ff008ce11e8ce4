-- ===== src/Storage/Wal/Listing.antt =====
-- The queries of the log: which versions and keys are pending, and the requests that recovery sends.
use abixio.Base.{
  ℕ, ◌≡◌, refl, arith, Bool, true, false, not, ◌&&◌, Option, none, some, List, [], ◌∷◌, Bytes,
  if◌then◌else◌, length, any, str_eq, str_eq_iff, str_has_eq, pair_eq, map, Bool-cases, inl, inr,
}
use abixio.Base.Keyed
use abixio.Storage.Wal.{
  Wal, WalEntry, PendingKey, pending_key, get_versioned, mark_materialized_versioned, starts_with,
}

pub record MaterializeRequest : Type 0 where
  pub bucket : Bytes
  pub key : Bytes
  pub version_id : Bytes
  pub entry : WalEntry

unfoldable pub get : Wal → Bytes → Bytes → Option WalEntry
get w bucket key = get_versioned w bucket key []

unfoldable pub contains_versioned : Wal → Bytes → Bytes → Bytes → Bool
contains_versioned w bucket key version_id =
    elim (Keyed.get (pending_key bucket key version_id) w.pending) [ none ↦ false | some e ↦ true ]

unfoldable pub contains : Wal → Bytes → Bytes → Bool
contains w bucket key = contains_versioned w bucket key []

unfoldable pub versions_from : Bytes → Bytes → List (PendingKey × WalEntry) → List Bytes
versions_from bucket key [] = []
versions_from bucket key (((b, (k, v)), e) ∷ pending) =
    let rest = versions_from bucket key pending in
    if str_eq b bucket && str_eq k key then v ∷ rest else rest

unfoldable pub versions_for : Wal → Bytes → Bytes → List Bytes
unfolding versions_from
versions_for w bucket key = versions_from bucket key w.pending

unfoldable pub mark_materialized : Wal → Bytes → Bytes → Wal
mark_materialized w bucket key = mark_materialized_versioned w bucket key []

-- The loop of `list_keys`, with the keys seen so far.
unfoldable pub list_from : Bytes → Bytes → List Bytes → List (PendingKey × WalEntry) → List Bytes
list_from bucket prefix seen [] = []
list_from bucket prefix seen (((b, (k, v)), e) ∷ pending) =
    let taken = k ∷ list_from bucket prefix (k ∷ seen) pending in
    let passed = list_from bucket prefix seen pending in
    if str_eq b bucket && starts_with k prefix && not (any (λ s. str_eq s k) seen)
    then taken
    else passed

unfoldable pub list_keys : Wal → Bytes → Bytes → List Bytes
unfolding list_from
list_keys w bucket prefix = list_from bucket prefix [] w.pending

unfoldable pub pending_count : Wal → ℕ
pending_count w = length w.pending

unfoldable pub drain_recovery_requests : Wal → List MaterializeRequest
drain_recovery_requests w =
    map
      (λ (p : PendingKey × WalEntry). record {
        bucket = p.0.0;
        key = p.0.1.0;
        version_id = p.0.1.1;
        entry = p.1;
      })
      w.pending

abbrev pub contains_key : Bytes → List Bytes → Bool
contains_key k = any (λ s. str_eq s k)

-- Each key once.
abbrev pub IsUnique : List Bytes → Type 0
IsUnique [] = Unit
IsUnique (k ∷ ks) = (contains_key k ks ≡ false) × IsUnique ks

-- Some version of the key is pending in the bucket.
abbrev pub is_pending : Bytes → Bytes → List (PendingKey × WalEntry) → Bool
is_pending bucket key =
    any (λ (p : PendingKey × WalEntry). str_eq p.0.0 bucket && str_eq p.0.1.0 key)

module _ (bucket prefix : Bytes) where
  list_from_lem :
      (seen : List Bytes) (pending : List (PendingKey × WalEntry)) (key : Bytes)
      → contains_key key (list_from bucket prefix seen pending)
        ≡ (is_pending bucket key pending && starts_with key prefix && not (contains_key key seen))
  unfolding list_from
  list_from_lem seen [] key = refl
  list_from_lem seen (((b, (k, v)), e) ∷ pending) key = ground (
    arith,
    list_from_lem (k ∷ seen) pending key,
    list_from_lem seen pending key,
    str_eq_iff k key,
  )

  list_from-IsUnique :
      (seen : List Bytes) (pending : List (PendingKey × WalEntry))
      → IsUnique (list_from bucket prefix seen pending)
  unfolding list_from
  list_from-IsUnique seen [] = tt
  list_from-IsUnique seen (((b, (k, v)), e) ∷ pending) =
      elim (Bool-cases (str_eq b bucket && starts_with k prefix && not (contains_key k seen))) [
        | inl listed ↦
            rw (listed, list_from)
              (
                ground (arith, list_from_lem (k ∷ seen) pending k, str_eq_iff k k),
                list_from-IsUnique (k ∷ seen) pending,
              )
        | inr passed ↦ rw (passed, list_from) (list_from-IsUnique seen pending)
      ]

  -- A key is listed exactly where it has the prefix and some version of it is pending in the bucket, and
  -- no key is listed twice.
  pub list_keys_lem :
      (w : Wal)
      → IsUnique (list_keys w bucket prefix)
        × ((key : Bytes)
            → contains_key key (list_keys w bucket prefix)
              ≡ (is_pending bucket key w.pending && starts_with key prefix))
  unfolding list_keys
  list_keys_lem w =
      (list_from-IsUnique [] w.pending, λ key. ground (arith, list_from_lem [] w.pending key))
