-- ===== src/Storage/Cache/WriteCache.antt =====
-- src/storage/write_cache.rs: the cache of writes that wait for the disk. Each call runs alone here.
-- The atomic sums wrap at 2 ^ 64, and so does the sum in a test. Of `ObjectMeta` only the number of its
-- values matters. `Instant::now()` is an argument.
pub mod Accounting
use abixio.Base.{
  map, ℕ, ◌+◌, ◌-◌, ◌*◌, ◌%◌, Bool, true, false, ◌&&◌, ◌||◌, Option, none, some, List, [], ◌∷◌,
  Bytes, if◌then◌else◌, ltb, leb, length, is_empty, str_eq, str_has_eq, pair_eq,
}
use abixio.Storage.Wal.{starts_with}
use abixio.Storage.Cache.ConcurrentMap.{ConcurrentMap}

abbrev pub CacheKey : Type 0
CacheKey = Bytes × Bytes

pub record CacheEntry (Meta : Type 0) : Type 0 where
  pub shards : List Bytes
  pub metas : List Meta
  pub distribution : List ℕ
  pub original_size : ℕ
  pub content_type : Bytes
  pub etag : Bytes
  pub created_at : ℕ
  pub user_metadata : List (Bytes × Bytes)
  pub tags : List (Bytes × Bytes)
  pub cached_at_unix_nanos : ℕ
  pub cached_at_local : ℕ
  pub primary_node_id : Bytes

-- The sum of the lengths.
abbrev pub sum_len : List Bytes → ℕ
sum_len [] = 0
sum_len (s ∷ ss) = length s + sum_len ss

-- `fetch_add`, `fetch_sub` and `+` on a u64
abbrev pub add_u64 : ℕ → ℕ → ℕ
add_u64 a b = (a + b) % 18446744073709551616

abbrev pub sub_u64 : ℕ → ℕ → ℕ
sub_u64 a b = (a + (18446744073709551616 - b % 18446744073709551616)) % 18446744073709551616

module _ {Meta : Type 0} where
  unfoldable pub mem_size : CacheEntry Meta → ℕ
  mem_size e =
      (sum_len e.shards
        + length e.metas * 200
        + length e.etag
        + length e.content_type
        + length e.primary_node_id
        + 128)
      % 18446744073709551616

  -- The keys of the entries that pass a test.
  unfoldable pub keys_where :
      (CacheKey → CacheEntry Meta → Bool) → List (CacheKey × CacheEntry Meta) → List CacheKey
  keys_where p [] = []
  keys_where p ((k, e) ∷ m) = let rest = keys_where p m in if p k e then k ∷ rest else rest

module _ {Meta : Type 0} (dash : ConcurrentMap CacheKey (CacheEntry Meta)) where
  pub record WriteCache : Type 0 where
    pub entries : dash.Carrier
    pub size_bytes : ℕ
    pub max_bytes : ℕ
    pub hits : ℕ

  unfoldable pub new : ℕ → WriteCache
  new max_bytes = record { entries = dash.empty; size_bytes = 0; max_bytes = max_bytes; hits = 0 }

  unfoldable pub record_hit : WriteCache → WriteCache
  record_hit c = record c { hits = add_u64 c.hits 1 }

  unfoldable pub insert : Bytes → Bytes → CacheEntry Meta → WriteCache → Bool × WriteCache
  insert bucket key entry c =
      let k : CacheKey = (bucket, key) in
      if ltb c.max_bytes (add_u64 c.size_bytes (mem_size entry))
      then (false, c)
      else (let less : ℕ = elim (dash.get k c.entries) [
        | none ↦ c.size_bytes
        | some old ↦ sub_u64 c.size_bytes (mem_size old)
      ] in
          (
            true,
            record c {
              entries = dash.insert k entry c.entries;
              size_bytes = add_u64 less (mem_size entry);
            },
          ))

  unfoldable pub get : Bytes → Bytes → WriteCache → Option (CacheEntry Meta) × WriteCache
  unfolding record_hit
  get bucket key c = elim (dash.get (bucket, key) c.entries) [
    | none ↦ (none, c)
    | some e ↦ (some e, record_hit c)
  ]

  -- The removal of one key, with the bytes of its entry.
  unfoldable pub remove_key : CacheKey → WriteCache → Option (CacheEntry Meta) × WriteCache
  remove_key k c = elim (dash.get k c.entries) [
    | none ↦ (none, c)
    | some e ↦ (
      some e,
      record c {
        entries = dash.remove k c.entries;
        size_bytes = sub_u64 c.size_bytes (mem_size e);
      },
    )
  ]

  unfoldable pub remove : Bytes → Bytes → WriteCache → Option (CacheEntry Meta) × WriteCache
  remove bucket key c = remove_key (bucket, key) c

  unfoldable pub contains : Bytes → Bytes → WriteCache → Bool
  contains bucket key c = elim (dash.get (bucket, key) c.entries) [ none ↦ false | some e ↦ true ]

  unfoldable pub list_keys : Bytes → Bytes → WriteCache → List Bytes
  unfolding keys_where
  list_keys bucket prefix c =
      map (λ (k : CacheKey). k.1)
        (keys_where (λ k e. str_eq k.0 bucket && starts_with k.1 prefix) (dash.iter c.entries))

  -- The loop over the collected keys.
  unfoldable pub drain_keys :
      List CacheKey → WriteCache → List (CacheKey × CacheEntry Meta) × WriteCache
  unfolding remove_key
  drain_keys [] c = ([], c)
  drain_keys (k ∷ ks) c =
      let (removed, c') = remove_key k c in
      let (drained, c'') = drain_keys ks c' in
      elim removed [ none ↦ (drained, c'') | some e ↦ ((k, e) ∷ drained, c'') ]

  -- `duration_since` is 0 where the entry is younger than `now`.
  unfoldable pub drain_primary_older_than :
      Bytes → ℕ → ℕ → WriteCache → List (CacheKey × CacheEntry Meta) × WriteCache
  unfolding keys_where drain_keys
  drain_primary_older_than local_node_id age now c =
      drain_keys
        (keys_where
          (λ k e.
            leb age (now - e.cached_at_local)
            && (is_empty e.primary_node_id || str_eq e.primary_node_id local_node_id))
          (dash.iter c.entries))
        c

  unfoldable pub drain_older_than :
      ℕ → ℕ → WriteCache → List (CacheKey × CacheEntry Meta) × WriteCache
  drain_older_than age now c = drain_primary_older_than [] age now c

  unfoldable pub drain_by_primary :
      Bytes → WriteCache → List (CacheKey × CacheEntry Meta) × WriteCache
  unfolding keys_where drain_keys
  drain_by_primary primary_node_id c =
      drain_keys
        (keys_where (λ k e. str_eq e.primary_node_id primary_node_id) (dash.iter c.entries)) c

  unfoldable pub has_space : ℕ → WriteCache → Bool
  has_space entry_size c = leb (add_u64 c.size_bytes entry_size) c.max_bytes

  unfoldable pub entry_count : WriteCache → ℕ
  entry_count c = length (dash.iter c.entries)
