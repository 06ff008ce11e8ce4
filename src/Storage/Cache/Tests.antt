-- ===== src/Storage/Cache/Tests.antt =====
-- The theorems on the write cache at concrete inputs.
use abixio.Base.{
  ℕ, ◌+◌, ◌-◌, ◌≤◌, ◌<◌, ◌≡◌, ◌⊎◌, refl, arith, true, false, ◌&&◌, ◌||◌, none, some, [], ◌∷◌,
  if◌then◌else◌, leb, str_eq, is_empty, str_has_eq, pair_eq, pair_beq,
}
use abixio.Base.Keyed
use abixio.Storage.Cache.ConcurrentMap.{ConcurrentMap, keyed_map, sum_of}
use abixio.Storage.Cache.WriteCache.{
  CacheKey, CacheEntry, WriteCache, mem_size, insert, drain_keys, drain_primary_older_than,
}
use abixio.Storage.Cache.WriteCache.Accounting.{
  IsValid, insert-IsValid, insert_lem, drain_keys-IsValid, drain_primary_older_than_lem,
}

abbrev dash : ConcurrentMap CacheKey (CacheEntry ℕ)
dash = keyed_map

-- An entry of one shard of three bytes, put there at second 10.
abbrev note : CacheEntry ℕ
note = record {
  shards = (1 ∷ 2 ∷ 3 ∷ []) ∷ [];
  metas = 0 ∷ [];
  distribution = 0 ∷ [];
  original_size = 3;
  content_type = [];
  etag = [];
  created_at = 10;
  user_metadata = [];
  tags = [];
  cached_at_unix_nanos = 0;
  cached_at_local = 10;
  primary_node_id = [];
}

abbrev empty_cache : WriteCache dash
empty_cache = record { entries = ([], tt); size_bytes = 0; max_bytes = 1000; hits = 0 }

empty_cache-IsValid : IsValid dash empty_cache
unfolding Keyed.total
empty_cache-IsValid = record { counted = refl; limited = omega arith }

-- The cache with the entry.
abbrev one_entry : WriteCache dash
one_entry = (insert dash (b'b' ∷ []) (b'k' ∷ []) note empty_cache).1

insert-IsValid_example : IsValid dash one_entry
unfolding mem_size
insert-IsValid_example =
    insert-IsValid dash (b'b' ∷ []) (b'k' ∷ []) note empty_cache (omega arith) empty_cache-IsValid

insert_lem_example :
    ((insert dash (b'b' ∷ []) (b'k' ∷ []) note empty_cache ≡ (false, empty_cache))
      × (1000 < sum_of dash mem_size empty_cache.entries + mem_size note))
    ⊎ (((insert dash (b'b' ∷ []) (b'k' ∷ []) note empty_cache).0 ≡ true)
        × (sum_of dash mem_size empty_cache.entries + mem_size note ≤ 1000)
        × ((j : CacheKey)
            → dash.get j one_entry.entries ≡ (
                if pair_beq (b'b' ∷ [], b'k' ∷ []) j
                then some note
                else dash.get j empty_cache.entries)))
unfolding mem_size
insert_lem_example =
    insert_lem dash (b'b' ∷ []) (b'k' ∷ []) note empty_cache (omega arith) empty_cache-IsValid

small_limit : one_entry.max_bytes ≡ 1000
unfolding insert mem_size
small_limit = refl

drain_keys-IsValid_example :
    IsValid dash (drain_keys dash ((b'b' ∷ [], b'k' ∷ []) ∷ []) one_entry).1
drain_keys-IsValid_example =
    drain_keys-IsValid dash ((b'b' ∷ [], b'k' ∷ []) ∷ []) one_entry (omega (arith, small_limit))
      insert-IsValid_example

found_one : dash.get (b'b' ∷ [], b'k' ∷ []) one_entry.entries ≡ some note
unfolding insert mem_size Keyed.get Keyed.insert
found_one = refl

drain_primary_older_than_lem_example :
    dash.get
      (b'b' ∷ [], b'k' ∷ [])
      (drain_primary_older_than dash (b'n' ∷ []) 5 20 one_entry).1.entries
    ≡ (if leb 5 (20 - 10) && (is_empty {A = ℕ} [] || str_eq [] (b'n' ∷ []))
        then none
        else some note)
drain_primary_older_than_lem_example =
    drain_primary_older_than_lem dash (b'n' ∷ []) 5 20 one_entry (b'b' ∷ [], b'k' ∷ []) note
      found_one
