-- ===== src/Storage/Cache/WriteCache/Accounting.antt =====
-- The byte count of the write cache is the size of what it holds, within its limit.
use abixio.Base.{
  ℕ, ◌+◌, ◌-◌, ◌≤◌, ◌<◌, ◌≡◌, ◌⊎◌, inl, inr, refl, ap, sym, subst, ◌∙◌, arith, Bool, true, false,
  none, some, List, [], ◌∷◌, Bytes, if◌then◌else◌, ltb, leb, str_eq, str_has_eq, pair_eq, pair_beq,
  pair_beq_iff, Option-cases, Bool-cases, ◌&&◌, ◌||◌, any, is_empty,
}
use abixio.Base.Keyed
use abixio.Base.Keyed.{size_at, IsDistinct}
use abixio.Base.Words.{IsU64}
use abixio.Storage.Cache.ConcurrentMap.{ConcurrentMap, sum_of, sum_of-insert, sum_of-remove}
use abixio.Storage.Cache.WriteCache.{
  CacheKey, CacheEntry, WriteCache, mem_size, insert, remove_key, drain_keys, keys_where,
  drain_primary_older_than, add_u64,
}

module _ {Meta : Type 0} (dash : ConcurrentMap CacheKey (CacheEntry Meta)) where
  -- The counter is the sum of the sizes of the entries, and within the limit.
  pub record IsValid (c : WriteCache dash) : Type 0 where
    pub counted : c.size_bytes ≡ sum_of dash mem_size c.entries
    pub limited : c.size_bytes ≤ c.max_bytes

  mem_size-IsU64 : (e : CacheEntry Meta) → IsU64 (mem_size e)
  unfolding mem_size
  mem_size-IsU64 e = omega arith

  -- An insertion keeps the invariant, whether it is refused, adds an entry or replaces one, as long as
  -- the limit and one entry more stay below 2 ^ 64.
  pub insert-IsValid :
      (bucket key : Bytes) (e : CacheEntry Meta) (c : WriteCache dash)
      → IsU64 (c.max_bytes + mem_size e)
      → IsValid c
      → IsValid (insert dash bucket key e c).1
  unfolding insert
  insert-IsValid bucket key e c small v =
      let sums = sum_of-insert dash mem_size (bucket, key) e c.entries in
      elim (Bool-cases (ltb c.max_bytes (add_u64 c.size_bytes (mem_size e)))) [
        | inl full ↦ rw (full, insert) v
        | inr room ↦ elim (Option-cases (dash.get (bucket, key) c.entries)) [
          | inl missing ↦
              rw (room, missing, insert)
                (record {
                  counted = ground (arith, sums, missing, v.counted, v.limited);
                  limited = ground (arith, room, v.limited);
                })
          | inr (old, found) ↦
              rw (room, found, insert)
                (record {
                  counted = ground (arith, sums, found, v.counted, v.limited, mem_size-IsU64 old);
                  limited =
                      ground (arith, sums, found, room, v.counted, v.limited, mem_size-IsU64 old);
                })
        ]
      ]

  remove_key-IsValid :
      (k : CacheKey) (c : WriteCache dash)
      → IsU64 c.max_bytes
      → IsValid c
      → IsValid (remove_key dash k c).1
  unfolding remove_key
  remove_key-IsValid k c small v =
      let sums = sum_of-remove dash mem_size k c.entries in
      elim (Option-cases (dash.get k c.entries)) [
        | inl missing ↦ rw (missing, remove_key) v
        | inr (old, found) ↦
            rw (found, remove_key)
              (record {
                counted = ground (arith, sums, found, v.counted, v.limited, mem_size-IsU64 old);
                limited = ground (arith, sums, found, v.counted, v.limited, mem_size-IsU64 old);
              })
      ]

  max_bytes-remove_key :
      (k : CacheKey) (c : WriteCache dash) → (remove_key dash k c).1.max_bytes ≡ c.max_bytes
  unfolding remove_key
  max_bytes-remove_key k c = elim (Option-cases (dash.get k c.entries)) [
    | inl missing ↦ rw (missing, remove_key) refl
    | inr (old, found) ↦ rw (found, remove_key) refl
  ]

  drain_keys_step :
      (k : CacheKey) (ks : List CacheKey) (c : WriteCache dash)
      → (drain_keys dash (k ∷ ks) c).1 ≡ (drain_keys dash ks (remove_key dash k c).1).1
  unfolding drain_keys
  drain_keys_step k ks c = elim (Option-cases (remove_key dash k c).0) [
    | inl missing ↦ rw (missing, drain_keys) refl
    | inr (old, found) ↦ rw (found, drain_keys) refl
  ]

  -- Draining any keys, those that are missing or named twice included, keeps the invariant.
  pub drain_keys-IsValid :
      (ks : List CacheKey) (c : WriteCache dash)
      → IsU64 c.max_bytes
      → IsValid c
      → IsValid (drain_keys dash ks c).1
  unfolding drain_keys
  drain_keys-IsValid [] c small v = v
  drain_keys-IsValid (k ∷ ks) c small v = rw (drain_keys_step k ks c) (
      drain_keys-IsValid ks (remove_key dash k c).1 (rw (max_bytes-remove_key k c) small)
        (remove_key-IsValid k c small v))

  get-remove_key :
      (k j : CacheKey) (c : WriteCache dash)
      → dash.get j (remove_key dash k c).1.entries
        ≡ (if pair_beq k j then none else dash.get j c.entries)
  unfolding remove_key
  get-remove_key k j c = elim (Option-cases (dash.get k c.entries)) [
    | inl missing ↦ rw (missing, remove_key) (ground (arith, pair_beq_iff k j))
    | inr (old, found) ↦ rw (found, remove_key) (dash.get-remove k j c.entries)
  ]

  get-drain_keys :
      (ks : List CacheKey) (j : CacheKey) (c : WriteCache dash)
      → dash.get j (drain_keys dash ks c).1.entries
        ≡ (if any (λ k. pair_beq k j) ks then none else dash.get j c.entries)
  unfolding drain_keys
  get-drain_keys [] j c = refl
  get-drain_keys (k ∷ ks) j c =
      rw (drain_keys_step k ks c)
        (get-drain_keys ks j (remove_key dash k c).1 ∙ ground (arith, get-remove_key k j c))

  absent_keys :
      (p : CacheKey → CacheEntry Meta → Bool) (m : List (CacheKey × CacheEntry Meta)) (j : CacheKey)
      → Keyed.get j m ≡ none
      → any (λ k. pair_beq k j) (keys_where p m) ≡ false
  unfolding keys_where Keyed.get
  absent_keys p [] j h = refl
  absent_keys p ((k, e) ∷ m) j h = ground (arith, absent_keys p m j)

  -- The keys of the entries that pass a test are those whose entry passes it.
  any-keys_where :
      (p : CacheKey → CacheEntry Meta → Bool) (m : List (CacheKey × CacheEntry Meta)) (j : CacheKey)
      → IsDistinct m
      → any (λ k. pair_beq k j) (keys_where p m)
        ≡ elim (Keyed.get j m) as (λ x. Bool) [ none ↦ false | some e ↦ p j e ]
  unfolding keys_where Keyed.get
  any-keys_where p [] j d = refl
  any-keys_where p ((k, e) ∷ m) j d = elim (Bool-cases (pair_beq k j)) [
    | inl same ↦
        let is_j : k ≡ j = (pair_beq_iff k j).0 same in
        let gone = absent_keys p m j (subst (λ i. Keyed.get i m ≡ none) is_j d.0) in
        let alike : p k e ≡ p j e = ap (λ i. p i e) is_j in ground (arith, gone, alike, same)
    | inr other ↦ ground (arith, any-keys_where p m j d.1)
  ]

  -- After draining what the local node owns and what has the age, exactly these entries are gone: an
  -- entry stays where it is younger, or where another node is its primary.
  pub drain_primary_older_than_lem :
      (local_node_id : Bytes) (age now : ℕ) (c : WriteCache dash) (j : CacheKey)
      (e : CacheEntry Meta)
      → dash.get j c.entries ≡ some e
      → dash.get j (drain_primary_older_than dash local_node_id age now c).1.entries ≡ (
          if leb age (now - e.cached_at_local)
            && (is_empty e.primary_node_id || str_eq e.primary_node_id local_node_id)
          then none
          else some e)
  unfolding drain_primary_older_than
  drain_primary_older_than_lem local_node_id age now c j e found =
      let p : CacheKey → CacheEntry Meta → Bool = λ k d.
        leb age (now - d.cached_at_local)
        && (is_empty d.primary_node_id || str_eq d.primary_node_id local_node_id) in
      let listed = any-keys_where p (dash.iter c.entries) j (dash.iter-IsDistinct c.entries) in
      let held_j : Keyed.get j (dash.iter c.entries) ≡ some e =
        sym (dash.get-iter j c.entries) ∙ found in
      get-drain_keys (keys_where p (dash.iter c.entries)) j c
      ∙ ground (arith, listed, held_j, found)

  -- Where the limit and one entry more stay below 2 ^ 64, an insertion is refused, and changes nothing,
  -- or the key has the new entry and every other key what it had. It is refused exactly where the bytes
  -- that are held already and those of the new entry exceed the limit, whether or not it would replace an
  -- entry.
  pub insert_lem :
      (bucket key : Bytes) (e : CacheEntry Meta) (c : WriteCache dash)
      → IsU64 (c.max_bytes + mem_size e)
      → IsValid c
      → ((insert dash bucket key e c ≡ (false, c))
          × (c.max_bytes < sum_of dash mem_size c.entries + mem_size e))
        ⊎ (((insert dash bucket key e c).0 ≡ true)
            × (sum_of dash mem_size c.entries + mem_size e ≤ c.max_bytes)
            × ((j : CacheKey)
                → dash.get j (insert dash bucket key e c).1.entries
                  ≡ (if pair_beq (bucket, key) j then some e else dash.get j c.entries)))
  unfolding insert
  insert_lem bucket key e c small v =
      elim (Bool-cases (ltb c.max_bytes (add_u64 c.size_bytes (mem_size e)))) [
        | inl full ↦ inl (rw (full, insert) refl, ground (arith, full, v.counted, v.limited))
        | inr room ↦ inr (
          rw (room, insert) refl,
          ground (arith, room, v.counted, v.limited),
          λ j. rw (room, insert) (dash.get-insert (bucket, key) j e c.entries),
        )
      ]
