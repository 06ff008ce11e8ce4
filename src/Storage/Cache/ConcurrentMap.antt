-- ===== src/Storage/Cache/ConcurrentMap.antt =====
-- What the caches rely on of a concurrent map such as `dashmap::DashMap`, one call at a time: each key
-- has one value, and iteration meets each entry once, in some order.
use abixio.Base.{
  ℕ, ◌+◌, ◌≡◌, ap, sym, ◌∙◌, arith, if◌then◌else◌, Option, none, some, List, [], Eq, refl,
}
use abixio.Base.Keyed
use abixio.Base.Keyed.{
  IsDistinct, get-insert, get-remove, insert-IsDistinct, remove-IsDistinct, total, size_at,
  total-lookups, total-insert, total-remove,
}

pub record ConcurrentMap (K V : Type 0) ⦃e : Eq K⦄ : Type 1 where
  pub Carrier : Type 0
  pub empty : Carrier
  pub iter : Carrier → List (K × V)
  pub get : K → Carrier → Option V
  pub insert : K → V → Carrier → Carrier
  pub remove : K → Carrier → Carrier
  pub iter-IsDistinct : (m : Carrier) → IsDistinct (iter m)
  pub get-iter : (k : K) (m : Carrier) → get k m ≡ Keyed.get k (iter m)
  pub iter-empty : iter empty ≡ []
  pub get-insert :
      (k j : K) (v : V) (m : Carrier)
      → get j (insert k v m) ≡ (if e.beq k j then some v else get j m)
  pub get-remove :
      (k j : K) (m : Carrier) → get j (remove k m) ≡ (if e.beq k j then none else get j m)

-- Association lists with each key once are such a map.
abbrev pub keyed_map : {K V : Type 0} ⦃e : Eq K⦄ → ConcurrentMap K V
keyed_map {K} {V} = record {
  Carrier = (m : List (K × V)) × IsDistinct m;
  empty = ([], tt);
  iter = λ m. m.0;
  get = λ k m. Keyed.get k m.0;
  insert = λ k v m. (Keyed.insert k v m.0, insert-IsDistinct k v m.0 m.1);
  remove = λ k m. (Keyed.remove k m.0, remove-IsDistinct k m.0 m.1);
  iter-IsDistinct = λ m. m.1;
  get-iter = λ k m. refl;
  iter-empty = refl;
  get-insert = λ k j v m. Keyed.get-insert k j v m.0;
  get-remove = λ k j m. Keyed.get-remove k j m.0;
}

module _ {K V : Type 0} ⦃e : Eq K⦄ (dash : ConcurrentMap K V) (f : V → ℕ) where
  -- The sum of a size over the values.
  abbrev pub sum_of : dash.Carrier → ℕ
  sum_of m = total f (dash.iter m)

  pub sum_of-insert :
      (k : K) (v : V) (m : dash.Carrier)
      → sum_of (dash.insert k v m) + size_at f (dash.get k m) ≡ sum_of m + f v
  sum_of-insert k v m =
      let d = dash.iter-IsDistinct m in
      let same : total f (dash.iter (dash.insert k v m))
          ≡ total f (Keyed.insert k v (dash.iter m)) =
        total-lookups f (dash.iter (dash.insert k v m)) (Keyed.insert k v (dash.iter m))
          (dash.iter-IsDistinct (dash.insert k v m)) (insert-IsDistinct k v (dash.iter m) d)
          (λ j.
            sym (dash.get-iter j (dash.insert k v m))
            ∙ dash.get-insert k j v m
            ∙ ap (λ o. if e.beq k j then some v else o) (dash.get-iter j m)
            ∙ sym (Keyed.get-insert k j v (dash.iter m))) in
      omega (arith, same, total-insert f k v (dash.iter m) d, ap (size_at f) (dash.get-iter k m))

  pub sum_of-remove :
      (k : K) (m : dash.Carrier) → sum_of (dash.remove k m) + size_at f (dash.get k m) ≡ sum_of m
  sum_of-remove k m =
      let d = dash.iter-IsDistinct m in
      let same : total f (dash.iter (dash.remove k m)) ≡ total f (Keyed.remove k (dash.iter m)) =
        total-lookups f (dash.iter (dash.remove k m)) (Keyed.remove k (dash.iter m))
          (dash.iter-IsDistinct (dash.remove k m)) (remove-IsDistinct k (dash.iter m) d)
          (λ j.
            sym (dash.get-iter j (dash.remove k m))
            ∙ dash.get-remove k j m
            ∙ ap (λ o. if e.beq k j then none else o) (dash.get-iter j m)
            ∙ sym (Keyed.get-remove k j (dash.iter m))) in
      omega (arith, same, total-remove f k (dash.iter m) d, ap (size_at f) (dash.get-iter k m))
