-- ===== src/Base/Keyed.antt =====
-- `HashMap`: one value for each key. The order of the entries is not specified, and nothing here
-- depends on it. Meant to be used through its laws.
use Prim.Native.Nat.{ℕ, ◌+◌}
use mathlib.Core.Path.{◌≡◌, refl}
use mathlib.Core.Option.{Option, none, some}
use mathlib.Core.List.{List, [], ◌∷◌}
use native.Mathlib.Omega.{arith}
use abixio.Base.Tests.{Eq, if◌then◌else◌}

abbrev pub size_at {ℓ} : {V : Type ℓ} → (V → ℕ) → Option V → ℕ
size_at f none = 0
size_at f (some v) = f v

module _ {ℓ} {K V : Type ℓ} ⦃e : Eq K⦄ where
  unfoldable pub get : K → List (K × V) → Option V
  get k [] = none
  get k ((j, v) ∷ m) = if e.beq j k then some v else get k m

  unfoldable pub remove : K → List (K × V) → List (K × V)
  remove k [] = []
  remove k ((j, v) ∷ m) = let rest = remove k m in if e.beq j k then rest else (j, v) ∷ rest

  unfoldable pub insert : K → V → List (K × V) → List (K × V)
  unfolding remove
  insert k v m = (k, v) ∷ remove k m

  pub get-remove :
      (k j : K) (m : List (K × V)) → get j (remove k m) ≡ (if e.beq k j then none else get j m)
  unfolding get remove
  get-remove k j [] = ground arith
  get-remove k j ((i, v) ∷ m) =
      ground (arith, get-remove k j m, e.beq_iff i k, e.beq_iff i j, e.beq_iff k j)

  pub get-insert :
      (k j : K) (v : V) (m : List (K × V))
      → get j (insert k v m) ≡ (if e.beq k j then some v else get j m)
  unfolding get insert
  get-insert k j v m = ground (arith, get-remove k j m)

  -- Each key once.
  abbrev pub IsDistinct : List (K × V) → Type ℓ
  IsDistinct [] = Unit {ℓ}
  IsDistinct ((k, v) ∷ m) = (get k m ≡ none) × IsDistinct m

  pub remove-IsDistinct : (k : K) (m : List (K × V)) → IsDistinct m → IsDistinct (remove k m)
  unfolding remove
  remove-IsDistinct k [] d = d
  remove-IsDistinct k ((j, v) ∷ m) d = ground (arith, remove-IsDistinct k m d.1, get-remove k j m)

  pub insert-IsDistinct :
      (k : K) (v : V) (m : List (K × V)) → IsDistinct m → IsDistinct (insert k v m)
  unfolding insert
  insert-IsDistinct k v m d =
      (ground (arith, get-remove k k m, e.beq_iff k k), remove-IsDistinct k m d)

  -- The sum of a size over the values.
  unfoldable pub total : (V → ℕ) → List (K × V) → ℕ
  total f [] = 0
  total f ((k, v) ∷ m) = f v + total f m

  pub remove_absent : (k : K) (m : List (K × V)) → get k m ≡ none → remove k m ≡ m
  unfolding get remove
  remove_absent k [] h = refl
  remove_absent k ((j, v) ∷ m) h = ground (arith, remove_absent k m)

  pub total-remove :
      (f : V → ℕ) (k : K) (m : List (K × V))
      → IsDistinct m
      → total f (remove k m) + size_at f (get k m) ≡ total f m
  unfolding total remove get
  total-remove f k [] d = omega arith
  total-remove f k ((j, v) ∷ m) d =
      ground (arith, total-remove f k m d.1, remove_absent k m, e.beq_iff j k)

  pub total-insert :
      (f : V → ℕ) (k : K) (v : V) (m : List (K × V))
      → IsDistinct m
      → total f (insert k v m) + size_at f (get k m) ≡ total f m + f v
  unfolding total insert
  total-insert f k v m d = omega (arith, total-remove f k m d)

  -- The sum depends on the lookups only, not on the order of the entries.
  pub total-lookups :
      (f : V → ℕ) (m n : List (K × V))
      → IsDistinct m
      → IsDistinct n
      → ((k : K) → get k m ≡ get k n)
      → total f m ≡ total f n
  unfolding total get remove
  total-lookups f [] [] d d' same = refl
  total-lookups f [] ((k, v) ∷ n) d d' same = absurd (ground (arith, same k, e.beq_iff k k))
  total-lookups f ((k, v) ∷ m) n d d' same =
      let rest =
        total-lookups f m (remove k n) d.1 (remove-IsDistinct k n d')
          (λ j. ground (arith, same j, get-remove k j n, e.beq_iff k j, d.0)) in
      ground (arith, rest, total-remove f k n d', same k, e.beq_iff k k)
