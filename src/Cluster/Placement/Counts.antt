-- ===== src/Cluster/Placement/Counts.antt =====
-- src/cluster/placement.rs: grouping and ordering disks neither loses one nor adds one.
use abixio.Base.{
  ℕ, ◌+◌, ◌≡◌, refl, sym, ap, ◌∙◌, arith, Bool, List, [], ◌∷◌, ◌++◌, map, Bytes, if◌then◌else◌,
  str_eq, Bool-cases, inl, inr,
}
use abixio.Cluster.Placement.{
  PlacementVolume, PlacementPlanner, str_leb, push_disk, group_disks, insert_ordered, stable_order,
  order_disks, disk_salt, node_salt, key_material, ordered_disks,
}

-- How many items pass a test.
abbrev pub count {ℓ} : {A : Type ℓ} → (A → Bool) → List A → ℕ
count p [] = 0
count p (x ∷ xs) = (if p x then 1 else 0) + count p xs

abbrev pub sum_of {ℓ} : {A : Type ℓ} → (A → ℕ) → List A → ℕ
sum_of f [] = 0
sum_of f (x ∷ xs) = f x + sum_of f xs

pub count-append {ℓ} :
    {A : Type ℓ} (p : A → Bool) (xs ys : List A) → count p (xs ++ ys) ≡ count p xs + count p ys
count-append p [] ys = omega arith
count-append p (x ∷ xs) ys = omega (arith, count-append p xs ys)

module _ {ℓ} {A : Type ℓ} (key_of : A → Bytes) (f : A → ℕ) where
  sum_of-insert_ordered :
      (x : A) (ys : List A) → sum_of f (insert_ordered key_of x ys) ≡ f x + sum_of f ys
  unfolding insert_ordered
  sum_of-insert_ordered x [] = refl
  sum_of-insert_ordered x (y ∷ ys) = elim (Bool-cases (str_leb (key_of x) (key_of y))) [
    | inl before ↦ rw before refl
    | inr after ↦ rw (after, sum_of-insert_ordered x ys) (omega arith)
  ]

  pub sum_of-stable_order : (xs : List A) → sum_of f (stable_order key_of xs) ≡ sum_of f xs
  unfolding stable_order
  sum_of-stable_order [] = refl
  sum_of-stable_order (x ∷ xs) =
      sum_of-insert_ordered x (stable_order key_of xs) ∙ ap (λ n. f x + n) (sum_of-stable_order xs)

count_as_sum {ℓ} :
    {A : Type ℓ} (p : A → Bool) (xs : List A) → count p xs ≡ sum_of (λ x. if p x then 1 else 0) xs
count_as_sum p [] = refl
count_as_sum p (x ∷ xs) = ap (λ n. (if p x then 1 else 0) + n) (count_as_sum p xs)

pub count-stable_order {ℓ} :
    {A : Type ℓ} (key_of : A → Bytes) (p : A → Bool) (xs : List A)
    → count p (stable_order key_of xs) ≡ count p xs
count-stable_order key_of p xs =
    count_as_sum p (stable_order key_of xs)
    ∙ sum_of-stable_order key_of (λ x. if p x then 1 else 0) xs
    ∙ sym (count_as_sum p xs)

module _ (p : PlacementVolume → Bool) where
  abbrev pub count_groups : List (Bytes × List PlacementVolume) → ℕ
  count_groups groups = sum_of (λ (g : Bytes × List PlacementVolume). count p g.1) groups

  -- The disks of all nodes.
  abbrev pub count_nodes : List (List PlacementVolume) → ℕ
  count_nodes nodes = sum_of (count p) nodes

  count_groups-push_disk :
      (disk : PlacementVolume) (groups : List (Bytes × List PlacementVolume))
      → count_groups (push_disk disk groups) ≡ (if p disk then 1 else 0) + count_groups groups
  unfolding push_disk
  count_groups-push_disk disk [] = omega arith
  count_groups-push_disk disk ((node, disks) ∷ groups) =
      elim (Bool-cases (str_eq disk.node_id node)) [
        | inl same ↦ rw same (omega (arith, count-append p disks (disk ∷ [])))
        | inr other ↦ elim (Bool-cases (str_leb disk.node_id node)) [
          | inl before ↦ rw (other, before) (omega arith)
          | inr after ↦ rw (other, after, count_groups-push_disk disk groups) (omega arith)
        ]
      ]

  count_groups-group_disks :
      (disks : List PlacementVolume) (groups : List (Bytes × List PlacementVolume))
      → count_groups (group_disks disks groups) ≡ count p disks + count_groups groups
  unfolding group_disks
  count_groups-group_disks [] groups = omega arith
  count_groups-group_disks (disk ∷ disks) groups = omega (
    arith,
    count_groups-group_disks disks (push_disk disk groups),
    count_groups-push_disk disk groups,
  )

  count_nodes-order_disks :
      (sha256_hex : Bytes → Bytes) (decimal : ℕ → Bytes) (material : Bytes)
      (groups : List (Bytes × List PlacementVolume))
      → count_nodes (map (order_disks sha256_hex decimal material) groups) ≡ count_groups groups
  count_nodes-order_disks sha256_hex decimal material [] = refl
  count_nodes-order_disks sha256_hex decimal material ((node, disks) ∷ groups) = omega (
    arith,
    count_nodes-order_disks sha256_hex decimal material groups,
    count-stable_order (disk_salt sha256_hex decimal material) p disks,
  )

  pub count_nodes-ordered_disks :
      (sha256_hex : Bytes → Bytes) (decimal : ℕ → Bytes) (planner : PlacementPlanner)
      (bucket key : Bytes)
      → count_nodes (ordered_disks sha256_hex decimal planner bucket key) ≡ count p planner.disks
  unfolding ordered_disks
  count_nodes-ordered_disks sha256_hex decimal planner bucket key =
      let material : Bytes = key_material sha256_hex decimal planner bucket key in
      let groups : List (Bytes × List PlacementVolume) = group_disks planner.disks [] in
      omega (
        arith,
        count_nodes-order_disks sha256_hex decimal material
            (stable_order (node_salt sha256_hex decimal material) groups),
        sum_of-stable_order (node_salt sha256_hex decimal material)
            (λ (g : Bytes × List PlacementVolume). count p g.1) groups,
        count_groups-group_disks planner.disks [],
      )
