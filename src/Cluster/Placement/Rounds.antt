-- ===== src/Cluster/Placement/Rounds.antt =====
-- src/cluster/placement.rs: the rounds that pick one disk of each node after the other.
use abixio.Base.{
  ℕ, zero, suc, ◌+◌, ◌≤◌, ◌<◌, ◌≡◌, ◌⊎◌, refl, arith, Bool, true, false, List, [], ◌∷◌, ◌++◌, map,
  ◌==◌, ltb, Bool-cases, inl, inr, length, drop, length-append,
}
use abixio.Cluster.Placement.{PlacementVolume, place_round, place_rounds}
use abixio.Cluster.Placement.Counts.{count, sum_of, count_nodes, count-append}

-- How many disks the nodes have left.
abbrev pub size : List (List PlacementVolume) → ℕ
size nodes = sum_of length nodes

module _ (p : PlacementVolume → Bool) where
  count-place_round :
      (total : ℕ) (nodes : List (List PlacementVolume)) (chosen : List PlacementVolume)
      (placed : Bool)
      → count p (place_round total nodes chosen placed).0 + count_nodes p (map (drop 1) nodes)
        ≤ count p chosen + count_nodes p nodes
  unfolding place_round
  count-place_round total [] chosen placed = omega arith
  count-place_round total ([] ∷ nodes) chosen placed =
      omega (arith, count-place_round total nodes chosen placed)
  count-place_round total ((disk ∷ disks) ∷ nodes) chosen placed =
      elim (Bool-cases (length (chosen ++ (disk ∷ [])) == total)) [
        | inl full ↦ rw full (omega (arith, count-append p chosen (disk ∷ []), rest_le nodes))
        | inr more ↦ rw more (
            omega (
              arith,
              count-append p chosen (disk ∷ []),
              count-place_round total nodes (chosen ++ (disk ∷ [])) true,
            ))
      ]
    where
      drop_le : (disks : List PlacementVolume) → count p (drop 1 disks) ≤ count p disks
      drop_le [] = omega arith
      drop_le (disk ∷ disks) = omega arith

      rest_le :
          (nodes : List (List PlacementVolume))
          → count_nodes p (map (drop 1) nodes) ≤ count_nodes p nodes
      rest_le [] = omega arith
      rest_le (disks ∷ nodes) = omega (arith, drop_le disks, rest_le nodes)

  pub count-place_rounds :
      (n total : ℕ) (nodes : List (List PlacementVolume)) (chosen : List PlacementVolume)
      → count p (place_rounds n total nodes chosen) ≤ count p chosen + count_nodes p nodes
  unfolding place_rounds
  count-place_rounds zero total nodes chosen = omega arith
  count-place_rounds (suc n) total nodes chosen = ground (
    arith,
    count-place_round total nodes chosen false,
    count-place_rounds n total (map (drop 1) nodes) (place_round total nodes chosen false).0,
  )

length-place_round :
    (total : ℕ) (nodes : List (List PlacementVolume)) (chosen : List PlacementVolume)
    (placed : Bool)
    → length chosen < total
    → (length (place_round total nodes chosen placed).0 ≡ total)
      ⊎ ((length (place_round total nodes chosen placed).0 < total)
          × (length (place_round total nodes chosen placed).0 + size (map (drop 1) nodes)
              ≡ length chosen + size nodes))
unfolding place_round
length-place_round total [] chosen placed h = inr (h, refl)
length-place_round total ([] ∷ nodes) chosen placed h =
    ground (arith, length-place_round total nodes chosen placed)
length-place_round total ((disk ∷ disks) ∷ nodes) chosen placed h =
    elim (Bool-cases (length (chosen ++ (disk ∷ [])) == total)) [
      | inl full ↦ rw full (inl (ground arith))
      | inr more ↦
          let one : length (chosen ++ (disk ∷ [])) ≡ length chosen + 1 =
            length-append chosen (disk ∷ []) in
          rw more (
            ground
              (arith, length-place_round total nodes (chosen ++ (disk ∷ [])) true (ground arith)))
    ]

-- A round never takes back a disk.
grows :
    (total : ℕ) (nodes : List (List PlacementVolume)) (chosen : List PlacementVolume)
    (placed : Bool)
    → length chosen ≤ length (place_round total nodes chosen placed).0
unfolding place_round
grows total [] chosen placed = omega arith
grows total ([] ∷ nodes) chosen placed = grows total nodes chosen placed
grows total ((disk ∷ disks) ∷ nodes) chosen placed =
    ground (arith, length-append chosen (disk ∷ []), grows total nodes (chosen ++ (disk ∷ [])) true)

placed_stays :
    (total : ℕ) (nodes : List (List PlacementVolume)) (chosen : List PlacementVolume)
    → (place_round total nodes chosen true).1 ≡ true
unfolding place_round
placed_stays total [] chosen = refl
placed_stays total ([] ∷ nodes) chosen = placed_stays total nodes chosen
placed_stays total ((disk ∷ disks) ∷ nodes) chosen =
    ground (arith, placed_stays total nodes (chosen ++ (disk ∷ [])))

-- A round places a disk unless the nodes have none left.
places :
    (total : ℕ) (nodes : List (List PlacementVolume)) (chosen : List PlacementVolume)
    → 0 < size nodes
    → ((place_round total nodes chosen false).1 ≡ true)
      × (length chosen < length (place_round total nodes chosen false).0)
unfolding place_round
places total [] chosen h = absurd (omega arith)
places total ([] ∷ nodes) chosen h = places total nodes chosen (omega arith)
places total ((disk ∷ disks) ∷ nodes) chosen h =
    elim (Bool-cases (length (chosen ++ (disk ∷ [])) == total)) [
      | inl full ↦ rw full (refl, omega (arith, length-append chosen (disk ∷ [])))
      | inr more ↦ rw more (
        placed_stays total nodes (chosen ++ (disk ∷ [])),
        omega (
          arith,
          length-append chosen (disk ∷ []),
          grows total nodes (chosen ++ (disk ∷ [])) true,
        ),
      )
    ]

-- With enough disks left, and a round for each shard that is missing, all shards are placed.
pub length-place_rounds :
    (n total : ℕ) (nodes : List (List PlacementVolume)) (chosen : List PlacementVolume)
    → length chosen ≤ total
    → total ≤ length chosen + n
    → total ≤ length chosen + size nodes
    → length (place_rounds n total nodes chosen) ≡ total
unfolding place_rounds
length-place_rounds zero total nodes chosen h fuel disks = omega arith
length-place_rounds (suc n) total nodes chosen h fuel disks =
    elim (Bool-cases (ltb (length chosen) total)) [
      | inl short ↦
          let (placed, longer) = places total nodes chosen (ground arith) in
          let step : (length (place_round total nodes chosen false).0 ≡ total) ⊎ _ =
            length-place_round total nodes chosen false (ground arith) in
          rw (short, placed)
            (length-place_rounds n total (map (drop 1) nodes)
              (place_round total nodes chosen false).0 (ground arith) (omega arith) (ground arith))
      | inr full ↦ rw full (ground arith)
    ]
