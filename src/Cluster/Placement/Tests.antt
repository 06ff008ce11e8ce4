-- ===== src/Cluster/Placement/Tests.antt =====
-- Placements on two nodes with two disks each; the hash that orders them is the text itself.
use abixio.Base.{
  ℕ, ◌+◌, ◌≤◌, ◌<◌, ◌≡◌, ◌⊎◌, refl, [], ◌∷◌, Bytes, some, ◌==◌, ok, err, length, get_elem?,
}
use abixio.Cluster.Placement.{
  PlacementVolume, PlacementShard, PlacementRecord, PlacementPlanner, no_data, need_disks, plan,
  ordered_disks, group_disks, push_disk, insert_ordered, stable_order, place_rounds, place_round,
}
use abixio.Cluster.Placement.Counts.{count}
use abixio.Cluster.Placement.Plan.{plan_lem, plan-IsSpread}

abbrev text_hash : Bytes → Bytes
text_hash text = text

abbrev one_digit : ℕ → Bytes
one_digit n = (48 + n) ∷ []

abbrev volume : ℕ → ℕ → PlacementVolume
volume index node = record { backend_index = index; node_id = node ∷ []; volume_id = index ∷ [] }

abbrev planner : PlacementPlanner
planner = record {
  epoch_id = 7;
  cluster_id = [];
  disks = volume 0 97 ∷ volume 1 97 ∷ volume 2 98 ∷ volume 3 98 ∷ [];
}

abbrev placed_on : ℕ → ℕ → ℕ → PlacementShard
placed_on index disk node = record {
  index = index;
  backend_index = disk;
  node_id = node ∷ [];
  volume_id = disk ∷ [];
}

abbrev three_shards : PlacementRecord
three_shards = record {
  epoch_id = 7;
  cluster_id = [];
  data_n = 2;
  parity_n = 1;
  shards = placed_on 0 0 97 ∷ placed_on 1 2 98 ∷ placed_on 2 1 97 ∷ [];
}

plan_three : plan text_hash one_digit planner [] [] 2 1 ≡ ok three_shards
unfolding plan ordered_disks group_disks push_disk insert_ordered stable_order place_rounds
    place_round
plan_three = refl

plan_five : plan text_hash one_digit planner [] [] 3 2 ≡ err (need_disks 5 4)
unfolding plan
plan_five = refl

plan_lem_example :
    ((0 < 2)
      × (3 ≤ 4)
      × (r : PlacementRecord) × (plan text_hash one_digit planner [] [] 2 1 ≡ ok r)
      × (length r.shards ≡ 3)
      × (r.epoch_id ≡ 7)
      × ((i : ℕ) (s : PlacementShard) → get_elem? r.shards i ≡ some s → s.index ≡ i))
    ⊎ (((◌≡◌ {A = ℕ} 2 0) × (plan text_hash one_digit planner [] [] 2 1 ≡ err no_data))
        ⊎ ((0 < 2) × (4 < 3) × (plan text_hash one_digit planner [] [] 2 1 ≡ err (need_disks 3 4))))
plan_lem_example = plan_lem text_hash one_digit planner [] [] 2 1

plan-IsSpread_example :
    count (λ (s : PlacementShard). s.backend_index == 2) three_shards.shards
    ≤ count (λ (d : PlacementVolume). d.backend_index == 2) planner.disks
plan-IsSpread_example =
    plan-IsSpread text_hash one_digit planner [] [] 2 1 three_shards plan_three 2
