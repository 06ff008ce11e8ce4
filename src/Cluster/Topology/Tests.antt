-- ===== src/Cluster/Topology/Tests.antt =====
-- A cluster of two nodes with three disks.
use abixio.Base.{
  ℕ, ◌+◌, ◌≡◌, ◌↔◌, ◌≤◌, refl, List, [], ◌∷◌, Bytes, ok, err, some, none, ◌==◌, get_elem?,
}
use abixio.Cluster.Placement.{
  PlacementVolume, PlacementShard, PlacementRecord, plan, ordered_disks, group_disks, push_disk,
  insert_ordered, stable_order, place_rounds, place_round,
}
use abixio.Cluster.Placement.Counts.{count}
use abixio.Cluster.Topology.{
  TopologyVolume, TopologyNode, StaticTopology, validate, validate_nodes, validate_disks,
  duplicate_path, duplicate_volume, disks_differ, node_missing, node, peers_for, peers_from,
  validate_local_node, placement_volumes, place_nodes, place_disks, load, unparsable,
}
use abixio.Cluster.Topology.Validate.{validate_iff, IsValid}
use abixio.Cluster.Topology.Distinct.{AreDistinct}
use abixio.Cluster.Topology.Disks.{
  placement_volumes-AreDistinct, plan-placement_volumes, planner_of, placed_id,
}

abbrev disk : ℕ → ℕ → TopologyVolume
disk id path = record { volume_id = id ∷ []; path = path ∷ [] }

abbrev node_with : ℕ → List TopologyVolume → TopologyNode
node_with id disks = record {
  node_id = id ∷ [];
  advertise_s3 = id ∷ [];
  advertise_cluster = id ∷ id ∷ [];
  volumes = disks;
}

abbrev cluster : List TopologyNode → StaticTopology
cluster nodes = record { cluster_id = 99 ∷ []; epoch_id = 7; nodes = nodes }

abbrev two_nodes : StaticTopology
two_nodes = cluster (node_with 97 (disk 1 65 ∷ disk 2 66 ∷ []) ∷ node_with 98 (disk 3 67 ∷ []) ∷ [])

accepted : validate two_nodes ≡ ok tt
unfolding validate validate_nodes validate_disks
accepted = refl

-- `A` and `a` are one path.
same_path :
    validate (cluster (node_with 97 (disk 1 65 ∷ []) ∷ node_with 98 (disk 3 97 ∷ []) ∷ []))
    ≡ err (duplicate_path (97 ∷ []))
unfolding validate validate_nodes validate_disks
same_path = refl

same_volume :
    validate (cluster (node_with 97 (disk 1 65 ∷ []) ∷ node_with 98 (disk 1 66 ∷ []) ∷ []))
    ≡ err (duplicate_volume (1 ∷ []))
unfolding validate validate_nodes validate_disks
same_volume = refl

not_a_topology : load (λ path. some path) (λ bytes. none) (47 ∷ []) ≡ err unparsable
unfolding load
not_a_topology = refl

peers_of_first : peers_for (97 ∷ []) two_nodes ≡ (98 ∷ 98 ∷ []) ∷ []
unfolding peers_for peers_from
peers_of_first = refl

own_disks : validate_local_node (97 ∷ []) ((66 ∷ []) ∷ (65 ∷ []) ∷ []) two_nodes ≡ ok tt
unfolding validate_local_node node
own_disks = refl

disk_left_out :
    validate_local_node (97 ∷ []) ((65 ∷ []) ∷ []) two_nodes ≡ err (disks_differ (97 ∷ []))
unfolding validate_local_node node
disk_left_out = refl

not_a_member : validate_local_node (99 ∷ []) [] two_nodes ≡ err (node_missing (99 ∷ []))
unfolding validate_local_node node
not_a_member = refl

validate_iff_example : (validate two_nodes ≡ ok tt) ↔ IsValid two_nodes
validate_iff_example = validate_iff two_nodes

placed_apart :
    AreDistinct placed_id (placement_volumes two_nodes)
    × ((i : ℕ) (v : PlacementVolume)
        → get_elem? (placement_volumes two_nodes) i ≡ some v
        → v.backend_index ≡ i)
placed_apart = placement_volumes-AreDistinct two_nodes accepted

abbrev text_hash : Bytes → Bytes
text_hash text = text

abbrev one_digit : ℕ → Bytes
one_digit n = (48 + n) ∷ []

abbrev shard_on : ℕ → ℕ → ℕ → ℕ → PlacementShard
shard_on index backend node volume = record {
  index = index;
  backend_index = backend;
  node_id = node ∷ [];
  volume_id = volume ∷ [];
}

abbrev two_shards : PlacementRecord
two_shards = record {
  epoch_id = 7;
  cluster_id = 99 ∷ [];
  data_n = 1;
  parity_n = 1;
  shards = shard_on 0 0 97 1 ∷ shard_on 1 2 98 3 ∷ [];
}

planned : plan text_hash one_digit (planner_of two_nodes) [] [] 1 1 ≡ ok two_shards
unfolding plan ordered_disks group_disks push_disk insert_ordered stable_order place_rounds
    place_round placement_volumes place_nodes place_disks
planned = refl

plan-placement_volumes_example :
    count (λ (s : PlacementShard). s.backend_index == 2) two_shards.shards ≤ 1
plan-placement_volumes_example =
    plan-placement_volumes text_hash one_digit two_nodes [] [] 1 1 two_shards planned 2
