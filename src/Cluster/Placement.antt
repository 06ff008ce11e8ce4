-- ===== src/Cluster/Placement.antt =====
-- src/cluster/placement.rs: which disks the shards of an object are placed on. The SHA-256 of a text in
-- hexadecimal and the decimal form of a number are parameters.
pub mod Counts
pub mod Rounds
pub mod Plan
mod Tests
use abixio.Base.{
  ℕ, zero, suc, ◌+◌, ◌<◌, Bool, true, false, ◌&&◌, Option, none, some, List, [], ◌∷◌, ◌++◌, map,
  Bytes, ◌==◌, if◌then◌else◌, ltb, leb, length, get_elem?, drop, str_eq, Result, ok, err, ◌>>=◌,
  ◌>>◌, refuse_if, not,
}

pub record PlacementVolume : Type 0 where
  pub backend_index : ℕ
  pub node_id : Bytes
  pub volume_id : Bytes

pub record PlacementShard : Type 0 where
  pub index : ℕ
  pub backend_index : ℕ
  pub node_id : Bytes
  pub volume_id : Bytes

pub record PlacementRecord : Type 0 where
  pub epoch_id : ℕ
  pub cluster_id : Bytes
  pub data_n : ℕ
  pub parity_n : ℕ
  pub shards : List PlacementShard

pub record PlacementPlanner : Type 0 where
  pub epoch_id : ℕ
  pub cluster_id : Bytes
  pub disks : List PlacementVolume

-- The errors of `plan`, each for its text.
pub data PlanError : Type 0 where
  no_data : PlanError
  need_disks : ℕ → ℕ → PlanError
  unable_to_place : ℕ → ℕ → PlanError

-- The order of Rust's strings.
abbrev pub str_leb : Bytes → Bytes → Bool
str_leb [] ys = true
str_leb (x ∷ xs) [] = false
str_leb (x ∷ xs) (y ∷ ys) = if x == y then str_leb xs ys else ltb x y

-- `per_node.entry(&disk.node_id).or_default().push(disk)`, in a map that keeps its keys in order.
unfoldable pub push_disk :
    PlacementVolume → List (Bytes × List PlacementVolume) → List (Bytes × List PlacementVolume)
push_disk disk [] = (disk.node_id, disk ∷ []) ∷ []
push_disk disk ((node, disks) ∷ per_node) =
    let later = push_disk disk per_node in
    if str_eq disk.node_id node
    then (node, disks ++ (disk ∷ [])) ∷ per_node
    else if str_leb disk.node_id node
    then (disk.node_id, disk ∷ []) ∷ (node, disks) ∷ per_node
    else (node, disks) ∷ later

unfoldable pub group_disks :
    List PlacementVolume → List (Bytes × List PlacementVolume) → List (Bytes × List PlacementVolume)
unfolding push_disk
group_disks [] per_node = per_node
group_disks (disk ∷ disks) per_node = group_disks disks (push_disk disk per_node)

module _ {ℓ} {A : Type ℓ} (key_of : A → Bytes) where
  -- In front of the first item whose key is not smaller.
  unfoldable pub insert_ordered : A → List A → List A
  insert_ordered x [] = x ∷ []
  insert_ordered x (y ∷ ys) =
      let later = insert_ordered x ys in
      if str_leb (key_of x) (key_of y) then x ∷ y ∷ ys else y ∷ later

  -- `sort_by_key`, which keeps the order of items whose keys are the same.
  unfoldable pub stable_order : List A → List A
  unfolding insert_ordered
  stable_order [] = []
  stable_order (x ∷ xs) = insert_ordered x (stable_order xs)

-- The `for node_id in &ordered_nodes` loop of one round: each node that has a disk left gives its next one,
-- until there are `total`. The Boolean is `placed_this_round`.
unfoldable pub place_round :
    ℕ → List (List PlacementVolume) → List PlacementVolume → Bool → List PlacementVolume × Bool
place_round total [] chosen placed = (chosen, placed)
place_round total ([] ∷ nodes) chosen placed = place_round total nodes chosen placed
place_round total ((disk ∷ disks) ∷ nodes) chosen placed =
    let more = place_round total nodes (chosen ++ (disk ∷ [])) true in
    if length (chosen ++ (disk ∷ [])) == total then (chosen ++ (disk ∷ []), true) else more

-- The `while chosen.len() < total` loop; the disks of a node from `round` on stand for `round`. A round that
-- places nothing ends it, so `total` rounds are enough.
unfoldable pub place_rounds :
    ℕ → ℕ → List (List PlacementVolume) → List PlacementVolume → List PlacementVolume
unfolding place_round
place_rounds zero total nodes chosen = chosen
place_rounds (suc n) total nodes chosen =
    let (chosen', placed) = place_round total nodes chosen false in
    let more = place_rounds n total (map (drop 1) nodes) chosen' in
    if ltb (length chosen) total then (if placed then more else chosen') else chosen

abbrev pub shards_from : ℕ → List PlacementVolume → List PlacementShard
shards_from index [] = []
shards_from index (disk ∷ disks) =
    record {
      index = index;
      backend_index = disk.backend_index;
      node_id = disk.node_id;
      volume_id = disk.volume_id;
    }
    ∷ shards_from (suc index) disks

module _ (sha256_hex : Bytes → Bytes) (decimal : ℕ → Bytes) where
  -- `format!("{}:{}:{}/{}", epoch_id, cluster_id, bucket, key)`
  abbrev pub key_material : PlacementPlanner → Bytes → Bytes → Bytes
  key_material p bucket key =
      decimal p.epoch_id ++ (58 ∷ (p.cluster_id ++ (58 ∷ (bucket ++ (47 ∷ key)))))

  -- `hash_hex` of `node:{key_material}:{node_id}`
  abbrev pub node_salt : Bytes → Bytes × List PlacementVolume → Bytes
  node_salt material (node, disks) =
      sha256_hex (110 ∷ 111 ∷ 100 ∷ 101 ∷ 58 ∷ (material ++ (58 ∷ node)))

  -- `hash_hex` of `disk:{key_material}:{volume_id}`
  abbrev pub disk_salt : Bytes → PlacementVolume → Bytes
  disk_salt material disk =
      sha256_hex (100 ∷ 105 ∷ 115 ∷ 107 ∷ 58 ∷ (material ++ (58 ∷ disk.volume_id)))

  abbrev pub order_disks : Bytes → Bytes × List PlacementVolume → List PlacementVolume
  order_disks material (node, disks) = stable_order (disk_salt material) disks

  -- The disks of each node in their order, the nodes in theirs.
  unfoldable pub ordered_disks : PlacementPlanner → Bytes → Bytes → List (List PlacementVolume)
  unfolding group_disks stable_order
  ordered_disks p bucket key =
      let material = key_material p bucket key in
      map (order_disks material) (stable_order (node_salt material) (group_disks p.disks []))

  unfoldable pub plan : PlacementPlanner → Bytes → Bytes → ℕ → ℕ → Result PlanError PlacementRecord
  unfolding ordered_disks place_rounds
  plan p bucket key data_n parity_n =
      let total = data_n + parity_n in
      let chosen = place_rounds total total (ordered_disks p bucket key) [] in
      refuse_if (data_n == 0) no_data
      >> refuse_if (ltb (length p.disks) total) (need_disks total (length p.disks))
      >> refuse_if (not (length chosen == total)) (unable_to_place total (length p.disks))
      >> ok (record {
        epoch_id = p.epoch_id;
        cluster_id = p.cluster_id;
        data_n = data_n;
        parity_n = parity_n;
        shards = shards_from 0 chosen;
      })
