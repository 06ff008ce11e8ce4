-- ===== src/Cluster/Topology.antt =====
-- src/cluster/topology.rs: a cluster written down in a file. A path is its text, the decoder and the encoder of
-- JSON, the reading of a file and the hash are parameters, and a set is the list of what was inserted.
pub mod Distinct
pub mod Validate
pub mod Disks
mod Tests
use abixio.Base.{
  ℕ, zero, suc, ◌+◌, Bool, true, false, not, ◌&&◌, Option, none, some, List, [], ◌∷◌, ◌++◌, Bytes,
  ◌==◌, if◌then◌else◌, leb, length, is_empty, all, str_eq, Result, ok, err, ◌>>=◌, ◌>>◌, refuse_if,
}
use abixio.Cluster.Placement.{PlacementVolume}
use abixio.Cluster.Manager.{ServiceState, joining, ClusterVolumeStatus, ClusterNodeStatus}
use abixio.Cluster.Manager.Names.{trim, contains_str}

pub record TopologyVolume : Type 0 where
  pub volume_id : Bytes
  pub path : Bytes

pub record TopologyNode : Type 0 where
  pub node_id : Bytes
  pub advertise_s3 : Bytes
  pub advertise_cluster : Bytes
  pub volumes : List TopologyVolume

pub record StaticTopology : Type 0 where
  pub cluster_id : Bytes
  pub epoch_id : ℕ
  pub nodes : List TopologyNode

-- The errors, each for its text.
pub data TopologyError : Type 0 where
  unreadable unparsable cluster_id_empty epoch_id_zero no_nodes node_id_empty volume_id_empty
        not_encoded :
      TopologyError
  duplicate_node no_disk duplicate_volume duplicate_path node_missing disks_differ :
      Bytes → TopologyError

-- A character after `replace('\\', "/")` and `to_ascii_lowercase`.
abbrev pub normalize_byte : ℕ → ℕ
normalize_byte b = if b == 92 then 47 else if leb 65 b && leb b 90 then b + 32 else b

abbrev pub normalize_path : Bytes → Bytes
normalize_path [] = []
normalize_path (b ∷ bs) = normalize_byte b ∷ normalize_path bs

-- The inner loop of `validate`, with the sets before it and after it.
unfoldable pub validate_disks :
    List Bytes → List Bytes → List TopologyVolume → Result TopologyError (List Bytes × List Bytes)
validate_disks volume_ids all_paths [] = ok (volume_ids, all_paths)
validate_disks volume_ids all_paths (disk ∷ disks) =
    let rest =
      validate_disks (disk.volume_id ∷ volume_ids) (normalize_path disk.path ∷ all_paths) disks in
    refuse_if (is_empty (trim disk.volume_id)) volume_id_empty
    >> refuse_if (contains_str disk.volume_id volume_ids) (duplicate_volume disk.volume_id)
    >> refuse_if (contains_str (normalize_path disk.path) all_paths)
        (duplicate_path (normalize_path disk.path))
    >> rest

unfoldable pub validate_nodes :
    List Bytes → List Bytes → List Bytes → List TopologyNode → Result TopologyError Unit
unfolding validate_disks
validate_nodes node_ids volume_ids all_paths [] = ok tt
validate_nodes node_ids volume_ids all_paths (node ∷ nodes) =
    refuse_if (is_empty (trim node.node_id)) node_id_empty
    >> refuse_if (contains_str node.node_id node_ids) (duplicate_node node.node_id)
    >> refuse_if (is_empty node.volumes) (no_disk node.node_id)
    >> (validate_disks volume_ids all_paths node.volumes >>= λ sets.
        validate_nodes (node.node_id ∷ node_ids) sets.0 sets.1 nodes)

unfoldable pub validate : StaticTopology → Result TopologyError Unit
unfolding validate_nodes
validate t =
    refuse_if (is_empty (trim t.cluster_id)) cluster_id_empty
    >> refuse_if (t.epoch_id == 0) epoch_id_zero
    >> refuse_if (is_empty t.nodes) no_nodes
    >> validate_nodes [] [] [] t.nodes

-- What the file holds, if it is read, and what its text says, if it is decoded.
unfoldable pub load :
    (Bytes → Option Bytes)
    → (Bytes → Option StaticTopology)
    → Bytes
    → Result TopologyError StaticTopology
unfolding validate
load read from_slice path = parse (read path)
  where
    checked : Option StaticTopology → Result TopologyError StaticTopology
    checked none = err unparsable
    checked (some topology) = validate topology >> ok topology

    parse : Option Bytes → Result TopologyError StaticTopology
    parse none = err unreadable
    parse (some bytes) = checked (from_slice bytes)

unfoldable pub topology_hash :
    (StaticTopology → Option Bytes) → (Bytes → Bytes) → StaticTopology → Result TopologyError Bytes
topology_hash to_vec hex_digest t = digest (to_vec t)
  where
    digest : Option Bytes → Result TopologyError Bytes
    digest none = err not_encoded
    digest (some bytes) = ok (hex_digest bytes)

abbrev pub find_node : Bytes → List TopologyNode → Option TopologyNode
find_node id [] = none
find_node id (node ∷ nodes) =
    let rest = find_node id nodes in if str_eq node.node_id id then some node else rest

unfoldable pub node : Bytes → StaticTopology → Option TopologyNode
node id t = find_node id t.nodes

unfoldable pub peers_from : Bytes → List TopologyNode → List Bytes
peers_from id [] = []
peers_from id (node ∷ nodes) =
    let rest = peers_from id nodes in
    if str_eq node.node_id id then rest else node.advertise_cluster ∷ rest

unfoldable pub peers_for : Bytes → StaticTopology → List Bytes
unfolding peers_from
peers_for id t = peers_from id t.nodes

abbrev pub disk_path_set : List TopologyVolume → List Bytes
disk_path_set [] = []
disk_path_set (disk ∷ disks) = normalize_path disk.path ∷ disk_path_set disks

abbrev pub path_set : List Bytes → List Bytes
path_set [] = []
path_set (path ∷ paths) = normalize_path path ∷ path_set paths

-- `==` of two sets.
abbrev pub same_set : List Bytes → List Bytes → Bool
same_set xs ys = all (λ x. contains_str x ys) xs && all (λ y. contains_str y xs) ys

unfoldable pub validate_local_node : Bytes → List Bytes → StaticTopology → Result TopologyError Unit
unfolding node
validate_local_node id disk_paths t = compare (node id t)
  where
    compare : Option TopologyNode → Result TopologyError Unit
    compare none = err (node_missing id)
    compare (some found) =
        refuse_if (not (same_set (disk_path_set found.volumes) (path_set disk_paths)))
          (disks_differ id)

-- The inner loop of `placement_volumes`, with the number of disks before it.
unfoldable pub place_disks : Bytes → ℕ → List TopologyVolume → List PlacementVolume
place_disks id n [] = []
place_disks id n (disk ∷ disks) =
    record { backend_index = n; node_id = id; volume_id = disk.volume_id }
    ∷ place_disks id (suc n) disks

unfoldable pub place_nodes : ℕ → List TopologyNode → List PlacementVolume
unfolding place_disks
place_nodes n [] = []
place_nodes n (node ∷ nodes) =
    place_disks node.node_id n node.volumes ++ place_nodes (n + length node.volumes) nodes

unfoldable pub placement_volumes : StaticTopology → List PlacementVolume
unfolding place_nodes
placement_volumes t = place_nodes 0 t.nodes

abbrev pub statuses_of : Bytes → List TopologyVolume → List ClusterVolumeStatus
statuses_of id [] = []
statuses_of id (disk ∷ disks) =
    record { volume_id = disk.volume_id; node_id = id; path = disk.path } ∷ statuses_of id disks

abbrev pub volume_statuses_from : List TopologyNode → List ClusterVolumeStatus
volume_statuses_from [] = []
volume_statuses_from (node ∷ nodes) =
    statuses_of node.node_id node.volumes ++ volume_statuses_from nodes

unfoldable pub volume_statuses : StaticTopology → List ClusterVolumeStatus
volume_statuses t = volume_statuses_from t.nodes

abbrev pub node_statuses_from : ServiceState → Bytes → List TopologyNode → List ClusterNodeStatus
node_statuses_from local_state id [] = []
node_statuses_from local_state id (node ∷ nodes) =
    record {
      node_id = node.node_id;
      advertise_s3 = node.advertise_s3;
      advertise_cluster = node.advertise_cluster;
      state = if str_eq node.node_id id then local_state else joining;
      voter = true;
      reachable = str_eq node.node_id id;
      total_disks = length node.volumes;
      last_heartbeat_unix_secs = 0;
    }
    ∷ node_statuses_from local_state id nodes

unfoldable pub node_statuses : ServiceState → Bytes → StaticTopology → List ClusterNodeStatus
node_statuses local_state id t = node_statuses_from local_state id t.nodes
