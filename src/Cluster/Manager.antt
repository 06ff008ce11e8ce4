-- ===== src/Cluster/Manager.antt =====
-- src/cluster/mod.rs: what a node of the cluster knows of itself and of its peers, and whether it serves. The
-- state behind the lock is passed along; writing it to the disks is left out. The clock, the hash and the
-- answers of the peers are arguments, and a path is its text.
pub mod Names
pub mod Quorum
pub mod Steps
pub mod Peers
mod Tests
use abixio.Base.{
  ℕ, ◌+◌, ◌-◌, ◌/◌, max, Bool, true, false, not, ◌&&◌, ◌||◌, Option, none, some, List, [], ◌∷◌,
  ◌++◌, Bytes, ◌==◌, if◌then◌else◌, leb, ltb, length, is_empty, str_eq,
}
use abixio.Cluster.Placement.{str_leb}
use abixio.Cluster.Manager.Names.{
  normalize_id, normalize_endpoint, normalize_nodes, trim_slashes, cluster_id_for, volume_id_for,
}

pub record ClusterConfig : Type 0 where
  pub node_id : Bytes
  pub advertise_s3 : Bytes
  pub advertise_cluster : Bytes
  pub nodes : List Bytes
  pub disk_paths : List Bytes

pub data ServiceState : Type 0 where
  joining syncing_epoch fenced ready : ServiceState

-- The text of a fence: the quorum is lost, with the counts, or the text given to `force_fence`.
pub data FenceReason : Type 0 where
  quorum_lost : ℕ → ℕ → FenceReason
  given : Bytes → FenceReason

pub record ClusterSummary : Type 0 where
  pub enabled : Bool
  pub cluster_id : Bytes
  pub node_id : Bytes
  pub topology_hash : Option Bytes
  pub state : ServiceState
  pub epoch_id : ℕ
  pub leader_id : Bytes
  pub node_count : ℕ
  pub voter_count : ℕ
  pub reachable_voters : ℕ
  pub quorum : ℕ
  pub fenced_reason : Option FenceReason

pub record ClusterNodeStatus : Type 0 where
  pub node_id : Bytes
  pub advertise_s3 : Bytes
  pub advertise_cluster : Bytes
  pub state : ServiceState
  pub voter : Bool
  pub reachable : Bool
  pub total_disks : ℕ
  pub last_heartbeat_unix_secs : ℕ

pub record ClusterVolumeStatus : Type 0 where
  pub volume_id : Bytes
  pub node_id : Bytes
  pub path : Bytes

pub record ClusterEpoch : Type 0 where
  pub epoch_id : ℕ
  pub leader_id : Bytes
  pub committed_at_unix_secs : ℕ
  pub voter_count : ℕ
  pub reachable_voters : ℕ

pub record ClusterTopology : Type 0 where
  pub cluster_id : Bytes
  pub epoch : ClusterEpoch
  pub nodes : List ClusterNodeStatus
  pub volumes : List ClusterVolumeStatus

pub record PersistedClusterState : Type 0 where
  pub summary : ClusterSummary
  pub topology : ClusterTopology
  pub epochs : List ClusterEpoch

abbrev pub is_ready : ServiceState → Bool
is_ready joining = false
is_ready syncing_epoch = false
is_ready fenced = false
is_ready ready = true

abbrev pub cluster_enabled : ClusterConfig → Bool
cluster_enabled c = not (is_empty c.nodes)

abbrev pub blocks_data_plane : PersistedClusterState → Bool
blocks_data_plane s = not (is_ready s.summary.state)

abbrev pub allows_mutation : PersistedClusterState → Bool
allows_mutation s = is_ready s.summary.state

-- `if epochs.is_empty() { push } else { epochs[0] = epoch }`
abbrev pub set_epoch : ClusterEpoch → List ClusterEpoch → List ClusterEpoch
set_epoch epoch [] = epoch ∷ []
set_epoch epoch (old ∷ epochs) = epoch ∷ epochs

-- A change of the first entry of the local node.
abbrev pub update_local :
    Bytes
    → (ClusterNodeStatus → ClusterNodeStatus)
    → List ClusterNodeStatus
    → List ClusterNodeStatus
update_local node_id f [] = []
update_local node_id f (node ∷ nodes) =
    let later = update_local node_id f nodes in
    if str_eq node.node_id node_id then f node ∷ nodes else node ∷ later

abbrev pub count_voters : (ClusterNodeStatus → Bool) → List ClusterNodeStatus → ℕ
count_voters p [] = 0
count_voters p (node ∷ nodes) = (if p node then 1 else 0) + count_voters p nodes

abbrev pub majority : ℕ → ℕ
majority voter_count = voter_count / 2 + 1

unfoldable pub force_fence :
    ClusterConfig → FenceReason → PersistedClusterState → PersistedClusterState
force_fence c reason s = record s {
  summary = record s.summary { state = fenced; fenced_reason = some reason };
  topology = record s.topology {
    nodes = update_local c.node_id (λ node. record node { state = fenced }) s.topology.nodes;
  };
}

unfoldable pub install_topology :
    ℕ
    → ℕ
    → Bytes
    → List ClusterNodeStatus
    → List ClusterVolumeStatus
    → PersistedClusterState
    → PersistedClusterState
install_topology now epoch_id leader_id nodes volumes s =
    let voter_count = max (count_voters (λ node. node.voter) nodes) 1 in
    let reachable_voters = max (count_voters (λ node. node.voter && node.reachable) nodes) 1 in
    let quorum = majority voter_count in
    let epoch : ClusterEpoch = record {
      epoch_id = epoch_id;
      leader_id = leader_id;
      committed_at_unix_secs = now;
      voter_count = voter_count;
      reachable_voters = reachable_voters;
    } in
    record {
      summary = record s.summary {
        state = if leb quorum reachable_voters then ready else fenced;
        epoch_id = epoch_id;
        leader_id = leader_id;
        node_count = length nodes - 1;
        voter_count = voter_count;
        reachable_voters = reachable_voters;
        quorum = quorum;
        fenced_reason =
            if leb quorum reachable_voters
            then none
            else some (quorum_lost reachable_voters quorum);
      };
      topology = record {
        cluster_id = s.summary.cluster_id;
        epoch = epoch;
        nodes = nodes;
        volumes = volumes;
      };
      epochs = set_epoch epoch s.epochs;
    }

-- The first summary that came from an endpoint.
abbrev pub find_status : Bytes → List (Bytes × ClusterSummary) → Option ClusterSummary
find_status remote [] = none
find_status remote ((endpoint, summary) ∷ probed) =
    let later = find_status remote probed in if str_eq endpoint remote then some summary else later

abbrev pub remote_node : ℕ → Bytes → Option ClusterSummary → ClusterNodeStatus
remote_node now remote none = record {
  node_id = remote;
  advertise_s3 = [];
  advertise_cluster = remote;
  state = joining;
  voter = true;
  reachable = false;
  total_disks = 0;
  last_heartbeat_unix_secs = now;
}
remote_node now remote (some summary) = record {
  node_id = summary.node_id;
  advertise_s3 = summary.node_id;
  advertise_cluster = remote;
  state = summary.state;
  voter = true;
  reachable = true;
  total_disks = 0;
  last_heartbeat_unix_secs = now;
}

abbrev pub is_self : ClusterConfig → Bytes → Bool
is_self c remote =
    str_eq (trim_slashes remote) (trim_slashes c.advertise_s3)
    || str_eq (trim_slashes remote) (trim_slashes c.advertise_cluster)

abbrev pub remote_nodes :
    ℕ → ClusterConfig → List (Bytes × ClusterSummary) → List Bytes → List ClusterNodeStatus
remote_nodes now c probed [] = []
remote_nodes now c probed (remote ∷ nodes) =
    let later = remote_nodes now c probed nodes in
    if is_self c remote then later else remote_node now remote (find_status remote probed) ∷ later

abbrev pub build_nodes :
    ℕ → ClusterConfig → ServiceState → List (Bytes × ClusterSummary) → List ClusterNodeStatus
build_nodes now c local_state probed =
    record {
      node_id = c.node_id;
      advertise_s3 = c.advertise_s3;
      advertise_cluster = c.advertise_cluster;
      state = local_state;
      voter = true;
      reachable = true;
      total_disks = length c.disk_paths;
      last_heartbeat_unix_secs = now;
    }
    ∷ remote_nodes now c probed c.nodes
