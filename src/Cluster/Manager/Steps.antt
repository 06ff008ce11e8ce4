-- ===== src/Cluster/Manager/Steps.antt =====
-- src/cluster/mod.rs: the changes of state of a running node, and the state it starts with.
use abixio.Base.{
  ℕ, suc, true, Option, none, some, List, [], ◌∷◌, Bytes, if◌then◌else◌, ltb, length, is_empty,
  str_eq,
}
use abixio.Cluster.Placement.{str_leb}
use abixio.Cluster.Manager.Names.{
  normalize_id, normalize_endpoint, normalize_nodes, cluster_id_for, volume_id_for,
}
use abixio.Cluster.Manager.{
  ClusterConfig, fenced, ready, syncing_epoch, FenceReason, quorum_lost, ClusterSummary,
  ClusterNodeStatus, ClusterVolumeStatus, ClusterEpoch, PersistedClusterState, cluster_enabled,
  set_epoch, update_local, majority, build_nodes, force_fence, install_topology,
}

-- `current_epoch_id`
abbrev pub current_epoch_id : ℕ
current_epoch_id = 1

unfoldable pub mark_ready :
    ℕ
    → ClusterConfig
    → ℕ
    → Bytes
    → ℕ
    → List (Bytes × ClusterSummary)
    → PersistedClusterState
    → PersistedClusterState
mark_ready now c epoch_id leader_id reachable_voters probed s =
    let epoch : ClusterEpoch = record {
      epoch_id = epoch_id;
      leader_id = leader_id;
      committed_at_unix_secs = now;
      voter_count = length c.nodes;
      reachable_voters = reachable_voters;
    } in
    record {
      summary = record s.summary {
        state = ready;
        epoch_id = epoch_id;
        leader_id = leader_id;
        voter_count = length c.nodes;
        reachable_voters = reachable_voters;
        quorum = majority (length c.nodes);
        fenced_reason = none;
      };
      topology = record s.topology {
        epoch = epoch;
        nodes =
            update_local c.node_id
              (λ node. record node {
                state = ready;
                reachable = true;
                last_heartbeat_unix_secs = now;
              })
              (build_nodes now c ready probed);
      };
      epochs = set_epoch epoch s.epochs;
    }

unfoldable pub mark_fenced :
    ℕ
    → ClusterConfig
    → ℕ
    → Bytes
    → ℕ
    → Option FenceReason
    → PersistedClusterState
    → PersistedClusterState
mark_fenced now c epoch_id leader_id reachable_voters reason s = record s {
  summary = record s.summary {
    state = fenced;
    epoch_id = epoch_id;
    leader_id = leader_id;
    voter_count = length c.nodes;
    reachable_voters = reachable_voters;
    quorum = majority (length c.nodes);
    fenced_reason = reason;
  };
  topology = record s.topology {
    nodes =
        update_local c.node_id
          (λ node. record node { state = fenced; reachable = true; last_heartbeat_unix_secs = now })
          (build_nodes now c fenced []);
  };
}

-- The first of the set of identifiers, in the order of strings.
abbrev pub least : Bytes → List (Bytes × ClusterSummary) → Bytes
least id [] = id
least id ((endpoint, summary) ∷ probed) =
    least (if str_leb id summary.node_id then id else summary.node_id) probed

unfoldable pub elect_leader : Bytes → List (Bytes × ClusterSummary) → Bytes
elect_leader local_node_id probed = least local_node_id probed

-- The answers to the requests for the status of each endpoint; `none` stands for one that fails. A summary of
-- another cluster is dropped.
unfoldable pub fetch_peer_summaries :
    (Bytes → Option ClusterSummary) → Bytes → List Bytes → List (Bytes × ClusterSummary)
fetch_peer_summaries answer cluster_id [] = []
fetch_peer_summaries answer cluster_id (peer ∷ nodes) =
    keep (answer peer) (fetch_peer_summaries answer cluster_id nodes)
  where
    keep : Option ClusterSummary → List (Bytes × ClusterSummary) → List (Bytes × ClusterSummary)
    keep none later = later
    keep (some summary) later =
        if str_eq summary.cluster_id cluster_id then (peer, summary) ∷ later else later

unfoldable pub refresh_from_nodes :
    ℕ
    → ClusterConfig
    → (Bytes → Option ClusterSummary)
    → PersistedClusterState
    → PersistedClusterState
unfolding fetch_peer_summaries elect_leader mark_ready mark_fenced
refresh_from_nodes now c answer s =
    let peer_summaries = fetch_peer_summaries answer s.summary.cluster_id c.nodes in
    let reachable_voters = suc (length peer_summaries) in
    let quorum = majority (length c.nodes) in
    let leader_id = elect_leader c.node_id peer_summaries in
    if ltb reachable_voters quorum
    then mark_fenced now c current_epoch_id leader_id reachable_voters
        (some (quorum_lost reachable_voters quorum)) s
    else mark_ready now c current_epoch_id leader_id reachable_voters peer_summaries s

module _ (hash_prefix : Bytes → Bytes) where
  abbrev pub volumes_of : Bytes → List Bytes → List ClusterVolumeStatus
  volumes_of node_id [] = []
  volumes_of node_id (path ∷ paths) =
      record { volume_id = volume_id_for hash_prefix node_id path; node_id = node_id; path = path }
      ∷ volumes_of node_id paths

  unfoldable pub refresh_local_identity :
      ClusterConfig → PersistedClusterState → PersistedClusterState
  refresh_local_identity c s = record s {
    summary = record s.summary {
      node_id = c.node_id;
      cluster_id = cluster_id_for hash_prefix c.node_id c.nodes;
      node_count = length c.nodes;
      topology_hash = none;
    };
    topology = record s.topology {
      cluster_id = cluster_id_for hash_prefix c.node_id c.nodes;
      volumes = volumes_of c.node_id c.disk_paths;
    };
  }

  unfoldable pub initial_state : ℕ → ClusterConfig → Bytes → PersistedClusterState
  initial_state now c cluster_id =
      let state = if is_empty c.nodes then ready else syncing_epoch in
      let epoch : ClusterEpoch = record {
        epoch_id = 1;
        leader_id = c.node_id;
        committed_at_unix_secs = now;
        voter_count = length c.nodes;
        reachable_voters = 1;
      } in
      record {
        summary = record {
          enabled = cluster_enabled c;
          cluster_id = cluster_id;
          node_id = c.node_id;
          topology_hash = none;
          state = state;
          epoch_id = 1;
          leader_id = c.node_id;
          node_count = length c.nodes;
          voter_count = length c.nodes;
          reachable_voters = 1;
          quorum = majority (length c.nodes);
          fenced_reason = none;
        };
        topology = record {
          cluster_id = cluster_id;
          epoch = epoch;
          nodes =
              record {
                node_id = c.node_id;
                advertise_s3 = c.advertise_s3;
                advertise_cluster = c.advertise_cluster;
                state = state;
                voter = true;
                reachable = true;
                total_disks = length c.disk_paths;
                last_heartbeat_unix_secs = now;
              }
              ∷ [];
          volumes = volumes_of c.node_id c.disk_paths;
        };
        epochs = epoch ∷ [];
      }

  unfoldable pub normalize_config : ClusterConfig → ClusterConfig
  unfolding normalize_id normalize_endpoint normalize_nodes
  normalize_config c = record c {
    node_id = normalize_id c.node_id;
    advertise_s3 = normalize_endpoint c.advertise_s3;
    advertise_cluster = normalize_endpoint c.advertise_cluster;
    nodes = normalize_nodes c.nodes;
  }

  -- The persisted state, when it is of this cluster.
  abbrev pub persisted_or_initial :
      ℕ → ClusterConfig → Bytes → Option PersistedClusterState → PersistedClusterState
  persisted_or_initial now c cluster_id none = initial_state now c cluster_id
  persisted_or_initial now c cluster_id (some s) =
      if str_eq s.summary.cluster_id cluster_id then s else initial_state now c cluster_id

  -- `ClusterManager::new`, with what was read from the disks.
  unfoldable pub new :
      ℕ → ClusterConfig → Option PersistedClusterState → ClusterConfig × PersistedClusterState
  unfolding normalize_config refresh_local_identity initial_state mark_ready
  new now config persisted =
      let c = normalize_config config in
      let s =
        refresh_local_identity c
          (persisted_or_initial now c (cluster_id_for hash_prefix c.node_id c.nodes) persisted) in
      (c, if cluster_enabled c then s else mark_ready now c current_epoch_id c.node_id 1 [] s)

-- The steps of a running node: a refresh, whatever the peers answer, a fence, and a topology that is installed.
pub data Step (c : ClusterConfig) : PersistedClusterState → PersistedClusterState → Type 0 where
  refreshed :
      (now : ℕ) (answer : Bytes → Option ClusterSummary) (s : PersistedClusterState)
      → Step c s (refresh_from_nodes now c answer s)
  fence : (reason : FenceReason) (s : PersistedClusterState) → Step c s (force_fence c reason s)
  installed :
      (now epoch_id : ℕ) (leader_id : Bytes) (nodes : List ClusterNodeStatus)
      (volumes : List ClusterVolumeStatus) (s : PersistedClusterState)
      → Step c s (install_topology now epoch_id leader_id nodes volumes s)

-- The states of a node that was first started without a persisted state, and started again on its own.
pub data Reachable (hash_prefix : Bytes → Bytes) (config : ClusterConfig)
    : PersistedClusterState → Type 0 where
  started : (now : ℕ) → Reachable hash_prefix config (new hash_prefix now config none).1
  restarted :
      {s : PersistedClusterState}
      → Reachable hash_prefix config s
      → (now : ℕ) → Reachable hash_prefix config (new hash_prefix now config (some s)).1
  stepped :
      {s t : PersistedClusterState}
      → Reachable hash_prefix config s
      → Step (normalize_config hash_prefix config) s t
      → Reachable hash_prefix config t
