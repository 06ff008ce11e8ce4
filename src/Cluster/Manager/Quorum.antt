-- ===== src/Cluster/Manager/Quorum.antt =====
-- src/cluster/mod.rs: a node that serves has counted a quorum.
use abixio.Base.{
  ℕ, suc, max, ◌&&◌, ◌≤◌, ◌≡◌, refl, arith, true, Option, none, some, List, [], ◌∷◌, Bytes, leb,
  leb→le, ltb, Bool-cases, inl, inr, length, is_empty, str_eq, get_elem?,
}
use abixio.Cluster.Manager.Names.{cluster_id_for}
use abixio.Cluster.Manager.{
  ClusterConfig, ServiceState, joining, syncing_epoch, fenced, ready, FenceReason, quorum_lost,
  ClusterSummary, ClusterEpoch, ClusterNodeStatus, ClusterVolumeStatus, PersistedClusterState,
  majority, count_voters, set_epoch, force_fence, install_topology,
}
use abixio.Cluster.Manager.Steps.{
  current_epoch_id, mark_ready, mark_fenced, refresh_from_nodes, fetch_peer_summaries, elect_leader,
  refresh_local_identity, initial_state, normalize_config, persisted_or_initial, new, Step,
  refreshed, fence, installed, Reachable, started, restarted, stepped,
}

-- What a state of the service goes with: a node that is ready has a quorum and no reason to be fenced, and a
-- fenced one has a reason.
abbrev pub IsJustified : ServiceState → ℕ → ℕ → Option FenceReason → Type 0
IsJustified joining quorum reachable reason = reason ≡ none
IsJustified syncing_epoch quorum reachable reason = reason ≡ none
IsJustified fenced quorum reachable reason = (why : FenceReason) × (reason ≡ some why)
IsJustified ready quorum reachable reason = (quorum ≤ reachable) × (reason ≡ none)

-- The quorum is a majority of the voters, the state is justified, and the current epoch heads the epochs.
abbrev pub IsValid : PersistedClusterState → Type 0
IsValid s =
    (s.summary.quorum ≡ majority s.summary.voter_count)
    × IsJustified s.summary.state s.summary.quorum s.summary.reachable_voters
        s.summary.fenced_reason
    × (get_elem? s.epochs 0 ≡ some s.topology.epoch)

set_epoch-head :
    (e : ClusterEpoch) (epochs : List ClusterEpoch) → get_elem? (set_epoch e epochs) 0 ≡ some e
set_epoch-head e [] = refl
set_epoch-head e (old ∷ epochs) = refl

mark_ready-IsValid :
    (now : ℕ) (c : ClusterConfig) (epoch_id : ℕ) (leader_id : Bytes) (reachable : ℕ)
    (probed : List (Bytes × ClusterSummary)) (s : PersistedClusterState)
    → majority (length c.nodes) ≤ reachable
    → IsValid (mark_ready now c epoch_id leader_id reachable probed s)
unfolding mark_ready
mark_ready-IsValid now c epoch_id leader_id reachable probed s h =
    (refl, (h, refl), set_epoch-head _ s.epochs)

mark_fenced-IsValid :
    (now : ℕ) (c : ClusterConfig) (epoch_id : ℕ) (leader_id : Bytes) (reachable : ℕ)
    (reason : FenceReason) (s : PersistedClusterState)
    → IsValid s
    → IsValid (mark_fenced now c epoch_id leader_id reachable (some reason) s)
unfolding mark_fenced
mark_fenced-IsValid now c epoch_id leader_id reachable reason s (q, j, e) =
    (refl, (reason, refl), e)

force_fence-IsValid :
    (c : ClusterConfig) (reason : FenceReason) (s : PersistedClusterState)
    → IsValid s
    → IsValid (force_fence c reason s)
unfolding force_fence
force_fence-IsValid c reason s (q, j, e) = (q, (reason, refl), e)

refresh_from_nodes-IsValid :
    (now : ℕ) (c : ClusterConfig) (answer : Bytes → Option ClusterSummary)
    (s : PersistedClusterState)
    → IsValid s
    → IsValid (refresh_from_nodes now c answer s)
unfolding refresh_from_nodes
refresh_from_nodes-IsValid now c answer s h =
    let peers : List (Bytes × ClusterSummary) =
      fetch_peer_summaries answer s.summary.cluster_id c.nodes in
    elim (Bool-cases (ltb (suc (length peers)) (majority (length c.nodes)))) [
      | inl lost ↦ rw lost (
          mark_fenced-IsValid now c current_epoch_id (elect_leader c.node_id peers)
            (suc (length peers)) (quorum_lost (suc (length peers)) (majority (length c.nodes))) s h)
      | inr held ↦ rw held (
          mark_ready-IsValid now c current_epoch_id (elect_leader c.node_id peers)
            (suc (length peers)) peers s (ground arith))
    ]

install_topology-IsValid :
    (now epoch_id : ℕ) (leader_id : Bytes) (nodes : List ClusterNodeStatus)
    (volumes : List ClusterVolumeStatus) (s : PersistedClusterState)
    → IsValid (install_topology now epoch_id leader_id nodes volumes s)
unfolding install_topology
install_topology-IsValid now epoch_id leader_id nodes volumes s =
    let quorum : ℕ = majority (max (count_voters (λ node. node.voter) nodes) 1) in
    let reachable : ℕ = max (count_voters (λ node. node.voter && node.reachable) nodes) 1 in
    elim (Bool-cases (leb quorum reachable)) [
      | inl held ↦ rw held (refl, (leb→le quorum reachable held, refl), set_epoch-head _ s.epochs)
      | inr lost ↦ rw lost (refl, (quorum_lost reachable quorum, refl), set_epoch-head _ s.epochs)
    ]

quorum_alone : (nodes : List Bytes) → is_empty nodes ≡ true → majority (length nodes) ≤ 1
quorum_alone [] h = omega arith
quorum_alone (node ∷ nodes) h = cc

module _ (hash_prefix : Bytes → Bytes) where
  initial_state-IsValid :
      (now : ℕ) (c : ClusterConfig) (cluster_id : Bytes)
      → IsValid (initial_state hash_prefix now c cluster_id)
  unfolding initial_state
  initial_state-IsValid now c cluster_id = elim (Bool-cases (is_empty c.nodes)) [
    | inl alone ↦ rw alone (refl, (quorum_alone c.nodes alone, refl), refl)
    | inr peers ↦ rw peers (refl, refl, refl)
  ]

  refresh_local_identity-IsValid :
      (c : ClusterConfig) (s : PersistedClusterState)
      → IsValid s
      → IsValid (refresh_local_identity hash_prefix c s)
  unfolding refresh_local_identity
  refresh_local_identity-IsValid c s (q, j, e) = (q, j, e)

  -- What is known of the state that was read from the disks, if there is one.
  abbrev IfPersisted : Option PersistedClusterState → Type 0
  IfPersisted none = Unit
  IfPersisted (some s) = IsValid s

  persisted_or_initial-IsValid :
      (now : ℕ) (c : ClusterConfig) (id : Bytes) (persisted : Option PersistedClusterState)
      → IfPersisted persisted
      → IsValid (persisted_or_initial hash_prefix now c id persisted)
  persisted_or_initial-IsValid now c id none h = initial_state-IsValid now c id
  persisted_or_initial-IsValid now c id (some s) h =
      elim (Bool-cases (str_eq s.summary.cluster_id id)) [
        | inl same ↦ rw same h
        | inr other ↦ rw other (initial_state-IsValid now c id)
      ]

  new-IsValid :
      (now : ℕ) (config : ClusterConfig) (persisted : Option PersistedClusterState)
      → IfPersisted persisted
      → IsValid (new hash_prefix now config persisted).1
  unfolding new
  new-IsValid now config persisted h =
      let c : ClusterConfig = normalize_config hash_prefix config in
      let id : Bytes = cluster_id_for hash_prefix c.node_id c.nodes in
      let s : PersistedClusterState =
        refresh_local_identity hash_prefix c
          (persisted_or_initial hash_prefix now c id persisted) in
      let local_valid : IsValid s =
        refresh_local_identity-IsValid c (persisted_or_initial hash_prefix now c id persisted)
          (persisted_or_initial-IsValid now c id persisted h) in
      elim (Bool-cases (is_empty c.nodes)) [
        | inl alone ↦ rw alone (
            mark_ready-IsValid now c current_epoch_id c.node_id 1 [] s (quorum_alone c.nodes alone))
        | inr peers ↦ rw peers local_valid
      ]

  Step-IsValid :
      (c : ClusterConfig) {s t : PersistedClusterState} → Step c s t → IsValid s → IsValid t
  Step-IsValid c (refreshed now answer s) h = refresh_from_nodes-IsValid now c answer s h
  Step-IsValid c (fence reason s) h = force_fence-IsValid c reason s h
  Step-IsValid c (installed now epoch_id leader_id nodes volumes s) h =
      install_topology-IsValid now epoch_id leader_id nodes volumes s

  -- In every state that a node reaches from its first start by refreshes, fences, installed topologies and
  -- restarts, whatever its peers answer: the quorum is a majority of the voters; a node that is ready has
  -- counted a quorum of reachable voters and has no reason to be fenced; a fenced node has one; and the
  -- current epoch heads the list of epochs.
  pub Reachable-IsValid :
      (config : ClusterConfig) (s : PersistedClusterState)
      → Reachable hash_prefix config s
      → IsValid s
  Reachable-IsValid config _ (started now) = new-IsValid now config none tt
  Reachable-IsValid config _ (restarted {s} r now) =
      new-IsValid now config (some s) (Reachable-IsValid config s r)
  Reachable-IsValid config t (stepped {s} r step) =
      Step-IsValid (normalize_config hash_prefix config) step (Reachable-IsValid config s r)
