-- ===== src/Cluster/Manager/Tests.antt =====
-- A cluster of three endpoints, seen from the first; the hash is the text itself.
use abixio.Base.{
  ℕ, suc, ◌≤◌, ◌≡◌, ◌≢◌, ◌↔◌, refl, ap, arith, true, false, Option, none, some, [], ◌∷◌, Bytes,
  if◌then◌else◌, str_eq, take,
}
use abixio.Cluster.Manager.Names.{
  cluster_id_for, normalize_endpoint, normalize_nodes, normalize_from,
}
use abixio.Cluster.Manager.{
  ClusterConfig, ClusterSummary, PersistedClusterState, fenced, given, majority, allows_mutation,
  force_fence,
}
use abixio.Cluster.Manager.Steps.{
  initial_state, normalize_config, refresh_from_nodes, fetch_peer_summaries, mark_fenced,
  elect_leader, new, started, stepped, refreshed, fence,
}
use abixio.Cluster.Manager.Quorum.{IsValid, Reachable-IsValid}
use abixio.Cluster.Manager.Peers.{
  count_answers, allows_mutation-refresh_from_nodes, refresh_from_nodes-alone,
  refresh_from_nodes-no_peers, IsOther, IsLeast, elect_leader_lem,
}

abbrev text_id : Bytes → Bytes
text_id text = text

abbrev first_node : ClusterConfig
first_node = record {
  node_id = 97 ∷ [];
  advertise_s3 = 1 ∷ [];
  advertise_cluster = 1 ∷ [];
  nodes = (1 ∷ []) ∷ (2 ∷ []) ∷ (3 ∷ []) ∷ [];
  disk_paths = [];
}

abbrev first_state : PersistedClusterState
first_state = initial_state text_id 0 first_node (cluster_id_for text_id (97 ∷ []) first_node.nodes)

-- Only the node itself answers.
abbrev only_self : Bytes → Option ClusterSummary
only_self peer = if str_eq peer (1 ∷ []) then some first_state.summary else none

abbrev nobody : Bytes → Option ClusterSummary
nobody peer = none

abbrev second_summary : ClusterSummary
second_summary = record first_state.summary {
  node_id = 98 ∷ [];
  cluster_id = cluster_id_for text_id (98 ∷ []) first_node.nodes;
}

nobody_fences : (refresh_from_nodes 9 first_node nobody first_state).summary.state ≡ fenced
unfolding refresh_from_nodes fetch_peer_summaries mark_fenced
nobody_fences = refl

normalize_drops_twice :
    normalize_nodes ((32 ∷ 120 ∷ 47 ∷ []) ∷ (104 ∷ 116 ∷ 116 ∷ 112 ∷ 58 ∷ 47 ∷ 47 ∷ 120 ∷ []) ∷ [])
    ≡ (104 ∷ 116 ∷ 116 ∷ 112 ∷ 58 ∷ 47 ∷ 47 ∷ 120 ∷ []) ∷ []
unfolding normalize_nodes normalize_from normalize_endpoint
normalize_drops_twice = refl

Reachable-IsValid_example : IsValid (
    refresh_from_nodes 9 (normalize_config text_id first_node) only_self (
      force_fence
        (normalize_config text_id first_node)
        (given (120 ∷ []))
        (new text_id 5 first_node none).1))
Reachable-IsValid_example =
    Reachable-IsValid text_id first_node
      (refresh_from_nodes 9 (normalize_config text_id first_node) only_self (
        force_fence (normalize_config text_id first_node) (given (120 ∷ []))
          (new text_id 5 first_node none).1))
      (stepped (stepped (started 5) (fence (given (120 ∷ [])) (new text_id 5 first_node none).1)) (
        refreshed 9 only_self (
          force_fence (normalize_config text_id first_node) (given (120 ∷ []))
            (new text_id 5 first_node none).1)))

allows_mutation-refresh_from_nodes_example :
    (allows_mutation (refresh_from_nodes 9 first_node nobody first_state) ≡ true)
    ↔ (majority 3 ≤ suc (count_answers nobody first_state.summary.cluster_id first_node.nodes))
allows_mutation-refresh_from_nodes_example =
    allows_mutation-refresh_from_nodes 9 first_node nobody first_state

refresh_from_nodes-alone_example :
    allows_mutation (refresh_from_nodes 9 first_node only_self first_state) ≡ true
refresh_from_nodes-alone_example =
    refresh_from_nodes-alone 9 first_node only_self first_state (1 ∷ []) 0 (omega arith) refl refl

abbrev first_byte : Bytes → ℕ
first_byte [] = 0
first_byte (b ∷ text) = b

other_id : (98 ∷ []) ≢ first_node.node_id
other_id same = absurd (omega (arith, ap first_byte same))

-- A hash that keeps eight bytes has collisions, but none here: a node with another identifier answers at all
-- endpoints.
abbrev eight_bytes : Bytes → Bytes
eight_bytes text = take 8 text

abbrev cut_state : PersistedClusterState
cut_state =
    initial_state eight_bytes 0 first_node (cluster_id_for eight_bytes (97 ∷ []) first_node.nodes)

abbrev second_cut : ClusterSummary
second_cut = record cut_state.summary {
  node_id = 98 ∷ [];
  cluster_id = cluster_id_for eight_bytes (98 ∷ []) first_node.nodes;
}

abbrev second_everywhere : Bytes → Option ClusterSummary
second_everywhere peer = some second_cut

second-IsOther : (peer : Bytes) → IsOther eight_bytes first_node second_everywhere peer
second-IsOther peer summary said =
    (98 ∷ [], other_id, (λ same. absurd (omega (arith, ap first_byte same))), id_of said)
  where
    id_of :
        ◌≡◌ {A = Option ClusterSummary} (some second_cut) (some summary)
        → summary.cluster_id ≡ cluster_id_for eight_bytes (98 ∷ []) first_node.nodes
    id_of said = cc

cut_state_id : cut_state.summary.cluster_id ≡ cluster_id_for eight_bytes (97 ∷ []) first_node.nodes
unfolding initial_state
cut_state_id = refl

refresh_from_nodes-no_peers_example :
    allows_mutation (refresh_from_nodes 9 first_node second_everywhere cut_state) ≡ false
refresh_from_nodes-no_peers_example =
    refresh_from_nodes-no_peers eight_bytes 9 first_node second_everywhere cut_state cut_state_id
      (omega arith)
      (second-IsOther (1 ∷ []), (second-IsOther (2 ∷ []), (second-IsOther (3 ∷ []), tt)))

elect_leader_lem_example :
    IsLeast (elect_leader (99 ∷ []) ((2 ∷ [], second_summary) ∷ [])) ((99 ∷ []) ∷ (98 ∷ []) ∷ [])
elect_leader_lem_example = elect_leader_lem (99 ∷ []) ((2 ∷ [], second_summary) ∷ [])
