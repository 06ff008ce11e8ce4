-- ===== src/Cluster/Manager/Peers.antt =====
-- src/cluster/mod.rs: who is counted as a reachable voter, and who leads.
use abixio.Base.{
  ℕ, zero, suc, ◌+◌, ◌≤◌, ◌≡◌, ◌⊎◌, ◌↔◌, refl, sym, ◌∙◌, arith, Bool, true, false, Option, none,
  some, List, [], ◌∷◌, ◌++◌, Bytes, if◌then◌else◌, ltb, Bool-cases, Option-cases, inl, inr, length,
  str_eq, str_eq_refl, str_eq_iff, get_elem?, All, ◌≢◌, subst,
}
use mathlib.Core.List.{append_cancel_left, append_cancel_right}
use abixio.Cluster.Placement.{str_leb}
use abixio.Cluster.Manager.Names.{cluster_id_for, fed, text_abixio}
use abixio.Cluster.Manager.{
  ClusterConfig, ClusterSummary, PersistedClusterState, majority, allows_mutation,
}
use abixio.Cluster.Manager.Steps.{
  refresh_from_nodes, fetch_peer_summaries, elect_leader, least, mark_ready, mark_fenced,
}

-- Whether an endpoint answers with a summary of the cluster.
abbrev pub answers : (Bytes → Option ClusterSummary) → Bytes → Bytes → Bool
answers answer cluster_id peer = same_cluster (answer peer)
  where
    same_cluster : Option ClusterSummary → Bool
    same_cluster none = false
    same_cluster (some summary) = str_eq summary.cluster_id cluster_id

abbrev pub count_answers : (Bytes → Option ClusterSummary) → Bytes → List Bytes → ℕ
count_answers answer cluster_id [] = 0
count_answers answer cluster_id (peer ∷ nodes) =
    (if answers answer cluster_id peer then 1 else 0) + count_answers answer cluster_id nodes

length-fetch_peer_summaries :
    (answer : Bytes → Option ClusterSummary) (cluster_id : Bytes) (nodes : List Bytes)
    → length (fetch_peer_summaries answer cluster_id nodes) ≡ count_answers answer cluster_id nodes
unfolding fetch_peer_summaries
length-fetch_peer_summaries answer cluster_id [] = refl
length-fetch_peer_summaries answer cluster_id (peer ∷ nodes) = elim (Option-cases (answer peer)) [
  | inl silent ↦ rw silent (omega (arith, length-fetch_peer_summaries answer cluster_id nodes))
  | inr (summary, said) ↦ rw said (elim (Bool-cases (str_eq summary.cluster_id cluster_id)) [
    | inl same ↦ rw same (omega (arith, length-fetch_peer_summaries answer cluster_id nodes))
    | inr other ↦ rw other (omega (arith, length-fetch_peer_summaries answer cluster_id nodes))
  ])
]

module _ (now : ℕ) (c : ClusterConfig) (answer : Bytes → Option ClusterSummary)
    (s : PersistedClusterState) where
  -- After a refresh, the node serves exactly when itself and the configured endpoints that answer with a
  -- summary of its cluster are at least a majority of the configured endpoints.
  pub allows_mutation-refresh_from_nodes :
      (allows_mutation (refresh_from_nodes now c answer s) ≡ true)
      ↔ (majority (length c.nodes) ≤ suc (count_answers answer s.summary.cluster_id c.nodes))
  unfolding refresh_from_nodes mark_ready mark_fenced
  allows_mutation-refresh_from_nodes =
      let n : length (fetch_peer_summaries answer s.summary.cluster_id c.nodes)
          ≡ count_answers answer s.summary.cluster_id c.nodes =
        length-fetch_peer_summaries answer s.summary.cluster_id c.nodes in
      elim (Bool-cases (
        ltb (suc (length (fetch_peer_summaries answer s.summary.cluster_id c.nodes)))
          (majority (length c.nodes)))) [
            | inl lost ↦ rw lost ((λ h. cc), (λ h. ground arith))
            | inr held ↦ rw held ((λ h. ground arith), (λ h. refl))
          ]

one_answer :
    (answer : Bytes → Option ClusterSummary) (cluster_id own : Bytes) (nodes : List Bytes) (i : ℕ)
    → get_elem? nodes i ≡ some own
    → answers answer cluster_id own ≡ true
    → 1 ≤ count_answers answer cluster_id nodes
one_answer answer cluster_id own [] i h p = cc
one_answer answer cluster_id own (peer ∷ nodes) zero h p =
    let same : peer ≡ own = some_eq h in rw (same, p) (omega arith)
  where
    some_eq : {x y : Bytes} → ◌≡◌ {A = Option Bytes} (some x) (some y) → x ≡ y
    some_eq h = cc
one_answer answer cluster_id own (peer ∷ nodes) (suc i) h p =
    omega (arith, one_answer answer cluster_id own nodes i h p)

-- A node of a cluster of at most three whose own endpoint is among the configured ones, and which answers
-- itself, serves after a refresh whatever the other nodes answer: it counts itself twice.
pub refresh_from_nodes-alone :
    (now : ℕ) (c : ClusterConfig) (answer : Bytes → Option ClusterSummary)
    (s : PersistedClusterState) (own : Bytes) (i : ℕ)
    → length c.nodes ≤ 3
    → get_elem? c.nodes i ≡ some own
    → answer own ≡ some s.summary
    → allows_mutation (refresh_from_nodes now c answer s) ≡ true
refresh_from_nodes-alone now c answer s own i few listed self =
    let itself : answers answer s.summary.cluster_id own ≡ true =
      rw self (str_eq_refl s.summary.cluster_id) in
    let one : 1 ≤ count_answers answer s.summary.cluster_id c.nodes =
      one_answer answer s.summary.cluster_id own c.nodes i listed itself in
    (allows_mutation-refresh_from_nodes now c answer s).1 (omega arith)

module _ (hash_prefix : Bytes → Bytes) where
  -- The hash has no collision between this node's identifier and one other, each with the endpoints.
  abbrev pub HasNoCollision : ClusterConfig → Bytes → Type 0
  HasNoCollision c other =
      hash_prefix (other ++ fed c.nodes) ≡ hash_prefix (c.node_id ++ fed c.nodes)
      → other ++ fed c.nodes ≡ c.node_id ++ fed c.nodes

  cluster_id_for-differs :
      (c : ClusterConfig) (other : Bytes)
      → HasNoCollision c other
      → other ≢ c.node_id
      → cluster_id_for hash_prefix other c.nodes ≢ cluster_id_for hash_prefix c.node_id c.nodes
  unfolding cluster_id_for
  cluster_id_for-differs c other free differs same = differs (
      append_cancel_right other c.node_id (fed c.nodes)
        (free (append_cancel_left text_abixio _ _ same)))

  -- What answers at an endpoint, if anything, is a node with another identifier, on which the hash has no
  -- collision with this node's, and the same endpoints.
  abbrev pub IsOther : ClusterConfig → (Bytes → Option ClusterSummary) → Bytes → Type 0
  IsOther c answer peer =
      (summary : ClusterSummary)
      → answer peer ≡ some summary
      → (other : Bytes) × (other ≢ c.node_id)
        × HasNoCollision c other
        × (summary.cluster_id ≡ cluster_id_for hash_prefix other c.nodes)

  none_counted :
      (c : ClusterConfig) (answer : Bytes → Option ClusterSummary) (nodes : List Bytes)
      → All (IsOther c answer) nodes
      → count_answers answer (cluster_id_for hash_prefix c.node_id c.nodes) nodes ≡ 0
  none_counted c answer [] h = refl
  none_counted c answer (peer ∷ nodes) h = elim (Option-cases (answer peer)) [
    | inl silent ↦ rw silent (omega (arith, none_counted c answer nodes h.1))
    | inr (summary, said) ↦
        let (other, differs, free, id) = h.0 summary said in
        let own : Bytes = cluster_id_for hash_prefix c.node_id c.nodes in
        elim (Bool-cases (str_eq summary.cluster_id own)) [
          | inl same ↦ absurd (
              cluster_id_for-differs c other free differs
                (sym id ∙ (str_eq_iff summary.cluster_id own).0 same))
          | inr no_match ↦ rw (said, no_match) (omega (arith, none_counted c answer nodes h.1))
        ]
  ]

  -- When a node has the identity that its manager gives it, and what answers at its configured endpoints, at
  -- least two, are nodes with other identifiers that were given the same endpoints, the node does not serve
  -- after a refresh, even when all its peers answer: each identifier hashes to a cluster of its own. The hash
  -- is taken to have no collision between this node's identifier and those of the nodes that answer, each
  -- followed by the endpoints.
  pub refresh_from_nodes-no_peers :
      (now : ℕ) (c : ClusterConfig) (answer : Bytes → Option ClusterSummary)
      (s : PersistedClusterState)
      → s.summary.cluster_id ≡ cluster_id_for hash_prefix c.node_id c.nodes
      → 2 ≤ length c.nodes
      → All (IsOther c answer) c.nodes
      → allows_mutation (refresh_from_nodes now c answer s) ≡ false
  refresh_from_nodes-no_peers now c answer s id two others =
      let nobody : count_answers answer s.summary.cluster_id c.nodes ≡ 0 =
        rw id (none_counted c answer c.nodes others) in
      elim (Bool-cases (allows_mutation (refresh_from_nodes now c answer s))) [
        | inl serves ↦
            absurd (omega (arith, (allows_mutation-refresh_from_nodes now c answer s).0 serves))
        | inr refuses ↦ refuses
      ]

str_leb_refl : (x : Bytes) → str_leb x x ≡ true
str_leb_refl [] = refl
str_leb_refl (b ∷ x) = ground (arith, str_leb_refl x)

str_leb_total : (x y : Bytes) → str_leb x y ≡ false → str_leb y x ≡ true
str_leb_total [] y h = cc
str_leb_total (a ∷ x) [] h = refl
str_leb_total (a ∷ x) (b ∷ y) h = ground (arith, str_leb_total x y)

str_leb_trans : (x y z : Bytes) → str_leb x y ≡ true → str_leb y z ≡ true → str_leb x z ≡ true
str_leb_trans [] y z h k = refl
str_leb_trans (a ∷ x) [] z h k = cc
str_leb_trans (a ∷ x) (b ∷ y) [] h k = cc
str_leb_trans (a ∷ x) (b ∷ y) (c ∷ z) h k = ground (arith, str_leb_trans x y z)

-- The identifiers among which the leader is chosen.
abbrev pub ids_of : List (Bytes × ClusterSummary) → List Bytes
ids_of [] = []
ids_of ((endpoint, summary) ∷ probed) = summary.node_id ∷ ids_of probed

abbrev pub Among : Bytes → List Bytes → Type 0
Among id [] = ⊥
Among id (x ∷ xs) = (id ≡ x) ⊎ Among id xs

abbrev pub IsLeast : Bytes → List Bytes → Type 0
IsLeast id ids = Among id ids × All (λ other. str_leb id other ≡ true) ids

skip_second :
    (l id other : Bytes) (ids : List Bytes)
    → str_leb id other ≡ true
    → IsLeast l (id ∷ ids)
    → IsLeast l (id ∷ other ∷ ids)
skip_second l id other ids h (among, (below, all_below)) = (
  elim among [ inl p ↦ inl p | inr q ↦ inr (inr q) ],
  (below, (str_leb_trans l id other below h, all_below)),
)

skip_first :
    (l id other : Bytes) (ids : List Bytes)
    → str_leb id other ≡ false
    → IsLeast l (other ∷ ids)
    → IsLeast l (id ∷ other ∷ ids)
skip_first l id other ids h (among, (below, all_below)) =
    (inr among, (str_leb_trans l other id below (str_leb_total id other h), (below, all_below)))

least_lem :
    (id : Bytes) (probed : List (Bytes × ClusterSummary))
    → IsLeast (least id probed) (id ∷ ids_of probed)
least_lem id [] = (inl refl, (str_leb_refl id, tt))
least_lem id ((endpoint, summary) ∷ probed) =
    let ids : List Bytes = id ∷ summary.node_id ∷ ids_of probed in
    elim (Bool-cases (str_leb id summary.node_id)) [
      | inl first ↦
          let same : least id probed ≡ least id ((endpoint, summary) ∷ probed) = rw first refl in
          subst (λ l. IsLeast l ids) same
            (skip_second (least id probed) id summary.node_id (ids_of probed) first
              (least_lem id probed))
      | inr second ↦
          let same : least summary.node_id probed ≡ least id ((endpoint, summary) ∷ probed) =
            rw second refl in
          subst (λ l. IsLeast l ids) same
            (skip_first (least summary.node_id probed) id summary.node_id (ids_of probed) second
              (least_lem summary.node_id probed))
    ]

-- The leader that a node elects is itself or a peer that was counted, and its identifier comes before or is
-- that of each of them in the order of strings.
pub elect_leader_lem :
    (id : Bytes) (probed : List (Bytes × ClusterSummary))
    → IsLeast (elect_leader id probed) (id ∷ ids_of probed)
unfolding elect_leader
elect_leader_lem id probed = least_lem id probed
