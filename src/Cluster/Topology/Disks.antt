-- ===== src/Cluster/Topology/Disks.antt =====
-- src/cluster/topology.rs: the disks that the planner is given.
use abixio.Base.{
  ℕ, zero, suc, ◌+◌, ◌≤◌, ◌<◌, ◌==◌, Bool-cases, inl, inr, ◌≡◌, ◌≢◌, refl, sym, ap, ◌∙◌, arith,
  List, [], ◌∷◌, ◌++◌, Bytes, All, some, length, get_elem?, ok, subst,
}
use abixio.Cluster.Placement.{
  PlacementVolume, PlacementShard, PlacementRecord, PlacementPlanner, plan,
}
use abixio.Cluster.Placement.Counts.{count}
use abixio.Cluster.Placement.Plan.{plan-IsSpread}
use abixio.Cluster.Topology.{
  TopologyVolume, TopologyNode, StaticTopology, validate, placement_volumes, place_nodes,
  place_disks,
}
use abixio.Cluster.Topology.Validate.{all_disks, disk_id, validate_iff}
use abixio.Cluster.Topology.Distinct.{AreDistinct}

abbrev pub placed_id : PlacementVolume → Bytes
placed_id volume = volume.volume_id

-- The disks are numbered from a number on.
abbrev AreNumbered : ℕ → List PlacementVolume → Type 0
AreNumbered n [] = Unit
AreNumbered n (v ∷ vs) = (v.backend_index ≡ n) × AreNumbered (suc n) vs

place_disks-AreNumbered :
    (id : Bytes) (n : ℕ) (disks : List TopologyVolume) (rest : List PlacementVolume)
    → AreNumbered (n + length disks) rest
    → AreNumbered n (place_disks id n disks ++ rest)
unfolding place_disks
place_disks-AreNumbered id n [] rest h = subst (λ k. AreNumbered k rest) (omega arith) h
place_disks-AreNumbered id n (disk ∷ disks) rest h = (
  refl,
  place_disks-AreNumbered id (suc n) disks rest (subst (λ k. AreNumbered k rest) (omega arith) h),
)

place_nodes-AreNumbered : (n : ℕ) (nodes : List TopologyNode) → AreNumbered n (place_nodes n nodes)
unfolding place_nodes
place_nodes-AreNumbered n [] = tt
place_nodes-AreNumbered n (node ∷ nodes) =
    place_disks-AreNumbered node.node_id n node.volumes
      (place_nodes (n + length node.volumes) nodes)
      (place_nodes-AreNumbered (n + length node.volumes) nodes)

index_of :
    (n i : ℕ) (vs : List PlacementVolume) (v : PlacementVolume)
    → AreNumbered n vs
    → get_elem? vs i ≡ some v
    → v.backend_index ≡ n + i
index_of n i [] v h e = absurd cc
index_of n zero (w ∷ vs) v h e =
    let same : w ≡ v = cc in ap (λ x. x.backend_index) (sym same) ∙ h.0 ∙ omega arith
index_of n (suc i) (w ∷ vs) v h e = omega (arith, index_of (suc n) i vs v h.1 e)

-- The names of the disks, in order.
abbrev names {ℓ} : {A : Type ℓ} → (A → Bytes) → List A → List Bytes
names f [] = []
names f (x ∷ xs) = f x ∷ names f xs

names-append {ℓ} :
    {A : Type ℓ} (f : A → Bytes) (xs ys : List A) → names f (xs ++ ys) ≡ names f xs ++ names f ys
names-append f [] ys = refl
names-append f (x ∷ xs) ys = ap (λ r. f x ∷ r) (names-append f xs ys)

names-place_disks :
    (id : Bytes) (n : ℕ) (disks : List TopologyVolume)
    → names placed_id (place_disks id n disks) ≡ names disk_id disks
unfolding place_disks
names-place_disks id n [] = refl
names-place_disks id n (disk ∷ disks) =
    ap (λ r. disk_id disk ∷ r) (names-place_disks id (suc n) disks)

names-place_nodes :
    (n : ℕ) (nodes : List TopologyNode)
    → names placed_id (place_nodes n nodes) ≡ names disk_id (all_disks nodes)
unfolding place_nodes
names-place_nodes n [] = refl
names-place_nodes n (node ∷ nodes) = rw (
  names-append placed_id (place_disks node.node_id n node.volumes)
      (place_nodes (n + length node.volumes) nodes),
  names-append disk_id node.volumes (all_disks nodes),
  names-place_disks node.node_id n node.volumes,
  names-place_nodes (n + length node.volumes) nodes,
)

apart_along :
    {A B : Type 0} (f : A → Bytes) (g : B → Bytes) (a : Bytes) (xs : List A) (ys : List B)
    → names f xs ≡ names g ys
    → All (λ x. a ≢ f x) xs
    → All (λ y. a ≢ g y) ys
apart_along f g a [] [] e h = tt
apart_along f g a [] (y ∷ ys) e h = absurd cc
apart_along f g a (x ∷ xs) [] e h = absurd cc
apart_along f g a (x ∷ xs) (y ∷ ys) e h =
    let first : f x ≡ g y = cc in
    let rest : names f xs ≡ names g ys = cc in
    ((λ s. h.0 (s ∙ sym first)), apart_along f g a xs ys rest h.1)

AreDistinct-along :
    {A B : Type 0} (f : A → Bytes) (g : B → Bytes) (xs : List A) (ys : List B)
    → names f xs ≡ names g ys
    → AreDistinct f xs
    → AreDistinct g ys
AreDistinct-along f g [] [] e h = tt
AreDistinct-along f g [] (y ∷ ys) e h = absurd cc
AreDistinct-along f g (x ∷ xs) [] e h = absurd cc
AreDistinct-along f g (x ∷ xs) (y ∷ ys) e h =
    let first : f x ≡ g y = cc in
    let rest : names f xs ≡ names g ys = cc in
    (
      apart_along f g (g y) xs ys rest (subst (λ a. All (λ z. a ≢ f z) xs) first h.0),
      AreDistinct-along f g xs ys rest h.1,
    )

-- The planner of a cluster that is written down.
abbrev pub planner_of : StaticTopology → PlacementPlanner
planner_of t = record {
  epoch_id = t.epoch_id;
  cluster_id = t.cluster_id;
  disks = placement_volumes t;
}

-- The disks that an accepted topology hands to the planner have pairwise different names, and the disk at place
-- `i` has the index `i`.
pub placement_volumes-AreDistinct :
    (t : StaticTopology)
    → validate t ≡ ok tt
    → AreDistinct placed_id (placement_volumes t)
      × ((i : ℕ) (v : PlacementVolume)
          → get_elem? (placement_volumes t) i ≡ some v
          → v.backend_index ≡ i)
unfolding placement_volumes
placement_volumes-AreDistinct t accepted =
    let valid = (validate_iff t).0 accepted in
    (
      AreDistinct-along disk_id placed_id (all_disks t.nodes) (place_nodes 0 t.nodes)
          (sym (names-place_nodes 0 t.nodes)) valid.2.1,
      (λ i v e.
          omega
            (arith, index_of 0 i (place_nodes 0 t.nodes) v (place_nodes-AreNumbered 0 t.nodes) e)),
    )

count_below :
    (v n : ℕ) (vs : List PlacementVolume)
    → AreNumbered n vs
    → v < n
    → count (λ (d : PlacementVolume). d.backend_index == v) vs ≡ 0
count_below v n [] h less = refl
count_below v n (w ∷ vs) h less = ground (arith, h.0, count_below v (suc n) vs h.1 (omega arith))

count_once :
    (v n : ℕ) (vs : List PlacementVolume)
    → AreNumbered n vs
    → count (λ (d : PlacementVolume). d.backend_index == v) vs ≤ 1
count_once v n [] h = omega arith
count_once v n (w ∷ vs) h = elim (Bool-cases (w.backend_index == v)) [
  | inl here ↦
      let less : v < suc n = ground (arith, h.0) in
      rw here (omega (arith, count_below v (suc n) vs h.1 less))
  | inr other ↦ rw other (omega (arith, count_once v (suc n) vs h.1))
]

-- No two shards of an object are on the same disk when the planner is given the disks of a topology.
pub plan-placement_volumes :
    (sha256_hex : Bytes → Bytes) (decimal : ℕ → Bytes) (t : StaticTopology) (bucket key : Bytes)
    (data_n parity_n : ℕ) (r : PlacementRecord)
    → plan sha256_hex decimal (planner_of t) bucket key data_n parity_n ≡ ok r
    → (v : ℕ) → count (λ (s : PlacementShard). s.backend_index == v) r.shards ≤ 1
unfolding placement_volumes
plan-placement_volumes sha256_hex decimal t bucket key data_n parity_n r planned v = omega (
  arith,
  plan-IsSpread sha256_hex decimal (planner_of t) bucket key data_n parity_n r planned v,
  count_once v 0 (place_nodes 0 t.nodes) (place_nodes-AreNumbered 0 t.nodes),
)
