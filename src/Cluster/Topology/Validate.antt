-- ===== src/Cluster/Topology/Validate.antt =====
-- src/cluster/topology.rs: which topologies are accepted.
use abixio.Base.{
  ◌≡◌, ◌≢◌, ◌↔◌, refl, arith, Bool, true, false, List, [], ◌∷◌, ◌++◌, Bytes, ◌==◌, is_empty, All,
  All-append, Result, ok, ◌>>=◌, ◌>>◌, refuse_if,
}
use abixio.Cluster.Manager.Names.{trim, contains_str}
use abixio.Cluster.Topology.Distinct.{AreDistinct, Fresh, add_all, Fresh-append, Fresh-iff}
use abixio.Cluster.Topology.{
  TopologyVolume, TopologyNode, StaticTopology, TopologyError, cluster_id_empty, epoch_id_zero,
  no_nodes, node_id_empty, volume_id_empty, duplicate_node, no_disk, duplicate_volume,
  duplicate_path, validate, validate_disks, validate_nodes, normalize_path,
}

-- The disks of all nodes.
abbrev pub all_disks : List TopologyNode → List TopologyVolume
all_disks [] = []
all_disks (node ∷ nodes) = node.volumes ++ all_disks nodes

-- Three checks and what follows them end well when none of the checks refuses.
checked :
    {E : Type 0} (a b c : Bool) (e f g : E) (r : Result E Unit)
    → ((refuse_if a e >> refuse_if b f >> refuse_if c g >> r) ≡ ok tt)
      ↔ ((a ≡ false) × (b ≡ false) × (c ≡ false) × (r ≡ ok tt))
checked true b c e f g r = ((λ h. cc), (λ h. cc))
checked false true c e f g r = ((λ h. cc), (λ h. cc))
checked false false true e f g r = ((λ h. cc), (λ h. cc))
checked false false false e f g r = ((λ h. (refl, refl, refl, h)), (λ h. h.3))

checked_then :
    {E A : Type 0} (a b c : Bool) (e f g : E) (r : Result E A) (k : A → Result E Unit)
    → (((refuse_if a e >> refuse_if b f >> refuse_if c g >> r) >>= k) ≡ ok tt)
      ↔ ((a ≡ false) × (b ≡ false) × (c ≡ false) × ((r >>= k) ≡ ok tt))
checked_then true b c e f g r k = ((λ h. cc), (λ h. cc))
checked_then false true c e f g r k = ((λ h. cc), (λ h. cc))
checked_then false false true e f g r k = ((λ h. cc), (λ h. cc))
checked_then false false false e f g r k = ((λ h. (refl, refl, refl, h)), (λ h. h.3))

abbrev pub disk_id : TopologyVolume → Bytes
disk_id disk = disk.volume_id

abbrev disk_path : TopologyVolume → Bytes
disk_path disk = normalize_path disk.path

abbrev node_name : TopologyNode → Bytes
node_name node = node.node_id

abbrev IsNamedDisk : TopologyVolume → Type 0
IsNamedDisk disk = is_empty (trim disk.volume_id) ≡ false

abbrev IsNamedNode : TopologyNode → Type 0
IsNamedNode node = (is_empty (trim node.node_id) ≡ false) × (is_empty node.volumes ≡ false)

abbrev DisksFit : List Bytes → List Bytes → List TopologyVolume → Type 0
DisksFit ids paths disks =
    All IsNamedDisk disks × Fresh disk_id ids disks × Fresh disk_path paths disks

validate_disks_lem :
    (ids paths : List Bytes) (disks : List TopologyVolume)
    (k : List Bytes × List Bytes → Result TopologyError Unit)
    → ((validate_disks ids paths disks >>= k) ≡ ok tt) ↔ (
        DisksFit ids paths disks
        × (k (add_all disk_id ids disks, add_all disk_path paths disks) ≡ ok tt))
unfolding validate_disks
validate_disks_lem ids paths [] k = ((λ h. ((tt, tt, tt), h)), (λ h. h.1))
validate_disks_lem ids paths (disk ∷ disks) k =
    let later = validate_disks_lem (disk_id disk ∷ ids) (disk_path disk ∷ paths) disks k in
    let tests =
      checked_then (is_empty (trim disk.volume_id)) (contains_str disk.volume_id ids)
        (contains_str (disk_path disk) paths) volume_id_empty (duplicate_volume disk.volume_id)
        (duplicate_path (disk_path disk))
        (validate_disks (disk_id disk ∷ ids) (disk_path disk ∷ paths) disks) k in
    (
      (λ h.
          let (named, id, path, rest) = tests.0 h in
          let ((all, ids_ok, paths_ok), end) = later.0 rest in
          (((named, all), (id, ids_ok), (path, paths_ok)), end)),
      (λ h.
          let (((named, all), (id, ids_ok), (path, paths_ok)), end) = h in
          tests.1 (named, id, path, later.1 ((all, ids_ok, paths_ok), end))),
    )

abbrev NodesFit : List Bytes → List Bytes → List Bytes → List TopologyNode → Type 0
NodesFit names ids paths nodes =
    All IsNamedNode nodes × Fresh node_name names nodes × DisksFit ids paths (all_disks nodes)

All-append_both :
    {A : Type 0} (P : A → Type 0) (xs ys : List A) → All P (xs ++ ys) → All P xs × All P ys
All-append_both P [] ys h = (tt, h)
All-append_both P (x ∷ xs) ys h = let (l, r) = All-append_both P xs ys h.1 in ((h.0, l), r)

DisksFit-append :
    (ids paths : List Bytes) (xs ys : List TopologyVolume)
    → DisksFit ids paths (xs ++ ys)
      ↔ (DisksFit ids paths xs × DisksFit (add_all disk_id ids xs) (add_all disk_path paths xs) ys)
DisksFit-append ids paths xs ys =
    let by_id = Fresh-append disk_id ids xs ys in
    let by_path = Fresh-append disk_path paths xs ys in
    (
      (λ h.
          let (named, i, p) = h in
          let (named_l, named_r) = All-append_both IsNamedDisk xs ys named in
          let (i_l, i_r) = by_id.0 i in
          let (p_l, p_r) = by_path.0 p in ((named_l, i_l, p_l), (named_r, i_r, p_r))),
      (λ h.
          let ((named_l, i_l, p_l), (named_r, i_r, p_r)) = h in
          (All-append IsNamedDisk xs ys named_l named_r, by_id.1 (i_l, i_r), by_path.1 (p_l, p_r))),
    )

validate_nodes_lem :
    (names ids paths : List Bytes) (nodes : List TopologyNode)
    → (validate_nodes names ids paths nodes ≡ ok tt) ↔ NodesFit names ids paths nodes
unfolding validate_nodes
validate_nodes_lem names ids paths [] = ((λ h. (tt, tt, (tt, tt, tt))), (λ h. refl))
validate_nodes_lem names ids paths (node ∷ nodes) =
    let next : List Bytes × List Bytes → Result TopologyError Unit =
      λ sets. validate_nodes (node.node_id ∷ names) sets.0 sets.1 nodes in
    let tests =
      checked (is_empty (trim node.node_id)) (contains_str node.node_id names)
        (is_empty node.volumes) node_id_empty (duplicate_node node.node_id) (no_disk node.node_id)
        (validate_disks ids paths node.volumes >>= next) in
    let disks = validate_disks_lem ids paths node.volumes next in
    let later =
      validate_nodes_lem (node.node_id ∷ names) (add_all disk_id ids node.volumes)
        (add_all disk_path paths node.volumes) nodes in
    let joined = DisksFit-append ids paths node.volumes (all_disks nodes) in
    (
      (λ h.
          let (named, new, some_disk, rest) = tests.0 h in
          let (own, end) = disks.0 rest in
          let (all, names_ok, others) = later.0 end in
          (((named, some_disk), all), (new, names_ok), joined.1 (own, others))),
      (λ h.
          let (((named, some_disk), all), (new, names_ok), fit) = h in
          let (own, others) = joined.0 fit in
          tests.1 (named, new, some_disk, disks.1 (own, later.1 (all, names_ok, others)))),
    )

-- A cluster that has a name, an epoch and a node; whose nodes and disks have names, and whose nodes have disks;
-- and in which no two nodes have one name and no two disks one name or one path.
abbrev pub IsValid : StaticTopology → Type 0
IsValid t =
    ((is_empty (trim t.cluster_id) ≡ false) × (t.epoch_id ≢ 0) × (is_empty t.nodes ≡ false))
    × (All IsNamedNode t.nodes × All IsNamedDisk (all_disks t.nodes))
    × (AreDistinct node_name t.nodes
        × AreDistinct disk_id (all_disks t.nodes)
        × AreDistinct disk_path (all_disks t.nodes))

-- `validate` accepts a topology exactly when the cluster's name is not blank, its epoch is not zero and it has a
-- node; no node's or disk's name is blank and every node has a disk; and in the whole cluster no two nodes have
-- one name, no two disks one name, and no two disks one normalized path.
pub validate_iff : (t : StaticTopology) → (validate t ≡ ok tt) ↔ IsValid t
unfolding validate
validate_iff t =
    let tests =
      checked (is_empty (trim t.cluster_id)) (t.epoch_id == 0) (is_empty t.nodes) cluster_id_empty
        epoch_id_zero no_nodes (validate_nodes [] [] [] t.nodes) in
    let nodes = validate_nodes_lem [] [] [] t.nodes in
    let by_name = Fresh-iff node_name t.nodes in
    let by_id = Fresh-iff disk_id (all_disks t.nodes) in
    let by_path = Fresh-iff disk_path (all_disks t.nodes) in
    (
      (λ h.
          let (named, epoch, some_node, rest) = tests.0 h in
          let (all, n, (disks, i, p)) = nodes.0 rest in
          (
            (named, (λ z. ground arith), some_node),
            (all, disks),
            (by_name.0 n, by_id.0 i, by_path.0 p),
          )),
      (λ h.
          let ((named, epoch, some_node), (all, disks), (n, i, p)) = h in
          tests.1 (
            named,
            ground arith,
            some_node,
            nodes.1 (all, by_name.1 n, (disks, by_id.1 i, by_path.1 p)),
          )),
    )
