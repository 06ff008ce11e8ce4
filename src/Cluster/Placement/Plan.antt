-- ===== src/Cluster/Placement/Plan.antt =====
-- src/cluster/placement.rs: what `plan` gives, and when it fails.
use abixio.Base.{
  ℕ, zero, suc, ◌+◌, ◌≤◌, ◌<◌, ◌≡◌, ◌⊎◌, refl, sym, ap, ◌∙◌, arith, true, not, some, List, [], ◌∷◌,
  Bytes, ◌==◌, if◌then◌else◌, ltb, Bool-cases, inl, inr, length, get_elem?, Result, ok, err, ◌>>◌,
  refuse_if, >>-eq_ok,
}
use abixio.Cluster.Placement.{
  PlacementVolume, PlacementShard, PlacementRecord, PlacementPlanner, PlanError, no_data,
  need_disks, unable_to_place, place_rounds, shards_from, ordered_disks, plan,
}
use abixio.Cluster.Placement.Counts.{count, count_nodes, count_nodes-ordered_disks}
use abixio.Cluster.Placement.Rounds.{size, count-place_rounds, length-place_rounds}

length-shards_from :
    (i : ℕ) (disks : List PlacementVolume) → length (shards_from i disks) ≡ length disks
length-shards_from i [] = refl
length-shards_from i (disk ∷ disks) = ap suc (length-shards_from (suc i) disks)

count-shards_from :
    (v i : ℕ) (disks : List PlacementVolume)
    → count (λ (s : PlacementShard). s.backend_index == v) (shards_from i disks)
      ≡ count (λ (d : PlacementVolume). d.backend_index == v) disks
count-shards_from v i [] = refl
count-shards_from v i (disk ∷ disks) =
    ap (λ n. (if disk.backend_index == v then 1 else 0) + n) (count-shards_from v (suc i) disks)

index-shards_from :
    (i k : ℕ) (disks : List PlacementVolume) (s : PlacementShard)
    → get_elem? (shards_from k disks) i ≡ some s
    → s.index ≡ k + i
index-shards_from i k [] s h = cc
index-shards_from zero k (disk ∷ disks) s h = ground arith
index-shards_from (suc i) k (disk ∷ disks) s h =
    omega (arith, index-shards_from i (suc k) disks s h)

count_all : (disks : List PlacementVolume) → count (λ _. true) disks ≡ length disks
count_all [] = refl
count_all (disk ∷ disks) = omega (arith, count_all disks)

count_nodes_all : (nodes : List (List PlacementVolume)) → count_nodes (λ _. true) nodes ≡ size nodes
count_nodes_all [] = refl
count_nodes_all (disks ∷ nodes) = omega (arith, count_all disks, count_nodes_all nodes)

module _ (sha256_hex : Bytes → Bytes) (decimal : ℕ → Bytes) (p : PlacementPlanner)
    (bucket key : Bytes) (data_n parity_n : ℕ) where
  all_placed :
      data_n + parity_n ≤ length p.disks
      → length (
          place_rounds
            (data_n + parity_n)
            (data_n + parity_n)
            (ordered_disks sha256_hex decimal p bucket key)
            [])
        ≡ data_n + parity_n
  all_placed h =
      let nodes : List (List PlacementVolume) = ordered_disks sha256_hex decimal p bucket key in
      length-place_rounds (data_n + parity_n) (data_n + parity_n) nodes [] (omega arith)
        (omega arith)
        (omega (
          arith,
          count_all p.disks,
          count_nodes_all nodes,
          count_nodes-ordered_disks (λ _. true) sha256_hex decimal p bucket key,
        ))

  -- `plan` succeeds when at least one data shard is asked for and there are as many disks as shards; the
  -- record then has one shard for each, numbered from 0, with the epoch of the planner. Otherwise it fails,
  -- with `no_data` without data shards and else with `need_disks`, and never for want of a place.
  pub plan_lem :
      ((0 < data_n)
        × (data_n + parity_n ≤ length p.disks)
        × (r : PlacementRecord) × (plan sha256_hex decimal p bucket key data_n parity_n ≡ ok r)
        × (length r.shards ≡ data_n + parity_n)
        × (r.epoch_id ≡ p.epoch_id)
        × ((i : ℕ) (s : PlacementShard) → get_elem? r.shards i ≡ some s → s.index ≡ i))
      ⊎ (((data_n ≡ 0) × (plan sha256_hex decimal p bucket key data_n parity_n ≡ err no_data))
          ⊎ ((0 < data_n)
              × (length p.disks < data_n + parity_n)
              × (plan sha256_hex decimal p bucket key data_n parity_n
                  ≡ err (need_disks (data_n + parity_n) (length p.disks)))))
  unfolding plan
  plan_lem = elim (Bool-cases (data_n == 0)) [
    | inl e ↦ inr (inl (ground arith, rw e refl))
    | inr e ↦ elim (Bool-cases (ltb (length p.disks) (data_n + parity_n))) [
      | inl few ↦ inr (inr (ground arith, ground arith, rw (e, few) refl))
      | inr many ↦
          let chosen : List PlacementVolume =
            place_rounds (data_n + parity_n) (data_n + parity_n)
              (ordered_disks sha256_hex decimal p bucket key) [] in
          let placed : length chosen ≡ data_n + parity_n = all_placed (ground arith) in
          let same : (length chosen == data_n + parity_n) ≡ true = ground arith in
          inl (
            ground arith,
            ground arith,
            record {
              epoch_id = p.epoch_id;
              cluster_id = p.cluster_id;
              data_n = data_n;
              parity_n = parity_n;
              shards = shards_from 0 chosen;
            },
            rw (e, many, same) refl,
            length-shards_from 0 chosen ∙ placed,
            refl,
            λ i s h. index-shards_from i 0 chosen s h ∙ omega arith,
          )
    ]
  ]

  -- No disk is given more shards of an object than it has entries among the planner's disks: with disks
  -- whose indices differ, no two shards of an object are on the same one.
  pub plan-IsSpread :
      (r : PlacementRecord)
      → plan sha256_hex decimal p bucket key data_n parity_n ≡ ok r
      → (v : ℕ)
      → count (λ (s : PlacementShard). s.backend_index == v) r.shards
        ≤ count (λ (d : PlacementVolume). d.backend_index == v) p.disks
  unfolding plan
  plan-IsSpread r h v =
      let nodes : List (List PlacementVolume) = ordered_disks sha256_hex decimal p bucket key in
      let chosen : List PlacementVolume =
        place_rounds (data_n + parity_n) (data_n + parity_n) nodes [] in
      let built : PlacementRecord = record {
        epoch_id = p.epoch_id;
        cluster_id = p.cluster_id;
        data_n = data_n;
        parity_n = parity_n;
        shards = shards_from 0 chosen;
      } in
      let total : ℕ = data_n + parity_n in
      let last : ◌≡◌ {A = Result PlanError PlacementRecord} (ok built) (ok r) =
        >>-eq_ok
          (refuse_if (data_n == 0) no_data
            >> refuse_if (ltb (length p.disks) total) (need_disks total (length p.disks))
            >> refuse_if (not (length chosen == total)) (unable_to_place total (length p.disks)))
          (ok built) h in
      let shards : r.shards ≡ shards_from 0 chosen =
        ap (λ (r : PlacementRecord). r.shards) (sym (ok_of last)) in
      rw shards (
        omega (
          arith,
          count-shards_from v 0 chosen,
          count-place_rounds (λ (d : PlacementVolume). d.backend_index == v) (data_n + parity_n)
              (data_n + parity_n) nodes [],
          count_nodes-ordered_disks (λ (d : PlacementVolume). d.backend_index == v) sha256_hex
              decimal p bucket key,
        ))
    where
      ok_of :
          {x y : PlacementRecord} → ◌≡◌ {A = Result PlanError PlacementRecord} (ok x) (ok y) → x ≡ y
      ok_of h = cc
