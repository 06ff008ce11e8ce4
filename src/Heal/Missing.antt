-- ===== src/Heal/Missing.antt =====
-- src/heal/worker.rs: the shards that are missing, and what is written for them.
use abixio.Base.{
  ℕ, zero, suc, ◌+◌, ◌≡◌, refl, ap, ◌∙◌, subst, arith, true, false, ◌&&◌, Option, none, some, List,
  [], ◌∷◌, Bytes, if◌then◌else◌, ltb, leb, length, get_elem?, All, Bool-cases, inl, inr,
}
use abixio.Storage.Metadata.{ObjectMeta, quorum_eq}
use abixio.Storage.Erasure.{Agrees, map_some}
use abixio.Storage.Erasure.Reads.{set_slot-Agrees}
use abixio.Storage.Erasure.Decode.{set_slot, verify_shard_checksum}
use abixio.Heal.Worker.{Repair, classify, repairs_from, target_disk, repair_meta}

length-set_slot :
    (i : ℕ) (shard : Bytes) (slots : List (Option Bytes))
    → length (set_slot i shard slots) ≡ length slots
length-set_slot i shard [] = refl
length-set_slot zero shard (s ∷ slots) = refl
length-set_slot (suc i) shard (s ∷ slots) = ap suc (length-set_slot i shard slots)

module _ (blake3_hex sha256_hex : Bytes → Bytes) (consensus : ObjectMeta) (full : List Bytes) where
  -- A read whose metadata agrees with the consensus and whose checksum holds has the shard of its index.
  abbrev pub IsTrue : Option (Bytes × ObjectMeta) → Type 0
  IsTrue none = Unit
  IsTrue (some (shard, meta)) =
      quorum_eq meta consensus ≡ true
      → verify_shard_checksum blake3_hex sha256_hex shard meta.checksum ≡ true
      → get_elem? full meta.erasure.index ≡ some shard

  pub classify-Agrees :
      (total : ℕ) (reads : List (Option (Bytes × ObjectMeta))) (slots : List (Option Bytes))
      → All IsTrue reads
      → Agrees slots full
      → Agrees (classify blake3_hex sha256_hex consensus total reads slots) full
  unfolding classify
  classify-Agrees total [] slots h agree = agree
  classify-Agrees total (none ∷ reads) slots h agree = classify-Agrees total reads slots h.1 agree
  classify-Agrees total (some (shard, meta) ∷ reads) slots h agree =
      elim (Bool-cases (
        ltb meta.erasure.index total
        && quorum_eq meta consensus
        && verify_shard_checksum blake3_hex sha256_hex shard meta.checksum)) [
          | inl good ↦ rw good (
              classify-Agrees total reads (set_slot meta.erasure.index shard slots) h.1 (
                set_slot-Agrees meta.erasure.index shard slots full agree
                  (h.0 (ground arith) (ground arith))))
          | inr bad ↦ rw bad (classify-Agrees total reads slots h.1 agree)
        ]

  pub length-classify :
      (total : ℕ) (reads : List (Option (Bytes × ObjectMeta))) (slots : List (Option Bytes))
      → length (classify blake3_hex sha256_hex consensus total reads slots) ≡ length slots
  unfolding classify
  length-classify total [] slots = refl
  length-classify total (none ∷ reads) slots = length-classify total reads slots
  length-classify total (some (shard, meta) ∷ reads) slots =
      elim (Bool-cases (
        ltb meta.erasure.index total
        && quorum_eq meta consensus
        && verify_shard_checksum blake3_hex sha256_hex shard meta.checksum)) [
          | inl good ↦ rw good (
              length-classify total reads (set_slot meta.erasure.index shard slots)
              ∙ length-set_slot meta.erasure.index shard slots)
          | inr bad ↦ rw bad (length-classify total reads slots)
        ]

  -- A repair writes a shard that was missing to the disk of that shard, with the metadata of the consensus under
  -- the shard's index and with its checksum.
  abbrev pub IsRight : List Bytes → List (Option Bytes) → Repair → Type 0
  IsRight volumes slots r =
      (get_elem? full r.meta.erasure.index ≡ some r.shard)
      × (get_elem? slots r.meta.erasure.index ≡ some none)
      × (r.disk_idx ≡ target_disk volumes consensus r.meta.erasure.index)
      × (r.meta ≡ repair_meta blake3_hex sha256_hex consensus r.meta.erasure.index r.shard)

  -- The missing shards, from the slot `i` on, whose disk is there.
  abbrev pub lost_from : List Bytes → ℕ → List (Option Bytes) → List ℕ
  lost_from volumes i [] = []
  lost_from volumes i (some s ∷ slots) = lost_from volumes (suc i) slots
  lost_from volumes i (none ∷ slots) =
      let later = lost_from volumes (suc i) slots in
      if ltb (target_disk volumes consensus i) (length volumes) then i ∷ later else later

  abbrev pub indices : List Repair → List ℕ
  indices [] = []
  indices (r ∷ repairs) = r.meta.erasure.index ∷ indices repairs

  -- The same for repairs from the slot `i` on.
  abbrev pub IsRightFrom : List Bytes → ℕ → List (Option Bytes) → List Bytes → Repair → Type 0
  IsRightFrom volumes i slots rest r =
      (k : ℕ) × (r.meta.erasure.index ≡ i + k)
      × (get_elem? rest k ≡ some r.shard)
      × (get_elem? slots k ≡ some none)
      × (r.disk_idx ≡ target_disk volumes consensus r.meta.erasure.index)
      × (r.meta ≡ repair_meta blake3_hex sha256_hex consensus r.meta.erasure.index r.shard)

  later_right :
      (volumes : List Bytes) (i : ℕ) (s : Option Bytes) (slots : List (Option Bytes)) (f : Bytes)
      (rest : List Bytes) (repairs : List Repair)
      → All (IsRightFrom volumes (suc i) slots rest) repairs
      → All (IsRightFrom volumes i (s ∷ slots) (f ∷ rest)) repairs
  later_right volumes i s slots f rest [] h = tt
  later_right volumes i s slots f rest (r ∷ repairs) ((k, at, here, gone, disk, meta), h) =
      ((suc k, omega arith, here, gone, disk, meta), later_right volumes i s slots f rest repairs h)

  -- Every missing shard whose disk is there is written once, in order, and nothing else is.
  pub repairs_from-IsRight :
      (volumes : List Bytes) (i : ℕ) (slots : List (Option Bytes)) (rest : List Bytes)
      → length slots ≡ length rest
      → All
          (IsRightFrom volumes i slots rest)
          (repairs_from blake3_hex sha256_hex volumes consensus i slots (map_some rest))
        × (indices (repairs_from blake3_hex sha256_hex volumes consensus i slots (map_some rest))
            ≡ lost_from volumes i slots)
  unfolding repairs_from
  repairs_from-IsRight volumes i [] rest l = (tt, refl)
  repairs_from-IsRight volumes i (s ∷ slots) [] l = absurd (omega arith)
  repairs_from-IsRight volumes i (some s ∷ slots) (f ∷ rest) l =
      let (right, all) = repairs_from-IsRight volumes (suc i) slots rest (omega arith) in
      (later_right volumes i (some s) slots f rest _ right, all)
  repairs_from-IsRight volumes i (none ∷ slots) (f ∷ rest) l =
      let (right, all) = repairs_from-IsRight volumes (suc i) slots rest (omega arith) in
      let later : All (IsRightFrom volumes i (none ∷ slots) (f ∷ rest))
          (repairs_from blake3_hex sha256_hex volumes consensus (suc i) slots (map_some rest)) =
        later_right volumes i none slots f rest _ right in
      elim (Bool-cases (leb (length volumes) (target_disk volumes consensus i))) [
        | inl out ↦
            let gone : ltb (target_disk volumes consensus i) (length volumes) ≡ false =
              ground arith in
            rw (out, gone) (later, all)
        | inr within ↦
            let there : ltb (target_disk volumes consensus i) (length volumes) ≡ true =
              ground arith in
            rw (within, there)
              (((0, omega arith, refl, refl, refl, refl), later), ap (λ t. i ∷ t) all)
      ]

  pub All-IsRight :
      (volumes : List Bytes) (slots : List (Option Bytes)) (repairs : List Repair)
      → All (IsRightFrom volumes 0 slots full) repairs
      → All (IsRight volumes slots) repairs
  All-IsRight volumes slots [] h = tt
  All-IsRight volumes slots (r ∷ repairs) ((k, at, here, gone, disk, meta), h) =
      let index : k ≡ r.meta.erasure.index = omega arith in
      (
        (
          subst (λ j. get_elem? full j ≡ some r.shard) index here,
          subst (λ j. get_elem? slots j ≡ some none) index gone,
          disk,
          meta,
        ),
        All-IsRight volumes slots repairs h,
      )
