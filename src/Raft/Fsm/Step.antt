-- ===== src/Raft/Fsm/Step.antt =====
-- What one operation does to the state machine.
use abixio.Base.{
  ◌<◌, ◌≡◌, ◌≢◌, ◌⊎◌, inl, inr, refl, arith, Option, none, some, Bytes, err, if◌then◌else◌, leb,
  ◌==◌, not, ◌&&◌, str_has_eq, str_eq, str_eq_iff, Option-cases, Bool-cases,
}
use abixio.Base.Keyed
use abixio.Base.Keyed.{
  IsDistinct, get-insert, get-remove, insert-IsDistinct, remove-IsDistinct, remove_absent,
}
use abixio.Raft.Fsm.{Op, State, Member, BucketSettings, ApplyError, apply_op}

module _ {Value : Type 0} where
  -- An operation that fails leaves the state as it was.
  pub apply_op_failed :
      (op : Op Value) (s s' : State Value) (e : ApplyError) → apply_op op s ≡ (err e, s') → s' ≡ s
  unfolding apply_op
  apply_op_failed (Op.add_node i a c k t) s s' e h = cc
  apply_op_failed (Op.remove_node i) s s' e h = ground (arith, remove_absent i s.members)
  apply_op_failed (Op.set_placement_epoch i c v) s s' e h = ground arith
  apply_op_failed (Op.set_bucket_settings b t) s s' e h = cc
  apply_op_failed (Op.delete_bucket_settings b) s s' e h = ground (arith, remove_absent b s.buckets)

  -- Each operation changes one table at most, and that table at one key: every lookup afterwards is
  -- what the operation says for its key and what it was for all others.
  abbrev pub member_spec : Op Value → Bytes → Option Member → Option Member
  member_spec (Op.add_node i a c k t) id old =
      if str_eq i id
      then some (record {
        node_id = i;
        advertise_s3 = a;
        advertise_cluster = c;
        voter_kind = k;
        added_at_unix_secs = t;
      })
      else old
  member_spec (Op.remove_node i) id old = if str_eq i id then none else old
  member_spec (Op.set_placement_epoch i c v) id old = old
  member_spec (Op.set_bucket_settings b t) id old = old
  member_spec (Op.delete_bucket_settings b) id old = old

  abbrev pub settings_spec :
      Op Value → Bytes → Option (BucketSettings Value) → Option (BucketSettings Value)
  settings_spec (Op.add_node i a c k t) bucket old = old
  settings_spec (Op.remove_node i) bucket old = old
  settings_spec (Op.set_placement_epoch i c v) bucket old = old
  settings_spec (Op.set_bucket_settings b t) bucket old = if str_eq b bucket then some t else old
  settings_spec (Op.delete_bucket_settings b) bucket old = if str_eq b bucket then none else old

  -- Whatever the outcome of an operation, the members and the bucket settings, looked up by key, are
  -- those that `member_spec` and `settings_spec` make of the lookups before it.
  pub apply_op_lem :
      (op : Op Value) (s : State Value)
      → ((id : Bytes)
          → Keyed.get id (apply_op op s).1.members ≡ member_spec op id (Keyed.get id s.members))
        × ((bucket : Bytes)
            → Keyed.get bucket (apply_op op s).1.buckets
              ≡ settings_spec op bucket (Keyed.get bucket s.buckets))
  unfolding apply_op
  apply_op_lem (Op.add_node i a c k t) s = (λ id. get-insert i id _ s.members, λ b. refl)
  apply_op_lem (Op.remove_node i) s =
      (λ id. ground (arith, get-remove i id s.members), λ b. ground arith)
  apply_op_lem (Op.set_placement_epoch i c v) s = (λ id. ground arith, λ b. ground arith)
  apply_op_lem (Op.set_bucket_settings b t) s = (λ id. refl, λ j. get-insert b j t s.buckets)
  apply_op_lem (Op.delete_bucket_settings b) s =
      (λ id. ground arith, λ j. ground (arith, get-remove b j s.buckets))

  -- Each key once, and every member under its own node id.
  pub record IsValid (s : State Value) : Type 0 where
    pub members_distinct : IsDistinct s.members
    pub buckets_distinct : IsDistinct s.buckets
    pub own_id : (id : Bytes) (m : Member) → Keyed.get id s.members ≡ some m → m.node_id ≡ id

  -- Every operation keeps the invariant, failing or not.
  pub apply_op-IsValid : (op : Op Value) (s : State Value) → IsValid s → IsValid (apply_op op s).1
  unfolding apply_op
  apply_op-IsValid (Op.add_node i a c k t) s v = record {
    members_distinct = insert-IsDistinct i _ s.members v.members_distinct;
    buckets_distinct = v.buckets_distinct;
    own_id = λ id m found. ground (
      arith,
      v.own_id id m,
      get-insert i id
          (record {
            node_id = i;
            advertise_s3 = a;
            advertise_cluster = c;
            voter_kind = k;
            added_at_unix_secs = t;
          })
          s.members,
      str_eq_iff i id,
    );
  }
  apply_op-IsValid (Op.remove_node i) s v =
      let kept : IsValid (record s { members = Keyed.remove i s.members }) = record {
        members_distinct = remove-IsDistinct i s.members v.members_distinct;
        buckets_distinct = v.buckets_distinct;
        own_id = λ id m found. ground (arith, v.own_id id m, get-remove i id s.members);
      } in
      elim (Option-cases (Keyed.get i s.members)) [
        | inl missing ↦ rw (missing, apply_op) kept
        | inr (m, found) ↦ rw (found, apply_op) kept
      ]
  apply_op-IsValid (Op.set_placement_epoch i c ps) s v =
      elim (Bool-cases (leb i s.placement.epoch_id && not (s.placement.epoch_id == 0))) [
        | inl stale ↦ rw (stale, apply_op) v
        | inr fine ↦
            rw (fine, apply_op)
              (record {
                members_distinct = v.members_distinct;
                buckets_distinct = v.buckets_distinct;
                own_id = v.own_id;
              })
      ]
  apply_op-IsValid (Op.set_bucket_settings b t) s v = record {
    members_distinct = v.members_distinct;
    buckets_distinct = insert-IsDistinct b t s.buckets v.buckets_distinct;
    own_id = v.own_id;
  }
  apply_op-IsValid (Op.delete_bucket_settings b) s v =
      let kept : IsValid (record s { buckets = Keyed.remove b s.buckets }) = record {
        members_distinct = v.members_distinct;
        buckets_distinct = remove-IsDistinct b s.buckets v.buckets_distinct;
        own_id = v.own_id;
      } in
      elim (Option-cases (Keyed.get b s.buckets)) [
        | inl missing ↦ rw (missing, apply_op) kept
        | inr (t, found) ↦ rw (found, apply_op) kept
      ]

  -- Once an epoch is set, an operation leaves the placement or raises the epoch.
  pub apply_op-epoch :
      (op : Op Value) (s : State Value)
      → s.placement.epoch_id ≢ 0
      → ((apply_op op s).1.placement ≡ s.placement)
        ⊎ (s.placement.epoch_id < (apply_op op s).1.placement.epoch_id)
  unfolding apply_op
  apply_op-epoch (Op.add_node i a c k t) s set = inl refl
  apply_op-epoch (Op.remove_node i) s set = inl (ground arith)
  apply_op-epoch (Op.set_placement_epoch i c v) s set =
      elim (Bool-cases (leb i s.placement.epoch_id && not (s.placement.epoch_id == 0))) [
        | inl stale ↦ inl (rw (stale, apply_op) refl)
        | inr fine ↦ inr (rw (fine, apply_op) (ground arith))
      ]
  apply_op-epoch (Op.set_bucket_settings b t) s set = inl refl
  apply_op-epoch (Op.delete_bucket_settings b) s set = inl (ground arith)
