-- ===== src/Raft/Fsm.antt =====
-- src/raft/fsm/ops.rs and mod.rs: the replicated state machine. `Value` stands for `serde_json::Value`,
-- which the state machine only stores. The locks are taken one call at a time, so that a call is a
-- function on the state.
pub mod Step
pub mod Log
mod Tests
use abixio.Base.{
  ℕ, Bool, true, false, Option, none, some, List, [], ◌∷◌, Bytes, Result, ok, err, if◌then◌else◌,
  leb, ◌==◌, not, ◌&&◌, ltb, str_has_eq, map,
}
use abixio.Base.Keyed

pub data VoterKind : Type 0 where
  voter : VoterKind
  observer : VoterKind

pub record PlacementVolume : Type 0 where
  pub backend_index : ℕ
  pub node_id : Bytes
  pub volume_id : Bytes

pub record Member : Type 0 where
  pub node_id : Bytes
  pub advertise_s3 : Bytes
  pub advertise_cluster : Bytes
  pub voter_kind : VoterKind
  pub added_at_unix_secs : ℕ

pub record Placement : Type 0 where
  pub epoch_id : ℕ
  pub cluster_id : Bytes
  pub volumes : List PlacementVolume

pub record BucketSettings (Value : Type 0) : Type 0 where
  pub versioning : Option Bytes
  pub ftt : Option ℕ
  pub tags : Option (List (Bytes × Bytes))
  pub policy : Option Value
  pub lifecycle : Option Bytes

pub data Op (Value : Type 0) : Type 0 where
  add_node : Bytes → Bytes → Bytes → VoterKind → ℕ → Op Value
  remove_node : Bytes → Op Value
  set_placement_epoch : ℕ → Bytes → List PlacementVolume → Op Value
  set_bucket_settings : Bytes → BucketSettings Value → Op Value
  delete_bucket_settings : Bytes → Op Value

pub record State (Value : Type 0) : Type 0 where
  pub members : List (Bytes × Member)
  pub placement : Placement
  pub buckets : List (Bytes × BucketSettings Value)

pub data ApplyError : Type 0 where
  epoch_regression : ℕ → ℕ → ApplyError
  unknown_node : Bytes → ApplyError
  unknown_bucket : Bytes → ApplyError

pub record AbixioStateMachine (Value : Type 0) : Type 0 where
  pub state : State Value
  pub applied_index : ℕ

module _ {Value : Type 0} where
  -- `State::default()`
  abbrev pub empty_state : State Value
  empty_state = record {
    members = [];
    placement = record { epoch_id = 0; cluster_id = []; volumes = [] };
    buckets = [];
  }

  -- `Op::apply`. `HashMap::remove` runs before its result is tested.
  unfoldable pub apply_op : Op Value → State Value → Result ApplyError Unit × State Value
  apply_op (Op.add_node node_id s3 cluster kind added) s = (
    ok tt,
    record s {
      members =
          Keyed.insert node_id
            (record {
              node_id = node_id;
              advertise_s3 = s3;
              advertise_cluster = cluster;
              voter_kind = kind;
              added_at_unix_secs = added;
            })
            s.members;
    },
  )
  apply_op (Op.remove_node node_id) s =
      let s' = record s { members = Keyed.remove node_id s.members } in
      elim (Keyed.get node_id s.members) [
        | none ↦ (err (ApplyError.unknown_node node_id), s')
        | some removed ↦ (ok tt, s')
      ]
  apply_op (Op.set_placement_epoch epoch_id cluster_id volumes) s =
      if leb epoch_id s.placement.epoch_id && not (s.placement.epoch_id == 0)
      then (err (ApplyError.epoch_regression s.placement.epoch_id epoch_id), s)
      else (
        ok tt,
        record s {
          placement = record { epoch_id = epoch_id; cluster_id = cluster_id; volumes = volumes };
        },
      )
  apply_op (Op.set_bucket_settings bucket settings) s =
      (ok tt, record s { buckets = Keyed.insert bucket settings s.buckets })
  apply_op (Op.delete_bucket_settings bucket) s =
      let s' = record s { buckets = Keyed.remove bucket s.buckets } in
      elim (Keyed.get bucket s.buckets) [
        | none ↦ (err (ApplyError.unknown_bucket bucket), s')
        | some removed ↦ (ok tt, s')
      ]

  -- `AbixioStateMachine::new`
  abbrev pub new : AbixioStateMachine Value
  new = record { state = empty_state; applied_index = 0 }

  -- `AbixioStateMachine::apply`. An error returns before the cursor is touched.
  unfoldable pub apply :
      ℕ → Op Value → AbixioStateMachine Value → Result ApplyError ℕ × AbixioStateMachine Value
  unfolding apply_op
  apply index op f =
      let (outcome, s) = apply_op op f.state in
      elim outcome [
        | err e ↦ (err e, record f { state = s })
        | ok _ ↦
            let cursor = if ltb f.applied_index index then index else f.applied_index in
            (ok cursor, record { state = s; applied_index = cursor })
      ]

  unfoldable pub snapshot : AbixioStateMachine Value → ℕ × State Value
  snapshot f = (f.applied_index, f.state)

  unfoldable pub install_snapshot :
      ℕ → State Value → AbixioStateMachine Value → AbixioStateMachine Value
  install_snapshot index s f = record { state = s; applied_index = index }

  unfoldable pub bucket_settings : AbixioStateMachine Value → Bytes → Option (BucketSettings Value)
  bucket_settings f bucket = Keyed.get bucket f.state.buckets

  unfoldable pub member : AbixioStateMachine Value → Bytes → Option Member
  member f node_id = Keyed.get node_id f.state.members

  unfoldable pub placement : AbixioStateMachine Value → Placement
  placement f = f.state.placement

  unfoldable pub members : AbixioStateMachine Value → List Member
  members f = map (λ (p : Bytes × Member). p.1) f.state.members
