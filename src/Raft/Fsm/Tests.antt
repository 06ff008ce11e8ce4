-- ===== src/Raft/Fsm/Tests.antt =====
-- The theorems on the state machine at concrete inputs.
use abixio.Base.{ℕ, ◌≤◌, ◌<◌, ◌≡◌, ◌⊎◌, refl, arith, [], ◌∷◌, Bytes, ok, err, str_has_eq}
use abixio.Base.Keyed
use abixio.Raft.Fsm.{
  Op, State, AbixioStateMachine, ApplyError, apply_op, apply, snapshot, install_snapshot, new,
}
use abixio.Raft.Fsm.Step.{IsValid, apply_op_failed, apply_op_lem, member_spec, settings_spec}
use abixio.Raft.Fsm.Log.{replay, replay-install_snapshot, apply_lem, replay-IsValid, replay-epoch}

abbrev epoch : ℕ → Op ℕ
epoch n = Op.set_placement_epoch n (b'c' ∷ []) []

abbrev remove_a : Op ℕ
remove_a = Op.remove_node (b'a' ∷ [])

-- The state behind epoch 5.
abbrev at_five : State ℕ
at_five = record {
  members = [];
  placement = record { epoch_id = 5; cluster_id = b'c' ∷ []; volumes = [] };
  buckets = [];
}

abbrev machine : AbixioStateMachine ℕ
machine = record { state = at_five; applied_index = 1 }

at_five-IsValid : IsValid at_five
unfolding Keyed.get
at_five-IsValid = record {
  members_distinct = tt;
  buckets_distinct = tt;
  own_id = λ id m found. ground arith;
}

unknown :
    apply_op remove_a at_five
    ≡ (err (ApplyError.unknown_node (b'a' ∷ [])), (apply_op remove_a at_five).1)
unfolding apply_op Keyed.get
unknown = refl

apply_op_failed_example : (apply_op remove_a at_five).1 ≡ at_five
apply_op_failed_example =
    apply_op_failed remove_a at_five (apply_op remove_a at_five).1
      (ApplyError.unknown_node (b'a' ∷ [])) unknown

apply_op_lem_example :
    ((id : Bytes)
      → Keyed.get id (apply_op remove_a at_five).1.members
        ≡ member_spec remove_a id (Keyed.get id at_five.members))
    × ((bucket : Bytes)
        → Keyed.get bucket (apply_op remove_a at_five).1.buckets
          ≡ settings_spec remove_a bucket (Keyed.get bucket at_five.buckets))
apply_op_lem_example = apply_op_lem remove_a at_five

replay-install_snapshot_example :
    replay ((3, remove_a) ∷ []) (
      install_snapshot
        (snapshot (replay ((2, epoch 7) ∷ []) machine)).0
        (snapshot (replay ((2, epoch 7) ∷ []) machine)).1
        new)
    ≡ replay ((2, epoch 7) ∷ (3, remove_a) ∷ []) machine
replay-install_snapshot_example =
    replay-install_snapshot ((2, epoch 7) ∷ []) ((3, remove_a) ∷ []) machine new

apply_lem_example :
    ((e : ApplyError) × (apply 2 (epoch 7) machine ≡ (err e, machine)))
    ⊎ (((apply 2 (epoch 7) machine).0 ≡ ok (apply 2 (epoch 7) machine).1.applied_index)
        × (2 ≤ (apply 2 (epoch 7) machine).1.applied_index)
        × (1 ≤ (apply 2 (epoch 7) machine).1.applied_index)
        × ((apply 2 (epoch 7) machine).1.state ≡ (apply_op (epoch 7) at_five).1))
apply_lem_example = apply_lem 2 (epoch 7) machine

replay-IsValid_example : IsValid (replay ((2, epoch 7) ∷ (3, remove_a) ∷ []) machine).state
replay-IsValid_example = replay-IsValid ((2, epoch 7) ∷ (3, remove_a) ∷ []) machine at_five-IsValid

replay-epoch_example :
    (((replay ((2, epoch 7) ∷ []) machine).state.placement ≡ at_five.placement)
      ⊎ (5 < (replay ((2, epoch 7) ∷ []) machine).state.placement.epoch_id))
    × (1 ≤ (replay ((2, epoch 7) ∷ []) machine).applied_index)
replay-epoch_example = replay-epoch ((2, epoch 7) ∷ []) machine (λ e. omega arith)
