-- ===== src/Raft/Fsm/Log.antt =====
-- A replica that applies a log of operations.
use abixio.Base.{
  ℕ, ◌≤◌, ◌<◌, ◌≡◌, ◌≢◌, ◌⊎◌, inl, inr, refl, ap, sym, arith, List, [], ◌∷◌, ◌++◌, Result, ok, err,
  Result-cases,
}
use abixio.Raft.Fsm.{
  Op, ApplyError, AbixioStateMachine, apply_op, apply, snapshot, install_snapshot,
}
use abixio.Raft.Fsm.Step.{IsValid, apply_op-IsValid, apply_op-epoch, apply_op_failed}

module _ {Value : Type 0} where
  -- The entries of a log in order, each applied whether or not those before it failed.
  abbrev pub replay : List (ℕ × Op Value) → AbixioStateMachine Value → AbixioStateMachine Value
  replay [] f = f
  replay ((index, op) ∷ entries) f = replay entries (apply index op f).1

  replay-append :
      (es later : List (ℕ × Op Value)) (f : AbixioStateMachine Value)
      → replay (es ++ later) f ≡ replay later (replay es f)
  replay-append [] later f = refl
  replay-append ((index, op) ∷ es) later f = replay-append es later (apply index op f).1

  -- A secondary that installs a snapshot of the primary and then applies the later entries is where
  -- the primary is, whatever the secondary held before.
  pub replay-install_snapshot :
      (es later : List (ℕ × Op Value)) (primary secondary : AbixioStateMachine Value)
      → replay later (
          install_snapshot
            (snapshot (replay es primary)).0
            (snapshot (replay es primary)).1
            secondary)
        ≡ replay (es ++ later) primary
  unfolding snapshot install_snapshot
  replay-install_snapshot es later primary secondary = sym (replay-append es later primary)

  state-apply :
      (index : ℕ) (op : Op Value) (f : AbixioStateMachine Value)
      → (apply index op f).1.state ≡ (apply_op op f.state).1
  unfolding apply
  state-apply index op f = elim (Result-cases (apply_op op f.state).0) [
    | inl (t, e) ↦ rw (e, apply) refl
    | inr (x, e) ↦ rw (e, apply) refl
  ]

  -- An entry that succeeds moves the cursor to its index or leaves it where it is ahead already; one
  -- that fails changes nothing at all, the cursor included. The answer is the cursor or the error.
  pub apply_lem :
      (index : ℕ) (op : Op Value) (f : AbixioStateMachine Value)
      → ((e : ApplyError) × (apply index op f ≡ (err e, f)))
        ⊎ (((apply index op f).0 ≡ ok (apply index op f).1.applied_index)
            × (index ≤ (apply index op f).1.applied_index)
            × (f.applied_index ≤ (apply index op f).1.applied_index)
            × ((apply index op f).1.state ≡ (apply_op op f.state).1))
  unfolding apply
  apply_lem index op f = elim (Result-cases (apply_op op f.state).0) [
    | inl (t, e) ↦ inr (rw (e, apply) (ground arith))
    | inr (x, e) ↦
        let same : (apply_op op f.state).1 ≡ f.state =
          apply_op_failed op f.state _ x (ap (λ r. (r, (apply_op op f.state).1)) e) in
        inl (
          x,
          rw (e, apply)
              (ap {B = Result ApplyError ℕ × AbixioStateMachine Value}
                (λ s. (err x, record f { state = s })) same),
        )
  ]

  -- Every log, whatever its entries are, keeps the invariant: each key stands once in its table, and each
  -- member under its own node id.
  pub replay-IsValid :
      (es : List (ℕ × Op Value)) (f : AbixioStateMachine Value)
      → IsValid f.state
      → IsValid (replay es f).state
  replay-IsValid [] f v = v
  replay-IsValid ((index, op) ∷ es) f v =
      replay-IsValid es (apply index op f).1
        (rw (state-apply index op f) (apply_op-IsValid op f.state v))

  -- Once the epoch is not 0, a log leaves the placement as it is or raises its epoch, and the cursor does
  -- not fall.
  pub replay-epoch :
      (es : List (ℕ × Op Value)) (f : AbixioStateMachine Value)
      → f.state.placement.epoch_id ≢ 0
      → (((replay es f).state.placement ≡ f.state.placement)
          ⊎ (f.state.placement.epoch_id < (replay es f).state.placement.epoch_id))
        × (f.applied_index ≤ (replay es f).applied_index)
  replay-epoch [] f set = (inl refl, omega arith)
  replay-epoch ((index, op) ∷ es) f set =
      let f' = (apply index op f).1 in
      let step : (f'.state.placement ≡ f.state.placement)
          ⊎ (f.state.placement.epoch_id < f'.state.placement.epoch_id) =
        rw (state-apply index op f) (apply_op-epoch op f.state set) in
      let cursor : f.applied_index ≤ f'.applied_index = ground (arith, apply_lem index op f) in
      let set' : f'.state.placement.epoch_id ≢ 0 = ground (arith, step) in
      let rest = replay-epoch es f' set' in
      (ground (arith, step, rest.0), omega (arith, cursor, rest.1))
