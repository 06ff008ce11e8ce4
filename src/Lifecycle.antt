-- ===== src/Lifecycle.antt =====
-- src/lifecycle/types.rs, filter.rs and evaluator.rs: which action is due for one object version. Of
-- the rules of `s3s::dto` the records hold what the code reads. `enabled` stands for
-- `ExpirationStatus::ENABLED`. A u64 that saturates is written out; an i32 is an integer.
pub mod Due
mod Tests
use abixio.Base.{
  ℕ, ◌+◌, ◌*◌, Bool, true, false, not, ◌&&◌, ◌||◌, Option, none, some, List, [], ◌∷◌, Bytes, ◌==◌,
  if◌then◌else◌, ltb, leb, min, is_empty, str_eq,
}
use abixio.Base.Words.{u64_max}
use abixio.Storage.Wal.{starts_with}

pub data ℤ : Type 0 where
  pos : ℕ → ℤ
  negsuc : ℕ → ℤ

pub data Action : Type 0 where
  nothing : Action
  delete : Action
  delete_version : Action
  delete_all_versions : Action
  delete_expired_marker : Action

pub record Event : Type 0 where
  pub action : Action
  pub rule_id : Bytes
  pub due_unix_secs : ℕ

-- `Event::default()`
abbrev pub no_event : Event
no_event = record { action = Action.nothing; rule_id = []; due_unix_secs = 0 }

pub record ObjectOpts : Type 0 where
  pub name : Bytes
  pub mod_time_unix_secs : ℕ
  pub version_id : Bytes
  pub is_latest : Bool
  pub is_delete_marker : Bool
  pub num_versions : ℕ
  pub successor_mod_time_unix_secs : ℕ
  pub size : ℕ

pub record LifecycleRuleFilter : Type 0 where
  pub has_and : Bool
  pub has_tag : Bool
  pub has_object_size_greater_than : Bool
  pub has_object_size_less_than : Bool
  pub prefix : Option Bytes

pub record LifecycleExpiration : Type 0 where
  pub days : Option ℤ
  pub expired_object_delete_marker : Option Bool

pub record NoncurrentVersionExpiration : Type 0 where
  pub newer_noncurrent_versions : Option ℤ
  pub noncurrent_days : Option ℤ

pub record LifecycleRule : Type 0 where
  pub id : Option Bytes
  pub status : Bytes
  pub filter : Option LifecycleRuleFilter
  pub prefix : Option Bytes
  pub expiration : Option LifecycleExpiration
  pub noncurrent_version_expiration : Option NoncurrentVersionExpiration

-- `ObjectOpts::expired_object_delete_marker`
unfoldable pub is_orphan_marker : ObjectOpts → Bool
is_orphan_marker obj = obj.is_delete_marker && obj.num_versions == 1

unfoldable pub expected_expiry : ℕ → ℤ → ℕ
expected_expiry mod_time (ℤ.negsuc n) = mod_time
expected_expiry mod_time (ℤ.pos days) =
    if days == 0 then mod_time else min (mod_time + min (days * 86400) u64_max) u64_max

-- A prefix that is missing or empty accepts every name.
unfoldable pub prefix_matches : Option Bytes → Bytes → Bool
prefix_matches none name = true
prefix_matches (some p) name = if not (is_empty p) then starts_with name p else true

unfoldable pub filter_matches : LifecycleRuleFilter → ObjectOpts → Bool
unfolding prefix_matches
filter_matches filter obj =
    if filter.has_and || filter.has_tag || filter.has_object_size_greater_than
      || filter.has_object_size_less_than
    then false
    else prefix_matches filter.prefix obj.name

unfoldable pub rule_matches : LifecycleRule → ObjectOpts → Bool
unfolding filter_matches
rule_matches rule obj = elim rule.filter [
  | some filter ↦ filter_matches filter obj
  | none ↦ prefix_matches rule.prefix obj.name
]

abbrev pub rule_id : LifecycleRule → Bytes
rule_id rule = elim rule.id [ none ↦ [] | some id ↦ id ]

abbrev pub or_else {ℓ} : {A : Type ℓ} → Option A → Option A → Option A
or_else none next = next
or_else (some a) next = some a

-- An event that is due at `due`, where that is past.
abbrev pub if_due : Action → LifecycleRule → ℕ → ℕ → Option Event
if_due action rule now due =
    if leb due now
    then some (record { action = action; rule_id = rule_id rule; due_unix_secs = due })
    else none

-- The step of `eval` for an orphan delete marker.
unfoldable pub marker_event : LifecycleRule → ObjectOpts → ℕ → Option Event
unfolding is_orphan_marker expected_expiry
marker_event rule obj now = if not (is_orphan_marker obj) then none else elim rule.expiration [
  | none ↦ none
  | some exp ↦ elim exp.expired_object_delete_marker [
    | some true ↦ some (record {
      action = Action.delete_expired_marker;
      rule_id = rule_id rule;
      due_unix_secs = now;
    })
    | _ ↦ elim exp.days [
      | none ↦ none
      | some days ↦
          if_due Action.delete_expired_marker rule now (expected_expiry obj.mod_time_unix_secs days)
    ]
  ]
]

-- `newer_noncurrent_versions >= n as usize` for a positive n, and true otherwise.
unfoldable pub retained_enough : Option ℤ → ℕ → Bool
retained_enough none newer = true
retained_enough (some (ℤ.negsuc n)) newer = true
retained_enough (some (ℤ.pos n)) newer = if ltb 0 n then leb n newer else true

abbrev pub days_or_zero : Option ℤ → ℤ
days_or_zero none = ℤ.pos 0
days_or_zero (some days) = days

-- The step for a version that is not the latest.
unfoldable pub noncurrent_event : LifecycleRule → ObjectOpts → ℕ → ℕ → Option Event
unfolding retained_enough expected_expiry
noncurrent_event rule obj now newer =
    if obj.is_latest then none else elim rule.noncurrent_version_expiration [
      | none ↦ none
      | some ncve ↦
          let base =
            if ltb 0 obj.successor_mod_time_unix_secs
            then obj.successor_mod_time_unix_secs
            else obj.mod_time_unix_secs in
          if retained_enough ncve.newer_noncurrent_versions newer
          then if_due Action.delete_version rule now
              (expected_expiry base (days_or_zero ncve.noncurrent_days))
          else none
    ]

-- The step for the latest version.
unfoldable pub current_event : LifecycleRule → ObjectOpts → ℕ → Option Event
unfolding expected_expiry
current_event rule obj now =
    if obj.is_latest && not obj.is_delete_marker
    then elim rule.expiration [
      | none ↦ none
      | some exp ↦ elim exp.days [
        | none ↦ none
        | some days ↦ if_due Action.delete rule now (expected_expiry obj.mod_time_unix_secs days)
      ]
    ]
    else none

unfoldable pub earlier : Option Event → Event → Option Event
earlier none b = some b
earlier (some existing) b =
    if leb existing.due_unix_secs b.due_unix_secs then some existing else some b

module _ (enabled : Bytes) where
  -- What one rule asks for: its steps in order, the first event ending the rule.
  unfoldable pub rule_event : LifecycleRule → ObjectOpts → ℕ → ℕ → Option Event
  unfolding rule_matches marker_event noncurrent_event current_event
  rule_event rule obj now newer =
      if not (str_eq rule.status enabled)
      then none
      else if not (rule_matches rule obj)
      then none
      else or_else (marker_event rule obj now)
          (or_else (noncurrent_event rule obj now newer) (current_event rule obj now))

  -- The loop over the rules.
  unfoldable pub choose : List LifecycleRule → ObjectOpts → ℕ → ℕ → Option Event → Option Event
  unfolding rule_event earlier
  choose [] obj now newer chosen = chosen
  choose (rule ∷ rules) obj now newer chosen = elim (rule_event rule obj now newer) [
    | none ↦ choose rules obj now newer chosen
    | some event ↦ choose rules obj now newer (earlier chosen event)
  ]

  -- `Evaluator::eval`
  unfoldable pub eval : List LifecycleRule → ObjectOpts → ℕ → ℕ → Event
  unfolding choose
  eval rules obj now newer =
      if obj.mod_time_unix_secs == 0
      then no_event
      else elim (choose rules obj now newer none) [ none ↦ no_event | some event ↦ event ]
