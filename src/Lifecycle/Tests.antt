-- ===== src/Lifecycle/Tests.antt =====
-- The theorems on lifecycle rules at concrete inputs.
use abixio.Base.{◌-◌, ◌/◌, ◌↔◌, ◌≤◌, ◌≡◌, ◌⊎◌, refl, arith, true, false, none, some, [], ◌∷◌, Bytes}
use abixio.Lifecycle.{ℤ, ObjectOpts, LifecycleRule, Action, eval, rule_matches, no_event}
use abixio.Lifecycle.Due.{Suits, Asks, NoneBefore, Silent, eval_lem, eval-Suits, eval-days}

abbrev on : Bytes
on = b'E' ∷ []

-- Objects expire after a day.
abbrev daily : LifecycleRule
daily = record {
  id = some (b'd' ∷ []);
  status = on;
  filter = none;
  prefix = none;
  expiration = some (record { days = some (ℤ.pos 1); expired_object_delete_marker = none });
  noncurrent_version_expiration = none;
}

abbrev photo : ObjectOpts
photo = record {
  name = b'p' ∷ [];
  mod_time_unix_secs = 1000;
  version_id = [];
  is_latest = true;
  is_delete_marker = false;
  num_versions = 1;
  successor_mod_time_unix_secs = 0;
  size = 3;
}

-- One day later, the rule asks to delete the object.
eval_run : (eval on (daily ∷ []) photo 87400 0).due_unix_secs ≡ 87400
unfolding eval
eval_run = refl

eval_lem_example :
    ((eval on (daily ∷ []) photo 87400 0 ≡ no_event) × Silent on photo 87400 0 (daily ∷ []))
    ⊎ (Asks on photo 87400 0 (eval on (daily ∷ []) photo 87400 0) (daily ∷ [])
        × NoneBefore on photo 87400 0
            (eval on (daily ∷ []) photo 87400 0).due_unix_secs
            (daily ∷ []))
eval_lem_example = eval_lem on photo 87400 0 (daily ∷ []) (λ e. omega arith)

eval-Suits_example :
    ((eval on (daily ∷ []) photo 87400 0).due_unix_secs ≤ 87400)
    × Suits photo (eval on (daily ∷ []) photo 87400 0).action
eval-Suits_example = eval-Suits on photo 87400 0 (daily ∷ [])

-- A second before the day is over.
eval-days_example :
    ((eval on (daily ∷ []) photo 87399 0).action ≡ Action.delete) ↔ (1 ≤ (87399 - 1000) / 86400)
unfolding rule_matches
eval-days_example =
    eval-days on daily (record { days = some (ℤ.pos 1); expired_object_delete_marker = none }) photo
      1 87399 0 refl refl refl refl refl refl (λ e. omega arith) (omega arith) (omega arith)
