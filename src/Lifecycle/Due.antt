-- ===== src/Lifecycle/Due.antt =====
-- When `eval` asks for an action, and for which.
use abixio.Base.{
  str_eq, ℕ, zero, suc, ◌-◌, ◌/◌, ◌<◌, ◌↔◌, ◌≤◌, ◌≡◌, ◌≢◌, ◌⊎◌, inl, inr, refl, arith, true, false,
  Option, none, some, List, [], ◌∷◌, Bytes, ◌==◌, leb, All, str_eq_iff, Option-cases, Bool-cases,
  subst, sym,
}
use abixio.Base.Words.{u64_max}
use abixio.Lifecycle.{
  ℤ, Action, Event, ObjectOpts, LifecycleRule, LifecycleExpiration, expected_expiry, rule_matches,
  rule_event, choose, eval, earlier, no_event, marker_event, noncurrent_event, current_event,
  is_orphan_marker,
}

-- What the action of an event needs of the version that it is for.
abbrev pub Suits : ObjectOpts → Action → Type 0
Suits obj Action.nothing = Unit
Suits obj Action.delete = (obj.is_latest ≡ true) × (obj.is_delete_marker ≡ false)
Suits obj Action.delete_version = obj.is_latest ≡ false
Suits obj Action.delete_all_versions = ⊥
Suits obj Action.delete_expired_marker = (obj.is_delete_marker ≡ true) × (obj.num_versions ≡ 1)

-- The instant has come exactly when that many whole days have passed.
expected_expiry-due :
    (mod_time days now : ℕ)
    → mod_time ≤ now
    → now < u64_max
    → (leb (expected_expiry mod_time (ℤ.pos days)) now ≡ true) ↔ (days ≤ (now - mod_time) / 86400)
unfolding expected_expiry
expected_expiry-due m zero now known early = ((λ h. omega arith), (λ h. ground arith))
expected_expiry-due m (suc d) now known early = ((λ h. ground arith), (λ h. ground arith))

marker_event-fair :
    (rule : LifecycleRule) (obj : ObjectOpts) (now : ℕ) (e : Event)
    → marker_event rule obj now ≡ some e
    → (e.due_unix_secs ≤ now)
      × (e.action ≡ Action.delete_expired_marker)
      × (obj.is_delete_marker ≡ true)
      × (obj.num_versions ≡ 1)
unfolding marker_event is_orphan_marker
marker_event-fair rule obj now e h = ground arith

noncurrent_event-fair :
    (rule : LifecycleRule) (obj : ObjectOpts) (now newer : ℕ) (e : Event)
    → noncurrent_event rule obj now newer ≡ some e
    → (e.due_unix_secs ≤ now) × (e.action ≡ Action.delete_version) × (obj.is_latest ≡ false)
unfolding noncurrent_event
noncurrent_event-fair rule obj now newer e h = ground arith

current_event-fair :
    (rule : LifecycleRule) (obj : ObjectOpts) (now : ℕ) (e : Event)
    → current_event rule obj now ≡ some e
    → (e.due_unix_secs ≤ now)
      × (e.action ≡ Action.delete)
      × (obj.is_latest ≡ true)
      × (obj.is_delete_marker ≡ false)
unfolding current_event
current_event-fair rule obj now e h = ground arith

-- What the event of a rule has to be.
abbrev pub IsFair : Bytes → LifecycleRule → ObjectOpts → ℕ → Event → Type 0
IsFair enabled rule obj now e =
    (e.due_unix_secs ≤ now)
    × Suits obj e.action
    × (e.action ≢ Action.nothing)
    × (rule.status ≡ enabled)
    × (rule_matches rule obj ≡ true)

Suits-marker :
    (obj : ObjectOpts) (a : Action)
    → a ≡ Action.delete_expired_marker
    → obj.is_delete_marker ≡ true
    → obj.num_versions ≡ 1
    → Suits obj a × (a ≢ Action.nothing)
Suits-marker obj a p m n = (subst (Suits obj) (sym p) (m, n), λ q. cc)

Suits-version :
    (obj : ObjectOpts) (a : Action)
    → a ≡ Action.delete_version
    → obj.is_latest ≡ false
    → Suits obj a × (a ≢ Action.nothing)
Suits-version obj a p m = (subst (Suits obj) (sym p) m, λ q. cc)

Suits-delete :
    (obj : ObjectOpts) (a : Action)
    → a ≡ Action.delete
    → obj.is_latest ≡ true
    → obj.is_delete_marker ≡ false
    → Suits obj a × (a ≢ Action.nothing)
Suits-delete obj a p m n = (subst (Suits obj) (sym p) (m, n), λ q. cc)

module _ (enabled : Bytes) (obj : ObjectOpts) (now newer : ℕ) where
  rule_event_guards :
      (rule : LifecycleRule) (e : Event)
      → rule_event enabled rule obj now newer ≡ some e
      → (rule.status ≡ enabled)
        × (rule_matches rule obj ≡ true)
        × ((marker_event rule obj now ≡ some e)
            ⊎ (noncurrent_event rule obj now newer ≡ some e)
            ⊎ (current_event rule obj now ≡ some e))
  unfolding rule_event
  rule_event_guards rule e h = ground (arith, str_eq_iff rule.status enabled)

  rule_event-IsFair :
      (rule : LifecycleRule) (e : Event)
      → rule_event enabled rule obj now newer ≡ some e
      → IsFair enabled rule obj now e
  rule_event-IsFair rule e h =
      let (on, accepts, from) = rule_event_guards rule e h in
      elim from [
        | inl m ↦
            let (due, a, marker, single) = marker_event-fair rule obj now e m in
            let (suits, acts) = Suits-marker obj e.action a marker single in
            (due, suits, acts, on, accepts)
        | inr (inl m) ↦
            let (due, a, old) = noncurrent_event-fair rule obj now newer e m in
            let (suits, acts) = Suits-version obj e.action a old in (due, suits, acts, on, accepts)
        | inr (inr m) ↦
            let (due, a, latest, real) = current_event-fair rule obj now e m in
            let (suits, acts) = Suits-delete obj e.action a latest real in
            (due, suits, acts, on, accepts)
      ]

  -- The event is what one of the rules asks for.
  abbrev pub Asks : Event → List LifecycleRule → Type 0
  Asks e [] = ⊥
  Asks e (rule ∷ rules) = (rule_event enabled rule obj now newer ≡ some e) ⊎ Asks e rules

  -- No rule asks for an event that is due before the given time.
  abbrev pub NoneBefore : ℕ → List LifecycleRule → Type 0
  NoneBefore due =
      All (λ rule.
        (e : Event) → rule_event enabled rule obj now newer ≡ some e → due ≤ e.due_unix_secs)

  -- No rule asks for anything.
  abbrev pub Silent : List LifecycleRule → Type 0
  Silent = All (λ rule. rule_event enabled rule obj now newer ≡ none)

  earlier_least :
      (chosen : Option Event) (b : Event)
      → (x : Event) × (earlier chosen b ≡ some x) × (x.due_unix_secs ≤ b.due_unix_secs)
  unfolding earlier
  earlier_least none b = (b, refl, omega arith)
  earlier_least (some c) b = elim (Bool-cases (leb c.due_unix_secs b.due_unix_secs)) [
    | inl first ↦ (c, ground arith, ground arith)
    | inr later ↦ (b, ground arith, omega arith)
  ]

  choose_lem :
      (rules : List LifecycleRule) (chosen : Option Event)
      → ((choose enabled rules obj now newer chosen ≡ none) × (chosen ≡ none) × Silent rules)
        ⊎ ((e : Event) × (choose enabled rules obj now newer chosen ≡ some e)
            × ((chosen ≡ some e) ⊎ Asks e rules)
            × ((c : Event) → chosen ≡ some c → e.due_unix_secs ≤ c.due_unix_secs)
            × NoneBefore e.due_unix_secs rules)
  unfolding choose earlier
  choose_lem [] none = inl (refl, refl, tt)
  choose_lem [] (some c) = inr (c, refl, inl refl, λ d p. ground arith, tt)
  choose_lem (rule ∷ rules) chosen = elim (Option-cases (rule_event enabled rule obj now newer)) [
    | inl quiet ↦ elim (choose_lem rules chosen) [
      | inl (r, c, rest) ↦ inl (ground arith, c, (quiet, rest))
      | inr (e, r, from, least, before) ↦
          inr (e, ground arith, ground arith, least, (λ e' p. ground arith, before))
    ]
    | inr (event, asked) ↦ elim (choose_lem rules (earlier chosen event)) [
      | inl (r, c, rest) ↦ absurd (ground arith)
      | inr (e, r, from, least, before) ↦
          let (x, kept, not_after) = earlier_least chosen event in
          inr (
            e,
            ground arith,
            ground arith,
            λ c p. ground (arith, least c, least event),
            (λ e' p. ground (arith, least x kept, not_after), before),
          )
    ]
  ]

  -- For a version whose modification time is known, `eval` answers nothing where no rule asks for
  -- anything; otherwise it answers what one of the rules asks for, and no rule asks for an earlier event.
  pub eval_lem :
      (rules : List LifecycleRule)
      → obj.mod_time_unix_secs ≢ 0
      → ((eval enabled rules obj now newer ≡ no_event) × Silent rules)
        ⊎ (Asks (eval enabled rules obj now newer) rules
            × NoneBefore (eval enabled rules obj now newer).due_unix_secs rules)
  unfolding eval
  eval_lem rules known = elim (choose_lem rules none) [
    | inl (r, c, quiet) ↦ inl (ground arith, quiet)
    | inr (e, r, from, least, before) ↦
        let is : eval enabled rules obj now newer ≡ e = ground arith in
        inr (rw is (ground arith), rw is before)
  ]

  Asks-IsFair :
      (e : Event) (rules : List LifecycleRule)
      → Asks e rules
      → (rule : LifecycleRule) × IsFair enabled rule obj now e
  Asks-IsFair e [] a = absurd a
  Asks-IsFair e (rule ∷ rules) (inl here) = (rule, rule_event-IsFair rule e here)
  Asks-IsFair e (rule ∷ rules) (inr there) = Asks-IsFair e rules there

  -- Whatever `eval` answers is safe to do: an action is never asked for before it is due, never for a
  -- version of the wrong kind, and never for every version at once.
  pub eval-Suits :
      (rules : List LifecycleRule)
      → ((eval enabled rules obj now newer).due_unix_secs ≤ now)
        × Suits obj (eval enabled rules obj now newer).action
  unfolding eval
  eval-Suits rules = elim (Bool-cases (obj.mod_time_unix_secs == 0)) [
    | inl unknown ↦ rw (unknown, eval) (omega arith, tt)
    | inr known ↦ elim (eval_lem rules (ground arith)) [
      | inl (nothing, quiet) ↦ rw nothing (omega arith, tt)
      | inr (asked, before) ↦
          let (rule, fair) = Asks-IsFair (eval enabled rules obj now newer) rules asked in
          (fair.0, fair.1)
    ]
  ]

-- A single rule that is enabled, matches the object's name and expires after a number of days that is not
-- negative has the latest version of an object, not a delete marker, deleted exactly when at least that many
-- whole days of 86400 seconds have passed since the modification, which is known and not later than now, as
-- long as now is below the greatest 64-bit number.
pub eval-days :
    (enabled : Bytes) (rule : LifecycleRule) (exp : LifecycleExpiration) (obj : ObjectOpts)
    (days now newer : ℕ)
    → rule.status ≡ enabled
    → rule_matches rule obj ≡ true
    → rule.expiration ≡ some exp
    → exp.days ≡ some (ℤ.pos days)
    → obj.is_latest ≡ true
    → obj.is_delete_marker ≡ false
    → obj.mod_time_unix_secs ≢ 0
    → obj.mod_time_unix_secs ≤ now
    → now < u64_max
    → ((eval enabled (rule ∷ []) obj now newer).action ≡ Action.delete)
      ↔ (days ≤ (now - obj.mod_time_unix_secs) / 86400)
unfolding eval choose rule_event marker_event noncurrent_event current_event is_orphan_marker
    earlier
eval-days enabled rule exp obj days now newer on matches has_exp has_days latest live known past
      early =
    let whole = expected_expiry-due obj.mod_time_unix_secs days now past early in
    let enabled_ : str_eq rule.status enabled ≡ true = (str_eq_iff rule.status enabled).1 on in
    let dated : (obj.mod_time_unix_secs == 0) ≡ false = ground arith in
    elim (Bool-cases (leb (expected_expiry obj.mod_time_unix_secs (ℤ.pos days)) now)) [
      | inl due ↦
          rw (dated, enabled_, matches, live, latest, has_exp, has_days, due)
            ((λ h. whole.0 due), (λ h. refl))
      | inr early_ ↦
          rw (dated, enabled_, matches, live, latest, has_exp, has_days, early_)
            (
              (λ h. cc),
              (λ h.
                  let due : leb (expected_expiry obj.mod_time_unix_secs (ℤ.pos days)) now ≡ true =
                    whole.1 h in
                  cc),
            )
    ]
