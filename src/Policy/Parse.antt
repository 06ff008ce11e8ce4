-- ===== src/Policy/Parse.antt =====
-- src/policy/types.rs: the typed view of a stored policy. A JSON value is seen through the accessors of
-- `serde_json::Value` (`Json`); `?` and `collect` are written out.
use abixio.Base.{
  ◌≡◌, arith, Bool, false, ◌||◌, Option, none, some, List, [], ◌∷◌, Bytes, if◌then◌else◌, is_empty,
  str_eq, All, Option-cases, subst, inl, inr,
}
use abixio.Policy.Eval.{Effect, Principal, Statement, Policy}

-- What the parser asks of a value: whether it is an object, and its fields, a string, an array, null.
pub record Json : Type 1 where
  pub Value : Type 0
  pub as_object : Value → Option (Bytes → Option Value)
  pub as_str : Value → Option Bytes
  pub as_array : Value → Option (List Value)
  pub is_null : Value → Bool

abbrev pub word_version : Bytes
word_version = b'V' ∷ b'e' ∷ b'r' ∷ b's' ∷ b'i' ∷ b'o' ∷ b'n' ∷ []

abbrev pub word_statement : Bytes
word_statement = b'S' ∷ b't' ∷ b'a' ∷ b't' ∷ b'e' ∷ b'm' ∷ b'e' ∷ b'n' ∷ b't' ∷ []

abbrev pub word_sid : Bytes
word_sid = b'S' ∷ b'i' ∷ b'd' ∷ []

abbrev pub word_effect : Bytes
word_effect = b'E' ∷ b'f' ∷ b'f' ∷ b'e' ∷ b'c' ∷ b't' ∷ []

abbrev pub word_allow : Bytes
word_allow = b'A' ∷ b'l' ∷ b'l' ∷ b'o' ∷ b'w' ∷ []

abbrev pub word_deny : Bytes
word_deny = b'D' ∷ b'e' ∷ b'n' ∷ b'y' ∷ []

abbrev pub word_principal : Bytes
word_principal = b'P' ∷ b'r' ∷ b'i' ∷ b'n' ∷ b'c' ∷ b'i' ∷ b'p' ∷ b'a' ∷ b'l' ∷ []

abbrev pub word_aws : Bytes
word_aws = b'A' ∷ b'W' ∷ b'S' ∷ []

abbrev pub word_action : Bytes
word_action = b'A' ∷ b'c' ∷ b't' ∷ b'i' ∷ b'o' ∷ b'n' ∷ []

abbrev pub word_resource : Bytes
word_resource = b'R' ∷ b'e' ∷ b's' ∷ b'o' ∷ b'u' ∷ b'r' ∷ b'c' ∷ b'e' ∷ []

abbrev pub word_condition : Bytes
word_condition = b'C' ∷ b'o' ∷ b'n' ∷ b'd' ∷ b'i' ∷ b't' ∷ b'i' ∷ b'o' ∷ b'n' ∷ []

-- `o.and_then(f)`
abbrev pub and_then {ℓ} : {A B : Type ℓ} → Option A → (A → Option B) → Option B
and_then none f = none
and_then (some a) f = f a

-- `flatten` behind a `map`: what fails is left out.
abbrev pub filter_map {ℓ} : {A B : Type ℓ} → (A → Option B) → List A → List B
filter_map f [] = []
filter_map f (x ∷ xs) = elim (f x) [ none ↦ filter_map f xs | some y ↦ y ∷ filter_map f xs ]

module _ (json : Json) where
  unfoldable pub string_or_array : Option json.Value → List Bytes
  string_or_array none = []
  string_or_array (some v) = elim (json.as_str v) [
    | some s ↦ s ∷ []
    | none ↦ elim (json.as_array v) [ none ↦ [] | some arr ↦ filter_map json.as_str arr ]
  ]

  unfoldable pub parse_principal : Option json.Value → Option Principal
  unfolding string_or_array
  parse_principal none = some Principal.anyone
  parse_principal (some v) = elim (json.as_str v) [
    | some s ↦ if str_eq s (b'*' ∷ []) then some Principal.anyone else none
    | none ↦ elim (json.as_object v) [
      | none ↦ none
      | some m ↦ elim (m word_aws) [
        | none ↦ some (Principal.aws [])
        | some aws ↦ some (Principal.aws (string_or_array (some aws)))
      ]
    ]
  ]

  -- The effect that a string names.
  unfoldable pub effect_of : Bytes → Option Effect
  effect_of s =
      if str_eq s word_allow
      then some Effect.allow
      else if str_eq s word_deny
      then some Effect.deny
      else none

  -- A condition, unless it is null.
  unfoldable pub condition_of : Option json.Value → Option json.Value
  condition_of none = none
  condition_of (some c) = if json.is_null c then none else some c

  unfoldable pub parse_statement : json.Value → Option (Statement json.Value)
  unfolding parse_principal effect_of condition_of
  parse_statement v = and_then (json.as_object v) λ obj.
      and_then (and_then (and_then (obj word_effect) json.as_str) effect_of) λ effect.
        and_then (parse_principal (obj word_principal)) λ principal.
          let action = string_or_array (obj word_action) in
          let resource = string_or_array (obj word_resource) in
          if is_empty action || is_empty resource
          then none
          else some (record {
            sid = and_then (obj word_sid) json.as_str;
            effect = effect;
            principal = principal;
            action = action;
            resource = resource;
            condition = condition_of (obj word_condition);
          })

  -- The statements of the field `Statement`: an array, or a single object.
  unfoldable pub statements_of : json.Value → Option (List (Statement json.Value))
  unfolding parse_statement
  statements_of raw = elim (json.as_array raw) [
    | some arr ↦ some (filter_map parse_statement arr)
    | none ↦ elim (json.as_object raw) [
      | some obj ↦ some (filter_map parse_statement (raw ∷ []))
      | none ↦ none
    ]
  ]

  -- `value.as_str()` of a field, and the empty string without one
  abbrev pub text_of : Option json.Value → Bytes
  text_of o = elim (and_then o json.as_str) [ none ↦ [] | some s ↦ s ]

  unfoldable pub from_json : json.Value → Option (Policy json.Value)
  unfolding statements_of
  from_json value = and_then (json.as_object value) λ obj.
      let version = text_of (obj word_version) in
      if is_empty version
      then none
      else and_then (obj word_statement) λ raw. and_then (statements_of raw) λ statements.
        if is_empty statements
        then none
        else some (record { version = version; statements = statements })

  -- What every statement of a parsed policy has.
  abbrev pub IsProper : Statement json.Value → Type 0
  IsProper stmt = (is_empty stmt.action ≡ false) × (is_empty stmt.resource ≡ false)

  parse_statement-IsProper :
      (v : json.Value) (stmt : Statement json.Value) → parse_statement v ≡ some stmt → IsProper stmt
  unfolding parse_statement
  parse_statement-IsProper v stmt h = ground arith

  filter_map-IsProper : (vs : List json.Value) → All IsProper (filter_map parse_statement vs)
  filter_map-IsProper [] = tt
  filter_map-IsProper (v ∷ vs) = elim (Option-cases (parse_statement v)) [
    | inl dropped ↦ rw (dropped, All, filter_map) (filter_map-IsProper vs)
    | inr (stmt, kept) ↦
        rw (kept, All, filter_map) (parse_statement-IsProper v stmt kept, filter_map-IsProper vs)
  ]

  statements_of-IsProper :
      (raw : json.Value) (stmts : List (Statement json.Value))
      → statements_of raw ≡ some stmts
      → All IsProper stmts
  unfolding statements_of
  statements_of-IsProper raw stmts h = elim (Option-cases (json.as_array raw)) [
    | inr (arr, is) ↦
        let same : filter_map parse_statement arr ≡ stmts = ground (arith, is) in
        subst (All IsProper) same (filter_map-IsProper arr)
    | inl single ↦ elim (Option-cases (json.as_object raw)) [
      | inr (obj, is) ↦
          let same : filter_map parse_statement (raw ∷ []) ≡ stmts = ground (arith, is, single) in
          subst (All IsProper) same (filter_map-IsProper (raw ∷ []))
      | inl other ↦ absurd (ground (arith, other, single))
    ]
  ]

  -- A policy that parses has a version and a statement, and each of its statements names an action and a
  -- resource.
  pub from_json-IsProper :
      (value : json.Value) (policy : Policy json.Value)
      → from_json value ≡ some policy
      → (is_empty policy.version ≡ false)
        × (is_empty policy.statements ≡ false)
        × All IsProper policy.statements
  unfolding from_json
  from_json-IsProper value policy h = elim (Option-cases (json.as_object value)) [
    | inl other ↦ absurd (ground (arith, other))
    | inr (obj, is) ↦ elim (Option-cases (obj word_statement)) [
      | inl missing ↦ absurd (ground (arith, is, missing))
      | inr (raw, there) ↦ elim (Option-cases (statements_of raw)) [
        | inl bad ↦ absurd (ground (arith, is, there, bad))
        | inr (stmts, parsed) ↦
            let same : stmts ≡ policy.statements = ground (arith, is, there, parsed) in
            (
              ground (arith, is, there, parsed),
              ground (arith, is, there, parsed),
              subst (All IsProper) same (statements_of-IsProper raw stmts parsed),
            )
      ]
    ]
  ]
