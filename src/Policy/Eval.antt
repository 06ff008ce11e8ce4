-- ===== src/Policy/Eval.antt =====
-- src/policy/types.rs and eval.rs: the evaluation of a policy for one request. `Value` stands for
-- `serde_json::Value`; a condition is only kept.
use abixio.Base.{
  ◌≡◌, refl, arith, Bool, true, false, not, ◌&&◌, ◌||◌, Option, none, some, List, [], ◌∷◌, ◌++◌,
  Bytes, ◌==◌, if◌then◌else◌, any, str_eq, str_eq_refl, is_empty,
}
use abixio.Policy.Glob.{glob_match}

pub data Effect : Type 0 where
  allow : Effect
  deny : Effect

pub data Principal : Type 0 where
  anyone : Principal
  aws : List Bytes → Principal

pub record Statement (Value : Type 0) : Type 0 where
  pub sid : Option Bytes
  pub effect : Effect
  pub principal : Principal
  pub action : List Bytes
  pub resource : List Bytes
  pub condition : Option Value

pub record Policy (Value : Type 0) : Type 0 where
  pub version : Bytes
  pub statements : List (Statement Value)

pub record Args : Type 0 where
  pub bucket : Bytes
  pub key : Option Bytes
  pub action : Bytes
  pub access_key : Bytes
  pub is_owner : Bool

-- `arn:aws:s3:::`
abbrev pub arn_prefix : Bytes
arn_prefix =
    b'a' ∷ b'r' ∷ b'n' ∷ b':' ∷ b'a' ∷ b'w' ∷ b's' ∷ b':' ∷ b's' ∷ b'3' ∷ b':' ∷ b':' ∷ b':' ∷ []

-- `Args::resource`
unfoldable pub resource_of : Args → Bytes
resource_of args = elim args.key [
  | none ↦ arn_prefix ++ args.bucket
  | some k ↦ if is_empty k then arn_prefix ++ args.bucket else arn_prefix ++ args.bucket ++ b'/' ∷ k
]

-- `entry.rsplit('/').next()`: what stands behind the last `/`, or all of it.
unfoldable pub tail_of : Bytes → Bytes
tail_of [] = []
tail_of (c ∷ s) =
    let rest = tail_of s in if any (λ d. d == b'/') s then rest else if c == b'/' then s else c ∷ s

unfoldable pub principal_entry_matches : Bytes → Bytes → Bool
unfolding tail_of
principal_entry_matches entry access_key =
    if str_eq entry (b'*' ∷ [])
    then true
    else if str_eq entry access_key
    then true
    else str_eq (tail_of entry) access_key

unfoldable pub principal_matches : Principal → Bytes → Bool
unfolding principal_entry_matches
principal_matches Principal.anyone access_key = true
principal_matches (Principal.aws list) access_key =
    if is_empty list then false else any (λ p. principal_entry_matches p access_key) list

module _ {Value : Type 0} where
  unfoldable pub stmt_matches : Statement Value → Args → Bytes → Bool
  unfolding principal_matches
  stmt_matches stmt args resource = elim stmt.condition [
    | some c ↦ false
    | none ↦
        if not (principal_matches stmt.principal args.access_key)
        then false
        else if not (any (λ pat. glob_match pat args.action) stmt.action)
        then false
        else if not (any (λ pat. glob_match pat resource) stmt.resource)
        then false
        else true
  ]

  -- The loop of `is_allowed`, with `any_allow` so far.
  unfoldable pub is_allowed_from : Bool → Args → Bytes → List (Statement Value) → Bool
  unfolding stmt_matches
  is_allowed_from any_allow args resource [] = any_allow || args.is_owner
  is_allowed_from any_allow args resource (stmt ∷ stmts) =
      let skipped = is_allowed_from any_allow args resource stmts in
      let allowed = is_allowed_from true args resource stmts in
      if not (stmt_matches stmt args resource)
      then skipped
      else elim stmt.effect [ Effect.deny ↦ false | Effect.allow ↦ allowed ]

  unfoldable pub is_allowed : Policy Value → Args → Bool
  unfolding is_allowed_from resource_of
  is_allowed policy args = is_allowed_from false args (resource_of args) policy.statements

  abbrev pub is_deny : Statement Value → Bool
  is_deny stmt = elim stmt.effect [ Effect.deny ↦ true | Effect.allow ↦ false ]

  -- Some statement of the effect matches.
  abbrev pub denied : Args → List (Statement Value) → Bool
  denied args = any (λ stmt. stmt_matches stmt args (resource_of args) && is_deny stmt)

  abbrev pub granted : Args → List (Statement Value) → Bool
  granted args = any (λ stmt. stmt_matches stmt args (resource_of args) && not (is_deny stmt))

  is_allowed_from_lem :
      (any_allow : Bool) (args : Args) (stmts : List (Statement Value))
      → is_allowed_from any_allow args (resource_of args) stmts
        ≡ (not (denied args stmts) && (any_allow || granted args stmts || args.is_owner))
  unfolding is_allowed_from
  is_allowed_from_lem any_allow args [] = ground arith
  is_allowed_from_lem any_allow args (stmt ∷ stmts) =
      ground (arith, is_allowed_from_lem any_allow args stmts, is_allowed_from_lem true args stmts)

  -- The decision: no statement that matches denies, and one that matches allows or the caller owns the
  -- cluster.
  pub is_allowed_lem :
      (policy : Policy Value) (args : Args)
      → is_allowed policy args
        ≡ (not (denied args policy.statements) && (granted args policy.statements || args.is_owner))
  unfolding is_allowed
  is_allowed_lem policy args = ground (arith, is_allowed_from_lem false args policy.statements)

  any_skip :
      (f : Statement Value → Bool) (before after : List (Statement Value)) (stmt : Statement Value)
      → f stmt ≡ false
      → any f (before ++ stmt ∷ after) ≡ any f (before ++ after)
  any_skip f [] after stmt h = ground arith
  any_skip f (s ∷ before) after stmt h = ground (arith, any_skip f before after stmt h)

  -- A statement with a condition has no effect at all, wherever it stands, a denying one included.
  pub is_allowed-condition :
      (version : Bytes) (before after : List (Statement Value)) (stmt : Statement Value) (c : Value)
      (args : Args)
      → stmt.condition ≡ some c
      → is_allowed (record { version = version; statements = before ++ stmt ∷ after }) args
        ≡ is_allowed (record { version = version; statements = before ++ after }) args
  unfolding stmt_matches
  is_allowed-condition version before after stmt c args h =
      let off : stmt_matches stmt args (resource_of args) ≡ false = rw (h, stmt_matches) refl in
      ground (
        arith,
        is_allowed_lem (record { version = version; statements = before ++ stmt ∷ after }) args,
        is_allowed_lem (record { version = version; statements = before ++ after }) args,
        any_skip (λ s. stmt_matches s args (resource_of args) && is_deny s) before after stmt
            (ground arith),
        any_skip (λ s. stmt_matches s args (resource_of args) && not (is_deny s)) before after stmt
            (ground arith),
      )

tail_of-no_slash : (s : Bytes) → any (λ d. d == b'/') s ≡ false → tail_of s ≡ s
unfolding tail_of
tail_of-no_slash [] h = refl
tail_of-no_slash (c ∷ s) h = ground arith

any_slash-append : (a s : Bytes) → any (λ d. d == b'/') (a ++ b'/' ∷ s) ≡ true
any_slash-append [] s = refl
any_slash-append (c ∷ a) s = ground (arith, any_slash-append a s)

tail_of-append : (a s : Bytes) → any (λ d. d == b'/') s ≡ false → tail_of (a ++ b'/' ∷ s) ≡ s
unfolding tail_of
tail_of-append [] s h = ground arith
tail_of-append (c ∷ a) s h = ground (arith, tail_of-append a s h, any_slash-append a s)

-- A principal entry matches an access key that stands behind its last `/`, whatever stands before it.
pub principal_entry_matches-tail :
    (a access_key : Bytes)
    → any (λ d. d == b'/') access_key ≡ false
    → principal_entry_matches (a ++ b'/' ∷ access_key) access_key ≡ true
unfolding principal_entry_matches
principal_entry_matches-tail a access_key h =
    ground (arith, tail_of-append a access_key h, str_eq_refl access_key)
