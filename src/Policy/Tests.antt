-- ===== src/Policy/Tests.antt =====
-- The theorems on policies at concrete inputs.
use abixio.Base.{
  ℕ, ◌≡◌, refl, true, false, not, ◌&&◌, ◌||◌, Option, none, some, [], ◌∷◌, ◌++◌, Bytes,
  if◌then◌else◌, ◌==◌, str_eq, is_empty, All,
}
use abixio.Policy.Parse.{
  Json, from_json, from_json-IsProper, IsProper, word_version, word_statement, word_effect,
  word_action, word_resource, word_allow,
}
use abixio.Policy.Glob.{glob_match, matches}
use abixio.Policy.Glob.Sound.{glob_match_sound}
use abixio.Policy.Glob.Greedy.{glob_match_lem}
use abixio.Policy.Glob.Stars.{glob_match_star}
use abixio.Policy.Eval.{
  Statement, Policy, Args, Effect, Principal, is_allowed, denied, granted, is_allowed_lem,
  is_allowed-condition, principal_entry_matches, principal_entry_matches-tail,
}

-- `a*c` and `abbc`
abbrev pattern_abc : Bytes
pattern_abc = b'a' ∷ b'*' ∷ b'c' ∷ []

abbrev text_abbc : Bytes
text_abbc = b'a' ∷ b'b' ∷ b'b' ∷ b'c' ∷ []

glob_match_lem_example : glob_match pattern_abc text_abbc ≡ matches pattern_abc text_abbc
glob_match_lem_example = glob_match_lem pattern_abc text_abbc refl

glob_match_run : glob_match pattern_abc text_abbc ≡ true
unfolding glob_match
glob_match_run = refl

glob_match_star_example :
    (glob_match ((b'/' ∷ []) ++ b'*' ∷ []) ((b'/' ∷ []) ++ b'*' ∷ b'k' ∷ []) ≡ false)
    × (matches ((b'/' ∷ []) ++ b'*' ∷ []) ((b'/' ∷ []) ++ b'*' ∷ b'k' ∷ []) ≡ true)
glob_match_star_example = glob_match_star (b'/' ∷ []) b'k' []

abbrev guarded_deny : Statement ℕ
guarded_deny = record {
  sid = none;
  effect = Effect.deny;
  principal = Principal.anyone;
  action = (b'*' ∷ []) ∷ [];
  resource = (b'*' ∷ []) ∷ [];
  condition = some 1;
}

abbrev open_grant : Statement ℕ
open_grant = record {
  sid = none;
  effect = Effect.allow;
  principal = Principal.anyone;
  action = (b'*' ∷ []) ∷ [];
  resource = (b'*' ∷ []) ∷ [];
  condition = none;
}

abbrev policy : Policy ℕ
policy = record { version = b'1' ∷ []; statements = guarded_deny ∷ open_grant ∷ [] }

abbrev request : Args
request = record {
  bucket = b'b' ∷ [];
  key = some (b'k' ∷ []);
  action = b'g' ∷ [];
  access_key = b'u' ∷ [];
  is_owner = false;
}

is_allowed_lem_example : is_allowed policy request ≡ (
    not (denied request policy.statements)
    && (granted request policy.statements || request.is_owner))
is_allowed_lem_example = is_allowed_lem policy request

is_allowed-condition_example :
    is_allowed
      (record { version = b'1' ∷ []; statements = [] ++ guarded_deny ∷ open_grant ∷ [] })
      request
    ≡ is_allowed (record { version = b'1' ∷ []; statements = [] ++ open_grant ∷ [] }) request
is_allowed-condition_example =
    is_allowed-condition (b'1' ∷ []) [] (open_grant ∷ []) guarded_deny 1 request refl

principal_entry_matches-tail_example :
    principal_entry_matches ((b'u' ∷ []) ++ b'/' ∷ (b'a' ∷ [])) (b'a' ∷ []) ≡ true
principal_entry_matches-tail_example = principal_entry_matches-tail (b'u' ∷ []) (b'a' ∷ []) refl

-- The values of a small policy document, by number: 0 is the document, 2 its statement, 1, 3 and 4 are
-- strings.
abbrev object_of : ℕ → Option (Bytes → Option ℕ)
object_of n =
    if n == 0
    then some (λ name.
      if str_eq name word_version
      then some 1
      else if str_eq name word_statement
      then some 2
      else none)
    else if n == 2
    then some (λ name.
      if str_eq name word_effect
      then some 3
      else if str_eq name word_action
      then some 4
      else if str_eq name word_resource
      then some 4
      else none)
    else none

abbrev string_of : ℕ → Option Bytes
string_of n =
    if n == 1
    then some (b'1' ∷ [])
    else if n == 3
    then some word_allow
    else if n == 4
    then some (b'*' ∷ [])
    else none

abbrev document : Json
document = record {
  Value = ℕ;
  as_object = object_of;
  as_str = string_of;
  as_array = λ n. none;
  is_null = λ n. false;
}

abbrev parsed : Policy ℕ
parsed = record {
  version = b'1' ∷ [];
  statements =
      record {
        sid = none;
        effect = Effect.allow;
        principal = Principal.anyone;
        action = (b'*' ∷ []) ∷ [];
        resource = (b'*' ∷ []) ∷ [];
        condition = none;
      }
      ∷ [];
}

document-parsed : from_json document 0 ≡ some parsed
unfolding from_json
document-parsed = refl

from_json-IsProper_example :
    (is_empty parsed.version ≡ false)
    × (is_empty parsed.statements ≡ false)
    × All (IsProper document) parsed.statements
from_json-IsProper_example = from_json-IsProper document 0 parsed document-parsed

glob_match_sound_example : matches pattern_abc text_abbc ≡ true
glob_match_sound_example = glob_match_sound pattern_abc text_abbc glob_match_run

-- `?` is one byte: U+00E9 has two, so one `?` does not match it and two do.
one_for_two_bytes : glob_match (b'?' ∷ []) (0xc3 ∷ 0xa9 ∷ []) ≡ false
unfolding glob_match
one_for_two_bytes = refl

two_for_two_bytes : glob_match (b'?' ∷ b'?' ∷ []) (0xc3 ∷ 0xa9 ∷ []) ≡ true
unfolding glob_match
two_for_two_bytes = refl
