-- ===== src/Storage/Pathing/Tests.antt =====
-- Names and directories on small texts; a UUID is any text.
use abixio.Base.{◌≡◌, refl, Bool, true, List, [], ◌∷◌, ◌++◌, map, Bytes, all, ok, err}
use abixio.Storage.{invalid_bucket_name, invalid_object_key}
use abixio.Storage.Pathing.{
  Component, normal, root_dir, split, normalize_path, normalize_from, validate_bucket_name,
  validate_object_key, validate_key_segments,
}
use abixio.Storage.Pathing.Join.{object_dir, safe_join}
use abixio.Storage.Pathing.Names.{is_name}
use abixio.Storage.Pathing.Keys.{
  object_dir_lem, object_dir-injective, object_dir-nested, validate_bucket_name_space,
}

abbrev no_text : List Component → Bytes
no_text path = []

abbrev any_uuid : Bytes → Bool
any_uuid text = true

-- `/v`, the bucket `b1`, the keys `a` and `a/c`.
abbrev volume_root : List Component
volume_root = root_dir ∷ normal (118 ∷ []) ∷ []

abbrev bucket_b1 : Bytes
bucket_b1 = 98 ∷ 49 ∷ []

abbrev key_a : Bytes
key_a = 97 ∷ []

abbrev key_a_c : Bytes
key_a_c = 97 ∷ 47 ∷ 99 ∷ []

b1_valid : validate_bucket_name bucket_b1 ≡ ok tt
unfolding validate_bucket_name
b1_valid = refl

address_refused :
    validate_bucket_name (49 ∷ 46 ∷ 50 ∷ 46 ∷ 51 ∷ 46 ∷ 52 ∷ [])
    ≡ err (invalid_bucket_name (49 ∷ 46 ∷ 50 ∷ 46 ∷ 51 ∷ 46 ∷ 52 ∷ []))
unfolding validate_bucket_name
address_refused = refl

a_valid : validate_object_key key_a ≡ ok tt
unfolding validate_object_key validate_key_segments
a_valid = refl

a_c_valid : validate_object_key key_a_c ≡ ok tt
unfolding validate_object_key validate_key_segments
a_c_valid = refl

parent_refused :
    validate_object_key (97 ∷ 47 ∷ 46 ∷ 46 ∷ []) ≡ err (invalid_object_key (97 ∷ 47 ∷ 46 ∷ 46 ∷ []))
unfolding validate_object_key validate_key_segments
parent_refused = refl

a_dir :
    object_dir no_text any_uuid volume_root bucket_b1 key_a
    ≡ ok (root_dir ∷ normal (118 ∷ []) ∷ normal bucket_b1 ∷ normal key_a ∷ [])
unfolding object_dir safe_join validate_bucket_name validate_object_key validate_key_segments
    normalize_path normalize_from
a_dir = refl

object_dir_lem_example :
    (object_dir no_text any_uuid volume_root bucket_b1 key_a_c
      ≡ ok (normalize_path volume_root ++ map normal (bucket_b1 ∷ split 47 key_a_c)))
    × (all is_name (bucket_b1 ∷ split 47 key_a_c) ≡ true)
object_dir_lem_example =
    object_dir_lem no_text any_uuid volume_root bucket_b1 key_a_c b1_valid a_c_valid

object_dir-injective_example : (bucket_b1 ≡ bucket_b1) × (key_a ≡ key_a)
object_dir-injective_example =
    object_dir-injective no_text any_uuid volume_root bucket_b1 bucket_b1 key_a key_a b1_valid
      b1_valid a_valid a_valid refl

object_dir-nested_example :
    object_dir no_text any_uuid volume_root bucket_b1 key_a_c
    ≡ ok (
        (root_dir ∷ normal (118 ∷ []) ∷ normal bucket_b1 ∷ normal key_a ∷ [])
        ++ map normal (split 47 (99 ∷ [])))
object_dir-nested_example =
    object_dir-nested no_text any_uuid volume_root bucket_b1 key_a (99 ∷ [])
      (root_dir ∷ normal (118 ∷ []) ∷ normal bucket_b1 ∷ normal key_a ∷ []) b1_valid a_valid
      a_c_valid a_dir

validate_bucket_name_space_example :
    validate_bucket_name (32 ∷ bucket_b1) ≡ validate_bucket_name bucket_b1
validate_bucket_name_space_example = validate_bucket_name_space bucket_b1

-- A part that begins with `/` takes the place of the path, and `safe_join` refuses it.
absolute_refused :
    safe_join no_text any_uuid volume_root ((47 ∷ 98 ∷ []) ∷ []) ≡ err (invalid_object_key [])
unfolding safe_join normalize_path normalize_from
absolute_refused = refl

-- A part with a `/` is two components.
two_components :
    safe_join no_text any_uuid volume_root ((97 ∷ 47 ∷ 98 ∷ []) ∷ [])
    ≡ ok (root_dir ∷ normal (118 ∷ []) ∷ normal (97 ∷ []) ∷ normal (98 ∷ []) ∷ [])
unfolding safe_join normalize_path normalize_from
two_components = refl

-- The ideographic space U+3000 around a name is white space.
wide_space_trimmed :
    validate_bucket_name (227 ∷ 128 ∷ 128 ∷ bucket_b1 ++ (227 ∷ 128 ∷ 128 ∷ [])) ≡ ok tt
unfolding validate_bucket_name
wide_space_trimmed = refl
