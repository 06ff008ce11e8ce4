-- ===== src/Storage/LocalVolume/Tests.antt =====
-- The deletion of the object `a` in a volume that has `a/c` too, and an object that is not below it.
use abixio.Base.{◌≡◌, refl, Bool, true, false, List, [], ◌∷◌, Bytes, any, ok}
use abixio.Storage.Pathing.{
  Component, normal, root_dir, normalize_path, normalize_from, validate_bucket_name,
  validate_object_key, validate_key_segments,
}
use abixio.Storage.Pathing.Join.{object_dir, safe_join}
use abixio.Storage.LocalVolume.{Files, is_inside, delete_file_tier}
use abixio.Storage.LocalVolume.Deletes.{delete_file_tier-nested}

abbrev no_text : List Component → Bytes
no_text path = []

abbrev any_uuid : Bytes → Bool
any_uuid text = true

abbrev volume_root : List Component
volume_root = root_dir ∷ normal (118 ∷ []) ∷ []

abbrev bucket_b1 : Bytes
bucket_b1 = 98 ∷ 49 ∷ []

abbrev key_a : Bytes
key_a = 97 ∷ []

abbrev nested_dir : List Component
nested_dir = root_dir ∷ normal (118 ∷ []) ∷ normal bucket_b1 ∷ normal key_a ∷ normal (99 ∷ []) ∷ []

abbrev file_of : List Bytes → List Component × Bytes
file_of parts = (root_dir ∷ normal (118 ∷ []) ∷ normal bucket_b1 ∷ below parts, [])
  where
    below : List Bytes → List Component
    below [] = []
    below (part ∷ parts) = normal part ∷ below parts

-- `a/m`, `a/c/m` and `d/m`
abbrev three_files : Files
three_files =
    file_of (key_a ∷ (109 ∷ []) ∷ [])
    ∷ file_of (key_a ∷ (99 ∷ []) ∷ (109 ∷ []) ∷ [])
    ∷ file_of ((100 ∷ []) ∷ (109 ∷ []) ∷ [])
    ∷ []

abbrev one_file : Files
one_file = file_of ((100 ∷ []) ∷ (109 ∷ []) ∷ []) ∷ []

b1_valid : validate_bucket_name bucket_b1 ≡ ok tt
unfolding validate_bucket_name
b1_valid = refl

a_valid : validate_object_key key_a ≡ ok tt
unfolding validate_object_key validate_key_segments
a_valid = refl

a_c_valid : validate_object_key (97 ∷ 47 ∷ 99 ∷ []) ≡ ok tt
unfolding validate_object_key validate_key_segments
a_c_valid = refl

a_c_dir : object_dir no_text any_uuid volume_root bucket_b1 (97 ∷ 47 ∷ 99 ∷ []) ≡ ok nested_dir
unfolding object_dir safe_join validate_bucket_name validate_object_key validate_key_segments
    normalize_path normalize_from
a_c_dir = refl

a_deleted : delete_file_tier no_text any_uuid volume_root bucket_b1 key_a three_files ≡ ok one_file
unfolding delete_file_tier object_dir safe_join validate_bucket_name validate_object_key
    validate_key_segments normalize_path normalize_from
a_deleted = refl

delete_file_tier-nested_example : any (is_inside nested_dir) one_file ≡ false
delete_file_tier-nested_example =
    delete_file_tier-nested no_text any_uuid volume_root bucket_b1 key_a (99 ∷ []) nested_dir
      three_files one_file b1_valid a_valid a_c_valid a_c_dir a_deleted
