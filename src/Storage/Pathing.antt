-- ===== src/Storage/Pathing.antt =====
-- src/storage/pathing.rs: which names of buckets and objects are valid, and where they are kept. A path is the
-- list of its components, on a system whose separator is `/`; whether a text is a UUID is a parameter.
pub mod Names
pub mod Join
pub mod Keys
mod Tests
use abixio.Base.{
  ℕ, zero, suc, ◌+◌, ◌-◌, ◌*◌, Bool, true, false, not, ◌&&◌, ◌||◌, List, [], ◌∷◌, ◌++◌, map, Bytes,
  ◌==◌, if◌then◌else◌, ltb, leb, length, is_empty, any, all, str_eq, Result, ok, err, ◌>>=◌, ◌>>◌,
  refuse_if,
}
use abixio.Cluster.Manager.Names.{trim, trim_slashes, has_prefix}
use abixio.Storage.{
  StorageError, invalid_bucket_name, invalid_object_key, invalid_version_id, invalid_upload_id,
}

-- `text.contains(sub)`
abbrev pub contains_text : Bytes → Bytes → Bool
contains_text sub [] = is_empty sub
contains_text sub (b ∷ text) = has_prefix sub (b ∷ text) || contains_text sub text

-- `text.split(sep)`; the first piece is given apart.
abbrev pub push_front : ℕ → Bytes × List Bytes → Bytes × List Bytes
push_front b (piece, pieces) = (b ∷ piece, pieces)

abbrev pub split_at : ℕ → Bytes → Bytes × List Bytes
split_at sep [] = ([], [])
split_at sep (b ∷ text) =
    let more = split_at sep text in if b == sep then ([], more.0 ∷ more.1) else push_front b more

abbrev pub split : ℕ → Bytes → List Bytes
split sep text = (split_at sep text).0 ∷ (split_at sep text).1

abbrev pub is_digit : ℕ → Bool
is_digit b = leb 48 b && leb b 57

abbrev pub is_lower : ℕ → Bool
is_lower b = leb 97 b && leb b 122

abbrev pub decimal_value : ℕ → Bytes → ℕ
decimal_value n [] = n
decimal_value n (b ∷ text) = decimal_value (10 * n + (b - 48)) text

abbrev pub is_octet : Bytes → Bool
is_octet text =
    not (is_empty text)
    && all is_digit text
    && leb (length text) 3
    && leb (decimal_value 0 text) 255
    && not (has_prefix (48 ∷ []) text && ltb 1 (length text))

-- `parse::<Ipv4Addr>().is_ok()`
abbrev pub is_ipv4 : Bytes → Bool
is_ipv4 text = all is_octet (split 46 text) && (length (split 46 text) == 4)

abbrev pub last_byte : Bytes → ℕ
last_byte [] = 0
last_byte (b ∷ []) = b
last_byte (b ∷ c ∷ text) = last_byte (c ∷ text)

abbrev pub first_byte : Bytes → ℕ
first_byte [] = 0
first_byte (b ∷ text) = b

-- `abixio`
abbrev pub reserved_name : Bytes
reserved_name = 97 ∷ 98 ∷ 105 ∷ 120 ∷ 105 ∷ 111 ∷ []

unfoldable pub validate_bucket_name : Bytes → Result StorageError Unit
validate_bucket_name given =
    let bucket = trim given in
    let bad = invalid_bucket_name bucket in
    refuse_if (is_empty bucket || ltb 63 (length bucket)) bad
    >> refuse_if (str_eq bucket reserved_name) bad
    >> refuse_if (is_ipv4 bucket) bad
    >> refuse_if
        (contains_text (46 ∷ 46 ∷ []) bucket
          || contains_text (46 ∷ 45 ∷ []) bucket
          || contains_text (45 ∷ 46 ∷ []) bucket)
        bad
    >> refuse_if (not (all (λ c. is_lower c || is_digit c || c == 46 || c == 45) bucket)) bad
    >> refuse_if
        (not (is_lower (first_byte bucket) || is_digit (first_byte bucket))
          || not (is_lower (last_byte bucket) || is_digit (last_byte bucket)))
        bad

-- `WINDOWS_FORBIDDEN`
abbrev pub is_forbidden : ℕ → Bool
is_forbidden c = any (λ f. c == f) (58 ∷ 42 ∷ 63 ∷ 34 ∷ 124 ∷ 60 ∷ 62 ∷ 92 ∷ [])

abbrev pub bad_segment : Bytes → Bool
bad_segment segment =
    is_empty segment
    || not (str_eq (trim segment) segment)
    || str_eq segment (46 ∷ [])
    || str_eq segment (46 ∷ 46 ∷ [])
    || any is_forbidden segment

unfoldable pub validate_key_segments : Bytes → Result StorageError Unit
validate_key_segments key = refuse_if (any bad_segment (split 47 key)) (invalid_object_key key)

unfoldable pub validate_object_key : Bytes → Result StorageError Unit
unfolding validate_key_segments
validate_object_key key =
    refuse_if (is_empty key || ltb 1024 (length key)) (invalid_object_key key)
    >> refuse_if
        (has_prefix (47 ∷ []) key || any (λ b. b == 0) key || contains_text (47 ∷ 47 ∷ []) key)
        (invalid_object_key key)
    >> validate_key_segments key

unfoldable pub validate_object_prefix : Bytes → Result StorageError Unit
unfolding validate_key_segments
validate_object_prefix prefix =
    if is_empty prefix
    then ok tt
    else if ltb 1024 (length prefix)
        || has_prefix (47 ∷ []) prefix
        || any (λ b. b == 0) prefix
        || contains_text (47 ∷ 47 ∷ []) prefix
    then err (invalid_object_key prefix)
    else if is_empty (trim_slashes prefix)
    then ok tt
    else validate_key_segments (trim_slashes prefix)

pub data Component : Type 0 where
  root_dir cur_dir parent_dir : Component
  normal : Bytes → Component

-- The component of a piece between two `/`; an empty one is skipped, as is `.` that is not in front.
abbrev pub component_of : Bytes → List Component
component_of piece =
    if is_empty piece || str_eq piece (46 ∷ [])
    then []
    else if str_eq piece (46 ∷ 46 ∷ [])
    then parent_dir ∷ []
    else normal piece ∷ []

abbrev pub components_of : List Bytes → List Component
components_of [] = []
components_of (piece ∷ pieces) = component_of piece ++ components_of pieces

-- `PathBuf::push`: a part that begins with `/` takes the place of the path.
abbrev pub push : List Component → Bytes → List Component
push path part =
    let added = components_of (split 47 part) in
    if has_prefix (47 ∷ []) part
    then root_dir ∷ added
    else if is_empty path && str_eq (split_at 47 part).0 (46 ∷ [])
    then cur_dir ∷ added
    else path ++ added

-- `pop`: the root stays.
abbrev pub pop : List Component → List Component
pop [] = []
pop (normal part ∷ []) = []
pop (root_dir ∷ []) = root_dir ∷ []
pop (cur_dir ∷ []) = []
pop (parent_dir ∷ []) = []
pop (c ∷ d ∷ path) = c ∷ pop (d ∷ path)

-- The loop of `normalize_path`.
unfoldable pub normalize_from : List Component → List Component → List Component
normalize_from normalized [] = normalized
normalize_from normalized (root_dir ∷ path) = normalize_from (root_dir ∷ []) path
normalize_from normalized (cur_dir ∷ path) = normalize_from normalized path
normalize_from normalized (parent_dir ∷ path) = normalize_from (pop normalized) path
normalize_from normalized (normal part ∷ path) =
    normalize_from (normalized ++ (normal part ∷ [])) path

unfoldable pub normalize_path : List Component → List Component
unfolding normalize_from
normalize_path path = normalize_from [] path

abbrev pub component_eq : Component → Component → Bool
component_eq root_dir root_dir = true
component_eq root_dir cur_dir = false
component_eq root_dir parent_dir = false
component_eq root_dir (normal q) = false
component_eq cur_dir root_dir = false
component_eq cur_dir cur_dir = true
component_eq cur_dir parent_dir = false
component_eq cur_dir (normal q) = false
component_eq parent_dir root_dir = false
component_eq parent_dir cur_dir = false
component_eq parent_dir parent_dir = true
component_eq parent_dir (normal q) = false
component_eq (normal p) root_dir = false
component_eq (normal p) cur_dir = false
component_eq (normal p) parent_dir = false
component_eq (normal p) (normal q) = str_eq p q

-- `starts_with`, by components.
abbrev pub path_starts : List Component → List Component → Bool
path_starts base [] = is_empty base
path_starts [] (c ∷ path) = true
path_starts (b ∷ base) (c ∷ path) = component_eq b c && path_starts base path

abbrev pub push_all : List Component → List Bytes → List Component
push_all path [] = path
push_all path (part ∷ parts) = push_all (push path part) parts
