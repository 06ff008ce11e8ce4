-- ===== src/Storage/Pathing/Keys.antt =====
-- src/storage/pathing.rs: a valid name stays under the root, and where keys share directories.
use abixio.Base.{
  ℕ, ◌≡◌, refl, sym, ap, ◌∙◌, arith, Bool, true, List, [], ◌∷◌, ◌++◌, map, Bytes, ◌==◌, all,
  str_eq_refl, ==_iff, Bool-cases, inl, inr, Result, ok,
}
use mathlib.Core.List.{
  append_assoc, append-nil, append_cancel_left, head-eq_of_cons-eq, tail-eq_of_cons-eq,
}
use abixio.Storage.{StorageError}
use abixio.Storage.Pathing.{
  Component, normal, root_dir, cur_dir, parent_dir, split_at, split, normalize_from, normalize_path,
  component_eq, path_starts, push_all, validate_bucket_name, validate_object_key,
}
use abixio.Storage.Pathing.Names.{is_name, push-name, key_names, bucket_name}
use abixio.Storage.Pathing.Join.{safe_join, object_dir}

component_eq_refl : (c : Component) → component_eq c c ≡ true
component_eq_refl root_dir = refl
component_eq_refl cur_dir = refl
component_eq_refl parent_dir = refl
component_eq_refl (normal part) = str_eq_refl part

path_starts-append : (base path : List Component) → path_starts base (base ++ path) ≡ true
path_starts-append [] [] = refl
path_starts-append [] (c ∷ path) = refl
path_starts-append (b ∷ base) path = rw (component_eq_refl b, path_starts-append base path) refl

normalize_from-append :
    (acc xs ys : List Component)
    → normalize_from acc (xs ++ ys) ≡ normalize_from (normalize_from acc xs) ys
unfolding normalize_from
normalize_from-append acc [] ys = refl
normalize_from-append acc (root_dir ∷ xs) ys = normalize_from-append (root_dir ∷ []) xs ys
normalize_from-append acc (cur_dir ∷ xs) ys = normalize_from-append acc xs ys
normalize_from-append acc (parent_dir ∷ xs) ys = normalize_from-append _ xs ys
normalize_from-append acc (normal part ∷ xs) ys =
    normalize_from-append (acc ++ (normal part ∷ [])) xs ys

normalize_from-names :
    (acc : List Component) (parts : List Bytes)
    → normalize_from acc (map normal parts) ≡ acc ++ map normal parts
unfolding normalize_from
normalize_from-names acc [] = sym (append-nil acc)
normalize_from-names acc (part ∷ parts) =
    normalize_from-names (acc ++ (normal part ∷ [])) parts
    ∙ append_assoc acc (normal part ∷ []) (map normal parts)

push_all-names :
    (path : List Component) (parts : List Bytes)
    → all is_name parts ≡ true
    → push_all path parts ≡ path ++ map normal parts
push_all-names path [] h = sym (append-nil path)
push_all-names path (part ∷ parts) h = rw (push-name path part (ground arith)) (
    push_all-names (path ++ (normal part ∷ [])) parts (ground arith)
    ∙ append_assoc path (normal part ∷ []) (map normal parts))

module _ (text_of : List Component → Bytes) (is_uuid : Bytes → Bool) where
  -- Ordinary parts are joined under the normalized root.
  safe_join-names :
      (root : List Component) (parts : List Bytes)
      → all is_name parts ≡ true
      → safe_join text_of is_uuid root parts ≡ ok (normalize_path root ++ map normal parts)
  unfolding safe_join normalize_path
  safe_join-names root parts h =
      let joined : normalize_from [] (push_all root parts)
          ≡ normalize_from [] root ++ map normal parts =
        ap (normalize_from []) (push_all-names root parts h)
        ∙ normalize_from-append [] root (map normal parts)
        ∙ normalize_from-names (normalize_from [] root) parts in
      rw (joined, path_starts-append (normalize_from [] root) (map normal parts)) refl

  -- The directory of a valid object is under the normalized root, and below it stand the bucket and the
  -- segments of the key, each an ordinary name: validation leaves nothing for `safe_join` to refuse.
  pub object_dir_lem :
      (root : List Component) (bucket key : Bytes)
      → validate_bucket_name bucket ≡ ok tt
      → validate_object_key key ≡ ok tt
      → (object_dir text_of is_uuid root bucket key
          ≡ ok (normalize_path root ++ map normal (bucket ∷ split 47 key)))
        × (all is_name (bucket ∷ split 47 key) ≡ true)
  unfolding object_dir
  object_dir_lem root bucket key hb hk =
      let names : all is_name (bucket ∷ split 47 key) ≡ true =
        rw (bucket_name bucket hb, key_names key hk) refl in
      (rw (hb, hk) (safe_join-names root (bucket ∷ split 47 key) names), names)

split_at-append :
    (key rest : Bytes)
    → split_at 47 (key ++ (47 ∷ rest)) ≡ ((split_at 47 key).0, (split_at 47 key).1 ++ split 47 rest)
split_at-append [] rest = refl
split_at-append (b ∷ key) rest = elim (Bool-cases (b == 47)) [
  | inl slash ↦ rw (slash, split_at-append key rest) refl
  | inr other ↦ rw (other, split_at-append key rest) refl
]

-- The pieces joined again.
abbrev joined : Bytes → List Bytes → Bytes
joined piece [] = piece
joined piece (next ∷ pieces) = piece ++ (47 ∷ joined next pieces)

joined-push_front :
    (b : ℕ) (piece : Bytes) (pieces : List Bytes)
    → joined (b ∷ piece) pieces ≡ b ∷ joined piece pieces
joined-push_front b piece [] = refl
joined-push_front b piece (next ∷ pieces) = refl

joined-split_at : (text : Bytes) → joined (split_at 47 text).0 (split_at 47 text).1 ≡ text
joined-split_at [] = refl
joined-split_at (b ∷ text) = elim (Bool-cases (b == 47)) [
  | inl slash ↦
      let same : 47 ≡ b = sym ((==_iff b 47).0 slash) in
      rw slash (ap (λ t. 47 ∷ t) (joined-split_at text) ∙ ap (λ x. x ∷ text) same)
  | inr other ↦ rw other (
      joined-push_front b (split_at 47 text).0 (split_at 47 text).1
      ∙ ap (λ t. b ∷ t) (joined-split_at text))
]

abbrev joined_all : List Bytes → Bytes
joined_all [] = []
joined_all (piece ∷ pieces) = joined piece pieces

names_eq : (xs ys : List Bytes) → map normal xs ≡ map normal ys → xs ≡ ys
names_eq [] [] h = refl
names_eq [] (y ∷ ys) h = cc
names_eq (x ∷ xs) [] h = cc
names_eq (x ∷ xs) (y ∷ ys) h =
    let first : x ≡ y = cc in rw (first, names_eq xs ys (tail-eq_of_cons-eq h)) refl

module _ (text_of : List Component → Bytes) (is_uuid : Bytes → Bool) (root : List Component) where
  -- Two valid objects that are kept in one directory are the same object.
  pub object_dir-injective :
      (b c k l : Bytes)
      → validate_bucket_name b ≡ ok tt
      → validate_bucket_name c ≡ ok tt
      → validate_object_key k ≡ ok tt
      → validate_object_key l ≡ ok tt
      → object_dir text_of is_uuid root b k ≡ object_dir text_of is_uuid root c l
      → (b ≡ c) × (k ≡ l)
  object_dir-injective b c k l hb hc hk hl h =
      let (p, _) = object_dir_lem text_of is_uuid root b k hb hk in
      let (q, _) = object_dir_lem text_of is_uuid root c l hc hl in
      let same : normalize_path root ++ map normal (b ∷ split 47 k)
          ≡ normalize_path root ++ map normal (c ∷ split 47 l) =
        ok_of (sym p ∙ h ∙ q) in
      let parts : b ∷ split 47 k ≡ c ∷ split 47 l =
        names_eq _ _ (append_cancel_left (normalize_path root) _ _ same) in
      (
        head-eq_of_cons-eq parts,
        sym (joined-split_at k) ∙ ap joined_all (tail-eq_of_cons-eq parts) ∙ joined-split_at l,
      )
    where
      ok_of :
          {x y : List Component}
          → ◌≡◌ {A = Result StorageError (List Component)} (ok x) (ok y)
          → x ≡ y
      ok_of h = cc

  -- The directory of an object whose key is another valid key, a slash and more lies inside the directory of
  -- that other object.
  pub object_dir-nested :
      (bucket key rest : Bytes) (dir : List Component)
      → validate_bucket_name bucket ≡ ok tt
      → validate_object_key key ≡ ok tt
      → validate_object_key (key ++ (47 ∷ rest)) ≡ ok tt
      → object_dir text_of is_uuid root bucket key ≡ ok dir
      → object_dir text_of is_uuid root bucket (key ++ (47 ∷ rest))
        ≡ ok (dir ++ map normal (split 47 rest))
  object_dir-nested bucket key rest dir hb hk hn h =
      let (p, _) = object_dir_lem text_of is_uuid root bucket key hb hk in
      let (q, _) = object_dir_lem text_of is_uuid root bucket (key ++ (47 ∷ rest)) hb hn in
      let dir_is : normalize_path root ++ map normal (bucket ∷ split 47 key) ≡ dir =
        ok_of (sym p ∙ h) in
      q
      ∙ ap ok (
          ap (λ (t : Bytes × List Bytes). normalize_path root ++ map normal (bucket ∷ t.0 ∷ t.1))
            (split_at-append key rest)
          ∙ ap (λ t. normalize_path root ++ t) (map_names (bucket ∷ split 47 key) (split 47 rest))
          ∙ sym (
              append_assoc (normalize_path root) (map normal (bucket ∷ split 47 key))
                (map normal (split 47 rest)))
          ∙ ap (λ t. t ++ map normal (split 47 rest)) dir_is)
    where
      ok_of :
          {x y : List Component}
          → ◌≡◌ {A = Result StorageError (List Component)} (ok x) (ok y)
          → x ≡ y
      ok_of h = cc

      map_names : (xs ys : List Bytes) → map normal (xs ++ ys) ≡ map normal xs ++ map normal ys
      map_names [] ys = refl
      map_names (x ∷ xs) ys = ap (λ t. normal x ∷ t) (map_names xs ys)

-- White space around the name of a bucket is not refused: the name is trimmed for the checks alone.
pub validate_bucket_name_space :
    (bucket : Bytes) → validate_bucket_name (32 ∷ bucket) ≡ validate_bucket_name bucket
unfolding validate_bucket_name
validate_bucket_name_space bucket = refl
