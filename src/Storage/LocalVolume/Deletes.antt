-- ===== src/Storage/LocalVolume/Deletes.antt =====
-- src/storage/local_volume.rs with src/storage/pathing.rs: what the deletion of an object takes along.
use abixio.Base.{
  ◌≡◌, refl, sym, ap, ◌∙◌, arith, Bool, true, false, List, [], ◌∷◌, ◌++◌, map, Bytes, any,
  Bool-cases, inl, inr, Result, ok, err, >>=-eq_ok,
}
use abixio.Storage.{StorageError, object_not_found}
use abixio.Storage.Pathing.{
  Component, normal, split, path_starts, validate_bucket_name, validate_object_key,
}
use abixio.Storage.Pathing.Join.{object_dir}
use abixio.Storage.Pathing.Keys.{object_dir-nested}
use abixio.Storage.LocalVolume.{Files, is_inside, is_dir, remove_dir_all, delete_file_tier}

path_starts-outer :
    (dir inner path : List Component)
    → path_starts (dir ++ inner) path ≡ true
    → path_starts dir path ≡ true
path_starts-outer [] inner [] h = refl
path_starts-outer [] inner (c ∷ path) h = refl
path_starts-outer (d ∷ dir) inner [] h = h
path_starts-outer (d ∷ dir) inner (c ∷ path) h =
    ground (arith, path_starts-outer dir inner path (ground arith))

none_inside :
    (dir inner : List Component) (files : Files)
    → any (is_inside (dir ++ inner)) (remove_dir_all dir files) ≡ false
none_inside dir inner [] = refl
none_inside dir inner ((path, bytes) ∷ files) = elim (Bool-cases (path_starts dir path)) [
  | inl inside ↦ rw inside (none_inside dir inner files)
  | inr outside ↦ elim (Bool-cases (path_starts (dir ++ inner) path)) [
    | inl deep ↦
        let inside : path_starts dir path ≡ true = path_starts-outer dir inner path deep in cc
    | inr apart ↦ rw (outside, apart) (none_inside dir inner files)
  ]
]

module _ (text_of : List Component → Bytes) (is_uuid : Bytes → Bool) (root : List Component) where
  -- When an object is deleted from the files of a volume, every object whose key is that of the deleted one, a
  -- slash and more loses all its files too, although it was not deleted, provided that the names of the bucket and of
  -- both keys are valid.
  pub delete_file_tier-nested :
      (bucket key rest : Bytes) (inner : List Component) (files left : Files)
      → validate_bucket_name bucket ≡ ok tt
      → validate_object_key key ≡ ok tt
      → validate_object_key (key ++ (47 ∷ rest)) ≡ ok tt
      → object_dir text_of is_uuid root bucket (key ++ (47 ∷ rest)) ≡ ok inner
      → delete_file_tier text_of is_uuid root bucket key files ≡ ok left
      → any (is_inside inner) left ≡ false
  unfolding delete_file_tier
  delete_file_tier-nested bucket key rest inner files left hb hk hn at deleted =
      let (dir, found, removed) =
        >>=-eq_ok (object_dir text_of is_uuid root bucket key) _ deleted in
      let below : inner ≡ dir ++ map normal (split 47 rest) =
        ok_of
          (sym at ∙ object_dir-nested text_of is_uuid root bucket key rest dir hb hk hn found) in
      elim (Bool-cases (is_dir dir files)) [
        | inl there ↦
            let rest_is : remove_dir_all dir files ≡ left = ok_of (rw there at removed) in
            ap (λ (l : Files). any (is_inside inner) l) (sym rest_is)
            ∙ ap (λ (d : List Component). any (is_inside d) (remove_dir_all dir files)) below
            ∙ none_inside dir (map normal (split 47 rest)) files
        | inr missing ↦
            let refused : ◌≡◌ {A = Result StorageError Files} (err object_not_found) (ok left) =
              rw missing at removed in
            cc
      ]
    where
      ok_of : {A : Type 0} {x y : A} → ◌≡◌ {A = Result StorageError A} (ok x) (ok y) → x ≡ y
      ok_of h = cc
