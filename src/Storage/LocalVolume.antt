-- ===== src/Storage/LocalVolume.antt =====
-- src/storage/local_volume.rs: the deletion of an object in the files of a volume. The files are their paths and
-- bytes; `remove_dir_all` succeeds.
pub mod Deletes
mod Tests
use abixio.Base.{
  Bool, true, false, not, ◌||◌, List, [], ◌∷◌, Bytes, if◌then◌else◌, Result, ok, err, ◌>>=◌, any,
}
use abixio.Storage.{StorageError, object_not_found}
use abixio.Storage.Pathing.{Component, path_starts}
use abixio.Storage.Pathing.Join.{object_dir}

abbrev pub Files : Type 0
Files = List (List Component × Bytes)

-- Whether a file lies in a directory.
abbrev pub is_inside : List Component → List Component × Bytes → Bool
is_inside dir (path, bytes) = path_starts dir path

-- `is_dir`, for directories that are not empty.
abbrev pub is_dir : List Component → Files → Bool
is_dir dir files = any (is_inside dir) files

abbrev pub remove_dir_all : List Component → Files → Files
remove_dir_all dir [] = []
remove_dir_all dir (file ∷ files) =
    let rest = remove_dir_all dir files in if is_inside dir file then rest else file ∷ rest

module _ (text_of : List Component → Bytes) (is_uuid : Bytes → Bool) where
  -- `delete_object`, once the object is not pending in the log.
  unfoldable pub delete_file_tier :
      List Component → Bytes → Bytes → Files → Result StorageError Files
  unfolding object_dir
  delete_file_tier root bucket key files = object_dir text_of is_uuid root bucket key >>= λ dir.
      if is_dir dir files then ok (remove_dir_all dir files) else err object_not_found
