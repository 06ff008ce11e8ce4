-- ===== src/Storage/Metadata.antt =====
-- src/storage/metadata.rs: the metadata of one version of an object, as each disk keeps it.
use abixio.Base.{
  ℕ, ◌-◌, Bool, true, false, not, ◌&&◌, Option, none, some, List, [], ◌∷◌, Bytes, ◌==◌, length,
  is_empty, str_eq, str_has_eq, all,
}
use abixio.Base.Keyed.{get}

pub record ErasureMeta : Type 0 where
  pub ftt : ℕ
  pub index : ℕ
  pub epoch_id : ℕ
  pub volume_ids : List Bytes

-- `volume_ids.len() - ftt`, in metadata that names at least `ftt` volumes.
unfoldable pub data_shards : ErasureMeta → ℕ
data_shards e = length e.volume_ids - e.ftt

unfoldable pub parity_shards : ErasureMeta → ℕ
parity_shards e = e.ftt

pub record PartEntry : Type 0 where
  pub number : ℕ
  pub size : ℕ
  pub etag : Bytes
  pub erasure : ErasureMeta
  pub checksum : Bytes

pub record ObjectMeta : Type 0 where
  pub size : ℕ
  pub etag : Bytes
  pub content_type : Bytes
  pub created_at : ℕ
  pub erasure : ErasureMeta
  pub checksum : Bytes
  pub user_metadata : List (Bytes × Bytes)
  pub tags : List (Bytes × Bytes)
  pub version_id : Bytes
  pub is_latest : Bool
  pub is_delete_marker : Bool
  pub parts : List PartEntry
  pub inline_data : Option Bytes

unfoldable pub is_multipart : ObjectMeta → Bool
is_multipart m = not (is_empty m.parts)

pub record ObjectInfo : Type 0 where
  pub bucket : Bytes
  pub key : Bytes
  pub size : ℕ
  pub etag : Bytes
  pub content_type : Bytes
  pub created_at : ℕ
  pub user_metadata : List (Bytes × Bytes)
  pub tags : List (Bytes × Bytes)
  pub version_id : Bytes
  pub is_delete_marker : Bool

pub record PutOptions : Type 0 where
  pub content_type : Bytes
  pub user_metadata : List (Bytes × Bytes)
  pub tags : List (Bytes × Bytes)
  pub ec_ftt : Option ℕ
  pub precomputed_etag : Option Bytes
  pub skip_md5 : Bool

-- Equality of two maps from texts to texts: as many entries, and the same value for each key.
abbrev pub map_eq : List (Bytes × Bytes) → List (Bytes × Bytes) → Bool
map_eq xs ys =
    (length xs == length ys)
    && all (λ (entry : Bytes × Bytes). has_value (get entry.0 ys) entry.1) xs
  where
    has_value : Option Bytes → Bytes → Bool
    has_value none v = false
    has_value (some w) v = str_eq v w

abbrev pub ids_eq : List Bytes → List Bytes → Bool
ids_eq [] [] = true
ids_eq [] (y ∷ ys) = false
ids_eq (x ∷ xs) [] = false
ids_eq (x ∷ xs) (y ∷ ys) = str_eq x y && ids_eq xs ys

unfoldable pub quorum_eq : ObjectMeta → ObjectMeta → Bool
unfolding get
quorum_eq a b =
    (a.size == b.size)
    && str_eq a.etag b.etag
    && str_eq a.content_type b.content_type
    && (a.created_at == b.created_at)
    && (a.erasure.ftt == b.erasure.ftt)
    && (a.erasure.epoch_id == b.erasure.epoch_id)
    && ids_eq a.erasure.volume_ids b.erasure.volume_ids
    && map_eq a.user_metadata b.user_metadata
    && map_eq a.tags b.tags
