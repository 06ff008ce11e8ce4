-- ===== src/Storage/Pool/Tests.antt =====
-- Quorums on small pools.
use abixio.Base.{
  ℕ, ◌+◌, ◌≤◌, ◌<◌, ◌≡◌, refl, arith, true, false, none, some, List, [], ◌∷◌, Bytes, ok, err,
  length,
}
use abixio.Storage.{invalid_config, write_quorum, bucket_exists}
use abixio.Storage.Metadata.{PutOptions}
use abixio.Storage.Pathing.{validate_bucket_name, validate_object_key, validate_key_segments}
use abixio.Storage.Pool.{
  ftt_to_ec, bucket_ec, Deletion, deleted, absent, failed, count_done, delete_answers,
  delete_object, make_bucket, set_ftt, head_bucket, read_ec_from_meta,
}
use abixio.Storage.Pool.Quorums.{
  IsFull, bucket_ec-IsFull, delete_answers_done, delete_answers_leaves,
}
use abixio.Cluster.Placement.{PlacementPlanner}

abbrev no_text : ℕ → ℕ → Bytes
no_text a b = []

abbrev plain_options : PutOptions
plain_options = record {
  content_type = [];
  user_metadata = [];
  tags = [];
  ec_ftt = some 1;
  precomputed_etag = none;
  skip_md5 = false;
}

abbrev three_disks : PlacementPlanner
three_disks = record {
  epoch_id = 1;
  cluster_id = [];
  disks =
      record { backend_index = 0; node_id = []; volume_id = 1 ∷ [] }
      ∷ record { backend_index = 1; node_id = []; volume_id = 2 ∷ [] }
      ∷ record { backend_index = 2; node_id = []; volume_id = 3 ∷ [] }
      ∷ [];
}

abbrev text_hash : Bytes → Bytes
text_hash text = text

abbrev one_byte : ℕ → Bytes
one_byte n = n ∷ []

ftt_too_large : ftt_to_ec no_text no_text 3 3 ≡ err (invalid_config [])
unfolding ftt_to_ec
ftt_too_large = refl

-- An invalid setting of the first disk is passed over.
second_setting : bucket_ec no_text no_text 4 (some 9 ∷ none ∷ some 2 ∷ []) ≡ (2, 2)
unfolding bucket_ec ftt_to_ec
second_setting = refl

bucket_is_there :
    make_bucket no_text no_text (98 ∷ 49 ∷ []) (false ∷ true ∷ []) [] [] (none ∷ none ∷ []) []
    ≡ err bucket_exists
unfolding make_bucket validate_bucket_name
bucket_is_there = refl

-- A new bucket gets the default on the disk whose write succeeds.
bucket_is_new :
    make_bucket no_text no_text
      (98 ∷ 49 ∷ [])
      (false ∷ false ∷ [])
      (true ∷ false ∷ [])
      (true ∷ false ∷ [])
      (none ∷ none ∷ [])
      (true ∷ false ∷ [])
    ≡ ok (some 1 ∷ none ∷ [])
unfolding make_bucket validate_bucket_name set_ftt head_bucket ftt_to_ec
bucket_is_new = refl

delete_too_few :
    delete_object no_text no_text
      (98 ∷ 49 ∷ [])
      (97 ∷ [])
      false
      []
      (some 1 ∷ [])
      (deleted ∷ failed ∷ failed ∷ [])
    ≡ err write_quorum
unfolding delete_object delete_answers validate_bucket_name validate_object_key
    validate_key_segments read_ec_from_meta bucket_ec ftt_to_ec
delete_too_few = refl

bucket_ec-IsFull_example : IsFull 3 (bucket_ec no_text no_text 3 (some 2 ∷ []))
bucket_ec-IsFull_example = bucket_ec-IsFull no_text no_text 3 (some 2 ∷ []) (omega arith)

two_of_three : delete_answers (2, 1) false (deleted ∷ absent ∷ deleted ∷ []) ≡ ok tt
unfolding delete_answers
two_of_three = refl

delete_answers_done_example : 3 < 3 + 2
delete_answers_done_example =
    delete_answers_done 2 1 (deleted ∷ absent ∷ deleted ∷ []) (omega arith) (omega arith) refl
      two_of_three

delete_answers_leaves_example :
    (answers : List Deletion) × (length answers ≡ 5)
    × (delete_answers (2, 3) false answers ≡ ok tt)
    × (count_done answers + 2 ≤ length answers)
delete_answers_leaves_example = delete_answers_leaves 2 3 (omega arith) (omega arith)
