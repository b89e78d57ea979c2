-- ===== src/Tests/Artifacts.antt =====
-- The properties of core/artifacts.py at concrete inputs.
use molly.Prelude.{
  true, ℕ, String, ◌≡◌, refl, none, some, List, [], ◌∷◌, ok, err, bind, artifact_conflict,
}
use molly.Prelude.Actions.{◌>>=◌}
use molly.Core.Dumps.{canonical_json_bytes}
use molly.Core.Freeze.{
  freeze_json, freeze_fields, freeze_items, sensitive_key, thaw_json, thaw_fields,
}
use molly.Core.Ids.{
  concat, validate_identifier, validate_sha256, validate_artifact_id, remove_prefix,
  normalize_timestamp, z_to_offset, artifact_sha256, artifact_id_for_sha256,
}
use molly.Core.Artifacts.{ArtifactRecord, post_init, to_dict, record_of_fields, from_dict}
use molly.Core.Artifacts.Store.{
  missing, absent, links, Store, Request, prefix_of, publish_no_replace, media_of,
  read_verified_bytes, read_record, paths, ensure_directory, paths_created, assert_compatible,
  existing_record, requested, put_object, put_meta, put, verify, read,
}
use molly.Core.Artifacts.Publication.{Fills, put-Fills}
use molly.Core.Artifacts.Integrity.{read_integrity}
use molly.Core.Artifacts.Answers.{put_then_read}
use molly.Core.Artifacts.Again.{put_again}
use molly.Tests.Machine.{machine, machine-IsoLaws, digest_a, noon}

abbrev empty : Store
empty = record { folder = λ d. absent; object = λ d. missing; meta = λ d. missing }

abbrev with_media : String → Request
with_media media = record {
  media_type = some media;
  content_type = none;
  schema_name = none;
  schema_version = none;
  stored_at = some noon;
  now = noon;
  makes_folder = true;
  object_publication = links;
  meta_publication = links;
}

abbrev payload : List ℕ
payload = 1 ∷ 2 ∷ 3 ∷ []

abbrev identity : String
identity = "sha256:aaaaaaaaaaaaaaaaaaaaaaaaaaaaaaaaaaaaaaaaaaaaaaaaaaaaaaaaaaaaaaaa"

abbrev kept : String → ArtifactRecord
kept media = record {
  artifact_id = identity;
  sha256 = digest_a;
  media_type = media;
  schema_name = none;
  schema_version = none;
  size_bytes = 3;
  stored_at = noon;
}

abbrev after_put : Store
after_put = (put machine (with_media "text/csv") payload empty).1

published : (put machine (with_media "text/csv") payload empty).0 ≡ ok (kept "text/csv")
unfolding put requested media_of post_init artifact_id_for_sha256 paths_created ensure_directory
    put_object put_meta publish_no_replace existing_record read_record read_verified_bytes
    assert_compatible from_dict record_of_fields to_dict ◌>>=◌ concat validate_identifier
    validate_sha256 validate_artifact_id remove_prefix normalize_timestamp z_to_offset
    artifact_sha256 canonical_json_bytes freeze_json freeze_fields freeze_items sensitive_key
    thaw_json thaw_fields prefix_of
published = refl

asked : requested machine (with_media "text/plain") payload ≡ ok (kept "text/plain")
unfolding requested media_of post_init artifact_id_for_sha256 concat validate_sha256
    validate_artifact_id remove_prefix normalize_timestamp z_to_offset
asked = refl

put_then_read_example :
    (artifact_id_for_sha256 digest_a ≡ ok identity)
    × (verify machine identity after_put ≡ ok (kept "text/csv"))
    × (bytes : List ℕ) × (read machine identity after_put ≡ ok bytes)
    × (digest_a ≡ digest_a)
put_then_read_example =
    put_then_read machine machine-IsoLaws (with_media "text/csv") payload empty (kept "text/csv")
      published

read_back : read machine identity after_put ≡ ok payload
unfolding read verify paths put requested media_of post_init artifact_id_for_sha256 paths_created
    ensure_directory put_object put_meta publish_no_replace existing_record read_record
    read_verified_bytes assert_compatible from_dict record_of_fields to_dict ◌>>=◌ concat
    validate_identifier validate_sha256 validate_artifact_id remove_prefix normalize_timestamp
    z_to_offset artifact_sha256 canonical_json_bytes freeze_json freeze_fields freeze_items
    sensitive_key thaw_json thaw_fields prefix_of
read_back = refl

read_integrity_example :
    (artifact_id_for_sha256 digest_a ≡ ok identity)
    × (r : ArtifactRecord) × (verify machine identity after_put ≡ ok r)
    × (r.artifact_id ≡ identity)
    × (r.size_bytes ≡ 3)
read_integrity_example = read_integrity machine machine-IsoLaws identity after_put payload read_back

put-Fills_example : Fills empty after_put
put-Fills_example = put-Fills machine (with_media "text/csv") payload empty

-- Another media type for the same bytes is refused.
put_again_example :
    ((put machine (with_media "text/plain") payload after_put).0
      ≡ bind
          (assert_compatible machine (kept "text/csv") (kept "text/plain"))
          (λ _. ok (kept "text/csv")))
    × ((put machine (with_media "text/plain") payload after_put).1.object ≡ after_put.object)
    × ((put machine (with_media "text/plain") payload after_put).1.meta ≡ after_put.meta)
put_again_example =
    put_again machine machine-IsoLaws (with_media "text/csv") (with_media "text/plain") payload
      empty (kept "text/csv") (kept "text/plain") published asked

contradiction :
    assert_compatible machine (kept "text/csv") (kept "text/plain") ≡ err artifact_conflict
unfolding assert_compatible
contradiction = refl
