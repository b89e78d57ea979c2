-- ===== src/Tests/Reviews.antt =====
-- The properties of core/reviews.py and core/validation.py at concrete inputs.
use molly.Prelude.{String, ◌≡◌, refl, none, [], ◌∷◌, ok, ◌↔◌}
use molly.Core.Json.{Fields, str, obj, null, end, field}
use molly.Core.Freeze.{freeze_json, freeze_fields, freeze_items, sensitive_key, freeze_json_mapping}
use molly.Core.Ids.{
  concat, validate_identifier, validate_reference, validate_sha256, validate_artifact_id,
  validate_artifact_ids, remove_prefix, normalize_timestamp, z_to_offset, artifact_id_for_sha256,
}
use molly.Core.Artifacts
use molly.Core.Artifacts.{ArtifactRecord}
use molly.Core.Reviews
use molly.Core.Reviews.{ReviewRecord, stored, decision_value, assert_matches, review_of_fields}
use molly.Core.Reviews.Codec.{DecisionWords, review_from_dict-to_dict}
use molly.Core.Reviews.Binding.{assert_matches_iff, from_dict_unnamed}
use molly.Core.Validation
use molly.Core.Validation.{ValidationResult, enum_value, checked_subjects, unique_references}
use molly.Core.Validation.Codec.{ValidationWords, validation_from_dict-to_dict}
use molly.Tests.Machine.{machine, machine-IsoLaws, digest_a, noon}

abbrev identity : String
identity = "sha256:aaaaaaaaaaaaaaaaaaaaaaaaaaaaaaaaaaaaaaaaaaaaaaaaaaaaaaaaaaaaaaaa"

machine-DecisionWords : DecisionWords machine
machine-DecisionWords = record { word = λ d. refl }

abbrev review : String → ReviewRecord
review reviewer = record {
  review_id = "rev_1";
  artifact_id = identity;
  artifact_sha256 = digest_a;
  decision = "NEEDS_REVISION";
  reviewer = reviewer;
  reason = "units";
  created_at = noon;
  review_schema_version = "1";
}

checked_review : Reviews.post_init machine (review "alice") ≡ ok (review "alice")
unfolding Reviews.post_init decision_value artifact_id_for_sha256 concat validate_identifier
    validate_sha256 validate_artifact_id remove_prefix normalize_timestamp z_to_offset
checked_review = refl

review_from_dict-to_dict_example :
    Reviews.from_dict machine (obj (Reviews.to_dict (review "alice"))) ≡ ok (review "alice")
review_from_dict-to_dict_example =
    review_from_dict-to_dict machine machine-IsoLaws machine-DecisionWords (review "alice")
      (review "alice") checked_review

abbrev artifact : ArtifactRecord
artifact = record {
  artifact_id = identity;
  sha256 = digest_a;
  media_type = "text/csv";
  schema_name = none;
  schema_version = none;
  size_bytes = 3;
  stored_at = noon;
}

checked_artifact : Artifacts.post_init machine artifact ≡ ok artifact
unfolding Artifacts.post_init artifact_id_for_sha256 concat validate_identifier validate_sha256
    validate_artifact_id remove_prefix normalize_timestamp z_to_offset
checked_artifact = refl

assert_matches_iff_example :
    (assert_matches (review "alice") (stored artifact) ≡ ok tt) ↔ (digest_a ≡ digest_a)
assert_matches_iff_example =
    assert_matches_iff machine machine-IsoLaws machine-DecisionWords (review "alice")
      (review "alice") artifact artifact checked_review checked_artifact

abbrev unnamed : Fields
unnamed = field "review_id" (str "rev_1") (
    field "artifact_id" (str identity) (
      field "artifact_sha256" (str digest_a) (
        field "decision" (str "NEEDS_REVISION")
          (field "reason" (str "units") (field "created_at" (str noon) end)))))

read_named :
    Reviews.from_dict machine (obj (field "reviewer" (str "alice") unnamed)) ≡ ok (review "alice")
unfolding Reviews.from_dict review_of_fields Reviews.post_init decision_value artifact_id_for_sha256
    concat validate_identifier validate_sha256 validate_artifact_id remove_prefix
    normalize_timestamp z_to_offset
read_named = refl

from_dict_unnamed_example :
    Reviews.from_dict machine (obj unnamed) ≡ ok (review (machine.str_of null))
from_dict_unnamed_example =
    from_dict_unnamed machine unnamed "alice" (review "alice") refl refl refl refl read_named

machine-ValidationWords : ValidationWords machine
machine-ValidationWords = record { word = λ w k. refl }

abbrev validation : ValidationResult
validation = record {
  validator_id = "units";
  validator_version = "v1";
  scope = "ARTIFACT";
  subject_ids = identity ∷ [];
  status = "PASS";
  reason = "";
  evidence_artifact_ids = [];
  source_references = "doi:1" ∷ [];
  timestamp = noon;
  metadata = field "rows" (str "3") end;
}

checked_validation : Validation.post_init machine validation ≡ ok validation
unfolding Validation.post_init enum_value checked_subjects unique_references validate_identifier
    validate_reference validate_artifact_ids normalize_timestamp z_to_offset freeze_json_mapping
    freeze_fields freeze_items freeze_json sensitive_key
checked_validation = refl

validation_from_dict-to_dict_example :
    Validation.from_dict machine (obj (Validation.to_dict validation)) ≡ ok validation
validation_from_dict-to_dict_example =
    validation_from_dict-to_dict machine machine-IsoLaws machine-ValidationWords validation
      validation checked_validation
