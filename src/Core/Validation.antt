-- ===== src/Core/Validation.antt =====
-- core/validation.py: `ValidationResult`, what one validator says of a set of subjects.
pub mod Codec
use molly.Prelude.{
  String, Option, none, some, List, [], ◌∷◌, contains, has_duplicates, if◌then◌else◌, Result, ok,
  err, ◌>>=◌, ◌>>◌, refuse, rethrow, or_raise, map_result, validation_contract, python_error, Bool,
  true, false,
}
use molly.Core.Json.{Json, Fields, str, lst, obj, end, field, get, strings}
use molly.Core.Host.{Host}
use molly.Core.Freeze.{freeze_json_mapping, thaw_fields}
use molly.Core.Dumps.{json_sha256}
use molly.Core.Ids.{
  validate_identifier, validate_reference, validate_artifact_ids, normalize_timestamp,
}
use molly.Core.Values.{text_of, required_text, tuple_of, tuple_at, dict_at}
use molly.Core.Reviews.{either_or}

-- `VALIDATION_SCOPES`
abbrev pub validation_scopes : List String
validation_scopes = "ARTIFACT" ∷ "RELATION" ∷ "BUNDLE" ∷ []

-- `VALIDATION_STATUSES`
abbrev pub validation_statuses : List String
validation_statuses = "PASS" ∷ "FAIL" ∷ "REVIEW" ∷ []

-- `_enum_value`, of the text of an `Enum` too
unfoldable pub enum_value : Host → List String → String → Result String
enum_value h allowed candidate =
    let normalized = h.upper (h.strip candidate) in
    if contains allowed normalized then ok normalized else err validation_contract

pub record ValidationResult : Type 0 where
  pub validator_id : String
  pub validator_version : String
  pub scope : String
  pub subject_ids : List String
  pub status : String
  pub reason : String
  pub evidence_artifact_ids : List String
  pub source_references : List String
  pub timestamp : String
  pub metadata : Fields

abbrev is_empty : List String → Bool
is_empty [] = true
is_empty (x ∷ xs) = false

-- The references of one field, which must not repeat.
unfoldable pub unique_references : Host → List String → Result (List String)
unique_references h values = do
  checked ← map_result (validate_reference h) values
  refuse (has_duplicates checked) validation_contract
  ok checked

-- The subjects, of which there is at least one.
unfoldable pub checked_subjects : Host → List String → Result (List String)
checked_subjects h values = do
  subjects ← map_result (validate_reference h) values
  refuse (is_empty subjects) validation_contract
  refuse (has_duplicates subjects) validation_contract
  ok subjects

-- `ValidationResult.__post_init__`
unfoldable pub post_init : Host → ValidationResult → Result ValidationResult
unfolding enum_value checked_subjects unique_references
post_init h r = do
  validate_identifier r.validator_id
  validate_identifier r.validator_version
  scope ← enum_value h validation_scopes r.scope
  status ← enum_value h validation_statuses r.status
  subjects ← checked_subjects h r.subject_ids
  evidence ← validate_artifact_ids r.evidence_artifact_ids
  references ← unique_references h r.source_references
  time ← normalize_timestamp h r.timestamp
  facts ← freeze_json_mapping h r.metadata
  ok (record r {
    scope = scope;
    status = status;
    subject_ids = subjects;
    evidence_artifact_ids = evidence;
    source_references = references;
    timestamp = time;
    metadata = facts;
  })

unfoldable pub to_dict : ValidationResult → Fields
to_dict r = field "validator_id" (str r.validator_id) (
    field "validator_version" (str r.validator_version) (
      field "scope" (str r.scope) (
        field "subject_ids" (lst (strings r.subject_ids)) (
          field "status" (str r.status) (
            field "reason" (str r.reason) (
              field "message" (str r.reason) (
                field "evidence_artifact_ids" (lst (strings r.evidence_artifact_ids)) (
                  field "source_references" (lst (strings r.source_references)) (
                    field "timestamp" (str r.timestamp)
                      (field "metadata" (obj (thaw_fields r.metadata)) end))))))))))

-- `digest`
unfoldable pub validation_digest : Host → ValidationResult → Result String
validation_digest h r = json_sha256 h (obj (to_dict r))

-- `value[key]`, which the constructor wants to be a text
abbrev text_at : Fields → String → Result String
text_at value key = elim (get key value) [ some (str text) ↦ ok text | _ ↦ err python_error ]

-- `tuple(value[key])`
abbrev required_tuple : Fields → String → Result (List String)
required_tuple value key = elim (get key value) [
  | none ↦ err python_error
  | some v ↦ or_raise (tuple_of v) python_error
]

-- The keyword arguments that `from_dict` collects.
unfoldable pub result_of_fields : Host → Fields → Result ValidationResult
result_of_fields h value = do
  let reason = either_or "reason" "message" (str "") value
  validator ← required_text h value "validator_id"
  version ← required_text h value "validator_version"
  scope ← text_at value "scope"
  subjects ← required_tuple value "subject_ids"
  status ← text_at value "status"
  evidence ← tuple_at value "evidence_artifact_ids"
  references ← tuple_at value "source_references"
  time ← required_text h value "timestamp"
  facts ← dict_at value "metadata"
  ok (record {
    validator_id = validator;
    validator_version = version;
    scope = scope;
    subject_ids = subjects;
    status = status;
    reason = text_of h reason;
    evidence_artifact_ids = evidence;
    source_references = references;
    timestamp = time;
    metadata = facts;
  })

unfoldable pub from_dict : Host → Json → Result ValidationResult
unfolding result_of_fields post_init
from_dict h (obj value) = rethrow (result_of_fields h value >>= post_init h) validation_contract
from_dict h _ = err validation_contract
