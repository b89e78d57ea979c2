-- ===== src/Core/Reviews.antt =====
-- core/reviews.py: `ReviewRecord`, one human decision on one artifact.
pub mod Codec
pub mod Binding
use molly.Prelude.{
  String, Bool, false, ◌&&◌, Option, none, some, [], ◌∷◌, ◌==◌, contains, if◌then◌else◌, Result, ok,
  err, ◌>>=◌, ◌>>◌, require, refuse, rethrow, review_error, review_binding, python_error,
}
use molly.Core.Json.{Json, Fields, str, null, obj, end, field, get}
use molly.Core.Host.{Host}
use molly.Core.Dumps.{json_sha256}
use molly.Core.Ids.{
  validate_identifier, validate_artifact_id, validate_sha256, artifact_id_for_sha256,
  normalize_timestamp,
}
use molly.Core.Values.{text_of, required_text}
use molly.Core.Artifacts.{ArtifactRecord, has_control, is_blank}
use molly.Core.Lineage.Graph.{or_default}

-- `ReviewDecision`
pub data ReviewDecision : Type 0 where
  approved rejected needs_revision : ReviewDecision

abbrev pub decision_text : ReviewDecision → String
decision_text approved = "APPROVED"
decision_text rejected = "REJECTED"
decision_text needs_revision = "NEEDS_REVISION"

-- `REVIEW_DECISIONS`
abbrev pub is_review_decision : String → Bool
is_review_decision value =
    contains (decision_text approved ∷ decision_text rejected ∷ decision_text needs_revision ∷ [])
      value

-- `_decision_value`, of the text of an `Enum` too
unfoldable pub decision_value : Host → String → Result String
decision_value h candidate =
    let normalized = h.upper (h.strip candidate) in
    if is_review_decision normalized then ok normalized else err review_error

pub record ReviewRecord : Type 0 where
  pub review_id : String
  pub artifact_id : String
  pub artifact_sha256 : String
  pub decision : String
  pub reviewer : String
  pub reason : String
  pub created_at : String
  pub review_schema_version : String

-- `ReviewRecord.__post_init__`
unfoldable pub post_init : Host → ReviewRecord → Result ReviewRecord
unfolding decision_value
post_init h r = do
  validate_identifier r.review_id
  validate_artifact_id r.artifact_id
  validate_sha256 r.artifact_sha256
  derived ← artifact_id_for_sha256 r.artifact_sha256
  require (r.artifact_id == derived) review_error
  decision ← decision_value h r.decision
  refuse (is_blank h r.reviewer) review_error
  refuse (has_control r.reviewer) review_error
  validate_identifier r.review_schema_version
  time ← normalize_timestamp h r.created_at
  ok (record r { decision = decision; created_at = time })

unfoldable pub to_dict : ReviewRecord → Fields
to_dict r = field "review_id" (str r.review_id) (
    field "artifact_id" (str r.artifact_id) (
      field "artifact_sha256" (str r.artifact_sha256) (
        field "decision" (str r.decision) (
          field "reviewer" (str r.reviewer) (
            field "reviewer_ref" (str r.reviewer) (
              field "reason" (str r.reason) (
                field "notes" (str r.reason) (
                  field "created_at" (str r.created_at)
                    (field "review_schema_version" (str r.review_schema_version) end)))))))))

-- `digest`
unfoldable pub review_digest : Host → ReviewRecord → Result String
review_digest h r = json_sha256 h (obj (to_dict r))

-- `for_artifact`, with the clock
unfoldable pub for_artifact :
    Host
    → ArtifactRecord
    → String
    → String
    → String
    → String
    → Option String
    → String
    → String
    → Result ReviewRecord
for_artifact h artifact review_id decision reviewer reason created_at version now =
    post_init h (record {
      review_id = review_id;
      artifact_id = artifact.artifact_id;
      artifact_sha256 = artifact.sha256;
      decision = decision;
      reviewer = reviewer;
      reason = reason;
      created_at = or_default created_at now;
      review_schema_version = version;
    })

-- What `matches` is asked about: a record, or an identity with perhaps a digest.
pub data Subject : Type 0 where
  stored : ArtifactRecord → Subject
  named : String → Option String → Subject

unfoldable pub matches : ReviewRecord → Subject → Bool
matches r (stored a) = r.artifact_id == a.artifact_id && r.artifact_sha256 == a.sha256
matches r (named id none) = false
matches r (named id (some digest)) = r.artifact_id == id && r.artifact_sha256 == digest

unfoldable pub assert_matches : ReviewRecord → Subject → Result (Unit {0})
unfolding matches
assert_matches r subject = require (matches r subject) review_binding

-- `value.get(key, value.get(other, default))`
abbrev pub either_or : String → String → Json → Fields → Json
either_or key other default value = elim (get key value) [
  | some v ↦ v
  | none ↦ elim (get other value) [ some v ↦ v | none ↦ default ]
]

-- `value["decision"]`, which the constructor wants to be a text
abbrev pub decision_at : Fields → Result String
decision_at value = elim (get "decision" value) [
  | some (str decision) ↦ ok decision
  | _ ↦ err python_error
]

-- The keyword arguments that `from_dict` collects.
unfoldable pub review_of_fields : Host → Fields → Result ReviewRecord
review_of_fields h value = do
  let reviewer = either_or "reviewer" "reviewer_ref" null value
  let reason = either_or "reason" "notes" (str "") value
  review_id ← required_text h value "review_id"
  artifact_id ← required_text h value "artifact_id"
  digest ← required_text h value "artifact_sha256"
  decision ← decision_at value
  time ← required_text h value "created_at"
  ok (record {
    review_id = review_id;
    artifact_id = artifact_id;
    artifact_sha256 = digest;
    decision = decision;
    reviewer = text_of h reviewer;
    reason = text_of h reason;
    created_at = time;
    review_schema_version =
        text_of h (elim (get "review_schema_version" value) [ none ↦ str "1" | some v ↦ v ]);
  })

unfoldable pub from_dict : Host → Json → Result ReviewRecord
unfolding review_of_fields post_init
from_dict h (obj value) = rethrow (review_of_fields h value >>= post_init h) review_error
from_dict h _ = err review_error
