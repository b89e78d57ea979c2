-- ===== src/Core/Artifacts.antt =====
-- core/artifacts.py, `ArtifactRecord`: its checks, its dictionary, and `from_dict`.
pub mod Store
pub mod Records
pub mod Integrity
pub mod Publication
pub mod Roundtrip
pub mod Answers
pub mod Again
use molly.Prelude.{
  ℕ, String, Bool, true, false, not, ◌||◌, Option, none, some, ◌==◌, any, nat_eq, if◌then◌else◌,
  Result, ok, err, ◌>>=◌, ◌>>◌, require, refuse, rethrow, or_raise, core_contract, python_error,
  artifact_integrity,
}
use molly.Core.Json.{
  Json, Fields, null, bool, int, float, str, obj, end, field, get, optional, codes,
}
use molly.Core.Host.{Host}
use molly.Core.Ids.{
  validate_identifier, validate_artifact_id, validate_sha256, artifact_id_for_sha256,
  normalize_timestamp,
}
use molly.Core.Ledger.{check_optional}
use molly.Core.Values.{text_of, required_text, optional_text}

pub record ArtifactRecord : Type 0 where
  pub artifact_id : String
  pub sha256 : String
  pub media_type : String
  pub schema_name : Option String
  pub schema_version : Option String
  pub size_bytes : ℕ
  pub stored_at : String

-- `any(char in text for char in "\r\n\x00")`
abbrev pub has_control : String → Bool
has_control text = any (λ c. nat_eq c 13 || nat_eq c 10 || nat_eq c 0) (codes text)

-- `not text.strip()`
abbrev pub is_blank : Host → String → Bool
is_blank h text = h.strip text == ""

-- `ArtifactRecord.__post_init__`; the size is no negative number by its type.
unfoldable pub post_init : Host → ArtifactRecord → Result ArtifactRecord
post_init h r = do
  validate_artifact_id r.artifact_id
  validate_sha256 r.sha256
  derived ← artifact_id_for_sha256 r.sha256
  require (r.artifact_id == derived) core_contract
  refuse (is_blank h r.media_type) core_contract
  refuse (has_control r.media_type) core_contract
  check_optional validate_identifier r.schema_name
  check_optional validate_identifier r.schema_version
  time ← normalize_timestamp h r.stored_at
  ok (record r { stored_at = time })

unfoldable pub to_dict : ArtifactRecord → Fields
to_dict r = field "artifact_id" (str r.artifact_id) (
    field "sha256" (str r.sha256) (
      field "media_type" (str r.media_type) (
        field "schema_name" (optional r.schema_name) (
          field "schema_version" (optional r.schema_version) (
            field "size_bytes" (int false r.size_bytes)
              (field "stored_at" (str r.stored_at) end))))))

-- `value.get(key)`, or `value[old_key]` where that is `None`
abbrev given_or : String → String → Fields → Result Json
given_or key old_key value = elim (get key value) [
  | none ↦ or_raise (get old_key value) python_error
  | some null ↦ or_raise (get old_key value) python_error
  | some v ↦ ok v
]

-- `int(value)`, where a negative number is refused in the end
abbrev size_of : Host → Json → Result ℕ
size_of h (int false n) = ok n
size_of h (int true n) = if nat_eq n 0 then ok 0 else err core_contract
size_of h (bool b) = ok (if b then 1 else 0)
size_of h v = or_raise (h.int_of v) python_error

-- The keyword arguments that `from_dict` collects.
unfoldable pub record_of_fields : Host → Fields → Result ArtifactRecord
record_of_fields h value = do
  digest ← given_or "sha256" "content_sha256" value
  given_size ← given_or "size_bytes" "size" value
  artifact_id ← required_text h value "artifact_id"
  media ← required_text h value "media_type"
  size ← size_of h given_size
  time ← required_text h value "stored_at"
  ok (record {
    artifact_id = artifact_id;
    sha256 = text_of h digest;
    media_type = media;
    schema_name = optional_text h value "schema_name";
    schema_version = optional_text h value "schema_version";
    size_bytes = size;
    stored_at = time;
  })

unfoldable pub from_dict : Host → Json → Result ArtifactRecord
unfolding record_of_fields post_init
from_dict h (obj value) = rethrow (record_of_fields h value >>= post_init h) artifact_integrity
from_dict h _ = err artifact_integrity
