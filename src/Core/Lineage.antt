-- ===== src/Core/Lineage.antt =====
-- core/lineage.py, `LineageRelation`: its checks, its dictionary, its digest, and `from_dict`.
pub mod File
pub mod Graph
pub mod Methods
pub mod Codec
pub mod Sealing
pub mod Reading
pub mod Refinement
pub mod Publishing
pub mod Sessions
pub mod Memory
pub mod Wanted
pub mod Repeats
pub mod Keeping
pub mod Productions
pub mod Origins
use molly.Prelude.{
  String, Bool, [], ◌∷◌, Option, none, some, ◌==◌, contains, if◌then◌else◌, Result, ok, err, ◌>>=◌,
  ◌>>◌, rethrow, lineage_error, python_error,
}
use molly.Core.Json.{Json, Fields, str, obj, end, field, get, optional}
use molly.Core.Host.{Host}
use molly.Core.Freeze.{freeze_json_mapping, thaw_fields}
use molly.Core.Dumps.{json_sha256}
use molly.Core.Ids.{validate_identifier, validate_reference, validate_sha256, normalize_timestamp}
use molly.Core.Ledger.{check_optional}
use molly.Core.Values.{required_text, optional_text, dict_at}

pub data RelationType : Type 0 where
  consumed_by produced_by derived_from supported_by : RelationType

-- `RelationType.value`
abbrev pub relation_text : RelationType → String
relation_text consumed_by = "CONSUMED_BY"
relation_text produced_by = "PRODUCED_BY"
relation_text derived_from = "DERIVED_FROM"
relation_text supported_by = "SUPPORTED_BY"

-- `RELATION_TYPES`
abbrev pub is_relation_type : String → Bool
is_relation_type value =
    contains
      (relation_text consumed_by
        ∷ relation_text produced_by
        ∷ relation_text derived_from
        ∷ relation_text supported_by
        ∷ [])
      value

-- The argument of type `str | RelationType`.
pub data RelationName : Type 0 where
  member : RelationType → RelationName
  text : String → RelationName

-- `_relation_value`
unfoldable pub relation_value : Host → RelationName → Result String
relation_value h (member type) = ok (relation_text type)
relation_value h (text value) =
    let normalized = h.upper (h.strip value) in
    if is_relation_type normalized then ok normalized else err lineage_error

pub record LineageRelation : Type 0 where
  pub relation_type : String
  pub subject_id : String
  pub object_id : String
  pub relation_id : String
  pub created_at : String
  pub metadata : Fields
  pub previous_relation_sha256 : Option String
  pub relation_sha256 : Option String

-- `LineageRelation.__post_init__`
unfoldable pub post_init : Host → LineageRelation → Result LineageRelation
unfolding relation_value
post_init h r = do
  kind ← relation_value h (text r.relation_type)
  validate_identifier r.relation_id
  validate_reference h r.subject_id
  validate_reference h r.object_id
  time ← normalize_timestamp h r.created_at
  facts ← freeze_json_mapping h r.metadata
  rethrow (check_optional validate_sha256 r.previous_relation_sha256) lineage_error
  rethrow (check_optional validate_sha256 r.relation_sha256) lineage_error
  ok (record r { relation_type = kind; created_at = time; metadata = facts })

-- `to_dict`, with the entries after the metadata as an argument
abbrev pub relation_fields : LineageRelation → Fields → Fields
relation_fields r last = field "relation_type" (str r.relation_type) (
    field "subject_id" (str r.subject_id) (
      field "object_id" (str r.object_id) (
        field "relation_id" (str r.relation_id) (
          field "created_at" (str r.created_at) (
            field "metadata" (obj (thaw_fields r.metadata))
              (field "previous_relation_sha256" (optional r.previous_relation_sha256) last))))))

unfoldable pub to_dict : LineageRelation → Fields
to_dict r = relation_fields r (field "relation_sha256" (optional r.relation_sha256) end)

-- `to_dict(include_digest=False)`: the body that the digest covers
unfoldable pub body : LineageRelation → Fields
body r = relation_fields r end

unfoldable pub computed_sha256 : Host → LineageRelation → Result String
computed_sha256 h r = json_sha256 h (obj (body r))

-- `value["relation_type"]`, which the constructor wants to be a text
abbrev relation_type_at : Fields → Result String
relation_type_at value = elim (get "relation_type" value) [
  | some (str kind) ↦ ok kind
  | _ ↦ err python_error
]

-- The keyword arguments that `from_dict` collects.
unfoldable pub relation_of_fields : Host → Fields → Result LineageRelation
relation_of_fields h value = do
  kind ← relation_type_at value
  subject ← required_text h value "subject_id"
  target ← required_text h value "object_id"
  relation_id ← required_text h value "relation_id"
  time ← required_text h value "created_at"
  facts ← dict_at value "metadata"
  ok (record {
    relation_type = kind;
    subject_id = subject;
    object_id = target;
    relation_id = relation_id;
    created_at = time;
    metadata = facts;
    previous_relation_sha256 = optional_text h value "previous_relation_sha256";
    relation_sha256 = optional_text h value "relation_sha256";
  })

-- The digest test of `from_dict`.
unfoldable pub check_sealed : Host → LineageRelation → Result LineageRelation
check_sealed h relation = elim relation.relation_sha256 [
  | none ↦ err lineage_error
  | some recorded ↦ do
    computed ← computed_sha256 h relation
    if computed == recorded then ok relation else err lineage_error
]

unfoldable pub from_dict : Host → Json → Result LineageRelation
unfolding relation_of_fields check_sealed post_init
from_dict h (obj value) =
    rethrow (relation_of_fields h value >>= post_init h) lineage_error >>= check_sealed h
from_dict h _ = err lineage_error
