-- ===== src/Core/Tools/Spec.antt =====
-- core/tools.py: side-effect classes, schemas and `ToolSpec`.
use molly.Prelude.{
  ℕ, ◌*◌, String, Bool, false, ◌||◌, Option, none, some, List, [], ◌∷◌, ◌==◌, contains,
  if◌then◌else◌, Result, ok, err, ◌>>=◌, ◌>>◌, refuse, require, tool_contract, schema_validation,
  rethrow,
}
use molly.Core.Json.{
  Json, Items, Fields, null, bool, int, float, str, lst, tup, obj, opaque, nil, cons, end, field,
}
use molly.Core.Host.{Host}
use molly.Core.Freeze.{freeze_json_mapping, thaw_fields, thaw_json}
use molly.Core.Dumps.{canonical_json_bytes, json_sha256}
use molly.Core.Ids.{validate_identifier, validate_digest_reference}

abbrev pub side_effect_classes : List String
side_effect_classes =
    "PURE" ∷ "LOCAL_ARTIFACT" ∷ "NETWORK_READ" ∷ "EXTERNAL_WRITE" ∷ "REMOTE_COMPUTE" ∷ []

abbrev pub max_tool_result_data_bytes : ℕ
max_tool_result_data_bytes = 64 * 1024

unfoldable pub side_effect_value : Host → String → Result String
side_effect_value h value =
    let normalized = h.upper (h.strip value) in
    if contains side_effect_classes normalized then ok normalized else err tool_contract

abbrev is_reference_key : String → Bool
is_reference_key key = contains ("$ref" ∷ "$dynamicRef" ∷ "$recursiveRef" ∷ []) key

-- `_reject_external_schema_refs`: whether it raises
mutual
  has_reference : Json → Bool
  has_reference (obj fs) = field_has_reference fs
  has_reference (lst xs) = item_has_reference xs
  has_reference (tup xs) = item_has_reference xs
  has_reference null = false
  has_reference (bool b) = false
  has_reference (int s n) = false
  has_reference (float f x) = false
  has_reference (str s) = false
  has_reference opaque = false

  item_has_reference : Items → Bool
  item_has_reference nil = false
  item_has_reference (cons x xs) = has_reference x || item_has_reference xs

  field_has_reference : Fields → Bool
  field_has_reference end = false
  field_has_reference (field k v fs) =
      is_reference_key k || (has_reference v || field_has_reference fs)

unfoldable pub validated_schema : Host → Fields → Result Fields
unfolding has_reference
validated_schema h value = do
  refuse (has_reference (obj value)) tool_contract
  frozen ← freeze_json_mapping h value
  require (h.check_schema (obj (thaw_fields frozen))) tool_contract
  ok frozen

unfoldable pub validate_json_data : Host → Json → Result (Unit {0})
validate_json_data h value = rethrow (canonical_json_bytes h value) tool_contract >> ok tt

unfoldable pub validate_schema_data : Host → Fields → Json → Result (Unit {0})
validate_schema_data h schema value =
    require (h.conforms (obj (thaw_fields schema)) (thaw_json value)) schema_validation

pub record ToolSpec : Type 0 where
  pub name : String
  pub version : String
  pub description : String
  pub input_schema : Fields
  pub output_schema : Fields
  pub side_effect_class : String
  pub requires_approval : Bool
  pub execution_config_digest : Option String

abbrev config_digest : Option String → Result (Option String)
config_digest none = ok none
config_digest (some value) = validate_digest_reference value >>= λ digest. ok (some digest)

-- `ToolSpec.__post_init__`
unfoldable pub post_init : Host → ToolSpec → Result ToolSpec
post_init h spec = do
  validate_identifier spec.name
  validate_identifier spec.version
  refuse (h.strip spec.description == "") tool_contract
  effect ← side_effect_value h spec.side_effect_class
  digest ← config_digest spec.execution_config_digest
  inputs ← validated_schema h spec.input_schema
  outputs ← validated_schema h spec.output_schema
  ok (record spec {
    input_schema = inputs;
    output_schema = outputs;
    side_effect_class = effect;
    execution_config_digest = digest;
  })

abbrev config_entry : Option String → Fields
config_entry none = end
config_entry (some digest) = field "execution_config_digest" (str digest) end

unfoldable pub to_dict : ToolSpec → Fields
to_dict spec = field "name" (str spec.name) (
    field "version" (str spec.version) (
      field "description" (str spec.description) (
        field "input_schema" (obj (thaw_fields spec.input_schema)) (
          field "output_schema" (obj (thaw_fields spec.output_schema)) (
            field "side_effect_class" (str spec.side_effect_class) (
              field "requires_approval" (bool spec.requires_approval)
                (config_entry spec.execution_config_digest)))))))

unfoldable pub spec_digest : Host → ToolSpec → Result String
spec_digest h spec = json_sha256 h (obj (to_dict spec))

-- The only tool information that a decision provider sees.
unfoldable pub model_view : ToolSpec → Fields
model_view spec = field "name" (str spec.name) (
    field "description" (str spec.description)
      (field "input_schema" (obj (thaw_fields spec.input_schema)) end))

unfoldable pub validate_arguments : Host → ToolSpec → Fields → Result (Unit {0})
validate_arguments h spec arguments = validate_schema_data h spec.input_schema (obj arguments)

unfoldable pub validate_output : Host → ToolSpec → Json → Result (Unit {0})
validate_output h spec value = do
  validate_json_data h value
  validate_schema_data h spec.output_schema value
