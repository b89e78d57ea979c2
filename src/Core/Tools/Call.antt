-- ===== src/Core/Tools/Call.antt =====
-- core/tools.py: `MaterializedToolCall`, the server-owned identity of one execution.
use molly.Prelude.{
  String, false, true, Option, none, some, List, [], ◌∷◌, ◌==◌, if◌then◌else◌, Result, ok, ◌>>=◌,
  ◌>>◌, refuse, rethrow, or_raise, tool_contract, python_error,
}
use molly.Core.Json.{Fields, str, lst, obj, end, field, get, strings}
use molly.Core.Host.{Host}
use molly.Core.Freeze.{freeze_json_mapping, thaw_fields}
use molly.Core.Dumps.{json_sha256}
use molly.Core.Ids.{
  validate_identifier, validate_digest_reference, validate_artifact_ids, normalize_timestamp,
}
use molly.Core.Values.{required_text, tuple_at, dict_of}
use molly.Core.Tools.Actions.{
  reject_model_authority_fields, too_long, has_nul, unknown_keys, text_or_empty,
}

-- `tool_call_digest` is what the constructor is given: `none` for a new call.
pub record MaterializedToolCall : Type 0 where
  pub run_id : String
  pub step_id : String
  pub call_id : String
  pub tool_name : String
  pub tool_version : String
  pub tool_spec_digest : String
  pub policy_digest : String
  pub arguments : Fields
  pub input_artifact_ids : List String
  pub created_at : String
  pub tool_call_digest : Option String
  pub reason_summary : String

-- `_body`, with the entries behind it
abbrev body_fields : MaterializedToolCall → Fields → Fields
body_fields c last = field "run_id" (str c.run_id) (
    field "step_id" (str c.step_id) (
      field "call_id" (str c.call_id) (
        field "tool_name" (str c.tool_name) (
          field "tool_version" (str c.tool_version) (
            field "tool_spec_digest" (str c.tool_spec_digest) (
              field "policy_digest" (str c.policy_digest) (
                field "arguments" (obj (thaw_fields c.arguments)) (
                  field "input_artifact_ids" (lst (strings c.input_artifact_ids))
                    (field "created_at" (str c.created_at) last)))))))))

unfoldable pub body : MaterializedToolCall → Fields
body c = body_fields c end

unfoldable pub computed_digest : Host → MaterializedToolCall → Result String
computed_digest h c = json_sha256 h (obj (body c))

-- The digest that a checked call holds: the computed one, which a given one has to equal.
unfoldable pub settle_digest : Host → MaterializedToolCall → Result MaterializedToolCall
settle_digest h c = elim c.tool_call_digest [
  | none ↦ do computed ← computed_digest h c; ok (record c { tool_call_digest = some computed })
  | some given ↦ do
    digest ← validate_digest_reference given
    computed ← computed_digest h c
    refuse (if digest == computed then false else true) tool_contract
    ok (record c { tool_call_digest = some digest })
]

-- `MaterializedToolCall.__post_init__`
unfoldable pub post_init : Host → MaterializedToolCall → Result MaterializedToolCall
unfolding settle_digest
post_init h c = do
  validate_identifier c.run_id
  validate_identifier c.step_id
  validate_identifier c.call_id
  validate_identifier c.tool_name
  validate_identifier c.tool_version
  spec ← validate_digest_reference c.tool_spec_digest
  policy ← validate_digest_reference c.policy_digest
  reject_model_authority_fields h c.arguments
  arguments ← freeze_json_mapping h c.arguments
  inputs ← validate_artifact_ids c.input_artifact_ids
  time ← normalize_timestamp h c.created_at
  settled ← settle_digest h (record c {
    tool_spec_digest = spec;
    policy_digest = policy;
    arguments = arguments;
    input_artifact_ids = inputs;
    created_at = time;
  })
  refuse (too_long c.reason_summary) tool_contract
  refuse (has_nul c.reason_summary) tool_contract
  ok settled

-- `to_dict` writes the computed digest, which a checked call holds.
unfoldable pub to_dict : MaterializedToolCall → String → Fields
to_dict c digest =
    body_fields c
      (field "tool_call_digest" (str digest) (field "reason_summary" (str c.reason_summary) end))

unfoldable pub call_of_fields : Host → Fields → Result MaterializedToolCall
call_of_fields h value = do
  run_id ← required_text h value "run_id"
  step_id ← required_text h value "step_id"
  call_id ← required_text h value "call_id"
  tool_name ← required_text h value "tool_name"
  tool_version ← required_text h value "tool_version"
  tool_spec_digest ← required_text h value "tool_spec_digest"
  policy_digest ← required_text h value "policy_digest"
  raw ← or_raise (get "arguments" value) python_error
  arguments ← or_raise (dict_of raw) python_error
  inputs ← tuple_at value "input_artifact_ids"
  created_at ← required_text h value "created_at"
  digest ← required_text h value "tool_call_digest"
  ok (record {
    run_id = run_id;
    step_id = step_id;
    call_id = call_id;
    tool_name = tool_name;
    tool_version = tool_version;
    tool_spec_digest = tool_spec_digest;
    policy_digest = policy_digest;
    arguments = arguments;
    input_artifact_ids = inputs;
    created_at = created_at;
    tool_call_digest = some digest;
    reason_summary = text_or_empty h value "reason_summary";
  })

abbrev call_keys : List String
call_keys =
    "run_id" ∷ "step_id" ∷ "call_id" ∷ "tool_name" ∷ "tool_version" ∷ "tool_spec_digest"
    ∷ "policy_digest" ∷ "arguments" ∷ "input_artifact_ids" ∷ "created_at" ∷ "tool_call_digest"
    ∷ "reason_summary" ∷ []

unfoldable pub from_dict : Host → Fields → Result MaterializedToolCall
unfolding call_of_fields post_init
from_dict h value = do
  refuse (unknown_keys call_keys value) tool_contract
  rethrow (call_of_fields h value >>= post_init h) tool_contract
