-- ===== src/Tests/Records.antt =====
-- The properties of core/tools.py and core/approvals.py at concrete inputs.
use molly.Prelude.{
  String, ◌≡◌, refl, Option, none, some, List, [], ◌∷◌, ok, err, false, tool_contract,
}
use molly.Core.Json.{end, field, str}
use molly.Core.Dumps.{json_sha256, canonical_json_bytes}
use molly.Core.Freeze.{
  freeze_fields, freeze_items, freeze_json, sensitive_key, thaw_json, thaw_fields,
  freeze_json_mapping,
}
use molly.Core.Ids.{
  validate_identifier, validate_reference, validate_artifact_ids, remove_prefix, z_to_offset,
  validate_digest_reference, validate_sha256, validate_artifact_id, normalize_timestamp,
}
use molly.Core.Tools.Spec.{ToolSpec, validate_arguments, validate_schema_data, validate_json_data}
use molly.Core.Tools.Registry.{RegisteredTool, register, resolve, by_name}
use molly.Core.Tools.Selection.{resolve-register}
use molly.Core.Tools.Actions.{ToolCallProposal, reject_model_authority_fields, too_long, has_nul}
use molly.Core.Tools.Call
use molly.Core.Tools.Call.{MaterializedToolCall}
use molly.Core.Tools.Codec.{HexLaws, call_from_dict-to_dict}
use molly.Core.Approvals
use molly.Core.Approvals.{ApprovalRecord}
use molly.Core.Approvals.Codec.{WordLaws, approval_from_dict-to_dict}
use molly.Core.Ledger.File.{missing}
use molly.Core.Tools.Policy.{check, allows}
use molly.Core.Runs.{RunRequest}
use molly.Core.AgentLoop.World.{ToolExecutor, Env, for_each, ◌>>=◌}
use molly.Core.AgentLoop.View.{visible_artifacts}
use molly.Core.AgentLoop.Execute.{verify_visible, validate_proposal_inputs}
use molly.Core.AgentLoop.Run.{admit, check_proposal}
use molly.Core.AgentLoop.Admission.{Admitted, admit-Admitted}
use molly.Tests.Machine.{request, env, world, machine, machine-IsoLaws, digest_a, noon}

abbrev pub given : Option String → MaterializedToolCall
given digest = record {
  run_id = "run_1";
  step_id = "step_1";
  call_id = "call_1";
  tool_name = "search";
  tool_version = "v1";
  tool_spec_digest = digest_a;
  policy_digest = digest_a;
  arguments = field "query" (str "oled") end;
  input_artifact_ids = [];
  created_at = noon;
  tool_call_digest = digest;
  reason_summary = "look";
}

machine-HexLaws : HexLaws machine
unfolding validate_sha256
machine-HexLaws = record { hexadecimal = λ bytes. refl }

checked_call : Call.post_init machine (given none) ≡ ok (given (some digest_a))
unfolding Call.post_init Call.computed_digest Call.body Call.settle_digest
    reject_model_authority_fields too_long has_nul validate_identifier validate_artifact_ids
    freeze_json_mapping freeze_fields freeze_items freeze_json sensitive_key normalize_timestamp
    json_sha256 canonical_json_bytes validate_digest_reference remove_prefix validate_sha256
    thaw_fields thaw_json validate_artifact_id z_to_offset
checked_call = refl

call_from_dict-to_dict_example :
    Call.from_dict machine (Call.to_dict (given (some digest_a)) digest_a)
    ≡ ok (given (some digest_a))
call_from_dict-to_dict_example =
    call_from_dict-to_dict machine machine-IsoLaws machine-HexLaws (given none)
      (given (some digest_a)) digest_a checked_call refl

abbrev decision : ApprovalRecord
decision = record {
  approval_id = "apr_1";
  tool_call_digest = digest_a;
  decision = "APPROVED";
  reviewer_ref = "alice";
  created_at = noon;
}

machine-WordLaws : WordLaws machine
machine-WordLaws = record { approved_word = refl; rejected_word = refl }

checked_decision : Approvals.post_init machine decision ≡ ok decision
unfolding Approvals.post_init validate_identifier validate_reference validate_digest_reference
    validate_sha256 remove_prefix normalize_timestamp z_to_offset
checked_decision = refl

approval_from_dict-to_dict_example :
    Approvals.from_dict machine (Approvals.to_dict decision) ≡ ok decision
approval_from_dict-to_dict_example =
    approval_from_dict-to_dict machine machine-IsoLaws machine-WordLaws decision decision
      checked_decision

abbrev pub search_spec : String → ToolSpec
search_spec version = record {
  name = "search";
  version = version;
  description = "finds";
  input_schema = end;
  output_schema = end;
  side_effect_class = "PURE";
  requires_approval = false;
  execution_config_digest = none;
}

abbrev one_tool : List (RegisteredTool String)
one_tool = (record { spec = search_spec "v1"; executor = "one" }) ∷ []

abbrev two_tools : List (RegisteredTool String)
two_tools =
    (record { spec = search_spec "v1"; executor = "one" })
    ∷ (record { spec = search_spec "v2"; executor = "two" })
    ∷ []

registered : register (search_spec "v2") "two" one_tool ≡ ok two_tools
unfolding register
registered = refl

valid_name : validate_identifier "search" ≡ ok "search"
unfolding validate_identifier
valid_name = refl

valid_version : validate_identifier "v2" ≡ ok "v2"
unfolding validate_identifier
valid_version = refl

resolve-register_example :
    (resolve "search" (some "v2") two_tools ≡ ok (search_spec "v2"))
    × ((other : String) → register (search_spec "v2") other two_tools ≡ err tool_contract)
resolve-register_example =
    resolve-register (search_spec "v2") "two" one_tool two_tools registered valid_name valid_version

abbrev pub input : String
input = "sha256:aaaaaaaaaaaaaaaaaaaaaaaaaaaaaaaaaaaaaaaaaaaaaaaaaaaaaaaaaaaaaaaa"

-- A tool that reads its input and tells whether that could be read.
abbrev pub probe : ToolExecutor (Unit {0}) (Unit {0}) (Unit {0})
probe c read w = (
  elim (read input) [ ok _ ↦ ok (record { value = str "read"; artifacts = [] }) | err e ↦ err e ],
  w.store,
  w.lineage,
)

abbrev pub tool_env : Env (Unit {0}) (Unit {0}) (Unit {0})
tool_env = record env {
  registry = (record { spec = search_spec "v1"; executor = probe }) ∷ [];
  policy = record {
    allowed_tools = "search" ∷ [];
    allowed_side_effect_classes = "PURE" ∷ [];
    approval_required_side_effect_classes = [];
  };
}

abbrev with_input : RunRequest
with_input = record request { input_artifact_ids = input ∷ [] }

abbrev proposal : ToolCallProposal
proposal = record {
  tool_name = "search";
  arguments = field "query" (str "oled") end;
  input_artifact_ids = input ∷ [];
  reason_summary = "look";
}

admitted : (admit tool_env with_input proposal [] (world missing)).0 ≡ ok (search_spec "v1")
unfolding admit check_proposal ◌>>=◌ resolve by_name validate_identifier validate_proposal_inputs
    verify_visible for_each visible_artifacts validate_arguments validate_schema_data
    validate_json_data thaw_fields thaw_json freeze_json_mapping freeze_json freeze_fields
    sensitive_key canonical_json_bytes check allows
admitted = refl

admit-Admitted_example : Admitted tool_env with_input proposal [] (world missing) (search_spec "v1")
admit-Admitted_example =
    admit-Admitted tool_env with_input proposal [] (world missing) (search_spec "v1") admitted
