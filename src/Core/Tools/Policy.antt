-- ===== src/Core/Tools/Policy.antt =====
-- core/tools.py: `ToolPolicy`, the execution policy of a run.
use molly.Prelude.{
  String, Bool, ◌&&◌, ◌||◌, List, contains, has_duplicates, sort_texts, map_result, Result, ok,
  ◌>>=◌, ◌>>◌, refuse, require, tool_contract, tool_policy,
}
use molly.Core.Json.{Fields, lst, obj, end, field, strings}
use molly.Core.Host.{Host}
use molly.Core.Ids.{validate_identifier}
use molly.Core.Dumps.{json_sha256}
use molly.Core.Tools.Spec.{ToolSpec, side_effect_value}

unfoldable pub unique_strings : (String → Result String) → List String → Result (List String)
unique_strings validator values = do
  result ← map_result validator values
  refuse (has_duplicates result) tool_contract
  ok result

pub record ToolPolicy : Type 0 where
  pub allowed_tools : List String
  pub allowed_side_effect_classes : List String
  pub approval_required_side_effect_classes : List String

-- `ToolPolicy.__post_init__`
unfoldable pub post_init : Host → ToolPolicy → Result ToolPolicy
unfolding unique_strings
post_init h policy = do
  tools ← unique_strings validate_identifier policy.allowed_tools
  allowed ← unique_strings (side_effect_value h) policy.allowed_side_effect_classes
  guarded ← unique_strings (side_effect_value h) policy.approval_required_side_effect_classes
  ok (record {
    allowed_tools = sort_texts tools;
    allowed_side_effect_classes = sort_texts allowed;
    approval_required_side_effect_classes = sort_texts guarded;
  })

unfoldable pub to_dict : ToolPolicy → Fields
to_dict policy = field "allowed_tools" (lst (strings policy.allowed_tools)) (
    field "allowed_side_effect_classes" (lst (strings policy.allowed_side_effect_classes)) (
      field "approval_required_side_effect_classes"
        (lst (strings policy.approval_required_side_effect_classes)) end))

unfoldable pub policy_digest : Host → ToolPolicy → Result String
policy_digest h policy = json_sha256 h (obj (to_dict policy))

unfoldable pub allows : ToolPolicy → ToolSpec → Bool
allows policy spec =
    contains policy.allowed_tools spec.name
    && contains policy.allowed_side_effect_classes spec.side_effect_class

unfoldable pub requires_approval : ToolPolicy → ToolSpec → Bool
requires_approval policy spec =
    spec.requires_approval
    || contains policy.approval_required_side_effect_classes spec.side_effect_class

unfoldable pub check : ToolPolicy → ToolSpec → Result (Unit {0})
check policy spec = require (allows policy spec) tool_policy
