-- ===== src/Core/Tools/Execution.antt =====
-- core/tools.py: `ToolExecutionContext` with its bounded reader, `ArtifactDraft`, `ToolResult`.
use molly.Prelude.{
  ℕ, String, Bool, Option, none, some, List, ◌==◌, any, contains, length, ltb, nat_eq,
  if◌then◌else◌, Result, ok, err, ◌>>=◌, ◌>>◌, refuse, rethrow, map_result, tool_contract,
  tool_access, ◌||◌,
}
use molly.Core.Json.{Json, Fields, codes}
use molly.Core.Host.{Host}
use molly.Core.Freeze.{freeze_json, freeze_json_mapping}
use molly.Core.Dumps.{canonical_json_bytes}
use molly.Core.Ids.{
  validate_identifier, validate_digest_reference, validate_artifact_ids, validate_reference,
  remove_prefix, sha256_prefix,
}
use molly.Core.Ledger.{check_optional}
use molly.Core.Tools.Spec.{max_tool_result_data_bytes}
use molly.Core.Tools.Actions.{reject_model_authority_fields}

pub record ToolExecutionContext : Type 0 where
  pub run_id : String
  pub step_id : String
  pub call_id : String
  pub idempotency_key : String
  pub arguments : Fields
  pub input_artifact_ids : List String

-- `ToolExecutionContext.__init__`
unfoldable pub make_context : Host → ToolExecutionContext → Result ToolExecutionContext
unfolding reject_model_authority_fields
make_context h c = do
  validate_identifier c.run_id
  validate_identifier c.step_id
  validate_identifier c.call_id
  validate_digest_reference c.idempotency_key
  reject_model_authority_fields h c.arguments
  arguments ← freeze_json_mapping h c.arguments
  inputs ← validate_artifact_ids c.input_artifact_ids
  ok (record c { arguments = arguments; input_artifact_ids = inputs })

-- `read_artifact`, over the reader of the store
unfoldable pub read_artifact :
    Host → (String → Result (List ℕ)) → ToolExecutionContext → String → Result (List ℕ)
read_artifact h reader c artifact_id =
    validate_reference h artifact_id
    >> (if contains c.input_artifact_ids artifact_id
        then elim (remove_prefix sha256_prefix artifact_id) [
          | none ↦ err tool_access
          | some _ ↦ reader artifact_id
        ]
        else err tool_access)

pub record ArtifactDraft : Type 0 where
  pub content : List ℕ
  pub media_type : String
  pub schema_name : Option String
  pub schema_version : Option String

abbrev pub has_line_break : String → Bool
has_line_break text = any (λ c. nat_eq c 0 || nat_eq c 10 || nat_eq c 13) (codes text)

-- `ArtifactDraft.__post_init__`
unfoldable pub checked_draft : Host → ArtifactDraft → Result ArtifactDraft
checked_draft h d = do
  refuse (h.strip d.media_type == "") tool_contract
  refuse (has_line_break d.media_type) tool_contract
  check_optional validate_identifier d.schema_name
  check_optional validate_identifier d.schema_version
  ok d

pub record ToolResult : Type 0 where
  pub value : Json
  pub artifacts : List ArtifactDraft

-- `ToolResult.__post_init__`; the field `data` is `value` here
unfoldable pub checked_result : Host → ToolResult → Result ToolResult
unfolding checked_draft
checked_result h r = do
  frozen ← rethrow (freeze_json h r.value) tool_contract
  encoded ← rethrow (canonical_json_bytes h frozen) tool_contract
  refuse (ltb max_tool_result_data_bytes (length encoded)) tool_contract
  drafts ← map_result (checked_draft h) r.artifacts
  ok (record { value = frozen; artifacts = drafts })
