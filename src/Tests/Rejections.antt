-- ===== src/Tests/Rejections.antt =====
-- A run that stopped between the record of a rejection and the events that would end it.
use molly.Prelude.{◌≡◌, ◌≢◌, refl, none, some, List, [], ◌∷◌, ok, true, false}
use molly.Core.Json.{Fields, obj, end, field, str}
use molly.Core.Dumps.{json_sha256, canonical_json_bytes}
use molly.Core.Values.{dict_of, tuple_of}
use molly.Core.Freeze.{
  freeze_fields, freeze_items, freeze_json, sensitive_key, thaw_json, thaw_fields,
  freeze_json_mapping,
}
use molly.Core.Ids.{
  validate_identifier, validate_reference, validate_artifact_ids, remove_prefix, z_to_offset,
  validate_digest_reference, validate_sha256, validate_artifact_id, normalize_timestamp,
}
use molly.Core.Ledger.{LedgerEvent}
use molly.Core.Tools.Actions.{reject_model_authority_fields, too_long, has_nul}
use molly.Core.Tools.Call
use molly.Core.Approvals
use molly.Core.Approvals.{ApprovalRecord}
use molly.Core.AgentLoop.{metadata_call_id, call_id_for_event}
use molly.Core.AgentLoop.Project.{
  CallState, RunProjection, project, materialized_calls, call_states_of, call_state, related_events,
  related_agrees, approval_of, materialized_call,
}
use molly.Core.AgentLoop.Rejection.{rejected_call_is_not_pending}
use molly.Tests.Machine.{machine, digest_a, noon, call, call_event_of}

abbrev about_call : Fields → Fields
about_call last = field "call_id" (str "call_1") (field "tool_call_digest" (str digest_a) last)

abbrev refusal : ApprovalRecord
refusal = record {
  approval_id = "apr_1";
  tool_call_digest = digest_a;
  decision = "REJECTED";
  reviewer_ref = "alice";
  created_at = noon;
}

abbrev recorded : LedgerEvent
recorded =
    call_event_of "APPROVAL_RECORDED"
      (about_call (field "approval" (obj (Approvals.to_dict refusal)) end))

abbrev cut_events : List LedgerEvent
cut_events =
    call_event_of "TOOL_CALL_MATERIALIZED" (
      field "call_id" (str "call_1")
        (field "materialized_call" (obj (Call.to_dict call digest_a)) end))
    ∷ call_event_of "APPROVAL_REQUIRED" (about_call end)
    ∷ recorded
    ∷ []

abbrev refused_call : CallState
refused_call = record {
  call = call;
  approval_required = true;
  approval = some refusal;
  approval_event = some recorded;
  rejected_event = none;
  started_event = none;
  terminal_event = none;
}

-- The run has not ended, waits for nothing and is not interrupted.
abbrev cut_run : RunProjection
cut_run = record {
  events = cut_events;
  call_states = refused_call ∷ [];
  pending_approval = none;
  pending_execution = none;
  interrupted = false;
  waiting_review = false;
  terminal_event = none;
}

projects_cut : project machine cut_events ≡ ok cut_run
unfolding project materialized_calls call_states_of call_state metadata_call_id call_id_for_event
    related_events related_agrees approval_of materialized_call Call.from_dict Call.post_init
    Call.to_dict Call.body Call.computed_digest Call.settle_digest reject_model_authority_fields
    too_long has_nul validate_identifier validate_artifact_ids freeze_json_mapping freeze_fields
    freeze_items freeze_json sensitive_key normalize_timestamp json_sha256 canonical_json_bytes
    validate_digest_reference remove_prefix validate_sha256 thaw_fields thaw_json
    validate_artifact_id z_to_offset dict_of tuple_of Approvals.from_dict Approvals.post_init
    Approvals.binds_to Approvals.assert_binds_to Approvals.to_dict Approvals.approval_of_fields
    validate_reference
projects_cut = refl

rejected_call_is_not_pending_example :
    (cut_run.pending_approval ≢ some refused_call) × (cut_run.pending_execution ≢ some refused_call)
rejected_call_is_not_pending_example =
    rejected_call_is_not_pending machine cut_events cut_run refused_call projects_cut refl refl
