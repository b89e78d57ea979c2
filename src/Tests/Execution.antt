-- ===== src/Tests/Execution.antt =====
-- core/agent_loop.py: the execution of a call at concrete inputs, and a run after it.
use molly.Prelude.{◌≡◌, String, refl, false, List, [], ◌∷◌, none, some, ok, err, Result}
use molly.Core.Dumps.{json_sha256, canonical_json_bytes}
use molly.Core.Values.{dict_of, tuple_of}
use molly.Core.Freeze.{
  freeze_fields, freeze_items, freeze_json, sensitive_key, thaw_json, freeze_json_mapping,
  thaw_fields,
}
use molly.Core.Ids.{
  validate_identifier, validate_artifact_ids, remove_prefix, z_to_offset, validate_digest_reference,
  validate_sha256, validate_artifact_id, normalize_timestamp, concat,
}
use molly.Core.Ledger
use molly.Core.Ledger.{LedgerEvent, to_dict, from_dict, computed_sha256}
use molly.Core.Ledger.File
use molly.Core.Ledger.File.{
  File, missing, read_events, for_run, accept, read_lines, open_locked, write_line, prepare,
  head_digest,
}
use molly.Core.Tools.Policy
use molly.Core.Tools.Policy.{policy_digest}
use molly.Core.Tools.Registry.{model_visible_tools, specs}
use molly.Core.Runs
use molly.Core.Runs.{request_sha256, checked_context, checked_run_result}
use molly.Core.AgentLoop.{metadata_call_id, call_id_for_event}
use molly.Core.AgentLoop.Project.{project, materialized_calls, call_states_of}
use molly.Core.AgentLoop.Limits.{counts, effective_hard_limits, hard_limit_reason}
use molly.Core.AgentLoop.World.{
  ◌>>=◌, for_each, used_ids, first_unused, now, new_unique_id, run_events, ledger_append,
  append_event, draft,
}
use molly.Core.AgentLoop.View.{visible_artifacts, recent_events, context, status_of, result_of}
use molly.Core.AgentLoop.Lineage.{reconcile_success_lineage}
use molly.Core.AgentLoop.Run.{
  run, ensure_request_policy, verify_inputs, start_metadata, initialize_or_validate, finish, result,
  fresh_result, invoke_provider, decide, ask_provider, check_supplied, proceed, turn, run_loop,
}
use molly.Core.Json.{Fields, end, field, str}
use molly.Core.Ledger.{LedgerEvent}
use molly.Core.Ledger.File.{missing, for_run}
use molly.Core.Tools.Registry.{resolve_exact, executor_for, resolve, by_name}
use molly.Core.Tools.Spec
use molly.Core.Tools.Spec.{spec_digest}
use molly.Core.Tools.Policy.{check, allows}
use molly.Core.Tools.Execution.{make_context, read_artifact}
use molly.Core.Tools.Actions.{reject_model_authority_fields, too_long, has_nul}
use molly.Core.Tools.Call
use molly.Core.Ids.{validate_reference}
use molly.Core.AgentLoop.World.{World}
use molly.Core.AgentLoop.Project.{RunProjection, project}
use molly.Core.AgentLoop.Execute.{
  execute_call, assert_current_call, execution_context, perform, conclude, append_execution_failed,
  append_success,
}
use molly.Core.AgentLoop.Run.{run}
use molly.Core.AgentLoop.Once.{hands_out, executed_once}
use molly.Tests.Machine.{machine, machine-IsoLaws, request, world, event, digest_a, counted}
use molly.Tests.Records.{tool_env, given}

abbrev executed : Result LedgerEvent × World (Unit {0}) (Unit {0}) (Unit {0})
executed = execute_call tool_env request (given (some digest_a)) (world missing)

abbrev told : LedgerEvent
told = elim executed.0 [ ok e ↦ e | err _ ↦ event "" none none end none ]

abbrev later : World (Unit {0}) (Unit {0}) (Unit {0})
later = (run tool_env request 30 none executed.1).1

-- What is recorded of that call.
abbrev recorded : String → String → String → Fields → LedgerEvent
recorded id kind status metadata =
    record (event kind (some "step_1") (some "v1")
      (field "call_id" (str "call_1") (field "tool_call_digest" (str digest_a) metadata))
      (some digest_a)) { event_id = id; status = some status; tool_name = some "search" }

abbrev events_later : List LedgerEvent
events_later =
    recorded "evt_" "TOOL_EXECUTION_STARTED" "STARTED" end
    ∷ record (recorded "evt_aaa" "TOOL_EXECUTION_FAILED" "FAILED"
        (field "error_type" (str "ToolError") end)) { previous_event_sha256 = some digest_a }
    ∷ []

abbrev projection_later : RunProjection
projection_later = record {
  events = events_later;
  call_states = [];
  pending_approval = none;
  pending_execution = none;
  interrupted = false;
  waiting_review = false;
  terminal_event = none;
}

reads_nothing : for_run machine "run_1" missing ≡ ok []
unfolding for_run read_events validate_identifier
reads_nothing = refl

executes : executed.0 ≡ ok told
unfolding counted File.append Ledger.body Ledger.check_digests Ledger.check_identifiers
    Ledger.check_sealed Ledger.event_of_fields Ledger.post_init Policy.to_dict Runs.to_dict accept
    append_event ask_provider call_states_of canonical_json_bytes check_supplied checked_context
    checked_run_result computed_sha256 concat context counts decide dict_of draft
    effective_hard_limits ensure_request_policy finish first_unused for_each for_run freeze_fields
    freeze_items freeze_json freeze_json_mapping fresh_result from_dict hard_limit_reason
    head_digest initialize_or_validate invoke_provider json_sha256 ledger_append materialized_calls
    metadata_call_id model_visible_tools new_unique_id normalize_timestamp now open_locked
    policy_digest prepare proceed project read_events read_lines recent_events
    reconcile_success_lineage remove_prefix request_sha256 result result_of run run_events run_loop
    sensitive_key specs start_metadata status_of thaw_fields thaw_json to_dict tuple_of turn
    used_ids validate_artifact_id validate_artifact_ids validate_digest_reference
    validate_identifier validate_sha256 verify_inputs visible_artifacts write_line z_to_offset ◌>>=◌
    execute_call assert_current_call execution_context perform conclude append_execution_failed
    append_success resolve_exact executor_for resolve by_name spec_digest check allows make_context
    reject_model_authority_fields Call.computed_digest Call.body Spec.to_dict too_long has_nul
    read_artifact validate_reference
executes = refl

reads_later : for_run machine "run_1" later.ledger ≡ ok events_later
unfolding counted File.append Ledger.body Ledger.check_digests Ledger.check_identifiers
    Ledger.check_sealed Ledger.event_of_fields Ledger.post_init Policy.to_dict Runs.to_dict accept
    append_event ask_provider call_states_of canonical_json_bytes check_supplied checked_context
    checked_run_result computed_sha256 concat context counts decide dict_of draft
    effective_hard_limits ensure_request_policy finish first_unused for_each for_run freeze_fields
    freeze_items freeze_json freeze_json_mapping fresh_result from_dict hard_limit_reason
    head_digest initialize_or_validate invoke_provider json_sha256 ledger_append materialized_calls
    metadata_call_id model_visible_tools new_unique_id normalize_timestamp now open_locked
    policy_digest prepare proceed project read_events read_lines recent_events
    reconcile_success_lineage remove_prefix request_sha256 result result_of run run_events run_loop
    sensitive_key specs start_metadata status_of thaw_fields thaw_json to_dict tuple_of turn
    used_ids validate_artifact_id validate_artifact_ids validate_digest_reference
    validate_identifier validate_sha256 verify_inputs visible_artifacts write_line z_to_offset ◌>>=◌
    execute_call assert_current_call execution_context perform conclude append_execution_failed
    append_success resolve_exact executor_for resolve by_name spec_digest check allows make_context
    reject_model_authority_fields Call.computed_digest Call.body Spec.to_dict too_long has_nul
    read_artifact validate_reference
reads_later = refl

projects_later : project machine events_later ≡ ok projection_later
unfolding project materialized_calls metadata_call_id call_id_for_event call_states_of
    validate_identifier
projects_later = refl

executed_once_example : hands_out projection_later "call_1" ≡ false
executed_once_example =
    executed_once tool_env machine-IsoLaws request (given (some digest_a)) (world missing) [] told
      30 none events_later projection_later reads_nothing executes reads_later projects_later
