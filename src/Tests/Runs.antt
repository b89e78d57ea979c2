-- ===== src/Tests/Runs.antt =====
-- A whole run at concrete inputs: it starts, asks the provider, which has no action, and returns.
use molly.Prelude.{◌≡◌, ◌≤◌, refl, false, none, List, [], ok, err, arith, ok-injective, sym}
use molly.Core.Dumps.{json_sha256, canonical_json_bytes}
use molly.Core.Values.{dict_of, tuple_of}
use molly.Core.Freeze.{
  freeze_fields, freeze_items, freeze_json, sensitive_key, thaw_json, freeze_json_mapping,
  thaw_fields,
}
use molly.Core.Ids.{
  validate_identifier, validate_artifact_ids, remove_prefix, z_to_offset, validate_digest_reference,
  validate_sha256, validate_artifact_id, normalize_timestamp, concat,
}
use molly.Core.Ledger
use molly.Core.Ledger.{LedgerEvent, to_dict, from_dict, computed_sha256}
use molly.Core.Ledger.File
use molly.Core.Ledger.File.{
  File, missing, read_events, for_run, accept, read_lines, open_locked, write_line, write_locked,
  prepare, head_digest,
}
use molly.Core.Ledger.Growth.{Extends}
use molly.Core.Tools.Policy
use molly.Core.Tools.Policy.{policy_digest}
use molly.Core.Tools.Registry.{model_visible_tools, specs}
use molly.Core.Runs
use molly.Core.Runs.{request_sha256, checked_context, checked_run_result}
use molly.Core.AgentLoop.{metadata_call_id}
use molly.Core.AgentLoop.Project.{project, materialized_calls, call_states_of}
use molly.Core.AgentLoop.Limits.{counts, effective_hard_limits, hard_limit_reason}
use molly.Core.AgentLoop.Budget.{Within}
use molly.Core.AgentLoop.World.{
  ◌>>=◌, for_each, used_ids, first_unused, now, new_unique_id, run_events, ledger_append,
  append_event, draft,
}
use molly.Core.AgentLoop.View.{visible_artifacts, recent_events, context, status_of, result_of}
use molly.Core.AgentLoop.Lineage.{reconcile_success_lineage}
use molly.Core.AgentLoop.Run.{
  run, ensure_request_policy, verify_inputs, start_metadata, initialize_or_validate, finish, result,
  fresh_result, invoke_provider, decide, ask_provider, check_supplied, proceed, turn, run_loop,
}
use molly.Core.AgentLoop.History.{run-Extends}
use molly.Core.AgentLoop.Limited.{run-InLimits}
use molly.Core.AgentLoop.Termination.{WhileTrue, enough_fuel, run_loop_ends, WholeRun, run_ends}
use molly.Tests.Machine.{machine, machine-IsoLaws, request, env, world, counted}

abbrev events_in : File → List LedgerEvent
events_in file = elim (read_events machine file) [ ok es ↦ es | err _ ↦ [] ]

missing-Within : Within machine "run_1" 12 8 8 missing
unfolding for_run read_events counts validate_identifier
missing-Within = record {
  at_most = λ es r.
      let empty : es ≡ [] = sym (ok-injective r) in
      rw empty (omega arith, omega arith, omega arith);
}

run-InLimits_example :
    Within machine "run_1" 12 8 8 (run env request 5 none (world missing)).1.ledger
unfolding effective_hard_limits
run-InLimits_example =
    run-InLimits env machine-IsoLaws request 5 none (world missing) missing-Within

after_run :
    read_events machine (run env request 5 none (world missing)).1.ledger
    ≡ ok (events_in (run env request 5 none (world missing)).1.ledger)
unfolding counted File.append Ledger.body Ledger.check_digests Ledger.check_identifiers
    Ledger.check_sealed Ledger.event_of_fields Ledger.post_init Policy.to_dict Runs.to_dict accept
    append_event ask_provider call_states_of canonical_json_bytes check_supplied checked_context
    checked_run_result computed_sha256 concat context counts decide dict_of draft
    effective_hard_limits ensure_request_policy finish first_unused for_each for_run freeze_fields
    freeze_items freeze_json freeze_json_mapping fresh_result from_dict hard_limit_reason
    head_digest initialize_or_validate invoke_provider json_sha256 ledger_append materialized_calls
    metadata_call_id model_visible_tools new_unique_id normalize_timestamp now open_locked
    policy_digest prepare proceed project read_events read_lines recent_events
    reconcile_success_lineage remove_prefix request_sha256 result result_of run run_events run_loop
    sensitive_key specs start_metadata status_of thaw_fields thaw_json to_dict tuple_of turn
    used_ids validate_artifact_id validate_artifact_ids validate_digest_reference
    validate_identifier validate_sha256 verify_inputs visible_artifacts write_line write_locked
    z_to_offset ◌>>=◌
after_run = refl

run-Extends_example :
    Extends machine missing
      (run env request 5 none (world missing)).1.ledger
      (events_in (run env request 5 none (world missing)).1.ledger)
run-Extends_example =
    run-Extends env machine-IsoLaws request 5 none (world missing)
      (events_in (run env request 5 none (world missing)).1.ledger) after_run

for_run_missing : for_run machine "run_1" missing ≡ ok []
unfolding for_run read_events validate_identifier
for_run_missing = refl

room_for_all : enough_fuel none [] ≤ 30
unfolding counts
room_for_all = omega arith

run_loop_ends_example :
    WhileTrue env request none false
      (world missing)
      (run_loop env request 30 none false (world missing)).0
      (run_loop env request 30 none false (world missing)).1
run_loop_ends_example =
    run_loop_ends env machine-IsoLaws request 30 none false (world missing) [] for_run_missing
      room_for_all

run_ends_example :
    WholeRun env request none
      (world missing)
      (run env request 30 none (world missing)).0
      (run env request 30 none (world missing)).1
run_ends_example =
    run_ends env machine-IsoLaws request 30 none (world missing) [] for_run_missing room_for_all
