-- ===== src/Tests/Loops.antt =====
-- The properties of core/agent_loop.py at concrete inputs.
use molly.Prelude.{ℕ, String, ◌≡◌, refl, false, none, some, [], ◌∷◌, ok}
use molly.Core.Json.{obj, end, field, str}
use molly.Core.Dumps.{json_sha256, canonical_json_bytes}
use molly.Core.Values.{dict_of, tuple_of}
use molly.Core.Freeze.{
  freeze_fields, freeze_items, freeze_json, sensitive_key, thaw_json, freeze_json_mapping,
  thaw_fields,
}
use molly.Core.Ids.{
  validate_identifier, validate_artifact_ids, remove_prefix, z_to_offset, validate_digest_reference,
  validate_sha256, validate_artifact_id, normalize_timestamp,
}
use molly.Core.Ledger
use molly.Core.Ledger.{LedgerEvent, to_dict, from_dict, computed_sha256}
use molly.Core.Ledger.File.{File, missing, lines, decoded, read_events, for_run, accept, read_lines}
use molly.Core.Tools.Call
use molly.Core.Tools.Call.{MaterializedToolCall}
use molly.Core.AgentLoop.Project.{CallState, RunProjection}
use molly.Core.AgentLoop.World.{event_field, used_ids, new_unique_id}
use molly.Core.AgentLoop.Run.{run}
use molly.Core.AgentLoop.Fresh.{FirstUnused, new_unique_id_lem}
use molly.Core.AgentLoop.Halting.{ended_run_stays}
use molly.Tests.Machine.{
  event, call, machine, digest_a, request, env, world, counted, counted-injective,
}

abbrev stopped : LedgerEvent
stopped = event "RUN_STOPPED" none none end (some digest_a)

abbrev stopped_file : File
stopped_file = lines (decoded (obj (to_dict stopped)) ∷ [])

reads_stopped : for_run machine "run_1" stopped_file ≡ ok (stopped ∷ [])
unfolding for_run read_events validate_identifier validate_artifact_ids freeze_json_mapping
    freeze_fields freeze_items freeze_json sensitive_key Ledger.check_identifiers
    Ledger.check_digests normalize_timestamp computed_sha256 json_sha256 canonical_json_bytes
    Ledger.body validate_digest_reference remove_prefix validate_sha256 to_dict thaw_fields
    thaw_json validate_artifact_id z_to_offset accept read_lines Ledger.check_sealed
    Ledger.event_of_fields from_dict Ledger.post_init dict_of tuple_of
reads_stopped = refl

abbrev materialized : LedgerEvent
materialized =
    event "TOOL_CALL_MATERIALIZED" (some "step_1") (some "t1")
      (field "call_id" (str "call_1")
        (field "materialized_call" (obj (Call.to_dict call digest_a)) end))
      none

abbrev waiting_call : CallState
waiting_call = record {
  call = call;
  approval_required = false;
  approval = none;
  approval_event = none;
  rejected_event = none;
  started_event = none;
  terminal_event = none;
}

abbrev waiting_run : RunProjection
waiting_run = record {
  events = materialized ∷ [];
  call_states = waiting_call ∷ [];
  pending_approval = none;
  pending_execution = some waiting_call;
  interrupted = false;
  waiting_review = false;
  terminal_event = none;
}

reads_missing : read_events machine missing ≡ ok []
unfolding read_events
reads_missing = refl

new_unique_id_lem_example :
    (id : String) × (tick : ℕ) × (new_unique_id env "evt_" event_field (world missing)
      ≡ (ok id, record (world missing) { tick = tick }))
    × FirstUnused counted "evt_" (used_ids event_field []) 0 id tick
new_unique_id_lem_example =
    new_unique_id_lem env "evt_" event_field (world missing) [] counted-injective reads_missing

ended_run_stays_example : (run env request 4 none (world stopped_file)).1.ledger ≡ stopped_file
ended_run_stays_example =
    ended_run_stays env request 4 none (world stopped_file) (stopped ∷ []) reads_stopped refl
