-- ===== src/Core/AgentLoop.antt =====
-- core/agent_loop.py: the kinds of event, and what the loop reads of one event.
pub mod Project
pub mod Limits
pub mod World
pub mod View
pub mod Lineage
pub mod Execute
pub mod Run
pub mod Pending
pub mod Halting
pub mod Fresh
pub mod Bounds
pub mod Quiet
pub mod Steps
pub mod Course
pub mod Rounds
pub mod Phases
pub mod Budget
pub mod Growing
pub mod Asking
pub mod Rejection
pub mod Admission
pub mod History
pub mod Limited
pub mod Measure
pub mod Materialized
pub mod Outcomes
pub mod Remaining
pub mod Progress
pub mod Consulting
pub mod Ending
pub mod Termination
pub mod Once
use molly.Prelude.{
  String, Bool, true, false, Option, none, some, List, [], ◌∷◌, ◌==◌, length, ltb, if◌then◌else◌,
  Result, ok, err, ◌>>=◌, ◌>>◌, refuse, rethrow, run_state,
}
use molly.Core.Json.{Json, str, get}
use molly.Core.Host.{Host}
use molly.Core.Dumps.{canonical_json_bytes}
use molly.Core.Ids.{validate_identifier, validate_digest_reference}
use molly.Core.Ledger.{LedgerEvent}
use molly.Core.Tools.Spec.{max_tool_result_data_bytes}

abbrev pub run_started : String
run_started = "RUN_STARTED"

abbrev pub decision_recorded : String
decision_recorded = "DECISION_RECORDED"

abbrev pub tool_call_materialized : String
tool_call_materialized = "TOOL_CALL_MATERIALIZED"

abbrev pub approval_required : String
approval_required = "APPROVAL_REQUIRED"

abbrev pub approval_recorded : String
approval_recorded = "APPROVAL_RECORDED"

abbrev pub tool_call_rejected : String
tool_call_rejected = "TOOL_CALL_REJECTED"

abbrev pub tool_execution_started : String
tool_execution_started = "TOOL_EXECUTION_STARTED"

abbrev pub tool_execution_succeeded : String
tool_execution_succeeded = "TOOL_EXECUTION_SUCCEEDED"

abbrev pub tool_execution_failed : String
tool_execution_failed = "TOOL_EXECUTION_FAILED"

abbrev pub review_requested : String
review_requested = "REVIEW_REQUESTED"

abbrev pub run_stopped : String
run_stopped = "RUN_STOPPED"

abbrev pub run_rejected : String
run_rejected = "RUN_REJECTED"

abbrev pub run_failed : String
run_failed = "RUN_FAILED"

abbrev pub budget_exhausted : String
budget_exhausted = "BUDGET_EXHAUSTED"

abbrev pub intent_frozen : String
intent_frozen = "INTENT_FROZEN"

abbrev pub event_types : List String
event_types =
    run_started ∷ decision_recorded ∷ tool_call_materialized ∷ approval_required ∷ approval_recorded
    ∷ tool_call_rejected ∷ tool_execution_started ∷ tool_execution_succeeded ∷ tool_execution_failed
    ∷ review_requested ∷ run_stopped ∷ run_rejected ∷ run_failed ∷ budget_exhausted ∷ intent_frozen
    ∷ []

abbrev pub is_type : String → LedgerEvent → Bool
is_type kind e = e.event_type == kind

-- `_metadata_call_id`
unfoldable pub metadata_call_id : LedgerEvent → Option String
metadata_call_id e = elim (get "call_id" e.metadata) [ some (str s) ↦ some s | _ ↦ none ]

-- `_call_id_for_event`
unfoldable pub call_id_for_event : LedgerEvent → Result String
call_id_for_event e = elim (metadata_call_id e) [
  | none ↦ err run_state
  | some call_id ↦ validate_identifier call_id
]

abbrev digest_reference : Json → Result String
digest_reference (str s) = validate_digest_reference s
digest_reference _ = err run_state

abbrev recorded_data : LedgerEvent → Result (Json × Json)
recorded_data e = elim (get "result_data" e.metadata) [
  | none ↦ err run_state
  | some value ↦ elim (get "result_data_sha256" e.metadata) [
    | none ↦ err run_state
    | some digest ↦ ok (value, digest)
  ]
]

-- `_validated_success_result_data`
unfoldable pub validated_success_result_data : Host → LedgerEvent → Result (Json × String)
validated_success_result_data h e = do
  refuse (if is_type tool_execution_succeeded e then false else true) run_state
  found ← recorded_data e
  encoded ← rethrow (canonical_json_bytes h found.0) run_state
  let computed = h.sha256 encoded
  recorded ← rethrow (digest_reference found.1) run_state
  refuse (ltb max_tool_result_data_bytes (length encoded)) run_state
  refuse (if recorded == computed then false else true) run_state
  ok (found.0, computed)
