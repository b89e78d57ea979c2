-- ===== src/Core/AgentLoop/Project.antt =====
-- core/agent_loop.py, `AgentLoop._project`: the state of a run, read off its events.
use molly.Prelude.{
  String, Bool, true, false, not, ◌&&◌, ◌||◌, Option, none, some, List, [], ◌∷◌, ◌++◌, ◌==◌, any,
  keep, last?, length, ltb, option_eq, is_some, if◌then◌else◌, Result, ok, err, ◌>>=◌, ◌>>◌, refuse,
  rethrow, run_state,
}
use molly.Core.Json.{Json, Fields, str, obj, null, get}
use molly.Core.Host.{Host}
use molly.Core.Ledger.{LedgerEvent}
use molly.Core.Tools.Call
use molly.Core.Tools.Call.{MaterializedToolCall, computed_digest}
use molly.Core.Approvals
use molly.Core.Approvals.{ApprovalRecord, approved, rejected, assert_binds_to}
use molly.Core.AgentLoop.{
  tool_call_materialized, approval_required, approval_recorded, tool_call_rejected,
  tool_execution_started, tool_execution_succeeded, tool_execution_failed, review_requested,
  run_stopped, run_rejected, run_failed, budget_exhausted, is_type, metadata_call_id,
  call_id_for_event, validated_success_result_data,
}

pub record CallState : Type 0 where
  pub call : MaterializedToolCall
  pub approval_required : Bool
  pub approval : Option ApprovalRecord
  pub approval_event : Option LedgerEvent
  pub rejected_event : Option LedgerEvent
  pub started_event : Option LedgerEvent
  pub terminal_event : Option LedgerEvent

pub record RunProjection : Type 0 where
  pub events : List LedgerEvent
  pub call_states : List CallState
  pub pending_approval : Option CallState
  pub pending_execution : Option CallState
  pub interrupted : Bool
  pub waiting_review : Bool
  pub terminal_event : Option LedgerEvent

abbrev pub mapping_at : String → Fields → Result Fields
mapping_at k fs = elim (get k fs) [ some (obj raw) ↦ ok raw | _ ↦ err run_state ]

abbrev pub same_texts : List String → List String → Bool
same_texts [] [] = true
same_texts [] (y ∷ ys) = false
same_texts (x ∷ xs) [] = false
same_texts (x ∷ xs) (y ∷ ys) = x == y && same_texts xs ys

-- The call of a materialization event, if the event agrees with it.
unfoldable pub materialized_call : Host → LedgerEvent → Result MaterializedToolCall
materialized_call h e = do
  raw ← mapping_at "materialized_call" e.metadata
  call ← rethrow (Call.from_dict h raw) run_state
  call_id ← call_id_for_event e
  refuse (not (call.call_id == call_id && option_eq e.step_id (some call.step_id))) run_state
  refuse
      (not (
        option_eq e.tool_name (some call.tool_name)
        && option_eq e.tool_version (some call.tool_version)))
      run_state
  refuse (not (same_texts e.input_artifact_ids call.input_artifact_ids)) run_state
  ok call

unfoldable pub check_success : Host → LedgerEvent → Result (Unit {0})
check_success h e =
    if is_type tool_execution_succeeded e then validated_success_result_data h e >> ok tt else ok tt

unfoldable pub calls_of : Host → LedgerEvent → Result (List MaterializedToolCall)
calls_of h e =
    if is_type tool_call_materialized e
    then (materialized_call h e >>= λ call. ok (call ∷ []))
    else ok []

unfoldable pub check_call_id : LedgerEvent → Result (Unit {0})
check_call_id e = elim (metadata_call_id e) [ none ↦ ok tt | some _ ↦ call_id_for_event e >> ok tt ]

-- The first loop of `_project`: its checks of each event, and the calls that it collects.
unfoldable pub materialized_calls : Host → List LedgerEvent → Result (List MaterializedToolCall)
unfolding check_success calls_of check_call_id
materialized_calls h [] = ok []
materialized_calls h (e ∷ es) = do
  check_success h e
  calls ← calls_of h e
  check_call_id e
  rest ← materialized_calls h es
  ok (calls ++ rest)

-- `by_call.get(call_id, [])`
unfoldable pub related_events : String → List LedgerEvent → List LedgerEvent
related_events call_id events = keep (λ e. option_eq (metadata_call_id e) (some call_id)) events

-- `recorded is not None and recorded != digest`, of what a mapping holds
abbrev contradicts : Option Json → String → Bool
contradicts none digest = false
contradicts (some null) digest = false
contradicts (some (str s)) digest = not (s == digest)
contradicts (some _) digest = true

unfoldable pub related_agrees : MaterializedToolCall → String → LedgerEvent → Bool
related_agrees call digest e =
    is_type tool_call_materialized e
    || (not (contradicts (get "tool_call_digest" e.metadata) digest)
        && option_eq e.step_id (some call.step_id))

abbrev pub of_type : String → List LedgerEvent → List LedgerEvent
of_type kind events = keep (is_type kind) events

-- The one event of a list that may hold no second one.
abbrev pub at_most_one : List LedgerEvent → Result (Option LedgerEvent)
at_most_one [] = ok none
at_most_one (e ∷ []) = ok (some e)
at_most_one (_ ∷ _ ∷ _) = err run_state

unfoldable pub approval_of :
    Host → MaterializedToolCall → Option LedgerEvent → Result (Option ApprovalRecord)
approval_of h call none = ok none
approval_of h call (some e) = do
  raw ← mapping_at "approval" e.metadata
  rethrow
      (Approvals.from_dict h raw >>= λ approval.
        assert_binds_to h approval call >> ok (some approval))
      run_state

abbrev pub has_decision : String → Option ApprovalRecord → Bool
has_decision decision none = false
has_decision decision (some approval) = approval.decision == decision

abbrev pub is_execution_terminal : LedgerEvent → Bool
is_execution_terminal e = is_type tool_execution_succeeded e || is_type tool_execution_failed e

-- One round of the second loop of `_project`.
unfoldable pub call_state : Host → List LedgerEvent → MaterializedToolCall → Result CallState
unfolding related_events related_agrees approval_of
call_state h events call = do
  let related = related_events call.call_id events
  digest ← computed_digest h call
  refuse (any (λ e. not (related_agrees call digest e)) related) run_state
  approval_event ← at_most_one (of_type approval_recorded related)
  approval ← approval_of h call approval_event
  rejected_event ← at_most_one (of_type tool_call_rejected related)
  started_event ← at_most_one (of_type tool_execution_started related)
  terminal_event ← at_most_one (keep is_execution_terminal related)
  let required = any (is_type approval_required) related
  refuse (required && not (is_some approval) && is_some rejected_event) run_state
  ok (record {
    call = call;
    approval_required = required;
    approval = approval;
    approval_event = approval_event;
    rejected_event = rejected_event;
    started_event = started_event;
    terminal_event = if has_decision rejected approval then rejected_event else terminal_event;
  })

unfoldable pub call_states_of :
    Host → List LedgerEvent → List MaterializedToolCall → Result (List CallState)
unfolding call_state
call_states_of h events [] = ok []
call_states_of h events (call ∷ calls) = do
  state ← call_state h events call
  states ← call_states_of h events calls
  ok (state ∷ states)

abbrev pub is_run_terminal : LedgerEvent → Bool
is_run_terminal e =
    is_type run_stopped e
    || (is_type run_rejected e || (is_type run_failed e || is_type budget_exhausted e))

abbrev pub is_interrupted : CallState → Bool
is_interrupted s = is_some s.started_event && not (is_some s.terminal_event)

abbrev pub is_open : CallState → Bool
is_open s = not (is_some s.terminal_event) && not (is_some s.started_event)

abbrev pub awaits_approval : CallState → Bool
awaits_approval s = is_open s && (s.approval_required && not (is_some s.approval))

abbrev pub awaits_execution : CallState → Bool
awaits_execution s = is_open s && (not s.approval_required || has_decision approved s.approval)

abbrev pub first? : List CallState → Option CallState
first? [] = none
first? (s ∷ _) = some s

abbrev same_event : Option LedgerEvent → Option LedgerEvent → Bool
same_event (some a) (some b) = a.event_id == b.event_id
same_event _ _ = false

-- No event may stand behind the last terminal one.
abbrev pub check_terminal : List LedgerEvent → Option LedgerEvent → Result (Unit {0})
check_terminal events none = ok tt
check_terminal events (some terminal) =
    refuse (not (same_event (last? events) (some terminal))) run_state

abbrev pub is_empty {ℓ} : {A : Type ℓ} → List A → Bool
is_empty [] = true
is_empty (_ ∷ _) = false

unfoldable pub project : Host → List LedgerEvent → Result RunProjection
unfolding materialized_calls call_states_of
project h events = do
  calls ← materialized_calls h events
  states ← call_states_of h events calls
  let terminal = last? (keep is_run_terminal events)
  check_terminal events terminal
  let approvals = keep awaits_approval states
  let executions = keep awaits_execution states
  refuse (ltb 1 (length (approvals ++ executions))) run_state
  let reviews = of_type review_requested events
  ok (record {
    events = events;
    call_states = states;
    pending_approval = first? approvals;
    pending_execution = first? executions;
    interrupted = any is_interrupted states;
    waiting_review =
        not (is_empty reviews) && (is_empty calls || same_event (last? events) (last? reviews));
    terminal_event = terminal;
  })
