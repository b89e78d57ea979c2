-- ===== src/Core/AgentLoop/View.antt =====
-- core/agent_loop.py: `_visible_artifacts`, `_recent_events`, `_context`, `_result`, `status`.
use molly.Prelude.{
  ℕ, zero, suc, ◌-◌, String, Option, none, some, List, [], ◌∷◌, ◌++◌, map, contains, last?, length,
  if◌then◌else◌, Result, ok, ◌>>=◌, ◌>>◌, or_raise, run_state,
}
use molly.Core.Json.{Fields, str, lst, end, field, get, strings, optional}
use molly.Core.Host.{Host}
use molly.Core.Freeze.{thaw_json}
use molly.Core.Ledger.{LedgerEvent}
use molly.Core.Ids.{validate_identifier}
use molly.Core.Tools.Call.{to_dict, computed_digest}
use molly.Core.Runs
use molly.Core.Runs.{
  RunRequest, RunStatus, RunContext, RunResult, checked_context, checked_run_result,
}
use molly.Core.AgentLoop.{
  run_started, tool_execution_succeeded, tool_execution_failed, run_stopped, run_rejected,
  run_failed, is_type, validated_success_result_data,
}
use molly.Core.AgentLoop.Project.{RunProjection, CallState, project, mapping_at, is_empty}

-- `if artifact_id not in visible: visible.append(artifact_id)`
abbrev pub add_missing : List String → List String → List String
add_missing visible [] = visible
add_missing visible (a ∷ as') =
    add_missing (if contains visible a then visible else visible ++ a ∷ []) as'

abbrev pub visible_from : List String → List LedgerEvent → List String
visible_from visible [] = visible
visible_from visible (e ∷ es) =
    visible_from
      (if is_type tool_execution_succeeded e
        then add_missing visible e.output_artifact_ids
        else visible)
      es

unfoldable pub visible_artifacts : RunRequest → List LedgerEvent → List String
visible_artifacts request events = visible_from request.input_artifact_ids events

abbrev drop {ℓ} : {A : Type ℓ} → ℕ → List A → List A
drop zero xs = xs
drop (suc n) [] = []
drop (suc n) (x ∷ xs) = drop n xs

summary : LedgerEvent → Fields
summary e = field "event_type" (str e.event_type) (
    field "status" (optional e.status) (
      field "step_id" (optional e.step_id)
        (field "tool_name" (optional e.tool_name) (field "timestamp" (str e.timestamp) end))))

-- the last twelve events
unfoldable pub recent_events : List LedgerEvent → List Fields
unfolding summary
recent_events events = map summary (drop (length events - 12) events)

abbrev outcome_fields : LedgerEvent → Fields → Fields
outcome_fields e last = field "event_type" (str e.event_type) (
    field "status" (optional e.status) (
      field "tool_name" (optional e.tool_name) (
        field "tool_version" (optional e.tool_version)
          (field "output_artifact_ids" (lst (strings e.output_artifact_ids)) last))))

outcome_of : Host → LedgerEvent → Result (Option Fields)
outcome_of h e =
    if is_type tool_execution_succeeded e
    then (do
      found ← validated_success_result_data h e
      ok (
          some (
            outcome_fields e
              (field "data" (thaw_json found.0) (field "data_sha256" (str found.1) end)))))
    else if is_type tool_execution_failed e
    then ok (some (outcome_fields e end))
    else ok none

-- The loop over the reversed events, which stops at the first outcome: here the later events are
-- asked first.
previous_outcome : Host → List LedgerEvent → Result (Option Fields)
unfolding outcome_of
previous_outcome h [] = ok none
previous_outcome h (e ∷ es) = do
  later ← previous_outcome h es
  elim later [ some outcome ↦ ok (some outcome) | none ↦ outcome_of h e ]

-- `{key: metadata[key] for key in keys if key in metadata}`
abbrev pick_keys : List String → Fields → Fields
pick_keys [] fs = end
pick_keys (k ∷ ks) fs = elim (get k fs) [
  | none ↦ pick_keys ks fs
  | some v ↦ field k v (pick_keys ks fs)
]

-- `_context`
unfoldable pub context : Host → RunRequest → List LedgerEvent → Result RunContext
unfolding previous_outcome recent_events visible_artifacts checked_context
context h request events = do
  previous ← previous_outcome h events
  checked_context h (record {
    run_id = request.run_id;
    goal = request.goal;
    visible_artifact_ids = visible_artifacts request events;
    initial_artifact_ids = request.input_artifact_ids;
    request_metadata =
        pick_keys
          ("llm_profile_ref" ∷ "llm_profile_digest" ∷ "workflow_intent_preview"
            ∷ "workflow_intent_preview_digest" ∷ [])
          request.metadata;
    recent_events = recent_events events;
    previous_tool_outcome = previous;
  })

-- The dictionary of `_result` from a terminal event type to a status; its last key is
-- `BUDGET_EXHAUSTED`, the only other type of a terminal event.
abbrev terminal_status : LedgerEvent → RunStatus
terminal_status e =
    if is_type run_stopped e
    then RunStatus.stopped
    else if is_type run_rejected e
    then RunStatus.rejected
    else if is_type run_failed e
    then RunStatus.failed
    else RunStatus.budget_exhausted

unfoldable pub status_of : RunProjection → RunStatus
status_of p = elim p.terminal_event [
  | some e ↦ terminal_status e
  | none ↦ if p.interrupted then RunStatus.interrupted else elim p.pending_approval [
    | some _ ↦ RunStatus.waiting_approval
    | none ↦ if p.waiting_review then RunStatus.waiting_review else RunStatus.active
  ]
]

pending_call_of : Host → Option CallState → Result (Option Fields)
pending_call_of h none = ok none
pending_call_of h (some s) = computed_digest h s.call >>= λ d. ok (some (to_dict s.call d))

last_id : List LedgerEvent → Option String
last_id events = elim (last? events) [ none ↦ none | some e ↦ some e.event_id ]

-- `_result`, over the events that it reads again and a projection that was given or made of them
unfoldable pub result_of :
    Host → RunRequest → List LedgerEvent → RunProjection → String → Result RunResult
unfolding status_of pending_call_of last_id visible_artifacts checked_run_result
result_of h request events p message = do
  pending ← pending_call_of h p.pending_approval
  checked_run_result h (record {
    run_id = request.run_id;
    status = status_of p;
    visible_artifact_ids = visible_artifacts request events;
    last_event_id = last_id events;
    pending_call = pending;
    message = message;
  })

first_start : List LedgerEvent → Option LedgerEvent
first_start [] = none
first_start (e ∷ es) = let rest = first_start es in if is_type run_started e then some e else rest

-- `AgentLoop.status`, over the reader `for_run` of the ledger
unfoldable pub status : Host → (String → Result (List LedgerEvent)) → String → Result RunResult
unfolding first_start result_of project checked_run_result
status h for_run run_id = do
  validate_identifier run_id
  events ← for_run run_id
  if is_empty events
      then checked_run_result h (record {
        run_id = run_id;
        status = RunStatus.new;
        visible_artifact_ids = [];
        last_event_id = none;
        pending_call = none;
        message = "";
      })
      else (do
        start ← or_raise (first_start events) run_state
        recorded ← mapping_at "request" start.metadata
        request ← Runs.from_dict h recorded
        again ← for_run request.run_id
        p ← project h again
        result_of h request again p "")
