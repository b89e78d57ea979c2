-- ===== src/Core/AgentLoop/Execute.antt =====
-- core/agent_loop.py: the materialization of a proposal, the events about a call, and its execution.
use molly.Prelude.{
  ℕ, String, Bool, true, false, not, ◌&&◌, ◌||◌, leb, nat_eq, none, some, List, [], ◌∷◌, ◌==◌,
  contains, ltb, length, if◌then◌else◌, Result, ok, err, Error, tool_contract, schema_validation,
  tool_access, tool_policy, run_binding, bind, refuse,
}
use molly.Core.Json.{Fields, str, obj, end, field, codes}
use molly.Core.Freeze.{thaw_json}
use molly.Core.Dumps.{canonical_json_bytes}
use molly.Core.Ids.{all_codes}
use molly.Core.Ledger.{LedgerEvent}
use molly.Core.Tools.Spec.{ToolSpec, spec_digest, validate_output, max_tool_result_data_bytes}
use molly.Core.Tools.Registry.{resolve_exact, executor_for}
use molly.Core.Tools.Policy.{check}
use molly.Core.Tools.Actions.{ToolCallProposal}
use molly.Core.Tools.Call
use molly.Core.Tools.Call.{MaterializedToolCall, computed_digest}
use molly.Core.Tools.Execution.{
  ToolExecutionContext, ToolResult, ArtifactDraft, make_context, read_artifact, checked_result,
}
use molly.Core.Approvals
use molly.Core.Approvals.{ApprovalRecord, assert_binds_to}
use molly.Core.Runs.{RunRequest}
use molly.Core.AgentLoop.{
  tool_call_materialized, approval_required, approval_recorded, tool_call_rejected,
  tool_execution_started, tool_execution_succeeded, tool_execution_failed,
}
use molly.Core.AgentLoop.World.{
  ToolExecutor, Env, World, Exec, step_field, call_field, pure, raise, lift, when, for_each, now,
  new_unique_id, append_event, draft, ◌>>=◌, ◌>>◌,
}
use molly.Core.AgentLoop.Lineage.{project_success}

-- `isinstance(error, ToolContractError)`
abbrev pub is_tool_contract : Error → Bool
is_tool_contract tool_contract = true
is_tool_contract schema_validation = true
is_tool_contract tool_access = true
is_tool_contract tool_policy = true
is_tool_contract _ = false

-- An event about one call: its step, its tool and its inputs.
abbrev pub call_event : String → String → MaterializedToolCall → Fields → LedgerEvent
call_event kind status call metadata = record (draft kind status metadata) {
  step_id = some call.step_id;
  tool_name = some call.tool_name;
  tool_version = some call.tool_version;
  input_artifact_ids = call.input_artifact_ids;
}

-- The metadata that all of those events begin with.
abbrev pub call_metadata : MaterializedToolCall → String → Fields → Fields
call_metadata call digest last =
    field "call_id" (str call.call_id) (field "tool_call_digest" (str digest) last)

abbrev pub held_digest : MaterializedToolCall → String
held_digest call = elim call.tool_call_digest [ none ↦ "" | some digest ↦ digest ]

-- `_safe_error_type` of a class name: `[A-Za-z0-9_.-]{1,80}`
safe_name_char : ℕ → Bool
safe_name_char c =
    leb b'A' c && leb c b'Z'
    || (leb b'a' c && leb c b'z'
        || (leb b'0' c && leb c b'9' || (nat_eq c b'_' || (nat_eq c b'.' || nat_eq c b'-'))))

safe_error_type : String → String
unfolding safe_name_char
safe_error_type candidate =
    let cs = codes candidate in
    if all_codes safe_name_char cs && (leb 1 (length cs) && leb (length cs) 80)
    then candidate
    else "ToolError"

module _ {S L P : Type 0} (env : Env S L P) (request : RunRequest) where
  -- `_materialize`
  unfoldable pub materialize : ToolCallProposal → ToolSpec → Exec (World S L P) MaterializedToolCall
  unfolding now new_unique_id
  materialize proposal spec = do
    step_id ← new_unique_id env "step_" step_field
    call_id ← new_unique_id env "call_" call_field
    digest ← lift (spec_digest env.host spec)
    time ← now env
    lift (
        Call.post_init env.host (record {
          run_id = request.run_id;
          step_id = step_id;
          call_id = call_id;
          tool_name = spec.name;
          tool_version = spec.version;
          tool_spec_digest = digest;
          policy_digest = request.tool_policy_digest;
          arguments = proposal.arguments;
          input_artifact_ids = proposal.input_artifact_ids;
          created_at = time;
          tool_call_digest = none;
          reason_summary = proposal.reason_summary;
        }))

  unfoldable pub verify_visible : List String → String → Exec (World S L P) (Unit {0})
  verify_visible visible artifact_id =
      if contains visible artifact_id
      then (λ w. (env.store_verify w.store artifact_id, w))
      else raise tool_contract

  -- `_validate_proposal_inputs`
  unfoldable pub validate_proposal_inputs :
      ToolCallProposal → List String → Exec (World S L P) (Unit {0})
  unfolding verify_visible for_each
  validate_proposal_inputs proposal visible =
      for_each (verify_visible visible) proposal.input_artifact_ids

  unfoldable pub append_materialized : MaterializedToolCall → Exec (World S L P) LedgerEvent
  unfolding append_event
  append_materialized call = do
    digest ← lift (computed_digest env.host call)
    append_event env request (
        call_event tool_call_materialized "MATERIALIZED" call (
          field "call_id" (str call.call_id) (
            field "tool_spec_digest" (str call.tool_spec_digest) (
              field "policy_digest" (str call.policy_digest) (
                field "tool_call_digest" (str (held_digest call))
                  (field "materialized_call" (obj (Call.to_dict call digest)) end))))))

  unfoldable pub append_approval_required : MaterializedToolCall → Exec (World S L P) LedgerEvent
  unfolding append_event
  append_approval_required call = append_event env request (
      call_event approval_required "WAITING_APPROVAL" call
        (call_metadata call (held_digest call) end))

  -- `_record_approval`
  unfoldable pub record_approval :
      MaterializedToolCall → ApprovalRecord → Exec (World S L P) LedgerEvent
  unfolding append_event
  record_approval call approval = do
    lift (assert_binds_to env.host approval call)
    append_event env request (
        call_event approval_recorded approval.decision call (
          call_metadata call (held_digest call)
            (field "approval" (obj (Approvals.to_dict approval)) end)))

  unfoldable pub append_rejection :
      MaterializedToolCall → ApprovalRecord → Exec (World S L P) LedgerEvent
  unfolding append_event
  append_rejection call approval = append_event env request (
      call_event tool_call_rejected "REJECTED" call (
        call_metadata call (held_digest call) (field "approval_id" (str approval.approval_id) end)))

  unfoldable pub append_execution_failed :
      MaterializedToolCall → Error → Exec (World S L P) LedgerEvent
  unfolding append_event safe_error_type
  append_execution_failed call error = append_event env request (
      call_event tool_execution_failed "FAILED" call (
        call_metadata call (held_digest call)
          (field "error_type" (str (safe_error_type (env.error_name error))) end)))

  -- `except Exception as exc: if isinstance(exc, (RunBindingError, ToolContractError)): raise`
  abbrev exact_or_contract : {A : Type 0} → Result A → Result A
  exact_or_contract (ok a) = ok a
  exact_or_contract (err run_binding) = err run_binding
  exact_or_contract (err e) = err (if is_tool_contract e then e else tool_contract)

  check_binding : MaterializedToolCall → ToolSpec → Result ToolSpec
  check_binding call spec =
      bind (refuse (not (call.policy_digest == request.tool_policy_digest)) run_binding)
        (λ _. bind (check env.policy spec) (λ _. ok spec))

  -- `_assert_current_call`
  unfoldable pub assert_current_call : MaterializedToolCall → Result ToolSpec
  unfolding check_binding
  assert_current_call call = exact_or_contract (
      bind
        (resolve_exact env.host call.tool_name call.tool_version call.tool_spec_digest env.registry)
        (check_binding call))

  unfoldable pub put_all : List ArtifactDraft → Exec (World S L P) (List String)
  put_all [] = pure []
  put_all (d ∷ ds) = do
    id ← (λ w. let (r, s) = env.store_put w.store d in (r, record w { store = s }))
    ids ← put_all ds
    pure (id ∷ ids)

  unfoldable pub execution_context : MaterializedToolCall → Result ToolExecutionContext
  execution_context call = bind (computed_digest env.host call) (λ key.
      make_context env.host (record {
        run_id = call.run_id;
        step_id = call.step_id;
        call_id = call.call_id;
        idempotency_key = key;
        arguments = call.arguments;
        input_artifact_ids = call.input_artifact_ids;
      }))

  -- The body of the `try` block: the executor's result, checked, with its artifacts published.
  unfoldable pub perform :
      ToolSpec
      → ToolExecutor S L P
      → ToolExecutionContext
      → Exec (World S L P) (ToolResult × List ℕ × List String)
  unfolding put_all read_artifact checked_result
  perform spec executor c = do
    raw ← (λ w.
        let (r, store, lineage) =
          executor c (read_artifact env.host (env.store_read w.store) c) w in
        (r, record w { store = store; lineage = lineage }))
    result ← lift (checked_result env.host raw)
    encoded ← lift (canonical_json_bytes env.host result.value)
    when (ltb max_tool_result_data_bytes (length encoded)) (raise tool_contract)
    lift (validate_output env.host spec result.value)
    outputs ← put_all result.artifacts
    pure (result, encoded, outputs)

  unfoldable pub append_success :
      MaterializedToolCall → ToolResult → List ℕ → List String → Exec (World S L P) LedgerEvent
  unfolding append_event
  append_success call result encoded outputs =
      append_event env request
        (record (call_event tool_execution_succeeded "SUCCEEDED" call (
          call_metadata call (held_digest call) (
            field "result_data" (thaw_json result.value)
              (field "result_data_sha256" (str (env.host.sha256 encoded)) end)))) {
                output_artifact_ids = outputs;
              })

  -- The end of `_execute_call`, by how the `try` block ended.
  unfoldable pub conclude :
      MaterializedToolCall
      → Result (ToolResult × List ℕ × List String)
      → Exec (World S L P) LedgerEvent
  unfolding append_success append_execution_failed project_success
  conclude call (err e) = append_execution_failed call e
  conclude call (ok (result, encoded, outputs)) = do
    success ← append_success call result encoded outputs
    project_success env success
    pure success

  -- `_execute_call`
  unfoldable pub execute_call : MaterializedToolCall → Exec (World S L P) LedgerEvent
  unfolding perform conclude execution_context assert_current_call
  execute_call call = do
    spec ← lift (assert_current_call call)
    executor ← lift (executor_for env.host spec env.registry)
    append_event env request (
        call_event tool_execution_started "STARTED" call
          (call_metadata call (held_digest call) end))
    c ← lift (execution_context call)
    (λ w. let (r, w') = perform spec executor c w in conclude call r w')
