-- ===== src/Core/AgentLoop/Run.antt =====
-- core/agent_loop.py: the loop of `AgentLoop.run`; its start, its answers and the branches of a
-- pending call are in the children.
pub mod Start
pub mod Answers
pub mod Operator
use molly.Prelude.{
  ℕ, zero, suc, String, Bool, true, false, not, ◌||◌, Option, none, some, List, [], ◌∷◌, ◌==◌, any,
  if◌then◌else◌, Result, ok, err, Error, rethrow, bind, run_binding, run_state, approval_error,
  action_error, tool_contract, stop_iteration, out_of_fuel, is_some,
}
use molly.Core.Json.{Fields, str, lst, obj, int, end, field, get, strings}
use molly.Core.Ids.{validate_digest_reference}
use molly.Core.Ledger.{LedgerEvent}
use molly.Core.Tools.Spec.{ToolSpec, validate_arguments}
use molly.Core.Tools.Registry.{resolve, model_visible_tools}
use molly.Core.Tools.Policy.{check, policy_digest, requires_approval}
use molly.Core.Tools.Actions.{
  StructuredAction, ToolCallProposal, tool_call, stop, request_review, action_to_dict,
  action_from_value,
}
use molly.Core.Tools.Call.{MaterializedToolCall}
use molly.Core.Approvals.{ApprovalRecord, approved, rejected, approval_digest}
use molly.Core.Runs
use molly.Core.Runs.{RunRequest, RunContext, RunResult, request_sha256}
use molly.Core.AgentLoop.{
  run_started, decision_recorded, run_rejected, run_stopped, review_requested, budget_exhausted,
  is_type,
}
use molly.Core.AgentLoop.Project.{
  CallState, RunProjection, project, mapping_at, of_type, has_decision, is_empty,
}
use molly.Core.AgentLoop.Limits.{Counts, counts, effective_hard_limits, hard_limit_reason}
use molly.Core.AgentLoop.View.{visible_artifacts, context, result_of}
use molly.Core.AgentLoop.World.{
  Env, World, Exec, Reply, raises, action, value, pure, raise, lift, for_each, run_events,
  append_event, draft, ◌>>=◌, ◌>>◌,
}
use molly.Core.AgentLoop.Lineage.{reconcile_success_lineage}
use molly.Core.AgentLoop.Execute.{
  is_tool_contract, call_event, materialize, validate_proposal_inputs, append_materialized,
  append_approval_required, record_approval, append_rejection, assert_current_call, execute_call,
  held_digest,
}
unfoldable pub use Start.*
unfoldable pub use Answers.*
unfoldable pub use Operator.*

-- `isinstance(exc, (ToolContractError, SchemaValidationError, ToolPolicyError))`, else a
-- `ToolContractError` from it
abbrev fail_closed : Error → Error
fail_closed e = if is_tool_contract e then e else tool_contract

module _ {S L P : Type 0} (env : Env S L P) (request : RunRequest) where
  -- The checks of a proposal, in their order.
  unfoldable pub check_proposal : ToolCallProposal → List LedgerEvent → Exec (World S L P) ToolSpec
  unfolding validate_proposal_inputs
  check_proposal proposal events = do
    spec ← lift (resolve proposal.tool_name none env.registry)
    validate_proposal_inputs env request proposal (visible_artifacts request events)
    lift (validate_arguments env.host spec proposal.arguments)
    lift (check env.policy spec)
    pure spec

  -- The `try` block round them.
  unfoldable pub admit : ToolCallProposal → List LedgerEvent → Exec (World S L P) ToolSpec
  unfolding check_proposal
  admit proposal events w =
      let (r, w') = check_proposal proposal events w in
      (elim r [ ok spec ↦ ok spec | err e ↦ err (fail_closed e) ], w')

  -- What follows an admitted proposal.
  unfoldable pub propose_call : ToolCallProposal → List LedgerEvent → Bool → Exec (World S L P) Turn
  unfolding admit materialize append_materialized append_approval_required execute_call fresh_result
      finish
  propose_call proposal events resume = do
    spec ← admit proposal events
    call ← materialize env request proposal spec
    append_materialized env request call
    if requires_approval env.policy spec
        then append_approval_required env request call
          >> finish env request (fresh_result env request "")
        else execute_call env request call >> pure (again none resume)

  -- What follows a recorded decision.
  unfoldable pub act : StructuredAction → List LedgerEvent → Bool → Exec (World S L P) Turn
  unfolding propose_call append_event fresh_result finish
  act (tool_call proposal) events resume = propose_call proposal events resume
  act (stop reason) events resume =
      append_event env request (draft run_stopped "STOPPED" (field "reason" (str reason) end))
      >> finish env request (fresh_result env request "")
  act (request_review r) events resume =
      append_event env request (
        draft review_requested "WAITING_REVIEW"
          (field "action" (obj (action_to_dict (request_review r))) end))
      >> finish env request (fresh_result env request "")

  unfoldable pub decide :
      List LedgerEvent → Bool → Result StructuredAction → Exec (World S L P) Turn
  unfolding act append_event fresh_result finish
  decide events resume (ok a) =
      append_event env request
        (draft decision_recorded "PROPOSED" (field "action" (obj (action_to_dict a)) end))
      >> act a events resume
  decide events resume (err stop_iteration) =
      finish env request (fresh_result env request "DecisionProvider has no further action")
  decide events resume (err e) = raise e

  -- The branch of `run` that asks the provider, behind the strict limits.
  unfoldable pub ask_provider : List LedgerEvent → Bool → Exec (World S L P) Turn
  unfolding append_hard_limit fresh_result finish invoke_provider decide
  ask_provider events resume = elim (hard_limit_reason request events false) [
    | some reason ↦
        append_hard_limit env request reason (counts events)
        >> finish env request (fresh_result env request "")
    | none ↦ do
      c ← lift (context env.host request events)
      (λ w. let (r, w') = invoke_provider env request c w in decide events resume r w')
  ]

  -- What is left of a turn when nothing waits for an approval.
  unfoldable pub proceed :
      List LedgerEvent → RunProjection → Option ApprovalRecord → Bool → Exec (World S L P) Turn
  unfolding check_supplied execute_pending ask_provider result finish
  proceed events p approval resume =
      lift (check_supplied env request p approval)
      >> (if p.waiting_review
          then finish env request (result env request p "")
          else elim p.pending_execution [
            | some s ↦ execute_pending env request events s resume
            | none ↦ ask_provider events resume
          ])

  -- One round of `while True`
  unfoldable pub turn : Option ApprovalRecord → Bool → Exec (World S L P) Turn
  unfolding run_events decide_pending proceed result finish
  turn approval resume = do
    events ← run_events env request.run_id
    p ← lift (project env.host events)
    if is_some p.terminal_event
        then (if is_some approval
            then raise approval_error
            else finish env request (result env request p ""))
        else if p.interrupted
        then (if is_some approval
            then raise approval_error
            else finish env request (result env request p "call needs reconciliation"))
        else elim p.pending_approval [
          | some pending ↦ decide_pending env request p pending approval resume
          | none ↦ proceed events p approval resume
        ]

  unfoldable pub run_loop : ℕ → Option ApprovalRecord → Bool → Exec (World S L P) RunResult
  unfolding turn
  run_loop zero approval resume = raise out_of_fuel
  run_loop (suc fuel) approval resume = turn approval resume >>= λ t. elim t [
    | finished r ↦ pure r
    | again approval' resume' ↦ run_loop fuel approval' resume'
  ]

  -- `AgentLoop.run`
  unfoldable pub run : ℕ → Option ApprovalRecord → Exec (World S L P) RunResult
  unfolding initialize_or_validate reconcile_success_lineage run_loop
  run fuel approval = do
    events ← initialize_or_validate env request
    reconcile_success_lineage env events
    run_loop fuel approval false
