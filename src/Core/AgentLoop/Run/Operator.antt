-- ===== src/Core/AgentLoop/Run/Operator.antt =====
-- core/agent_loop.py: the branches of `run` for a call that waits for a decision or its execution.
use molly.Prelude.{
  Bool, true, ◌||◌, Option, none, some, List, ◌==◌, if◌then◌else◌, Result, ok, err, bind,
  approval_error,
}
use molly.Core.Json.{str, end, field}
use molly.Core.Ledger.{LedgerEvent}
use molly.Core.Tools.Call.{MaterializedToolCall}
use molly.Core.Approvals.{ApprovalRecord, approved, rejected, approval_digest}
use molly.Core.Runs.{RunRequest}
use molly.Core.AgentLoop.{run_rejected}
use molly.Core.AgentLoop.Project.{CallState, RunProjection, has_decision}
use molly.Core.AgentLoop.Limits.{counts, hard_limit_reason}
use molly.Core.AgentLoop.World.{Env, World, Exec, pure, lift, append_event, ◌>>◌}
use molly.Core.AgentLoop.Execute.{
  call_event, record_approval, append_rejection, assert_current_call, execute_call, held_digest,
}
use molly.Core.AgentLoop.Run.Answers.{Turn, again, result, fresh_result, finish, append_hard_limit}

module _ {S L P : Type 0} (env : Env S L P) (request : RunRequest) where
  unfoldable pub rejection_event : MaterializedToolCall → LedgerEvent
  rejection_event call = call_event run_rejected "REJECTED" call (
      field "rejected_call_id" (str call.call_id) (
        field "tool_call_digest" (str (held_digest call))
          (field "reason" (str "operator rejected the pending operation") end)))

  -- Whether two approvals have the same digest; `approval_error` if not.
  unfoldable pub same_approval : ApprovalRecord → ApprovalRecord → Result (Unit {0})
  same_approval approval given = bind (approval_digest env.host approval) (λ supplied.
      bind (approval_digest env.host given)
        (λ recorded. if supplied == recorded then ok tt else err approval_error))

  -- The decision on a call that had none: it is recorded, and a rejection ends the run.
  unfoldable pub record_decision : CallState → ApprovalRecord → Exec (World S L P) Turn
  unfolding fresh_result finish append_event record_approval append_rejection rejection_event
  record_decision pending approval = do
    record_approval env request pending.call approval
    if approval.decision == rejected
        then (do
          append_rejection env request pending.call approval
          append_event env request (rejection_event pending.call)
          finish env request (fresh_result env request "approval rejected"))
        else pure (again none true)

  -- The branch of `run` for a call that waits for an approval.
  unfoldable pub decide_pending :
      RunProjection → CallState → Option ApprovalRecord → Bool → Exec (World S L P) Turn
  unfolding result finish record_decision same_approval
  decide_pending p pending none resume =
      lift (assert_current_call env request pending.call)
      >> finish env request (result env request p "")
  decide_pending p pending (some approval) resume =
      lift (assert_current_call env request pending.call) >> elim pending.approval [
        | some given ↦ lift (same_approval approval given) >> pure (again none resume)
        | none ↦ record_decision pending approval
      ]

  -- The test of an approval that was supplied where no call waits for one.
  unfoldable pub check_supplied : RunProjection → Option ApprovalRecord → Result (Unit {0})
  unfolding same_approval
  check_supplied p none = ok tt
  check_supplied p (some approval) = elim p.pending_execution [
    | none ↦ err approval_error
    | some s ↦ elim s.approval [
      | none ↦ err approval_error
      | some given ↦
          if given.decision == approved then same_approval approval given else err approval_error
    ]
  ]

  -- The branch of `run` for a call that may be executed now.
  unfoldable pub execute_pending : List LedgerEvent → CallState → Bool → Exec (World S L P) Turn
  unfolding append_hard_limit fresh_result finish execute_call
  execute_pending events s resume = elim (hard_limit_reason request events true) [
    | some reason ↦
        append_hard_limit env request reason (counts events)
        >> finish env request (fresh_result env request "")
    | none ↦
        execute_call env request s.call
        >> (if resume || has_decision approved s.approval
            then finish env request (fresh_result env request "")
            else pure (again none resume))
  ]
