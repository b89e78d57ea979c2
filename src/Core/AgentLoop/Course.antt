-- ===== src/Core/AgentLoop/Course.antt =====
-- core/agent_loop.py: what a whole run does to the ledger file, by what its counted events do.
use molly.Prelude.{
  if◌then◌else◌, arith, ℕ, String, ◌≡◌, refl, Bool, true, false, ◌||◌, ◌==◌, List, Option, none,
  some, Result, ok, err, Bool-cases, Option-cases, any, inl, inr,
}
use molly.Core.Ledger.{LedgerEvent}
use molly.Core.Ledger.File.{File}
use molly.Core.Tools.Spec.{ToolSpec}
use molly.Core.Tools.Call.{MaterializedToolCall}
use molly.Core.Tools.Execution.{ToolExecutionContext, ToolResult}
use molly.Core.Approvals.{ApprovalRecord, rejected, approved}
use molly.Core.Runs.{RunRequest}
use molly.Core.AgentLoop.{
  decision_recorded, tool_call_materialized, run_started, budget_exhausted, is_type,
}
use molly.Core.AgentLoop.Project.{CallState, RunProjection, is_empty, has_decision}
use molly.Core.AgentLoop.Limits.{Counts, counts, hard_limit_reason}
use molly.Core.AgentLoop.World.{ToolExecutor, Env, World, Exec, pure}
use molly.Core.AgentLoop.Execute.{
  record_approval, append_rejection, append_execution_failed, perform, append_success, conclude,
  execute_call,
}
use molly.Core.AgentLoop.Run.{
  again, initialize_or_validate, append_hard_limit, record_decision, decide_pending,
  execute_pending, finish, fresh_result, same_approval,
}
use molly.Core.AgentLoop.Quiet.{
  run_events-Quiet, project_success-Quiet, perform-Quiet, verify_inputs-Quiet, result-Quiet,
  fresh_result-Quiet,
}
use molly.Core.AgentLoop.Steps.{
  Steps, Along, Along-bind, Along-Quiet, Along-lift, append_draft-Along, append_call-Along,
  append_outputs-Along, relate_from,
}

-- The types of event that the limits count.
abbrev pub is_counted : String → Bool
is_counted kind = kind == decision_recorded || kind == tool_call_materialized

-- The types of event that the limits do not count.
pub calm_allowed : String → Bool
calm_allowed kind = if is_counted kind then false else true

pub calm : (kind : String) → is_counted kind ≡ false → calm_allowed kind ≡ true
unfolding calm_allowed
calm kind e = ground (arith, e)

pub uncounted : (kind : String) → calm_allowed kind ≡ true → is_counted kind ≡ false
unfolding calm_allowed
uncounted kind e = ground (arith, e)

pub uncounted_types :
    (kind : String)
    → is_counted kind ≡ false
    → (kind == decision_recorded ≡ false) × (kind == tool_call_materialized ≡ false)
uncounted_types kind e = (ground (arith, e), ground (arith, e))

module _ {S L P : Type 0} {R : File → File → Type 0} {allowed : String → Bool} (env : Env S L P)
    (steps : Steps env.host allowed R) (request : RunRequest)
    (calm : (kind : String) → is_counted kind ≡ false → allowed kind ≡ true) where
  -- The end of a turn that tells a result.
  pub told : (message : String) → Along R (finish env request (fresh_result env request message))
  told message = Along-Quiet steps (fresh_result-Quiet env request message)

  pub append_hard_limit-Along :
      (reason : String) (c : Counts) → Along R (append_hard_limit env request reason c)
  unfolding append_hard_limit
  append_hard_limit-Along reason c =
      Along-bind steps _ _ (Along-Quiet steps (run_events-Quiet env request.run_id)) (λ events.
        elim (Bool-cases (any (is_type budget_exhausted) events)) [
          | inl seen ↦ rw seen (Along-lift steps (ok tt))
          | inr new ↦ rw new (
              Along-bind steps _ (λ _. pure tt)
                (append_draft-Along env steps request budget_exhausted _ _
                  (calm budget_exhausted refl))
                (λ _. Along-lift steps (ok tt)))
        ])

  append_success-Along :
      (call : MaterializedToolCall) (r : ToolResult) (encoded : List ℕ) (outputs : List String)
      → Along R (append_success env request call r encoded outputs)
  unfolding append_success
  append_success-Along call r encoded outputs =
      append_outputs-Along env steps request "TOOL_EXECUTION_SUCCEEDED" _ call _ outputs
        (calm "TOOL_EXECUTION_SUCCEEDED" refl)

  conclude-Along :
      (call : MaterializedToolCall) (r : Result (ToolResult × List ℕ × List String))
      → Along R (conclude env request call r)
  unfolding conclude append_execution_failed
  conclude-Along call (err e) =
      append_call-Along env steps request "TOOL_EXECUTION_FAILED" _ call _
        (calm "TOOL_EXECUTION_FAILED" refl)
  conclude-Along call (ok (r, encoded, outputs)) =
      Along-bind steps _ _ (append_success-Along call r encoded outputs) (λ success.
        Along-bind steps _ _ (Along-Quiet steps (project_success-Quiet env success))
          (λ _. Along-lift steps (ok success)))

  -- The executor's round, and what is recorded of it.
  abbrev pub performed :
      MaterializedToolCall
      → ToolSpec
      → ToolExecutor S L P
      → ToolExecutionContext
      → Exec (World S L P) LedgerEvent
  performed call spec executor c w =
      let (r, w') = perform env request spec executor c w in conclude env request call r w'

  pub performed-Along :
      (call : MaterializedToolCall) (spec : ToolSpec) (executor : ToolExecutor S L P)
      (c : ToolExecutionContext)
      → Along R (performed call spec executor c)
  performed-Along call spec executor c = record {
    goes = λ w.
        let done = perform env request spec executor c w in
        relate_from R done.1.ledger w.ledger _
          ((perform-Quiet env request spec executor c).leaves w)
          ((conclude-Along call done.0).goes done.1);
  }

  pub execute_call-Along : (call : MaterializedToolCall) → Along R (execute_call env request call)
  unfolding execute_call
  execute_call-Along call = Along-bind steps _ _ (Along-lift steps _) (λ spec.
      Along-bind steps _ _ (Along-lift steps _) (λ executor.
        Along-bind steps _ _
          (append_call-Along env steps request "TOOL_EXECUTION_STARTED" _ call _
            (calm "TOOL_EXECUTION_STARTED" refl))
          (λ _.
            Along-bind steps _ _ (Along-lift steps _) (λ c. performed-Along call spec executor c))))

  pub execute_pending-Along :
      (events : List LedgerEvent) (s : CallState) (resume : Bool)
      → Along R (execute_pending env request events s resume)
  unfolding execute_pending
  execute_pending-Along events s resume =
      elim (Option-cases (hard_limit_reason request events true)) [
        | inl within ↦
            rw (execute_pending, within)
              (Along-bind steps _ _ (execute_call-Along s.call) (λ _.
                elim (Bool-cases (resume || has_decision approved s.approval)) [
                  | inl over ↦ rw over (told "")
                  | inr on ↦ rw on (Along-lift steps (ok (again none resume)))
                ]))
        | inr (reason, out) ↦
            rw (execute_pending, out)
              (Along-bind steps _ _ (append_hard_limit-Along reason (counts events)) (λ _. told ""))
      ]

  record_decision-Along :
      (pending : CallState) (approval : ApprovalRecord)
      → Along R (record_decision env request pending approval)
  unfolding record_decision record_approval append_rejection
  record_decision-Along pending approval =
      Along-bind steps _ _
        (Along-bind steps _ _ (Along-lift steps _) (λ _.
          append_call-Along env steps request "APPROVAL_RECORDED" _ pending.call _
            (calm "APPROVAL_RECORDED" refl)))
        (λ _. elim (Bool-cases (approval.decision == rejected)) [
          | inl no_more ↦ rw no_more (
              Along-bind steps _ _
                (append_call-Along env steps request "TOOL_CALL_REJECTED" _ pending.call _
                  (calm "TOOL_CALL_REJECTED" refl))
                (λ _.
                  Along-bind steps _ _
                    (append_call-Along env steps request "RUN_REJECTED" _ pending.call _
                      (calm "RUN_REJECTED" refl))
                    (λ _. told "approval rejected")))
          | inr on ↦ rw on (Along-lift steps (ok (again none true)))
        ])

  pub decide_pending-Along :
      (p : RunProjection) (pending : CallState) (approval : Option ApprovalRecord) (resume : Bool)
      → Along R (decide_pending env request p pending approval resume)
  unfolding decide_pending
  decide_pending-Along p pending none resume =
      Along-bind steps _ _ (Along-lift steps _)
        (λ _. Along-Quiet steps (result-Quiet env request p ""))
  decide_pending-Along p pending (some approval) resume =
      Along-bind steps _ _ (Along-lift steps _) (λ _. elim (Option-cases pending.approval) [
        | inl undecided ↦ rw undecided (record_decision-Along pending approval)
        | inr (given, closed) ↦ rw closed (
            Along-bind steps _ _ (Along-lift steps (same_approval env request approval given))
              (λ _. Along-lift steps (ok (again none resume))))
      ])

  pub initialize_or_validate-Along : Along R (initialize_or_validate env request)
  unfolding initialize_or_validate
  initialize_or_validate-Along = Along-bind steps _ _ (Along-lift steps _) (λ _.
      Along-bind steps _ _ (Along-Quiet steps (run_events-Quiet env request.run_id)) (λ existing.
        elim (Bool-cases (is_empty existing)) [
          | inl first ↦ rw first (
              Along-bind steps _ _ (Along-Quiet steps (verify_inputs-Quiet env request)) (λ _.
                Along-bind steps _ _ (Along-lift steps _) (λ digest.
                  Along-bind steps _ _
                    (append_draft-Along env steps request run_started _ _ (calm run_started refl))
                    (λ _. Along-Quiet steps (run_events-Quiet env request.run_id)))))
          | inr later ↦ rw later (
              Along-bind steps _ _ (Along-lift steps _) (λ start.
                Along-bind steps _ _ (Along-lift steps _) (λ _.
                  Along-bind steps _ _ (Along-Quiet steps (verify_inputs-Quiet env request))
                    (λ _. Along-lift steps (ok existing)))))
        ]))
