-- ===== src/Core/AgentLoop/Progress.antt =====
-- core/agent_loop.py: each branch of a round that goes on leaves fewer rounds than there were.
use molly.Prelude.{
  ℕ, suc, ◌≤◌, ◌≡◌, refl, Bool, true, false, ◌==◌, ◌||◌, List, Option, none, some, Result,
  Bool-cases, Option-cases, inl, inr, arith, any,
}
use molly.Core.Tools.Spec.{ToolSpec}
use molly.Core.Tools.Execution.{ToolExecutionContext}
use molly.Core.Json.{end}
use molly.Core.Ids.Laws.{IsoLaws}
use molly.Core.Ledger.{LedgerEvent}
use molly.Core.Tools.Call.{MaterializedToolCall}
use molly.Core.Approvals.{ApprovalRecord, approved, rejected}
use molly.Core.Runs.{RunRequest}
use molly.Core.AgentLoop.{tool_execution_started}
use molly.Core.AgentLoop.Project.{CallState, RunProjection, has_decision}
use molly.Core.AgentLoop.Limits.{hard_limit_reason}
use molly.Core.AgentLoop.World.{ToolExecutor, Env, lift, ◌>>=◌, draft}
use molly.Core.AgentLoop.Execute.{
  call_event, call_metadata, held_digest, execute_call, record_approval, append_rejection,
}
use molly.Core.AgentLoop.Run.{record_decision, decide_pending, execute_pending}
use molly.Core.AgentLoop.Remaining.{
  Left, Left-reads, start_of_call, Next, left_steps, finish-Ends, again-Ends, forgets,
}
use molly.Core.AgentLoop.Quiet.{at_once}
use molly.Core.AgentLoop.Steps.{Along-bind, Along-lift, append_call-Along}
use molly.Core.AgentLoop.Course.{calm, performed, performed-Along}
use molly.Core.AgentLoop.Measure.{is_start_of, is_call, rounds_left, rounds_left-started}
use molly.Core.AgentLoop.Outcomes.{
  Ends, Ends-bind, Ends-Quiet, Ends-Along, Ends-weaken, Added, Reads, append_event-Ends,
}

module _ {S L P : Type 0} (env : Env S L P) (laws : IsoLaws env.host) (request : RunRequest)
    (n : ℕ) where
  performed_tail :
      (call : MaterializedToolCall) (spec : ToolSpec) (executor : ToolExecutor S L P)
      (r : Result ToolExecutionContext)
      → Ends
          (Left env.host request n)
          (λ _. Left env.host request n)
          (lift r >>= performed env (left_steps env laws request n) request calm call spec executor)
  performed_tail call spec executor r = Ends-Along (
      Along-bind (left_steps env laws request n) _ _ (Along-lift (left_steps env laws request n) r)
        (performed-Along env (left_steps env laws request n) request calm call spec executor))

  -- The execution of a call that was materialized and never started.
  execute_call-Ends :
      (call : MaterializedToolCall) (es : List LedgerEvent)
      → any (is_call call.call_id) es ≡ true
      → any (is_start_of (some call.call_id)) es ≡ false
      → rounds_left request es ≤ suc n
      → Ends
          (Reads env.host request.run_id es)
          (λ _. Left env.host request n)
          (execute_call env request call)
  unfolding execute_call draft
  execute_call-Ends call es known never m =
      Ends-bind (λ _. Reads env.host request.run_id es) _ _ (Ends-Quiet (at_once (λ w. refl)))
        (λ spec.
          Ends-bind (λ _. Reads env.host request.run_id es) _ _ (Ends-Quiet (at_once (λ w. refl)))
            (λ executor.
              Ends-bind (λ _. Left env.host request n) _ _
                (Ends-weaken
                  (λ x f (added : Added env.host request.run_id es _ _ f).
                    let start =
                      start_of_call env.host call.call_id _ added.event added.same_type
                        added.same_metadata in
                    let fewer =
                      rounds_left-started request es added.event call.call_id start never known in
                    Left-reads env.host request n f _ added.reads (omega (arith, m, fewer)))
                  (append_event-Ends env laws request es (
                    call_event tool_execution_started "STARTED" call
                      (call_metadata call (held_digest call) end))))
                (λ _. performed_tail call spec executor _)))

  pub execute_pending-Ends :
      (events : List LedgerEvent) (s : CallState) (resume : Bool)
      → any (is_call s.call.call_id) events ≡ true
      → any (is_start_of (some s.call.call_id)) events ≡ false
      → rounds_left request events ≤ suc n
      → Ends
          (Reads env.host request.run_id events)
          (Next env.host request n)
          (execute_pending env request events s resume)
  unfolding execute_pending
  execute_pending-Ends events s resume known never m =
      elim (Option-cases (hard_limit_reason request events true)) [
        | inl within ↦
            rw (execute_pending, within)
              (Ends-bind (λ _. Left env.host request n) _ _
                (execute_call-Ends s.call events known never m)
                (λ _. elim (Bool-cases (resume || has_decision approved s.approval)) [
                  | inl over ↦ rw over (finish-Ends env laws request n _)
                  | inr on ↦ rw on (again-Ends env laws request n resume)
                ]))
        | inr (reason, out) ↦
            rw (execute_pending, out)
              (Ends-bind (λ _ _. Unit) _ _ (forgets env laws request n _)
                (λ _. finish-Ends env laws request n _))
      ]

  record_decision-Ends :
      (pending : CallState) (approval : ApprovalRecord)
      → Ends
          (Left env.host request n)
          (Next env.host request n)
          (record_decision env request pending approval)
  unfolding record_decision record_approval append_rejection
  record_decision-Ends pending approval =
      Ends-bind (λ _. Left env.host request n) _ _
        (Ends-Along (
          Along-bind (left_steps env laws request n) _ _
            (Along-lift (left_steps env laws request n) _)
            (λ _.
              append_call-Along env (left_steps env laws request n) request "APPROVAL_RECORDED" _
                pending.call _ (calm "APPROVAL_RECORDED" refl))))
        (λ _. elim (Bool-cases (approval.decision == rejected)) [
          | inl no_more ↦ rw no_more (
              Ends-bind (λ _ _. Unit) _ _ (forgets env laws request n _)
                (λ _.
                  Ends-bind (λ _ _. Unit) _ _ (forgets env laws request n _)
                    (λ _. finish-Ends env laws request n _)))
          | inr on ↦ rw on (again-Ends env laws request n true)
        ])

  pub decide_pending-Ends :
      (p : RunProjection) (pending : CallState) (approval : Option ApprovalRecord) (resume : Bool)
      → Ends
          (Left env.host request n)
          (Next env.host request n)
          (decide_pending env request p pending approval resume)
  unfolding decide_pending
  decide_pending-Ends p pending none resume =
      Ends-bind (λ _. Left env.host request n) _ _ (Ends-Quiet (at_once (λ w. refl)))
        (λ _. finish-Ends env laws request n _)
  decide_pending-Ends p pending (some approval) resume =
      Ends-bind (λ _. Left env.host request n) _ _ (Ends-Quiet (at_once (λ w. refl)))
        (λ _. elim (Option-cases pending.approval) [
          | inl undecided ↦ rw undecided (record_decision-Ends pending approval)
          | inr (given, closed) ↦ rw closed (
              Ends-bind (λ _. Left env.host request n) _ _ (Ends-Quiet (at_once (λ w. refl)))
                (λ _. again-Ends env laws request n resume))
        ])
