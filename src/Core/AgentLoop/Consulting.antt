-- ===== src/Core/AgentLoop/Consulting.antt =====
-- core/agent_loop.py: the branch of a round that asks the provider leaves fewer rounds than there
-- were.
use molly.Prelude.{
  ℕ, suc, ◌≤◌, ◌≡◌, refl, Bool, false, List, none, Result, ok, err, Bool-cases, inl, inr, arith,
  stop_iteration,
}
use molly.Core.Host.{Host}
use molly.Core.Ids.Laws.{IsoLaws}
use molly.Core.Ledger.{LedgerEvent}
use molly.Core.Ledger.File.{File}
use molly.Core.Tools.Policy.{requires_approval}
use molly.Core.Tools.Actions.{StructuredAction, ToolCallProposal, tool_call, stop, request_review}
use molly.Core.Tools.Call.{MaterializedToolCall}
use molly.Core.Runs.{RunRequest, RunContext}
use molly.Core.AgentLoop.{decision_recorded, tool_call_materialized}
use molly.Core.AgentLoop.Limits.{counts, effective_hard_limits, hard_limit_reason}
use molly.Core.AgentLoop.View.{context}
use molly.Core.AgentLoop.World.{Env, lift, draft}
use molly.Core.AgentLoop.Execute.{call_event, append_materialized}
use molly.Core.AgentLoop.Run.{propose_call, act, decide, ask_provider, invoke_provider}
use molly.Core.AgentLoop.Quiet.{at_once, admit-Quiet, materialize-Quiet, invoke_provider-Quiet}
use molly.Core.AgentLoop.Course.{calm, execute_call-Along}
use molly.Core.AgentLoop.Phases.{append_event-Leads}
use molly.Core.AgentLoop.Measure.{rounds_left, rounds_left-decision}
use molly.Core.AgentLoop.Outcomes.{
  Ends, Ends-bind, Ends-Quiet, Ends-Along, Ends-weaken, Added, Reads, append_event-Ends,
}
use molly.Core.AgentLoop.Remaining.{
  Left, Left-reads, Left-call, Next, left_steps, finish-Ends, again-Ends, forgets,
}

Left-more :
    (h : Host) (request : RunRequest) (n : ℕ) (f : File)
    → Left h request n f
    → Left h request (suc n) f
Left-more h request n f m = record { at_most = λ es r. omega (arith, m.at_most es r) }

module _ {S L P : Type 0} (env : Env S L P) (laws : IsoLaws env.host) (request : RunRequest)
    (n : ℕ) where
  append_materialized-Ends :
      (call : MaterializedToolCall)
      → Ends
          (Left env.host request n)
          (λ _. Left env.host request (suc n))
          (append_materialized env request call)
  unfolding append_materialized draft
  append_materialized-Ends call =
      Ends-bind (λ _. Left env.host request n) _ _ (Ends-Quiet (at_once (λ w. refl)))
        (λ digest. Ends-Along (
          append_event-Leads env request (Left env.host request n) (Left env.host request (suc n))
            (call_event tool_call_materialized _ call _) (Left-more env.host request n)
            (λ disk e f t m. Left-call env.host laws request n disk e f t m)))

  propose_call-Ends :
      (proposal : ToolCallProposal) (events : List LedgerEvent) (resume : Bool)
      → Ends
          (Left env.host request n)
          (Next env.host request (suc n))
          (propose_call env request proposal events resume)
  unfolding propose_call
  propose_call-Ends proposal events resume =
      Ends-bind (λ _. Left env.host request n) _ _
        (Ends-Quiet (admit-Quiet env request proposal events))
        (λ spec.
          Ends-bind (λ _. Left env.host request n) _ _
            (Ends-Quiet (materialize-Quiet env request proposal spec))
            (λ call.
              Ends-bind (λ _. Left env.host request (suc n)) _ _ (append_materialized-Ends call)
                (λ _. elim (Bool-cases (requires_approval env.policy spec)) [
                  | inl guarded ↦ rw guarded (
                      Ends-bind (λ _ _. Unit) _ _ (forgets env laws request (suc n) _)
                        (λ _. finish-Ends env laws request (suc n) _))
                  | inr free ↦ rw free (
                      Ends-bind (λ _. Left env.host request (suc n)) _ _
                        (Ends-Along (
                          execute_call-Along env (left_steps env laws request (suc n)) request calm
                            call))
                        (λ _. again-Ends env laws request (suc n) resume))
                ])))

  act-Ends :
      (a : StructuredAction) (events : List LedgerEvent) (resume : Bool)
      → Ends
          (Left env.host request n)
          (Next env.host request (suc n))
          (act env request a events resume)
  unfolding act
  act-Ends (tool_call proposal) events resume = propose_call-Ends proposal events resume
  act-Ends (stop reason) events resume =
      Ends-bind (λ _ _. Unit) _ _ (forgets env laws request (suc n) _)
        (λ _. finish-Ends env laws request (suc n) _)
  act-Ends (request_review r) events resume =
      Ends-bind (λ _ _. Unit) _ _ (forgets env laws request (suc n) _)
        (λ _. finish-Ends env laws request (suc n) _)

  module _ (events : List LedgerEvent)
      (room : suc (counts events).decisions ≤ (effective_hard_limits request).max_decisions)
      (bound : rounds_left request events ≤ suc (suc n)) where
    decide-Ends :
        (resume : Bool) (r : Result StructuredAction)
        → Ends
            (Reads env.host request.run_id events)
            (Next env.host request (suc n))
            (decide env request events resume r)
    unfolding decide draft
    decide-Ends resume (ok a) =
        Ends-bind (λ _. Left env.host request n) _ _
          (Ends-weaken
            (λ x f (added : Added env.host request.run_id events _ _ f).
              let fewer = rounds_left-decision request events added.event added.same_type room in
              Left-reads env.host request n f _ added.reads (omega (arith, bound, fewer)))
            (append_event-Ends env laws request events (draft decision_recorded _ _)))
          (λ _. act-Ends a events resume)
    decide-Ends resume (err stop_iteration) = finish-Ends env laws request (suc n) _
    decide-Ends resume (err e) = record { goes = λ w x p q. absurd (cc q) }

    asked-Ends :
        (resume : Bool) (c : RunContext)
        → Ends (Reads env.host request.run_id events) (Next env.host request (suc n)) (λ w.
          let (r, w') = invoke_provider env request c w in decide env request events resume r w')
    asked-Ends resume c = record {
      goes = λ w x p e.
          let answer = invoke_provider env request c w in
          (decide-Ends resume answer.0).goes answer.1 x
            (rw ((invoke_provider-Quiet env request c).leaves w) p) e;
    }

    pub ask_provider-Ends :
        (resume : Bool)
        → hard_limit_reason request events false ≡ none
        → Ends
            (Reads env.host request.run_id events)
            (Next env.host request (suc n))
            (ask_provider env request events resume)
    unfolding ask_provider
    ask_provider-Ends resume within =
        rw (ask_provider, within)
          (Ends-bind (λ _. Reads env.host request.run_id events)
            (lift (context env.host request events)) _ (Ends-Quiet (at_once (λ w. refl)))
            (λ c. asked-Ends resume c))
