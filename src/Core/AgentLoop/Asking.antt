-- ===== src/Core/AgentLoop/Asking.antt =====
-- core/agent_loop.py: the branch of a run that asks the provider, and with it the whole run, by
-- what holds of the ledger file before a decision, after it, and after a call.
use molly.Prelude.{
  ℕ, String, ◌≡◌, refl, Bool, false, List, Option, none, Result, ok, err, Bool-cases, Option-cases,
  inl, inr, stop_iteration,
}
use molly.Core.Json.{Fields}
use molly.Core.Ledger.{LedgerEvent}
use molly.Core.Ledger.File.{File, for_run}
use molly.Core.Tools.Policy.{requires_approval}
use molly.Core.Tools.Actions.{StructuredAction, ToolCallProposal, tool_call, stop, request_review}
use molly.Core.Tools.Call.{MaterializedToolCall}
use molly.Core.Approvals.{ApprovalRecord}
use molly.Core.Runs.{RunRequest, RunContext}
use molly.Core.AgentLoop.{decision_recorded, tool_call_materialized}
use molly.Core.AgentLoop.Limits.{counts, hard_limit_reason}
use molly.Core.AgentLoop.View.{context}
use molly.Core.AgentLoop.World.{Env, World, Exec, lift, draft, append_event}
use molly.Core.AgentLoop.Execute.{call_event, append_materialized}
use molly.Core.AgentLoop.Run.{
  Turn, again, propose_call, act, decide, ask_provider, invoke_provider, run,
}
use molly.Core.AgentLoop.Quiet.{at_once, admit-Quiet, materialize-Quiet, invoke_provider-Quiet}
use molly.Core.AgentLoop.Steps.{
  Steps, Along-bind, Along-lift, append_draft-Along, append_call-Along,
}
use molly.Core.AgentLoop.Course.{
  calm_allowed, calm, uncounted, told, append_hard_limit-Along, execute_call-Along,
}
use molly.Core.AgentLoop.Rounds.{run-Along}
use molly.Core.AgentLoop.Phases.{
  Phase, asking, decided, settled, Kept, Leads, Leads-bind, Leads-Quiet, append_event-Leads,
}

module _ {S L P : Type 0} (env : Env S L P) (request : RunRequest) {holds : Phase → File → Type 0}
    (kept : Kept env request holds) where
  calm_steps : (i : Phase) → Steps env.host calm_allowed (λ f g. holds i f → holds i g)
  calm_steps i = record {
    stay = λ f p. p;
    chain = λ f g k a b p. b (a p);
    step = λ disk e f good p. kept.other i disk e f (uncounted e.event_type good) p;
  }

  settle :
      {X : Type 0} (m : Exec (World S L P) X)
      → Leads (holds settled) (holds settled) m
      → Leads (holds decided) (holds settled) m
  settle m a = record { goes = λ w p. a.goes w (kept.settles w.ledger p) }

  settle_asking :
      {X : Type 0} (m : Exec (World S L P) X)
      → Leads (holds settled) (holds settled) m
      → Leads (holds asking) (holds settled) m
  settle_asking m a = record {
    goes = λ w p. a.goes w (kept.settles w.ledger (kept.decides w.ledger p));
  }

  append_call-Leads :
      (status : String) (call : MaterializedToolCall) (metadata : Fields)
      → Leads
          (holds decided)
          (holds settled)
          (append_event env request (call_event tool_call_materialized status call metadata))
  unfolding draft
  append_call-Leads status call metadata =
      append_event-Leads env request (holds decided) (holds settled)
        (call_event tool_call_materialized status call metadata) (kept.settles) kept.call

  append_decision-Leads :
      (status : String) (metadata : Fields)
      → Leads
          (holds asking)
          (holds decided)
          (append_event env request (draft decision_recorded status metadata))
  unfolding draft
  append_decision-Leads status metadata =
      append_event-Leads env request (holds asking) (holds decided)
        (draft decision_recorded status metadata) kept.decides kept.decision

  append_materialized-Leads :
      (call : MaterializedToolCall)
      → Leads (holds decided) (holds settled) (append_materialized env request call)
  unfolding append_materialized
  append_materialized-Leads call =
      Leads-bind _ _ (Leads-Quiet (at_once (λ w. refl)) (λ f p. p))
        (λ digest. append_call-Leads _ call _) (kept.settles)

  propose_call-Leads :
      (proposal : ToolCallProposal) (events : List LedgerEvent) (resume : Bool)
      → Leads (holds decided) (holds settled) (propose_call env request proposal events resume)
  unfolding propose_call
  propose_call-Leads proposal events resume =
      Leads-bind _ _ (Leads-Quiet (admit-Quiet env request proposal events) (λ f p. p))
        (λ spec.
          Leads-bind _ _ (Leads-Quiet (materialize-Quiet env request proposal spec) (λ f p. p))
            (λ call.
              Leads-bind _ _ (append_materialized-Leads call)
                (λ _. elim (Bool-cases (requires_approval env.policy spec)) [
                  | inl guarded ↦ rw guarded (
                      Along-bind (calm_steps settled) _ _
                        (append_call-Along env (calm_steps settled) request "APPROVAL_REQUIRED" _
                          call _ (calm "APPROVAL_REQUIRED" refl))
                        (λ _. told env (calm_steps settled) request calm ""))
                  | inr free ↦ rw free (
                      Along-bind (calm_steps settled) _ _
                        (execute_call-Along env (calm_steps settled) request calm call)
                        (λ _. Along-lift (calm_steps settled) (ok (again none resume))))
                ])
                (λ f p. p))
            (kept.settles))
        (kept.settles)

  act-Leads :
      (a : StructuredAction) (events : List LedgerEvent) (resume : Bool)
      → Leads (holds decided) (holds settled) (act env request a events resume)
  unfolding act
  act-Leads (tool_call proposal) events resume = propose_call-Leads proposal events resume
  act-Leads (stop reason) events resume = settle _ (
      Along-bind (calm_steps settled) _ _
        (append_draft-Along env (calm_steps settled) request "RUN_STOPPED" _ _
          (calm "RUN_STOPPED" refl))
        (λ _. told env (calm_steps settled) request calm ""))
  act-Leads (request_review r) events resume = settle _ (
      Along-bind (calm_steps settled) _ _
        (append_draft-Along env (calm_steps settled) request "REVIEW_REQUESTED" _ _
          (calm "REVIEW_REQUESTED" refl))
        (λ _. told env (calm_steps settled) request calm ""))

  decide-Leads :
      (events : List LedgerEvent) (resume : Bool) (r : Result StructuredAction)
      → Leads (holds asking) (holds settled) (decide env request events resume r)
  unfolding decide
  decide-Leads events resume (ok a) =
      Leads-bind _ _ (append_decision-Leads _ _) (λ _. act-Leads a events resume) kept.settles
  decide-Leads events resume (err stop_iteration) =
      settle_asking _
        (told env (calm_steps settled) request calm "DecisionProvider has no further action")
  decide-Leads events resume (err e) =
      Leads-Quiet (at_once (λ w. refl)) (λ f p. kept.settles f (kept.decides f p))

  asked : List LedgerEvent → Bool → RunContext → Exec (World S L P) Turn
  asked events resume c w =
      let (r, w') = invoke_provider env request c w in decide env request events resume r w'

  asked-Leads :
      (events : List LedgerEvent) (resume : Bool) (c : RunContext)
      → Leads (holds asking) (holds settled) (asked events resume c)
  unfolding asked
  asked-Leads events resume c = record {
    goes = λ w p.
        let answer = invoke_provider env request c w in
        (decide-Leads events resume answer.0).goes answer.1
          (rw ((invoke_provider-Quiet env request c).leaves w) p);
  }

  ask_provider_goes :
      (events : List LedgerEvent) (resume : Bool) (w : World S L P)
      → for_run env.host request.run_id w.ledger ≡ ok events
      → holds settled w.ledger
      → holds settled (ask_provider env request events resume w).1.ledger
  unfolding ask_provider asked
  ask_provider_goes events resume w r p =
      elim (Option-cases (hard_limit_reason request events false)) [
        | inr (reason, out) ↦
            rw (ask_provider, out)
              ((Along-bind (calm_steps settled) _ _
                  (append_hard_limit-Along env (calm_steps settled) request calm reason
                    (counts events))
                  (λ _. told env (calm_steps settled) request calm "")).goes
                w p)
        | inl within ↦
            rw (ask_provider, within)
              ((Leads-bind (lift (context env.host request events)) (asked events resume)
                  (Leads-Quiet (at_once (λ w. refl)) (λ f q. q)) (asked-Leads events resume)
                  (λ f q. kept.settles f (kept.decides f q))).goes
                w (kept.enter w.ledger events r within p))
      ]

  -- A run keeps, with any fuel and any approval, what its appends keep.
  pub run_keeps :
      (fuel : ℕ) (approval : Option ApprovalRecord) (w : World S L P)
      → holds settled w.ledger
      → holds settled (run env request fuel approval w).1.ledger
  run_keeps fuel approval w =
      (run-Along env (calm_steps settled) request calm ask_provider_goes fuel approval).goes w
