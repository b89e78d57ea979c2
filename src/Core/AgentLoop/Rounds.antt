-- ===== src/Core/AgentLoop/Rounds.antt =====
-- core/agent_loop.py: the rounds of a run, and the whole of it, along a relation on ledger files.
use molly.Prelude.{
  if◌then◌else◌, ℕ, zero, suc, String, ◌≡◌, refl, Bool, true, false, List, Option, none, some, ok,
  Result-cases, Bool-cases, Option-cases, is_some, inl, inr, approval_error,
}
use molly.Core.Ledger.{LedgerEvent}
use molly.Core.Ledger.File.{File, for_run}
use molly.Core.Approvals.{ApprovalRecord}
use molly.Core.Runs.{RunRequest, RunResult}
use molly.Core.AgentLoop.Project.{RunProjection, project}
use molly.Core.AgentLoop.World.{Env, World, Exec, pure, raise, run_events, ◌>>=◌}
use molly.Core.AgentLoop.Run.{
  Turn, finished, again, check_supplied, ask_provider, proceed, turn, run_loop, run, finish, result,
}
use molly.Core.AgentLoop.Quiet.{at_once, reconcile_success_lineage-Quiet, result-Quiet}
use molly.Core.AgentLoop.Steps.{Steps, Along, Along-bind, Along-Quiet}
use molly.Core.AgentLoop.Course.{
  is_counted, execute_pending-Along, decide_pending-Along, initialize_or_validate-Along,
}

module _ {S L P : Type 0} (env : Env S L P) (request : RunRequest) where
  -- What a run does that has ended or is held up.
  abbrev pub held : Option ApprovalRecord → RunProjection → String → Exec (World S L P) Turn
  held approval p message =
      if is_some approval
      then raise approval_error
      else finish env request (result env request p message)

-- The rest of a run, by what the branch does that asks the provider.
module _ {S L P : Type 0} {R : File → File → Type 0} {allowed : String → Bool} (env : Env S L P)
    (steps : Steps env.host allowed R) (request : RunRequest)
    (calm : (kind : String) → is_counted kind ≡ false → allowed kind ≡ true)
    (asks : (events : List LedgerEvent) (resume : Bool) (w : World S L P)
      → for_run env.host request.run_id w.ledger ≡ ok events
      → R w.ledger (ask_provider env request events resume w).1.ledger) where
  proceed_goes :
      (events : List LedgerEvent) (p : RunProjection) (approval : Option ApprovalRecord)
      (resume : Bool) (w : World S L P)
      → for_run env.host request.run_id w.ledger ≡ ok events
      → R w.ledger (proceed env request events p approval resume w).1.ledger
  unfolding proceed ◌>>=◌ finish result
  proceed_goes events p approval resume w r =
      elim (Result-cases (check_supplied env request p approval)) [
        | inr (e, refused) ↦ rw (proceed, refused) (steps.stay w.ledger)
        | inl (_, passed) ↦ elim (Bool-cases p.waiting_review) [
          | inl waits ↦
              rw (proceed, passed, waits)
                ((Along-Quiet steps
                    (result-Quiet env request (record p { waiting_review = true }) "")).goes
                  w)
          | inr on ↦ elim (Option-cases p.pending_execution) [
            | inl nothing ↦ rw (proceed, passed, on, nothing) (asks events resume w r)
            | inr (s, some_call) ↦
                rw (proceed, passed, on, some_call)
                  ((execute_pending-Along env steps request calm events s resume).goes w)
          ]
        ]
      ]

  held-Along :
      (approval : Option ApprovalRecord) (p : RunProjection) (message : String)
      → Along R (held env request approval p message)
  held-Along none p message = Along-Quiet steps (result-Quiet env request p message)
  held-Along (some approval) p message = Along-Quiet steps (at_once (λ w. refl))

  turn_goes :
      (approval : Option ApprovalRecord) (resume : Bool) (w : World S L P)
      → R w.ledger (turn env request approval resume w).1.ledger
  unfolding turn ◌>>=◌ run_events finish result
  turn_goes approval resume w = elim (Result-cases (for_run env.host request.run_id w.ledger)) [
    | inr (e, unread) ↦ rw (turn, unread) (steps.stay w.ledger)
    | inl (events, r) ↦ elim (Result-cases (project env.host events)) [
      | inr (e, broken) ↦ rw (turn, r, broken) (steps.stay w.ledger)
      | inl (p, q) ↦ elim (Bool-cases (is_some p.terminal_event)) [
        | inl ended ↦ rw (turn, r, q, ended) ((held-Along approval p "").goes w)
        | inr on ↦ elim (Bool-cases p.interrupted) [
          | inl stuck ↦
              rw (turn, r, q, on, stuck)
                ((held-Along approval (record p { interrupted = true })
                    "call needs reconciliation").goes
                  w)
          | inr free ↦ elim (Option-cases p.pending_approval) [
            | inr (pending, waits) ↦
                rw (turn, r, q, on, free, waits)
                  ((decide_pending-Along env steps request calm _ pending approval resume).goes w)
            | inl nothing ↦
                rw (turn, r, q, on, free, nothing) (proceed_goes events p approval resume w r)
          ]
        ]
      ]
    ]
  ]

  -- The rounds that follow a turn, if any.
  after_turn :
      (next : Option ApprovalRecord → Bool → Exec (World S L P) RunResult)
      → ((approval : Option ApprovalRecord) (resume : Bool) → Along R (next approval resume))
      → (t : Turn)
      → Along R (elim t as (λ x. Exec (World S L P) RunResult) [
        | finished r ↦ pure r
        | again approval' resume' ↦ next approval' resume'
      ])
  after_turn next goes (finished r) = record { goes = λ w. steps.stay w.ledger }
  after_turn next goes (again approval resume) = goes approval resume

  pub run_loop-Along :
      (fuel : ℕ) (approval : Option ApprovalRecord) (resume : Bool)
      → Along R (run_loop env request fuel approval resume)
  unfolding run_loop
  run_loop-Along zero approval resume = Along-Quiet steps (at_once (λ w. refl))
  run_loop-Along (suc fuel) approval resume =
      Along-bind steps _ _ (record { goes = turn_goes approval resume })
        (after_turn (run_loop env request fuel) (run_loop-Along fuel))

  pub run-Along :
      (fuel : ℕ) (approval : Option ApprovalRecord) → Along R (run env request fuel approval)
  unfolding run
  run-Along fuel approval =
      Along-bind steps _ _ (initialize_or_validate-Along env steps request calm) (λ events.
        Along-bind steps _ _ (Along-Quiet steps (reconcile_success_lineage-Quiet env events))
          (λ _. run_loop-Along fuel approval false))
