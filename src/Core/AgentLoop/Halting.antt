-- ===== src/Core/AgentLoop/Halting.antt =====
-- core/agent_loop.py, `AgentLoop.run`: a run that has ended.
use molly.Prelude.{
  ℕ, zero, suc, ◌≡◌, refl, ap, ◌∙◌, Bool, true, false, inl, inr, Option, none, some, List, [], ◌∷◌,
  ok, any, keep, last?, is_some, arith, Result-cases, Bool-cases,
}
use molly.Core.Ledger.{LedgerEvent}
use molly.Core.Ledger.File.{for_run}
use molly.Core.Approvals.{ApprovalRecord}
use molly.Core.Runs.{RunRequest}
use molly.Core.AgentLoop.Project.{RunProjection, project, is_run_terminal, is_empty, of_type}
use molly.Core.AgentLoop.{run_started}
use molly.Core.AgentLoop.View.{result_of}
use molly.Core.AgentLoop.Pending.{project-Parts}
use molly.Core.AgentLoop.World.{Env, World, Exec, lift, pure, run_events, ◌>>=◌, ◌>>◌}
use molly.Core.AgentLoop.Lineage.{reconcile_success_lineage}
use molly.Core.AgentLoop.Run.{
  only_start, check_start, ensure_request_policy, finish, result, verify_inputs,
  initialize_or_validate, turn, run_loop, run,
}
use molly.Core.AgentLoop.Quiet.{
  Quiet, Quiet-bind, at_once, verify_inputs-Quiet, reconcile_success_lineage-Quiet,
}

last_of : (x : LedgerEvent) (es : List LedgerEvent) → is_some (last? (x ∷ es)) ≡ true
last_of x [] = refl
last_of x (y ∷ es) = last_of y es

-- A terminal event among the events is what a projection of them ends with.
terminal_last :
    (es : List LedgerEvent)
    → any is_run_terminal es ≡ true
    → is_some (last? (keep is_run_terminal es)) ≡ true
terminal_last [] e = absurd (cc e)
terminal_last (x ∷ es) e = elim (Bool-cases (is_run_terminal x)) [
  | inl here ↦ simp here (last_of x (keep is_run_terminal es))
  | inr not_here ↦ simp not_here (terminal_last es (ground (arith, e, not_here)))
]

nonempty : (es : List LedgerEvent) → any is_run_terminal es ≡ true → is_empty es ≡ false
nonempty [] e = absurd (cc e)
nonempty (x ∷ es) e = refl

module _ {S L P : Type 0} (env : Env S L P) (request : RunRequest) where
  -- What is left of `_initialize_or_validate` for a run that has events.
  abbrev validate : List LedgerEvent → Exec (World S L P) (List LedgerEvent)
  validate existing = do
    start ← lift (only_start env request (of_type run_started existing))
    lift (check_start env request start)
    verify_inputs env request
    pure existing

  validate-Quiet : (existing : List LedgerEvent) → Quiet (validate existing)
  validate-Quiet existing = Quiet-bind _ _ (at_once (λ w. refl)) (λ start.
      Quiet-bind _ _ (at_once (λ w. refl))
        (λ _. Quiet-bind _ _ (verify_inputs-Quiet env request) (λ _. at_once (λ w. refl))))

  initialize_stays :
      (w : World S L P) (es : List LedgerEvent)
      → for_run env.host request.run_id w.ledger ≡ ok es
      → is_empty es ≡ false
      → (initialize_or_validate env request w).1.ledger ≡ w.ledger
  unfolding initialize_or_validate run_events ◌>>=◌
  initialize_stays w es r some_events = elim (Result-cases (ensure_request_policy env request)) [
    | inr (e, q) ↦ rw (initialize_or_validate, q) refl
    | inl (_, q) ↦ rw (initialize_or_validate, q, r, some_events) ((validate-Quiet es).leaves w)
  ]

  over :
      (fuel : ℕ) (approval : Option ApprovalRecord) (resume : Bool) (w : World S L P)
      (es : List LedgerEvent) (p : RunProjection)
      → for_run env.host request.run_id w.ledger ≡ ok es
      → project env.host es ≡ ok p
      → is_some p.terminal_event ≡ true
      → (run_loop env request (suc fuel) approval resume w).1.ledger ≡ w.ledger
  unfolding run_loop turn run_events ◌>>=◌
  over fuel (some approval) resume w es p r q ended = rw (r, q, ended) refl
  over fuel none resume w es p r q ended =
      elim (Result-cases (result_of env.host request es p "")) [
        | inl (_, t) ↦ rw (r, q, ended) (rw (r, t) refl)
        | inr (_, t) ↦ rw (r, q, ended) (rw (r, t) refl)
      ]

  run_loop_stays :
      (fuel : ℕ) (approval : Option ApprovalRecord) (resume : Bool) (w : World S L P)
      (es : List LedgerEvent)
      → for_run env.host request.run_id w.ledger ≡ ok es
      → any is_run_terminal es ≡ true
      → (run_loop env request fuel approval resume w).1.ledger ≡ w.ledger
  unfolding run_loop turn run_events ◌>>=◌ finish result
  run_loop_stays zero approval resume w es r t = refl
  run_loop_stays (suc fuel) approval resume w es r t = elim (Result-cases (project env.host es)) [
    | inr (e, q) ↦ rw (run_loop, turn, r, q) refl
    | inl (p, q) ↦
        let ended : is_some p.terminal_event ≡ true =
          ap is_some (project-Parts env.host es p q).terminal ∙ terminal_last es t in
        over fuel approval resume w es p r q ended
  ]

  -- Where the run's events can be read and one of them ends the run, `run` leaves the ledger as it
  -- was, with whatever fuel, approval and collaborators, none of which writes the ledger itself, and
  -- whether it raises or not.
  pub ended_run_stays :
      (fuel : ℕ) (approval : Option ApprovalRecord) (w : World S L P) (es : List LedgerEvent)
      → for_run env.host request.run_id w.ledger ≡ ok es
      → any is_run_terminal es ≡ true
      → (run env request fuel approval w).1.ledger ≡ w.ledger
  unfolding run ◌>>=◌
  ended_run_stays fuel approval w es r t =
      let start = initialize_or_validate env request w in
      let first = initialize_stays w es r (nonempty es t) in
      elim (Result-cases start.0) [
        | inr (e, q) ↦ rw (run, q) first
        | inl (existing, q) ↦
            let projected = reconcile_success_lineage env existing start.1 in
            let second = (reconcile_success_lineage-Quiet env existing).leaves start.1 ∙ first in
            elim (Result-cases projected.0) [
              | inr (e, q1) ↦ rw (run, q, q1) second
              | inl (_, q1) ↦
                  rw (run, q, q1)
                    (run_loop_stays fuel approval false projected.1 es
                        (ap (for_run env.host request.run_id) second ∙ r) t
                      ∙ second)
            ]
      ]
