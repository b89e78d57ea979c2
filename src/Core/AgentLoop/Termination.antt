-- ===== src/Core/AgentLoop/Termination.antt =====
-- core/agent_loop.py, `AgentLoop.run`: its `while True` ends, and a bound on its rounds.
use molly.Prelude.{
  ℕ, zero, suc, ◌+◌, ◌≤◌, ◌*◌, List, ◌≡◌, ap, ◌∙◌, Bool, false, Option, none, Result, ok, err,
  Error, Result-cases, inl, inr, arith,
}
use molly.Core.Ids.Laws.{IsoLaws}
use molly.Core.Ledger.{LedgerEvent}
use molly.Core.Ledger.File.{for_run}
use molly.Core.AgentLoop.Measure.{rounds_left, rounds_left_le}
use molly.Core.AgentLoop.Limits.{counts, server_run_hard_limits}
use molly.Core.Approvals.{ApprovalRecord}
use molly.Core.Runs.{RunRequest, RunResult}
use molly.Core.AgentLoop.World.{Env, World, ◌>>=◌}
use molly.Core.AgentLoop.Lineage.{reconcile_success_lineage}
use molly.Core.AgentLoop.Run.{Turn, finished, again, turn, run_loop, run, initialize_or_validate}
use molly.Core.AgentLoop.Quiet.{reconcile_success_lineage-Quiet}
use molly.Core.AgentLoop.Course.{calm, initialize_or_validate-Along}
use molly.Core.AgentLoop.Remaining.{Left, Left-reads, left_steps}
use molly.Core.AgentLoop.Ending.{rounds_for, Fewer, turn-Fewer}

-- The rounds of `while True`, from the first to the one that returns or raises, with no bound on
-- their number.
pub data WhileTrue {S L P : Type 0} (env : Env S L P) (request : RunRequest)
    : Option ApprovalRecord → Bool → World S L P → Result RunResult → World S L P → Type 0 where
  returns :
      {approval : Option ApprovalRecord} {resume : Bool} {w w' : World S L P} {r : RunResult}
      → turn env request approval resume w ≡ (ok (finished r), w')
      → WhileTrue env request approval resume w (ok r) w'
  breaks :
      {approval : Option ApprovalRecord} {resume : Bool} {w w' : World S L P} {e : Error}
      → turn env request approval resume w ≡ (err e, w')
      → WhileTrue env request approval resume w (err e) w'
  goes_on :
      {approval approval' : Option ApprovalRecord} {resume resume' : Bool} {w w' w'' : World S L P}
      {r : Result RunResult}
      → turn env request approval resume w ≡ (ok (again approval' resume'), w')
      → WhileTrue env request approval' resume' w' r w''
      → WhileTrue env request approval resume w r w''

-- `AgentLoop.run`, with no bound on its rounds, and how it ends.
pub data WholeRun {S L P : Type 0} (env : Env S L P) (request : RunRequest)
    (approval : Option ApprovalRecord) (w : World S L P)
    : Result RunResult → World S L P → Type 0 where
  unstarted :
      {e : Error} {w1 : World S L P}
      → initialize_or_validate env request w ≡ (err e, w1)
      → WholeRun env request approval w (err e) w1
  unreconciled :
      {e : Error} {existing : List LedgerEvent} {w1 w2 : World S L P}
      → initialize_or_validate env request w ≡ (ok existing, w1)
      → reconcile_success_lineage env existing w1 ≡ (err e, w2)
      → WholeRun env request approval w (err e) w2
  looped :
      {existing : List LedgerEvent} {w1 w2 w3 : World S L P} {r : Result RunResult}
      → initialize_or_validate env request w ≡ (ok existing, w1)
      → reconcile_success_lineage env existing w1 ≡ (ok tt, w2)
      → WhileTrue env request approval false w2 r w3
      → WholeRun env request approval w r w3

-- Two rounds for each decision that the server's limits allow, one for each call that the events
-- materialize, one for an approval, and a last one.
abbrev pub enough_fuel : Option ApprovalRecord → List LedgerEvent → ℕ
enough_fuel approval events =
    suc
      (rounds_for approval + 2 * server_run_hard_limits.max_decisions + (counts events).tool_calls)

module _ {S L P : Type 0} (env : Env S L P) (laws : IsoLaws env.host) (request : RunRequest) where
  -- What a round has done, with its outcome and the state after it.
  data TurnCase (approval : Option ApprovalRecord) (resume : Bool) (w : World S L P) (n : ℕ)
      : Type 0 where
    raised :
        (e : Error) (w' : World S L P)
        → turn env request approval resume w ≡ (err e, w')
        → TurnCase approval resume w n
    told :
        (r : RunResult) (w' : World S L P)
        → turn env request approval resume w ≡ (ok (finished r), w')
        → TurnCase approval resume w n
    more :
        (resume' : Bool) (m : ℕ) (w' : World S L P)
        → turn env request approval resume w ≡ (ok (again none resume'), w')
        → suc m ≤ rounds_for approval + n
        → Left env.host request m w'.ledger
        → TurnCase approval resume w n

  turn_done :
      (approval : Option ApprovalRecord) (resume : Bool) (w : World S L P) (n : ℕ) (t : Turn)
      → (turn env request approval resume w).0 ≡ ok t
      → Fewer env.host request
          (rounds_for approval + n)
          t
          (turn env request approval resume w).1.ledger
      → TurnCase approval resume w n
  turn_done approval resume w n (finished r) q f =
      told r _ (ap (λ x. (x, (turn env request approval resume w).1)) q)
  turn_done approval resume w n (again approval' resume') q (nothing, m, less, left) =
      more resume' m _
        (ap (λ x. (x, (turn env request approval resume w).1))
          (q ∙ ap (λ a. ok (again a resume')) nothing))
        less left

  turn_cases :
      (approval : Option ApprovalRecord) (resume : Bool) (w : World S L P) (n : ℕ)
      → Left env.host request n w.ledger
      → TurnCase approval resume w n
  turn_cases approval resume w n left = elim (Result-cases (turn env request approval resume w).0) [
    | inr (e, q) ↦ raised e _ (ap (λ r. (r, (turn env request approval resume w).1)) q)
    | inl (t, q) ↦
        turn_done approval resume w n t q
          ((turn-Fewer env laws request n approval resume).goes w t left q)
  ]

  run_loop-WhileTrue :
      (fuel : ℕ) (approval : Option ApprovalRecord) (resume : Bool) (w : World S L P) (n : ℕ)
      → Left env.host request n w.ledger
      → suc (rounds_for approval + n) ≤ fuel
      → WhileTrue env request approval resume w
          (run_loop env request fuel approval resume w).0
          (run_loop env request fuel approval resume w).1
  unfolding run_loop ◌>>=◌
  run_loop-WhileTrue zero approval resume w n left enough = absurd (omega (arith, enough))
  run_loop-WhileTrue (suc fuel) approval resume w n left enough =
      elim (turn_cases approval resume w n left) [
        | raised e w' q ↦ rw (run_loop, q) (breaks q)
        | told r w' q ↦ rw (run_loop, q) (returns q)
        | more resume' m w' q less left' ↦
            rw (run_loop, q)
              (goes_on q
                (run_loop-WhileTrue fuel none resume' w' m left' (omega (arith, less, enough))))
      ]

  -- Given the laws of ISO dates, where the run's events can be read, enough fuel lets the loop end
  -- the way its `while True` ends: after finitely many rounds it returns or raises, with the result
  -- and the state of the last round.
  pub run_loop_ends :
      (fuel : ℕ) (approval : Option ApprovalRecord) (resume : Bool) (w : World S L P)
      (events : List LedgerEvent)
      → for_run env.host request.run_id w.ledger ≡ ok events
      → enough_fuel approval events ≤ fuel
      → WhileTrue env request approval resume w
          (run_loop env request fuel approval resume w).0
          (run_loop env request fuel approval resume w).1
  run_loop_ends fuel approval resume w events r enough =
      run_loop-WhileTrue fuel approval resume w (rounds_left request events)
        (Left-reads env.host request _ w.ledger events r (omega arith))
        (omega (arith, enough, rounds_left_le request events))

  -- Given the laws of ISO dates, where the run's events can be read, enough fuel gives `run` the result
  -- and the final state of `AgentLoop.run`, whose `while True` has no fuel: it raises where the run is
  -- initialized or where its successes are projected, or it ends after finitely many rounds.
  pub run_ends :
      (fuel : ℕ) (approval : Option ApprovalRecord) (w : World S L P) (events : List LedgerEvent)
      → for_run env.host request.run_id w.ledger ≡ ok events
      → enough_fuel approval events ≤ fuel
      → WholeRun env request approval w
          (run env request fuel approval w).0
          (run env request fuel approval w).1
  unfolding run ◌>>=◌
  run_ends fuel approval w events r enough =
      let n = rounds_left request events in
      let left = Left-reads env.host request n w.ledger events r (omega arith) in
      let start = initialize_or_validate env request w in
      let left1 =
        (initialize_or_validate-Along env (left_steps env laws request n) request calm).goes w
          left in
      elim (Result-cases start.0) [
        | inr (e, q) ↦ rw (run, q) (unstarted (λ i. (q i, start.1)))
        | inl (existing, q) ↦
            let projected = reconcile_success_lineage env existing start.1 in
            elim (Result-cases projected.0) [
              | inr (e, q1) ↦
                  rw (run, q, q1) (unreconciled (λ i. (q i, start.1)) (λ i. (q1 i, projected.1)))
              | inl (_, q1) ↦
                  rw (run, q, q1)
                    (looped (λ i. (q i, start.1)) (λ i. (q1 i, projected.1))
                      (run_loop-WhileTrue fuel approval false projected.1 n
                        (rw ((reconcile_success_lineage-Quiet env existing).leaves start.1) left1)
                        (omega (arith, enough, rounds_left_le request events))))
            ]
      ]
