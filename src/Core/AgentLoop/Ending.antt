-- ===== src/Core/AgentLoop/Ending.antt =====
-- core/agent_loop.py, `AgentLoop.run`: the loop of a run ends.
use molly.Prelude.{
  ℕ, zero, suc, ◌+◌, ◌≤◌, String, ◌≡◌, refl, Bool, true, false, List, Option, none, some, ok,
  Bool-cases, Option-cases, is_some, inl, inr, arith, any, eq_iff, if◌then◌else◌,
}
use molly.Core.Host.{Host}
use molly.Core.Ids.Laws.{IsoLaws}
use molly.Core.Ledger.{LedgerEvent}
use molly.Core.Ledger.File.{File}
use molly.Core.Approvals.{ApprovalRecord}
use molly.Core.Json.{end, field, str}
use molly.Core.Runs.{RunRequest}
use molly.Core.AgentLoop.{tool_execution_started, metadata_call_id}
use molly.Core.AgentLoop.Project.{CallState, RunProjection, project}
use molly.Core.AgentLoop.Limits.{counts, effective_hard_limits, hard_limit_reason}
use molly.Core.AgentLoop.Bounds.{ask_has_room}
use molly.Core.AgentLoop.World.{Env, World, Exec, draft, run_events}
use molly.Core.AgentLoop.Run.{
  Turn, finished, again, ask_provider, execute_pending, proceed, turn, decide_pending, result,
}
use molly.Core.AgentLoop.Quiet.{at_once}
use molly.Core.AgentLoop.Rounds.{held}
use molly.Core.AgentLoop.Measure.{is_call, is_start_of, rounds_left, rounds_left-started}
use molly.Core.AgentLoop.Materialized.{pending_execution-announced, pending_execution_unstarted}
use molly.Core.AgentLoop.Outcomes.{
  Ends, Ends-bind, Ends-Quiet, Ends-weaken, Ends-from, Ends-given, Reads,
}
use molly.Core.AgentLoop.Remaining.{Left, Left-reads, Next, finishes}
use molly.Core.AgentLoop.Progress.{execute_pending-Ends, decide_pending-Ends}
use molly.Core.AgentLoop.Consulting.{ask_provider-Ends}

-- An approval that was handed in may cost one round more.
abbrev pub rounds_for : Option ApprovalRecord → ℕ
rounds_for none = 0
rounds_for (some approval) = 1

-- A round that goes on leaves fewer rounds than `n`.
abbrev pub Fewer : Host → RunRequest → ℕ → Turn → File → Type 0
Fewer h request n (finished r) f = Unit
Fewer h request n (again approval resume) f =
    (approval ≡ none) × (m : ℕ) × (suc m ≤ n) × Left h request m f

Next-Fewer :
    (h : Host) (request : RunRequest) (m n : ℕ) (t : Turn) (f : File)
    → suc m ≤ n
    → Next h request m t f
    → Fewer h request n t f
Next-Fewer h request m n (finished r) f le p = tt
Next-Fewer h request m n (again approval resume) f le p = (p.0, m, le, p.1)

Fewer-le :
    (h : Host) (request : RunRequest) (m n : ℕ) (t : Turn) (f : File)
    → m ≤ n
    → Fewer h request m t f
    → Fewer h request n t f
Fewer-le h request m n (finished r) f le p = tt
Fewer-le h request m n (again approval resume) f le (nothing, k, less, left) =
    (nothing, k, omega (arith, le, less), left)

-- A call that was materialized and not started leaves a round.
one_left :
    (request : RunRequest) (es : List LedgerEvent) (id : String)
    → any (is_call id) es ≡ true
    → any (is_start_of (some id)) es ≡ false
    → 1 ≤ rounds_left request es
unfolding draft metadata_call_id
one_left request es id known never =
    let start = draft tool_execution_started "" (field "call_id" (str id) end) in
    let starts : is_start_of (some id) start ≡ true = (eq_iff id id).1 refl in
    omega (arith, rounds_left-started request es start id starts never known)

-- A decision that the limits leave leaves two.
two_left :
    (request : RunRequest) (es : List LedgerEvent)
    → suc (counts es).decisions ≤ (effective_hard_limits request).max_decisions
    → 2 ≤ rounds_left request es
unfolding rounds_left
two_left request es room = ground (arith, room)

module _ {S L P : Type 0} (env : Env S L P) (request : RunRequest) where
  -- A round, once its events have been read and projected.
  abbrev projected :
      Option ApprovalRecord → Bool → List LedgerEvent → RunProjection → Exec (World S L P) Turn
  projected approval resume events p =
      if is_some p.terminal_event
      then held env request approval p ""
      else if p.interrupted
      then held env request approval p "call needs reconciliation"
      else elim p.pending_approval [
        | some pending ↦ decide_pending env request p pending approval resume
        | none ↦ proceed env request events p approval resume
      ]

  held-Fewer :
      {A : File → Type 0} {n : ℕ} (approval : Option ApprovalRecord) (p : RunProjection)
      (message : String)
      → Ends A (Fewer env.host request n) (held env request approval p message)
  held-Fewer none p message = finishes env request _ (λ r f. tt)
  held-Fewer (some approval) p message = record { goes = λ w x q e. absurd (cc e) }

module _ {S L P : Type 0} (env : Env S L P) (laws : IsoLaws env.host) (request : RunRequest) where
  execute_pending-Fewer :
      (n : ℕ) (events : List LedgerEvent) (p : RunProjection) (s : CallState) (resume : Bool)
      → project env.host events ≡ ok p
      → p.pending_execution ≡ some s
      → rounds_left request events ≤ n
      → Ends
          (Reads env.host request.run_id events)
          (Fewer env.host request n)
          (execute_pending env request events s resume)
  execute_pending-Fewer zero events p s resume e q m =
      let known = pending_execution-announced env.host events p s e q in
      let never = pending_execution_unstarted env.host events p s e q in
      absurd (omega (arith, m, one_left request events s.call.call_id known never))
  execute_pending-Fewer (suc k) events p s resume e q m =
      let known = pending_execution-announced env.host events p s e q in
      let never = pending_execution_unstarted env.host events p s e q in
      Ends-weaken (λ t f. Next-Fewer env.host request k (suc k) t f (omega arith))
        (execute_pending-Ends env laws request k events s resume known never m)

  ask_provider-Fewer :
      (n : ℕ) (events : List LedgerEvent) (resume : Bool)
      → hard_limit_reason request events false ≡ none
      → suc (counts events).decisions ≤ (effective_hard_limits request).max_decisions
      → rounds_left request events ≤ n
      → Ends
          (Reads env.host request.run_id events)
          (Fewer env.host request n)
          (ask_provider env request events resume)
  ask_provider-Fewer zero events resume none_yet room m =
      absurd (omega (arith, m, two_left request events room))
  ask_provider-Fewer (suc zero) events resume none_yet room m =
      absurd (omega (arith, m, two_left request events room))
  ask_provider-Fewer (suc (suc k)) events resume none_yet room m =
      Ends-weaken (λ t f. Next-Fewer env.host request (suc k) (suc (suc k)) t f (omega arith))
        (ask_provider-Ends env laws request k events room m resume none_yet)

  asks-Fewer :
      (n : ℕ) (events : List LedgerEvent) (resume : Bool)
      → rounds_left request events ≤ n
      → Ends
          (Reads env.host request.run_id events)
          (Fewer env.host request n)
          (ask_provider env request events resume)
  unfolding ask_provider
  asks-Fewer n events resume m = elim (Option-cases (hard_limit_reason request events false)) [
    | inl none_yet ↦
        ask_provider-Fewer n events resume none_yet
          (omega (arith, (ask_has_room request events none_yet).decisions_below)) m
    | inr (reason, out) ↦
        rw (ask_provider, out)
          (Ends-bind (λ _ _. Unit) _ _ (record { goes = λ w x p e. tt })
            (λ _. finishes env request _ (λ r f. tt)))
  ]

  module _ (n : ℕ) (events : List LedgerEvent) (p : RunProjection)
      (projects : project env.host events ≡ ok p) (m : rounds_left request events ≤ n) where
    proceed-Fewer :
        (approval : Option ApprovalRecord) (resume : Bool)
        → Ends
            (Reads env.host request.run_id events)
            (Fewer env.host request n)
            (proceed env request events p approval resume)
    unfolding proceed result
    proceed-Fewer approval resume =
        Ends-bind (λ _. Reads env.host request.run_id events) _ _ (Ends-Quiet (at_once (λ w. refl)))
          (λ _. elim (Bool-cases p.waiting_review) [
            | inl waits ↦ simp waits (finishes env request _ (λ r f. tt))
            | inr on ↦ elim (Option-cases p.pending_execution) [
              | inl nothing ↦ simp (on, nothing) (asks-Fewer n events resume m)
              | inr (s, some_call) ↦
                  simp (on, some_call)
                    (execute_pending-Fewer n events p s resume projects some_call m)
            ]
          ])

    decide_pending-Fewer :
        (pending : CallState) (approval : Option ApprovalRecord) (resume : Bool)
        → Ends
            (Reads env.host request.run_id events)
            (Fewer env.host request (rounds_for approval + n))
            (decide_pending env request p pending approval resume)
    unfolding decide_pending
    decide_pending-Fewer pending none resume =
        Ends-bind (λ _ _. Unit) _ _ (record { goes = λ w x p e. tt })
          (λ _. finishes env request _ (λ r f. tt))
    decide_pending-Fewer pending (some approval) resume =
        Ends-weaken (λ t f. Next-Fewer env.host request n (1 + n) t f (omega arith))
          (Ends-from (λ f r. Left-reads env.host request n f events r m)
            (decide_pending-Ends env laws request n p pending (some approval) resume))

    after_projection :
        (approval : Option ApprovalRecord) (resume : Bool)
        → Ends
            (Reads env.host request.run_id events)
            (Fewer env.host request (rounds_for approval + n))
            (projected env request approval resume events p)
    unfolding result
    after_projection approval resume = elim (Bool-cases (is_some p.terminal_event)) [
      | inl ended ↦ simp ended (held-Fewer env request approval p "")
      | inr on ↦ elim (Bool-cases p.interrupted) [
        | inl stuck ↦
            simp (on, stuck) (held-Fewer env request approval p "call needs reconciliation")
        | inr free ↦ elim (Option-cases p.pending_approval) [
          | inr (pending, waits) ↦
              simp (on, free, waits) (decide_pending-Fewer pending approval resume)
          | inl nothing ↦
              simp (on, free, nothing)
                (Ends-weaken
                  (λ t f. Fewer-le env.host request n (rounds_for approval + n) t f (omega arith))
                  (proceed-Fewer approval resume))
        ]
      ]
    ]

  pub turn-Fewer :
      (n : ℕ) (approval : Option ApprovalRecord) (resume : Bool)
      → Ends
          (Left env.host request n)
          (Fewer env.host request (rounds_for approval + n))
          (turn env request approval resume)
  unfolding turn run_events
  turn-Fewer n approval resume =
      Ends-bind
        (λ events f. (rounds_left request events ≤ n) × Reads env.host request.run_id events f) _ _
        (record { goes = λ w events p e. (p.at_most events e, e) })
        (λ events. Ends-given (λ m.
          Ends-bind
            (λ p f. (project env.host events ≡ ok p) × Reads env.host request.run_id events f) _ _
            (record { goes = λ w x p e. (e, p) })
            (λ p. Ends-given (λ e. after_projection n events p e m approval resume))))
