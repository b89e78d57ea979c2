-- ===== src/Core/AgentLoop/Limited.antt =====
-- core/agent_loop.py, `AgentLoop.run`: a run and its limits.
use molly.Prelude.{
  ℕ, suc, ◌≤◌, String, ◌≡◌, false, List, Option, none, ok, arith, ok-injective, sym, ◌∙◌,
}
use molly.Core.Host.{Host}
use molly.Core.Ids.Laws.{IsoLaws}
use molly.Core.Ledger.{LedgerEvent}
use molly.Core.Ledger.File.{File, Disk, for_run, append}
use molly.Core.Approvals.{ApprovalRecord}
use molly.Core.Runs.{RunRequest}
use molly.Core.AgentLoop.{decision_recorded, tool_call_materialized}
use molly.Core.AgentLoop.Limits.{counts, effective_hard_limits, hard_limit_reason}
use molly.Core.AgentLoop.Bounds.{ask_has_room}
use molly.Core.AgentLoop.Budget.{Within, Within-other, Within-decision, Within-call}
use molly.Core.AgentLoop.Course.{is_counted, uncounted_types}
use molly.Core.AgentLoop.World.{Env, World}
use molly.Core.AgentLoop.Run.{run}
use molly.Core.AgentLoop.Asking.{run_keeps}
use molly.Core.AgentLoop.Phases.{Phase, asking, decided, settled, Kept}

Within-le :
    (h : Host) (run_id : String) (d d' c c' s s' : ℕ) (f : File)
    → d ≤ d'
    → c ≤ c'
    → s ≤ s'
    → Within h run_id d c s f
    → Within h run_id d' c' s' f
Within-le h run_id d d' c c' s s' f a b e m = record {
  at_most = λ es r.
      let was = m.at_most es r in
      (omega (arith, was.0, a), omega (arith, was.1, b), omega (arith, was.2, e));
}

module _ (h : Host) (laws : IsoLaws h) (request : RunRequest) where
  -- Room for a call and its step, and, before the decision, for that.
  record Room (decisions : ℕ) (f : File) : Type 0 where
    calls : ℕ
    steps : ℕ
    call_left : suc calls ≤ (effective_hard_limits request).max_tool_calls
    step_left : suc steps ≤ (effective_hard_limits request).max_steps
    so_far : Within h request.run_id decisions calls steps f

  -- The file's run is within the limits, with room for what the round may still append.
  abbrev Fits : Phase → File → Type 0
  Fits asking f = (d : ℕ) × (suc d ≤ (effective_hard_limits request).max_decisions) × Room d f
  Fits decided f = Room (effective_hard_limits request).max_decisions f
  Fits settled f =
      let limits = effective_hard_limits request in
      Within h request.run_id limits.max_decisions limits.max_tool_calls limits.max_steps f

  Room-other :
      (d : ℕ) (disk : Disk) (e : LedgerEvent) (f : File)
      → is_counted e.event_type ≡ false
      → Room d f
      → Room d (append h disk e f).1
  Room-other d disk e f t m =
      let types = uncounted_types e.event_type t in
      record {
        calls = m.calls;
        steps = m.steps;
        call_left = m.call_left;
        step_left = m.step_left;
        so_far =
            Within-other h laws request.run_id disk e f d m.calls m.steps types.0 types.1 m.so_far;
      }

  Fits-other :
      (i : Phase) (disk : Disk) (e : LedgerEvent) (f : File)
      → is_counted e.event_type ≡ false
      → Fits i f
      → Fits i (append h disk e f).1
  Fits-other asking disk e f t m = (m.0, m.1, Room-other m.0 disk e f t m.2)
  Fits-other decided disk e f t m = Room-other _ disk e f t m
  Fits-other settled disk e f t m =
      let types = uncounted_types e.event_type t in
      Within-other h laws request.run_id disk e f _ _ _ types.0 types.1 m

  Room-le : (d d' : ℕ) (f : File) → d ≤ d' → Room d f → Room d' f
  Room-le d d' f a m = record {
    calls = m.calls;
    steps = m.steps;
    call_left = m.call_left;
    step_left = m.step_left;
    so_far =
        Within-le h request.run_id d d' m.calls m.calls m.steps m.steps f a (omega arith)
          (omega arith) m.so_far;
  }

  Room-decision :
      (d : ℕ) (disk : Disk) (e : LedgerEvent) (f : File)
      → e.event_type ≡ decision_recorded
      → Room d f
      → Room (suc d) (append h disk e f).1
  Room-decision d disk e f t m = record {
    calls = m.calls;
    steps = m.steps;
    call_left = m.call_left;
    step_left = m.step_left;
    so_far = Within-decision h laws request.run_id disk e f d m.calls m.steps t m.so_far;
  }

  Fits-settles : (f : File) → Fits decided f → Fits settled f
  Fits-settles f m =
      Within-le h request.run_id _ _ m.calls _ m.steps _ f (omega arith)
        (omega (arith, m.call_left)) (omega (arith, m.step_left)) m.so_far

  Fits-call :
      (disk : Disk) (e : LedgerEvent) (f : File)
      → e.event_type ≡ tool_call_materialized
      → Fits decided f
      → Fits settled (append h disk e f).1
  Fits-call disk e f t m =
      Within-le h request.run_id _ _ (suc m.calls) _ (suc m.steps) _ (append h disk e f).1
        (omega arith) m.call_left m.step_left
        (Within-call h laws request.run_id disk e f _ m.calls m.steps t m.so_far)

  Fits-enter :
      (f : File) (events : List LedgerEvent)
      → for_run h request.run_id f ≡ ok events
      → hard_limit_reason request events false ≡ none
      → Fits asking f
  Fits-enter f events r n =
      let below = ask_has_room request events n in
      let k = counts events in
      (
        k.decisions,
        omega (arith, below.decisions_below),
        record {
          calls = k.tool_calls;
          steps = k.steps;
          call_left = omega (arith, below.tool_calls_below);
          step_left = omega (arith, below.steps_below);
          so_far = record {
            at_most = λ es q. rw (ok-injective (sym q ∙ r)) (omega arith, omega arith, omega arith);
          };
        },
      )

Fits-Kept :
    {S L P : Type 0} (env : Env S L P) (laws : IsoLaws env.host) (request : RunRequest)
    → Kept env request (Fits env.host laws request)
Fits-Kept env laws request = record {
  decides = λ f m. Room-le env.host laws request m.0 _ f (omega (arith, m.1)) m.2;
  settles = Fits-settles env.host laws request;
  other = Fits-other env.host laws request;
  decision = λ disk e f t m.
      Room-le env.host laws request (suc m.0) _ (append env.host disk e f).1 m.1
        (Room-decision env.host laws request m.0 disk e f t m.2);
  call = Fits-call env.host laws request;
  enter = λ f events r n _. Fits-enter env.host laws request f events r n;
}

-- The counts of the request's run, whenever its events can be read, are within the effective limits.
abbrev pub InLimits : Host → RunRequest → File → Type 0
InLimits h request f =
    let limits = effective_hard_limits request in
    Within h request.run_id limits.max_decisions limits.max_tool_calls limits.max_steps f

-- Given the laws of ISO dates, and whatever the fuel, the approval, the failures and the
-- collaborators, none of which writes the ledger itself: if the counts of the request's run,
-- whenever its events can be read, are within the effective limits before `run`, they are within
-- them after it.
pub run-InLimits :
    {S L P : Type 0} (env : Env S L P) (laws : IsoLaws env.host) (request : RunRequest) (fuel : ℕ)
    (approval : Option ApprovalRecord) (w : World S L P)
    → InLimits env.host request w.ledger
    → InLimits env.host request (run env request fuel approval w).1.ledger
run-InLimits env laws request fuel approval w =
    run_keeps env request (Fits-Kept env laws request) fuel approval w
