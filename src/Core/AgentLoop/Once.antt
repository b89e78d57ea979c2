-- ===== src/Core/AgentLoop/Once.antt =====
-- core/agent_loop.py: a call that has been executed is not handed out for execution again.
use molly.Prelude.{
  eq_iff, none, ◌==◌, Bool-cases, Option-cases, ℕ, String, ◌≡◌, refl, sym, ◌∙◌, Bool, true, false,
  List, [], ◌∷◌, ◌++◌, Option, some, Result, ok, arith, any, ok-injective, inl, inr,
}
use molly.Core.Json.{end}
use molly.Core.Host.{Host}
use molly.Core.Ids.Laws.{IsoLaws}
use molly.Core.Ledger.{LedgerEvent}
use molly.Core.Ledger.File.{File, Disk, for_run, append}
use molly.Core.Tools.Spec.{ToolSpec}
use molly.Core.Tools.Call.{MaterializedToolCall}
use molly.Core.Tools.Execution.{ToolExecutionContext}
use molly.Core.Approvals.{ApprovalRecord}
use molly.Core.Runs.{RunRequest}
use molly.Core.AgentLoop.Project.{RunProjection, project}
use molly.Core.AgentLoop.World.{ToolExecutor, Env, World, lift, draft, ◌>>=◌}
use molly.Core.AgentLoop.Execute.{call_event, call_metadata, held_digest, execute_call}
use molly.Core.AgentLoop.Run.{run}
use molly.Core.AgentLoop.Growing.{append-RunGrows}
use molly.Core.AgentLoop.Quiet.{at_once}
use molly.Core.AgentLoop.Steps.{Steps, Along-bind, Along-lift}
use molly.Core.AgentLoop.Course.{performed, performed-Along}
use molly.Core.AgentLoop.Phases.{Kept}
use molly.Core.AgentLoop.Asking.{run_keeps}
use molly.Core.AgentLoop.Measure.{is_start_of, any-snoc}
use molly.Core.AgentLoop.Materialized.{pending_execution_unstarted}
use molly.Core.AgentLoop.Outcomes.{
  Ends, Ends-bind, Ends-Quiet, Ends-Along, Ends-weaken, Added, Reads, append_event-Ends,
}
use molly.Core.AgentLoop.Remaining.{start_of_call}

-- The events of the run, if they can be read, tell that the call was started.
record Started (h : Host) (run_id call_id : String) (f : File) : Type 0 where
  told :
      (es : List LedgerEvent)
      → for_run h run_id f ≡ ok es
      → any (is_start_of (some call_id)) es ≡ true

append-Started :
    (h : Host) (laws : IsoLaws h) (run_id call_id : String) (disk : Disk) (e : LedgerEvent)
    (f : File)
    → Started h run_id call_id f
    → Started h run_id call_id (append h disk e f).1
append-Started h laws run_id call_id disk e f s = record {
  told = λ es r.
      let g = append-RunGrows h laws run_id disk e f es r in
      let was = s.told g.events g.was_read in
      elim g.grows [
        | inl same ↦ rw same was
        | inr (p, _, more) ↦ rw (more, any-snoc (is_start_of (some call_id)) g.events p, was) refl
      ];
}

-- Whether the projection hands out a call of this identity for execution.
abbrev pub hands_out : RunProjection → String → Bool
hands_out p call_id = elim p.pending_execution [ none ↦ false | some s ↦ s.call.call_id == call_id ]

started_apart :
    (h : Host) (es : List LedgerEvent) (p : RunProjection) (call_id : String)
    → project h es ≡ ok p
    → any (is_start_of (some call_id)) es ≡ true
    → hands_out p call_id ≡ false
started_apart h es p call_id projects started = elim (Option-cases p.pending_execution) [
  | inl nothing ↦ ground (arith, nothing)
  | inr (s, pending) ↦
      let never = pending_execution_unstarted h es p s projects pending in
      elim (Bool-cases (s.call.call_id == call_id)) [
        | inr other ↦ ground (arith, pending, other)
        | inl same ↦
            let named = (eq_iff s.call.call_id call_id).0 same in
            absurd (cc (rw named at never, started))
      ]
]

event-Started :
    (h : Host) (run_id call_id : String) (es : List LedgerEvent) (f : File) (p : LedgerEvent)
    → Reads h run_id (es ++ p ∷ []) f
    → is_start_of (some call_id) p ≡ true
    → Started h run_id call_id f
event-Started h run_id call_id es f p r s = record {
  told = λ es' r'.
      rw (sym (ok-injective (sym r ∙ r')), any-snoc (is_start_of (some call_id)) es p)
        (ground (arith, s));
}

module _ {S L P : Type 0} (env : Env S L P) (laws : IsoLaws env.host) (request : RunRequest)
    (call_id : String) where
  started_steps :
      Steps env.host
        (λ _. true)
        (λ f g.
          Started env.host request.run_id call_id f → Started env.host request.run_id call_id g)
  started_steps = record {
    stay = λ f s. s;
    chain = λ f g k a b s. b (a s);
    step = λ disk e f _ s. append-Started env.host laws request.run_id call_id disk e f s;
  }

  Started-Kept : Kept env request (λ _. Started env.host request.run_id call_id)
  Started-Kept = record {
    decides = λ f s. s;
    settles = λ f s. s;
    other = λ i disk e f _ s. append-Started env.host laws request.run_id call_id disk e f s;
    decision = λ disk e f _ s. append-Started env.host laws request.run_id call_id disk e f s;
    call = λ disk e f _ s. append-Started env.host laws request.run_id call_id disk e f s;
    enter = λ f events r n s. s;
  }

  performed-Started :
      (call : MaterializedToolCall) (spec : ToolSpec) (executor : ToolExecutor S L P)
      (r : Result ToolExecutionContext)
      → Ends
          (Started env.host request.run_id call_id)
          (λ _. Started env.host request.run_id call_id)
          (lift r >>= performed env started_steps request (λ _ _. refl) call spec executor)
  performed-Started call spec executor r = Ends-Along (
      Along-bind started_steps _ _ (Along-lift started_steps r)
        (performed-Along env started_steps request (λ _ _. refl) call spec executor))

module _ {S L P : Type 0} (env : Env S L P) (laws : IsoLaws env.host) (request : RunRequest)
    (call : MaterializedToolCall) where
  execute_call-Started :
      (es : List LedgerEvent)
      → Ends
          (Reads env.host request.run_id es)
          (λ _. Started env.host request.run_id call.call_id)
          (execute_call env request call)
  unfolding execute_call draft
  execute_call-Started es =
      Ends-bind (λ _. Reads env.host request.run_id es) _ _ (Ends-Quiet (at_once (λ w. refl)))
        (λ spec.
          Ends-bind (λ _. Reads env.host request.run_id es) _ _ (Ends-Quiet (at_once (λ w. refl)))
            (λ executor.
              Ends-bind (λ _. Started env.host request.run_id call.call_id) _ _
                (Ends-weaken
                  (λ x f (added : Added env.host request.run_id es _ _ f).
                    event-Started env.host request.run_id call.call_id es f added.event added.reads
                      (start_of_call env.host call.call_id _ added.event added.same_type
                        added.same_metadata))
                  (append_event-Ends env laws request es (
                    call_event "TOOL_EXECUTION_STARTED" "STARTED" call
                      (call_metadata call (held_digest call) end))))
                (λ _. performed-Started env laws request call.call_id call spec executor _)))

  -- Given the laws of ISO dates: once `_execute_call` has executed a call without raising, in a run
  -- whose events could be read, then after a run on the ledger that it left, with whatever fuel,
  -- approval and failures, a projection of the run's events hands out no call of that identity for
  -- execution.
  pub executed_once :
      (w : World S L P) (es : List LedgerEvent) (done : LedgerEvent) (fuel : ℕ)
      (approval : Option ApprovalRecord) (es' : List LedgerEvent) (p : RunProjection)
      → for_run env.host request.run_id w.ledger ≡ ok es
      → (execute_call env request call w).0 ≡ ok done
      → for_run env.host request.run_id
          (run env request fuel approval (execute_call env request call w).1).1.ledger
        ≡ ok es'
      → project env.host es' ≡ ok p
      → hands_out p call.call_id ≡ false
  executed_once w es done fuel approval es' p r ends r' projects =
      let after = (execute_call-Started es).goes w done r ends in
      let kept =
        run_keeps env request (Started-Kept env laws request call.call_id) fuel approval
          (execute_call env request call w).1 after in
      started_apart env.host es' p call.call_id projects (kept.told es' r')
