-- ===== src/Core/AgentLoop/Remaining.antt =====
-- core/agent_loop.py: the rounds that a ledger leaves to its run, and what an append makes of them.
use molly.Prelude.{
  ℕ, suc, ◌≤◌, String, ◌≡◌, refl, sym, ◌∙◌, Bool, true, ◌==◌, List, none, some, ok, inl, inr, arith,
  eq_iff, ok-injective,
}
use molly.Core.Json.{Fields, str, field, get}
use molly.Core.Host.{Host}
use molly.Core.Ids.Laws.{IsoLaws}
use molly.Core.Freeze.{freeze_json_mapping, freeze_fields, freeze_json}
use molly.Core.Ledger.{LedgerEvent}
use molly.Core.Ledger.File.{File, Disk, for_run, append}
use molly.Core.Runs.{RunRequest, RunResult}
use molly.Core.AgentLoop.{tool_call_materialized, tool_execution_started, metadata_call_id}
use molly.Core.AgentLoop.World.{Env, World, Exec, lift}
use molly.Core.AgentLoop.Run.{Turn, finished, again, finish}
use molly.Core.AgentLoop.Growing.{append-RunGrows}
use molly.Core.AgentLoop.Steps.{Steps}
use molly.Core.AgentLoop.Course.{calm_allowed, uncounted, uncounted_types}
use molly.Core.AgentLoop.Measure.{is_start_of, rounds_left, rounds_left-other, rounds_left-call}
use molly.Core.AgentLoop.Outcomes.{Ends, Ends-bind, Ends-pure, Reads}

-- The events of the run, if they can be read, leave at most so many rounds.
pub record Left (h : Host) (request : RunRequest) (n : ℕ) (f : File) : Type 0 where
  pub at_most :
      (es : List LedgerEvent) → for_run h request.run_id f ≡ ok es → rounds_left request es ≤ n

pub Left-reads :
    (h : Host) (request : RunRequest) (n : ℕ) (f : File) (es : List LedgerEvent)
    → Reads h request.run_id es f
    → rounds_left request es ≤ n
    → Left h request n f
Left-reads h request n f es r m = record {
  at_most = λ es' r'. rw (sym (ok-injective (sym r ∙ r'))) m;
}

pub Left-other :
    (h : Host) (laws : IsoLaws h) (request : RunRequest) (n : ℕ) (disk : Disk) (e : LedgerEvent)
    (f : File)
    → calm_allowed e.event_type ≡ true
    → Left h request n f
    → Left h request n (append h disk e f).1
Left-other h laws request n disk e f good m = record {
  at_most = λ es r.
      let types = uncounted_types e.event_type (uncounted e.event_type good) in
      let g = append-RunGrows h laws request.run_id disk e f es r in
      let was = m.at_most g.events g.was_read in
      elim g.grows [
        | inl same ↦ rw same was
        | inr (p, t, more) ↦
            let least = rounds_left-other request g.events p (rw t types.0) (rw t types.1) in
            rw more (omega (arith, was, least))
      ];
}

pub Left-call :
    (h : Host) (laws : IsoLaws h) (request : RunRequest) (n : ℕ) (disk : Disk) (e : LedgerEvent)
    (f : File)
    → e.event_type ≡ tool_call_materialized
    → Left h request n f
    → Left h request (suc n) (append h disk e f).1
Left-call h laws request n disk e f a m = record {
  at_most = λ es r.
      let g = append-RunGrows h laws request.run_id disk e f es r in
      let was = m.at_most g.events g.was_read in
      elim g.grows [
        | inl same ↦ rw same (omega (arith, was))
        | inr (p, t, more) ↦
            let least = rounds_left-call request g.events p (t ∙ a) in
            rw more (omega (arith, was, least))
      ];
}

-- A mapping keeps the identity of a call that it begins with, when it is frozen.
freeze-call_id :
    (h : Host) (id : String) (rest gs : Fields)
    → freeze_json_mapping h (field "call_id" (str id) rest) ≡ ok gs
    → get "call_id" gs ≡ some (str id)
unfolding freeze_json_mapping freeze_fields freeze_json
freeze-call_id h id rest gs e = ground arith

pub start_of_call :
    (h : Host) (id : String) (rest : Fields) (p : LedgerEvent)
    → p.event_type ≡ tool_execution_started
    → freeze_json_mapping h (field "call_id" (str id) rest) ≡ ok p.metadata
    → is_start_of (some id) p ≡ true
unfolding metadata_call_id
start_of_call h id rest p t e =
    let started : p.event_type == tool_execution_started ≡ true =
      (eq_iff p.event_type tool_execution_started).1 t in
    let named : metadata_call_id p ≡ some id =
      rw (metadata_call_id, freeze-call_id h id rest p.metadata e) refl in
    rw (started, named) ((eq_iff id id).1 refl)

-- A round that goes on takes no approval along, and at most so many may follow it.
abbrev pub Next : Host → RunRequest → ℕ → Turn → File → Type 0
Next h request n (finished r) f = Unit
Next h request n (again approval resume) f = (approval ≡ none) × Left h request n f

-- The end of a turn that tells a result, for what holds of every result.
pub finishes :
    {S L P : Type 0} {A : File → Type 0} {B : Turn → File → Type 0} (env : Env S L P)
    (request : RunRequest) (m : Exec (World S L P) RunResult)
    → ((r : RunResult) (f : File) → B (finished r) f)
    → Ends A B (finish env request m)
unfolding finish
finishes env request m b =
    Ends-bind (λ _ _. Unit) m _ (record { goes = λ w x p e. tt })
      (λ r. Ends-pure (finished r) (λ f p. b r f))

module _ {S L P : Type 0} (env : Env S L P) (laws : IsoLaws env.host) (request : RunRequest)
    (n : ℕ) where
  pub left_steps :
      Steps env.host calm_allowed (λ f g. Left env.host request n f → Left env.host request n g)
  left_steps = record {
    stay = λ f p. p;
    chain = λ f g k a b p. b (a p);
    step = λ disk e f good p. Left-other env.host laws request n disk e f good p;
  }

  pub forgets : {X : Type 0} {A : File → Type 0} (m : Exec (World S L P) X) → Ends A (λ _ _. Unit) m
  forgets m = record { goes = λ w x p e. tt }

  -- The end of a turn that tells a result.
  pub finish-Ends :
      {A : File → Type 0} (m : Exec (World S L P) RunResult)
      → Ends A (Next env.host request n) (finish env request m)
  finish-Ends m = finishes env request m (λ r f. tt)

  pub again-Ends :
      (resume : Bool)
      → Ends
          (Left env.host request n)
          (Next env.host request n)
          (lift {W = World S L P} (ok (again none resume)))
  again-Ends resume = Ends-pure (again none resume) (λ f p. (refl, p))
