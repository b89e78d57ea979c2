-- ===== src/Core/AgentLoop/Steps.antt =====
-- What every action of the loop does to the ledger file, for a relation that appending respects.
use molly.Prelude.{
  String, ◌≡◌, Bool, true, List, Result, Result-cases, Bool-cases, contains, inl, inr,
}
use molly.Core.Host.{Host}
use molly.Core.Ledger
use molly.Core.Ledger.{LedgerEvent}
use molly.Core.Ledger.File
use molly.Core.Ledger.File.{File, Disk, read_events}
use molly.Core.Ledger.Sealing.{post_init-SameOccurrence}
use molly.Core.AgentLoop.Quiet.{Quiet, now-Quiet, new_unique_id-Quiet}
use molly.Core.Json.{Fields}
use molly.Core.Tools.Call.{MaterializedToolCall}
use molly.Core.AgentLoop.Execute.{call_event}
use molly.Core.Runs.{RunRequest}
use molly.Core.AgentLoop.{event_types}
use molly.Core.AgentLoop.World.{
  Env, World, Exec, event_field, lift, now, new_unique_id, draft, ledger_append, append_event,
  ◌>>=◌,
}

-- A relation on ledger files that can be chained, and that holds of what an append of an event of an
-- allowed type does.
pub record Steps (h : Host) (allowed : String → Bool) (R : File → File → Type 0) : Type 0 where
  pub stay : (f : File) → R f f
  pub chain : (f g k : File) → R f g → R g k → R f k
  pub step :
      (disk : Disk) (e : LedgerEvent) (f : File)
      → allowed e.event_type ≡ true
      → R f (File.append h disk e f).1

pub relate_from : (R : File → File → Type 0) (f g k : File) → f ≡ g → R f k → R g k
relate_from R f g k e r = rw (← e) r

-- The action takes the ledger along the relation, whether it raises or not.
pub record Along {S L P A : Type 0} (R : File → File → Type 0) (m : Exec (World S L P) A)
    : Type 0 where
  pub goes : (w : World S L P) → R w.ledger (m w).1.ledger

module _ {S L P : Type 0} {R : File → File → Type 0} {allowed : String → Bool} {h : Host}
    (steps : Steps h allowed R) where
  pub Along-bind :
      {A B : Type 0} (m : Exec (World S L P) A) (f : A → Exec (World S L P) B)
      → Along R m
      → ((a : A) → Along R (f a))
      → Along R (m >>= f)
  unfolding ◌>>=◌
  Along-bind m f a b = record {
    goes = λ w. elim (Result-cases (m w).0) [
      | inl (x, e) ↦ rw e (steps.chain w.ledger (m w).1.ledger _ (a.goes w) ((b x).goes (m w).1))
      | inr (x, e) ↦ rw e (a.goes w)
    ];
  }

  pub Along-Quiet : {A : Type 0} {m : Exec (World S L P) A} → Quiet m → Along R m
  Along-Quiet q = record { goes = λ w. rw (q.leaves w) (steps.stay w.ledger) }

  pub Along-lift : {A : Type 0} (r : Result A) → Along R (lift {W = World S L P} r)
  Along-lift r = record { goes = λ w. steps.stay w.ledger }

module _ {S L P : Type 0} {R : File → File → Type 0} {allowed : String → Bool} (env : Env S L P)
    (steps : Steps env.host allowed R) (request : RunRequest) where
  ledger_append-Along :
      (e : LedgerEvent) → allowed e.event_type ≡ true → Along R (ledger_append env e)
  unfolding ledger_append
  ledger_append-Along e good = record {
    goes = λ w. elim (Result-cases (Ledger.post_init env.host e)) [
      | inl (checked, q) ↦
          rw (ledger_append, q)
            (steps.step (env.disk w.tick) checked w.ledger
              (rw (post_init-SameOccurrence env.host e checked q).same_type good))
      | inr (x, q) ↦ rw (ledger_append, q) (steps.stay w.ledger)
    ];
  }

  pub append_event-Along :
      (draft : LedgerEvent)
      → allowed draft.event_type ≡ true
      → Along R (append_event env request draft)
  unfolding append_event
  append_event-Along draft good = elim (Bool-cases (contains event_types draft.event_type)) [
    | inl known ↦
        rw (append_event, known)
          (Along-bind steps (new_unique_id env "evt_" event_field) _
            (Along-Quiet steps (new_unique_id-Quiet env "evt_" event_field))
            (λ id. Along-bind steps (now env) _ (Along-Quiet steps (now-Quiet env)) (λ time.
              ledger_append-Along
                (record draft { event_id = id; run_id = request.run_id; timestamp = time }) good)))
    | inr other ↦ rw (append_event, other) (record { goes = λ w. steps.stay w.ledger })
  ]

  pub append_draft-Along :
      (kind status : String) (metadata : Fields)
      → allowed kind ≡ true
      → Along R (append_event env request (draft kind status metadata))
  unfolding draft
  append_draft-Along kind status metadata good =
      append_event-Along (draft kind status metadata) good

  pub append_call-Along :
      (kind status : String) (call : MaterializedToolCall) (metadata : Fields)
      → allowed kind ≡ true
      → Along R (append_event env request (call_event kind status call metadata))
  unfolding draft
  append_call-Along kind status call metadata good =
      append_event-Along (call_event kind status call metadata) good

  pub append_outputs-Along :
      (kind status : String) (call : MaterializedToolCall) (metadata : Fields)
      (outputs : List String)
      → allowed kind ≡ true
      → Along R (
          append_event env request
            (record (call_event kind status call metadata) { output_artifact_ids = outputs }))
  unfolding draft
  append_outputs-Along kind status call metadata outputs good =
      append_event-Along
        (record (call_event kind status call metadata) { output_artifact_ids = outputs }) good
