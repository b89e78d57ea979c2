-- ===== src/Core/AgentLoop/Phases.antt =====
-- core/agent_loop.py: what has to be known of a property of ledger files so that a run keeps it.
use molly.Prelude.{Bool-cases, contains, String, ◌≡◌, false, List, none, ok, Result-cases, inl, inr}
use molly.Core.Ledger.{LedgerEvent}
use molly.Core.Ledger.File
use molly.Core.Ledger.File.{File, Disk, for_run}
use molly.Core.Runs.{RunRequest}
use molly.Core.Ledger
use molly.Core.Ledger.Sealing.{post_init-SameOccurrence}
use molly.Core.AgentLoop.{event_types, decision_recorded, tool_call_materialized}
use molly.Core.AgentLoop.Limits.{hard_limit_reason}
use molly.Core.AgentLoop.World.{
  Env, World, Exec, ◌>>=◌, event_field, new_unique_id, now, ledger_append, append_event,
}
use molly.Core.AgentLoop.Quiet.{Quiet, now-Quiet, new_unique_id-Quiet}
use molly.Core.AgentLoop.Steps.{Along}
use molly.Core.AgentLoop.Course.{is_counted}

-- Where a round of the loop is: before the provider's decision is recorded, after that, and
-- wherever else.
pub data Phase : Type 0 where
  asking decided settled : Phase

-- What has to be known of a property of ledger files so that a run keeps it.
pub record Kept {S L P : Type 0} (env : Env S L P) (request : RunRequest)
    (holds : Phase → File → Type 0) : Type 0 where
  pub decides : (f : File) → holds asking f → holds decided f
  pub settles : (f : File) → holds decided f → holds settled f
  pub other :
      (i : Phase) (disk : Disk) (e : LedgerEvent) (f : File)
      → is_counted e.event_type ≡ false
      → holds i f
      → holds i (File.append env.host disk e f).1
  pub decision :
      (disk : Disk) (e : LedgerEvent) (f : File)
      → e.event_type ≡ decision_recorded
      → holds asking f
      → holds decided (File.append env.host disk e f).1
  pub call :
      (disk : Disk) (e : LedgerEvent) (f : File)
      → e.event_type ≡ tool_call_materialized
      → holds decided f
      → holds settled (File.append env.host disk e f).1
  pub enter :
      (f : File) (events : List LedgerEvent)
      → for_run env.host request.run_id f ≡ ok events
      → hard_limit_reason request events false ≡ none
      → holds settled f
      → holds asking f

-- The action leads from files of which `A` holds to files of which `B` holds.
abbrev pub Leads :
    {S L P X : Type 0} → (File → Type 0) → (File → Type 0) → Exec (World S L P) X → Type 0
Leads A B m = Along (λ f g. A f → B g) m

module _ {S L P : Type 0} where
  pub Leads-bind :
      {X Y : Type 0} {A B C : File → Type 0} (m : Exec (World S L P) X)
      (k : X → Exec (World S L P) Y)
      → Leads A B m
      → ((x : X) → Leads B C (k x))
      → ((f : File) → B f → C f)
      → Leads A C (m >>= k)
  unfolding ◌>>=◌
  Leads-bind m k a b c = record {
    goes = λ w p. elim (Result-cases (m w).0) [
      | inl (x, e) ↦ rw e ((b x).goes (m w).1 (a.goes w p))
      | inr (x, e) ↦ rw e (c (m w).1.ledger (a.goes w p))
    ];
  }

  pub Leads-Quiet :
      {X : Type 0} {A B : File → Type 0} {m : Exec (World S L P) X}
      → Quiet m
      → ((f : File) → A f → B f)
      → Leads A B m
  Leads-Quiet q c = record { goes = λ w p. rw (q.leaves w) (c w.ledger p) }

module _ {S L P : Type 0} (env : Env S L P) (request : RunRequest) where
  -- What an append of one type of event has to do with a file.
  abbrev pub Writes : (File → Type 0) → (File → Type 0) → String → Type 0
  Writes A B kind =
      (disk : Disk) (checked : LedgerEvent) (f : File)
      → checked.event_type ≡ kind
      → A f
      → B (File.append env.host disk checked f).1

  ledger_append-Leads :
      (A B : File → Type 0) (e : LedgerEvent)
      → ((f : File) → A f → B f)
      → Writes A B e.event_type
      → Leads A B (ledger_append env e)
  unfolding ledger_append
  ledger_append-Leads A B e weaken step = record {
    goes = λ w p. elim (Result-cases (Ledger.post_init env.host e)) [
      | inl (checked, q) ↦
          rw (ledger_append, q)
            (step (env.disk w.tick) checked w.ledger
              (post_init-SameOccurrence env.host e checked q).same_type p)
      | inr (x, q) ↦ rw (ledger_append, q) (weaken w.ledger p)
    ];
  }

  pub append_event-Leads :
      (A B : File → Type 0) (e : LedgerEvent)
      → ((f : File) → A f → B f)
      → Writes A B e.event_type
      → Leads A B (append_event env request e)
  unfolding append_event
  append_event-Leads A B e weaken step = elim (Bool-cases (contains event_types e.event_type)) [
    | inl known ↦
        rw (append_event, known)
          (Leads-bind (new_unique_id env "evt_" event_field) _
            (Leads-Quiet (new_unique_id-Quiet env "evt_" event_field) (λ f p. p))
            (λ id.
              Leads-bind (now env) _ (Leads-Quiet (now-Quiet env) (λ f p. p))
                (λ time.
                  ledger_append-Leads A B
                    (record e { event_id = id; run_id = request.run_id; timestamp = time }) weaken
                    step)
                weaken)
            weaken)
    | inr other ↦ rw (append_event, other) (record { goes = λ w p. weaken w.ledger p })
  ]
