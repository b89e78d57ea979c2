-- ===== src/Core/AgentLoop/History.antt =====
-- core/agent_loop.py, `AgentLoop.run`: the ledger before a run and after it.
use molly.Prelude.{ℕ, ◌≡◌, sym, ap, ◌∙◌, List, [], Option, ok, ◌++◌, append-nil, append_assoc}
use molly.Core.Host.{Host}
use molly.Core.Ids.Laws.{IsoLaws}
use molly.Core.Ledger.{LedgerEvent}
use molly.Core.Ledger.File.{File, Disk, append, read_events}
use molly.Core.Ledger.Growth.{Extends, append-Extends}
use molly.Core.Approvals.{ApprovalRecord}
use molly.Core.Runs.{RunRequest}
use molly.Core.AgentLoop.World.{Env, World}
use molly.Core.AgentLoop.Run.{run}
use molly.Core.AgentLoop.Asking.{run_keeps}
use molly.Core.AgentLoop.Phases.{Kept}

-- Whatever can be read of the later file begins with what could be read of the first.
record Continues (h : Host) (first later : File) : Type 0 where
  begins : (es : List LedgerEvent) → read_events h later ≡ ok es → Extends h first later es

Continues-refl : (h : Host) (f : File) → Continues h f f
Continues-refl h f = record {
  begins = λ es r. record { old = es; new = []; was_read = r; keeps = sym (append-nil es) };
}

append-Continues :
    (h : Host) (laws : IsoLaws h) (first f : File) (disk : Disk) (e : LedgerEvent)
    → Continues h first f
    → Continues h first (append h disk e f).1
append-Continues h laws first f disk e c = record {
  begins = λ es r.
      let latest = append-Extends h laws disk e f es r in
      let before = c.begins latest.old latest.was_read in
      record {
        old = before.old;
        new = before.new ++ latest.new;
        was_read = before.was_read;
        keeps =
            latest.keeps
            ∙ ap (λ (t : List LedgerEvent). t ++ latest.new) before.keeps
            ∙ append_assoc before.old before.new latest.new;
      };
}

Continues-Kept :
    {S L P : Type 0} (env : Env S L P) (laws : IsoLaws env.host) (request : RunRequest)
    (first : File)
    → Kept env request (λ i f. Continues env.host first f)
Continues-Kept env laws request first = record {
  decides = λ f c. c;
  settles = λ f c. c;
  other = λ i disk e f t c. append-Continues env.host laws first f disk e c;
  decision = λ disk e f t c. append-Continues env.host laws first f disk e c;
  call = λ disk e f t c. append-Continues env.host laws first f disk e c;
  enter = λ f events r n c. c;
}

-- Given the laws of ISO dates, and whatever the fuel, the approval, the failures and the
-- collaborators, none of which writes the ledger itself: if the ledger can be read after `run`, it
-- could be read before it, and begins with the events read then, in order.
pub run-Extends :
    {S L P : Type 0} (env : Env S L P) (laws : IsoLaws env.host) (request : RunRequest) (fuel : ℕ)
    (approval : Option ApprovalRecord) (w : World S L P) (es : List LedgerEvent)
    → read_events env.host (run env request fuel approval w).1.ledger ≡ ok es
    → Extends env.host w.ledger (run env request fuel approval w).1.ledger es
run-Extends env laws request fuel approval w =
    (run_keeps env request (Continues-Kept env laws request w.ledger) fuel approval w
      (Continues-refl env.host w.ledger)).begins
