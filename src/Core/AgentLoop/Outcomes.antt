-- ===== src/Core/AgentLoop/Outcomes.antt =====
-- core/agent_loop.py: what holds of the ledger file after an action of the loop that did not raise.
use molly.Prelude.{
  String, ◌≡◌, refl, sym, ap, ◌∙◌, ◌==◌, List, [], ◌∷◌, ◌++◌, ok, Result-cases, Bool-cases,
  contains, inl, inr, arith, keep-append, eq_iff, ok-injective,
}
use mathlib.Core.Path.{subst}
use molly.Prelude.Actions.{>>=-Sequence}
use molly.Core.Json.{Fields}
use molly.Core.Host.{Host}
use molly.Core.Ids.Laws.{IsoLaws}
use molly.Core.Ledger
use molly.Core.Ledger.{LedgerEvent}
use molly.Core.Ledger.Sealing.{post_init-SameOccurrence}
use molly.Core.Ledger.Growth.{append-Grows}
use molly.Core.Ledger.File.{File, Disk, for_run, append}
use molly.Core.Freeze.{freeze_json_mapping, freeze-frozen}
use molly.Core.Runs.{RunRequest}
use molly.Core.AgentLoop.{event_types}
use molly.Core.AgentLoop.Growing.{of_run, for_run-parts, for_run-of}
use molly.Core.AgentLoop.Quiet.{Quiet, now-Quiet, new_unique_id-Quiet}
use molly.Core.AgentLoop.Steps.{Along}
use molly.Core.AgentLoop.World.{
  Env, World, Exec, event_field, new_unique_id, now, ledger_append, append_event, lift, ◌>>=◌,
}

-- From a file of which `A` holds, the action, if it ends well, leads to one of which `B` holds with
-- what it gives.
pub record Ends {S L P X : Type 0} (A : File → Type 0) (B : X → File → Type 0)
    (m : Exec (World S L P) X) : Type 0 where
  pub goes : (w : World S L P) (x : X) → A w.ledger → (m w).0 ≡ ok x → B x (m w).1.ledger

module _ {S L P : Type 0} where
  pub Ends-bind :
      {X Y : Type 0} {A : File → Type 0} {B : Y → File → Type 0} (C : X → File → Type 0)
      (m : Exec (World S L P) X) (k : X → Exec (World S L P) Y)
      → Ends A C m
      → ((x : X) → Ends (C x) B (k x))
      → Ends A B (m >>= k)
  Ends-bind {B = B} C m k a b = record {
    goes = λ w y p e.
        let s = >>=-Sequence m k w y e in
        subst (λ (v : World S L P). B y v.ledger) (sym s.reaches)
          ((b s.first).goes (m w).1 y (a.goes w s.first p s.begins) s.ends);
  }

  pub Ends-Quiet :
      {X : Type 0} {A : File → Type 0} {m : Exec (World S L P) X} → Quiet m → Ends A (λ _. A) m
  Ends-Quiet {A = A} q = record { goes = λ w x p e. subst A (sym (q.leaves w)) p }

  pub Ends-Along :
      {X : Type 0} {A B : File → Type 0} {m : Exec (World S L P) X}
      → Along (λ f g. A f → B g) m
      → Ends A (λ _. B) m
  Ends-Along a = record { goes = λ w x p e. a.goes w p }

  pub Ends-pure :
      {X : Type 0} {A : File → Type 0} {B : X → File → Type 0} (x : X)
      → ((f : File) → A f → B x f)
      → Ends A B (lift {W = World S L P} (ok x))
  Ends-pure {B = B} x b = record {
    goes = λ w y p e. subst (λ z. B z w.ledger) (ok-injective e) (b w.ledger p);
  }

  pub Ends-weaken :
      {X : Type 0} {A : File → Type 0} {B C : X → File → Type 0} {m : Exec (World S L P) X}
      → ((x : X) (f : File) → B x f → C x f)
      → Ends A B m
      → Ends A C m
  Ends-weaken {m = m} c a = record { goes = λ w x p e. c x (m w).1.ledger (a.goes w x p e) }

  pub Ends-given :
      {X : Type 0} {H : Type 0} {A : File → Type 0} {B : X → File → Type 0}
      {m : Exec (World S L P) X}
      → (H → Ends A B m)
      → Ends (λ f. H × A f) B m
  Ends-given k = record { goes = λ w x p e. (k p.0).goes w x p.1 e }

  pub Ends-from :
      {X : Type 0} {A C : File → Type 0} {B : X → File → Type 0} {m : Exec (World S L P) X}
      → ((f : File) → A f → C f)
      → Ends C B m
      → Ends A B m
  Ends-from c k = record { goes = λ w x p e. k.goes w x (c w.ledger p) e }

-- One more event of a run can be read, which tells what it was made of.
pub record Added (h : Host) (run_id : String) (es : List LedgerEvent) (kind : String)
    (metadata : Fields) (f : File) : Type 0 where
  pub event : LedgerEvent
  pub same_type : event.event_type ≡ kind
  pub same_metadata : freeze_json_mapping h metadata ≡ ok event.metadata
  pub reads : for_run h run_id f ≡ ok (es ++ event ∷ [])

-- The file tells these events of the run.
abbrev pub Reads : Host → String → List LedgerEvent → File → Type 0
Reads h run_id es f = for_run h run_id f ≡ ok es

append-Added :
    (h : Host) (laws : IsoLaws h) (disk : Disk) (e p : LedgerEvent) (f : File)
    (es : List LedgerEvent)
    → Reads h e.run_id es f
    → (append h disk e f).0 ≡ ok p
    → (p.event_type ≡ e.event_type)
      × (freeze_json_mapping h e.metadata ≡ ok p.metadata)
      × Reads h e.run_id (es ++ p ∷ []) (append h disk e f).1
append-Added h laws disk e p f es r done =
    let g = append-Grows h laws disk e p f done in
    let (all, before, kept, valid) = for_run-parts h e.run_id f es r in
    let same : all ≡ g.events = ok-injective (sym before ∙ g.read_before) in
    let mine : of_run e.run_id (p ∷ []) ≡ p ∷ [] =
      ground (arith, (eq_iff p.run_id e.run_id).1 g.seals.same.same_run) in
    let whole : of_run e.run_id (g.events ++ p ∷ []) ≡ es ++ p ∷ [] =
      keep-append (λ (x : LedgerEvent). x.run_id == e.run_id) g.events (p ∷ [])
      ∙ rw (mine, kept, same) refl in
    (
      g.seals.same.same_type,
      g.seals.same.same_metadata,
      for_run-of h e.run_id (append h disk e f).1 (g.events ++ p ∷ []) g.read_after valid
          ∙ ap ok whole,
    )

module _ {S L P : Type 0} (env : Env S L P) (laws : IsoLaws env.host) (request : RunRequest)
    (es : List LedgerEvent) where
  ledger_append-Ends :
      (e : LedgerEvent)
      → e.run_id ≡ request.run_id
      → Ends
          (Reads env.host request.run_id es)
          (λ _. Added env.host request.run_id es e.event_type e.metadata)
          (ledger_append env e)
  unfolding ledger_append
  ledger_append-Ends e mine = record {
    goes = λ w x r done. elim (Result-cases (Ledger.post_init env.host e)) [
      | inr (y, q) ↦ absurd (cc (rw (ledger_append, q) at done))
      | inl (checked, q) ↦
          let same = post_init-SameOccurrence env.host e checked q in
          let run : checked.run_id ≡ request.run_id = same.same_run ∙ mine in
          let written : (append env.host (env.disk w.tick) checked w.ledger).0 ≡ ok x =
            rw (ledger_append, q) at done in
          let (type, metadata, reads) =
            append-Added env.host laws (env.disk w.tick) checked x w.ledger es
              (subst (λ run_id. Reads env.host run_id es w.ledger) (sym run) r) written in
          rw (ledger_append, q)
            (record {
              event = x;
              same_type = type ∙ same.same_type;
              same_metadata =
                  same.same_metadata
                  ∙ sym (freeze-frozen env.host e.metadata checked.metadata same.same_metadata)
                  ∙ metadata;
              reads =
                  subst
                    (λ run_id.
                      Reads env.host run_id (es ++ x ∷ [])
                        (append env.host (env.disk w.tick) checked w.ledger).1)
                    run reads;
            })
    ];
  }

  -- An append that ends well adds one event to those of the run.
  pub append_event-Ends :
      (e : LedgerEvent)
      → Ends
          (Reads env.host request.run_id es)
          (λ _. Added env.host request.run_id es e.event_type e.metadata)
          (append_event env request e)
  unfolding append_event
  append_event-Ends e = elim (Bool-cases (contains event_types e.event_type)) [
    | inl known ↦
        rw (append_event, known)
          (Ends-bind _ (new_unique_id env "evt_" event_field) _
            (Ends-Quiet (new_unique_id-Quiet env "evt_" event_field))
            (λ id. Ends-bind _ (now env) _ (Ends-Quiet (now-Quiet env)) (λ time.
              ledger_append-Ends
                (record e { event_id = id; run_id = request.run_id; timestamp = time }) refl)))
    | inr other ↦ rw (append_event, other) (record { goes = λ w x r done. absurd (cc done) })
  ]
