-- ===== src/Core/AgentLoop/Growing.antt =====
-- core/agent_loop.py: the events of one run in a ledger to which one event was appended.
use molly.Prelude.{
  String, ◌≡◌, refl, sym, ap, ◌∙◌, ◌==◌, List, [], ◌∷◌, ◌++◌, ok, Result-cases, Bool-cases, ◌⊎◌,
  inl, inr, arith, keep, keep-append, append-nil, bind-eq-ok, ok-injective,
}
use molly.Core.Host.{Host}
use molly.Core.Ids.{validate_identifier}
use molly.Core.Ids.Laws.{IsoLaws, validate_identifier-Keeps}
use molly.Core.Ledger.{LedgerEvent}
use molly.Core.Ledger.File.{File, Disk, read_events, for_run, append}
use molly.Core.Ledger.Growth.{Grows, append-Grows, as_before, torn, whole, append_failed}

-- What an append has made of the events of one run: nothing, or one more of the type it was given.
pub record RunGrows (h : Host) (run_id kind : String) (before : File) (after : List LedgerEvent)
    : Type 0 where
  pub events : List LedgerEvent
  pub was_read : for_run h run_id before ≡ ok events
  pub grows :
      (after ≡ events) ⊎ ((p : LedgerEvent) × (p.event_type ≡ kind) × (after ≡ events ++ p ∷ []))

pub for_run-parts :
    (h : Host) (run_id : String) (f : File) (es : List LedgerEvent)
    → for_run h run_id f ≡ ok es
    → (all : List LedgerEvent) × (read_events h f ≡ ok all)
      × (es ≡ keep (λ (e : LedgerEvent). e.run_id == run_id) all)
      × (validate_identifier run_id ≡ ok run_id)
unfolding for_run
for_run-parts h run_id f es r =
    let (v, checked, r1) = bind-eq-ok (validate_identifier run_id) _ r in
    let (all, reads, r2) = bind-eq-ok (read_events h f) _ r1 in
    (all, reads, sym (ok-injective r2), ground (arith, validate_identifier-Keeps run_id))

pub for_run-of :
    (h : Host) (run_id : String) (f : File) (all : List LedgerEvent)
    → read_events h f ≡ ok all
    → validate_identifier run_id ≡ ok run_id
    → for_run h run_id f ≡ ok (keep (λ (e : LedgerEvent). e.run_id == run_id) all)
unfolding for_run
for_run-of h run_id f all r v = rw (for_run, v, r)

-- The events of one run.
abbrev pub of_run : String → List LedgerEvent → List LedgerEvent
of_run run_id all = keep (λ (e : LedgerEvent). e.run_id == run_id) all

of_run-snoc :
    (run_id kind : String) (all : List LedgerEvent) (p : LedgerEvent)
    → p.event_type ≡ kind
    → (of_run run_id (all ++ p ∷ []) ≡ of_run run_id all)
      ⊎ ((q : LedgerEvent) × (q.event_type ≡ kind)
          × (of_run run_id (all ++ p ∷ []) ≡ of_run run_id all ++ q ∷ []))
of_run-snoc run_id kind all p t =
    let split = keep-append (λ (e : LedgerEvent). e.run_id == run_id) all (p ∷ []) in
    elim (Bool-cases (p.run_id == run_id)) [
      | inl mine ↦
          let kept : of_run run_id (p ∷ []) ≡ p ∷ [] = ground (arith, mine) in
          inr (p, t, split ∙ ap (λ rest. of_run run_id all ++ rest) kept)
      | inr other ↦
          let gone : of_run run_id (p ∷ []) ≡ [] = ground (arith, other) in
          inl (split ∙ ap (λ rest. of_run run_id all ++ rest) gone ∙ append-nil (of_run run_id all))
    ]

Grows-RunGrows :
    (h : Host) (run_id : String) (e p : LedgerEvent) (f f' : File) (after : List LedgerEvent)
    → for_run h run_id f' ≡ ok after
    → Grows h e p f f'
    → RunGrows h run_id e.event_type f after
Grows-RunGrows h run_id e p f f' after r g =
    let (all, reads, kept, valid) = for_run-parts h run_id f' after r in
    let more : all ≡ g.events ++ p ∷ [] = ok-injective (sym reads ∙ g.read_after) in
    record {
      events = keep (λ (e : LedgerEvent). e.run_id == run_id) g.events;
      was_read = for_run-of h run_id f g.events g.read_before valid;
      grows = rw (kept, more) (of_run-snoc run_id e.event_type g.events p g.seals.same.same_type);
    }

pub append-RunGrows :
    (h : Host) (laws : IsoLaws h) (run_id : String) (disk : Disk) (e : LedgerEvent) (f : File)
    (after : List LedgerEvent)
    → for_run h run_id (append h disk e f).1 ≡ ok after
    → RunGrows h run_id e.event_type f after
append-RunGrows h laws run_id disk e f after r =
    let (all, reads, kept, valid) = for_run-parts h run_id (append h disk e f).1 after r in
    elim (Result-cases (append h disk e f).0) [
      | inl (p, done) ↦
          Grows-RunGrows h run_id e p f (append h disk e f).1 after r
            (append-Grows h laws disk e p f done)
      | inr (x, failed) ↦ elim (append_failed h laws disk e f x failed) [
        | as_before same ↦ record {
          events = after;
          was_read = rw kept (for_run-of h run_id f all (sym same ∙ reads) valid);
          grows = inl refl;
        }
        | torn _ _ corrupt ↦ absurd (cc (corrupt, reads))
        | whole p _ g ↦ Grows-RunGrows h run_id e p f (append h disk e f).1 after r g
      ]
    ]
