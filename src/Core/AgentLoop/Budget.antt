-- ===== src/Core/AgentLoop/Budget.antt =====
-- core/agent_loop.py: the counts of a run when one more event stands in its ledger.
use molly.Prelude.{
  ℕ, suc, ◌+◌, ◌≤◌, String, ◌≡◌, refl, ◌∙◌, Bool, true, false, ◌||◌, ◌==◌, List, [], ◌∷◌, ◌++◌,
  Option, none, some, ok, Bool-cases, inl, inr, arith, append-nil, contains, if◌then◌else◌,
}
use molly.Core.Host.{Host}
use molly.Core.Ids.Laws.{IsoLaws}
use molly.Core.Ledger.{LedgerEvent}
use molly.Core.Ledger.File.{File, Disk, for_run, append}
use molly.Core.AgentLoop.{decision_recorded, tool_call_materialized, is_type}
use molly.Core.AgentLoop.Growing.{append-RunGrows}
use molly.Core.AgentLoop.Limits.{Counts, counts, count, distinct, step_ids, push_step}

pub count-snoc :
    (q : LedgerEvent → Bool) (es : List LedgerEvent) (p : LedgerEvent)
    → count q (es ++ p ∷ []) ≡ count q es + (if q p then 1 else 0)
count-snoc q [] p = ground arith
count-snoc q (e ∷ es) p = ground (arith, count-snoc q es p)

contains-snoc :
    (xs : List String) (y x : String) → contains (xs ++ y ∷ []) x ≡ (contains xs x || y == x)
contains-snoc [] y x = ground arith
contains-snoc (z ∷ xs) y x = ground (arith, contains-snoc xs y x)

distinct-snoc_le : (xs : List String) (y : String) → distinct (xs ++ y ∷ []) ≤ suc (distinct xs)
distinct-snoc_le [] y = ground arith
distinct-snoc_le (x ∷ xs) y = ground (arith, contains-snoc xs y x, distinct-snoc_le xs y)

push_step-append :
    (o : Option String) (xs ys : List String) → push_step o (xs ++ ys) ≡ push_step o xs ++ ys
push_step-append none xs ys = refl
push_step-append (some x) xs ys = refl

step_ids-snoc :
    (es : List LedgerEvent) (p : LedgerEvent)
    → step_ids (es ++ p ∷ [])
      ≡ step_ids es ++ (if is_type tool_call_materialized p then push_step p.step_id [] else [])
step_ids-snoc [] p = ground arith
step_ids-snoc (e ∷ es) p =
    let later = step_ids-snoc es p in
    let tail = if is_type tool_call_materialized p then push_step p.step_id [] else [] in
    elim (Bool-cases (is_type tool_call_materialized e)) [
      | inl call ↦ rw (call, later) (push_step-append e.step_id (step_ids es) tail)
      | inr other ↦ rw (other, later) refl
    ]

-- What one more event adds to the counts, by its type.
abbrev pub AtMost : ℕ → ℕ → ℕ → Counts → Type 0
AtMost d c s k = (k.decisions ≤ d) × (k.tool_calls ≤ c) × (k.steps ≤ s)

pub counts-other :
    (es : List LedgerEvent) (p : LedgerEvent)
    → p.event_type == decision_recorded ≡ false
    → p.event_type == tool_call_materialized ≡ false
    → counts (es ++ p ∷ []) ≡ counts es
unfolding counts
counts-other es p a b =
    let decisions = count-snoc (is_type decision_recorded) es p in
    let calls = count-snoc (is_type tool_call_materialized) es p in
    let steps : step_ids (es ++ p ∷ []) ≡ step_ids es =
      step_ids-snoc es p ∙ rw b (append-nil (step_ids es)) in
    rw (decisions, calls, steps) (rw (a, b) (ground arith))

counts-decision :
    (es : List LedgerEvent) (p : LedgerEvent) (d c s : ℕ)
    → p.event_type ≡ decision_recorded
    → AtMost d c s (counts es)
    → AtMost (suc d) c s (counts (es ++ p ∷ []))
unfolding counts
counts-decision es p d c s t m =
    let is_decision : is_type decision_recorded p ≡ true = rw t refl in
    let no_call : is_type tool_call_materialized p ≡ false = rw t refl in
    let decisions = count-snoc (is_type decision_recorded) es p in
    let calls = count-snoc (is_type tool_call_materialized) es p in
    let steps : step_ids (es ++ p ∷ []) ≡ step_ids es =
      step_ids-snoc es p ∙ rw no_call (append-nil (step_ids es)) in
    (ground (arith, decisions, is_decision, m.0), ground (arith, calls, no_call, m.1), rw steps m.2)

distinct-push :
    (o : Option String) (xs : List String) (s : ℕ)
    → distinct xs ≤ s
    → distinct (xs ++ push_step o []) ≤ suc s
distinct-push none xs s m = rw (append-nil xs) (omega (arith, m))
distinct-push (some y) xs s m = omega (arith, m, distinct-snoc_le xs y)

counts-call :
    (es : List LedgerEvent) (p : LedgerEvent) (d c s : ℕ)
    → p.event_type ≡ tool_call_materialized
    → AtMost d c s (counts es)
    → AtMost d (suc c) (suc s) (counts (es ++ p ∷ []))
unfolding counts
counts-call es p d c s t m =
    let no_decision : is_type decision_recorded p ≡ false = rw t refl in
    let is_call : is_type tool_call_materialized p ≡ true = rw t refl in
    let decisions = count-snoc (is_type decision_recorded) es p in
    let calls = count-snoc (is_type tool_call_materialized) es p in
    let steps : step_ids (es ++ p ∷ []) ≡ step_ids es ++ push_step p.step_id [] =
      step_ids-snoc es p ∙ rw is_call refl in
    (
      ground (arith, decisions, no_decision, m.0),
      ground (arith, calls, is_call, m.1),
      rw steps (distinct-push p.step_id (step_ids es) s m.2),
    )

-- The counts of a run in a file, whenever they can be read.
pub record Within (h : Host) (run_id : String) (d c s : ℕ) (f : File) : Type 0 where
  pub at_most : (es : List LedgerEvent) → for_run h run_id f ≡ ok es → AtMost d c s (counts es)

module _ (h : Host) (laws : IsoLaws h) (run_id : String) (disk : Disk) (e : LedgerEvent)
    (f : File) where
  pub Within-other :
      (d c s : ℕ)
      → e.event_type == decision_recorded ≡ false
      → e.event_type == tool_call_materialized ≡ false
      → Within h run_id d c s f
      → Within h run_id d c s (append h disk e f).1
  Within-other d c s a b m = record {
    at_most = λ es r.
        let g = append-RunGrows h laws run_id disk e f es r in
        elim g.grows [
          | inl same ↦ rw same (m.at_most g.events g.was_read)
          | inr (p, t, more) ↦
              rw (more, counts-other g.events p (rw t a) (rw t b)) (m.at_most g.events g.was_read)
        ];
  }

  pub Within-decision :
      (d c s : ℕ)
      → e.event_type ≡ decision_recorded
      → Within h run_id d c s f
      → Within h run_id (suc d) c s (append h disk e f).1
  Within-decision d c s a m = record {
    at_most = λ es r.
        let g = append-RunGrows h laws run_id disk e f es r in
        let was = m.at_most g.events g.was_read in
        elim g.grows [
          | inl same ↦ rw same (omega (arith, was.0), was.1, was.2)
          | inr (p, t, more) ↦ rw more (counts-decision g.events p d c s (t ∙ a) was)
        ];
  }

  pub Within-call :
      (d c s : ℕ)
      → e.event_type ≡ tool_call_materialized
      → Within h run_id d c s f
      → Within h run_id d (suc c) (suc s) (append h disk e f).1
  Within-call d c s a m = record {
    at_most = λ es r.
        let g = append-RunGrows h laws run_id disk e f es r in
        let was = m.at_most g.events g.was_read in
        elim g.grows [
          | inl same ↦ rw same (was.0, omega (arith, was.1), omega (arith, was.2))
          | inr (p, t, more) ↦ rw more (counts-call g.events p d c s (t ∙ a) was)
        ];
  }
