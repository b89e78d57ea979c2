-- ===== src/Core/AgentLoop/Measure.antt =====
-- core/agent_loop.py: a bound on the rounds that a run still has, by the events of its ledger.
use molly.Prelude.{
  ℕ, suc, ◌+◌, ◌*◌, ◌-◌, ◌≤◌, String, ◌≡◌, refl, Bool, true, false, not, ◌&&◌, ◌||◌, ◌==◌, List, [],
  ◌∷◌, ◌++◌, Option, some, arith, any, option_eq, if◌then◌else◌, Bool-cases, inl, inr,
  option_eq_sound, eq_iff,
}
use molly.Core.Ledger.{LedgerEvent}
use molly.Core.Runs.{RunRequest}
use molly.Core.AgentLoop.{
  decision_recorded, tool_call_materialized, tool_execution_started, is_type, metadata_call_id,
}
use molly.Core.AgentLoop.Limits.{counts, count, effective_hard_limits, server_run_hard_limits}
use molly.Core.AgentLoop.Bounds.{effective_hard_limits_le}
use molly.Core.AgentLoop.Budget.{count-snoc}

abbrev pub is_start_of : Option String → LedgerEvent → Bool
is_start_of id e = is_type tool_execution_started e && option_eq (metadata_call_id e) id

-- Whether the event materializes a call of which no event of the list is the start.
abbrev pub is_unstarted : List LedgerEvent → LedgerEvent → Bool
is_unstarted all e =
    is_type tool_call_materialized e && not (any (is_start_of (metadata_call_id e)) all)

abbrev pub unstarted : List LedgerEvent → ℕ
unstarted es = count (is_unstarted es) es

-- Each decision that the limits leave may cost two rounds, and each call that was not started one.
unfoldable pub rounds_left : RunRequest → List LedgerEvent → ℕ
unfolding counts
rounds_left request es =
    2 * ((effective_hard_limits request).max_decisions - (counts es).decisions) + unstarted es

pub any-snoc :
    (q : LedgerEvent → Bool) (es : List LedgerEvent) (p : LedgerEvent)
    → any q (es ++ p ∷ []) ≡ (any q es || q p)
any-snoc q [] p = ground arith
any-snoc q (e ∷ es) p = ground (arith, any-snoc q es p)

-- The test of an event gets no weaker when one more event stands behind the list.
is_unstarted-snoc :
    (all : List LedgerEvent) (p e : LedgerEvent)
    → is_unstarted all e ≡ false
    → is_unstarted (all ++ p ∷ []) e ≡ false
is_unstarted-snoc all p e n = ground (arith, n, any-snoc (is_start_of (metadata_call_id e)) all p)

count-later :
    (all : List LedgerEvent) (p : LedgerEvent) (es : List LedgerEvent)
    → count (is_unstarted (all ++ p ∷ [])) es ≤ count (is_unstarted all) es
count-later all p [] = omega arith
count-later all p (e ∷ es) = elim (Bool-cases (is_unstarted all e)) [
  | inl open_call ↦ ground (arith, open_call, count-later all p es)
  | inr closed ↦ ground (arith, closed, is_unstarted-snoc all p e closed, count-later all p es)
]

unstarted-snoc :
    (es : List LedgerEvent) (p : LedgerEvent)
    → unstarted (es ++ p ∷ []) ≤ unstarted es + (if is_type tool_call_materialized p then 1 else 0)
unstarted-snoc es p =
    let later = count-later es p es in
    let last = count-snoc (is_unstarted (es ++ p ∷ [])) es p in
    elim (Bool-cases (is_type tool_call_materialized p)) [
      | inl call ↦ ground (arith, later, last, call)
      | inr other ↦ ground (arith, later, last, other)
    ]

-- The event materializes the call.
abbrev pub is_call : String → LedgerEvent → Bool
is_call id e = is_type tool_call_materialized e && option_eq (metadata_call_id e) (some id)

count-started :
    (all : List LedgerEvent) (p : LedgerEvent) (id : String) (es : List LedgerEvent)
    → is_start_of (some id) p ≡ true
    → any (is_start_of (some id)) all ≡ false
    → any (is_call id) es ≡ true
    → suc (count (is_unstarted (all ++ p ∷ [])) es) ≤ count (is_unstarted all) es
count-started all p id [] s f a = absurd (ground (arith, a))
count-started all p id (e ∷ es) s f a = elim (Bool-cases (is_call id e)) [
  | inl this ↦
      let same : metadata_call_id e ≡ some id =
        option_eq_sound (metadata_call_id e) (some id) (ground (arith, this)) in
      let open_before : is_unstarted all e ≡ true = rw (same, f) (ground (arith, this)) in
      let closed_after : is_unstarted (all ++ p ∷ []) e ≡ false =
        rw (same, any-snoc (is_start_of (some id)) all p, s) (ground arith) in
      rw (open_before, closed_after) (ground (arith, count-later all p es))
  | inr other ↦
      let rest = count-started all p id es s f (ground (arith, a, other)) in
      elim (Bool-cases (is_unstarted all e)) [
        | inl open_call ↦ ground (arith, open_call, rest)
        | inr closed ↦ ground (arith, closed, is_unstarted-snoc all p e closed, rest)
      ]
]

module _ (request : RunRequest) (es : List LedgerEvent) (p : LedgerEvent) where
  pub rounds_left-other :
      p.event_type == decision_recorded ≡ false
      → p.event_type == tool_call_materialized ≡ false
      → rounds_left request (es ++ p ∷ []) ≤ rounds_left request es
  unfolding rounds_left counts
  rounds_left-other a b =
      let decisions = count-snoc (is_type decision_recorded) es p in
      let calls = unstarted-snoc es p in rw (decisions, a) (ground (arith, calls, b))

  pub rounds_left-decision :
      p.event_type ≡ decision_recorded
      → suc (counts es).decisions ≤ (effective_hard_limits request).max_decisions
      → suc (suc (rounds_left request (es ++ p ∷ []))) ≤ rounds_left request es
  unfolding rounds_left counts
  rounds_left-decision t room =
      let decisions = count-snoc (is_type decision_recorded) es p in
      let is_decision : is_type decision_recorded p ≡ true = rw t refl in
      let no_call : is_type tool_call_materialized p ≡ false = rw t refl in
      let calls = unstarted-snoc es p in
      rw (decisions, is_decision) (ground (arith, calls, no_call, room))

  pub rounds_left-call :
      p.event_type ≡ tool_call_materialized
      → rounds_left request (es ++ p ∷ []) ≤ suc (rounds_left request es)
  unfolding rounds_left counts
  rounds_left-call t =
      let decisions = count-snoc (is_type decision_recorded) es p in
      let no_decision : is_type decision_recorded p ≡ false = rw t refl in
      let is_one : is_type tool_call_materialized p ≡ true = rw t refl in
      let calls = unstarted-snoc es p in rw (decisions, no_decision) (ground (arith, calls, is_one))

  pub rounds_left-started :
      (id : String)
      → is_start_of (some id) p ≡ true
      → any (is_start_of (some id)) es ≡ false
      → any (is_call id) es ≡ true
      → suc (rounds_left request (es ++ p ∷ [])) ≤ rounds_left request es
  unfolding rounds_left counts
  rounds_left-started id start never call =
      let decisions = count-snoc (is_type decision_recorded) es p in
      let t : p.event_type ≡ tool_execution_started =
        (eq_iff p.event_type tool_execution_started).0 (ground (arith, start)) in
      let no_decision : is_type decision_recorded p ≡ false = rw t refl in
      let no_call : is_type tool_call_materialized p ≡ false = rw t refl in
      let last = count-snoc (is_unstarted (es ++ p ∷ [])) es p in
      let fewer = count-started es p id es start never call in
      rw (decisions, no_decision) (ground (arith, last, no_call, fewer))

count-unstarted_le :
    (all es : List LedgerEvent)
    → count (is_unstarted all) es ≤ count (is_type tool_call_materialized) es
count-unstarted_le all [] = omega arith
count-unstarted_le all (e ∷ es) = ground (arith, count-unstarted_le all es)

pub rounds_left_le :
    (request : RunRequest) (es : List LedgerEvent)
    → rounds_left request es ≤ 2 * server_run_hard_limits.max_decisions + (counts es).tool_calls
unfolding rounds_left counts
rounds_left_le request es =
    omega (arith, (effective_hard_limits_le request).0, count-unstarted_le es es)
