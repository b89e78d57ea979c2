-- ===== src/Core/AgentLoop/Materialized.antt =====
-- core/agent_loop.py, `_project`: the events behind a call that may be executed.
use molly.Prelude.{
  String, not, Option-cases, rethrow, ◌≡◌, refl, sym, ap, ◌∙◌, Bool, true, false, ◌&&◌, ◌==◌, List,
  [], ◌∷◌, ◌++◌, some, ok, any, arith, keep, option_eq, bind-eq-ok, ok-injective, Bool-cases, inl,
  inr, refuse, refuse-eq-ok, run_state, eq_iff,
}
use molly.Core.Ids.{validate_identifier}
use molly.Core.Ids.Laws.{validate_identifier-Keeps}
use molly.Core.Host.{Host}
use molly.Core.Ledger.{LedgerEvent}
use molly.Core.Tools.Call
use molly.Core.Tools.Call.{MaterializedToolCall}
use molly.Core.AgentLoop.{
  tool_call_materialized, tool_execution_started, is_type, metadata_call_id, call_id_for_event,
}
use molly.Core.AgentLoop.Project.{
  CallState, RunProjection, project, call_state, call_states_of, materialized_calls,
  materialized_call, calls_of, check_success, check_call_id, awaits_execution, related_events,
  first?, of_type, mapping_at, same_texts,
}
use molly.Core.AgentLoop.Pending.{
  project-Parts, call_state-call, kept_ready, kept_waiting, pending_execution-Granted,
}
use molly.Core.AgentLoop.Measure.{is_call, is_start_of}

-- Whether one of the events materializes the call.
abbrev announced : List LedgerEvent → MaterializedToolCall → Bool
announced events call = any (is_call call.call_id) events

abbrev all_announced : List LedgerEvent → List MaterializedToolCall → Bool
all_announced events [] = true
all_announced events (call ∷ calls) = announced events call && all_announced events calls

named_by :
    (e : LedgerEvent) (id : String) → call_id_for_event e ≡ ok id → metadata_call_id e ≡ some id
unfolding call_id_for_event
named_by e id q = elim (Option-cases (metadata_call_id e)) [
  | inl nothing ↦ absurd (cc (rw (call_id_for_event, nothing) at q))
  | inr (x, here) ↦
      let kept : validate_identifier x ≡ ok id = rw (call_id_for_event, here) at q in
      here ∙ ap some (ground (arith, kept, validate_identifier-Keeps x))
]

materialized_call-Names :
    (h : Host) (e : LedgerEvent) (call : MaterializedToolCall)
    → materialized_call h e ≡ ok call
    → metadata_call_id e ≡ some call.call_id
unfolding materialized_call
materialized_call-Names h e call q =
    let (raw, _, q1) = bind-eq-ok (mapping_at "materialized_call" e.metadata) _ q in
    let (made, _, q2) = bind-eq-ok (rethrow (Call.from_dict h raw) run_state) _ q1 in
    let (id, i, q3) = bind-eq-ok (call_id_for_event e) _ q2 in
    let (_, agrees, q4) =
      bind-eq-ok
        (refuse (not (made.call_id == id && option_eq e.step_id (some made.step_id))) run_state) _
        q3 in
    let (_, _, q5) =
      bind-eq-ok
        (refuse
          (not (
            option_eq e.tool_name (some made.tool_name)
            && option_eq e.tool_version (some made.tool_version)))
          run_state)
        _ q4 in
    let (_, _, q6) =
      bind-eq-ok (refuse (not (same_texts e.input_artifact_ids made.input_artifact_ids)) run_state)
        _ q5 in
    let same : made ≡ call = ok-injective q6 in
    let met : not (made.call_id == id && option_eq e.step_id (some made.step_id)) ≡ false =
      refuse-eq-ok _ _ agrees in
    let named : made.call_id ≡ id = (eq_iff made.call_id id).0 (ground (arith, met)) in
    named_by e id i ∙ ap some (sym named ∙ ap (λ (c : MaterializedToolCall). c.call_id) same)

calls_of-announced :
    (h : Host) (e : LedgerEvent) (calls : List MaterializedToolCall)
    → calls_of h e ≡ ok calls
    → (es : List LedgerEvent) → all_announced (e ∷ es) calls ≡ true
unfolding calls_of
calls_of-announced h e calls q es = elim (Bool-cases (is_type tool_call_materialized e)) [
  | inr other ↦ ground (arith, q, other)
  | inl is_one ↦
      let (call, r, q1) = bind-eq-ok (materialized_call h e) _ (rw (calls_of, is_one) at q) in
      let named = materialized_call-Names h e call r in
      let same : calls ≡ call ∷ [] = sym (ok-injective q1) in
      rw same (rw (is_one, named) (ground (arith, (eq_iff call.call_id call.call_id).1 refl)))
]

announced_later :
    (e : LedgerEvent) (es : List LedgerEvent) (calls : List MaterializedToolCall)
    → all_announced es calls ≡ true
    → all_announced (e ∷ es) calls ≡ true
announced_later e es [] a = refl
announced_later e es (call ∷ calls) a = ground (arith, a, announced_later e es calls)

all_announced-append :
    (es : List LedgerEvent) (xs ys : List MaterializedToolCall)
    → all_announced es xs ≡ true
    → all_announced es ys ≡ true
    → all_announced es (xs ++ ys) ≡ true
all_announced-append es [] ys a b = b
all_announced-append es (x ∷ xs) ys a b = ground (arith, a, b, all_announced-append es xs ys)

materialized_calls-announced :
    (h : Host) (es : List LedgerEvent) (calls : List MaterializedToolCall)
    → materialized_calls h es ≡ ok calls
    → all_announced es calls ≡ true
unfolding materialized_calls
materialized_calls-announced h [] calls q = rw (sym (ok-injective q)) refl
materialized_calls-announced h (e ∷ es) calls q =
    let (_, _, q1) = bind-eq-ok (check_success h e) _ q in
    let (mine, c, q2) = bind-eq-ok (calls_of h e) _ q1 in
    let (_, _, q3) = bind-eq-ok (check_call_id e) _ q2 in
    let (rest, r, q4) = bind-eq-ok (materialized_calls h es) _ q3 in
    rw (sym (ok-injective q4)) (
      all_announced-append (e ∷ es) mine rest (calls_of-announced h e mine c es)
        (announced_later e es rest (materialized_calls-announced h es rest r)))

first-announced :
    (h : Host) (events : List LedgerEvent) (calls : List MaterializedToolCall)
    (states : List CallState) (s : CallState)
    → all_announced events calls ≡ true
    → call_states_of h events calls ≡ ok states
    → first? (keep awaits_execution states) ≡ some s
    → announced events s.call ≡ true
unfolding call_states_of
first-announced h events [] states s a e f = ground arith
first-announced h events (call ∷ calls) states s a e f =
    let (first, c, e1) = bind-eq-ok (call_state h events call) _ e in
    let (rest, d, e2) = bind-eq-ok (call_states_of h events calls) _ e1 in
    let split : states ≡ first ∷ rest = sym (ok-injective e2) in
    let g : first? (keep awaits_execution (first ∷ rest)) ≡ some s = rw split at f in
    elim (Bool-cases (awaits_execution first)) [
      | inl ready ↦
          let same : s.call ≡ call =
            rw (sym (kept_ready first rest s ready g)) (call_state-call h events call first c) in
          rw same (ground (arith, a))
      | inr waits ↦
          first-announced h events calls rest s (ground (arith, a)) d
            (rw (sym (kept_waiting first rest waits)) g)
    ]

-- The call that may be executed has been materialized.
pub pending_execution-announced :
    (h : Host) (events : List LedgerEvent) (p : RunProjection) (s : CallState)
    → project h events ≡ ok p
    → p.pending_execution ≡ some s
    → any (is_call s.call.call_id) events ≡ true
pending_execution-announced h events p s e q =
    let parts = project-Parts h events p e in
    first-announced h events parts.calls p.call_states s
      (materialized_calls-announced h events parts.calls parts.collected) parts.read
      (sym parts.execution ∙ q)

none_started :
    (id : String) (es : List LedgerEvent)
    → of_type tool_execution_started (related_events id es) ≡ []
    → any (is_start_of (some id)) es ≡ false
unfolding related_events
none_started id [] e = refl
none_started id (x ∷ es) e = ground (arith, none_started id es, e)

-- No event starts the call that may be executed.
pub pending_execution_unstarted :
    (h : Host) (events : List LedgerEvent) (p : RunProjection) (s : CallState)
    → project h events ≡ ok p
    → p.pending_execution ≡ some s
    → any (is_start_of (some s.call.call_id)) events ≡ false
pending_execution_unstarted h events p s e q =
    none_started s.call.call_id events (pending_execution-Granted h events p s e q).never_started
