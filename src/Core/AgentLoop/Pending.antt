-- ===== src/Core/AgentLoop/Pending.antt =====
-- core/agent_loop.py, `_project`: what a call that may be executed, or that waits, has behind it.
use molly.Prelude.{
  ◌≡◌, refl, ◌++◌, sym, ap, ◌∙◌, true, false, Option, none, some, List, [], ◌∷◌, arith, keep, last?,
  length, ltb, ok, bind-eq-ok, ok-injective, refuse, run_state, ◌⊎◌, inl, inr, any, Bool-cases,
  eq_iff,
}
use molly.Core.Host.{Host}
use molly.Core.Ledger.{LedgerEvent}
use molly.Core.Tools.Call.{MaterializedToolCall}
use molly.Core.Approvals.{ApprovalRecord, approved, assert_binds_to}
use molly.Core.AgentLoop.{approval_required, tool_execution_started, is_type}
use molly.Core.AgentLoop.Project.{
  CallState, RunProjection, project, call_state, call_states_of, materialized_calls,
  awaits_approval, awaits_execution, related_events, first?, check_terminal, is_run_terminal,
  approval_of, has_decision, of_type, at_most_one,
}

-- Where the parts of a projection come from.
pub record Parts (h : Host) (events : List LedgerEvent) (p : RunProjection) : Type 0 where
  pub calls : List MaterializedToolCall
  pub collected : materialized_calls h events ≡ ok calls
  pub read : call_states_of h events calls ≡ ok p.call_states
  pub approval : p.pending_approval ≡ first? (keep awaits_approval p.call_states)
  pub execution : p.pending_execution ≡ first? (keep awaits_execution p.call_states)
  pub terminal : p.terminal_event ≡ last? (keep is_run_terminal events)

pub project-Parts :
    (h : Host) (events : List LedgerEvent) (p : RunProjection)
    → project h events ≡ ok p
    → Parts h events p
unfolding project
project-Parts h events p e =
    let (calls, c, e1) = bind-eq-ok (materialized_calls h events) _ e in
    let (states, s, e2) = bind-eq-ok (call_states_of h events calls) _ e1 in
    let (_, t, e3) =
      bind-eq-ok (check_terminal events (last? (keep is_run_terminal events))) _ e2 in
    let (_, _, e4) =
      bind-eq-ok
        (refuse (ltb 1 (length (keep awaits_approval states ++ keep awaits_execution states)))
          run_state)
        _ e3 in
    let same : p.call_states ≡ states =
      sym (ap (λ (q : RunProjection). q.call_states) (ok-injective e4)) in
    record {
      calls = calls;
      collected = c;
      read = s ∙ ap ok (sym same);
      approval = rw same (sym (ap (λ (q : RunProjection). q.pending_approval) (ok-injective e4)));
      execution = rw same (sym (ap (λ (q : RunProjection). q.pending_execution) (ok-injective e4)));
      terminal = sym (ap (λ (q : RunProjection). q.terminal_event) (ok-injective e4));
    }

pub call_state-call :
    (h : Host) (events : List LedgerEvent) (call : MaterializedToolCall) (s : CallState)
    → call_state h events call ≡ ok s
    → s.call ≡ call
unfolding call_state
call_state-call h events call s e = ground arith

pub kept_ready :
    (first : CallState) (rest : List CallState) (s : CallState)
    → awaits_execution first ≡ true
    → first? (keep awaits_execution (first ∷ rest)) ≡ some s
    → first ≡ s
kept_ready first rest s ready e = ground arith

pub kept_waiting :
    (first : CallState) (rest : List CallState)
    → awaits_execution first ≡ false
    → keep awaits_execution (first ∷ rest) ≡ keep awaits_execution rest
kept_waiting first rest waits = ground arith

-- What is known of a call that may be executed now.
record Executable (h : Host) (events : List LedgerEvent) (s : CallState) : Type 0 where
  reads : call_state h events s.call ≡ ok s
  awaits : awaits_execution s ≡ true

first-Executable :
    (h : Host) (events : List LedgerEvent) (calls : List MaterializedToolCall)
    (states : List CallState) (s : CallState)
    → call_states_of h events calls ≡ ok states
    → first? (keep awaits_execution states) ≡ some s
    → Executable h events s
unfolding call_states_of
first-Executable h events [] states s e f = ground arith
first-Executable h events (call ∷ calls) states s e f =
    let (first, c, e1) = bind-eq-ok (call_state h events call) _ e in
    let (rest, d, e2) = bind-eq-ok (call_states_of h events calls) _ e1 in
    let split : states ≡ first ∷ rest = sym (ok-injective e2) in
    let g : first? (keep awaits_execution (first ∷ rest)) ≡ some s = rw split at f in
    elim (Bool-cases (awaits_execution first)) [
      | inl ready ↦
          (let same = kept_ready first rest s ready g in
            record {
              reads = rw (sym same) (rw (call_state-call h events call first c) c);
              awaits = rw (sym same) ready;
            })
      | inr waits ↦
          first-Executable h events calls rest s d (rw (sym (kept_waiting first rest waits)) g)
    ]

-- The approval that stands behind a call is a decision on this call.
approval_of-binds :
    (h : Host) (call : MaterializedToolCall) (e : Option LedgerEvent) (a : ApprovalRecord)
    → approval_of h call e ≡ ok (some a)
    → assert_binds_to h a call ≡ ok tt
unfolding approval_of
approval_of-binds h call none a q = ground arith
approval_of-binds h call (some e) a q = ground arith

call_state-approval :
    (h : Host) (events : List LedgerEvent) (call : MaterializedToolCall) (s : CallState)
    → call_state h events call ≡ ok s
    → approval_of h call s.approval_event ≡ ok s.approval
unfolding call_state
call_state-approval h events call s e = ground arith

call_state-required :
    (h : Host) (events : List LedgerEvent) (call : MaterializedToolCall) (s : CallState)
    → call_state h events call ≡ ok s
    → s.approval_required ≡ any (is_type approval_required) (related_events call.call_id events)
unfolding call_state
call_state-required h events call s e = ground arith

call_state-started :
    (h : Host) (events : List LedgerEvent) (call : MaterializedToolCall) (s : CallState)
    → call_state h events call ≡ ok s
    → at_most_one (of_type tool_execution_started (related_events call.call_id events))
      ≡ ok s.started_event
unfolding call_state
call_state-started h events call s e = ground arith

-- What the ledger says of a call that may be executed: it was never started, and where an approval
-- was asked for, one that binds to the call and approves it has been recorded.
pub record Granted (h : Host) (events : List LedgerEvent) (s : CallState) : Type 0 where
  pub never_started : of_type tool_execution_started (related_events s.call.call_id events) ≡ []
  pub allowed :
      (any (is_type approval_required) (related_events s.call.call_id events) ≡ false)
      ⊎ ((a : ApprovalRecord) × (approval_of h s.call s.approval_event ≡ ok (some a))
          × (assert_binds_to h a s.call ≡ ok tt)
          × (a.decision ≡ approved))

none_of_type : (es : List LedgerEvent) → at_most_one es ≡ ok none → es ≡ []
none_of_type [] e = refl
none_of_type (x ∷ []) e = ground arith
none_of_type (x ∷ y ∷ es) e = ground arith

approved_of :
    (h : Host) (call : MaterializedToolCall) (e : Option LedgerEvent) (o : Option ApprovalRecord)
    → approval_of h call e ≡ ok o
    → has_decision approved o ≡ true
    → (a : ApprovalRecord) × (approval_of h call e ≡ ok (some a))
      × (assert_binds_to h a call ≡ ok tt)
      × (a.decision ≡ approved)
approved_of h call e none q d = cc
approved_of h call e (some a) q d =
    (a, q, approval_of-binds h call e a q, (eq_iff a.decision approved).0 d)

Executable-Granted :
    (h : Host) (events : List LedgerEvent) (s : CallState)
    → Executable h events s
    → Granted h events s
Executable-Granted h events s x =
    let started = call_state-started h events s.call s x.reads in
    let required = call_state-required h events s.call s x.reads in
    let approval = call_state-approval h events s.call s x.reads in
    let untouched : s.started_event ≡ none = ground (arith, x.awaits) in
    record {
      never_started = none_of_type _ (started ∙ ap ok untouched);
      allowed = elim (Bool-cases s.approval_required) [
        | inl asked ↦
            inr
              (approved_of h s.call s.approval_event s.approval approval (ground (arith, x.awaits)))
        | inr free ↦ inl (sym required ∙ free)
      ];
    }

pub pending_execution-Granted :
    (h : Host) (events : List LedgerEvent) (p : RunProjection) (s : CallState)
    → project h events ≡ ok p
    → p.pending_execution ≡ some s
    → Granted h events s
pending_execution-Granted h events p s e q =
    let parts = project-Parts h events p e in
    Executable-Granted h events s
      (first-Executable h events parts.calls p.call_states s parts.read (sym parts.execution ∙ q))
