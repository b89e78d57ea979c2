-- ===== src/Core/AgentLoop/Rejection.antt =====
-- core/agent_loop.py, `_project`: a call whose recorded approval rejects it.
use molly.Prelude.{
  is_some, ◌≢◌, ◌≡◌, refl, sym, ◌∙◌, Bool, true, false, Option, none, some, List, [], ◌∷◌, inl, inr,
  arith, keep, ok, Bool-cases, eq_iff,
}
use molly.Core.Host.{Host}
use molly.Core.Ledger.{LedgerEvent}
use molly.Core.Approvals.{ApprovalRecord, approved, rejected}
use molly.Core.AgentLoop.Project.{
  CallState, RunProjection, project, awaits_approval, awaits_execution, has_decision, first?,
}
use molly.Core.AgentLoop.Pending.{project-Parts}

first_kept :
    (test : CallState → Bool) (states : List CallState) (s : CallState)
    → first? (keep test states) ≡ some s
    → test s ≡ true
first_kept test [] s e = ground arith
first_kept test (t ∷ states) s e = elim (Bool-cases (test t)) [
  | inl here ↦ let same : t ≡ s = ground (arith, here, e) in rw (sym same) here
  | inr later ↦ first_kept test states s (ground (arith, later, e))
]

not_both :
    (o : Option ApprovalRecord) → has_decision rejected o ≡ true → has_decision approved o ≡ false
not_both none e = cc
not_both (some a) e = rw ((eq_iff a.decision rejected).0 e) refl

given : (o : Option ApprovalRecord) → has_decision rejected o ≡ true → is_some o ≡ true
given none e = cc
given (some a) e = refl

not_awaited :
    (s : CallState)
    → s.approval_required ≡ true
    → has_decision rejected s.approval ≡ true
    → (awaits_approval s ≡ false) × (awaits_execution s ≡ false)
not_awaited s required e =
    let some_approval = given s.approval e in
    let no_grant = not_both s.approval e in
    (ground (arith, required, some_approval), ground (arith, required, no_grant))

-- If the events of a run can be projected, a call that needs an approval and whose recorded approval
-- rejects it is neither the one that waits for an approval nor the one to be executed.
pub rejected_call_is_not_pending :
    (h : Host) (events : List LedgerEvent) (p : RunProjection) (s : CallState)
    → project h events ≡ ok p
    → s.approval_required ≡ true
    → has_decision rejected s.approval ≡ true
    → (p.pending_approval ≢ some s) × (p.pending_execution ≢ some s)
rejected_call_is_not_pending h events p s e required no_more =
    let parts = project-Parts h events p e in
    let (no_wait, no_run) = not_awaited s required no_more in
    (
      λ q. cc (no_wait, first_kept awaits_approval p.call_states s (sym parts.approval ∙ q)),
      λ q. cc (no_run, first_kept awaits_execution p.call_states s (sym parts.execution ∙ q)),
    )
