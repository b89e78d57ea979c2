-- ===== src/Core/AgentLoop/Limits.antt =====
-- core/agent_loop.py: `_counts`, the server limits and `_hard_limit_reason`.
use Prim.Native.Nat.{min}
use molly.Prelude.{
  ℕ, suc, String, Bool, true, false, Option, none, some, List, [], ◌∷◌, contains, leb, ltb,
  if◌then◌else◌,
}
use molly.Core.Ledger.{LedgerEvent}
use molly.Core.Runs.{Budget, RunRequest}
use molly.Core.AgentLoop.{decision_recorded, tool_call_materialized, is_type}

-- `sum(test(event) for event in events)`
abbrev pub count : (LedgerEvent → Bool) → List LedgerEvent → ℕ
count p [] = 0
count p (e ∷ es) = let rest = count p es in if p e then suc rest else rest

-- `len(set(values))`
abbrev pub distinct : List String → ℕ
distinct [] = 0
distinct (x ∷ xs) = let rest = distinct xs in if contains xs x then rest else suc rest

abbrev pub push_step : Option String → List String → List String
push_step none steps = steps
push_step (some step) steps = step ∷ steps

-- The step identities of the materialization events.
abbrev pub step_ids : List LedgerEvent → List String
step_ids [] = []
step_ids (e ∷ es) =
    let rest = step_ids es in
    if is_type tool_call_materialized e then push_step e.step_id rest else rest

pub record Counts : Type 0 where
  pub decisions : ℕ
  pub tool_calls : ℕ
  pub steps : ℕ

unfoldable pub counts : List LedgerEvent → Counts
counts events = record {
  decisions = count (is_type decision_recorded) events;
  tool_calls = count (is_type tool_call_materialized) events;
  steps = distinct (step_ids events);
}

-- `SERVER_RUN_HARD_LIMITS`
abbrev pub server_run_hard_limits : Budget
server_run_hard_limits = record { max_decisions = 12; max_tool_calls = 8; max_steps = 8 }

abbrev strictest : Option Budget → Budget
strictest none = server_run_hard_limits
strictest (some legacy) = record {
  max_decisions = min server_run_hard_limits.max_decisions legacy.max_decisions;
  max_tool_calls = min server_run_hard_limits.max_tool_calls legacy.max_tool_calls;
  max_steps = min server_run_hard_limits.max_steps legacy.max_steps;
}

unfoldable pub effective_hard_limits : RunRequest → Budget
effective_hard_limits request = strictest request.legacy_budget

-- The relaxed test, of a call that was admitted before the cap.
abbrev exceeded : Budget → Counts → Option String
exceeded limits c =
    if ltb limits.max_decisions c.decisions
    then some "server decision safety limit exceeded"
    else if ltb limits.max_tool_calls c.tool_calls
    then some "server tool-call safety limit exceeded"
    else if ltb limits.max_steps c.steps
    then some "server step safety limit exceeded"
    else none

-- The strict test, before the provider is asked.
abbrev reached : Budget → Counts → Option String
reached limits c =
    if leb limits.max_decisions c.decisions
    then some "server decision safety limit reached"
    else if leb limits.max_tool_calls c.tool_calls
    then some "server tool-call safety limit reached"
    else if leb limits.max_steps c.steps
    then some "server step safety limit reached"
    else none

-- `_hard_limit_reason`; the flag is its keyword `pending_execution`
unfoldable pub hard_limit_reason : RunRequest → List LedgerEvent → Bool → Option String
unfolding effective_hard_limits counts
hard_limit_reason request events true = exceeded (effective_hard_limits request) (counts events)
hard_limit_reason request events false = reached (effective_hard_limits request) (counts events)
