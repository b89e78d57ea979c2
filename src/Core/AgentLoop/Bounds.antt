-- ===== src/Core/AgentLoop/Bounds.antt =====
-- core/agent_loop.py: what `_hard_limit_reason` grants where it gives no reason.
use molly.Prelude.{◌≡◌, ◌<◌, ◌≤◌, false, none, some, List, arith}
use molly.Core.Ledger.{LedgerEvent}
use molly.Core.Runs.{Budget, RunRequest}
use molly.Core.AgentLoop.Limits.{
  Counts, counts, server_run_hard_limits, effective_hard_limits, hard_limit_reason,
}

-- The effective limits are the server's, or a tighter legacy budget of the request.
pub effective_hard_limits_le :
    (request : RunRequest)
    → ((effective_hard_limits request).max_decisions ≤ server_run_hard_limits.max_decisions)
      × ((effective_hard_limits request).max_tool_calls ≤ server_run_hard_limits.max_tool_calls)
      × ((effective_hard_limits request).max_steps ≤ server_run_hard_limits.max_steps)
unfolding effective_hard_limits
effective_hard_limits_le request = elim request.legacy_budget [
  | none ↦ (ground arith, ground arith, ground arith)
  | some b ↦ (ground arith, ground arith, ground arith)
]

-- Each count is below the server's limit for it.
pub record Below (c : Counts) (limits : Budget) : Type 0 where
  pub decisions_below : c.decisions < limits.max_decisions
  pub tool_calls_below : c.tool_calls < limits.max_tool_calls
  pub steps_below : c.steps < limits.max_steps

-- Where the test before the provider is asked gives no reason to stop, the decisions, the calls and
-- the steps of the run are each fewer than their effective limit.
pub ask_has_room :
    (request : RunRequest) (events : List LedgerEvent)
    → hard_limit_reason request events false ≡ none
    → Below (counts events) (effective_hard_limits request)
unfolding hard_limit_reason
ask_has_room request events e = record {
  decisions_below = ground arith;
  tool_calls_below = ground arith;
  steps_below = ground arith;
}
