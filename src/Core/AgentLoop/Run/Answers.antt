-- ===== src/Core/AgentLoop/Run/Answers.antt =====
-- core/agent_loop.py: how a round ends, the event of a reached limit, and the provider's answer.
use molly.Prelude.{
  String, Bool, false, Option, any, if◌then◌else◌, Result, ok, err, Error, action_error,
  stop_iteration,
}
use molly.Core.Json.{Fields, str, obj, int, end, field}
use molly.Core.Tools.Registry.{model_visible_tools}
use molly.Core.Tools.Actions.{StructuredAction, action_from_value}
use molly.Core.Approvals.{ApprovalRecord}
use molly.Core.Runs.{RunRequest, RunContext, RunResult}
use molly.Core.AgentLoop.{budget_exhausted, is_type}
use molly.Core.AgentLoop.Project.{RunProjection, project}
use molly.Core.AgentLoop.Limits.{Counts, effective_hard_limits}
use molly.Core.AgentLoop.View.{result_of}
use molly.Core.AgentLoop.World.{
  Env, World, Exec, Reply, raises, action, value, pure, lift, run_events, append_event, draft,
  ◌>>=◌, ◌>>◌,
}

-- Whether the loop goes on, and with which approval and which `approval_resume`.
pub data Turn : Type 0 where
  finished : RunResult → Turn
  again : Option ApprovalRecord → Bool → Turn

module _ {S L P : Type 0} (env : Env S L P) (request : RunRequest) where
  -- `_result` with the events that it reads again
  unfoldable pub result : RunProjection → String → Exec (World S L P) RunResult
  unfolding run_events
  result p message = do
    events ← run_events env request.run_id
    lift (result_of env.host request events p message)

  -- `_result` without a projection
  unfoldable pub fresh_result : String → Exec (World S L P) RunResult
  unfolding run_events
  fresh_result message = do
    events ← run_events env request.run_id
    p ← lift (project env.host events)
    lift (result_of env.host request events p message)

  unfoldable pub finish : Exec (World S L P) RunResult → Exec (World S L P) Turn
  finish m = m >>= λ r. pure (finished r)

  unfoldable pub limit_metadata : String → Counts → Fields
  limit_metadata reason c =
      let limits = effective_hard_limits request in
      field "reason" (str reason) (
        field "counts"
          (obj (
            field "decisions" (int false c.decisions) (
              field "tool_calls" (int false c.tool_calls) (field "steps" (int false c.steps) end))))
          (field "server_limits"
            (obj (
              field "max_decisions" (int false limits.max_decisions) (
                field "max_tool_calls" (int false limits.max_tool_calls)
                  (field "max_steps" (int false limits.max_steps) end))))
            end))

  -- `_append_hard_limit`
  unfoldable pub append_hard_limit : String → Counts → Exec (World S L P) (Unit {0})
  unfolding run_events append_event limit_metadata
  append_hard_limit reason c = do
    events ← run_events env request.run_id
    if any (is_type budget_exhausted) events
        then pure tt
        else append_event env request (draft budget_exhausted "EXHAUSTED" (limit_metadata reason c))
          >> pure tt

  parse_reply : Reply → Result StructuredAction
  parse_reply (raises e) = err e
  parse_reply (action a) = ok a
  parse_reply (value v) = action_from_value env.host v

  -- `StopIteration` and `ActionError` pass, every other exception becomes an `ActionError`.
  provider_error : Error → Error
  provider_error stop_iteration = stop_iteration
  provider_error e = action_error

  action_or_error : Result StructuredAction → Result StructuredAction
  unfolding provider_error
  action_or_error (ok a) = ok a
  action_or_error (err e) = err (provider_error e)

  -- `_invoke_provider`
  unfoldable pub invoke_provider : RunContext → Exec (World S L P) StructuredAction
  unfolding parse_reply action_or_error
  invoke_provider c w =
      let (reply, p) = env.next_action w.provider c (model_visible_tools env.registry) in
      (action_or_error (parse_reply reply), record w { provider = p })
