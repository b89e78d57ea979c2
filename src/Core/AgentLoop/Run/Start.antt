-- ===== src/Core/AgentLoop/Run/Start.antt =====
-- core/agent_loop.py: the start or resumption of a run.
use molly.Prelude.{
  String, Bool, false, not, some, List, [], ◌∷◌, ◌==◌, if◌then◌else◌, Result, ok, err, rethrow,
  bind, run_binding, run_state,
}
use molly.Core.Json.{Fields, str, lst, obj, end, field, get, strings}
use molly.Core.Ids.{validate_digest_reference}
use molly.Core.Ledger.{LedgerEvent}
use molly.Core.Tools.Policy.{policy_digest}
use molly.Core.Runs
use molly.Core.Runs.{RunRequest, RunContext, RunResult, request_sha256}
use molly.Core.AgentLoop.{run_started}
use molly.Core.AgentLoop.Project.{mapping_at, of_type, is_empty}
use molly.Core.AgentLoop.World.{
  Env, World, Exec, pure, lift, for_each, run_events, append_event, draft, ◌>>=◌, ◌>>◌,
}

-- `mapping.get(key) == text`
abbrev holds_text : String → String → Fields → Bool
holds_text k text fs = elim (get k fs) [ some (str s) ↦ s == text | _ ↦ false ]

module _ {S L P : Type 0} (env : Env S L P) (request : RunRequest) where
  -- `_ensure_request_policy`
  unfoldable pub ensure_request_policy : Result (Unit {0})
  ensure_request_policy = bind (policy_digest env.host env.policy) (λ active.
      bind (validate_digest_reference active)
        (λ expected. if request.tool_policy_digest == expected then ok tt else err run_binding))

  unfoldable pub verify_inputs : Exec (World S L P) (Unit {0})
  unfolding for_each
  verify_inputs =
      for_each (λ artifact_id w. (env.store_verify w.store artifact_id, w))
        request.input_artifact_ids

  -- `_start_metadata`
  unfoldable pub start_metadata : String → Fields
  start_metadata digest = field "request" (obj (Runs.to_dict request)) (
      field "request_digest" (str digest) (
        field "policy_digest" (str request.tool_policy_digest)
          (field "initial_artifact_ids" (lst (strings request.input_artifact_ids)) end)))

  -- The checks of a resumed run against its only `RUN_STARTED` event.
  unfoldable pub check_start : LedgerEvent → Result (Unit {0})
  check_start start = bind (request_sha256 env.host request) (λ digest.
      if not (holds_text "request_digest" digest start.metadata)
      then err run_binding
      else if not (holds_text "policy_digest" request.tool_policy_digest start.metadata)
      then err run_binding
      else bind (mapping_at "request" start.metadata) (λ recorded.
        bind (rethrow (Runs.from_dict env.host recorded) run_state) (λ reconstructed.
          bind (request_sha256 env.host reconstructed)
            (λ persisted. if persisted == digest then ok tt else err run_binding))))

  unfoldable pub only_start : List LedgerEvent → Result LedgerEvent
  only_start (start ∷ []) = ok start
  only_start _ = err run_state

  -- `_initialize_or_validate`
  unfoldable pub initialize_or_validate : Exec (World S L P) (List LedgerEvent)
  unfolding ensure_request_policy run_events verify_inputs start_metadata check_start only_start
      append_event
  initialize_or_validate = do
    lift ensure_request_policy
    existing ← run_events env request.run_id
    if is_empty existing
        then (do
          verify_inputs
          digest ← lift (request_sha256 env.host request)
          append_event env request (draft run_started "STARTED" (start_metadata digest))
          run_events env request.run_id)
        else (do
          start ← lift (only_start (of_type run_started existing))
          lift (check_start start)
          verify_inputs
          pure existing)
