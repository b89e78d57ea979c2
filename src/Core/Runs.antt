-- ===== src/Core/Runs.antt =====
-- core/runs.py: `RunRequest` with its legacy budget, the statuses, `RunContext` and `RunResult`.
use molly.Prelude.{
  ℕ, zero, String, Bool, true, false, not, Option, none, some, List, [], ◌∷◌, ◌==◌, any, contains,
  length, ltb, Result, ok, err, ◌>>=◌, ◌>>◌, refuse, rethrow, map_result, core_contract,
  run_binding,
}
use molly.Core.Json.{
  Json, Fields, int, str, lst, obj, end, field, get, has_key, keys, strings, codes,
}
use molly.Core.Host.{Host}
use molly.Core.Freeze.{freeze_json_mapping, thaw_fields}
use molly.Core.Dumps.{json_sha256}
use molly.Core.Ids.{
  validate_identifier, validate_digest_reference, validate_artifact_ids, normalize_timestamp,
}
use molly.Core.Values.{required_text, tuple_at, dict_at}
use molly.Core.Tools.Actions.{has_nul}
use molly.Core.Ledger.{check_optional}

pub record Budget : Type 0 where
  pub max_decisions : ℕ
  pub max_tool_calls : ℕ
  pub max_steps : ℕ

pub record RunRequest : Type 0 where
  pub run_id : String
  pub goal : String
  pub input_artifact_ids : List String
  pub tool_policy_digest : String
  pub created_at : String
  pub metadata : Fields
  pub legacy_budget : Option Budget

-- `_bare_digest`: the validated digest is lower case and has no prefix left.
unfoldable pub bare_digest : String → Result String
bare_digest value = rethrow (validate_digest_reference value) run_binding

abbrev budget_fields : List String
budget_fields = "max_decisions" ∷ "max_tool_calls" ∷ "max_steps" ∷ []

-- An integer of a legacy budget: a `bool`, another type or a negative number is malformed.
abbrev limit_at : Fields → String → Result ℕ
limit_at value name = elim (get name value) [
  | some (int false n) ↦ ok n
  | some (int true zero) ↦ ok zero
  | _ ↦ err run_binding
]

-- `_legacy_budget_binding`
unfoldable pub legacy_budget_binding : Json → Result Budget
legacy_budget_binding (obj value) = do
  refuse (any (λ key. not (contains budget_fields key)) (keys value)) run_binding
  refuse (any (λ name. not (has_key name value)) budget_fields) run_binding
  decisions ← limit_at value "max_decisions"
  steps ← limit_at value "max_steps"
  calls ← limit_at value "max_tool_calls"
  ok (record { max_decisions = decisions; max_tool_calls = calls; max_steps = steps })
legacy_budget_binding _ = err run_binding

-- `RunRequest.__post_init__`
unfoldable pub post_init : Host → RunRequest → Result RunRequest
unfolding bare_digest
post_init h r = do
  validate_identifier r.run_id
  refuse (h.strip r.goal == "") core_contract
  refuse (ltb 100_000 (length (codes r.goal))) core_contract
  refuse (has_nul r.goal) core_contract
  inputs ← validate_artifact_ids r.input_artifact_ids
  digest ← bare_digest r.tool_policy_digest
  time ← normalize_timestamp h r.created_at
  facts ← freeze_json_mapping h r.metadata
  ok (record r {
    input_artifact_ids = inputs;
    tool_policy_digest = digest;
    created_at = time;
    metadata = facts;
  })

abbrev budget_entry : Option Budget → Fields
budget_entry none = end
budget_entry (some b) =
    field "budget"
      (obj (
        field "max_decisions" (int false b.max_decisions) (
          field "max_steps" (int false b.max_steps)
            (field "max_tool_calls" (int false b.max_tool_calls) end))))
      end

unfoldable pub to_dict : RunRequest → Fields
to_dict r = field "run_id" (str r.run_id) (
    field "goal" (str r.goal) (
      field "input_artifact_ids" (lst (strings r.input_artifact_ids)) (
        field "tool_policy_digest" (str r.tool_policy_digest) (
          field "created_at" (str r.created_at)
            (field "metadata" (obj (thaw_fields r.metadata)) (budget_entry r.legacy_budget))))))

unfoldable pub request_sha256 : Host → RunRequest → Result String
request_sha256 h r = json_sha256 h (obj (to_dict r))

request_of_fields : Host → Fields → Result RunRequest
request_of_fields h value = do
  run_id ← required_text h value "run_id"
  goal ← required_text h value "goal"
  inputs ← tuple_at value "input_artifact_ids"
  digest ← required_text h value "tool_policy_digest"
  created_at ← required_text h value "created_at"
  facts ← dict_at value "metadata"
  ok (record {
    run_id = run_id;
    goal = goal;
    input_artifact_ids = inputs;
    tool_policy_digest = digest;
    created_at = created_at;
    metadata = facts;
    legacy_budget = none;
  })

abbrev budget_at : Fields → Result (Option Budget)
budget_at value = elim (get "budget" value) [
  | none ↦ ok none
  | some v ↦ legacy_budget_binding v >>= λ b. ok (some b)
]

unfoldable pub from_dict : Host → Fields → Result RunRequest
unfolding request_of_fields legacy_budget_binding post_init
from_dict h value = do
  budget ← budget_at value
  request ← rethrow (request_of_fields h value >>= post_init h) run_binding
  ok (record request { legacy_budget = budget })

pub data RunStatus : Type 0 where
  new active waiting_approval waiting_review interrupted : RunStatus
  stopped rejected failed budget_exhausted : RunStatus

-- `RunResult.is_terminal`
unfoldable pub is_terminal : RunStatus → Bool
is_terminal stopped = true
is_terminal rejected = true
is_terminal failed = true
is_terminal budget_exhausted = true
is_terminal _ = false

pub record RunContext : Type 0 where
  pub run_id : String
  pub goal : String
  pub visible_artifact_ids : List String
  pub initial_artifact_ids : List String
  pub request_metadata : Fields
  pub recent_events : List Fields
  pub previous_tool_outcome : Option Fields

abbrev freeze_optional : Host → Option Fields → Result (Option Fields)
freeze_optional h none = ok none
freeze_optional h (some fs) = freeze_json_mapping h fs >>= λ gs. ok (some gs)

-- `RunContext.__post_init__`
unfoldable pub checked_context : Host → RunContext → Result RunContext
checked_context h c = do
  validate_identifier c.run_id
  visible ← validate_artifact_ids c.visible_artifact_ids
  initial ← validate_artifact_ids c.initial_artifact_ids
  facts ← freeze_json_mapping h c.request_metadata
  recent ← map_result (freeze_json_mapping h) c.recent_events
  outcome ← freeze_optional h c.previous_tool_outcome
  ok (record c {
    visible_artifact_ids = visible;
    initial_artifact_ids = initial;
    request_metadata = facts;
    recent_events = recent;
    previous_tool_outcome = outcome;
  })

pub record RunResult : Type 0 where
  pub run_id : String
  pub status : RunStatus
  pub visible_artifact_ids : List String
  pub last_event_id : Option String
  pub pending_call : Option Fields
  pub message : String

-- `RunResult.__post_init__`
unfoldable pub checked_run_result : Host → RunResult → Result RunResult
checked_run_result h r = do
  validate_identifier r.run_id
  visible ← validate_artifact_ids r.visible_artifact_ids
  check_optional validate_identifier r.last_event_id
  pending ← freeze_optional h r.pending_call
  ok (record r { visible_artifact_ids = visible; pending_call = pending })
