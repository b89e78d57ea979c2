-- ===== src/Core/Tools/Actions.antt =====
-- core/tools.py: the actions that a decision provider may propose, and their closed vocabulary.
use molly.Prelude.{
  String, Bool, false, ◌||◌, not, Option, none, some, List, [], ◌∷◌, ◌==◌, any, contains, length,
  ltb, nat_eq, if◌then◌else◌, Result, ok, err, ◌>>=◌, ◌>>◌, refuse, rethrow, or_raise,
  tool_contract, python_error,
}
use molly.Core.Json.{
  Json, Items, Fields, null, bool, int, float, str, lst, tup, obj, opaque, nil, cons, end, field,
  get, keys, strings, codes,
}
use molly.Core.Host.{Host}
use molly.Core.Freeze.{freeze_json_mapping, thaw_fields}
use molly.Core.Ids.{validate_identifier, validate_artifact_ids, validate_reference}
use molly.Core.Values.{text_of, tuple_of, required_text, tuple_at, dict_at}
use molly.Core.Tools.Policy.{unique_strings}

abbrev model_authority_keys : List String
model_authority_keys =
    "run_id" ∷ "step_id" ∷ "call_id" ∷ "tool_version" ∷ "tool_spec_digest" ∷ "policy_digest"
    ∷ "approval_id" ∷ "approval_digest" ∷ "idempotency_key" ∷ "executor" ∷ "backend" ∷ "path"
    ∷ "filesystem_path" ∷ "store_root" ∷ "credential" ∷ "credentials" ∷ "secret" ∷ "token"
    ∷ "ssh_target" ∷ "endpoint" ∷ "private_endpoint" ∷ []

unfoldable pub is_authority_key : Host → String → Bool
is_authority_key h key = contains model_authority_keys (h.casefold key)

-- `_reject_model_authority_fields`: whether it raises
unfoldable mutual
  pub has_authority : Host → Json → Bool
  has_authority h (obj fs) = field_has_authority h fs
  has_authority h (lst xs) = item_has_authority h xs
  has_authority h (tup xs) = item_has_authority h xs
  has_authority h null = false
  has_authority h (bool b) = false
  has_authority h (int s n) = false
  has_authority h (float f x) = false
  has_authority h (str s) = false
  has_authority h opaque = false

  pub item_has_authority : Host → Items → Bool
  item_has_authority h nil = false
  item_has_authority h (cons x xs) = has_authority h x || item_has_authority h xs

  pub field_has_authority : Host → Fields → Bool
  field_has_authority h end = false
  field_has_authority h (field k v fs) =
      is_authority_key h k || (has_authority h v || field_has_authority h fs)

unfoldable pub reject_model_authority_fields : Host → Fields → Result (Unit {0})
unfolding has_authority is_authority_key
reject_model_authority_fields h value = refuse (field_has_authority h value) tool_contract

-- `len(text) > 2_000`
unfoldable pub too_long : String → Bool
too_long text = ltb 2000 (length (codes text))

unfoldable pub has_nul : String → Bool
has_nul text = any (λ c. nat_eq c 0) (codes text)

pub record ToolCallProposal : Type 0 where
  pub tool_name : String
  pub arguments : Fields
  pub input_artifact_ids : List String
  pub reason_summary : String

pub record RequestReviewAction : Type 0 where
  pub reason : String
  pub subject_ids : List String

pub data StructuredAction : Type 0 where
  tool_call : ToolCallProposal → StructuredAction
  stop : String → StructuredAction
  request_review : RequestReviewAction → StructuredAction

-- `ToolCallProposal.__post_init__`
unfoldable pub checked_proposal : Host → ToolCallProposal → Result ToolCallProposal
unfolding reject_model_authority_fields too_long has_nul
checked_proposal h p = do
  validate_identifier p.tool_name
  reject_model_authority_fields h p.arguments
  arguments ← freeze_json_mapping h p.arguments
  inputs ← validate_artifact_ids p.input_artifact_ids
  refuse (too_long p.reason_summary) tool_contract
  refuse (has_nul p.reason_summary) tool_contract
  ok (record p { arguments = arguments; input_artifact_ids = inputs })

-- `StopAction.__post_init__`
unfoldable pub checked_stop : String → Result String
unfolding too_long
checked_stop reason = refuse (too_long reason) tool_contract >> ok reason

-- `RequestReviewAction.__post_init__`
unfoldable pub checked_review : Host → RequestReviewAction → Result RequestReviewAction
unfolding too_long unique_strings
checked_review h r = do
  refuse (too_long r.reason) tool_contract
  subjects ← unique_strings (validate_reference h) r.subject_ids
  ok (record r { subject_ids = subjects })

unfoldable pub action_to_dict : StructuredAction → Fields
action_to_dict (tool_call p) = field "action_type" (str "TOOL_CALL") (
    field "tool_name" (str p.tool_name) (
      field "arguments" (obj (thaw_fields p.arguments)) (
        field "input_artifact_ids" (lst (strings p.input_artifact_ids))
          (field "reason_summary" (str p.reason_summary) end))))
action_to_dict (stop reason) = field "action_type" (str "STOP") (field "reason" (str reason) end)
action_to_dict (request_review r) =
    field "action_type" (str "REQUEST_REVIEW")
      (field "reason" (str r.reason) (field "subject_ids" (lst (strings r.subject_ids)) end))

-- `set(value) - allowed`
abbrev pub unknown_keys : List String → Fields → Bool
unknown_keys allowed value = any (λ key. not (contains allowed key)) (keys value)

-- `str(value.get(key, ""))`
abbrev pub text_or_empty : Host → Fields → String → String
text_or_empty h value key = elim (get key value) [ none ↦ "" | some v ↦ text_of h v ]

proposal_of_fields : Host → Fields → Result ToolCallProposal
proposal_of_fields h value = do
  name ← required_text h value "tool_name"
  arguments ← dict_at value "arguments"
  inputs ← tuple_at value "input_artifact_ids"
  ok (record {
    tool_name = name;
    arguments = arguments;
    input_artifact_ids = inputs;
    reason_summary = text_or_empty h value "reason_summary";
  })

-- `ToolCallProposal.from_dict`
unfoldable pub proposal_from_dict : Host → Fields → Result ToolCallProposal
unfolding proposal_of_fields checked_proposal
proposal_from_dict h value = do
  refuse
      (unknown_keys
        ("action_type" ∷ "type" ∷ "tool_name" ∷ "arguments" ∷ "input_artifact_ids"
          ∷ "reason_summary" ∷ [])
        value)
      tool_contract
  rethrow (proposal_of_fields h value >>= checked_proposal h) tool_contract

stop_from_dict : Host → Fields → Result StructuredAction
unfolding checked_stop
stop_from_dict h value = do
  refuse (unknown_keys ("action_type" ∷ "type" ∷ "reason" ∷ []) value) tool_contract
  reason ← checked_stop (text_or_empty h value "reason")
  ok (stop reason)

-- `value.get("subject_ids", value.get("subject_artifact_ids", ()))`
review_subjects : Fields → Json
review_subjects value = elim (get "subject_ids" value) [
  | some v ↦ v
  | none ↦ elim (get "subject_artifact_ids" value) [ some v ↦ v | none ↦ tup nil ]
]

review_from_dict : Host → Fields → Result StructuredAction
unfolding review_subjects checked_review
review_from_dict h value = do
  refuse
      (unknown_keys
        ("action_type" ∷ "type" ∷ "reason" ∷ "subject_ids" ∷ "subject_artifact_ids" ∷ []) value)
      tool_contract
  subjects ← or_raise (tuple_of (review_subjects value)) python_error
  review ←
      checked_review h (record { reason = text_or_empty h value "reason"; subject_ids = subjects })
  ok (request_review review)

-- `value.get("action_type", value.get("type"))`
action_type_of : Fields → Option Json
action_type_of value = elim (get "action_type" value) [ some v ↦ some v | none ↦ get "type" value ]

action_of_type : Host → String → Fields → Result StructuredAction
unfolding proposal_from_dict stop_from_dict review_from_dict
action_of_type h normalized value =
    if contains ("TOOL_CALL" ∷ "TOOL_CALL_PROPOSAL" ∷ []) normalized
    then (do p ← proposal_from_dict h value; ok (tool_call p))
    else if normalized == "STOP"
    then stop_from_dict h value
    else if contains ("REQUEST_REVIEW" ∷ "REVIEW" ∷ []) normalized
    then review_from_dict h value
    else err tool_contract

-- `action_from_value` of a value that is no action object yet
unfoldable pub action_from_value : Host → Json → Result StructuredAction
unfolding action_type_of action_of_type
action_from_value h (obj value) = elim (action_type_of value) [
  | some (str action_type) ↦ action_of_type h (h.upper (h.strip action_type)) value
  | _ ↦ err tool_contract
]
action_from_value h _ = err tool_contract
