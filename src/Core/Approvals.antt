-- ===== src/Core/Approvals.antt =====
-- core/approvals.py: `ApprovalRecord`, one human decision on one materialized call.
pub mod Codec
use molly.Prelude.{
  String, Bool, [], ◌∷◌, ◌==◌, contains, Result, ok, err, ◌>>=◌, ◌>>◌, require, rethrow,
  approval_error, python_error, some, none,
}
use molly.Core.Json.{Fields, str, obj, end, field, get}
use molly.Core.Host.{Host}
use molly.Core.Dumps.{json_sha256}
use molly.Core.Ids.{
  validate_identifier, validate_reference, validate_digest_reference, normalize_timestamp,
}
use molly.Core.Values.{required_text}
use molly.Core.Tools.Call.{MaterializedToolCall, computed_digest}

pub record ApprovalRecord : Type 0 where
  pub approval_id : String
  pub tool_call_digest : String
  pub decision : String
  pub reviewer_ref : String
  pub created_at : String

abbrev pub approved : String
approved = "APPROVED"

abbrev pub rejected : String
rejected = "REJECTED"

-- `ApprovalRecord.__post_init__`
unfoldable pub post_init : Host → ApprovalRecord → Result ApprovalRecord
post_init h a = do
  validate_identifier a.approval_id
  digest ← validate_digest_reference a.tool_call_digest
  require (contains (approved ∷ rejected ∷ []) (h.upper (h.strip a.decision))) approval_error
  reviewer ← validate_reference h a.reviewer_ref
  time ← normalize_timestamp h a.created_at
  ok (record a {
    tool_call_digest = digest;
    decision = h.upper (h.strip a.decision);
    reviewer_ref = reviewer;
    created_at = time;
  })

-- `binds_to`, whose digest may fail to be computed
unfoldable pub binds_to : Host → ApprovalRecord → MaterializedToolCall → Result Bool
binds_to h a call = computed_digest h call >>= λ digest. ok (a.tool_call_digest == digest)

unfoldable pub assert_binds_to : Host → ApprovalRecord → MaterializedToolCall → Result (Unit {0})
unfolding binds_to
assert_binds_to h a call = binds_to h a call >>= λ bound. require bound approval_error

unfoldable pub to_dict : ApprovalRecord → Fields
to_dict a = field "approval_id" (str a.approval_id) (
    field "tool_call_digest" (str a.tool_call_digest) (
      field "decision" (str a.decision)
        (field "reviewer_ref" (str a.reviewer_ref) (field "created_at" (str a.created_at) end))))

unfoldable pub approval_digest : Host → ApprovalRecord → Result String
approval_digest h a = json_sha256 h (obj (to_dict a))

-- `value["decision"]`, which the constructor wants to be a text
abbrev decision_text : Fields → Result String
decision_text value = elim (get "decision" value) [
  | some (str text) ↦ ok text
  | _ ↦ err python_error
]

unfoldable pub approval_of_fields : Host → Fields → Result ApprovalRecord
approval_of_fields h value = do
  approval_id ← required_text h value "approval_id"
  digest ← required_text h value "tool_call_digest"
  decision ← decision_text value
  reviewer ← required_text h value "reviewer_ref"
  created_at ← required_text h value "created_at"
  ok (record {
    approval_id = approval_id;
    tool_call_digest = digest;
    decision = decision;
    reviewer_ref = reviewer;
    created_at = created_at;
  })

unfoldable pub from_dict : Host → Fields → Result ApprovalRecord
unfolding approval_of_fields post_init
from_dict h value = rethrow (approval_of_fields h value >>= post_init h) approval_error

-- `ApprovalRecord.for_call` with the defaults filled in
unfoldable pub for_call :
    Host → MaterializedToolCall → String → String → String → String → Result ApprovalRecord
for_call h call decision reviewer approval_id created_at = do
  computed ← computed_digest h call
  let digest : String = elim call.tool_call_digest [ none ↦ computed | some given ↦ given ]
  post_init h (record {
    approval_id = approval_id;
    tool_call_digest = digest;
    decision = decision;
    reviewer_ref = reviewer;
    created_at = created_at;
  })
