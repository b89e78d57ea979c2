-- ===== src/Core/Ledger.antt =====
-- core/ledger.py, `LedgerEvent`: its checks, its canonical form, its digest, and `from_dict`.
pub mod Codec
pub mod File
pub mod Reading
pub mod Sealing
pub mod Growth
pub mod Authentic
use molly.Prelude.{
  String, ◌≡◌, Bool, true, Option, none, some, List, option_eq, if◌then◌else◌, Result, ok, err,
  ◌>>=◌, ◌>>◌, rethrow, refuse, ledger_corruption,
}
use molly.Core.Json.{Json, Fields, str, lst, obj, end, field, strings, optional, null}
use molly.Core.Host.{Host}
use molly.Core.Freeze.{freeze_json_mapping, thaw_fields}
use molly.Core.Dumps.{json_sha256}
use molly.Core.Ids.{
  validate_identifier, validate_digest_reference, validate_artifact_ids, normalize_timestamp,
}
use molly.Core.Values.{required_text, optional_text, tuple_at, dict_at}

pub record LedgerEvent : Type 0 where
  pub event_id : String
  pub run_id : String
  pub event_type : String
  pub step_id : Option String
  pub status : Option String
  pub tool_name : Option String
  pub tool_version : Option String
  pub input_artifact_ids : List String
  pub output_artifact_ids : List String
  pub model_profile : Fields
  pub provider_profile : Fields
  pub prompt_digest : Option String
  pub config_digest : Option String
  pub seed_metadata : Fields
  pub timestamp : String
  pub metadata : Fields
  pub previous_event_sha256 : Option String
  pub event_sha256 : Option String

-- `if value is not None: validate(value)`
abbrev pub check_optional : (String → Result String) → Option String → Result (Unit {0})
check_optional validate none = ok tt
check_optional validate (some value) = validate value >> ok tt

unfoldable pub check_identifiers : LedgerEvent → Result (Unit {0})
check_identifiers e = do
  validate_identifier e.event_id
  validate_identifier e.run_id
  validate_identifier e.event_type
  check_optional validate_identifier e.step_id
  check_optional validate_identifier e.tool_name
  check_optional validate_identifier e.tool_version
  check_optional validate_identifier e.status

unfoldable pub check_digests : LedgerEvent → Result (Unit {0})
check_digests e = do
  check_optional validate_digest_reference e.prompt_digest
  check_optional validate_digest_reference e.config_digest
  check_optional validate_digest_reference e.previous_event_sha256
  check_optional validate_digest_reference e.event_sha256

-- `LedgerEvent.__post_init__`: the record with its normalised fields
unfoldable pub post_init : Host → LedgerEvent → Result LedgerEvent
post_init h e = do
  check_identifiers e
  inputs ← validate_artifact_ids e.input_artifact_ids
  outputs ← validate_artifact_ids e.output_artifact_ids
  model ← freeze_json_mapping h e.model_profile
  provider ← freeze_json_mapping h e.provider_profile
  seed ← freeze_json_mapping h e.seed_metadata
  facts ← freeze_json_mapping h e.metadata
  check_digests e
  time ← normalize_timestamp h e.timestamp
  ok (record e {
    input_artifact_ids = inputs;
    output_artifact_ids = outputs;
    model_profile = model;
    provider_profile = provider;
    seed_metadata = seed;
    metadata = facts;
    timestamp = time;
  })

-- `to_dict`, with the entries of its last key as an argument
abbrev event_fields : LedgerEvent → Fields → Fields
event_fields e last = field "event_id" (str e.event_id) (
    field "run_id" (str e.run_id) (
      field "step_id" (optional e.step_id) (
        field "event_type" (str e.event_type) (
          field "status" (optional e.status) (
            field "tool_name" (optional e.tool_name) (
              field "tool_version" (optional e.tool_version) (
                field "input_artifact_ids" (lst (strings e.input_artifact_ids)) (
                  field "output_artifact_ids" (lst (strings e.output_artifact_ids)) (
                    field "model_profile" (obj (thaw_fields e.model_profile)) (
                      field "provider_profile" (obj (thaw_fields e.provider_profile)) (
                        field "prompt_digest" (optional e.prompt_digest) (
                          field "config_digest" (optional e.config_digest) (
                            field "seed_metadata" (obj (thaw_fields e.seed_metadata)) (
                              field "timestamp" (str e.timestamp) (
                                field "metadata" (obj (thaw_fields e.metadata)) (
                                  field "previous_event_sha256" (optional e.previous_event_sha256)
                                    last))))))))))))))))

unfoldable pub to_dict : LedgerEvent → Fields
to_dict e = event_fields e (field "event_sha256" (optional e.event_sha256) end)

-- `to_dict(include_digest=False)`: the body that the digest covers
unfoldable pub body : LedgerEvent → Fields
body e = event_fields e end

unfoldable pub computed_sha256 : Host → LedgerEvent → Result String
computed_sha256 h e = json_sha256 h (obj (body e))

-- The keyword arguments that `from_dict` collects.
unfoldable pub event_of_fields : Host → Fields → Result LedgerEvent
event_of_fields h value = do
  event_id ← required_text h value "event_id"
  run_id ← required_text h value "run_id"
  event_type ← required_text h value "event_type"
  inputs ← tuple_at value "input_artifact_ids"
  outputs ← tuple_at value "output_artifact_ids"
  model ← dict_at value "model_profile"
  provider ← dict_at value "provider_profile"
  seed ← dict_at value "seed_metadata"
  time ← required_text h value "timestamp"
  facts ← dict_at value "metadata"
  ok (record {
    event_id = event_id;
    run_id = run_id;
    event_type = event_type;
    step_id = optional_text h value "step_id";
    status = optional_text h value "status";
    tool_name = optional_text h value "tool_name";
    tool_version = optional_text h value "tool_version";
    input_artifact_ids = inputs;
    output_artifact_ids = outputs;
    model_profile = model;
    provider_profile = provider;
    prompt_digest = optional_text h value "prompt_digest";
    config_digest = optional_text h value "config_digest";
    seed_metadata = seed;
    timestamp = time;
    metadata = facts;
    previous_event_sha256 = optional_text h value "previous_event_sha256";
    event_sha256 = optional_text h value "event_sha256";
  })

-- The digest test of `from_dict`.
unfoldable pub check_sealed : Host → LedgerEvent → Result LedgerEvent
check_sealed h event = elim event.event_sha256 [
  | none ↦ err ledger_corruption
  | some recorded ↦ do
    computed ← computed_sha256 h event
    if option_eq (some computed) (some recorded) then ok event else err ledger_corruption
]

unfoldable pub from_dict : Host → Json → Result LedgerEvent
unfolding event_of_fields check_sealed post_init
from_dict h (obj value) =
    rethrow (event_of_fields h value >>= post_init h) ledger_corruption >>= check_sealed h
from_dict h _ = err ledger_corruption
