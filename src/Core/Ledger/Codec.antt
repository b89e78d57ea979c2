-- ===== src/Core/Ledger/Codec.antt =====
-- core/ledger.py: a checked and sealed event, its dictionary and `from_dict`.
use molly.Prelude.{String, ◌≡◌, some, arith, ok, eq_refl}
use molly.Core.Json.{obj}
use molly.Core.Host.{Host}
use molly.Core.Freeze.{freeze-thaw, thaw_fields}
use molly.Core.Ids.Laws.{validate_artifact_ids-Keeps, normalize_timestamp_idem, IsoLaws}
use molly.Core.Values.{dict_of, tuple_of-strings, some_text-optional}
use molly.Core.Ledger.{
  LedgerEvent, post_init, to_dict, computed_sha256, event_of_fields, from_dict, check_sealed,
  check_identifiers, check_digests,
}

-- The event as `from_dict` sees it before its checks: its mappings thawed.
abbrev thawed : LedgerEvent → LedgerEvent
thawed e = record e {
  model_profile = thaw_fields e.model_profile;
  provider_profile = thaw_fields e.provider_profile;
  seed_metadata = thaw_fields e.seed_metadata;
  metadata = thaw_fields e.metadata;
}

event_of_fields-to_dict :
    (h : Host) (e : LedgerEvent) → event_of_fields h (to_dict e) ≡ ok (thawed e)
unfolding event_of_fields to_dict dict_of
event_of_fields-to_dict h e = simp (tuple_of-strings, some_text-optional)

check_identifiers-cong :
    (a b : LedgerEvent)
    → a.event_id ≡ b.event_id
    → a.run_id ≡ b.run_id
    → a.event_type ≡ b.event_type
    → a.step_id ≡ b.step_id
    → a.tool_name ≡ b.tool_name
    → a.tool_version ≡ b.tool_version
    → a.status ≡ b.status
    → check_identifiers a ≡ check_identifiers b
unfolding check_identifiers
check_identifiers-cong a b p q r s t u v = rw (p, q, r, s, t, u, v)

check_digests-cong :
    (a b : LedgerEvent)
    → a.prompt_digest ≡ b.prompt_digest
    → a.config_digest ≡ b.config_digest
    → a.previous_event_sha256 ≡ b.previous_event_sha256
    → a.event_sha256 ≡ b.event_sha256
    → check_digests a ≡ check_digests b
unfolding check_digests
check_digests-cong a b p q r s = rw (p, q, r, s)

-- The checks on an event that came out of them.
pub post_init-thawed :
    (h : Host) (laws : IsoLaws h) (r e : LedgerEvent)
    → post_init h r ≡ ok e
    → post_init h (thawed e) ≡ ok e
unfolding post_init
post_init-thawed h laws r e p = ground (
  arith,
  check_identifiers-cong r (thawed e),
  check_digests-cong r (thawed e),
  validate_artifact_ids-Keeps r.input_artifact_ids,
  validate_artifact_ids-Keeps r.output_artifact_ids,
  freeze-thaw h r.model_profile e.model_profile,
  freeze-thaw h r.provider_profile e.provider_profile,
  freeze-thaw h r.seed_metadata e.seed_metadata,
  freeze-thaw h r.metadata e.metadata,
  normalize_timestamp_idem h laws r.timestamp e.timestamp,
)

check_sealed_lem :
    (h : Host) (e : LedgerEvent) (d : String)
    → e.event_sha256 ≡ some d
    → computed_sha256 h e ≡ ok d
    → check_sealed h e ≡ ok e
unfolding check_sealed
check_sealed_lem h e d q c = ground (arith, eq_refl d)

-- A checked event that carries the digest of its body is read back from its dictionary as it was,
-- given the laws of ISO dates.
pub from_dict-to_dict :
    (h : Host) (laws : IsoLaws h) (r e : LedgerEvent) (d : String)
    → post_init h r ≡ ok e
    → e.event_sha256 ≡ some d
    → computed_sha256 h e ≡ ok d
    → from_dict h (obj (to_dict e)) ≡ ok e
unfolding from_dict
from_dict-to_dict h laws r e d p q c =
    ground (
      arith,
      event_of_fields-to_dict h e,
      post_init-thawed h laws r e p,
      check_sealed_lem h e d q c,
    )
