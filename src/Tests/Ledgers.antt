-- ===== src/Tests/Ledgers.antt =====
-- The properties of core/ids.py and core/ledger.py at concrete inputs.
use molly.Prelude.{
  String, ◌≡◌, ◌≢◌, ◌↔◌, refl, true, false, Option, none, some, List, [], ◌∷◌, ok, err, ap,
  ledger_corruption, ledger_error, os_error,
}
use molly.Core.Json.{obj, end, field, str, lst, tup, cons, nil}
use molly.Core.Dumps.{json_sha256, canonical_json_bytes}
use molly.Core.Values.{dict_of, tuple_of}
use molly.Core.Freeze.{
  freeze_fields, freeze_json, freeze_items, sensitive_key, thaw_json, freeze_json_mapping,
  thaw_fields, freeze-thaw,
}
use molly.Core.Ids.{
  concat, validate_identifier, validate_artifact_ids, remove_prefix, z_to_offset,
  validate_digest_reference, validate_sha256, artifact_id_for_sha256, artifact_sha256,
  validate_artifact_id, normalize_timestamp,
}
use molly.Core.Ids.Laws.{
  validate_digest_reference_idem, artifact_sha256_of_id, artifact_id_of_sha256,
  normalize_timestamp_idem,
}
use molly.Core.Ledger
use molly.Core.Ledger.{LedgerEvent, to_dict, from_dict, computed_sha256}
use molly.Core.Ledger.Codec.{from_dict-to_dict}
use molly.Core.Ledger.File.{
  File, lines, decoded, truncated, Disk, append, read_events, head_digest, accept, open_locked,
  prepare, read_lines, write_line, write_locked,
}
use molly.Core.Ledger.Growth.{
  Grows, append-Grows, append_failed, append_unreadable, append_again, Left, append_each, Extends,
  append_each-Extends,
}
use molly.Core.Ledger.Authentic.{Tells, IsChain, readable_iff}
use molly.Tests.Machine.{machine, machine-IsoLaws, digest_a, noon}

abbrev event : String → Option String → Option String → LedgerEvent
event id previous digest = record {
  event_id = id;
  run_id = "run_1";
  event_type = "RUN_STARTED";
  step_id = none;
  status = some "STARTED";
  tool_name = none;
  tool_version = none;
  input_artifact_ids = [];
  output_artifact_ids = [];
  model_profile = end;
  provider_profile = end;
  prompt_digest = none;
  config_digest = none;
  seed_metadata = end;
  timestamp = noon;
  metadata = field "reason" (str "start") end;
  previous_event_sha256 = previous;
  event_sha256 = digest;
}

abbrev good_disk : Disk
good_disk = record { ancestors_clean = true; writes = true; tears = true; flushes = true }

abbrev torn_disk : Disk
torn_disk = record { ancestors_clean = true; writes = false; tears = true; flushes = true }

abbrev first : LedgerEvent
first = event "evt_1" none (some digest_a)

abbrev second : LedgerEvent
second = event "evt_2" (some digest_a) (some digest_a)

abbrev one_line : File
one_line = lines (decoded (obj (to_dict first)) ∷ [])

checked_first : Ledger.post_init machine first ≡ ok first
unfolding append read_events Ledger.check_identifiers validate_identifier validate_artifact_ids
    freeze_json_mapping freeze_fields freeze_items freeze_json sensitive_key Ledger.check_digests
    normalize_timestamp computed_sha256 json_sha256 canonical_json_bytes Ledger.body
    validate_digest_reference remove_prefix validate_sha256 to_dict thaw_fields thaw_json
    validate_artifact_id z_to_offset accept head_digest write_locked open_locked prepare read_lines
    write_line Ledger.check_sealed Ledger.event_of_fields from_dict Ledger.post_init dict_of
    tuple_of
checked_first = refl

read_one : read_events machine one_line ≡ ok (first ∷ [])
unfolding append read_events Ledger.check_identifiers validate_identifier validate_artifact_ids
    freeze_json_mapping freeze_fields freeze_items freeze_json sensitive_key Ledger.check_digests
    normalize_timestamp computed_sha256 json_sha256 canonical_json_bytes Ledger.body
    validate_digest_reference remove_prefix validate_sha256 to_dict thaw_fields thaw_json
    validate_artifact_id z_to_offset accept head_digest write_locked open_locked prepare read_lines
    write_line Ledger.check_sealed Ledger.event_of_fields from_dict Ledger.post_init dict_of
    tuple_of
read_one = refl

appended_second :
    append machine good_disk (event "evt_2" none none) one_line
    ≡ (ok second, lines (decoded (obj (to_dict first)) ∷ decoded (obj (to_dict second)) ∷ []))
unfolding append read_events Ledger.check_identifiers validate_identifier validate_artifact_ids
    freeze_json_mapping freeze_fields freeze_items freeze_json sensitive_key Ledger.check_digests
    normalize_timestamp computed_sha256 json_sha256 canonical_json_bytes Ledger.body
    validate_digest_reference remove_prefix validate_sha256 to_dict thaw_fields thaw_json
    validate_artifact_id z_to_offset accept head_digest write_locked open_locked prepare read_lines
    write_line Ledger.check_sealed Ledger.event_of_fields from_dict Ledger.post_init dict_of
    tuple_of
appended_second = refl

torn_second :
    append machine torn_disk (event "evt_2" none none) one_line
    ≡ (err os_error, lines (decoded (obj (to_dict first)) ∷ truncated ∷ []))
unfolding append read_events Ledger.check_identifiers validate_identifier validate_artifact_ids
    freeze_json_mapping freeze_fields freeze_items freeze_json sensitive_key Ledger.check_digests
    normalize_timestamp computed_sha256 json_sha256 canonical_json_bytes Ledger.body
    validate_digest_reference remove_prefix validate_sha256 to_dict thaw_fields thaw_json
    validate_artifact_id z_to_offset accept head_digest write_locked open_locked prepare read_lines
    write_line Ledger.check_sealed Ledger.event_of_fields from_dict Ledger.post_init dict_of
    tuple_of
torn_second = refl

append-Grows_example :
    Grows machine
      (event "evt_2" none none)
      second
      one_line
      (append machine good_disk (event "evt_2" none none) one_line).1
append-Grows_example =
    append-Grows machine machine-IsoLaws good_disk (event "evt_2" none none) second one_line
      (ap (λ r. r.0) appended_second)

append_failed_example :
    Left machine torn_disk
      (event "evt_2" none none)
      one_line
      (append machine torn_disk (event "evt_2" none none) one_line).1
append_failed_example =
    append_failed machine machine-IsoLaws torn_disk (event "evt_2" none none) one_line os_error
      (ap (λ r. r.0) torn_second)

append_again_example :
    append machine good_disk
      (event "evt_2" none none)
      (append machine good_disk (event "evt_2" none none) one_line).1
    ≡ (err ledger_error, (append machine good_disk (event "evt_2" none none) one_line).1)
append_again_example =
    append_again machine good_disk good_disk (event "evt_2" none none) second one_line refl
      append-Grows_example

read_torn : read_events machine (lines (truncated ∷ [])) ≡ err ledger_corruption
unfolding read_events read_lines
read_torn = refl

append_unreadable_example :
    ((append machine good_disk first (lines (truncated ∷ []))).0 ≢ ok first)
    × (read_events machine (append machine good_disk first (lines (truncated ∷ []))).1
        ≡ err ledger_corruption)
append_unreadable_example =
    append_unreadable machine good_disk first first (lines (truncated ∷ [])) ledger_corruption
      read_torn

abbrev attempts : List (Disk × LedgerEvent)
attempts = (good_disk, event "evt_1" none none) ∷ (good_disk, event "evt_2" none none) ∷ []

after_attempts :
    read_events machine (append_each machine attempts one_line) ≡ ok (first ∷ second ∷ [])
unfolding append_each append read_events Ledger.check_identifiers validate_identifier
    validate_artifact_ids freeze_json_mapping freeze_fields freeze_items freeze_json sensitive_key
    Ledger.check_digests normalize_timestamp computed_sha256 json_sha256 canonical_json_bytes
    Ledger.body validate_digest_reference remove_prefix validate_sha256 to_dict thaw_fields
    thaw_json validate_artifact_id z_to_offset accept head_digest write_locked open_locked prepare
    read_lines write_line Ledger.check_sealed Ledger.event_of_fields from_dict Ledger.post_init
    dict_of tuple_of
after_attempts = refl

digest_first : computed_sha256 machine first ≡ ok digest_a
unfolding computed_sha256 json_sha256 canonical_json_bytes Ledger.body thaw_fields thaw_json
    sensitive_key
digest_first = refl

frozen_ids :
    freeze_json_mapping machine (field "ids" (lst (cons (str "a") nil)) end)
    ≡ ok (field "ids" (tup (cons (str "a") nil)) end)
unfolding freeze_json_mapping freeze_fields freeze_items freeze_json sensitive_key
frozen_ids = refl

offset_noon : normalize_timestamp machine "2024-01-01T14:00:00+02:00" ≡ ok noon
unfolding normalize_timestamp
offset_noon = refl

reference_a : validate_digest_reference (concat "sha256:" digest_a) ≡ ok digest_a
unfolding validate_digest_reference remove_prefix validate_sha256 concat
reference_a = refl

id_a : artifact_id_for_sha256 digest_a ≡ ok (concat "sha256:" digest_a)
unfolding artifact_id_for_sha256 validate_sha256
id_a = refl

append_each-Extends_example :
    Extends machine one_line (append_each machine attempts one_line) (first ∷ second ∷ [])
append_each-Extends_example =
    append_each-Extends machine machine-IsoLaws attempts one_line (first ∷ second ∷ [])
      after_attempts

from_dict-to_dict_example : from_dict machine (obj (to_dict first)) ≡ ok first
from_dict-to_dict_example =
    from_dict-to_dict machine machine-IsoLaws first first digest_a checked_first refl digest_first

freeze-thaw_example :
    freeze_json_mapping machine (thaw_fields (field "ids" (tup (cons (str "a") nil)) end))
    ≡ ok (field "ids" (tup (cons (str "a") nil)) end)
freeze-thaw_example =
    freeze-thaw machine (field "ids" (lst (cons (str "a") nil)) end)
      (field "ids" (tup (cons (str "a") nil)) end) frozen_ids

normalize_timestamp_idem_example : normalize_timestamp machine noon ≡ ok noon
normalize_timestamp_idem_example =
    normalize_timestamp_idem machine machine-IsoLaws "2024-01-01T14:00:00+02:00" noon offset_noon

validate_digest_reference_idem_example :
    (validate_digest_reference digest_a ≡ ok digest_a) × (validate_sha256 digest_a ≡ ok digest_a)
validate_digest_reference_idem_example =
    validate_digest_reference_idem (concat "sha256:" digest_a) reference_a

artifact_sha256_of_id_example :
    (artifact_sha256 (concat "sha256:" digest_a) ≡ ok digest_a)
    × (validate_artifact_id (concat "sha256:" digest_a) ≡ ok (concat "sha256:" digest_a))
artifact_sha256_of_id_example = artifact_sha256_of_id digest_a id_a

artifact_id_of_sha256_example : artifact_id_for_sha256 digest_a ≡ ok (concat "sha256:" digest_a)
artifact_id_of_sha256_example =
    artifact_id_of_sha256 (concat "sha256:" digest_a) (artifact_sha256_of_id digest_a id_a).0

readable_iff_example :
    Tells machine (first ∷ second ∷ []) ↔ IsChain machine none [] (first ∷ second ∷ [])
readable_iff_example = readable_iff machine machine-IsoLaws (first ∷ second ∷ [])
