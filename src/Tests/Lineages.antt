-- ===== src/Tests/Lineages.antt =====
-- The properties of core/lineage.py at concrete inputs.
use molly.Prelude.{
  ℕ, ◌+◌, String, ◌≡◌, refl, sym, true, false, ok-injective, Option, none, some, List, [], ◌∷◌, ok,
  err, lineage_error,
}
use molly.Prelude.Actions.{for_each, ◌>>=◌}
use molly.Core.Json.{end, field, str, Fields}
use molly.Core.Dumps.{json_sha256, canonical_json_bytes}
use molly.Core.Equality.{equal_fields}
use molly.Core.Freeze.{
  freeze_fields, freeze_items, freeze_json, sensitive_key, thaw_json, thaw_fields,
  freeze_json_mapping,
}
use molly.Core.Ids.{
  concat, validate_identifier, validate_reference, validate_sha256, validate_artifact_id,
  validate_artifact_ids, remove_prefix, normalize_timestamp, z_to_offset,
}
use molly.Core.Ledger.File.{missing}
use molly.Core.Lineage.{
  RelationType, relation_text, consumed_by, produced_by, derived_from, member, LineageRelation,
  post_init, relation_value, computed_sha256, body,
}
use molly.Core.Lineage.Codec.{RelationWords}
use molly.Core.Lineage.Sealing.{FieldLaws}
use molly.Core.Lineage.File.{check_known, read_relations, prepare, head_digest}
use molly.Core.Lineage.Graph.{
  memory, stored, Lineage, Outside, Addition, Backing, relations, hydrate, know, candidate,
  candidate_of, publish, add_relation, register_identity, register_artifact, register_step,
}
use molly.Core.Lineage.Methods.{
  add_relation_idempotent, parents, producer_steps, record_production, know_production, add_derived,
  objects_of, for_subject, wanted, settle, find_relation,
}
use molly.Core.Lineage.Refinement.{Mirrors}
use molly.Core.Lineage.Publishing.{Reliable}
use molly.Core.Lineage.Sessions.{
  Call, know_identity, add, read, identity, told, session, perform, session-Mirrors,
}
use molly.Core.Lineage.Repeats.{add_relation_idempotent_again}
use molly.Core.Lineage.Origins.{record_production-origins}
use molly.Tests.Machine.{machine, machine-IsoLaws, digest_a, noon, counted}

machine-RelationWords : RelationWords machine
machine-RelationWords = record { word = λ t. refl }

machine-FieldLaws : FieldLaws machine
unfolding sensitive_key
machine-FieldLaws = record { harmless = refl }

abbrev outside : Outside
outside = record {
  disk = record { ancestors_clean = true; writes = true; tears = true; flushes = true };
  uuid = "b";
  now = noon;
}

abbrev addition : Addition
addition = record {
  relation = member consumed_by;
  subject_id = "art_1";
  object_id = "step_1";
  relation_id = none;
  created_at = some noon;
  metadata = some (field "note" (str "first") end);
}

abbrev fresh : Backing → Lineage
fresh backing = record {
  known = record { known_ids = "art_1" ∷ []; strict = true };
  backing = backing;
  target_exists = true;
}

abbrev calls : List Call
calls =
    add outside addition
    ∷ know_identity "step_1"
    ∷ add outside addition
    ∷ add outside addition
    ∷ read
    ∷ []

-- The relation that `addition` becomes as the first one.
abbrev first : LineageRelation
first = record {
  relation_type = "CONSUMED_BY";
  subject_id = "art_1";
  object_id = "step_1";
  relation_id = "rel_b";
  created_at = noon;
  metadata = field "note" (str "first") end;
  previous_relation_sha256 = none;
  relation_sha256 = some digest_a;
}

-- An unknown step, then a repeated identity are refused; the session keeps on.
session_run :
    (session machine calls (fresh (memory []))).0
    ≡ err lineage_error
      ∷ ok (identity "step_1")
      ∷ ok (told (first ∷ []))
      ∷ err lineage_error
      ∷ ok (told (first ∷ []))
      ∷ []
unfolding session perform add_relation register_identity ◌>>=◌ hydrate know relations candidate
    candidate_of publish prepare post_init relation_value check_known computed_sha256 body
    validate_identifier validate_reference validate_sha256 normalize_timestamp z_to_offset concat
    freeze_json_mapping freeze_fields freeze_items freeze_json sensitive_key thaw_fields thaw_json
    json_sha256 canonical_json_bytes head_digest
session_run = refl

fresh-Mirrors : Mirrors machine (fresh (memory [])) (fresh (stored missing))
unfolding read_relations
fresh-Mirrors = record {
  rs = [];
  file = missing;
  in_memory = refl;
  in_file = refl;
  same_known = refl;
  is_strict = refl;
  readable = refl;
}

reliable : Reliable outside.disk
reliable = record { clean = refl; completes = refl; settles = refl }

session-Mirrors_example :
    ((session machine calls (fresh (memory []))).0
      ≡ (session machine calls (fresh (stored missing))).0)
    × Mirrors machine
        (session machine calls (fresh (memory []))).1
        (session machine calls (fresh (stored missing))).1
session-Mirrors_example =
    session-Mirrors machine machine-IsoLaws machine-RelationWords machine-FieldLaws calls
      (fresh (memory [])) (fresh (stored missing))
      (reliable, (tt, (reliable, (reliable, (tt, tt))))) fresh-Mirrors

abbrev open_lineage : Backing → Lineage
open_lineage backing = record {
  known = record { known_ids = []; strict = false };
  backing = backing;
  target_exists = true;
}

added :
    (add_relation_idempotent machine outside addition "rel_b" (open_lineage (memory []))).0
    ≡ ok first
unfolding add_relation_idempotent wanted settle find_relation add_relation ◌>>=◌ relations candidate
    candidate_of publish prepare post_init relation_value check_known computed_sha256 body
    validate_identifier validate_reference validate_sha256 normalize_timestamp z_to_offset
    freeze_json_mapping freeze_fields freeze_items freeze_json sensitive_key thaw_fields thaw_json
    json_sha256 canonical_json_bytes head_digest
added = refl

metadata_equal :
    (facts : Fields)
    → freeze_json_mapping machine (field "note" (str "first") end) ≡ ok facts
    → equal_fields machine facts facts ≡ true
unfolding freeze_json_mapping freeze_fields freeze_json sensitive_key equal_fields
metadata_equal facts e = rw (sym (ok-injective e)) refl

add_relation_idempotent_again_example :
    add_relation_idempotent machine outside addition "rel_b"
      (add_relation_idempotent machine outside addition "rel_b" (open_lineage (memory []))).1
    ≡ (
      ok first,
      (add_relation_idempotent machine outside addition "rel_b" (open_lineage (memory []))).1,
    )
add_relation_idempotent_again_example =
    add_relation_idempotent_again machine machine-IsoLaws machine-RelationWords outside outside
      addition "rel_b" (open_lineage (memory [])) [] first metadata_equal refl refl added

abbrev artifact : String
artifact = "sha256:aaaaaaaaaaaaaaaaaaaaaaaaaaaaaaaaaaaaaaaaaaaaaaaaaaaaaaaaaaaaaaaa"

abbrev source : String
source = "sha256:bbbbbbbbbbbbbbbbbbbbbbbbbbbbbbbbbbbbbbbbbbbbbbbbbbbbbbbbbbbbbbbb"

abbrev one_by_one : ℕ → Outside
one_by_one n = record outside { uuid = counted (n + 1) }

abbrev link : RelationType → String → String → Option String → LineageRelation
link type target id previous = record first {
  relation_type = relation_text type;
  subject_id = artifact;
  object_id = target;
  relation_id = id;
  metadata = end;
  previous_relation_sha256 = previous;
}

abbrev produced : List LineageRelation
produced =
    link produced_by "step_1" "rel_a" none ∷ link derived_from source "rel_aa" (some digest_a) ∷ []

recorded :
    (record_production machine one_by_one artifact "step_1"
      (source ∷ [])
      none
      (some noon)
      (open_lineage (memory []))).0
    ≡ ok produced
unfolding record_production know_production add_derived register_artifact register_step for_each
    counted validate_artifact_id validate_artifact_ids remove_prefix add_relation ◌>>=◌ hydrate know
    relations candidate candidate_of publish prepare post_init relation_value check_known
    computed_sha256 body validate_identifier validate_reference validate_sha256 normalize_timestamp
    z_to_offset concat freeze_json_mapping freeze_fields freeze_items freeze_json sensitive_key
    thaw_fields thaw_json json_sha256 canonical_json_bytes head_digest
recorded = refl

no_parents : parents machine artifact (open_lineage (memory [])) ≡ ok []
unfolding parents objects_of for_subject relations validate_artifact_id validate_reference
    validate_sha256 remove_prefix
no_parents = refl

no_steps : producer_steps machine artifact (open_lineage (memory [])) ≡ ok []
unfolding producer_steps objects_of for_subject relations validate_artifact_id validate_reference
    validate_sha256 remove_prefix
no_steps = refl

abbrev after_production : Lineage
after_production =
    (record_production machine one_by_one artifact "step_1" (source ∷ []) none (some noon)
      (open_lineage (memory []))).1

record_production-origins_example :
    (parents machine artifact after_production ≡ ok (source ∷ []))
    × (producer_steps machine artifact after_production ≡ ok ("step_1" ∷ []))
record_production-origins_example =
    record_production-origins machine machine-IsoLaws machine-RelationWords one_by_one artifact
      "step_1" (source ∷ []) none (some noon) (open_lineage (memory [])) [] produced [] [] refl
      no_parents no_steps recorded
