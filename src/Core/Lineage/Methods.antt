-- ===== src/Core/Lineage/Methods.antt =====
-- core/lineage.py, `ArtifactLineage`: the methods that are made of others: the idempotent addition,
-- the record of a production, and the questions that read relations.
use molly.Prelude.{
  ℕ, ◌+◌, String, Bool, ◌&&◌, Option, none, some, List, [], ◌∷◌, ◌==◌, keep, map, if◌then◌else◌,
  Result, ok, err, bind, lineage_error,
}
use molly.Prelude.Actions.{Exec, pure, lift, for_each, ◌>>=◌, ◌>>◌}
use molly.Core.Json.{Fields}
use molly.Core.Host.{Host}
use molly.Core.Equality.{equal_fields}
use molly.Core.Freeze.{freeze_json_mapping}
use molly.Core.Ids.{
  validate_identifier, validate_reference, validate_artifact_id, validate_artifact_ids,
  normalize_timestamp,
}
use molly.Core.Lineage.{
  member, text, RelationType, produced_by, derived_from, supported_by, relation_text,
  LineageRelation, relation_value,
}
use molly.Core.Lineage.File.{Known, check_known}
use molly.Core.Lineage.Graph.{
  Lineage, Outside, Addition, or_default, fields_or_empty, relations, snapshot, register_artifact,
  register_step, add_relation,
}

-- The first relation with an identity, as the loop of `add_relation_idempotent` meets it.
unfoldable pub find_relation : String → List LineageRelation → Option LineageRelation
find_relation relation_id [] = none
find_relation relation_id (r ∷ rs) =
    let later = find_relation relation_id rs in
    if r.relation_id == relation_id then some r else later

-- What `add_relation_idempotent` hands on to `add_relation`.
abbrev pub repeat_of : LineageRelation → Addition
repeat_of w = record {
  relation = text w.relation_type;
  subject_id = w.subject_id;
  object_id = w.object_id;
  relation_id = some w.relation_id;
  created_at = some w.created_at;
  metadata = some w.metadata;
}

-- One relation of a production.
abbrev pub occurrence : RelationType → String → String → Option String → Option Fields → Addition
occurrence type artifact_id object_id time metadata = record {
  relation = member type;
  subject_id = artifact_id;
  object_id = object_id;
  relation_id = none;
  created_at = time;
  metadata = metadata;
}

module _ (h : Host) where
  -- Whether a relation tells the facts that are asked for.
  unfoldable pub same_facts : LineageRelation → LineageRelation → Bool
  same_facts existing wanted =
      existing.relation_type == wanted.relation_type
      && existing.subject_id == wanted.subject_id
      && existing.object_id == wanted.object_id
      && existing.created_at == wanted.created_at
      && equal_fields h existing.metadata wanted.metadata

  -- The checked arguments of `add_relation_idempotent`; the two digests stay open.
  unfoldable pub wanted : Outside → Addition → String → Result LineageRelation
  unfolding relation_value
  wanted outside a relation_id = bind (relation_value h a.relation) λ kind.
      bind (validate_reference h a.subject_id) λ _. bind (validate_reference h a.object_id) λ _.
        bind (validate_identifier relation_id) λ _.
          bind (normalize_timestamp h (or_default a.created_at outside.now)) λ time.
            bind (freeze_json_mapping h (fields_or_empty a.metadata)) λ facts. ok (record {
              relation_type = kind;
              subject_id = a.subject_id;
              object_id = a.object_id;
              relation_id = relation_id;
              created_at = time;
              metadata = facts;
              previous_relation_sha256 = none;
              relation_sha256 = none;
            })

  -- The end of `add_relation_idempotent`, for the relation that is there with this identity.
  unfoldable pub settle :
      Outside → LineageRelation → Option LineageRelation → Exec Lineage LineageRelation
  unfolding add_relation same_facts
  settle outside w (some existing) =
      lift (if same_facts existing w then ok existing else err lineage_error)
  settle outside w none = add_relation h outside (repeat_of w)

  unfoldable pub add_relation_idempotent :
      Outside → Addition → String → Exec Lineage LineageRelation
  unfolding wanted settle find_relation
  add_relation_idempotent outside a relation_id = do
    w ← lift (wanted outside a relation_id)
    existing ← snapshot h
    settle outside w (find_relation relation_id existing)

  -- The `DERIVED_FROM` relations of a production, one for each of its inputs.
  unfoldable pub add_derived :
      (ℕ → Outside)
      → ℕ
      → String
      → Option String
      → Option Fields
      → List String
      → Exec Lineage (List LineageRelation)
  unfolding add_relation
  add_derived outside n artifact_id time metadata [] = pure []
  add_derived outside n artifact_id time metadata (input ∷ inputs) = do
    first ← add_relation h (outside n) (occurrence derived_from artifact_id input time metadata)
    rest ← add_derived outside (n + 1) artifact_id time metadata inputs
    pure (first ∷ rest)

  -- The checks of `record_production`, and what it makes known.
  unfoldable pub know_production : String → String → List String → Exec Lineage (List String)
  unfolding register_artifact register_step
  know_production artifact_id step_id inputs = do
    lift (validate_artifact_id artifact_id)
    lift (validate_identifier step_id)
    input_ids ← lift (validate_artifact_ids inputs)
    register_artifact h artifact_id
    register_step h step_id
    for_each (λ id. register_artifact h id >> pure tt) input_ids
    pure input_ids

  -- `record_production`; its surroundings are read anew for each relation.
  unfoldable pub record_production :
      (ℕ → Outside)
      → String
      → String
      → List String
      → Option Fields
      → Option String
      → Exec Lineage (List LineageRelation)
  unfolding know_production add_derived add_relation
  record_production outside artifact_id step_id inputs metadata created_at = do
    input_ids ← know_production artifact_id step_id inputs
    let time : Option String = some (or_default created_at (outside 0).now)
    produced ← add_relation h (outside 0) (occurrence produced_by artifact_id step_id time metadata)
    derived ← add_derived outside 1 artifact_id time metadata input_ids
    pure (produced ∷ derived)

  unfoldable pub for_subject : String → Lineage → Result (List LineageRelation)
  unfolding relations
  for_subject subject_id l =
      bind (validate_reference h subject_id)
        λ _. bind (relations h l) λ rs. ok (keep (λ item. item.subject_id == subject_id) rs)

  unfoldable pub for_object : String → Lineage → Result (List LineageRelation)
  unfolding relations
  for_object object_id l =
      bind (validate_reference h object_id)
        λ _. bind (relations h l) λ rs. ok (keep (λ item. item.object_id == object_id) rs)

  -- The objects of an artifact's relations of one type.
  unfoldable pub objects_of : RelationType → String → Lineage → Result (List String)
  unfolding for_subject
  objects_of type artifact_id l = bind (validate_artifact_id artifact_id) λ _.
      bind (for_subject artifact_id l) λ rs.
        ok (
          map (λ item. item.object_id) (keep (λ item. item.relation_type == relation_text type) rs))

  -- `parents`, and its alias `inputs`
  unfoldable pub parents : String → Lineage → Result (List String)
  unfolding objects_of
  parents = objects_of derived_from

  unfoldable pub producer_steps : String → Lineage → Result (List String)
  unfolding objects_of
  producer_steps = objects_of produced_by

  unfoldable pub supporters : String → Lineage → Result (List String)
  unfolding objects_of
  supporters = objects_of supported_by

  check_all : Known → List LineageRelation → Result (Unit {0})
  check_all k [] = ok tt
  check_all k (r ∷ rs) =
      let rest = check_all k rs in bind (check_known k r.subject_id r.object_id) (λ _. rest)

  unfoldable pub validate_known_identities : Lineage → Result (Unit {0})
  unfolding relations check_known check_all
  validate_known_identities l = bind (relations h l) (check_all l.known)
