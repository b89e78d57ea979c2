-- ===== src/Core/Lineage/Graph.antt =====
-- core/lineage.py, `ArtifactLineage`: relations in memory or in a file, the identities that it knows,
-- and what its methods change and tell.
use molly.Prelude.{
  String, Bool, true, false, not, ◌||◌, Option, none, some, List, [], ◌∷◌, ◌++◌, ◌==◌,
  if◌then◌else◌, Result, ok, err, bind, map_result,
}
use molly.Prelude.Actions.{Exec, ◌>>◌}
use molly.Core.Json.{Fields, obj, end}
use molly.Core.Host.{Host}
use molly.Core.Dumps.{canonical_json_bytes}
use molly.Core.Ids.{concat, validate_identifier, validate_reference, validate_artifact_id}
use molly.Core.Ledger.File.{
  decoded, File, missing, symlink, irregular, unreadable, lines, Disk, open_locked, write_locked,
}
use molly.Core.Lineage.{RelationName, text, LineageRelation, relation_value, post_init, to_dict}
use molly.Core.Lineage.File.{Known, check_known, read_relations, prepare}

-- `path` is `None`, or names a file.
pub data Backing : Type 0 where
  memory : List LineageRelation → Backing
  stored : File → Backing

-- `target_exists` says of a path that is a symlink whether it leads anywhere.
pub record Lineage : Type 0 where
  pub known : Known
  pub backing : Backing
  pub target_exists : Bool

-- What one call reads of its surroundings: the disk, `uuid4().hex`, and the clock.
pub record Outside : Type 0 where
  pub disk : Disk
  pub uuid : String
  pub now : String

-- The arguments of `add_relation`.
pub record Addition : Type 0 where
  pub relation : RelationName
  pub subject_id : String
  pub object_id : String
  pub relation_id : Option String
  pub created_at : Option String
  pub metadata : Option Fields

-- `value or default` of an optional text
abbrev pub or_default : Option String → String → String
or_default none d = d
or_default (some value) d = if value == "" then d else value

abbrev pub fields_or_empty : Option Fields → Fields
fields_or_empty none = end
fields_or_empty (some fs) = fs

module _ (h : Host) where
  -- `ArtifactLineage.__init__`, at what stands at its path
  unfoldable pub init : Backing → Bool → List String → Bool → Result Lineage
  init backing target_exists known_ids strict =
      bind (map_result (validate_reference h) known_ids) (λ ids. ok (record {
        known = record {
          known_ids = ids;
          strict = strict || elim ids [ [] ↦ false | _ ∷ _ ↦ true ];
        };
        backing = backing;
        target_exists = target_exists;
      }))

  backing_relations : Known → Backing → Result (List LineageRelation)
  backing_relations k (memory rs) = ok rs
  backing_relations k (stored f) = read_relations h k f

  -- `relations`, and `inspect`
  unfoldable pub relations : Lineage → Result (List LineageRelation)
  unfolding backing_relations
  relations l = backing_relations l.known l.backing

  abbrev pub snapshot : Exec Lineage (List LineageRelation)
  snapshot l = (relations l, l)

  identities : List LineageRelation → List String
  identities [] = []
  identities (r ∷ rs) = r.subject_id ∷ r.object_id ∷ identities rs

  learn : List String → Known → Known
  learn ids k = record k { known_ids = ids ++ k.known_ids }

  -- `self.path.exists()`
  path_exists : Bool → Backing → Bool
  path_exists target_exists (memory rs) = false
  path_exists target_exists (stored missing) = false
  path_exists target_exists (stored symlink) = target_exists
  path_exists target_exists (stored irregular) = true
  path_exists target_exists (stored unreadable) = true
  path_exists target_exists (stored (lines _)) = true

  -- `_hydrate_persisted_identities`
  unfoldable pub hydrate : Exec Lineage (Unit {0})
  unfolding relations path_exists identities learn
  hydrate l =
      if l.known.strict || not (path_exists l.target_exists l.backing)
      then (ok tt, l)
      else elim (relations l) [
        | err e ↦ (err e, l)
        | ok rs ↦ (ok tt, record l { known = learn (identities rs) l.known })
      ]

  -- The end of the three `register_…` methods.
  unfoldable pub know : Result String → Exec Lineage String
  know (err e) l = (err e, l)
  know (ok id) l =
      (ok id, record l { known = record { known_ids = id ∷ l.known.known_ids; strict = true } })

  unfoldable pub register_identity : String → Exec Lineage String
  unfolding hydrate know
  register_identity value = hydrate >> know (validate_reference h value)

  unfoldable pub register_artifact : String → Exec Lineage String
  unfolding hydrate know
  register_artifact artifact_id = hydrate >> know (validate_artifact_id artifact_id)

  unfoldable pub register_step : String → Exec Lineage String
  unfolding hydrate know
  register_step step_id = hydrate >> know (validate_identifier step_id)

  -- The arguments that `add_relation` gives to the constructor.
  unfoldable pub candidate_of : Outside → Addition → String → LineageRelation
  candidate_of outside a kind = record {
    relation_type = kind;
    subject_id = a.subject_id;
    object_id = a.object_id;
    relation_id = or_default a.relation_id (concat "rel_" outside.uuid);
    created_at = or_default a.created_at outside.now;
    metadata = fields_or_empty a.metadata;
    previous_relation_sha256 = none;
    relation_sha256 = none;
  }

  -- The checks of `add_relation`, up to its candidate.
  unfoldable pub candidate : Outside → Addition → Known → Result LineageRelation
  unfolding candidate_of relation_value check_known post_init
  candidate outside a k = bind (relation_value h a.relation) λ kind.
      bind (validate_reference h a.subject_id) λ _. bind (validate_reference h a.object_id) λ _.
        bind (check_known k a.subject_id a.object_id) λ _. post_init h (candidate_of outside a kind)

  -- The line that the file branch of `add_relation` writes has to have canonical bytes.
  unfoldable pub prepare_line : LineageRelation → List LineageRelation → Result LineageRelation
  unfolding prepare
  prepare_line c existing =
      bind (prepare h c existing)
        λ persisted. bind (canonical_json_bytes h (obj (to_dict persisted))) λ _. ok persisted

  -- The two branches of `add_relation`.
  unfoldable pub publish :
      Disk → LineageRelation → Known → Backing → Result LineageRelation × Backing
  unfolding prepare prepare_line open_locked write_locked read_relations
  publish disk c k (memory existing) = elim (prepare h c existing) [
    | err e ↦ (err e, memory existing)
    | ok persisted ↦ (ok persisted, memory (existing ++ persisted ∷ []))
  ]
  publish disk c k (stored file) = elim (open_locked disk file) [
    | err e ↦ (err e, stored file)
    | ok opened ↦ elim (bind (read_relations h k opened) (prepare_line c)) [
      | err e ↦ (err e, stored opened)
      | ok persisted ↦
          let (r, written) = write_locked disk (decoded (obj (to_dict persisted))) opened in
          (bind r (λ _. ok persisted), stored written)
    ]
  ]

  unfoldable pub add_relation : Outside → Addition → Exec Lineage LineageRelation
  unfolding candidate publish
  add_relation outside a l = elim (candidate outside a l.known) [
    | err e ↦ (err e, l)
    | ok c ↦
        let (r, backing) = publish outside.disk c l.known l.backing in
        (r, record l { backing = backing })
  ]

  -- `register` of a prebuilt relation
  unfoldable pub register : Outside → LineageRelation → Exec Lineage LineageRelation
  unfolding add_relation
  register outside r = add_relation outside (record {
    relation = text r.relation_type;
    subject_id = r.subject_id;
    object_id = r.object_id;
    relation_id = some r.relation_id;
    created_at = some r.created_at;
    metadata = some r.metadata;
  })
