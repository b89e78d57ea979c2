-- ===== src/Core/Artifacts/Store.antt =====
-- core/artifacts.py, `ArtifactStore`: the objects and the metadata of a store, and its methods.
use molly.Prelude.{
  ℕ, String, Bool, true, false, not, ◌&&◌, Option, none, some, List, ◌==◌, length, nat_eq,
  if◌then◌else◌, Result, ok, err, bind, require, refuse, core_contract, path_security,
  artifact_not_found, artifact_integrity, artifact_conflict, os_error,
}
use molly.Prelude.Actions.{Exec, lift, ◌>>=◌, ◌>>◌}
use molly.Core.Json.{Json, obj}
use molly.Core.Host.{Host}
use molly.Core.Dumps.{canonical_json_bytes}
use molly.Core.Ids.{artifact_sha256, artifact_id_for_sha256, validate_artifact_id}
use molly.Core.Lineage.Graph.{or_default}
use molly.Core.Artifacts.{ArtifactRecord, post_init, to_dict, from_dict}

-- What stands at a path. `garbled` is a file of metadata that is no JSON text in UTF-8 or whose
-- reading fails, `unreadable` an object whose reading fails.
pub data Entry (A : Type 0) : Type 0 where
  missing symlink irregular unreadable garbled : Entry A
  regular : A → Entry A

-- What stands at the folder of the objects whose digests begin with the same two digits.
pub data Folder : Type 0 where
  absent linked blocked real : Folder

-- Folders are looked up by two digits, the other paths by the digest. A file of metadata is known by
-- the value that it holds.
pub record Store : Type 0 where
  pub folder : String → Folder
  pub object : String → Entry (List ℕ)
  pub meta : String → Entry Json

-- How the file system answers `_publish_no_replace`: the new file is linked, another process has
-- linked one first, a call fails before the link, or one fails behind it.
pub data Publication (A : Type 0) : Type 0 where
  links fails unsynced : Publication A
  loses_to : Entry A → Publication A

abbrev pub set_at {ℓ} : {A : Type ℓ} → (String → A) → String → A → String → A
set_at f k v j = if j == k then v else f j

abbrev pub with_object : Store → String → Entry (List ℕ) → Store
with_object s d e = record s { object = set_at s.object d e }

abbrev pub with_meta : Store → String → Entry Json → Store
with_meta s d e = record s { meta = set_at s.meta d e }

-- `path.exists()` of a path that is no symlink
abbrev pub is_there : {A : Type 0} → Entry A → Bool
is_there missing = false
is_there _ = true

abbrev pub is_symlink : {A : Type 0} → Entry A → Bool
is_symlink symlink = true
is_symlink _ = false

-- `path.is_file()` of a path that is no symlink
abbrev pub is_file : {A : Type 0} → Entry A → Bool
is_file missing = false
is_file symlink = false
is_file irregular = false
is_file _ = true

-- `_publish_no_replace` at a path where nothing was: whether it raises, and what stands there
-- afterwards.
unfoldable pub publish_no_replace : {A : Type 0} → Publication A → A → Result (Unit {0}) × Entry A
publish_no_replace links a = (ok tt, regular a)
publish_no_replace fails a = (err os_error, missing)
publish_no_replace unsynced a = (err os_error, regular a)
publish_no_replace (loses_to e) a = (ok tt, e)

-- The keyword arguments of `put`, the clock, whether a folder can be made, and what the two
-- publications meet.
pub record Request : Type 0 where
  pub media_type : Option String
  pub content_type : Option String
  pub schema_name : Option String
  pub schema_version : Option String
  pub stored_at : Option String
  pub now : String
  pub makes_folder : Bool
  pub object_publication : Publication (List ℕ)
  pub meta_publication : Publication Json

abbrev pub is_linked : Folder → Bool
is_linked linked = true
is_linked _ = false

-- `digest[:2]`
unfoldable pub prefix_of : String → String
prefix_of String.[] = String.[]
prefix_of (String.◌∷◌ c String.[]) = String.◌∷◌ c String.[]
prefix_of (String.◌∷◌ c (String.◌∷◌ d _)) = String.◌∷◌ c (String.◌∷◌ d String.[])

-- `media_type`, or its alias `content_type`
unfoldable pub media_of : Request → Result String
media_of q = elim q.media_type [
  | none ↦ elim q.content_type [ none ↦ err core_contract | some media ↦ ok media ]
  | some media ↦ elim q.content_type [
    | none ↦ ok media
    | some other ↦ if media == other then ok media else err core_contract
  ]
]

module _ (h : Host) where
  -- `_read_verified_bytes`
  unfoldable pub read_verified_bytes : Entry (List ℕ) → String → Result (List ℕ)
  read_verified_bytes missing expected = err artifact_not_found
  read_verified_bytes symlink expected = err path_security
  read_verified_bytes irregular expected = err artifact_integrity
  read_verified_bytes unreadable expected = err os_error
  read_verified_bytes garbled expected = err os_error
  read_verified_bytes (regular payload) expected =
      if h.sha256 payload == expected then ok payload else err artifact_integrity

  -- `_read_record`
  unfoldable pub read_record : Entry Json → Result ArtifactRecord
  unfolding from_dict
  read_record missing = err artifact_not_found
  read_record symlink = err path_security
  read_record irregular = err artifact_integrity
  read_record unreadable = err artifact_integrity
  read_record garbled = err artifact_integrity
  read_record (regular value) = from_dict h value

  -- `_paths` without `create_prefix`: the digest that names the two paths. A digest leaves no way
  -- out of the root.
  unfoldable pub paths : String → Store → Result String
  paths artifact_id s = bind (artifact_sha256 artifact_id) λ digest.
      bind (refuse (is_linked (s.folder (prefix_of digest))) path_security) λ _.
        bind (refuse (is_symlink (s.object digest)) path_security)
          λ _. bind (refuse (is_symlink (s.meta digest)) path_security) λ _. ok digest

  -- `_ensure_directory`
  unfoldable pub ensure_directory : Bool → Folder → Result Folder
  ensure_directory makes absent = if makes then ok real else err os_error
  ensure_directory makes linked = err path_security
  ensure_directory makes blocked = err os_error
  ensure_directory makes real = ok real

  -- `_paths` with `create_prefix`; the flag says whether a folder can be made.
  unfoldable pub paths_created : Bool → String → Exec Store String
  unfolding ensure_directory
  paths_created makes artifact_id s = elim (artifact_sha256 artifact_id) [
    | err e ↦ (err e, s)
    | ok digest ↦ elim (ensure_directory makes (s.folder (prefix_of digest))) [
      | err e ↦ (err e, s)
      | ok folder ↦ (
        bind (refuse (is_symlink (s.object digest)) path_security)
            (λ _. bind (refuse (is_symlink (s.meta digest)) path_security) (λ _. ok digest)),
        record s { folder = set_at s.folder (prefix_of digest) folder },
      )
    ]
  ]

  -- Both are given, and they differ.
  abbrev pub conflicts : Option String → Option String → Bool
  conflicts (some old) (some new) = not (old == new)
  conflicts _ _ = false

  -- `_assert_compatible_intrinsic_metadata`
  unfoldable pub assert_compatible : ArtifactRecord → ArtifactRecord → Result (Unit {0})
  assert_compatible existing requested =
      bind (require (existing.sha256 == requested.sha256) artifact_conflict) λ _.
        bind (require (existing.artifact_id == requested.artifact_id) artifact_conflict) λ _.
          bind (require (existing.media_type == requested.media_type) artifact_conflict) λ _.
            bind (refuse (conflicts existing.schema_name requested.schema_name) artifact_conflict)
              λ _.
                refuse (conflicts existing.schema_version requested.schema_version)
                  artifact_conflict

  -- `_existing_record`
  unfoldable pub existing_record : String → ArtifactRecord → Store → Result ArtifactRecord
  unfolding read_record assert_compatible read_verified_bytes
  existing_record digest requested s = bind (read_record (s.meta digest)) λ existing.
      bind (assert_compatible existing requested) λ _.
        bind (read_verified_bytes (s.object digest) requested.sha256) λ payload.
          bind (require (nat_eq existing.size_bytes (length payload)) artifact_integrity)
            λ _. ok existing

  -- The record that `put` asks for, with the bytes and their digest.
  unfoldable pub requested : Request → List ℕ → Result ArtifactRecord
  unfolding media_of post_init
  requested q payload = bind (media_of q) λ media.
      bind (artifact_id_for_sha256 (h.sha256 payload)) λ artifact_id. post_init h (record {
        artifact_id = artifact_id;
        sha256 = h.sha256 payload;
        media_type = media;
        schema_name = q.schema_name;
        schema_version = q.schema_version;
        size_bytes = length payload;
        stored_at = or_default q.stored_at q.now;
      })

  -- The publication of the bytes, or their check where an object is there.
  unfoldable pub put_object : Request → List ℕ → String → Exec Store (List ℕ)
  unfolding publish_no_replace read_verified_bytes
  put_object q payload digest s =
      if is_there (s.object digest)
      then (read_verified_bytes (s.object digest) digest, s)
      else let (r, entry) = publish_no_replace q.object_publication payload in
        (bind r (λ _. read_verified_bytes entry digest), with_object s digest entry)

  -- The publication of the metadata, if there are none, and the record that stands in the end.
  unfoldable pub put_meta : Request → ArtifactRecord → String → Exec Store ArtifactRecord
  unfolding publish_no_replace existing_record
  put_meta q r digest s =
      if is_there (s.meta digest)
      then (existing_record digest r s, s)
      else elim (canonical_json_bytes h (obj (to_dict r))) [
        | err e ↦ (err e, s)
        | ok _ ↦
            let (done, entry) = publish_no_replace q.meta_publication (obj (to_dict r)) in
            let t = with_meta s digest entry in (bind done (λ _. existing_record digest r t), t)
      ]

  -- `put`
  unfoldable pub put : Request → List ℕ → Exec Store ArtifactRecord
  unfolding requested paths_created put_object put_meta
  put q payload = do
    r ← lift (requested q payload)
    digest ← paths_created q.makes_folder r.artifact_id
    put_object q payload digest
    put_meta q r digest

  -- `verify`, `get_metadata` and `metadata`
  unfoldable pub verify : String → Store → Result ArtifactRecord
  unfolding paths read_record read_verified_bytes
  verify artifact_id s = bind (validate_artifact_id artifact_id) λ _.
      bind (paths artifact_id s) λ digest. bind (read_record (s.meta digest)) λ r.
        bind (require (r.artifact_id == artifact_id) artifact_integrity) λ _.
          bind (artifact_sha256 artifact_id) λ expected.
            bind (read_verified_bytes (s.object digest) expected) λ payload.
              bind (require (nat_eq (length payload) r.size_bytes) artifact_integrity) λ _. ok r

  -- `read`, `get`, `read_bytes` and `get_bytes`
  unfoldable pub read : String → Store → Result (List ℕ)
  unfolding verify paths read_verified_bytes
  read artifact_id s =
      bind (verify artifact_id s)
        λ r. bind (paths r.artifact_id s) λ digest. read_verified_bytes (s.object digest) r.sha256

  -- `read_metadata`
  unfoldable pub read_metadata : String → Store → Result ArtifactRecord
  unfolding paths read_record
  read_metadata artifact_id s = bind (validate_artifact_id artifact_id) λ _.
      bind (paths artifact_id s) λ digest. bind (read_record (s.meta digest)) λ r.
        bind (require (r.artifact_id == artifact_id) artifact_integrity) λ _.
          bind (refuse (is_symlink (s.object digest)) path_security) λ _.
            bind (require (is_there (s.object digest)) artifact_not_found)
              λ _. bind (require (is_file (s.object digest)) artifact_integrity) λ _. ok r

  -- `exists`; the flag is its argument `verify`.
  unfoldable pub exists : Bool → String → Store → Result Bool
  unfolding verify paths
  exists verified artifact_id s = bind (validate_artifact_id artifact_id) λ _.
      bind (paths artifact_id s) λ digest.
        if is_file (s.object digest) && is_file (s.meta digest)
        then (if verified then bind (verify artifact_id s) (λ _. ok true) else ok true)
        else ok false

  -- `put_json`
  unfoldable pub put_json : Request → Json → Exec Store ArtifactRecord
  unfolding put
  put_json q value = do
    payload ← lift (canonical_json_bytes h value)
    put
        (record q {
          media_type = elim q.media_type [ none ↦ some "application/json" | some m ↦ some m ];
        })
        payload
