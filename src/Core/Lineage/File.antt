-- ===== src/Core/Lineage/File.antt =====
-- core/lineage.py, `ArtifactLineage._read_relations`: the reader of the file of relations.
use molly.Prelude.{
  String, Bool, not, ◌&&◌, ◌||◌, Option, none, some, List, [], ◌∷◌, ◌==◌, any, last?, contains,
  option_eq, Result, ok, err, ◌>>=◌, ◌>>◌, refuse, lineage_error,
}
use molly.Core.Json.{Json}
use molly.Core.Host.{Host}
use molly.Core.Ledger.File.{
  Line, truncated, empty, undecodable, decoded, File, missing, symlink, irregular, unreadable,
  lines,
}
use molly.Core.Lineage.{LineageRelation, from_dict, post_init, computed_sha256}

-- The identities that a lineage knows, and whether it asks for them.
pub record Known : Type 0 where
  pub known_ids : List String
  pub strict : Bool

-- `_check_known`
unfoldable pub check_known : Known → String → String → Result (Unit {0})
check_known k subject target =
    refuse (k.strict && (not (contains k.known_ids subject) || not (contains k.known_ids target)))
      lineage_error

-- The tests of the reading loop on one decoded line, against what it has read so far.
unfoldable pub accept : Host → Known → Option String → List String → Json → Result LineageRelation
unfolding from_dict check_known
accept h k previous seen value = do
  relation ← from_dict h value
  refuse (contains seen relation.relation_id) lineage_error
  refuse (not (option_eq relation.previous_relation_sha256 previous)) lineage_error
  check_known k relation.subject_id relation.object_id
  ok relation

-- The rounds of the reading loop; the state is the digest and the identities read so far.
unfoldable pub read_lines :
    Host → Known → Option String → List String → List Line → Result (List LineageRelation)
unfolding accept
read_lines h k previous seen [] = ok []
read_lines h k previous seen (truncated ∷ rest) = err lineage_error
read_lines h k previous seen (empty ∷ rest) = err lineage_error
read_lines h k previous seen (undecodable ∷ rest) = err lineage_error
read_lines h k previous seen (decoded value ∷ rest) = do
  relation ← accept h k previous seen value
  relations ← read_lines h k relation.relation_sha256 (relation.relation_id ∷ seen) rest
  ok (relation ∷ relations)

unfoldable pub read_relations : Host → Known → File → Result (List LineageRelation)
unfolding read_lines
read_relations h k missing = ok []
read_relations h k symlink = err lineage_error
read_relations h k irregular = err lineage_error
read_relations h k unreadable = err lineage_error
read_relations h k (lines ls) = read_lines h k none [] ls

-- `existing[-1].relation_sha256 if existing else None`
unfoldable pub head_digest : List LineageRelation → Option String
head_digest existing = elim (last? existing) [
  | none ↦ none
  | some relation ↦ relation.relation_sha256
]

-- What `add_relation` makes of its candidate behind the relations that are there.
unfoldable pub prepare : Host → LineageRelation → List LineageRelation → Result LineageRelation
unfolding head_digest post_init
prepare h candidate existing = do
  refuse (any (λ item. item.relation_id == candidate.relation_id) existing) lineage_error
  prepared ← post_init h (record candidate { previous_relation_sha256 = head_digest existing })
  digest ← computed_sha256 h prepared
  post_init h (record prepared { relation_sha256 = some digest })
