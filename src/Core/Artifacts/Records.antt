-- ===== src/Core/Artifacts/Records.antt =====
-- core/artifacts.py: what is known of a checked record, and of one that was read.
use molly.Prelude.{
  ◌≡◌, refl, false, ◌==◌, ok, sym, ap, ◌∙◌, bind-eq-ok, ok-injective, require, require-eq-ok,
  refuse, refuse-eq-ok, rethrow-eq-ok, core_contract, artifact_integrity, eq_iff, Keeps-ok,
}
use molly.Core.Json.{Json, obj, null, bool, int, float, str, lst, tup, opaque}
use molly.Core.Host.{Host}
use molly.Core.Ids.{
  validate_identifier, validate_artifact_id, validate_sha256, artifact_id_for_sha256,
  normalize_timestamp,
}
use molly.Core.Ids.Laws.{
  IsoLaws, validate_artifact_id-Keeps, validate_sha256-Keeps, normalize_timestamp_idem,
}
use molly.Core.Ledger.{check_optional}
use molly.Core.Values.{some_text-optional}
use molly.Core.Artifacts.{
  ArtifactRecord, has_control, is_blank, post_init, to_dict, record_of_fields, from_dict,
}

-- A record that its constructor has checked.
pub record Checked (h : Host) (r : ArtifactRecord) : Type 0 where
  pub identity : validate_artifact_id r.artifact_id ≡ ok r.artifact_id
  pub digest : validate_sha256 r.sha256 ≡ ok r.sha256
  pub named : artifact_id_for_sha256 r.sha256 ≡ ok r.artifact_id
  pub filled : is_blank h r.media_type ≡ false
  pub clean : has_control r.media_type ≡ false
  pub schema : check_optional validate_identifier r.schema_name ≡ ok tt
  pub version : check_optional validate_identifier r.schema_version ≡ ok tt
  pub time : normalize_timestamp h r.stored_at ≡ ok r.stored_at

-- The fields that the constructor leaves alone.
pub record SameContent (r c : ArtifactRecord) : Type 0 where
  pub same_id : c.artifact_id ≡ r.artifact_id
  pub same_sha256 : c.sha256 ≡ r.sha256
  pub same_media : c.media_type ≡ r.media_type
  pub same_schema : c.schema_name ≡ r.schema_name
  pub same_version : c.schema_version ≡ r.schema_version
  pub same_size : c.size_bytes ≡ r.size_bytes

pub post_init-Checked :
    (h : Host) (laws : IsoLaws h) (r c : ArtifactRecord)
    → post_init h r ≡ ok c
    → Checked h c × SameContent r c
unfolding post_init
post_init-Checked h laws r c e =
    let (_, i, e1) = bind-eq-ok (validate_artifact_id r.artifact_id) _ e in
    let (_, d, e2) = bind-eq-ok (validate_sha256 r.sha256) _ e1 in
    let (derived, n, e3) = bind-eq-ok (artifact_id_for_sha256 r.sha256) _ e2 in
    let (_, m, e4) = bind-eq-ok (require (r.artifact_id == derived) core_contract) _ e3 in
    let (_, f, e5) = bind-eq-ok (refuse (is_blank h r.media_type) core_contract) _ e4 in
    let (_, k, e6) = bind-eq-ok (refuse (has_control r.media_type) core_contract) _ e5 in
    let (_, s, e7) = bind-eq-ok (check_optional validate_identifier r.schema_name) _ e6 in
    let (_, v, e8) = bind-eq-ok (check_optional validate_identifier r.schema_version) _ e7 in
    let (time, t, e9) = bind-eq-ok (normalize_timestamp h r.stored_at) _ e8 in
    let whole : c ≡ record r { stored_at = time } = sym (ok-injective e9) in
    let same : r.artifact_id ≡ derived = (eq_iff r.artifact_id derived).0 (require-eq-ok _ _ m) in
    rw whole (
      record {
        identity = Keeps-ok (validate_artifact_id-Keeps r.artifact_id) i;
        digest = Keeps-ok (validate_sha256-Keeps r.sha256) d;
        named = n ∙ ap ok (sym same);
        filled = refuse-eq-ok _ _ f;
        clean = refuse-eq-ok _ _ k;
        schema = s;
        version = v;
        time = normalize_timestamp_idem h laws r.stored_at time t;
      },
      record {
        same_id = refl;
        same_sha256 = refl;
        same_media = refl;
        same_schema = refl;
        same_version = refl;
        same_size = refl;
      },
    )

pub post_init_again : (h : Host) (c : ArtifactRecord) → Checked h c → post_init h c ≡ ok c
unfolding post_init
post_init_again h c k = simp (
  k.identity,
  k.digest,
  k.named,
  (eq_iff c.artifact_id c.artifact_id).1 refl,
  k.filled,
  k.clean,
  k.schema,
  k.version,
  k.time,
)

pub from_dict-Checked :
    (h : Host) (laws : IsoLaws h) (v : Json) (r : ArtifactRecord)
    → from_dict h v ≡ ok r
    → Checked h r
unfolding from_dict
from_dict-Checked h laws (obj fs) r e =
    let made = rethrow-eq-ok _ artifact_integrity e in
    let (raw, _, e1) = bind-eq-ok (record_of_fields h fs) (post_init h) made in
    (post_init-Checked h laws raw r e1).0
from_dict-Checked h laws null r e = cc
from_dict-Checked h laws (bool _) r e = cc
from_dict-Checked h laws (int _ _) r e = cc
from_dict-Checked h laws (float _ _) r e = cc
from_dict-Checked h laws (str _) r e = cc
from_dict-Checked h laws (lst _) r e = cc
from_dict-Checked h laws (tup _) r e = cc
from_dict-Checked h laws opaque r e = cc

record_of_fields-to_dict : (h : Host) (r : ArtifactRecord) → record_of_fields h (to_dict r) ≡ ok r
unfolding record_of_fields to_dict
record_of_fields-to_dict h r = simp some_text-optional

-- A checked record is read back from its dictionary as it was, given the laws of ISO dates.
pub record_from_dict-to_dict :
    (h : Host) (laws : IsoLaws h) (r c : ArtifactRecord)
    → post_init h r ≡ ok c
    → from_dict h (obj (to_dict c)) ≡ ok c
unfolding from_dict
record_from_dict-to_dict h laws r c e =
    rw (record_of_fields-to_dict h c, post_init_again h c (post_init-Checked h laws r c e).0)
