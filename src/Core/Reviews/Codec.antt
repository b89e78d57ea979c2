-- ===== src/Core/Reviews/Codec.antt =====
-- core/reviews.py: a checked review, its dictionary and `from_dict`.
use molly.Prelude.{
  String, ◌≡◌, refl, true, false, inl, inr, ◌==◌, arith, ok, sym, ap, ◌∙◌, bind-eq-ok, ok-injective,
  require, require-eq-ok, refuse, refuse-eq-ok, review_error, eq_iff, Bool-cases, Keeps-ok,
}
use molly.Core.Json.{obj}
use molly.Core.Host.{Host}
use molly.Core.Ids.{
  validate_identifier, validate_artifact_id, validate_sha256, artifact_id_for_sha256,
  normalize_timestamp,
}
use molly.Core.Ids.Laws.{
  IsoLaws, validate_identifier-Keeps, validate_artifact_id-Keeps, validate_sha256-Keeps,
  normalize_timestamp_idem,
}
use molly.Core.Artifacts.{has_control, is_blank}
use molly.Core.Reviews.{
  ReviewDecision, decision_text, approved, rejected, needs_revision, is_review_decision,
  decision_value, ReviewRecord, post_init, to_dict, review_of_fields, from_dict,
}

-- `"APPROVED".strip().upper()` and the like are those words.
pub record DecisionWords (h : Host) : Type 0 where
  pub word : (d : ReviewDecision) → h.upper (h.strip (decision_text d)) ≡ decision_text d

word_again :
    (h : Host) (words : DecisionWords h) (v : String)
    → is_review_decision v ≡ true
    → h.upper (h.strip v) ≡ v
word_again h words v e = elim (Bool-cases (decision_text approved == v)) [
  | inl a ↦ rw (← (eq_iff (decision_text approved) v).0 a) (words.word approved)
  | inr na ↦ elim (Bool-cases (decision_text rejected == v)) [
    | inl r ↦ rw (← (eq_iff (decision_text rejected) v).0 r) (words.word rejected)
    | inr nr ↦
        rw (← (eq_iff (decision_text needs_revision) v).0 (ground (arith, e, na, nr)))
          (words.word needs_revision)
  ]
]

decision_value_idem :
    (h : Host) (words : DecisionWords h) (v k : String)
    → decision_value h v ≡ ok k
    → decision_value h k ≡ ok k
unfolding decision_value
decision_value_idem h words v k e = elim (Bool-cases (is_review_decision (h.upper (h.strip v)))) [
  | inl known ↦
      let same : h.upper (h.strip v) ≡ k = ground (arith, e, known) in
      let known' : is_review_decision k ≡ true = rw same at known in
      rw (word_again h words k known', known')
  | inr other ↦ absurd (ground (arith, e, other))
]

-- A review that its constructor has checked.
pub record Checked (h : Host) (r : ReviewRecord) : Type 0 where
  pub identity : validate_identifier r.review_id ≡ ok r.review_id
  pub artifact : validate_artifact_id r.artifact_id ≡ ok r.artifact_id
  pub digest : validate_sha256 r.artifact_sha256 ≡ ok r.artifact_sha256
  pub bound : artifact_id_for_sha256 r.artifact_sha256 ≡ ok r.artifact_id
  pub decided : decision_value h r.decision ≡ ok r.decision
  pub filled : is_blank h r.reviewer ≡ false
  pub clean : has_control r.reviewer ≡ false
  pub version : validate_identifier r.review_schema_version ≡ ok r.review_schema_version
  pub time : normalize_timestamp h r.created_at ≡ ok r.created_at

pub post_init-Checked :
    (h : Host) (laws : IsoLaws h) (words : DecisionWords h) (r c : ReviewRecord)
    → post_init h r ≡ ok c
    → Checked h c
unfolding post_init
post_init-Checked h laws words r c e =
    let (_, i, e1) = bind-eq-ok (validate_identifier r.review_id) _ e in
    let (_, a, e2) = bind-eq-ok (validate_artifact_id r.artifact_id) _ e1 in
    let (_, d, e3) = bind-eq-ok (validate_sha256 r.artifact_sha256) _ e2 in
    let (derived, n, e4) = bind-eq-ok (artifact_id_for_sha256 r.artifact_sha256) _ e3 in
    let (_, m, e5) = bind-eq-ok (require (r.artifact_id == derived) review_error) _ e4 in
    let (decision, k, e6) = bind-eq-ok (decision_value h r.decision) _ e5 in
    let (_, f, e7) = bind-eq-ok (refuse (is_blank h r.reviewer) review_error) _ e6 in
    let (_, c1, e8) = bind-eq-ok (refuse (has_control r.reviewer) review_error) _ e7 in
    let (_, v, e9) = bind-eq-ok (validate_identifier r.review_schema_version) _ e8 in
    let (time, t, e10) = bind-eq-ok (normalize_timestamp h r.created_at) _ e9 in
    let whole : c ≡ record r { decision = decision; created_at = time } = sym (ok-injective e10) in
    let same : r.artifact_id ≡ derived = (eq_iff r.artifact_id derived).0 (require-eq-ok _ _ m) in
    rw whole (record {
      identity = Keeps-ok (validate_identifier-Keeps r.review_id) i;
      artifact = Keeps-ok (validate_artifact_id-Keeps r.artifact_id) a;
      digest = Keeps-ok (validate_sha256-Keeps r.artifact_sha256) d;
      bound = n ∙ ap ok (sym same);
      decided = decision_value_idem h words r.decision decision k;
      filled = refuse-eq-ok _ _ f;
      clean = refuse-eq-ok _ _ c1;
      version = Keeps-ok (validate_identifier-Keeps r.review_schema_version) v;
      time = normalize_timestamp_idem h laws r.created_at time t;
    })

post_init_again : (h : Host) (c : ReviewRecord) → Checked h c → post_init h c ≡ ok c
unfolding post_init
post_init_again h c k = simp (
  k.identity,
  k.artifact,
  k.digest,
  k.bound,
  (eq_iff c.artifact_id c.artifact_id).1 refl,
  k.decided,
  k.filled,
  k.clean,
  k.version,
  k.time,
)

review_of_fields-to_dict : (h : Host) (r : ReviewRecord) → review_of_fields h (to_dict r) ≡ ok r
unfolding review_of_fields to_dict
review_of_fields-to_dict h r = refl

-- Given the laws of ISO dates, and that stripping and upper case leave the three decisions alone, a
-- review that its constructor has checked is read back from its dictionary as it was.
pub review_from_dict-to_dict :
    (h : Host) (laws : IsoLaws h) (words : DecisionWords h) (r c : ReviewRecord)
    → post_init h r ≡ ok c
    → from_dict h (obj (to_dict c)) ≡ ok c
unfolding from_dict
review_from_dict-to_dict h laws words r c e =
    rw (review_of_fields-to_dict h c, post_init_again h c (post_init-Checked h laws words r c e))
