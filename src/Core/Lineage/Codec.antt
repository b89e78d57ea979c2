-- ===== src/Core/Lineage/Codec.antt =====
-- core/lineage.py: a checked and sealed relation, its dictionary and `from_dict`.
use molly.Prelude.{
  String, ◌≡◌, refl, true, inl, inr, Option, some, ◌==◌, arith, ok, eq_refl, eq_iff, Bool-cases,
  rethrow, lineage_error, bind-eq-ok, rethrow-eq-ok, Keeps-ok, ok-injective, sym, ap, ◌∙◌, refl,
}
use molly.Core.Json.{obj}
use molly.Core.Host.{Host}
use molly.Core.Freeze.{freeze_json_mapping, freeze-thaw, freeze-frozen, thaw_fields}
use molly.Core.Ids.{validate_identifier, validate_reference, normalize_timestamp, validate_sha256}
use molly.Core.Ids.Laws.{
  validate_identifier-Keeps, validate_reference-Keeps, normalize_timestamp_idem, IsoLaws,
}
use molly.Core.Values.{dict_of, some_text-optional}
use molly.Core.Ledger.{check_optional}
use molly.Core.Lineage.{
  RelationType, relation_text, consumed_by, produced_by, derived_from, supported_by, text,
  LineageRelation, relation_value, is_relation_type, post_init, to_dict, relation_of_fields,
  check_sealed, computed_sha256, from_dict,
}

-- `"CONSUMED_BY".strip().upper()` and the like are those words.
pub record RelationWords (h : Host) : Type 0 where
  pub word : (t : RelationType) → h.upper (h.strip (relation_text t)) ≡ relation_text t

word_again :
    (h : Host) (words : RelationWords h) (v : String)
    → is_relation_type v ≡ true
    → h.upper (h.strip v) ≡ v
word_again h words v e = elim (Bool-cases (relation_text consumed_by == v)) [
  | inl c ↦ rw (← (eq_iff (relation_text consumed_by) v).0 c) (words.word consumed_by)
  | inr nc ↦ elim (Bool-cases (relation_text produced_by == v)) [
    | inl p ↦ rw (← (eq_iff (relation_text produced_by) v).0 p) (words.word produced_by)
    | inr np ↦ elim (Bool-cases (relation_text derived_from == v)) [
      | inl d ↦ rw (← (eq_iff (relation_text derived_from) v).0 d) (words.word derived_from)
      | inr nd ↦
          rw (← (eq_iff (relation_text supported_by) v).0 (ground (arith, e, nc, np, nd)))
            (words.word supported_by)
    ]
  ]
]

pub relation_value_idem :
    (h : Host) (words : RelationWords h) (v k : String)
    → relation_value h (text v) ≡ ok k
    → relation_value h (text k) ≡ ok k
unfolding relation_value
relation_value_idem h words v k e = elim (Bool-cases (is_relation_type (h.upper (h.strip v)))) [
  | inl known ↦
      let same : h.upper (h.strip v) ≡ k = ground (arith, e, known) in
      let known' : is_relation_type k ≡ true = rw same at known in
      rw (word_again h words k known', known')
  | inr other ↦ absurd (ground (arith, e, other))
]

pub relation_value_member :
    (h : Host) (words : RelationWords h) (t : RelationType)
    → relation_value h (text (relation_text t)) ≡ ok (relation_text t)
unfolding relation_value
relation_value_member h words consumed_by = rw (words.word consumed_by) refl
relation_value_member h words produced_by = rw (words.word produced_by) refl
relation_value_member h words derived_from = rw (words.word derived_from) refl
relation_value_member h words supported_by = rw (words.word supported_by) refl

-- A relation that its constructor has checked: every check holds of its own fields.
pub record Checked (h : Host) (c : LineageRelation) : Type 0 where
  pub kind : relation_value h (text c.relation_type) ≡ ok c.relation_type
  pub identity : validate_identifier c.relation_id ≡ ok c.relation_id
  pub subject : validate_reference h c.subject_id ≡ ok c.subject_id
  pub target : validate_reference h c.object_id ≡ ok c.object_id
  pub time : normalize_timestamp h c.created_at ≡ ok c.created_at
  pub facts : freeze_json_mapping h c.metadata ≡ ok c.metadata
  pub thaws : freeze_json_mapping h (thaw_fields c.metadata) ≡ ok c.metadata
  pub previous : check_optional validate_sha256 c.previous_relation_sha256 ≡ ok tt
  pub digest : check_optional validate_sha256 c.relation_sha256 ≡ ok tt

pub post_init-Checked :
    (h : Host) (laws : IsoLaws h) (words : RelationWords h) (r c : LineageRelation)
    → post_init h r ≡ ok c
    → Checked h c
unfolding post_init
post_init-Checked h laws words r c e =
    let (kind, k, e1) = bind-eq-ok (relation_value h (text r.relation_type)) _ e in
    let (_, i, e2) = bind-eq-ok (validate_identifier r.relation_id) _ e1 in
    let (_, s, e3) = bind-eq-ok (validate_reference h r.subject_id) _ e2 in
    let (_, o, e4) = bind-eq-ok (validate_reference h r.object_id) _ e3 in
    let (time, t, e5) = bind-eq-ok (normalize_timestamp h r.created_at) _ e4 in
    let (facts, f, e6) = bind-eq-ok (freeze_json_mapping h r.metadata) _ e5 in
    let check = check_optional validate_sha256 in
    let (_, p, e7) = bind-eq-ok (rethrow (check r.previous_relation_sha256) lineage_error) _ e6 in
    let (_, d, e8) = bind-eq-ok (rethrow (check r.relation_sha256) lineage_error) _ e7 in
    let whole : c ≡ record r { relation_type = kind; created_at = time; metadata = facts } =
      sym (ok-injective e8) in
    rw whole (record {
      kind = relation_value_idem h words r.relation_type kind k;
      identity = Keeps-ok (validate_identifier-Keeps r.relation_id) i;
      subject = Keeps-ok (validate_reference-Keeps h r.subject_id) s;
      target = Keeps-ok (validate_reference-Keeps h r.object_id) o;
      time = normalize_timestamp_idem h laws r.created_at time t;
      facts = freeze-frozen h r.metadata facts f;
      thaws = freeze-thaw h r.metadata facts f;
      previous = rethrow-eq-ok _ _ p;
      digest = rethrow-eq-ok _ _ d;
    })

-- The constructor leaves the two identities and the two digests alone.
pub record SameEnds (r c : LineageRelation) : Type 0 where
  pub same_id : c.relation_id ≡ r.relation_id
  pub same_subject : c.subject_id ≡ r.subject_id
  pub same_object : c.object_id ≡ r.object_id
  pub same_previous : c.previous_relation_sha256 ≡ r.previous_relation_sha256
  pub same_digest : c.relation_sha256 ≡ r.relation_sha256

pub post_init-SameEnds : (h : Host) (r c : LineageRelation) → post_init h r ≡ ok c → SameEnds r c
unfolding post_init
post_init-SameEnds h r c e =
    let (kind, _, e1) = bind-eq-ok (relation_value h (text r.relation_type)) _ e in
    let (_, _, e2) = bind-eq-ok (validate_identifier r.relation_id) _ e1 in
    let (_, _, e3) = bind-eq-ok (validate_reference h r.subject_id) _ e2 in
    let (_, _, e4) = bind-eq-ok (validate_reference h r.object_id) _ e3 in
    let (time, _, e5) = bind-eq-ok (normalize_timestamp h r.created_at) _ e4 in
    let (facts, _, e6) = bind-eq-ok (freeze_json_mapping h r.metadata) _ e5 in
    let check = check_optional validate_sha256 in
    let (_, _, e7) = bind-eq-ok (rethrow (check r.previous_relation_sha256) lineage_error) _ e6 in
    let (_, _, e8) = bind-eq-ok (rethrow (check r.relation_sha256) lineage_error) _ e7 in
    let whole : c ≡ record r { relation_type = kind; created_at = time; metadata = facts } =
      sym (ok-injective e8) in
    rw whole (record {
      same_id = refl;
      same_subject = refl;
      same_object = refl;
      same_previous = refl;
      same_digest = refl;
    })

pub post_init-kind :
    (h : Host) (r c : LineageRelation)
    → post_init h r ≡ ok c
    → relation_value h (text r.relation_type) ≡ ok c.relation_type
unfolding post_init
post_init-kind h r c e =
    let (kind, k, e1) = bind-eq-ok (relation_value h (text r.relation_type)) _ e in
    let (_, _, e2) = bind-eq-ok (validate_identifier r.relation_id) _ e1 in
    let (_, _, e3) = bind-eq-ok (validate_reference h r.subject_id) _ e2 in
    let (_, _, e4) = bind-eq-ok (validate_reference h r.object_id) _ e3 in
    let (_, _, e5) = bind-eq-ok (normalize_timestamp h r.created_at) _ e4 in
    let (_, _, e6) = bind-eq-ok (freeze_json_mapping h r.metadata) _ e5 in
    let check = check_optional validate_sha256 in
    let (_, _, e7) = bind-eq-ok (rethrow (check r.previous_relation_sha256) lineage_error) _ e6 in
    let (_, _, e8) = bind-eq-ok (rethrow (check r.relation_sha256) lineage_error) _ e7 in
    k ∙ ap (λ (t : LineageRelation). ok t.relation_type) (ok-injective e8)

-- Checking a checked relation again changes nothing, with whatever valid digests in its two open
-- fields.
pub post_init_again :
    (h : Host) (c : LineageRelation) (previous digest : Option String)
    → Checked h c
    → check_optional validate_sha256 previous ≡ ok tt
    → check_optional validate_sha256 digest ≡ ok tt
    → post_init h (record c { previous_relation_sha256 = previous; relation_sha256 = digest })
      ≡ ok (record c { previous_relation_sha256 = previous; relation_sha256 = digest })
unfolding post_init
post_init_again h c previous digest k p d =
    simp (k.kind, k.identity, k.subject, k.target, k.time, k.facts, p, d)

abbrev thawed : LineageRelation → LineageRelation
thawed r = record r { metadata = thaw_fields r.metadata }

relation_of_fields-to_dict :
    (h : Host) (r : LineageRelation) → relation_of_fields h (to_dict r) ≡ ok (thawed r)
unfolding relation_of_fields to_dict dict_of
relation_of_fields-to_dict h r = simp some_text-optional

post_init-thawed : (h : Host) (c : LineageRelation) → Checked h c → post_init h (thawed c) ≡ ok c
unfolding post_init
post_init-thawed h c k =
    simp (k.kind, k.identity, k.subject, k.target, k.time, k.thaws, k.previous, k.digest)

check_sealed_lem :
    (h : Host) (r : LineageRelation) (d : String)
    → r.relation_sha256 ≡ some d
    → computed_sha256 h r ≡ ok d
    → check_sealed h r ≡ ok r
unfolding check_sealed
check_sealed_lem h r d q c = ground (arith, eq_refl d)

-- A checked relation that carries the digest of its body is read back from its dictionary as it was,
-- given the laws of ISO dates and that stripping and upper case leave the relation types alone.
pub relation_from_dict-to_dict :
    (h : Host) (laws : IsoLaws h) (words : RelationWords h) (r c : LineageRelation) (d : String)
    → post_init h r ≡ ok c
    → c.relation_sha256 ≡ some d
    → computed_sha256 h c ≡ ok d
    → from_dict h (obj (to_dict c)) ≡ ok c
unfolding from_dict
relation_from_dict-to_dict h laws words r c d p q s = ground (
  arith,
  relation_of_fields-to_dict h c,
  post_init-thawed h c (post_init-Checked h laws words r c p),
  check_sealed_lem h c d q s,
)
