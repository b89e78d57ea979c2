-- ===== src/Core/Validation/Codec.antt =====
-- core/validation.py: a checked result, its dictionary and `from_dict`.
use molly.Prelude.{
  String, ◌≡◌, refl, true, inl, inr, List, [], ◌∷◌, ◌++◌, contains, arith, Result, ok, sym, ap, ◌∙◌,
  bind-eq-ok, ok-injective, Keeps, Keeps-ok, Bool-cases, map_result,
}
use mathlib.Core.Path.{subst}
use molly.Core.Json.{obj}
use molly.Core.Host.{Host}
use molly.Core.Freeze.{freeze_json_mapping, freeze-thaw, thaw_fields}
use molly.Core.Ids.{
  validate_identifier, validate_reference, validate_artifact_ids, normalize_timestamp,
}
use molly.Core.Ids.Laws.{
  IsoLaws, validate_identifier-Keeps, validate_reference-Keeps, validate_artifact_ids-Keeps,
  normalize_timestamp_idem,
}
use molly.Core.Values.{tuple_of-strings, dict_of}
use molly.Core.Validation.{
  validation_scopes, validation_statuses, enum_value, ValidationResult, unique_references,
  checked_subjects, post_init, to_dict, result_of_fields, from_dict,
}

-- `"PASS".strip().upper()` and the like are those words.
pub record ValidationWords (h : Host) : Type 0 where
  pub word :
      (w : String)
      → contains (validation_scopes ++ validation_statuses) w ≡ true
      → h.upper (h.strip w) ≡ w

contains-left :
    (xs ys : List String) (v : String) → contains xs v ≡ true → contains (xs ++ ys) v ≡ true
contains-left [] ys v e = cc
contains-left (x ∷ xs) ys v e = ground (arith, e, contains-left xs ys v)

contains-right :
    (xs ys : List String) (v : String) → contains ys v ≡ true → contains (xs ++ ys) v ≡ true
contains-right [] ys v e = e
contains-right (x ∷ xs) ys v e = ground (arith, contains-right xs ys v e)

enum_value_idem :
    (h : Host) (allowed : List String) (v k : String)
    → ((w : String) → contains allowed w ≡ true → h.upper (h.strip w) ≡ w)
    → enum_value h allowed v ≡ ok k
    → enum_value h allowed k ≡ ok k
unfolding enum_value
enum_value_idem h allowed v k words e = elim (Bool-cases (contains allowed (h.upper (h.strip v)))) [
  | inl known ↦
      let same : h.upper (h.strip v) ≡ k = ground (arith, e, known) in
      let known' : contains allowed k ≡ true = rw same at known in rw (words k known', known') refl
  | inr other ↦ absurd (ground (arith, e, other))
]

references-Keeps : (h : Host) (vs : List String) → Keeps vs (map_result (validate_reference h) vs)
references-Keeps h [] = inl refl
references-Keeps h (v ∷ vs) = ground (arith, validate_reference-Keeps h v, references-Keeps h vs)

unique_references-Keeps : (h : Host) (vs : List String) → Keeps vs (unique_references h vs)
unfolding unique_references
unique_references-Keeps h vs = ground (arith, references-Keeps h vs)

-- What a validator returned is accepted by it again.
again :
    (f : List String → Result (List String)) (vs ws : List String)
    → Keeps vs (f vs)
    → f vs ≡ ok ws
    → f ws ≡ ok ws
again f vs ws k e =
    let same : vs ≡ ws = ok-injective (sym (Keeps-ok k e) ∙ e) in ap f (sym same) ∙ e

checked_subjects-Keeps : (h : Host) (vs : List String) → Keeps vs (checked_subjects h vs)
unfolding checked_subjects
checked_subjects-Keeps h vs = ground (arith, references-Keeps h vs)

-- Frozen metadata, as it is read back.
abbrev thawed : ValidationResult → ValidationResult
thawed r = record r { metadata = thaw_fields r.metadata }

result_of_fields-to_dict :
    (h : Host) (r : ValidationResult) → result_of_fields h (to_dict r) ≡ ok (thawed r)
unfolding result_of_fields to_dict dict_of
result_of_fields-to_dict h r = simp tuple_of-strings

-- A result that its constructor has checked.
record Checked (h : Host) (r : ValidationResult) : Type 0 where
  validator : validate_identifier r.validator_id ≡ ok r.validator_id
  version : validate_identifier r.validator_version ≡ ok r.validator_version
  scoped : enum_value h validation_scopes r.scope ≡ ok r.scope
  judged : enum_value h validation_statuses r.status ≡ ok r.status
  subjects : checked_subjects h r.subject_ids ≡ ok r.subject_ids
  evidence : validate_artifact_ids r.evidence_artifact_ids ≡ ok r.evidence_artifact_ids
  references : unique_references h r.source_references ≡ ok r.source_references
  time : normalize_timestamp h r.timestamp ≡ ok r.timestamp
  thaws : freeze_json_mapping h (thaw_fields r.metadata) ≡ ok r.metadata

post_init-Checked :
    (h : Host) (laws : IsoLaws h) (words : ValidationWords h) (r c : ValidationResult)
    → post_init h r ≡ ok c
    → Checked h c
unfolding post_init
post_init-Checked h laws words r c e =
    let (_, i, e1) = bind-eq-ok (validate_identifier r.validator_id) _ e in
    let (_, v, e2) = bind-eq-ok (validate_identifier r.validator_version) _ e1 in
    let (scope, s, e3) = bind-eq-ok (enum_value h validation_scopes r.scope) _ e2 in
    let (status, t, e4) = bind-eq-ok (enum_value h validation_statuses r.status) _ e3 in
    let (subjects, b, e5) = bind-eq-ok (checked_subjects h r.subject_ids) _ e4 in
    let (evidence, d, e6) = bind-eq-ok (validate_artifact_ids r.evidence_artifact_ids) _ e5 in
    let (references, f, e7) = bind-eq-ok (unique_references h r.source_references) _ e6 in
    let (time, n, e8) = bind-eq-ok (normalize_timestamp h r.timestamp) _ e7 in
    let (facts, m, e9) = bind-eq-ok (freeze_json_mapping h r.metadata) _ e8 in
    let left = contains-left validation_scopes validation_statuses in
    let right = contains-right validation_scopes validation_statuses in
    subst (Checked h) (ok-injective e9) (record {
      validator = Keeps-ok (validate_identifier-Keeps r.validator_id) i;
      version = Keeps-ok (validate_identifier-Keeps r.validator_version) v;
      scoped = enum_value_idem h validation_scopes r.scope scope (λ w k. words.word w (left w k)) s;
      judged =
          enum_value_idem h validation_statuses r.status status (λ w k. words.word w (right w k)) t;
      subjects =
          again (checked_subjects h) r.subject_ids subjects (checked_subjects-Keeps h r.subject_ids)
            b;
      evidence =
          again validate_artifact_ids r.evidence_artifact_ids evidence
            (validate_artifact_ids-Keeps r.evidence_artifact_ids) d;
      references =
          again (unique_references h) r.source_references references
            (unique_references-Keeps h r.source_references) f;
      time = normalize_timestamp_idem h laws r.timestamp time n;
      thaws = freeze-thaw h r.metadata facts m;
    })

post_init-thawed : (h : Host) (c : ValidationResult) → Checked h c → post_init h (thawed c) ≡ ok c
unfolding post_init
post_init-thawed h c k = simp (
  k.validator, k.version, k.scoped, k.judged, k.subjects, k.evidence, k.references, k.time, k.thaws,
)

-- Given the laws of ISO dates, and that stripping and upper case leave the words of the two
-- enumerations alone, a result that its constructor has checked is read back from its dictionary as
-- it was.
pub validation_from_dict-to_dict :
    (h : Host) (laws : IsoLaws h) (words : ValidationWords h) (r c : ValidationResult)
    → post_init h r ≡ ok c
    → from_dict h (obj (to_dict c)) ≡ ok c
unfolding from_dict
validation_from_dict-to_dict h laws words r c e =
    rw (result_of_fields-to_dict h c, post_init-thawed h c (post_init-Checked h laws words r c e))
      refl
