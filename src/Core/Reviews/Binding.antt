-- ===== src/Core/Reviews/Binding.antt =====
-- core/reviews.py: which artifacts a checked review matches, and a review that names no reviewer.
use molly.Prelude.{
  String, ◌≡◌, refl, true, false, ◌&&◌, none, ◌==◌, ◌↔◌, arith, ok, sym, ap, ◌∙◌, bind-eq-ok,
  ok-injective, require-eq-ok, rethrow-eq-ok, review_error, eq_iff, review_binding, Bool,
}
use molly.Core.Json.{Fields, obj, get, null, field, str}
use molly.Core.Host.{Host}
use molly.Core.Ids.{artifact_id_for_sha256}
use molly.Core.Ids.Laws.{IsoLaws}
use molly.Core.Artifacts
use molly.Core.Artifacts.{ArtifactRecord, has_control, is_blank}
use molly.Core.Artifacts.Records
use molly.Core.Reviews.{
  ReviewRecord, post_init, review_of_fields, from_dict, stored, matches, assert_matches,
}
use molly.Core.Reviews.Codec.{DecisionWords, post_init-Checked}

both_true : (a b : Bool) → (a && b) ≡ true → (a ≡ true) × (b ≡ true)
both_true true b e = (refl, e)
both_true false b e = absurd (cc e)

-- Given the laws of ISO dates and of the decisions, a checked review passes `assert_matches` for a
-- checked artifact record exactly when the two carry the same digest.
pub assert_matches_iff :
    (h : Host) (laws : IsoLaws h) (words : DecisionWords h) (r c : ReviewRecord)
    (b a : ArtifactRecord)
    → post_init h r ≡ ok c
    → Artifacts.post_init h b ≡ ok a
    → (assert_matches c (stored a) ≡ ok tt) ↔ (c.artifact_sha256 ≡ a.sha256)
unfolding assert_matches matches
assert_matches_iff h laws words r c b a p q =
    let review = post_init-Checked h laws words r c p in
    let artifact = (Records.post_init-Checked h laws b a q).0 in
    (
      λ e.
          (eq_iff c.artifact_sha256 a.sha256).0
            (both_true (c.artifact_id == a.artifact_id) (c.artifact_sha256 == a.sha256)
              (require-eq-ok _ review_binding e)).1,
      λ same.
          let ids : c.artifact_id ≡ a.artifact_id =
            ok-injective (sym review.bound ∙ ap artifact_id_for_sha256 same ∙ artifact.named) in
          rw
            ((eq_iff c.artifact_id a.artifact_id).1 ids, (eq_iff c.artifact_sha256 a.sha256).1 same)
            refl,
    )

unnamed_fields :
    (h : Host) (value : Fields) (name : String) (raw : ReviewRecord)
    → get "reviewer" value ≡ none
    → get "reviewer_ref" value ≡ none
    → review_of_fields h (field "reviewer" (str name) value) ≡ ok raw
    → review_of_fields h value ≡ ok (record raw { reviewer = h.str_of null })
unfolding review_of_fields
unnamed_fields h value name raw n n' e = ground (arith, n, n')

renamed_review :
    (h : Host) (name : String) (raw r : ReviewRecord)
    → is_blank h name ≡ false
    → has_control name ≡ false
    → post_init h raw ≡ ok r
    → post_init h (record raw { reviewer = name }) ≡ ok (record r { reviewer = name })
unfolding post_init
renamed_review h name raw r visible clean e = ground (arith, visible, clean)

-- If a dictionary without a reviewer under either key would be read with some reviewer added to it,
-- and the text of None is neither blank nor has a control character, then the dictionary is read as
-- it is, as the same review by the text of None.
pub from_dict_unnamed :
    (h : Host) (value : Fields) (name : String) (r : ReviewRecord)
    → get "reviewer" value ≡ none
    → get "reviewer_ref" value ≡ none
    → is_blank h (h.str_of null) ≡ false
    → has_control (h.str_of null) ≡ false
    → from_dict h (obj (field "reviewer" (str name) value)) ≡ ok r
    → from_dict h (obj value) ≡ ok (record r { reviewer = h.str_of null })
unfolding from_dict
from_dict_unnamed h value name r n n' visible clean e =
    let made = rethrow-eq-ok _ review_error e in
    let (raw, f, e1) =
      bind-eq-ok (review_of_fields h (field "reviewer" (str name) value)) (post_init h) made in
    rw (unnamed_fields h value name raw n n' f)
      (rw (renamed_review h (h.str_of null) raw r visible clean e1) refl)
