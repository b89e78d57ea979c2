-- ===== src/Core/Approvals/Codec.antt =====
-- core/approvals.py: a checked approval, its dictionary and `from_dict`.
use molly.Prelude.{
  String, ◌≡◌, refl, arith, ok, true, Bool-cases, inl, inr, ◌==◌, contains, eq_iff, [], ◌∷◌,
}
use molly.Core.Host.{Host}
use molly.Core.Ids.Laws.{
  validate_identifier-Keeps, validate_reference-Keeps, validate_digest_reference_idem,
  normalize_timestamp_idem, IsoLaws,
}
use molly.Core.Approvals.{
  ApprovalRecord, approved, rejected, post_init, to_dict, approval_of_fields, from_dict,
}

-- `"APPROVED".strip().upper()` and `"REJECTED".strip().upper()` are those words.
pub record WordLaws (h : Host) : Type 0 where
  pub approved_word : h.upper (h.strip approved) ≡ approved
  pub rejected_word : h.upper (h.strip rejected) ≡ rejected

decision_again :
    (h : Host) (words : WordLaws h) (d : String)
    → contains (approved ∷ rejected ∷ []) d ≡ true
    → h.upper (h.strip d) ≡ d
decision_again h words d e = elim (Bool-cases (approved == d)) [
  | inl yes_it ↦ rw (← (eq_iff approved d).0 yes_it) words.approved_word
  | inr other ↦ rw (← (eq_iff rejected d).0 (ground (arith, e, other))) words.rejected_word
]

approval_of_fields-to_dict :
    (h : Host) (a : ApprovalRecord) → approval_of_fields h (to_dict a) ≡ ok a
unfolding approval_of_fields to_dict
approval_of_fields-to_dict h a = refl

post_init_again :
    (h : Host) (laws : IsoLaws h) (words : WordLaws h) (r a : ApprovalRecord)
    → post_init h r ≡ ok a
    → post_init h a ≡ ok a
unfolding post_init
post_init_again h laws words r a e = ground (
  arith,
  validate_identifier-Keeps r.approval_id,
  validate_reference-Keeps h r.reviewer_ref,
  validate_digest_reference_idem r.tool_call_digest {w = a.tool_call_digest},
  normalize_timestamp_idem h laws r.created_at a.created_at,
  decision_again h words a.decision,
)

-- Given the laws of ISO dates, and that stripping and upper case leave the two decisions alone, an
-- approval that its constructor has checked is read back from its dictionary as it was.
pub approval_from_dict-to_dict :
    (h : Host) (laws : IsoLaws h) (words : WordLaws h) (r a : ApprovalRecord)
    → post_init h r ≡ ok a
    → from_dict h (to_dict a) ≡ ok a
unfolding from_dict
approval_from_dict-to_dict h laws words r a e =
    rw (approval_of_fields-to_dict h a, post_init_again h laws words r a e)
