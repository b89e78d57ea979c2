-- ===== src/Core/Lineage/Wanted.antt =====
-- core/lineage.py: the relation that `add_relation_idempotent` asks for.
use molly.Prelude.{
  String, ◌≡◌, refl, true, false, inl, inr, Option, none, some, List, [], ◌∷◌, ◌++◌, ◌==◌, arith,
  eq_iff, eq_refl, ok, sym, ap, ◌∙◌, bind-eq-ok, ok-injective, Keeps-ok, Bool-cases,
}
use molly.Core.Host.{Host}
use molly.Core.Equality.{equal_fields}
use molly.Core.Freeze.{freeze_json_mapping, freeze-thaw, freeze-frozen}
use molly.Core.Ids.{validate_identifier, validate_reference, normalize_timestamp}
use molly.Core.Ids.Laws.{
  timestamp_filled, IsoLaws, validate_identifier-Keeps, validate_reference-Keeps,
  normalize_timestamp_idem,
}
use molly.Core.Lineage.{
  LineageRelation, relation_value, text, RelationName, member, relation_text, post_init,
}
use molly.Core.Lineage.File.{check_known}
use molly.Core.Lineage.Codec.{Checked, RelationWords, relation_value_idem, relation_value_member}
use molly.Core.Lineage.Sealing.{post_init_same}
use molly.Core.Lineage.Graph.{
  Lineage, Outside, Addition, or_default, fields_or_empty, candidate_of, candidate,
}
use molly.Core.Lineage.Methods.{find_relation, same_facts, wanted, repeat_of}

relation_value_again :
    (h : Host) (words : RelationWords h) (n : RelationName) (k : String)
    → relation_value h n ≡ ok k
    → relation_value h (text k) ≡ ok k
relation_value_again h words (member t) k e =
    let same : relation_text t ≡ k = ok-injective (unfold relation_value in e) in
    rw (sym same) (relation_value_member h words t)
relation_value_again h words (text v) k e = relation_value_idem h words v k e

-- What is asked for is a checked relation without digests.
pub record IsWanted (h : Host) (id : String) (w : LineageRelation) : Type 0 where
  pub checked : Checked h w
  pub named : w.relation_id ≡ id
  pub unlinked : w.previous_relation_sha256 ≡ none
  pub unsealed : w.relation_sha256 ≡ none

pub wanted-IsWanted :
    (h : Host) (laws : IsoLaws h) (words : RelationWords h) (o : Outside) (a : Addition)
    (id : String) (w : LineageRelation)
    → wanted h o a id ≡ ok w
    → IsWanted h id w
unfolding wanted
wanted-IsWanted h laws words o a id w e =
    let given = or_default a.created_at o.now in
    let (kind, k, e1) = bind-eq-ok (relation_value h a.relation) _ e in
    let (_, s, e2) = bind-eq-ok (validate_reference h a.subject_id) _ e1 in
    let (_, t, e3) = bind-eq-ok (validate_reference h a.object_id) _ e2 in
    let (_, i, e4) = bind-eq-ok (validate_identifier id) _ e3 in
    let (time, n, e5) = bind-eq-ok (normalize_timestamp h given) _ e4 in
    let (facts, f, e6) = bind-eq-ok (freeze_json_mapping h (fields_or_empty a.metadata)) _ e5 in
    let same = ok-injective e6 in
    rw (sym same) (record {
      checked = record {
        kind = relation_value_again h words a.relation kind k;
        identity = Keeps-ok (validate_identifier-Keeps id) i;
        subject = Keeps-ok (validate_reference-Keeps h a.subject_id) s;
        target = Keeps-ok (validate_reference-Keeps h a.object_id) t;
        time = normalize_timestamp_idem h laws given time n;
        facts = freeze-frozen h (fields_or_empty a.metadata) facts f;
        thaws = freeze-thaw h (fields_or_empty a.metadata) facts f;
        previous = refl;
        digest = refl;
      };
      named = refl;
      unlinked = refl;
      unsealed = refl;
    })

identifier_filled : (v : String) → validate_identifier v ≡ ok v → (v == "") ≡ false
unfolding validate_identifier
identifier_filled v e = elim (Bool-cases (v == "")) [
  | inl blank ↦
      let nothing : v ≡ "" = (eq_iff v "").0 blank in
      absurd (cc (ap validate_identifier (sym nothing) ∙ e))
  | inr filled ↦ filled
]

-- The candidate that `add_relation` makes of what is asked for is that relation itself.
abbrev without_digests : LineageRelation → LineageRelation
without_digests w = record w { previous_relation_sha256 = none; relation_sha256 = none }

candidate_of-repeat :
    (h : Host) (laws : IsoLaws h) (o : Outside) (id : String) (w : LineageRelation)
    → IsWanted h id w
    → candidate_of h o (repeat_of w) w.relation_type ≡ without_digests w
unfolding candidate_of
candidate_of-repeat h laws o id w i = simp (
  identifier_filled w.relation_id i.checked.identity,
  timestamp_filled h laws w.created_at i.checked.time,
)

without_digests-IsWanted :
    (h : Host) (id : String) (w : LineageRelation) → IsWanted h id w → without_digests w ≡ w
without_digests-IsWanted h id w i = λ j. record w {
  previous_relation_sha256 = sym i.unlinked j;
  relation_sha256 = sym i.unsealed j;
}

pub candidate-repeat :
    (h : Host) (laws : IsoLaws h) (o : Outside) (id : String) (w c : LineageRelation) (l : Lineage)
    → IsWanted h id w
    → candidate h o (repeat_of w) l.known ≡ ok c
    → c ≡ w
unfolding candidate
candidate-repeat h laws o id w c l i e =
    let (kind, k, e1) = bind-eq-ok (relation_value h (text w.relation_type)) _ e in
    let (_, _, e2) = bind-eq-ok (validate_reference h w.subject_id) _ e1 in
    let (_, _, e3) = bind-eq-ok (validate_reference h w.object_id) _ e2 in
    let (_, _, e4) = bind-eq-ok (check_known l.known w.subject_id w.object_id) _ e3 in
    let same : w.relation_type ≡ kind = ok-injective (sym i.checked.kind ∙ k) in
    let e5 =
      ap (post_init h) (sym (candidate_of-repeat h laws o id w i))
      ∙ ap (λ (t : String). post_init h (candidate_of h o (repeat_of w) t)) same
      ∙ e4 in
    post_init_same h w c none none i.checked e5 ∙ without_digests-IsWanted h id w i

pub find_relation-snoc :
    (id : String) (rs : List LineageRelation) (p : LineageRelation)
    → find_relation id rs ≡ none
    → p.relation_id ≡ id
    → find_relation id (rs ++ p ∷ []) ≡ some p
unfolding find_relation
find_relation-snoc id [] p e n = rw n (rw (eq_refl id) refl)
find_relation-snoc id (r ∷ rs) p e n = elim (Bool-cases (r.relation_id == id)) [
  | inl found ↦ absurd (ground (arith, e, found))
  | inr other ↦ rw other (find_relation-snoc id rs p (ground (arith, e, other)) n)
]

pub same_facts-sealed :
    (h : Host) (w : LineageRelation) (previous digest : Option String)
    → equal_fields h w.metadata w.metadata ≡ true
    → same_facts h (record w { previous_relation_sha256 = previous; relation_sha256 = digest }) w
      ≡ true
unfolding same_facts
same_facts-sealed h w previous digest e =
    rw (eq_refl w.relation_type, eq_refl w.subject_id, eq_refl w.object_id, eq_refl w.created_at, e)
