-- ===== src/Core/Lineage/Repeats.antt =====
-- core/lineage.py: `add_relation_idempotent`, called again with the same arguments.
use molly.Prelude.{
  String, ◌≡◌, refl, true, inl, inr, none, some, List, [], ◌∷◌, ◌++◌, arith, Result, ok, sym, ap,
  ◌∙◌, bind-eq-ok, ok-injective, Result-cases, Option-cases,
}
use molly.Prelude.Actions.{◌>>=◌}
use molly.Core.Json.{Fields}
use molly.Core.Host.{Host}
use molly.Core.Equality.{equal_fields}
use molly.Core.Freeze.{freeze_json_mapping}
use molly.Core.Ids.{validate_identifier, validate_reference, normalize_timestamp}
use molly.Core.Ids.Laws.{IsoLaws}
use molly.Core.Lineage.{LineageRelation, relation_value}
use molly.Core.Lineage.File.{prepare, head_digest}
use molly.Core.Lineage.Codec.{RelationWords}
use molly.Core.Lineage.Sealing.{prepare-Seals}
use molly.Core.Lineage.Graph.{
  memory, Lineage, Outside, Addition, or_default, fields_or_empty, relations, add_relation,
}
use molly.Core.Lineage.Methods.{
  find_relation, same_facts, wanted, settle, repeat_of, add_relation_idempotent,
}
use molly.Core.Lineage.Wanted.{
  wanted-IsWanted, candidate-repeat, find_relation-snoc, same_facts-sealed,
}
use molly.Core.Lineage.Memory.{Kept, add_relation-Kept, relations-memory}

-- The second call, once the relation with the identity that is asked for tells the same facts.
idempotent_found :
    (h : Host) (o : Outside) (a : Addition) (id : String) (w r : LineageRelation) (l : Lineage)
    (rs : List LineageRelation)
    → wanted h o a id ≡ ok w
    → relations h l ≡ ok rs
    → find_relation id rs ≡ some r
    → same_facts h r w ≡ true
    → add_relation_idempotent h o a id l ≡ (ok r, l)
unfolding add_relation_idempotent ◌>>=◌ settle
idempotent_found h o a id w r l rs asked read found same = ground (arith, asked, read, found, same)

idempotent_absent :
    (h : Host) (o : Outside) (a : Addition) (id : String) (w : LineageRelation) (l : Lineage)
    (rs : List LineageRelation)
    → wanted h o a id ≡ ok w
    → relations h l ≡ ok rs
    → find_relation id rs ≡ none
    → add_relation_idempotent h o a id l ≡ add_relation h o (repeat_of w) l
unfolding add_relation_idempotent ◌>>=◌ settle
idempotent_absent h o a id w l rs asked read found = ground (arith, asked, read, found)

idempotent_clash :
    (h : Host) (o : Outside) (a : Addition) (id : String) (w x r : LineageRelation) (l : Lineage)
    (rs : List LineageRelation)
    → wanted h o a id ≡ ok w
    → relations h l ≡ ok rs
    → find_relation id rs ≡ some x
    → (add_relation_idempotent h o a id l).0 ≡ ok r
    → (x ≡ r) × (same_facts h x w ≡ true) × ((add_relation_idempotent h o a id l).1 ≡ l)
unfolding add_relation_idempotent ◌>>=◌ settle
idempotent_clash h o a id w x r l rs asked read found e = ground (arith, asked, read, found, e)

idempotent_wanted :
    (h : Host) (o : Outside) (a : Addition) (id : String) (r : LineageRelation) (l : Lineage)
    → (add_relation_idempotent h o a id l).0 ≡ ok r
    → (w : LineageRelation) × (wanted h o a id ≡ ok w)
unfolding add_relation_idempotent ◌>>=◌
idempotent_wanted h o a id r l e = elim (Result-cases (wanted h o a id)) [
  | inl asked ↦ asked
  | inr (x, q) ↦ absurd (ground (arith, e, q))
]

wanted-clock :
    (h : Host) (o o' : Outside) (a : Addition) (id : String)
    → or_default a.created_at o'.now ≡ or_default a.created_at o.now
    → wanted h o' a id ≡ wanted h o a id
unfolding wanted
wanted-clock h o o' a id e = simp e

wanted-metadata :
    (h : Host) (o : Outside) (a : Addition) (id : String) (w : LineageRelation)
    → wanted h o a id ≡ ok w
    → freeze_json_mapping h (fields_or_empty a.metadata) ≡ ok w.metadata
unfolding wanted
wanted-metadata h o a id w e =
    let (kind, _, e1) = bind-eq-ok (relation_value h a.relation) _ e in
    let (_, _, e2) = bind-eq-ok (validate_reference h a.subject_id) _ e1 in
    let (_, _, e3) = bind-eq-ok (validate_reference h a.object_id) _ e2 in
    let (_, _, e4) = bind-eq-ok (validate_identifier id) _ e3 in
    let (time, _, e5) = bind-eq-ok (normalize_timestamp h (or_default a.created_at o.now)) _ e4 in
    let (facts, f, e6) = bind-eq-ok (freeze_json_mapping h (fields_or_empty a.metadata)) _ e5 in
    f ∙ ap (λ (t : LineageRelation). ok t.metadata) (ok-injective e6)

-- The same call once more, after one that added its relation.
added_again :
    (h : Host) (laws : IsoLaws h) (words : RelationWords h) (o o' : Outside) (a : Addition)
    (id : String) (w r : LineageRelation) (l : Lineage) (rs : List LineageRelation)
    → wanted h o a id ≡ ok w
    → wanted h o' a id ≡ ok w
    → equal_fields h w.metadata w.metadata ≡ true
    → find_relation id rs ≡ none
    → Kept h o (repeat_of w) l rs r
    → add_relation_idempotent h o' a id (record l { backing = memory (rs ++ r ∷ []) })
      ≡ (ok r, record l { backing = memory (rs ++ r ∷ []) })
added_again h laws words o o' a id w r l rs asked asked' self absent k =
    let i = wanted-IsWanted h laws words o a id w asked in
    let same = candidate-repeat h laws o id w k.proposed l i k.accepted in
    let sealing =
      prepare-Seals h laws words w rs r i.checked i.unsealed
        (ap (λ (t : LineageRelation). prepare h t rs) (sym same) ∙ k.sealed) in
    let named : r.relation_id ≡ id =
      ap (λ (t : LineageRelation). t.relation_id) sealing.shape ∙ i.named in
    let tells : same_facts h r w ≡ true =
      ap (λ (t : LineageRelation). same_facts h t w) sealing.shape
      ∙ same_facts-sealed h w (head_digest rs) (some sealing.digest) self in
    idempotent_found h o' a id w r (record l { backing = memory (rs ++ r ∷ []) }) (rs ++ r ∷ [])
      asked' (relations-memory h _ (rs ++ r ∷ []) refl) (find_relation-snoc id rs r absent named)
      tells

-- In a lineage in memory, given the laws of ISO dates and of the names of the relation types: after
-- a successful `add_relation_idempotent`, the same call (if it names no time, with the clock at the
-- same time) answers the same relation and changes nothing. The frozen metadata has to be equal to
-- itself.
pub add_relation_idempotent_again :
    (h : Host) (laws : IsoLaws h) (words : RelationWords h) (o o' : Outside) (a : Addition)
    (id : String) (l : Lineage) (rs : List LineageRelation) (r : LineageRelation)
    → ((facts : Fields)
        → freeze_json_mapping h (fields_or_empty a.metadata) ≡ ok facts
        → equal_fields h facts facts ≡ true)
    → or_default a.created_at o'.now ≡ or_default a.created_at o.now
    → l.backing ≡ memory rs
    → (add_relation_idempotent h o a id l).0 ≡ ok r
    → add_relation_idempotent h o' a id (add_relation_idempotent h o a id l).1
      ≡ (ok r, (add_relation_idempotent h o a id l).1)
add_relation_idempotent_again h laws words o o' a id l rs r self clock m e =
    let (w, asked) = idempotent_wanted h o a id r l e in
    let asked' = wanted-clock h o o' a id clock ∙ asked in
    let read = relations-memory h l rs m in
    elim (Option-cases (find_relation id rs)) [
      | inr (x, found) ↦
          let (same, tells, unchanged) = idempotent_clash h o a id w x r l rs asked read found e in
          rw unchanged (
            idempotent_found h o' a id w r l rs asked' read (found ∙ ap some same)
              (ap (λ (t : LineageRelation). same_facts h t w) (sym same) ∙ tells))
      | inl absent ↦
          let first = idempotent_absent h o a id w l rs asked read absent in
          let k =
            add_relation-Kept h o (repeat_of w) l rs r m
              (ap (λ (t : Result LineageRelation × Lineage). t.0) (sym first) ∙ e) in
          rw (first, k.after)
            (added_again h laws words o o' a id w r l rs asked asked'
              (self w.metadata (wanted-metadata h o a id w asked)) absent k)
    ]
