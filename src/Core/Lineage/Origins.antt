-- ===== src/Core/Lineage/Origins.antt =====
-- core/lineage.py: the parents and the producer steps of an artifact after a production.
use mathlib.Core.List.{map-append}
use molly.Prelude.{
  ℕ, String, ◌≡◌, refl, false, Option, List, [], ◌∷◌, ◌++◌, ◌==◌, arith, keep, keep-append, map, ok,
  ap, ap₂, ◌∙◌, eq_refl,
}
use molly.Core.Json.{Fields}
use molly.Core.Host.{Host}
use molly.Core.Ids.Laws.{IsoLaws}
use molly.Core.Lineage.{LineageRelation, RelationType, produced_by, derived_from, relation_text}
use molly.Core.Lineage.Codec.{RelationWords}
use molly.Core.Lineage.Graph.{memory, Lineage, Outside, relations}
use molly.Core.Lineage.Methods.{record_production, objects_of, for_subject, parents, producer_steps}
use molly.Core.Lineage.Memory.{relations-memory}
use molly.Core.Lineage.Productions.{Tells, Derives, record_production-Produces}

-- The objects of the relations of one type and one subject.
abbrev objects : RelationType → String → List LineageRelation → List String
objects t subject rs =
    map (λ item. item.object_id)
      (keep (λ item. item.relation_type == relation_text t)
        (keep (λ item. item.subject_id == subject) rs))

objects-append :
    (t : RelationType) (s : String) (xs ys : List LineageRelation)
    → objects t s (xs ++ ys) ≡ objects t s xs ++ objects t s ys
objects-append t s xs ys = simp (keep-append, map-append)

objects-one :
    (t : RelationType) (s o : String) (r : LineageRelation) (rs : List LineageRelation)
    → Tells t s o r
    → objects t s (r ∷ rs) ≡ o ∷ objects t s rs
objects-one t s o r rs k = simp (k.kind, k.about, k.names, eq_refl s, eq_refl (relation_text t))

objects-other :
    (t t' : RelationType) (s o : String) (r : LineageRelation) (rs : List LineageRelation)
    → (relation_text t == relation_text t') ≡ false
    → Tells t s o r
    → objects t' s (r ∷ rs) ≡ objects t' s rs
objects-other t t' s o r rs apart k = simp (k.kind, k.about, eq_refl s, apart)

objects-Derives :
    (s : String) (inputs : List String) (ds : List LineageRelation)
    → Derives s inputs ds
    → (objects derived_from s ds ≡ inputs) × (objects produced_by s ds ≡ [])
objects-Derives s [] [] d = (refl, refl)
objects-Derives s [] (r ∷ rs) d = absurd d
objects-Derives s (i ∷ is) [] d = absurd d
objects-Derives s (i ∷ is) (r ∷ rs) d =
    let (parents_of, steps_of) = objects-Derives s is rs d.1 in
    (
      objects-one derived_from s i r rs d.0 ∙ ap (◌∷◌ i) parents_of,
      objects-other derived_from produced_by s i r rs refl d.0 ∙ steps_of,
    )

-- What a question answers, from the relations.
objects_of-before :
    (h : Host) (t : RelationType) (artifact : String) (l : Lineage) (rs : List LineageRelation)
    (ps : List String)
    → relations h l ≡ ok rs
    → objects_of h t artifact l ≡ ok ps
    → objects t artifact rs ≡ ps
unfolding objects_of for_subject
objects_of-before h t artifact l rs ps r e = ground (arith, r, e)

objects_of-after :
    (h : Host) (t : RelationType) (artifact : String) (l l' : Lineage)
    (rs rs' : List LineageRelation) (ps : List String)
    → relations h l ≡ ok rs
    → objects_of h t artifact l ≡ ok ps
    → relations h l' ≡ ok rs'
    → objects_of h t artifact l' ≡ ok (objects t artifact rs')
unfolding objects_of for_subject
objects_of-after h t artifact l l' rs rs' ps r e r' = ground (arith, r, e, r')

-- In a lineage in memory, given the laws of ISO dates and of the names of the relation types: after
-- a successful `record_production`, the parents of the artifact are those that it had and then the
-- inputs, in order, and its producer steps those that it had and then the step.
pub record_production-origins :
    (h : Host) (laws : IsoLaws h) (words : RelationWords h) (o : ℕ → Outside)
    (artifact step : String) (inputs : List String) (metadata : Option Fields)
    (created_at : Option String) (l : Lineage) (rs told : List LineageRelation)
    (ps ss : List String)
    → l.backing ≡ memory rs
    → parents h artifact l ≡ ok ps
    → producer_steps h artifact l ≡ ok ss
    → (record_production h o artifact step inputs metadata created_at l).0 ≡ ok told
    → (parents h artifact (record_production h o artifact step inputs metadata created_at l).1
        ≡ ok (ps ++ inputs))
      × (producer_steps h artifact
            (record_production h o artifact step inputs metadata created_at l).1
          ≡ ok (ss ++ step ∷ []))
unfolding parents producer_steps
record_production-origins h laws words o artifact step inputs metadata created_at l rs told ps ss m
      p s e =
    let after = (record_production h o artifact step inputs metadata created_at l).1 in
    let k =
      record_production-Produces h laws words o artifact step inputs metadata created_at l rs told m
        e in
    let r = relations-memory h l rs m in
    let r' = relations-memory h after (rs ++ told) k.appended in
    let (derived, none_produced) = objects-Derives artifact inputs k.rest k.derived in
    let one = k.produced in
    let parents_told : objects derived_from artifact told ≡ inputs =
      ap (objects derived_from artifact) k.whole
      ∙ objects-other produced_by derived_from artifact step k.head k.rest refl one
      ∙ derived in
    let steps_told : objects produced_by artifact told ≡ step ∷ [] =
      ap (objects produced_by artifact) k.whole
      ∙ objects-one produced_by artifact step k.head k.rest one
      ∙ ap (◌∷◌ step) none_produced in
    (
      objects_of-after h derived_from artifact l after rs (rs ++ told) ps r p r'
          ∙ ap ok (
              objects-append derived_from artifact rs told
              ∙ ap₂ ◌++◌ (objects_of-before h derived_from artifact l rs ps r p) parents_told),
      objects_of-after h produced_by artifact l after rs (rs ++ told) ss r s r'
          ∙ ap ok (
              objects-append produced_by artifact rs told
              ∙ ap₂ ◌++◌ (objects_of-before h produced_by artifact l rs ss r s) steps_told),
    )
