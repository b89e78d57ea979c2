-- ===== src/Core/Lineage/Memory.antt =====
-- core/lineage.py: what a successful `add_relation` has done to a lineage in memory.
use molly.Prelude.{
  ◌≡◌, inl, inr, List, [], ◌∷◌, ◌++◌, arith, Result, ok, err, Error, ap, ◌∙◌, Result-cases,
  ok-injective,
}
use molly.Core.Host.{Host}
use molly.Core.Ledger.File.{Disk}
use molly.Core.Lineage.{LineageRelation}
use molly.Core.Lineage.File.{Known, prepare}
use molly.Core.Lineage.Graph.{
  memory, Lineage, Outside, Addition, relations, candidate, publish, add_relation,
}
use molly.Core.Lineage.Publishing.{add_relation-published, add_relation-refused}

pub record Kept (h : Host) (o : Outside) (a : Addition) (l : Lineage) (rs : List LineageRelation)
    (r : LineageRelation) : Type 0 where
  pub proposed : LineageRelation
  pub accepted : candidate h o a l.known ≡ ok proposed
  pub sealed : prepare h proposed rs ≡ ok r
  pub after : add_relation h o a l ≡ (ok r, record l { backing = memory (rs ++ r ∷ []) })

pub relations-memory :
    (h : Host) (l : Lineage) (rs : List LineageRelation)
    → l.backing ≡ memory rs
    → relations h l ≡ ok rs
unfolding relations
relations-memory h l rs e = ground (arith, e)

-- Only a success answers a relation.
abbrev answer : Result LineageRelation × Lineage → Result LineageRelation
answer t = t.0

publish-memory :
    (h : Host) (d : Disk) (c : LineageRelation) (k : Known) (rs : List LineageRelation)
    (p : LineageRelation)
    → prepare h c rs ≡ ok p
    → publish h d c k (memory rs) ≡ (ok p, memory (rs ++ p ∷ []))
unfolding publish
publish-memory h d c k rs p e = rw (publish, e)

publish-memory_refused :
    (h : Host) (d : Disk) (c : LineageRelation) (k : Known) (rs : List LineageRelation) (x : Error)
    → prepare h c rs ≡ err x
    → publish h d c k (memory rs) ≡ (err x, memory rs)
unfolding publish
publish-memory_refused h d c k rs x e = rw (publish, e)

pub add_relation-Kept :
    (h : Host) (o : Outside) (a : Addition) (l : Lineage) (rs : List LineageRelation)
    (r : LineageRelation)
    → l.backing ≡ memory rs
    → (add_relation h o a l).0 ≡ ok r
    → Kept h o a l rs r
add_relation-Kept h o a l rs r m e = elim (Result-cases (candidate h o a l.known)) [
  | inr (x, q) ↦ absurd (cc (e, ap answer (add_relation-refused h o a l x q)))
  | inl (c, q) ↦ elim (Result-cases (prepare h c rs)) [
    | inr (x, s) ↦ absurd (
        cc (
          e,
          ap answer (
              add_relation-published h o a l c (err x) (memory rs) q (
                ap (publish h o.disk c l.known) m
                ∙ publish-memory_refused h o.disk c l.known rs x s)),
        ))
    | inl (p, s) ↦
        let done =
          add_relation-published h o a l c (ok p) (memory (rs ++ p ∷ [])) q
            (ap (publish h o.disk c l.known) m ∙ publish-memory h o.disk c l.known rs p s) in
        let same : p ≡ r = ok-injective (cc (e, ap answer done)) in
        record {
          proposed = c;
          accepted = q;
          sealed = s ∙ ap ok same;
          after =
              done
              ∙ ap (λ (t : LineageRelation). (ok t, record l { backing = memory (rs ++ t ∷ []) }))
                  same;
        }
  ]
]
