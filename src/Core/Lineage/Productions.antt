-- ===== src/Core/Lineage/Productions.antt =====
-- core/lineage.py: `record_production`, and what the questions about the artifact then answer.
use molly.Prelude.{
  ℕ, ◌+◌, String, ◌≡◌, refl, Option, some, List, [], ◌∷◌, ◌++◌, append_assoc, append-nil, Result,
  ok, sym, ap, ◌∙◌, ok-injective, Keeps-ok,
}
use mathlib.Core.Path.{subst}
use molly.Prelude.Actions.{lift, for_each, >>=-Sequence}
use molly.Core.Json.{Fields}
use molly.Core.Host.{Host}
use molly.Core.Ids.{validate_artifact_id, validate_artifact_ids, validate_identifier}
use molly.Core.Ids.Laws.{IsoLaws, validate_artifact_ids-Keeps}
use molly.Core.Lineage.{
  LineageRelation, RelationType, produced_by, derived_from, member, text, relation_text,
  relation_value,
}
use molly.Core.Lineage.Codec.{RelationWords, relation_value_member}
use molly.Core.Lineage.Sealing.{prepare-Seals}
use molly.Core.Lineage.Graph.{
  memory, Lineage, Outside, Addition, or_default, candidate, add_relation, register_artifact,
  register_step,
}
use molly.Core.Lineage.Methods.{occurrence, add_derived, know_production, record_production}
use molly.Core.Lineage.Publishing.{candidate-FromArguments, candidate-IsCandidate}
use molly.Core.Lineage.Keeping.{
  KeepsRelations, >>=-KeepsRelations, lift-KeepsRelations, register_artifact-KeepsRelations,
  register_step-KeepsRelations, for_each-KeepsRelations,
}
use molly.Core.Lineage.Memory.{add_relation-Kept}

-- The facts that one relation of a production tells.
pub record Tells (t : RelationType) (subject target : String) (r : LineageRelation) : Type 0 where
  pub kind : r.relation_type ≡ relation_text t
  pub about : r.subject_id ≡ subject
  pub names : r.object_id ≡ target

candidate-Tells :
    (h : Host) (words : RelationWords h) (o : Outside) (t : RelationType) (a : Addition)
    (l : Lineage) (c : LineageRelation)
    → a.relation ≡ member t
    → candidate h o a l.known ≡ ok c
    → Tells t a.subject_id a.object_id c
unfolding relation_value
candidate-Tells h words o t a l c m e =
    let f = candidate-FromArguments h o a l.known c e in
    let same : relation_text t ≡ f.kind = ok-injective (ap (relation_value h) (sym m) ∙ f.named) in
    record {
      kind = ok-injective (
          sym f.value
          ∙ ap (λ (s : String). relation_value h (text s)) (sym same)
          ∙ relation_value_member h words t);
      about = f.about;
      names = f.names;
    }

-- One relation of a production, added to a lineage in memory.
record Added (h : Host) (o : Outside) (a : Addition) (t : RelationType) (l : Lineage)
    (rs : List LineageRelation) (r : LineageRelation) : Type 0 where
  after : (add_relation h o a l).1.backing ≡ memory (rs ++ r ∷ [])
  tells : Tells t a.subject_id a.object_id r

-- The relations of the inputs, in order.
abbrev pub Derives : String → List String → List LineageRelation → Type 0
Derives artifact [] [] = Unit
Derives artifact [] (d ∷ ds) = ⊥
Derives artifact (i ∷ is) [] = ⊥
Derives artifact (i ∷ is) (d ∷ ds) = Tells derived_from artifact i d × Derives artifact is ds

module _ (h : Host) (laws : IsoLaws h) (words : RelationWords h) where
  add_relation-Added :
      (o : Outside) (t : RelationType) (a : Addition) (l : Lineage) (rs : List LineageRelation)
      (r : LineageRelation)
      → a.relation ≡ member t
      → l.backing ≡ memory rs
      → (add_relation h o a l).0 ≡ ok r
      → Added h o a t l rs r
  add_relation-Added o t a l rs r n m e =
      let k = add_relation-Kept h o a l rs r m e in
      let c = k.proposed in
      let told = candidate-Tells h words o t a l c n k.accepted in
      let i = candidate-IsCandidate h laws words o a l.known c k.accepted in
      let s = prepare-Seals h laws words c rs r i.checked i.unsealed k.sealed in
      record {
        after = ap (λ (p : Result LineageRelation × Lineage). p.1.backing) k.after;
        tells = record {
          kind = ap (λ (p : LineageRelation). p.relation_type) s.shape ∙ told.kind;
          about = ap (λ (p : LineageRelation). p.subject_id) s.shape ∙ told.about;
          names = ap (λ (p : LineageRelation). p.object_id) s.shape ∙ told.names;
        };
      }

  -- What `add_derived` adds.
  record AddsDerived (artifact : String) (inputs : List String) (l after : Lineage)
      (rs ds : List LineageRelation) : Type 0 where
    appended : after.backing ≡ memory (rs ++ ds)
    derives : Derives artifact inputs ds

  add_derived-AddsDerived :
      (o : ℕ → Outside) (n : ℕ) (artifact : String) (time : Option String)
      (metadata : Option Fields) (inputs : List String) (l : Lineage) (rs ds : List LineageRelation)
      → l.backing ≡ memory rs
      → (add_derived h o n artifact time metadata inputs l).0 ≡ ok ds
      → AddsDerived artifact inputs l (add_derived h o n artifact time metadata inputs l).1 rs ds
  unfolding add_derived
  add_derived-AddsDerived o n artifact time metadata [] l rs ds m e =
      let none_there : ds ≡ [] = sym (ok-injective e) in
      rw none_there (record { appended = m ∙ ap memory (sym (append-nil rs)); derives = tt })
  add_derived-AddsDerived o n artifact time metadata (i ∷ is) l rs ds m e =
      let a = occurrence derived_from artifact i time metadata in
      let first = >>=-Sequence (add_relation h (o n) a) _ l ds e in
      let d = first.first in
      let added = add_relation-Added (o n) derived_from a l rs d refl m first.begins in
      let l' = (add_relation h (o n) a l).1 in
      let rest =
        >>=-Sequence (add_derived h o (n + 1) artifact time metadata is) _ l' ds first.ends in
      let later =
        add_derived-AddsDerived o (n + 1) artifact time metadata is l' (rs ++ d ∷ []) rest.first
          added.after rest.begins in
      let whole : ds ≡ d ∷ rest.first = sym (ok-injective rest.ends) in
      rw whole (record {
        appended =
            ap (λ (t : Lineage). t.backing) (first.reaches ∙ rest.reaches)
            ∙ later.appended
            ∙ ap memory (append_assoc rs (d ∷ []) rest.first);
        derives = (added.tells, later.derives);
      })

  -- What a successful `record_production` has added to a lineage in memory.
  pub record Produces (artifact step : String) (inputs : List String) (after : Lineage)
      (rs told : List LineageRelation) : Type 0 where
    pub head : LineageRelation
    pub rest : List LineageRelation
    pub whole : told ≡ head ∷ rest
    pub appended : after.backing ≡ memory (rs ++ told)
    pub produced : Tells produced_by artifact step head
    pub derived : Derives artifact inputs rest

  know_production-inputs :
      (artifact step : String) (inputs ids : List String) (l : Lineage)
      → (know_production h artifact step inputs l).0 ≡ ok ids
      → ids ≡ inputs
  unfolding know_production
  know_production-inputs artifact step inputs ids l e =
      let s1 = >>=-Sequence (lift (validate_artifact_id artifact)) _ l ids e in
      let s2 = >>=-Sequence (lift (validate_identifier step)) _ l ids s1.ends in
      let s3 = >>=-Sequence (lift (validate_artifact_ids inputs)) _ l ids s2.ends in
      let s4 = >>=-Sequence (register_artifact h artifact) _ l ids s3.ends in
      let s5 = >>=-Sequence (register_step h step) _ _ ids s4.ends in
      let s6 = >>=-Sequence (for_each _ s3.first) _ _ ids s5.ends in
      let same = Keeps-ok (validate_artifact_ids-Keeps inputs) s3.begins in
      ok-injective (sym s6.ends ∙ sym s3.begins ∙ same)

  know_production-KeepsRelations :
      (artifact step : String) (inputs : List String)
      → KeepsRelations (know_production h artifact step inputs)
  unfolding know_production
  know_production-KeepsRelations artifact step inputs =
      search
        (
          >>=-KeepsRelations,
          lift-KeepsRelations,
          register_artifact-KeepsRelations h,
          register_step-KeepsRelations h,
          for_each-KeepsRelations,
        )
        depth 12

  pub record_production-Produces :
      (o : ℕ → Outside) (artifact step : String) (inputs : List String) (metadata : Option Fields)
      (created_at : Option String) (l : Lineage) (rs told : List LineageRelation)
      → l.backing ≡ memory rs
      → (record_production h o artifact step inputs metadata created_at l).0 ≡ ok told
      → Produces artifact step inputs
          (record_production h o artifact step inputs metadata created_at l).1
          rs
          told
  unfolding record_production
  record_production-Produces o artifact step inputs metadata created_at l rs told m e =
      let time = some (or_default created_at (o 0).now) in
      let a = occurrence produced_by artifact step time metadata in
      let s1 = >>=-Sequence (know_production h artifact step inputs) _ l told e in
      let l1 = (know_production h artifact step inputs l).1 in
      let m1 = (know_production-KeepsRelations artifact step inputs).at l rs m in
      let s2 = >>=-Sequence (add_relation h (o 0) a) _ l1 told s1.ends in
      let added = add_relation-Added (o 0) produced_by a l1 rs s2.first refl m1 s2.begins in
      let l2 = (add_relation h (o 0) a l1).1 in
      let s3 = >>=-Sequence (add_derived h o 1 artifact time metadata s1.first) _ l2 told s2.ends in
      let later =
        add_derived-AddsDerived o 1 artifact time metadata s1.first l2 (rs ++ s2.first ∷ [])
          s3.first added.after s3.begins in
      let whole : told ≡ s2.first ∷ s3.first = sym (ok-injective s3.ends) in
      record {
        head = s2.first;
        rest = s3.first;
        whole = whole;
        appended =
            ap (λ (t : Lineage). t.backing) (s1.reaches ∙ s2.reaches ∙ s3.reaches)
            ∙ later.appended
            ∙ ap memory (append_assoc rs (s2.first ∷ []) s3.first)
            ∙ ap (λ (t : List LineageRelation). memory (rs ++ t)) (sym whole);
        produced = added.tells;
        derived =
            subst (λ (t : List String). Derives artifact t s3.first)
              (know_production-inputs artifact step inputs s1.first l s1.begins) later.derives;
      }
