-- ===== src/Core/Lineage/Sealing.antt =====
-- core/lineage.py: what `add_relation` makes of its candidate before it keeps it or writes it.
use molly.Prelude.{
  String, ◌≡◌, refl, false, Option, none, some, List, ◌==◌, any, arith, ok, sym, ap, ◌∙◌,
  ok-injective, bind-eq-ok, rethrow, Result-cases, inl, inr, ℕ, refuse, refuse-eq-ok, lineage_error,
}
use molly.Core.Json.{Fields, obj, end, field, optional}
use molly.Core.Host.{Host}
use molly.Core.Freeze.{sensitive_key, freeze_fields, freeze_json}
use molly.Core.Dumps.{canonical_json_bytes, json_sha256}
use molly.Core.Ids.{validate_sha256}
use molly.Core.Ids.Laws.{IsoLaws}
use molly.Core.Ledger.{check_optional}
use molly.Core.Lineage.{LineageRelation, post_init, computed_sha256, body, to_dict, from_dict}
use molly.Core.Lineage.File.{prepare, head_digest}
use molly.Core.Lineage.Codec.{Checked, RelationWords, post_init-Checked, relation_from_dict-to_dict}

-- A checked relation with two other digests is left alone by the constructor.
pub post_init_same :
    (h : Host) (c p : LineageRelation) (previous digest : Option String)
    → Checked h c
    → post_init h (record c { previous_relation_sha256 = previous; relation_sha256 = digest })
      ≡ ok p
    → p ≡ record c { previous_relation_sha256 = previous; relation_sha256 = digest }
unfolding post_init
post_init_same h c p previous digest k e =
    let e' = simp (k.kind, k.identity, k.subject, k.target, k.time, k.facts) at e in
    let (_, _, e1) =
      bind-eq-ok (rethrow (check_optional validate_sha256 previous) lineage_error) _ e' in
    let (_, _, e2) =
      bind-eq-ok (rethrow (check_optional validate_sha256 digest) lineage_error) _ e1 in
    sym (ok-injective e2)

computed_sha256-sealed :
    (h : Host) (r : LineageRelation) (d : Option String)
    → computed_sha256 h (record r { relation_sha256 = d }) ≡ computed_sha256 h r
unfolding computed_sha256 body
computed_sha256-sealed h r d = refl

-- `p` is the sealed form of `c` behind the relations of `es`.
pub record Seals (h : Host) (c : LineageRelation) (es : List LineageRelation) (p : LineageRelation)
    : Type 0 where
  pub digest : String
  pub shape :
      p ≡ record c { previous_relation_sha256 = head_digest es; relation_sha256 = some digest }
  pub covers : computed_sha256 h p ≡ ok digest
  pub fresh : any (λ item. item.relation_id == p.relation_id) es ≡ false
  pub reads_back : from_dict h (obj (to_dict p)) ≡ ok p

pub prepare-Seals :
    (h : Host) (laws : IsoLaws h) (words : RelationWords h) (c : LineageRelation)
    (es : List LineageRelation) (p : LineageRelation)
    → Checked h c
    → c.relation_sha256 ≡ none
    → prepare h c es ≡ ok p
    → Seals h c es p
unfolding prepare
prepare-Seals h laws words c es p k unsealed q =
    let (_, apart, q1) =
      bind-eq-ok (refuse (any (λ item. item.relation_id == c.relation_id) es) lineage_error) _ q in
    let raw = record c { previous_relation_sha256 = head_digest es } in
    let (prepared, initial, q2) = bind-eq-ok (post_init h raw) _ q1 in
    let (d, computed, q3) = bind-eq-ok (computed_sha256 h prepared) _ q2 in
    let first : prepared ≡ raw =
      post_init_same h c prepared (head_digest es) c.relation_sha256 k initial in
    let second : p ≡ record prepared { relation_sha256 = some d } =
      post_init_same h prepared p prepared.previous_relation_sha256 (some d)
        (post_init-Checked h laws words raw prepared initial) q3 in
    let covers : computed_sha256 h p ≡ ok d =
      ap (computed_sha256 h) second ∙ computed_sha256-sealed h prepared (some d) ∙ computed in
    let shape =
      second ∙ ap (λ (t : LineageRelation). record t { relation_sha256 = some d }) first in
    record {
      digest = d;
      shape = shape;
      covers = covers;
      fresh = rw shape (refuse-eq-ok _ _ apart);
      reads_back =
          relation_from_dict-to_dict h laws words (record prepared { relation_sha256 = some d }) p d
            q3 (ap (λ (t : LineageRelation). t.relation_sha256) second) covers;
    }

abbrev append_fields : Fields → Fields → Fields
append_fields end gs = gs
append_fields (field k v fs) gs = field k v (append_fields fs gs)

freeze_fields-append :
    (h : Host) (fs gs fs' gs' : Fields)
    → freeze_fields h fs ≡ ok fs'
    → freeze_fields h gs ≡ ok gs'
    → freeze_fields h (append_fields fs gs) ≡ ok (append_fields fs' gs')
unfolding freeze_fields
freeze_fields-append h end gs fs' gs' e last = let none_there : fs' ≡ end = cc in rw none_there last
freeze_fields-append h (field k v fs) gs fs' gs' e last = elim (Result-cases (freeze_fields h fs)) [
  | inl (rest, r) ↦ ground (arith, e, r, freeze_fields-append h fs gs rest gs' r last)
  | inr (x, r) ↦ absurd (ground (arith, e, r))
]

-- `"relation_sha256"` is no name of a credential.
pub record FieldLaws (h : Host) : Type 0 where
  pub harmless : sensitive_key h "relation_sha256" ≡ false

to_dict-body :
    (r : LineageRelation)
    → to_dict r ≡ append_fields (body r) (field "relation_sha256" (optional r.relation_sha256) end)
unfolding to_dict body
to_dict-body r = refl

digest_field :
    (h : Host) (names : FieldLaws h) (d : Option String)
    → freeze_fields h (field "relation_sha256" (optional d) end)
      ≡ ok (field "relation_sha256" (optional d) end)
unfolding freeze_fields
digest_field h names none = rw names.harmless
digest_field h names (some d) = rw names.harmless

canonical-ok :
    (h : Host) (fs gs : Fields)
    → freeze_fields h fs ≡ ok gs
    → (bytes : List ℕ) × (canonical_json_bytes h (obj fs) ≡ ok bytes)
unfolding canonical_json_bytes freeze_json
canonical-ok h fs gs e = elim (Result-cases (canonical_json_bytes h (obj fs))) [
  | inl found ↦ found
  | inr (x, r) ↦ absurd (ground (arith, e, r))
]

canonical-frozen :
    (h : Host) (fs : Fields) (bytes : List ℕ)
    → canonical_json_bytes h (obj fs) ≡ ok bytes
    → (gs : Fields) × (freeze_fields h fs ≡ ok gs)
unfolding canonical_json_bytes freeze_json
canonical-frozen h fs bytes e = elim (Result-cases (freeze_fields h fs)) [
  | inl found ↦ found
  | inr (x, r) ↦ absurd (ground (arith, e, r))
]

-- A relation whose body has canonical bytes has them with its digest.
pub canonical_line :
    (h : Host) (names : FieldLaws h) (r : LineageRelation) (d : String)
    → computed_sha256 h r ≡ ok d
    → (bytes : List ℕ) × (canonical_json_bytes h (obj (to_dict r)) ≡ ok bytes)
unfolding computed_sha256 json_sha256
canonical_line h names r d e =
    let (bytes, c, _) = bind-eq-ok (canonical_json_bytes h (obj (body r))) _ e in
    let (gs, f) = canonical-frozen h (body r) bytes c in
    let last = field "relation_sha256" (optional r.relation_sha256) end in
    rw (to_dict-body r) (
      canonical-ok h (append_fields (body r) last) (append_fields gs last)
        (freeze_fields-append h (body r) last gs last f (digest_field h names r.relation_sha256)))
