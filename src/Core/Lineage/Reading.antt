-- ===== src/Core/Lineage/Reading.antt =====
-- What the reading loop of `ArtifactLineage` makes of a file that is one line longer, and of a
-- lineage that knows more identities.
use molly.Prelude.{
  String, ◌≡◌, refl, true, false, not, Option, none, List, [], ◌∷◌, ◌++◌, ◌==◌, any, contains,
  option_eq, option_eq_refl, arith, ok, bind-eq-ok, ok-injective, not-eq-false, refuse,
  refuse-eq-ok, option_eq_sound, ap, sym, ◌∙◌, lineage_error,
}
use molly.Core.Json.{Json}
use molly.Core.Host.{Host}
use molly.Core.Ledger.File.{Line, truncated, empty, undecodable, decoded, File}
use molly.Core.Lineage.{LineageRelation, from_dict}
use molly.Core.Lineage.File.{Known, check_known, accept, read_lines, read_relations, head_digest}

-- What the tests on one line leave known of its relation.
pub record Accepted (h : Host) (k : Known) (previous : Option String) (seen : List String)
    (value : Json) (r : LineageRelation) : Type 0 where
  pub valid : from_dict h value ≡ ok r
  pub fresh : contains seen r.relation_id ≡ false
  pub linked : r.previous_relation_sha256 ≡ previous
  pub knows : check_known k r.subject_id r.object_id ≡ ok tt

pub accept-Accepted :
    (h : Host) (k : Known) (previous : Option String) (seen : List String) (value : Json)
    (r : LineageRelation)
    → accept h k previous seen value ≡ ok r
    → Accepted h k previous seen value r
unfolding accept
accept-Accepted h k previous seen value r e =
    let (read, valid, e1) = bind-eq-ok (from_dict h value) _ e in
    let (_, fresh, e2) = bind-eq-ok (refuse (contains seen read.relation_id) lineage_error) _ e1 in
    let (_, linked, e3) =
      bind-eq-ok (refuse (not (option_eq read.previous_relation_sha256 previous)) lineage_error) _
        e2 in
    let (u, knows, e4) = bind-eq-ok (check_known k read.subject_id read.object_id) _ e3 in
    let same : read ≡ r = ok-injective e4 in
    let agrees = not-eq-false _ (refuse-eq-ok _ _ linked) in
    record {
      valid = rw same at valid;
      fresh = rw same at (refuse-eq-ok _ _ fresh);
      linked = rw same at (option_eq_sound read.previous_relation_sha256 previous agrees);
      knows = rw same at knows;
    }

pub accept-eq-ok :
    (h : Host) (k : Known) (previous : Option String) (seen : List String) (value : Json)
    (r : LineageRelation)
    → Accepted h k previous seen value r
    → accept h k previous seen value ≡ ok r
unfolding accept
accept-eq-ok h k previous seen value r a =
    rw (a.valid, a.fresh, a.linked) (rw (option_eq_refl previous, a.knows) refl)

-- The digest that the next relation has to name, from the digest before the first relation.
abbrev pub head_from : Option String → List LineageRelation → Option String
head_from previous [] = previous
head_from previous (r ∷ rs) = head_from r.relation_sha256 rs

head_digest-cons :
    (r : LineageRelation) (rs : List LineageRelation)
    → head_digest (r ∷ rs) ≡ head_from r.relation_sha256 rs
unfolding head_digest
head_digest-cons r [] = refl
head_digest-cons r (s ∷ rs) = head_digest-cons s rs

pub head_digest-eq : (rs : List LineageRelation) → head_digest rs ≡ head_from none rs
unfolding head_digest
head_digest-eq [] = refl
head_digest-eq (r ∷ rs) = head_digest-cons r rs

-- One more valid, fresh, linked and known line is one more relation.
pub read_lines-snoc :
    (h : Host) (k : Known) (previous : Option String) (seen : List String) (ls : List Line)
    (rs : List LineageRelation) (value : Json) (r : LineageRelation)
    → read_lines h k previous seen ls ≡ ok rs
    → from_dict h value ≡ ok r
    → contains seen r.relation_id ≡ false
    → any (λ item. item.relation_id == r.relation_id) rs ≡ false
    → r.previous_relation_sha256 ≡ head_from previous rs
    → check_known k r.subject_id r.object_id ≡ ok tt
    → read_lines h k previous seen (ls ++ decoded value ∷ []) ≡ ok (rs ++ r ∷ [])
unfolding read_lines
read_lines-snoc h k previous seen [] rs value r e v f a l n =
    let none_yet : rs ≡ [] = ground arith in
    let accepted : Accepted h k previous seen value r = record {
      valid = v;
      fresh = f;
      linked = l ∙ ap (head_from previous) none_yet;
      knows = n;
    } in
    rw (accept-eq-ok h k previous seen value r accepted, none_yet)
read_lines-snoc h k previous seen (truncated ∷ ls) rs value r e v f a l n = cc
read_lines-snoc h k previous seen (empty ∷ ls) rs value r e v f a l n = cc
read_lines-snoc h k previous seen (undecodable ∷ ls) rs value r e v f a l n = cc
read_lines-snoc h k previous seen (decoded w ∷ ls) rs value r e v f a l n =
    let (first, taken, e1) = bind-eq-ok (accept h k previous seen w) _ e in
    let (later, reads, e2) =
      bind-eq-ok (read_lines h k first.relation_sha256 (first.relation_id ∷ seen) ls) _ e1 in
    let split : rs ≡ first ∷ later = sym (ok-injective e2) in
    let apart : any (λ item. item.relation_id == r.relation_id) (first ∷ later) ≡ false =
      rw split at a in
    rw (taken, split)
      (rw (
        read_lines-snoc h k first.relation_sha256 (first.relation_id ∷ seen) ls later value r reads
          v (ground arith) (ground arith) (l ∙ ap (head_from previous) split) n))

-- A lineage that knows whatever another one knows.
pub record KnowsMore (k k' : Known) : Type 0 where
  pub same_mode : k'.strict ≡ k.strict
  pub more : (id : String) → contains k.known_ids id ≡ true → contains k'.known_ids id ≡ true

pub check_known-more :
    (k k' : Known) (subject target : String)
    → KnowsMore k k'
    → check_known k subject target ≡ ok tt
    → check_known k' subject target ≡ ok tt
unfolding check_known
check_known-more k k' subject target m e =
    ground (arith, m.same_mode, m.more subject, m.more target, e)

-- It reads whatever the other one reads.
pub read_lines-more :
    (h : Host) (k k' : Known) (previous : Option String) (seen : List String) (ls : List Line)
    (rs : List LineageRelation)
    → KnowsMore k k'
    → read_lines h k previous seen ls ≡ ok rs
    → read_lines h k' previous seen ls ≡ ok rs
unfolding read_lines
read_lines-more h k k' previous seen [] rs m e = e
read_lines-more h k k' previous seen (truncated ∷ ls) rs m e = cc
read_lines-more h k k' previous seen (empty ∷ ls) rs m e = cc
read_lines-more h k k' previous seen (undecodable ∷ ls) rs m e = cc
read_lines-more h k k' previous seen (decoded w ∷ ls) rs m e =
    let (first, taken, e1) = bind-eq-ok (accept h k previous seen w) _ e in
    let (later, reads, e2) =
      bind-eq-ok (read_lines h k first.relation_sha256 (first.relation_id ∷ seen) ls) _ e1 in
    let a = accept-Accepted h k previous seen w first taken in
    let again = accept-eq-ok h k' previous seen w first (record {
      valid = a.valid;
      fresh = a.fresh;
      linked = a.linked;
      knows = check_known-more k k' first.subject_id first.object_id m a.knows;
    }) in
    rw again (
      rw (read_lines-more h k k' first.relation_sha256 (first.relation_id ∷ seen) ls later m reads)
        e2)

pub read_relations-more :
    (h : Host) (k k' : Known) (f : File) (rs : List LineageRelation)
    → KnowsMore k k'
    → read_relations h k f ≡ ok rs
    → read_relations h k' f ≡ ok rs
unfolding read_relations
read_relations-more h k k' File.missing rs m e = e
read_relations-more h k k' File.symlink rs m e = cc
read_relations-more h k k' File.irregular rs m e = cc
read_relations-more h k k' File.unreadable rs m e = cc
read_relations-more h k k' (File.lines ls) rs m e = read_lines-more h k k' none [] ls rs m e
