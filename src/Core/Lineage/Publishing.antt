-- ===== src/Core/Lineage/Publishing.antt =====
-- core/lineage.py: `add_relation` on a lineage in a file beside one in memory.
use molly.Prelude.{
  String, ◌≡◌, refl, true, inl, inr, none, List, [], ◌∷◌, ◌++◌, arith, Result, ok, err, bind-eq-ok,
  Result-cases, Error, ap, ap₂, ◌∙◌,
}
use molly.Core.Json.{obj}
use molly.Core.Host.{Host}
use molly.Core.Ids.Laws.{IsoLaws}
use molly.Core.Ledger.File.{Line, decoded, File, Disk, open_locked, write_line, write_locked}
use molly.Core.Ids.{validate_reference}
use molly.Core.Lineage.{LineageRelation, to_dict, text, relation_value}
use molly.Core.Lineage.File.{Known, check_known, read_relations, prepare}
use molly.Core.Lineage.Codec.{
  Checked, RelationWords, post_init-Checked, post_init-SameEnds, post_init-kind,
}
use molly.Core.Lineage.Sealing.{Seals, FieldLaws, prepare-Seals, canonical_line}
use molly.Core.Lineage.Reading.{read_lines-snoc, head_digest-eq}
use molly.Core.Lineage.Graph.{
  Backing, memory, stored, Lineage, Outside, Addition, candidate_of, candidate, prepare_line,
  publish, add_relation,
}
use molly.Core.Lineage.Refinement.{Agrees}

-- A disk on which the append meets no symlink and no failure.
pub record Reliable (d : Disk) : Type 0 where
  pub clean : d.ancestors_clean ≡ true
  pub completes : d.writes ≡ true
  pub settles : d.flushes ≡ true

-- What has been read of a file that can be appended to.
record Opens (h : Host) (d : Disk) (k : Known) (file : File) (rs : List LineageRelation)
    : Type 0 where
  content : List Line
  opened : open_locked d file ≡ ok (File.lines content)
  reads : read_relations h k (File.lines content) ≡ ok rs

opens :
    (h : Host) (d : Disk) (k : Known) (file : File) (rs : List LineageRelation)
    → Reliable d
    → read_relations h k file ≡ ok rs
    → Opens h d k file rs
unfolding open_locked read_relations
opens h d k File.missing rs ok_disk r = record {
  content = [];
  opened = rw ok_disk.clean;
  reads = r;
}
opens h d k File.symlink rs ok_disk r = cc
opens h d k File.irregular rs ok_disk r = cc
opens h d k File.unreadable rs ok_disk r = cc
opens h d k (File.lines ls) rs ok_disk r = record {
  content = ls;
  opened = rw ok_disk.clean;
  reads = r;
}

-- What `add_relation` knows of its candidate.
pub record IsCandidate (h : Host) (k : Known) (c : LineageRelation) : Type 0 where
  pub checked : Checked h c
  pub unsealed : c.relation_sha256 ≡ none
  pub knows : check_known k c.subject_id c.object_id ≡ ok tt

pub candidate-IsCandidate :
    (h : Host) (laws : IsoLaws h) (words : RelationWords h) (o : Outside) (a : Addition) (k : Known)
    (c : LineageRelation)
    → candidate h o a k ≡ ok c
    → IsCandidate h k c
unfolding candidate candidate_of
candidate-IsCandidate h laws words o a k c e =
    let (kind, _, e1) = bind-eq-ok (relation_value h a.relation) _ e in
    let (_, _, e2) = bind-eq-ok (validate_reference h a.subject_id) _ e1 in
    let (_, _, e3) = bind-eq-ok (validate_reference h a.object_id) _ e2 in
    let (_, knows, e4) = bind-eq-ok (check_known k a.subject_id a.object_id) _ e3 in
    let ends = post_init-SameEnds h (candidate_of h o a kind) c e4 in
    record {
      checked = post_init-Checked h laws words (candidate_of h o a kind) c e4;
      unsealed = ends.same_digest;
      knows = rw (ends.same_subject, ends.same_object) knows;
    }

-- What a candidate has of the arguments.
pub record FromArguments (h : Host) (a : Addition) (c : LineageRelation) : Type 0 where
  pub kind : String
  pub named : relation_value h a.relation ≡ ok kind
  pub value : relation_value h (text kind) ≡ ok c.relation_type
  pub about : c.subject_id ≡ a.subject_id
  pub names : c.object_id ≡ a.object_id

pub candidate-FromArguments :
    (h : Host) (o : Outside) (a : Addition) (k : Known) (c : LineageRelation)
    → candidate h o a k ≡ ok c
    → FromArguments h a c
unfolding candidate candidate_of
candidate-FromArguments h o a k c e =
    let (kind, named, e1) = bind-eq-ok (relation_value h a.relation) _ e in
    let (_, _, e2) = bind-eq-ok (validate_reference h a.subject_id) _ e1 in
    let (_, _, e3) = bind-eq-ok (validate_reference h a.object_id) _ e2 in
    let (_, _, e4) = bind-eq-ok (check_known k a.subject_id a.object_id) _ e3 in
    let ends = post_init-SameEnds h (candidate_of h o a kind) c e4 in
    record {
      kind = kind;
      named = named;
      value = post_init-kind h (candidate_of h o a kind) c e4;
      about = ends.same_subject;
      names = ends.same_object;
    }

written_reads :
    (h : Host) (k : Known) (c p : LineageRelation) (ls : List Line) (rs : List LineageRelation)
    → read_relations h k (File.lines ls) ≡ ok rs
    → IsCandidate h k c
    → Seals h c rs p
    → read_relations h k (File.lines (ls ++ decoded (obj (to_dict p)) ∷ [])) ≡ ok (rs ++ p ∷ [])
unfolding read_relations
written_reads h k c p ls rs r i s =
    let ends = ap (λ (t : LineageRelation). check_known k t.subject_id t.object_id) s.shape in
    read_lines-snoc h k none [] ls rs (obj (to_dict p)) p r s.reads_back refl s.fresh
      (ap (λ (t : LineageRelation). t.previous_relation_sha256) s.shape ∙ head_digest-eq rs)
      (ends ∙ i.knows)

-- What the two branches of `add_relation` do with one candidate.
record Published (h : Host) (d : Disk) (c : LineageRelation) (k : Known) (rs : List LineageRelation)
    (file : File) : Type 0 where
  answer : Result LineageRelation
  now : List LineageRelation
  after : File
  kept : publish h d c k (memory rs) ≡ (answer, memory now)
  written : publish h d c k (stored file) ≡ (answer, stored after)
  reads : read_relations h k after ≡ ok now

publish-Published :
    (h : Host) (laws : IsoLaws h) (words : RelationWords h) (names : FieldLaws h) (d : Disk)
    (c : LineageRelation) (k : Known) (rs : List LineageRelation) (file : File)
    → Reliable d
    → IsCandidate h k c
    → read_relations h k file ≡ ok rs
    → Published h d c k rs file
unfolding publish prepare_line write_locked write_line
publish-Published h laws words names d c k rs file reliable i r =
    let o = opens h d k file rs reliable r in
    elim (Result-cases (prepare h c rs)) [
      | inl (p, q) ↦
          let s = prepare-Seals h laws words c rs p i.checked i.unsealed q in
          let (bytes, canonical) = canonical_line h names p s.digest s.covers in
          record {
            answer = ok p;
            now = rs ++ p ∷ [];
            after = File.lines (o.content ++ decoded (obj (to_dict p)) ∷ []);
            kept = rw (publish, q);
            written = rw (
              publish, o.opened, o.reads, prepare_line, q, canonical, reliable.completes,
              reliable.settles,
            );
            reads = written_reads h k c p o.content rs o.reads i s;
          }
      | inr (e, q) ↦ record {
        answer = err e;
        now = rs;
        after = File.lines o.content;
        kept = rw (publish, q);
        written = rw (publish, o.opened, o.reads, prepare_line, q);
        reads = o.reads;
      }
    ]

-- The two ways through `add_relation`.
pub add_relation-published :
    (h : Host) (o : Outside) (a : Addition) (l : Lineage) (c : LineageRelation)
    (r : Result LineageRelation) (b : Backing)
    → candidate h o a l.known ≡ ok c
    → publish h o.disk c l.known l.backing ≡ (r, b)
    → add_relation h o a l ≡ (r, record l { backing = b })
unfolding add_relation
add_relation-published h o a l c r b q p = ground (arith, q, p)

pub add_relation-refused :
    (h : Host) (o : Outside) (a : Addition) (l : Lineage) (e : Error)
    → candidate h o a l.known ≡ err e
    → add_relation h o a l ≡ (err e, l)
unfolding add_relation
add_relation-refused h o a l e q = ground (arith, q)

pub add_relation-Agrees :
    (h : Host) (laws : IsoLaws h) (words : RelationWords h) (names : FieldLaws h) (o : Outside)
    (a : Addition)
    → Reliable o.disk
    → Agrees h (add_relation h o a)
add_relation-Agrees h laws words names o a reliable = record {
  at = λ m f s.
      let known = s.same_known in
      elim (Result-cases (candidate h o a m.known)) [
        | inl (c, q) ↦
            let p =
              publish-Published h laws words names o.disk c m.known s.rs s.file reliable
                (candidate-IsCandidate h laws words o a m.known c q) s.readable in
            rw
              (
                add_relation-published h o a m c p.answer (memory p.now) q
                    (ap (publish h o.disk c m.known) s.in_memory ∙ p.kept),
                add_relation-published h o a f c p.answer (stored p.after)
                    (ap (candidate h o a) known ∙ q)
                    (ap₂ (publish h o.disk c) known s.in_file ∙ p.written),
              )
              (
                refl,
                record {
                  rs = p.now;
                  file = p.after;
                  in_memory = refl;
                  in_file = refl;
                  same_known = s.same_known;
                  is_strict = s.is_strict;
                  readable = p.reads;
                },
              )
        | inr (e, q) ↦
            rw
              (
                add_relation-refused h o a m e q,
                add_relation-refused h o a f e (ap (candidate h o a) known ∙ q),
              )
              (refl, s)
      ];
}
