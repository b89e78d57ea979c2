-- ===== src/Core/Artifacts/Roundtrip.antt =====
-- core/artifacts.py: `put`, then `verify` and `read`, and `put` once more.
use molly.Prelude.{
  Bool, nat_eq_sound, eq_refl, ℕ, String, ◌≡◌, refl, inl, inr, List, ◌==◌, arith, length, nat_eq,
  ok, sym, ap, ◌∙◌, bind-eq-ok, ok-injective, require, require-eq-ok, refuse, eq_iff, Bool-cases,
  Result-cases, artifact_integrity, artifact_conflict, path_security,
}
use molly.Prelude.Actions.{lift, >>=-Sequence}
use molly.Core.Json.{obj}
use molly.Core.Host.{Host}
use molly.Core.Dumps.{canonical_json_bytes}
use molly.Core.Ids.{artifact_sha256}
use molly.Core.Artifacts.{ArtifactRecord, to_dict}
use molly.Core.Artifacts.Store.{
  Folder, absent, linked, blocked, real, Store, Request, is_there, prefix_of, is_symlink,
  publish_no_replace, read_verified_bytes, read_record, ensure_directory, paths_created,
  assert_compatible, existing_record, requested, put_object, put_meta, put,
}

module _ (h : Host) where
  -- What `_existing_record` has made sure of.
  pub record Stored (d : String) (w r : ArtifactRecord) (t : Store) : Type 0 where
    pub bytes : List ℕ
    pub meta_read : read_record h (t.meta d) ≡ ok r
    pub same_sha256 : r.sha256 ≡ w.sha256
    pub same_id : r.artifact_id ≡ w.artifact_id
    pub object_read : read_verified_bytes h (t.object d) w.sha256 ≡ ok bytes
    pub sized : r.size_bytes ≡ length bytes

  assert_compatible-same :
      (r w : ArtifactRecord)
      → assert_compatible h r w ≡ ok tt
      → (r.sha256 ≡ w.sha256) × (r.artifact_id ≡ w.artifact_id)
  unfolding assert_compatible
  assert_compatible-same r w e =
      let (_, a, e1) = bind-eq-ok (require (r.sha256 == w.sha256) artifact_conflict) _ e in
      let (_, b, e2) =
        bind-eq-ok (require (r.artifact_id == w.artifact_id) artifact_conflict) _ e1 in
      (
        (eq_iff r.sha256 w.sha256).0 (require-eq-ok _ _ a),
        (eq_iff r.artifact_id w.artifact_id).0 (require-eq-ok _ _ b),
      )

  pub existing_record-Stored :
      (d : String) (w r : ArtifactRecord) (t : Store)
      → existing_record h d w t ≡ ok r
      → Stored d w r t
  unfolding existing_record
  existing_record-Stored d w r t e =
      let (r', m, e1) = bind-eq-ok (read_record h (t.meta d)) _ e in
      let (u, c, e2) = bind-eq-ok (assert_compatible h r' w) _ e1 in
      let (bytes, o, e3) = bind-eq-ok (read_verified_bytes h (t.object d) w.sha256) _ e2 in
      let (_, z, e4) =
        bind-eq-ok (require (nat_eq r'.size_bytes (length bytes)) artifact_integrity) _ e3 in
      let same : r' ≡ r = ok-injective e4 in
      let (sha, id) = assert_compatible-same r' w c in
      record {
        bytes = bytes;
        meta_read = m ∙ ap ok same;
        same_sha256 = ap (λ (x : ArtifactRecord). x.sha256) (sym same) ∙ sha;
        same_id = ap (λ (x : ArtifactRecord). x.artifact_id) (sym same) ∙ id;
        object_read = o;
        sized =
            ap (λ (x : ArtifactRecord). x.size_bytes) (sym same)
            ∙ nat_eq_sound r'.size_bytes (length bytes) (require-eq-ok _ _ z);
      }

  put_meta-ok :
      (q : Request) (w r : ArtifactRecord) (d : String) (s : Store)
      → (put_meta h q w d s).0 ≡ ok r
      → (existing_record h d w (put_meta h q w d s).1 ≡ ok r)
        × ((put_meta h q w d s).1.folder ≡ s.folder)
  unfolding put_meta
  put_meta-ok q w r d s e = elim (Bool-cases (is_there (s.meta d))) [
    | inl there ↦ rw there ((rw there at e), refl)
    | inr empty ↦ elim (Result-cases (canonical_json_bytes h (obj (to_dict w)))) [
      | inr (x, c) ↦ absurd (ground (arith, e, empty, c))
      | inl (bytes, c) ↦
          elim (Result-cases (publish_no_replace q.meta_publication (obj (to_dict w))).0) [
            | inr (x, p) ↦ absurd (ground (arith, e, empty, c, p))
            | inl (_, p) ↦ rw (empty, c) ((rw (empty, c, p) at e), refl)
          ]
    ]
  ]

  put_object-folder :
      (q : Request) (payload : List ℕ) (d : String) (s : Store)
      → (put_object h q payload d s).1.folder ≡ s.folder
  unfolding put_object
  put_object-folder q payload d s = elim (Bool-cases (is_there (s.object d))) [
    | inl there ↦ rw there refl
    | inr empty ↦ rw empty refl
  ]

  ensure_directory-real :
      (makes : Bool) (f g : Folder) → ensure_directory h makes f ≡ ok g → g ≡ real
  unfolding ensure_directory
  ensure_directory-real makes absent g e = ground (arith, e)
  ensure_directory-real makes linked g e = cc
  ensure_directory-real makes blocked g e = cc
  ensure_directory-real makes real g e = sym (ok-injective e)

  paths_created-ok :
      (makes : Bool) (id : String) (s : Store) (d : String)
      → (paths_created h makes id s).0 ≡ ok d
      → (artifact_sha256 id ≡ ok d) × ((paths_created h makes id s).1.folder (prefix_of d) ≡ real)
  unfolding paths_created
  paths_created-ok makes id s d e = elim (Result-cases (artifact_sha256 id)) [
    | inr (x, a) ↦ absurd (cc (rw (paths_created, a) at e))
    | inl (d', a) ↦ elim (Result-cases (ensure_directory h makes (s.folder (prefix_of d')))) [
      | inr (x, f) ↦ absurd (cc (rw (paths_created, a, f) at e))
      | inl (g, f) ↦
          let e' = rw (paths_created, a, f) at e in
          let (_, _, e1) = bind-eq-ok (refuse (is_symlink (s.object d')) path_security) _ e' in
          let (_, _, e2) = bind-eq-ok (refuse (is_symlink (s.meta d')) path_security) _ e1 in
          let same : d' ≡ d = ok-injective e2 in
          (
            a ∙ ap ok same,
            rw (paths_created, a, f)
                (rw (← same) (rw (eq_refl (prefix_of d')) (ensure_directory-real makes _ g f))),
          )
    ]
  ]

  -- The way through a `put` that ended well.
  pub record Puts (q : Request) (payload : List ℕ) (s : Store) (r : ArtifactRecord) : Type 0 where
    pub asked : ArtifactRecord
    pub made : requested h q payload ≡ ok asked
    pub digest : String
    pub found : artifact_sha256 asked.artifact_id ≡ ok digest
    pub opened : (put h q payload s).1.folder (prefix_of digest) ≡ real
    pub ends : existing_record h digest asked (put h q payload s).1 ≡ ok r

  pub put-Puts :
      (q : Request) (payload : List ℕ) (s : Store) (r : ArtifactRecord)
      → (put h q payload s).0 ≡ ok r
      → Puts q payload s r
  unfolding put
  put-Puts q payload s r e =
      let s1 = >>=-Sequence (lift (requested h q payload)) _ s r e in
      let w = s1.first in
      let s2 = >>=-Sequence (paths_created h q.makes_folder w.artifact_id) _ s r s1.ends in
      let d = s2.first in
      let t2 = (paths_created h q.makes_folder w.artifact_id s).1 in
      let s3 = >>=-Sequence (put_object h q payload d) _ t2 r s2.ends in
      let t3 = (put_object h q payload d t2).1 in
      let (found, created) = paths_created-ok q.makes_folder w.artifact_id s d s2.begins in
      let (ends, same) = put_meta-ok q w r d t3 s3.ends in
      let last = s1.reaches ∙ s2.reaches ∙ s3.reaches in
      let folders : (put h q payload s).1.folder ≡ t2.folder =
        ap (λ (t : Store). t.folder) last ∙ same ∙ put_object-folder q payload d t2 in
      record {
        asked = w;
        made = s1.begins;
        digest = d;
        found = found;
        opened = ap (λ (f : String → Folder). f (prefix_of d)) folders ∙ created;
        ends = ap (existing_record h d w) last ∙ ends;
      }
