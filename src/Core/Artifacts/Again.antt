-- ===== src/Core/Artifacts/Again.antt =====
-- core/artifacts.py: `put` of bytes that have been put before.
use molly.Prelude.{
  Bool, ℕ, String, ◌≡◌, refl, true, List, length, nat_eq, nat_eq_refl, Result, ok, bind, sym, ap,
  ◌∙◌, ok-injective,
}
use mathlib.Core.Path.{subst}
use molly.Prelude.Actions.{lift, >>=-ok}
use molly.Core.Json.{Json}
use molly.Core.Host.{Host}
use molly.Core.Ids.{artifact_sha256}
use molly.Core.Ids.Laws.{IsoLaws, artifact_sha256_of_id}
use molly.Core.Artifacts.{ArtifactRecord}
use molly.Core.Artifacts.Integrity.{read_verified_bytes-ok}
use molly.Core.Artifacts.Store.{
  Entry, missing, symlink, irregular, unreadable, garbled, regular, real, Store, Request, is_there,
  prefix_of, is_symlink, read_verified_bytes, read_record, ensure_directory, paths_created,
  assert_compatible, existing_record, requested, put_object, put_meta, put,
}
use molly.Core.Artifacts.Roundtrip.{existing_record-Stored, put-Puts}
use molly.Core.Artifacts.Answers.{requested-named, read_record-is_symlink}

module _ (h : Host) where
  -- The store after a `put`, seen by another one of the same bytes.
  record Repeats (payload : List ℕ) (d : String) (r : ArtifactRecord) (t : Store) : Type 0 where
    opened : t.folder (prefix_of d) ≡ real
    bytes : List ℕ
    object_stands : t.object d ≡ regular bytes
    object_read : read_verified_bytes h (t.object d) d ≡ ok bytes
    meta_read : read_record h (t.meta d) ≡ ok r
    sized : nat_eq r.size_bytes (length bytes) ≡ true

  read_record-is_there :
      (e : Entry Json) (r : ArtifactRecord) → read_record h e ≡ ok r → is_there e ≡ true
  unfolding read_record
  read_record-is_there missing r e = cc
  read_record-is_there symlink r e = refl
  read_record-is_there irregular r e = refl
  read_record-is_there unreadable r e = refl
  read_record-is_there garbled r e = refl
  read_record-is_there (regular v) r e = refl

  paths_created-eq-ok :
      (makes : Bool) (payload : List ℕ) (id d : String) (r : ArtifactRecord) (t : Store)
      → Repeats payload d r t
      → artifact_sha256 id ≡ ok d
      → (paths_created h makes id t).0 ≡ ok d
        × ((paths_created h makes id t).1.object ≡ t.object)
        × ((paths_created h makes id t).1.meta ≡ t.meta)
  unfolding paths_created ensure_directory
  paths_created-eq-ok makes payload id d r t k a =
      let o = ap is_symlink k.object_stands in
      let m = read_record-is_symlink h (t.meta d) r k.meta_read in
      rw (paths_created, a, k.opened, o, m) (refl, refl, refl)

  put-Repeats :
      (laws : IsoLaws h) (q : Request) (payload : List ℕ) (s : Store) (r : ArtifactRecord)
      → (put h q payload s).0 ≡ ok r
      → Repeats payload (h.sha256 payload) r (put h q payload s).1
  put-Repeats laws q payload s r e =
      let p = put-Puts h q payload s r e in
      let t = (put h q payload s).1 in
      let k = existing_record-Stored h p.digest p.asked r t p.ends in
      let (hash, id, _) = requested-named h laws q payload p.asked p.made in
      let (of_id, _) = artifact_sha256_of_id (h.sha256 payload) id in
      let digest : p.digest ≡ h.sha256 payload = ok-injective (sym p.found ∙ of_id) in
      let object_read : read_verified_bytes h (t.object p.digest) p.digest ≡ ok k.bytes =
        ap (read_verified_bytes h (t.object p.digest)) (digest ∙ sym hash) ∙ k.object_read in
      subst (λ (d : String). Repeats payload d r t) digest
        (record {
          opened = p.opened;
          bytes = k.bytes;
          object_stands =
              (read_verified_bytes-ok h (t.object p.digest) p.digest k.bytes object_read).0;
          object_read = object_read;
          meta_read = k.meta_read;
          sized = rw k.sized (nat_eq_refl (length k.bytes));
        })

  put_object-there :
      (q : Request) (payload bytes : List ℕ) (d : String) (t : Store)
      → t.object d ≡ regular bytes
      → put_object h q payload d t ≡ (read_verified_bytes h (t.object d) d, t)
  unfolding put_object
  put_object-there q payload bytes d t e = rw (put_object, ap is_there e) refl

  put_meta-there :
      (q : Request) (w : ArtifactRecord) (d : String) (t : Store)
      → is_there (t.meta d) ≡ true
      → put_meta h q w d t ≡ (existing_record h d w t, t)
  unfolding put_meta
  put_meta-there q w d t e = rw (put_meta, e) refl

  existing_record-again :
      (w r : ArtifactRecord) (bytes : List ℕ) (d : String) (t : Store)
      → read_record h (t.meta d) ≡ ok r
      → read_verified_bytes h (t.object d) d ≡ ok bytes
      → nat_eq r.size_bytes (length bytes) ≡ true
      → w.sha256 ≡ d
      → existing_record h d w t ≡ bind (assert_compatible h r w) (λ _. ok r)
  unfolding existing_record
  existing_record-again w r bytes d t m o z same = rw (existing_record, m, same, o, z) refl

  -- The way of the second `put`.
  put_on :
      (q : Request) (payload : List ℕ) (r w : ArtifactRecord) (t : Store)
      → Repeats payload (h.sha256 payload) r t
      → requested h q payload ≡ ok w
      → artifact_sha256 w.artifact_id ≡ ok (h.sha256 payload)
      → put h q payload t ≡ (
        existing_record h (h.sha256 payload) w (paths_created h q.makes_folder w.artifact_id t).1,
        (paths_created h q.makes_folder w.artifact_id t).1,
      )
  unfolding put
  put_on q payload r w t k asked named =
      let d = h.sha256 payload in
      let t1 = (paths_created h q.makes_folder w.artifact_id t).1 in
      let (created, objects, metas) =
        paths_created-eq-ok q.makes_folder payload w.artifact_id d r t k named in
      let stands = ap (λ (f : String → Entry (List ℕ)). f d) objects ∙ k.object_stands in
      let there =
        ap (λ (f : String → Entry Json). is_there (f d)) metas
        ∙ read_record-is_there (t.meta d) r k.meta_read in
      let object_read =
        ap (λ (f : String → Entry (List ℕ)). read_verified_bytes h (f d) d) objects
        ∙ k.object_read in
      >>=-ok (lift (requested h q payload)) _ t t w (λ i. (asked i, t))
      ∙ >>=-ok (paths_created h q.makes_folder w.artifact_id) _ t t1 d (λ i. (created i, t1))
      ∙ >>=-ok (put_object h q payload d) _ t1 t1 k.bytes
          (put_object-there q payload k.bytes d t1 stands ∙ (λ i. (object_read i, t1)))
      ∙ put_meta-there q w d t1 there

  -- Given the laws of ISO dates: after a `put` that answered a record, another `put` of the same bytes
  -- with valid arguments answers this first record, or, where its media type or schema contradicts
  -- the first record, the exception of that check. Objects and metadata stay as they were.
  pub put_again :
      (laws : IsoLaws h) (q q' : Request) (payload : List ℕ) (s : Store) (r w : ArtifactRecord)
      → (put h q payload s).0 ≡ ok r
      → requested h q' payload ≡ ok w
      → ((put h q' payload (put h q payload s).1).0 ≡ bind (assert_compatible h r w) (λ _. ok r))
        × ((put h q' payload (put h q payload s).1).1.object ≡ (put h q payload s).1.object)
        × ((put h q' payload (put h q payload s).1).1.meta ≡ (put h q payload s).1.meta)
  put_again laws q q' payload s r w e asked =
      let t = (put h q payload s).1 in
      let d = h.sha256 payload in
      let k = put-Repeats laws q payload s r e in
      let t1 = (paths_created h q'.makes_folder w.artifact_id t).1 in
      let (hash, id, _) = requested-named h laws q' payload w asked in
      let (named, _) = artifact_sha256_of_id d id in
      let (_, objects, metas) =
        paths_created-eq-ok q'.makes_folder payload w.artifact_id d r t k named in
      let way = put_on q' payload r w t k asked named in
      let answer =
        existing_record-again w r k.bytes d t1
          (ap (λ (f : String → Entry Json). read_record h (f d)) metas ∙ k.meta_read)
          (ap (λ (f : String → Entry (List ℕ)). read_verified_bytes h (f d) d) objects
            ∙ k.object_read)
          k.sized hash in
      (
        ap (λ (p : Result ArtifactRecord × Store). p.0) way ∙ answer,
        ap (λ (p : Result ArtifactRecord × Store). p.1.object) way ∙ objects,
        ap (λ (p : Result ArtifactRecord × Store). p.1.meta) way ∙ metas,
      )
