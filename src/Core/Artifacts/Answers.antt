-- ===== src/Core/Artifacts/Answers.antt =====
-- core/artifacts.py: what `verify` and `read` answer after `put`, and what `put` answers once more.
use molly.Prelude.{
  nat_eq_refl, ℕ, String, ◌≡◌, refl, false, List, length, ok, sym, ap, ◌∙◌, bind-eq-ok,
  ok-injective, eq_iff,
}
use molly.Core.Json.{Json}
use molly.Core.Host.{Host}
use molly.Core.Ids.{artifact_id_for_sha256, artifact_sha256, validate_artifact_id}
use molly.Core.Ids.Laws.{IsoLaws, artifact_sha256_of_id}
use molly.Core.Artifacts.{ArtifactRecord}
use molly.Core.Artifacts.Records.{Checked, post_init-Checked}
use molly.Core.Artifacts.Integrity.{Verified, read_verified_bytes-ok, read-Verified}
use molly.Core.Artifacts.Store.{
  Entry, missing, symlink, irregular, unreadable, garbled, regular, Store, Request, is_linked,
  prefix_of, is_symlink, media_of, read_verified_bytes, read_record, paths, requested, put, verify,
  read,
}
use molly.Core.Artifacts.Roundtrip.{existing_record-Stored, put-Puts}

module _ (h : Host) where
  pub read_record-is_symlink :
      (e : Entry Json) (r : ArtifactRecord) → read_record h e ≡ ok r → is_symlink e ≡ false
  unfolding read_record
  read_record-is_symlink missing r e = refl
  read_record-is_symlink symlink r e = cc
  read_record-is_symlink irregular r e = refl
  read_record-is_symlink unreadable r e = refl
  read_record-is_symlink garbled r e = refl
  read_record-is_symlink (regular v) r e = refl

  paths-eq-ok :
      (id d : String) (s : Store)
      → artifact_sha256 id ≡ ok d
      → is_linked (s.folder (prefix_of d)) ≡ false
      → is_symlink (s.object d) ≡ false
      → is_symlink (s.meta d) ≡ false
      → paths h id s ≡ ok d
  unfolding paths
  paths-eq-ok id d s a f o m = rw (paths, a, f, o, m) refl

  verify-eq-ok :
      (id : String) (s : Store) (r : ArtifactRecord) (v : Verified h id s r)
      → validate_artifact_id id ≡ ok id
      → artifact_sha256 id ≡ ok v.digest
      → verify h id s ≡ ok r
  unfolding verify
  verify-eq-ok id s r v valid a =
      rw (verify, valid, v.found, v.meta_read)
        (rw ((eq_iff r.artifact_id id).1 v.same_id, a, v.object_read, v.sized) refl)

  -- What `put` asks for is named by its bytes.
  pub requested-named :
      (laws : IsoLaws h) (q : Request) (payload : List ℕ) (w : ArtifactRecord)
      → requested h q payload ≡ ok w
      → (w.sha256 ≡ h.sha256 payload)
        × (artifact_id_for_sha256 (h.sha256 payload) ≡ ok w.artifact_id)
        × Checked h w
  unfolding requested
  requested-named laws q payload w e =
      let (media, _, e1) = bind-eq-ok (media_of q) _ e in
      let (id, n, e2) = bind-eq-ok (artifact_id_for_sha256 (h.sha256 payload)) _ e1 in
      let (checked, same) = post_init-Checked h laws _ w e2 in
      (same.same_sha256, n ∙ ap ok (sym same.same_id), checked)

  -- What a successful `put` leaves to be read.
  pub record Leaves (payload : List ℕ) (r : ArtifactRecord) (t : Store) : Type 0 where
    pub view : Verified h r.artifact_id t r
    pub checks : verify h r.artifact_id t ≡ ok r
    pub same_hash : h.sha256 view.bytes ≡ h.sha256 payload
    pub named : artifact_id_for_sha256 (h.sha256 payload) ≡ ok r.artifact_id

  pub put-Leaves :
      (laws : IsoLaws h) (q : Request) (payload : List ℕ) (s : Store) (r : ArtifactRecord)
      → (put h q payload s).0 ≡ ok r
      → Leaves payload r (put h q payload s).1
  put-Leaves laws q payload s r e =
      let p = put-Puts h q payload s r e in
      let t = (put h q payload s).1 in
      let w = p.asked in
      let k = existing_record-Stored h p.digest w r t p.ends in
      let (hash, id, checked) = requested-named laws q payload w p.made in
      let (of_id, valid) = artifact_sha256_of_id (h.sha256 payload) id in
      let digest : p.digest ≡ h.sha256 payload = ok-injective (sym p.found ∙ of_id) in
      let object_read : read_verified_bytes h (t.object p.digest) p.digest ≡ ok k.bytes =
        ap (read_verified_bytes h (t.object p.digest)) (digest ∙ sym hash) ∙ k.object_read in
      let (stands, hashed) =
        read_verified_bytes-ok h (t.object p.digest) p.digest k.bytes object_read in
      let found : artifact_sha256 r.artifact_id ≡ ok p.digest =
        ap artifact_sha256 k.same_id ∙ p.found in
      let view : Verified h r.artifact_id t r = record {
        digest = p.digest;
        bytes = k.bytes;
        found =
            paths-eq-ok r.artifact_id p.digest t found (ap is_linked p.opened)
              (ap is_symlink stands) (read_record-is_symlink (t.meta p.digest) r k.meta_read);
        meta_read = k.meta_read;
        same_id = refl;
        object_read = object_read;
        sized = rw k.sized (nat_eq_refl (length k.bytes));
      } in
      let valid_id = ap validate_artifact_id k.same_id ∙ valid ∙ ap ok (sym k.same_id) in
      record {
        view = view;
        checks = verify-eq-ok r.artifact_id t r view valid_id found;
        same_hash = hashed ∙ digest;
        named = id ∙ ap ok (sym k.same_id);
      }

  -- Given the laws of ISO dates, whatever the store held, and where other processes at most are first
  -- at the two publications of the `put` and change no other file during it: after a `put` that
  -- answered a record, `verify` answers that record for its identity, which is made of the digest of
  -- the bytes that were put, and `read` answers bytes with this digest.
  pub put_then_read :
      (laws : IsoLaws h) (q : Request) (payload : List ℕ) (s : Store) (r : ArtifactRecord)
      → (put h q payload s).0 ≡ ok r
      → (artifact_id_for_sha256 (h.sha256 payload) ≡ ok r.artifact_id)
        × (verify h r.artifact_id (put h q payload s).1 ≡ ok r)
        × (bytes : List ℕ) × (read h r.artifact_id (put h q payload s).1 ≡ ok bytes)
        × (h.sha256 bytes ≡ h.sha256 payload)
  put_then_read laws q payload s r e =
      let k = put-Leaves laws q payload s r e in
      let t = (put h q payload s).1 in
      (
        k.named,
        k.checks,
        k.view.bytes,
        read-Verified h laws r.artifact_id t r k.view k.checks,
        k.same_hash,
      )
