-- ===== src/Core/Artifacts/Integrity.antt =====
-- core/artifacts.py: what `read` may answer, and what it answers for a complete entry.
use molly.Prelude.{
  nat_eq_sound, ℕ, String, ◌≡◌, true, inl, inr, List, ◌==◌, arith, length, nat_eq, ok, sym, ap, ◌∙◌,
  bind-eq-ok, ok-injective, require, require-eq-ok, refuse, eq_iff, Bool-cases, artifact_integrity,
  path_security,
}
use molly.Core.Json.{Json}
use molly.Core.Host.{Host}
use molly.Core.Ids.{artifact_id_for_sha256, artifact_sha256, validate_artifact_id}
use molly.Core.Ids.Laws.{IsoLaws, artifact_sha256_of_id, artifact_id_of_sha256}
use molly.Core.Artifacts.{ArtifactRecord}
use molly.Core.Artifacts.Records.{Checked, from_dict-Checked}
use molly.Core.Artifacts.Store.{
  Entry, missing, symlink, irregular, unreadable, garbled, regular, Store, is_linked, prefix_of,
  is_symlink, read_verified_bytes, read_record, paths, verify, read,
}

module _ (h : Host) where
  pub read_verified_bytes-ok :
      (e : Entry (List ℕ)) (expected : String) (payload : List ℕ)
      → read_verified_bytes h e expected ≡ ok payload
      → (e ≡ regular payload) × (h.sha256 payload ≡ expected)
  unfolding read_verified_bytes
  read_verified_bytes-ok missing expected payload r = cc
  read_verified_bytes-ok symlink expected payload r = cc
  read_verified_bytes-ok irregular expected payload r = cc
  read_verified_bytes-ok unreadable expected payload r = cc
  read_verified_bytes-ok garbled expected payload r = cc
  read_verified_bytes-ok (regular bytes) expected payload r =
      elim (Bool-cases (h.sha256 bytes == expected)) [
        | inl agrees ↦
            let same : bytes ≡ payload = ground (arith, r, agrees) in
            (ap regular same, ap h.sha256 (sym same) ∙ (eq_iff (h.sha256 bytes) expected).0 agrees)
        | inr differs ↦ absurd (ground (arith, r, differs))
      ]

  pub read_record-Checked :
      (laws : IsoLaws h) (e : Entry Json) (r : ArtifactRecord)
      → read_record h e ≡ ok r
      → Checked h r
  unfolding read_record
  read_record-Checked laws missing r e = cc
  read_record-Checked laws symlink r e = cc
  read_record-Checked laws irregular r e = cc
  read_record-Checked laws unreadable r e = cc
  read_record-Checked laws garbled r e = cc
  read_record-Checked laws (regular v) r e = from_dict-Checked h laws v r e

  -- What `verify` has made sure of.
  pub record Verified (id : String) (s : Store) (r : ArtifactRecord) : Type 0 where
    pub digest : String
    pub bytes : List ℕ
    pub found : paths h id s ≡ ok digest
    pub meta_read : read_record h (s.meta digest) ≡ ok r
    pub same_id : r.artifact_id ≡ id
    pub object_read : read_verified_bytes h (s.object digest) digest ≡ ok bytes
    pub sized : nat_eq (length bytes) r.size_bytes ≡ true

  paths-digest :
      (id : String) (s : Store) (d : String) → paths h id s ≡ ok d → artifact_sha256 id ≡ ok d
  unfolding paths
  paths-digest id s d e =
      let (digest, a, e1) = bind-eq-ok (artifact_sha256 id) _ e in
      let (_, _, e2) =
        bind-eq-ok (refuse (is_linked (s.folder (prefix_of digest))) path_security) _ e1 in
      let (_, _, e3) = bind-eq-ok (refuse (is_symlink (s.object digest)) path_security) _ e2 in
      let (_, _, e4) = bind-eq-ok (refuse (is_symlink (s.meta digest)) path_security) _ e3 in a ∙ e4

  verify-Verified :
      (id : String) (s : Store) (r : ArtifactRecord) → verify h id s ≡ ok r → Verified id s r
  unfolding verify
  verify-Verified id s r e =
      let (_, _, e1) = bind-eq-ok (validate_artifact_id id) _ e in
      let (d, found, e2) = bind-eq-ok (paths h id s) _ e1 in
      let (r', m, e3) = bind-eq-ok (read_record h (s.meta d)) _ e2 in
      let (_, same, e4) = bind-eq-ok (require (r'.artifact_id == id) artifact_integrity) _ e3 in
      let (expected, x, e5) = bind-eq-ok (artifact_sha256 id) _ e4 in
      let (bytes, o, e6) = bind-eq-ok (read_verified_bytes h (s.object d) expected) _ e5 in
      let (_, z, e7) =
        bind-eq-ok (require (nat_eq (length bytes) r'.size_bytes) artifact_integrity) _ e6 in
      let one : r' ≡ r = ok-injective e7 in
      let digests : expected ≡ d = ok-injective (sym x ∙ paths-digest id s d found) in
      record {
        digest = d;
        bytes = bytes;
        found = found;
        meta_read = m ∙ ap ok one;
        same_id =
            ap (λ (t : ArtifactRecord). t.artifact_id) (sym one)
            ∙ (eq_iff r'.artifact_id id).0 (require-eq-ok _ _ same);
        object_read = ap (λ (t : String). read_verified_bytes h (s.object d) t) (sym digests) ∙ o;
        sized =
            ap (λ (t : ArtifactRecord). nat_eq (length bytes) t.size_bytes) (sym one)
            ∙ require-eq-ok _ _ z;
      }

  -- A verified entry is read as the bytes that were verified.
  pub read-Verified :
      (laws : IsoLaws h) (id : String) (s : Store) (r : ArtifactRecord) (v : Verified id s r)
      → verify h id s ≡ ok r
      → read h id s ≡ ok v.bytes
  unfolding read
  read-Verified laws id s r v e =
      let k = read_record-Checked laws (s.meta v.digest) r v.meta_read in
      let (d, _) = artifact_sha256_of_id r.sha256 k.named in
      let same : r.sha256 ≡ v.digest =
        ok-injective (sym d ∙ ap artifact_sha256 v.same_id ∙ paths-digest id s v.digest v.found) in
      rw (e, v.same_id, v.found) (rw same v.object_read)

  -- Whatever stands in the files of a store, given the laws of ISO dates: what `read` answers for an
  -- identity hashes to the digest in that identity, and `verify` answers a record of this identity
  -- with the number of these bytes.
  pub read_integrity :
      (laws : IsoLaws h) (id : String) (s : Store) (payload : List ℕ)
      → read h id s ≡ ok payload
      → (artifact_id_for_sha256 (h.sha256 payload) ≡ ok id)
        × (r : ArtifactRecord) × (verify h id s ≡ ok r)
        × (r.artifact_id ≡ id)
        × (r.size_bytes ≡ length payload)
  unfolding read
  read_integrity laws id s payload e =
      let (r, checked, _) = bind-eq-ok (verify h id s) _ e in
      let v = verify-Verified id s r checked in
      let same : v.bytes ≡ payload = ok-injective (sym (read-Verified laws id s r v checked) ∙ e) in
      let hashed = (read_verified_bytes-ok (s.object v.digest) v.digest v.bytes v.object_read).1 in
      let named = artifact_id_of_sha256 id (paths-digest id s v.digest v.found) in
      (
        ap (λ (t : List ℕ). artifact_id_for_sha256 (h.sha256 t)) (sym same)
            ∙ ap artifact_id_for_sha256 hashed
            ∙ named,
        r,
        checked,
        v.same_id,
        sym (nat_eq_sound (length v.bytes) r.size_bytes v.sized) ∙ ap length same,
      )
