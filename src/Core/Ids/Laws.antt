-- ===== src/Core/Ids/Laws.antt =====
-- core/ids.py: what the validators return, and the two forms of a digest.
use Prim.Native.Char.{Char, code}
use text.Mathlib.TextEquality.{Char-path}
use molly.Prelude.{
  ℕ, eq_iff, ok-injective, any, ap, sym, ◌∙◌, String, ◌≡◌, refl, ap₂, true, false, ◌==◌, inl, inr,
  none, some, List, [], ◌∷◌, arith, nat_eq, ok, Bool-cases, Option-cases, map_result, Keeps,
}
use molly.Core.Host.{Host}
use molly.Core.Ids.{
  validate_identifier, validate_reference, validate_sha256, validate_digest_reference,
  validate_artifact_id, validate_artifact_ids, artifact_id_for_sha256, artifact_sha256, concat,
  remove_prefix, sha256_prefix, z_to_offset, normalize_timestamp, replace_offset,
}
use molly.Core.Json.{codes}

pub validate_identifier-Keeps : (v : String) → Keeps v (validate_identifier v)
unfolding validate_identifier
validate_identifier-Keeps v = ground arith

pub validate_reference-Keeps : (h : Host) (v : String) → Keeps v (validate_reference h v)
unfolding validate_reference
validate_reference-Keeps h v = ground arith

pub validate_sha256-Keeps : (v : String) → Keeps v (validate_sha256 v)
unfolding validate_sha256
validate_sha256-Keeps v = ground arith

pub validate_artifact_id-Keeps : (v : String) → Keeps v (validate_artifact_id v)
unfolding validate_artifact_id
validate_artifact_id-Keeps v = ground arith

map_result-Keeps : (vs : List String) → Keeps vs (map_result validate_artifact_id vs)
map_result-Keeps [] = inl refl
map_result-Keeps (v ∷ vs) = ground (arith, validate_artifact_id-Keeps v, map_result-Keeps vs)

pub validate_artifact_ids-Keeps : (vs : List String) → Keeps vs (validate_artifact_ids vs)
unfolding validate_artifact_ids
validate_artifact_ids-Keeps vs = ground (arith, map_result-Keeps vs)

pub remove_prefix-concat : (p s : String) → remove_prefix p (concat p s) ≡ some s
unfolding remove_prefix concat
remove_prefix-concat String.[] s = refl
remove_prefix-concat (String.◌∷◌ c p) s = ground (arith, remove_prefix-concat p s)

same_code : (c d : Char) → nat_eq (code c) (code d) ≡ true → c ≡ d
same_code c d h = Char-path c d (ground arith)

pub concat_of_remove_prefix : (p s r : String) → remove_prefix p s ≡ some r → concat p r ≡ s
unfolding remove_prefix concat
concat_of_remove_prefix String.[] s r e = ground arith
concat_of_remove_prefix (String.◌∷◌ c p) String.[] r e = cc
concat_of_remove_prefix (String.◌∷◌ c p) (String.◌∷◌ d s) r e =
    elim (Bool-cases (nat_eq (code c) (code d))) [
      | inl same ↦
          ap₂ String.◌∷◌ (same_code c d same) (concat_of_remove_prefix p s r (ground arith))
      | inr other ↦ ground arith
    ]

-- A bare digest does not begin with the prefix: `s` is no hexadecimal digit.
pub sha256_no_prefix :
    (v : String) {w : String} → validate_sha256 v ≡ ok w → remove_prefix sha256_prefix v ≡ none
unfolding validate_sha256 remove_prefix
sha256_no_prefix String.[] e = refl
sha256_no_prefix (String.◌∷◌ c s) e = ground arith

pub validate_digest_reference_bare :
    (v : String) → validate_sha256 v ≡ ok v → validate_digest_reference v ≡ ok v
unfolding validate_digest_reference
validate_digest_reference_bare v e = ground (arith, sha256_no_prefix v e)

-- What is returned for an accepted digest, in either form, is a valid bare digest and its own normal
-- form.
pub validate_digest_reference_idem :
    (v : String) {w : String}
    → validate_digest_reference v ≡ ok w
    → (validate_digest_reference w ≡ ok w) × (validate_sha256 w ≡ ok w)
unfolding validate_digest_reference
validate_digest_reference_idem v {w} e = elim (Option-cases (remove_prefix sha256_prefix v)) [
  | inl bare ↦
      let p : validate_sha256 v ≡ ok w = ground arith in
      ground (arith, validate_sha256-Keeps v, sha256_no_prefix v p)
  | inr (digest, cut) ↦
      let p : validate_sha256 digest ≡ ok w = ground arith in
      ground (arith, validate_sha256-Keeps digest, sha256_no_prefix digest p)
]

-- The identity made of a digest is valid and gives that digest back.
pub artifact_sha256_of_id :
    (d : String) {i : String}
    → artifact_id_for_sha256 d ≡ ok i
    → (artifact_sha256 i ≡ ok d) × (validate_artifact_id i ≡ ok i)
unfolding artifact_id_for_sha256 artifact_sha256 validate_artifact_id
artifact_sha256_of_id d e =
    ground (arith, validate_sha256-Keeps d, remove_prefix-concat sha256_prefix d)

-- The digest taken out of an identity makes that identity again.
pub artifact_id_of_sha256 :
    (i : String) {d : String} → artifact_sha256 i ≡ ok d → artifact_id_for_sha256 d ≡ ok i
unfolding artifact_id_for_sha256 artifact_sha256 validate_artifact_id
artifact_id_of_sha256 i e = elim (Option-cases (remove_prefix sha256_prefix i)) [
  | inl bare ↦ ground arith
  | inr (digest, cut) ↦
      ground
        (arith, validate_sha256-Keeps digest, concat_of_remove_prefix sha256_prefix i digest cut)
]

-- What the standard library documents of the moments that it reads and writes: a moment in UTC is
-- written with its offset behind a text without a plus sign, which no spaces surround, and what is
-- written of a moment that was read is read as that moment.
pub record IsoLaws (h : Host) : Type 0 where
  pub stamp : ℕ → String
  pub in_utc : (m : ℕ) → h.iso_text m ≡ concat (stamp m) "+00:00"
  pub unsigned : (m : ℕ) → any (λ c. nat_eq c b'+') (codes (stamp m)) ≡ false
  pub unspaced : (m : ℕ) → h.strip (concat (stamp m) "Z") ≡ concat (stamp m) "Z"
  pub reads_back :
      (t : String) (m : ℕ)
      → h.from_iso t ≡ some (record { is_aware = true; utc = some m })
      → h.from_iso (h.iso_text m) ≡ some (record { is_aware = true; utc = some m })

-- The replacement of the offset, in a text that has no other plus sign, and its way back.
replace_offset-concat :
    (s : String)
    → any (λ c. nat_eq c b'+') (codes s) ≡ false
    → replace_offset 0 (concat s "+00:00") ≡ concat s "Z"
unfolding concat
replace_offset-concat String.[] e = refl
replace_offset-concat (String.◌∷◌ c s) e = ground (arith, e, replace_offset-concat s)

z_to_offset-concat : (s : String) → z_to_offset (concat s "Z") ≡ concat s "+00:00"
unfolding concat z_to_offset
z_to_offset-concat String.[] = refl
z_to_offset-concat (String.◌∷◌ c String.[]) = refl
z_to_offset-concat (String.◌∷◌ c (String.◌∷◌ d s)) =
    ap (String.◌∷◌ c) (z_to_offset-concat (String.◌∷◌ d s))

concat-filled : (s : String) → concat s "Z" == "" ≡ false
unfolding concat
concat-filled String.[] = refl
concat-filled (String.◌∷◌ c s) = elim (Bool-cases (concat (String.◌∷◌ c s) "Z" == "")) [
  | inl blank ↦ absurd (cc ((eq_iff (concat (String.◌∷◌ c s) "Z") "").0 blank))
  | inr filled ↦ filled
]

-- The moment behind a normalised timestamp.
record Normalized (h : Host) (t u : String) : Type 0 where
  moment : ℕ
  reads :
      h.from_iso (z_to_offset (h.strip t)) ≡ some (record { is_aware = true; utc = some moment })
  written : u ≡ replace_offset 0 (h.iso_text moment)

normalize_timestamp-Normalized :
    (h : Host) (t u : String) → normalize_timestamp h t ≡ ok u → Normalized h t u
unfolding normalize_timestamp
normalize_timestamp-Normalized h t u e = elim (Bool-cases (h.strip t == "")) [
  | inl blank ↦ absurd (cc (rw (normalize_timestamp, blank) at e))
  | inr filled ↦ elim (Option-cases (h.from_iso (z_to_offset (h.strip t)))) [
    | inl unread ↦ absurd (cc (rw (normalize_timestamp, filled, unread) at e))
    | inr (parsed, p) ↦ elim (Bool-cases parsed.is_aware) [
      | inr naive ↦ absurd (cc (rw (normalize_timestamp, filled, p, naive) at e))
      | inl aware ↦ elim (Option-cases parsed.utc) [
        | inl outside ↦ absurd (cc (rw (normalize_timestamp, filled, p, aware, outside) at e))
        | inr (m, inside) ↦ record {
          moment = m;
          reads = p ∙ (λ i. some (record { is_aware = aware i; utc = inside i }));
          written = sym (ok-injective (rw (normalize_timestamp, filled, p, aware, inside) at e));
        }
      ]
    ]
  ]
]

-- Given the laws of ISO dates, a timestamp that normalisation has given is its own normal form.
pub normalize_timestamp_idem :
    (h : Host) (laws : IsoLaws h) (t u : String)
    → normalize_timestamp h t ≡ ok u
    → normalize_timestamp h u ≡ ok u
unfolding normalize_timestamp
normalize_timestamp_idem h laws t u e =
    let n = normalize_timestamp-Normalized h t u e in
    let m = n.moment in
    let replaced : replace_offset 0 (h.iso_text m) ≡ concat (laws.stamp m) "Z" =
      rw (laws.in_utc m) (replace_offset-concat (laws.stamp m) (laws.unsigned m)) in
    let same : u ≡ concat (laws.stamp m) "Z" = n.written ∙ replaced in
    let back : h.from_iso (z_to_offset (concat (laws.stamp m) "Z"))
        ≡ some (record { is_aware = true; utc = some m }) =
      ap h.from_iso (z_to_offset-concat (laws.stamp m) ∙ sym (laws.in_utc m))
      ∙ laws.reads_back _ m n.reads in
    rw same (
      rw (normalize_timestamp, laws.unspaced m, concat-filled (laws.stamp m), back)
        (ap ok replaced))

pub timestamp_filled :
    (h : Host) (laws : IsoLaws h) (t : String) → normalize_timestamp h t ≡ ok t → (t == "") ≡ false
timestamp_filled h laws t e =
    let n = normalize_timestamp-Normalized h t t e in
    let m = n.moment in
    let same : t ≡ concat (laws.stamp m) "Z" =
      n.written ∙ rw (laws.in_utc m) (replace_offset-concat (laws.stamp m) (laws.unsigned m)) in
    rw same (concat-filled (laws.stamp m))
