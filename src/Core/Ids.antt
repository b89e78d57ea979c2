-- ===== src/Core/Ids.antt =====
-- core/ids.py: identifiers, references, digests, artifact identities and timestamps.
pub mod Laws
use Prim.Native.Char.{code}
use molly.Prelude.{
  ℕ, zero, suc, python_error, String, Bool, true, false, not, ◌&&◌, ◌||◌, Option, none, some, List,
  [], ◌∷◌, leb, ltb, ◌==◌, any, length, nat_eq, if◌then◌else◌, Result, ok, err, bind, core_contract,
  path_security, has_duplicates, map_result,
}
use molly.Core.Json.{codes}
use molly.Core.Host.{Host, Moment}

is_alphanumeric : ℕ → Bool
is_alphanumeric c = leb b'A' c && leb c b'Z' || leb b'a' c && leb c b'z' || leb b'0' c && leb c b'9'

identifier_char : ℕ → Bool
unfolding is_alphanumeric
identifier_char c =
    is_alphanumeric c || nat_eq c b'.' || nat_eq c b'_' || nat_eq c b':' || nat_eq c b'-'

abbrev pub all_codes : (ℕ → Bool) → List ℕ → Bool
all_codes p cs = not (any (λ c. not (p c)) cs)

-- `_IDENTIFIER_RE.fullmatch`
matches_identifier : List ℕ → Bool
unfolding is_alphanumeric identifier_char
matches_identifier [] = false
matches_identifier (c ∷ cs) =
    is_alphanumeric c && all_codes identifier_char cs && leb (length cs) 127

unfoldable pub validate_identifier : String → Result String
unfolding matches_identifier
validate_identifier value = if matches_identifier (codes value) then ok value else err core_contract

begins_with_parent : List ℕ → Bool
begins_with_parent (a ∷ b ∷ []) = nat_eq a b'.' && nat_eq b b'.'
begins_with_parent (a ∷ b ∷ d ∷ _) = nat_eq a b'.' && nat_eq b b'.' && nat_eq d b'/'
begins_with_parent _ = false

-- `any(part == ".." for part in value.split("/"))`; the flag says that a part begins here
has_parent_part : Bool → List ℕ → Bool
unfolding begins_with_parent
has_parent_part start [] = false
has_parent_part start (c ∷ cs) =
    start && begins_with_parent (c ∷ cs) || has_parent_part (nat_eq c b'/') cs

starts_as_path : List ℕ → Bool
starts_as_path [] = false
starts_as_path (c ∷ cs) = nat_eq c b'/' || nat_eq c 92 || nat_eq c b'~'

unfoldable pub validate_reference : Host → String → Result String
unfolding has_parent_part starts_as_path
validate_reference h value =
    let cs = codes value in
    if nat_eq (length cs) 0 || ltb 512 (length cs)
    then err core_contract
    else if any (λ c. h.is_space c || nat_eq c 0) cs
    then err core_contract
    else if starts_as_path cs || any (λ c. nat_eq c 92) cs
    then err path_security
    else if has_parent_part true cs
    then err path_security
    else ok value

is_hex_digit : ℕ → Bool
is_hex_digit c = leb b'0' c && leb c b'9' || leb b'a' c && leb c b'f'

unfoldable pub validate_sha256 : String → Result String
unfolding is_hex_digit
validate_sha256 value =
    if all_codes is_hex_digit (codes value) && nat_eq (length (codes value)) 64
    then ok value
    else err core_contract

-- `prefix + s`, and `s.removeprefix(prefix)` with `none` where `s` does not start so
unfoldable pub concat : String → String → String
concat String.[] s = s
concat (String.◌∷◌ c p) s = String.◌∷◌ c (concat p s)

unfoldable pub remove_prefix : String → String → Option String
remove_prefix String.[] s = some s
remove_prefix (String.◌∷◌ c p) String.[] = none
remove_prefix (String.◌∷◌ c p) (String.◌∷◌ d s) =
    let rest = remove_prefix p s in if nat_eq (code c) (code d) then rest else none

abbrev pub sha256_prefix : String
sha256_prefix = "sha256:"

unfoldable pub validate_digest_reference : String → Result String
validate_digest_reference value = elim (remove_prefix sha256_prefix value) [
  | none ↦ validate_sha256 value
  | some digest ↦ validate_sha256 digest
]

unfoldable pub artifact_id_for_sha256 : String → Result String
artifact_id_for_sha256 sha256 =
    bind (validate_sha256 sha256) (λ digest. ok (concat sha256_prefix digest))

unfoldable pub validate_artifact_id : String → Result String
validate_artifact_id value = elim (remove_prefix sha256_prefix value) [
  | none ↦ err core_contract
  | some digest ↦ bind (validate_sha256 digest) (λ _. ok value)
]

unfoldable pub artifact_sha256 : String → Result String
artifact_sha256 value =
    bind (validate_artifact_id value)
      (λ _. elim (remove_prefix sha256_prefix value) [ none ↦ ok value | some digest ↦ ok digest ])

unfoldable pub validate_artifact_ids : List String → Result (List String)
validate_artifact_ids values =
    bind (map_result validate_artifact_id values)
      (λ result. if has_duplicates result then err core_contract else ok result)

-- `raw[:-1] + "+00:00" if raw.endswith("Z") else raw`
unfoldable pub z_to_offset : String → String
z_to_offset String.[] = String.[]
z_to_offset (String.◌∷◌ c String.[]) =
    if nat_eq (code c) b'Z' then "+00:00" else String.◌∷◌ c String.[]
z_to_offset (String.◌∷◌ c (String.◌∷◌ d s)) = String.◌∷◌ c (z_to_offset (String.◌∷◌ d s))

abbrev is_zero_offset : String → Bool
is_zero_offset (String.◌∷◌ a (String.◌∷◌ b (String.◌∷◌ c (String.◌∷◌ d (String.◌∷◌ e _))))) =
    nat_eq (code a) b'0'
    && nat_eq (code b) b'0'
    && nat_eq (code c) b':'
    && nat_eq (code d) b'0'
    && nat_eq (code e) b'0'
is_zero_offset _ = false

-- `text.replace("+00:00", "Z")`; the number is how many characters of an occurrence are still to be
-- passed over.
abbrev pub replace_offset : ℕ → String → String
replace_offset skip String.[] = String.[]
replace_offset (suc skip) (String.◌∷◌ c s) = replace_offset skip s
replace_offset zero (String.◌∷◌ c s) =
    let past = replace_offset 5 s in
    let later = replace_offset 0 s in
    if nat_eq (code c) b'+' && is_zero_offset s then String.◌∷◌ "Z" past else String.◌∷◌ c later

-- `utc_timestamp` of a moment; `astimezone` raises an `OverflowError` where UTC has no year for it.
abbrev pub utc_timestamp : Host → Moment → Result String
utc_timestamp h moment =
    if moment.is_aware
    then elim moment.utc [
      | none ↦ err python_error
      | some normalized ↦ ok (replace_offset 0 (h.iso_text normalized))
    ]
    else err core_contract

unfoldable pub normalize_timestamp : Host → String → Result String
unfolding z_to_offset
normalize_timestamp h value =
    let raw = h.strip value in
    if raw == "" then err core_contract else elim (h.from_iso (z_to_offset raw)) [
      | none ↦ err core_contract
      | some parsed ↦ utc_timestamp h parsed
    ]
