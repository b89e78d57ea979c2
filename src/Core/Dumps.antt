-- ===== src/Core/Dumps.antt =====
-- core/ids.py: `canonical_json_bytes`, with the part of `json.dumps` that it uses: ASCII output,
-- sorted keys, no spaces.
use Prim.Native.Nat.{Ordering}
use Prim.Native.String.{compare}
use molly.Prelude.{
  ℕ, zero, suc, ◌+◌, ◌-◌, ◌/◌, ◌%◌, String, Bool, ◌||◌, List, [], ◌∷◌, ◌++◌, ltb, nat_eq,
  if◌then◌else◌, Result, ok, bind,
}
use molly.Core.Json.{
  Json, Items, Fields, null, bool, int, float, str, lst, tup, obj, opaque, nil, cons, end, field,
  codes,
}
use molly.Core.Host.{Host}
use molly.Core.Freeze.{freeze_json, thaw_json}

-- The decimal digits of a number; the fuel is more than their count.
decimal_digits : ℕ → ℕ → List ℕ
decimal_digits zero n = []
decimal_digits (suc fuel) n =
    let rest = decimal_digits fuel (n / 10) in
    if ltb n 10 then (b'0' + n) ∷ [] else rest ++ (b'0' + n % 10) ∷ []

decimal : Bool → ℕ → List ℕ
unfolding decimal_digits
decimal negative n =
    let digits = decimal_digits (suc n) n in if negative then b'-' ∷ digits else digits

hex_digit : ℕ → ℕ
hex_digit n = if ltb n 10 then b'0' + n else b'a' + (n - 10)

-- `\uXXXX`
unicode_escape : ℕ → List ℕ
unfolding hex_digit
unicode_escape n =
    b'\\'
    ∷ b'u'
    ∷ hex_digit (n / 4096 % 16)
    ∷ hex_digit (n / 256 % 16)
    ∷ hex_digit (n / 16 % 16)
    ∷ hex_digit (n % 16)
    ∷ []

-- What `ensure_ascii` writes for one character; those beyond 0xFFFF become two surrogates.
escape : ℕ → List ℕ
unfolding unicode_escape
escape c =
    if nat_eq c 34
    then 92 ∷ 34 ∷ []
    else if nat_eq c 92
    then 92 ∷ 92 ∷ []
    else if nat_eq c 10
    then 92 ∷ b'n' ∷ []
    else if nat_eq c 13
    then 92 ∷ b'r' ∷ []
    else if nat_eq c 9
    then 92 ∷ b't' ∷ []
    else if nat_eq c 12
    then 92 ∷ b'f' ∷ []
    else if nat_eq c 8
    then 92 ∷ b'b' ∷ []
    else if ltb c 32 || ltb 126 c
    then (if ltb c 0x10000
        then unicode_escape c
        else unicode_escape (0xd800 + (c - 0x10000) / 1024 % 1024)
          ++ unicode_escape (0xdc00 + (c - 0x10000) % 1024))
    else c ∷ []

escape_all : List ℕ → List ℕ
unfolding escape
escape_all [] = []
escape_all (c ∷ cs) = escape c ++ escape_all cs

quoted : String → List ℕ
unfolding escape_all
quoted s = 34 ∷ escape_all (codes s) ++ 34 ∷ []

-- `sort_keys=True`; the rendered values go with their keys.
insert_sorted : String → List ℕ → List (String × List ℕ) → List (String × List ℕ)
insert_sorted k v [] = (k, v) ∷ []
insert_sorted k v ((j, w) ∷ rest) = elim (compare k j) [
  | Ordering.gt ↦ (j, w) ∷ insert_sorted k v rest
  | _ ↦ (k, v) ∷ (j, w) ∷ rest
]

join_fields : List (String × List ℕ) → List ℕ
unfolding quoted
join_fields [] = []
join_fields ((k, v) ∷ []) = quoted k ++ (b':' ∷ v)
join_fields ((k, v) ∷ f ∷ rest) = quoted k ++ (b':' ∷ v ++ (b',' ∷ join_fields (f ∷ rest)))

-- `json.dumps` of a thawed value: `opaque` and the non-finite floats have been refused.
mutual
  unfolding decimal quoted insert_sorted join_fields

  dumps : Json → List ℕ
  dumps null = codes "null"
  dumps (bool b) = codes (if b then "true" else "false")
  dumps (int negative n) = decimal negative n
  dumps (float finite x) = codes x
  dumps (str s) = quoted s
  dumps (lst xs) = b'[' ∷ dumps_items xs
  dumps (tup xs) = b'[' ∷ dumps_items xs
  dumps (obj fs) = b'{' ∷ join_fields (sorted_fields fs) ++ b'}' ∷ []
  dumps opaque = []

  -- the items from the first one to the closing bracket
  dumps_items : Items → List ℕ
  dumps_items nil = b']' ∷ []
  dumps_items (cons x xs) = dumps x ++ dumps_rest xs

  dumps_rest : Items → List ℕ
  dumps_rest nil = b']' ∷ []
  dumps_rest (cons x xs) = b',' ∷ dumps x ++ dumps_rest xs

  sorted_fields : Fields → List (String × List ℕ)
  sorted_fields end = []
  sorted_fields (field k v fs) = insert_sorted k (dumps v) (sorted_fields fs)

unfoldable pub canonical_json_bytes : Host → Json → Result (List ℕ)
unfolding freeze_json thaw_json dumps
canonical_json_bytes h v = bind (freeze_json h v) (λ w. ok (dumps (thaw_json w)))

-- `sha256_bytes(canonical_json_bytes(value))`, the digest of every record of the core
unfoldable pub json_sha256 : Host → Json → Result String
json_sha256 h v = bind (canonical_json_bytes h v) (λ bytes. ok (h.sha256 bytes))
