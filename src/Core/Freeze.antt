-- ===== src/Core/Freeze.antt =====
-- core/ids.py: `_sensitive_key`, `_freeze_json` and its callers, and `thaw_json`.
use molly.Prelude.{
  ℕ, String, ◌≡◌, refl, Bool, true, false, not, ◌&&◌, ◌||◌, List, [], ◌∷◌, arith, leb, ◌==◌, any,
  nat_eq, if◌then◌else◌, Result, ok, err, bind, core_contract,
}
use molly.Core.Json.{
  Json, Items, Fields, null, bool, int, float, str, lst, tup, obj, opaque, nil, cons, end, field,
  codes,
}
use molly.Core.Host.{Host}

abbrev sensitive_key_parts : List String
sensitive_key_parts =
    "access_key" ∷ "api_key" ∷ "apikey" ∷ "authorization" ∷ "cookie" ∷ "credential" ∷ "password"
    ∷ "passwd" ∷ "private_key" ∷ "secret" ∷ "token" ∷ []

is_word : ℕ → Bool
is_word c = leb b'a' c && leb c b'z' || leb b'0' c && leb c b'9'

-- `re.sub(r"[^a-z0-9]+", "_", text)`; the flag says that the last character was replaced
squash : Bool → List ℕ → List ℕ
squash replaced [] = []
squash replaced (c ∷ cs) =
    let rest = squash (not (is_word c)) cs in
    if is_word c then c ∷ rest else if replaced then rest else b'_' ∷ rest

-- `text.strip("_")`: the left end, then the right end
strip_left : List ℕ → List ℕ
strip_left [] = []
strip_left (c ∷ cs) = let rest = strip_left cs in if nat_eq c b'_' then rest else c ∷ cs

push_stripped : ℕ → List ℕ → List ℕ
push_stripped c [] = if nat_eq c b'_' then [] else c ∷ []
push_stripped c (d ∷ ds) = c ∷ d ∷ ds

strip_right : List ℕ → List ℕ
unfolding push_stripped
strip_right [] = []
strip_right (c ∷ cs) = push_stripped c (strip_right cs)

-- `text.split("_")`
push_word : ℕ → List (List ℕ) → List (List ℕ)
push_word c [] = (c ∷ []) ∷ []
push_word c (w ∷ ws) = (c ∷ w) ∷ ws

split_bars : List ℕ → List (List ℕ)
unfolding push_word
split_bars [] = [] ∷ []
split_bars (c ∷ cs) =
    let rest = split_bars cs in if nat_eq c b'_' then [] ∷ rest else push_word c rest

same_codes : List ℕ → List ℕ → Bool
same_codes [] [] = true
same_codes (a ∷ as') (b ∷ bs) = nat_eq a b && same_codes as' bs
same_codes _ _ = false

is_sensitive_part : List ℕ → Bool
unfolding same_codes
is_sensitive_part part = any (λ s. same_codes part (codes s)) sensitive_key_parts

unfoldable pub sensitive_key : Host → String → Bool
unfolding squash is_word strip_left strip_right split_bars is_sensitive_part
sensitive_key h key =
    let normalized = strip_right (strip_left (squash false (codes (h.casefold key)))) in
    is_sensitive_part normalized || any is_sensitive_part (split_bars normalized)

-- The guards on one key of an object.
abbrev pub check_key {ℓ} : {A : Type ℓ} → Host → String → Result A → Result A
check_key h key rest =
    if key == "" then err core_contract else if sensitive_key h key then err core_contract else rest

module _ (h : Host) where
  unfoldable mutual
    pub freeze_json : Json → Result Json
    freeze_json null = ok null
    freeze_json (bool b) = ok (bool b)
    freeze_json (int s n) = ok (int s n)
    freeze_json (float finite x) = if finite then ok (float finite x) else err core_contract
    freeze_json (str s) = ok (str s)
    freeze_json (lst xs) = bind (freeze_items xs) (λ ys. ok (tup ys))
    freeze_json (tup xs) = bind (freeze_items xs) (λ ys. ok (tup ys))
    freeze_json (obj fs) = bind (freeze_fields fs) (λ gs. ok (obj gs))
    freeze_json opaque = err core_contract

    pub freeze_items : Items → Result Items
    freeze_items nil = ok nil
    freeze_items (cons x xs) =
        let rest = freeze_items xs in bind (freeze_json x) (λ y. bind rest (λ ys. ok (cons y ys)))

    pub freeze_fields : Fields → Result Fields
    freeze_fields end = ok end
    freeze_fields (field k v fs) =
        let rest = freeze_fields fs in
        check_key h k (bind (freeze_json v) (λ w. bind rest (λ gs. ok (field k w gs))))

unfoldable mutual
  pub thaw_json : Json → Json
  thaw_json null = null
  thaw_json (bool b) = bool b
  thaw_json (int s n) = int s n
  thaw_json (float finite x) = float finite x
  thaw_json (str s) = str s
  thaw_json (lst xs) = lst xs
  thaw_json (tup xs) = lst (thaw_items xs)
  thaw_json (obj fs) = obj (thaw_fields fs)
  thaw_json opaque = opaque

  pub thaw_items : Items → Items
  thaw_items nil = nil
  thaw_items (cons x xs) = cons (thaw_json x) (thaw_items xs)

  pub thaw_fields : Fields → Fields
  thaw_fields end = end
  thaw_fields (field k v fs) = field k (thaw_json v) (thaw_fields fs)

-- `value` is a mapping whenever the caller gives one, which its type says here.
unfoldable pub freeze_json_mapping : Host → Fields → Result Fields
freeze_json_mapping h fs = freeze_fields h fs

-- The frozen form of a value, thawed and frozen again.
mutual
  unfolding freeze_json thaw_json

  refreeze :
      (h : Host) (v : Json)
      → bind (freeze_json h v) (λ w. freeze_json h (thaw_json w)) ≡ freeze_json h v
  refreeze h null = refl
  refreeze h (bool b) = refl
  refreeze h (int s n) = refl
  refreeze h (float finite x) = ground arith
  refreeze h (str s) = refl
  refreeze h (lst xs) = ground (arith, refreeze_items h xs)
  refreeze h (tup xs) = ground (arith, refreeze_items h xs)
  refreeze h (obj fs) = ground (arith, refreeze_fields h fs)
  refreeze h opaque = refl

  refreeze_items :
      (h : Host) (xs : Items)
      → bind (freeze_items h xs) (λ ys. freeze_items h (thaw_items ys)) ≡ freeze_items h xs
  refreeze_items h nil = refl
  refreeze_items h (cons x xs) = ground (arith, refreeze h x, refreeze_items h xs)

  refreeze_fields :
      (h : Host) (fs : Fields)
      → bind (freeze_fields h fs) (λ gs. freeze_fields h (thaw_fields gs)) ≡ freeze_fields h fs
  refreeze_fields h end = refl
  refreeze_fields h (field k v fs) = ground (arith, refreeze h v, refreeze_fields h fs)

-- Freezing what was thawed from a mapping that freezing has given returns that mapping.
pub freeze-thaw :
    (h : Host) (fs gs : Fields)
    → freeze_json_mapping h fs ≡ ok gs
    → freeze_json_mapping h (thaw_fields gs) ≡ ok gs
unfolding freeze_json_mapping
freeze-thaw h fs gs e = ground (arith, refreeze_fields h fs)

-- A frozen value is its own frozen form.
mutual
  unfolding freeze_json

  freeze_twice : (h : Host) (v : Json) → bind (freeze_json h v) (freeze_json h) ≡ freeze_json h v
  freeze_twice h null = refl
  freeze_twice h (bool b) = refl
  freeze_twice h (int s n) = refl
  freeze_twice h (float finite x) = ground arith
  freeze_twice h (str s) = refl
  freeze_twice h (lst xs) = ground (arith, freeze_twice_items h xs)
  freeze_twice h (tup xs) = ground (arith, freeze_twice_items h xs)
  freeze_twice h (obj fs) = ground (arith, freeze_twice_fields h fs)
  freeze_twice h opaque = refl

  freeze_twice_items :
      (h : Host) (xs : Items) → bind (freeze_items h xs) (freeze_items h) ≡ freeze_items h xs
  freeze_twice_items h nil = refl
  freeze_twice_items h (cons x xs) = ground (arith, freeze_twice h x, freeze_twice_items h xs)

  freeze_twice_fields :
      (h : Host) (fs : Fields) → bind (freeze_fields h fs) (freeze_fields h) ≡ freeze_fields h fs
  freeze_twice_fields h end = refl
  freeze_twice_fields h (field k v fs) = ground (arith, freeze_twice h v, freeze_twice_fields h fs)

pub freeze-frozen :
    (h : Host) (fs gs : Fields)
    → freeze_json_mapping h fs ≡ ok gs
    → freeze_json_mapping h gs ≡ ok gs
unfolding freeze_json_mapping
freeze-frozen h fs gs e = ground (arith, freeze_twice_fields h fs)
