-- ===== src/Core/Json.antt =====
-- The Python values that core/ids.py walks through (`Any`), and what the code asks of a mapping.
use Prim.Native.Char.{code}
use molly.Prelude.{
  ℕ, String, Bool, true, false, Option, none, some, List, [], ◌∷◌, ◌==◌, if◌then◌else◌,
}

-- `int true n` is -n. A float is known by whether it is finite and by its shortest text. `lst` is a
-- Python list and `tup` a tuple; `opaque` is a value that JSON has no form for. The keys of a
-- mapping are texts, as in every decoded JSON object.
mutual
  pub data Json : Type 0 where
    null : Json
    bool : Bool → Json
    int : Bool → ℕ → Json
    float : Bool → String → Json
    str : String → Json
    lst : Items → Json
    tup : Items → Json
    obj : Fields → Json
    opaque : Json

  pub data Items : Type 0 where
    nil : Items
    cons : Json → Items → Items

  pub data Fields : Type 0 where
    end : Fields
    field : String → Json → Fields → Fields

-- `value.get(key)`, with `none` for a missing key
abbrev pub get : String → Fields → Option Json
get k end = none
get k (field j v fs) = if j == k then some v else get k fs

-- `key in value`
abbrev pub has_key : String → Fields → Bool
has_key k fs = elim (get k fs) [ none ↦ false | some _ ↦ true ]

-- `set(value)`
abbrev pub keys : Fields → List String
keys end = []
keys (field k v fs) = k ∷ keys fs

-- the texts of a list of texts, and the value of an optional text
abbrev pub strings : List String → Items
strings [] = nil
strings (x ∷ xs) = cons (str x) (strings xs)

abbrev pub optional : Option String → Json
optional none = null
optional (some x) = str x

abbrev pub codes : String → List ℕ
codes String.[] = []
codes (String.◌∷◌ c s) = code c ∷ codes s
