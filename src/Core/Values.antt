-- ===== src/Core/Values.antt =====
-- How the `from_dict` methods of molly.core coerce decoded values: `str(v)`, `tuple(v)`, `dict(v)`
-- and the optional texts. `none` stands for a `TypeError` or a `ValueError`, which they all catch.
use molly.Prelude.{
  String, ◌≡◌, refl, Option, none, some, List, [], ◌∷◌, arith, ◌==◌, if◌then◌else◌, Result, ok, err,
  python_error, or_raise,
}
use molly.Core.Json.{
  Json, Items, Fields, null, str, lst, tup, obj, nil, cons, end, field, get, keys, strings,
  optional,
}
use molly.Core.Host.{Host}

-- `str(value)`
abbrev pub text_of : Host → Json → String
text_of h (str s) = s
text_of h v = h.str_of v

chars : String → List String
chars String.[] = []
chars (String.◌∷◌ c s) = String.◌∷◌ c String.[] ∷ chars s

texts : Items → Option (List String)
texts nil = some []
texts (cons (str s) xs) = elim (texts xs) [ none ↦ none | some ss ↦ some (s ∷ ss) ]
texts (cons _ xs) = none

-- `tuple(value)`, where every item has to be a text in the end
unfoldable pub tuple_of : Json → Option (List String)
unfolding chars texts
tuple_of (lst xs) = texts xs
tuple_of (tup xs) = texts xs
tuple_of (str s) = some (chars s)
tuple_of (obj fs) = some (keys fs)
tuple_of _ = none

-- `d[key] = value`
put : String → Json → Fields → Fields
put k v end = field k v end
put k v (field j w fs) = if j == k then field j v fs else field j w (put k v fs)

-- One item of `dict(items)`: a pair whose first part has to be a text.
put_pair : List Json → Fields → Option Fields
unfolding put
put_pair (str k ∷ v ∷ []) fs = some (put k v fs)
put_pair _ fs = none

list_of : Items → List Json
list_of nil = []
list_of (cons x xs) = x ∷ list_of xs

text_list : List String → List Json
text_list [] = []
text_list (s ∷ ss) = str s ∷ text_list ss

put_item : Json → Fields → Option Fields
unfolding put_pair list_of chars text_list
put_item (lst xs) fs = put_pair (list_of xs) fs
put_item (tup xs) fs = put_pair (list_of xs) fs
put_item (str s) fs = put_pair (text_list (chars s)) fs
put_item (obj gs) fs = put_pair (text_list (keys gs)) fs
put_item _ fs = none

put_items : Items → Fields → Option Fields
unfolding put_item
put_items nil fs = some fs
put_items (cons x xs) fs = elim (put_item x fs) [ none ↦ none | some gs ↦ put_items xs gs ]

-- `dict(value)`
unfoldable pub dict_of : Json → Option Fields
unfolding put_items
dict_of (obj fs) = some fs
dict_of (lst xs) = put_items xs end
dict_of (tup xs) = put_items xs end
dict_of (str s) = if s == "" then some end else none
dict_of _ = none

-- `str(value[key])`
abbrev pub required_text : Host → Fields → String → Result String
required_text h fs k = elim (get k fs) [ none ↦ err python_error | some v ↦ ok (text_of h v) ]

abbrev some_text : Host → Json → Option String
some_text h null = none
some_text h v = some (text_of h v)

-- `None if value.get(key) is None else str(value[key])`
abbrev pub optional_text : Host → Fields → String → Option String
optional_text h fs k = elim (get k fs) [ none ↦ none | some v ↦ some_text h v ]

-- `tuple(value.get(key, ()))`
abbrev pub tuple_at : Fields → String → Result (List String)
tuple_at fs k = elim (get k fs) [ none ↦ ok [] | some v ↦ or_raise (tuple_of v) python_error ]

-- `dict(value.get(key, {}))`
abbrev pub dict_at : Fields → String → Result Fields
dict_at fs k = elim (get k fs) [ none ↦ ok end | some v ↦ or_raise (dict_of v) python_error ]

texts-strings : (ss : List String) → texts (strings ss) ≡ some ss
unfolding texts
texts-strings [] = refl
texts-strings (s ∷ ss) = ground (arith, texts-strings ss)

pub tuple_of-strings : (ss : List String) → tuple_of (lst (strings ss)) ≡ some ss
unfolding tuple_of
tuple_of-strings ss = texts-strings ss

pub some_text-optional : (h : Host) (o : Option String) → some_text h (optional o) ≡ o
some_text-optional h none = refl
some_text-optional h (some s) = refl
