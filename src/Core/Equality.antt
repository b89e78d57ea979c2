-- ===== src/Core/Equality.antt =====
-- `==` of the decoded values that the records of molly.core hold, as in a comparison of metadata.
use molly.Prelude.{ℕ, suc, Bool, true, false, not, ◌&&◌, ◌||◌, Option, none, some, nat_eq, ◌==◌}
use molly.Core.Json.{
  Json, Items, Fields, null, bool, int, float, str, lst, tup, obj, nil, cons, end, field, get,
}
use molly.Core.Host.{Host}

-- `int(value)` of a Boolean or an integer: whether it is negative, and its size
whole : Json → Option (Bool × ℕ)
whole (bool true) = some (false, 1)
whole (bool false) = some (false, 0)
whole (int negative n) = some (negative && not (nat_eq n 0), n)
whole _ = none

same_sign : Bool → Bool → Bool
same_sign true b = b
same_sign false b = not b

is_float : Json → Bool
is_float (float _ _) = true
is_float _ = false

-- The comparison of two numbers; one with a float is the interpreter's.
equal_numbers : Host → Json → Json → Bool
unfolding whole same_sign is_float
equal_numbers h v w = elim (whole v) [
  | none ↦ (is_float v || is_float w) && h.equal_float v w
  | some (s, m) ↦ elim (whole w) [
    | none ↦ is_float w && h.equal_float v w
    | some (t, n) ↦ same_sign s t && nat_eq m n
  ]
]

-- `len(value)`
size : Fields → ℕ
size end = 0
size (field k v fs) = suc (size fs)

-- Lists and tuples are compared item by item, mappings key by key in any order.
module _ (h : Host) where
  mutual
    unfolding equal_numbers size

    equal : Json → Json → Bool
    equal null null = true
    equal (str s) (str t) = s == t
    equal (lst xs) (lst ys) = equal_items xs ys
    equal (tup xs) (tup ys) = equal_items xs ys
    equal (obj fs) (obj gs) = nat_eq (size fs) (size gs) && within fs gs
    equal v w = equal_numbers h v w

    equal_items : Items → Items → Bool
    equal_items nil nil = true
    equal_items (cons x xs) (cons y ys) = equal x y && equal_items xs ys
    equal_items _ _ = false

    within : Fields → Fields → Bool
    within end gs = true
    within (field k v fs) gs = elim (get k gs) [ none ↦ false | some w ↦ equal v w && within fs gs ]

  unfoldable pub equal_fields : Fields → Fields → Bool
  unfolding equal
  equal_fields fs gs = equal (obj fs) (obj gs)
