-- ===== src/Core/Tools/Authority.antt =====
-- core/tools.py: the keys that a model may not set, in arguments that were frozen and thawed.
use molly.Prelude.{String, ◌≡◌, refl, sym, arith, ok, Result, bind, bind-eq-ok, ok-injective}
use molly.Core.Json.{
  Json, Items, Fields, null, bool, int, float, str, lst, tup, obj, opaque, nil, cons, end, field,
}
use molly.Core.Host.{Host}
use molly.Core.Freeze.{
  check_key, freeze_json, freeze_items, freeze_fields, thaw_json, thaw_items, thaw_fields,
  freeze_json_mapping,
}
use molly.Core.Tools.Actions.{
  has_authority, item_has_authority, field_has_authority, reject_model_authority_fields,
}

check_key_passes :
    (h : Host) (k : String) (r : Result Fields) (gs : Fields) → check_key h k r ≡ ok gs → r ≡ ok gs
check_key_passes h k r gs e = ground (arith, e)

-- Freezing and thawing leave the keys that a model may not set as they are.
mutual
  unfolding freeze_json thaw_json has_authority

  authority-refrozen :
      (h : Host) (v w : Json)
      → freeze_json h v ≡ ok w
      → has_authority h (thaw_json w) ≡ has_authority h v
  authority-refrozen h null w e = ground (arith, e)
  authority-refrozen h (bool b) w e = ground (arith, e)
  authority-refrozen h (int s n) w e = ground (arith, e)
  authority-refrozen h (float finite x) w e = ground (arith, e)
  authority-refrozen h (str s) w e = ground (arith, e)
  authority-refrozen h (lst xs) w e =
      let (ys, f, g) = bind-eq-ok (freeze_items h xs) _ e in
      rw (sym (ok-injective g)) (items-refrozen h xs ys f)
  authority-refrozen h (tup xs) w e =
      let (ys, f, g) = bind-eq-ok (freeze_items h xs) _ e in
      rw (sym (ok-injective g)) (items-refrozen h xs ys f)
  authority-refrozen h (obj fs) w e =
      let (gs, f, g) = bind-eq-ok (freeze_fields h fs) _ e in
      rw (sym (ok-injective g)) (fields-refrozen h fs gs f)
  authority-refrozen h opaque w e = ground (arith, e)

  items-refrozen :
      (h : Host) (xs ys : Items)
      → freeze_items h xs ≡ ok ys
      → item_has_authority h (thaw_items ys) ≡ item_has_authority h xs
  items-refrozen h nil ys e = ground (arith, e)
  items-refrozen h (cons x xs) ys e =
      let (y, f, e1) = bind-eq-ok (freeze_json h x) _ e in
      let (zs, g, e2) = bind-eq-ok (freeze_items h xs) _ e1 in
      rw (sym (ok-injective e2)) (rw (authority-refrozen h x y f, items-refrozen h xs zs g) refl)

  fields-refrozen :
      (h : Host) (fs gs : Fields)
      → freeze_fields h fs ≡ ok gs
      → field_has_authority h (thaw_fields gs) ≡ field_has_authority h fs
  fields-refrozen h end gs e = ground (arith, e)
  fields-refrozen h (field k v fs) gs e =
      let passed =
        check_key_passes h k
          (bind (freeze_json h v) (λ w. bind (freeze_fields h fs) (λ rest. ok (field k w rest)))) gs
          e in
      let (w, f, e1) = bind-eq-ok (freeze_json h v) _ passed in
      let (rest, g, e2) = bind-eq-ok (freeze_fields h fs) _ e1 in
      rw (sym (ok-injective e2)) (rw (authority-refrozen h v w f, fields-refrozen h fs rest g) refl)

pub reject-refrozen :
    (h : Host) (fs gs : Fields)
    → freeze_json_mapping h fs ≡ ok gs
    → reject_model_authority_fields h (thaw_fields gs) ≡ reject_model_authority_fields h fs
unfolding freeze_json_mapping reject_model_authority_fields
reject-refrozen h fs gs e = rw (fields-refrozen h fs gs e)
