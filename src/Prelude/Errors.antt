-- ===== src/Prelude/Errors.antt =====
-- core/errors.py: the exceptions, the values of code that may raise, and actions on a state.
use mathlib.Core.Path.{◌≡◌, refl}
use mathlib.Core.Logic.{◌⊎◌, inl, inr}
use mathlib.Core.Bool.{Bool, true, false}
use mathlib.Core.List.{List, [], ◌∷◌}
use mathlib.Core.Option.{Option, none, some}

-- The exception classes of core/errors.py that the models raise. `python_error` is any exception
-- that is no `ValueError` and none of these, such as one of a host executor.
pub data Error : Type 0 where
  core_contract path_security : Error
  artifact_not_found artifact_integrity artifact_conflict : Error
  ledger_error ledger_corruption lineage_error : Error
  validation_contract review_error review_binding : Error
  run_binding run_state : Error
  tool_contract schema_validation tool_access tool_policy tool_execution : Error
  approval_error action_error reconciliation_error : Error
  stop_iteration os_error python_error : Error
  -- no exception: a modelled loop has used up its fuel
  out_of_fuel : Error

pub data Result {ℓ} (A : Type ℓ) : Type ℓ where
  ok : A → Result A
  err : Error → Result A

abbrev pub bind {ℓ κ} : {A : Type ℓ} {B : Type κ} → Result A → (A → Result B) → Result B
bind (ok a) f = f a
bind (err e) f = err e

infixl 10 ◌>>=◌ ◌>>◌
abbrev pub ◌>>=◌ {ℓ κ} : {A : Type ℓ} {B : Type κ} → Result A → (A → Result B) → Result B
m >>= f = bind m f

abbrev pub ◌>>◌ {ℓ κ} : {A : Type ℓ} {B : Type κ} → Result A → Result B → Result B
m >> n = bind m (λ _. n)

-- `if not test: raise e`
abbrev pub require : Bool → Error → Result (Unit {0})
require true e = ok tt
require false e = err e

-- `if test: raise e`
abbrev pub refuse : Bool → Error → Result (Unit {0})
refuse true e = err e
refuse false e = ok tt

-- `try: m except Exception: raise e`
abbrev pub rethrow {ℓ} : {A : Type ℓ} → Result A → Error → Result A
rethrow (ok a) e = ok a
rethrow (err _) e = err e

abbrev pub or_raise {ℓ} : {A : Type ℓ} → Option A → Error → Result A
or_raise none e = err e
or_raise (some a) e = ok a

abbrev pub map_result {ℓ κ} : {A : Type ℓ} {B : Type κ} → (A → Result B) → List A → Result (List B)
map_result f [] = ok []
map_result f (x ∷ xs) =
    let rest = map_result f xs in bind (f x) (λ y. bind rest (λ ys. ok (y ∷ ys)))

pub bind-eq-ok {ℓ κ} :
    {A : Type ℓ} {B : Type κ} (m : Result A) (f : A → Result B) {b : B}
    → bind m f ≡ ok b
    → (a : A) × (m ≡ ok a) × (f a ≡ ok b)
bind-eq-ok (ok a) f h = (a, refl, h)
bind-eq-ok (err e) f h = cc

-- `r` is the value `a` itself or an exception: what a validator returns.
abbrev pub Keeps : {A : Type 0} → A → Result A → Type 0
Keeps a r = (r ≡ ok a) ⊎ ((e : Error) × (r ≡ err e))

pub Result-cases :
    {A : Type 0} (r : Result A) → ((a : A) × (r ≡ ok a)) ⊎ ((e : Error) × (r ≡ err e))
Result-cases (ok a) = inl (a, refl)
Result-cases (err e) = inr (e, refl)

pub refuse-eq-ok : (b : Bool) (e : Error) {u : Unit {0}} → refuse b e ≡ ok u → b ≡ false
refuse-eq-ok true e h = cc
refuse-eq-ok false e h = refl

pub ok-injective : {A : Type 0} {a b : A} → ok a ≡ ok b → a ≡ b
ok-injective h = cc

pub rethrow-eq-ok : {A : Type 0} (m : Result A) (e : Error) {a : A} → rethrow m e ≡ ok a → m ≡ ok a
rethrow-eq-ok (ok a) e h = h
rethrow-eq-ok (err x) e h = cc

pub require-eq-ok : (b : Bool) (e : Error) {u : Unit {0}} → require b e ≡ ok u → b ≡ true
require-eq-ok true e h = refl
require-eq-ok false e h = cc

-- What a validator returned is what it was given.
pub Keeps-ok : {A : Type 0} {a b : A} {r : Result A} → Keeps a r → r ≡ ok b → r ≡ ok a
Keeps-ok (inl same) h = same
Keeps-ok (inr (e, failed)) h = cc
