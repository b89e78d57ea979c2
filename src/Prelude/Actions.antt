-- ===== src/Prelude/Actions.antt =====
-- Actions of code that changes a state and may raise: the methods of the classes of molly.core.
use mathlib.Core.Bool.{Bool}
use mathlib.Core.List.{List, [], ◌∷◌}
use molly.Prelude.Tests.{if◌then◌else◌}
use mathlib.Core.Path.{◌≡◌, refl}
use mathlib.Core.Logic.{inl, inr}
use molly.Prelude.Errors.{Error, Result, ok, err, Result-cases}

-- An action keeps the state that it reached when it raised.
abbrev pub Exec : Type 0 → Type 0 → Type 0
Exec W A = W → Result A × W

module _ {W : Type 0} where
  abbrev pub pure : {A : Type 0} → A → Exec W A
  pure a w = (ok a, w)

  abbrev pub raise : {A : Type 0} → Error → Exec W A
  raise e w = (err e, w)

  abbrev pub lift : {A : Type 0} → Result A → Exec W A
  lift r w = (r, w)

  abbrev pub continue : {A B : Type 0} → Result A → (A → Exec W B) → Exec W B
  continue (ok a) f w = f a w
  continue (err e) f w = (err e, w)

  infixl 10 ◌>>=◌ ◌>>◌
  unfoldable pub ◌>>=◌ : {A B : Type 0} → Exec W A → (A → Exec W B) → Exec W B
  ◌>>=◌ m f w = let (r, w') = m w in continue r f w'

  abbrev pub ◌>>◌ : {A B : Type 0} → Exec W A → Exec W B → Exec W B
  m >> n = m >>= λ _. n

  -- `try: m except Exception: raise e`
  abbrev pub rethrow_as : {A : Type 0} → Error → Exec W A → Exec W A
  rethrow_as e m w = let (r, w') = m w in (elim r [ ok a ↦ ok a | err _ ↦ err e ], w')

  -- `if test: m`
  abbrev pub when : Bool → Exec W (Unit {0}) → Exec W (Unit {0})
  when test m = if test then m else pure tt

  unfoldable pub for_each : {A : Type 0} → (A → Exec W (Unit {0})) → List A → Exec W (Unit {0})
  for_each f [] = pure tt
  for_each f (x ∷ xs) = f x >> for_each f xs

-- The parts of a sequence that ended well.
pub record Sequence {W A B : Type 0} (x : Exec W A) (g : A → Exec W B) (w : W) (b : B)
    : Type 0 where
  pub first : A
  pub begins : (x w).0 ≡ ok first
  pub ends : (g first (x w).1).0 ≡ ok b
  pub reaches : ((x >>= g) w).1 ≡ (g first (x w).1).1

pub >>=-Sequence :
    {W A B : Type 0} (x : Exec W A) (g : A → Exec W B) (w : W) (b : B)
    → ((x >>= g) w).0 ≡ ok b
    → Sequence x g w b
unfolding ◌>>=◌
>>=-Sequence x g w b e = elim (Result-cases (x w).0) [
  | inl (a, r) ↦ record { first = a; begins = r; ends = rw r at e; reaches = rw r refl }
  | inr (y, r) ↦ absurd (cc (rw r at e))
]

pub >>=-ok :
    {W A B : Type 0} (x : Exec W A) (g : A → Exec W B) (w w' : W) (a : A)
    → x w ≡ (ok a, w')
    → (x >>= g) w ≡ g a w'
unfolding ◌>>=◌
>>=-ok x g w w' a e = rw e refl
