-- ===== src/Core/Lineage/Keeping.antt =====
-- core/lineage.py: the actions on a lineage in memory that leave its relations alone.
use molly.Prelude.{String, ◌≡◌, inl, inr, List, [], ◌∷◌, arith, Result, ok, err, Result-cases}
use molly.Prelude.Actions.{Exec, lift, for_each, ◌>>=◌}
use molly.Core.Host.{Host}
use molly.Core.Lineage.{LineageRelation}
use molly.Core.Lineage.Graph.{memory, Lineage, hydrate, know, register_artifact, register_step}

-- Whatever the action does, the relations in memory stay.
pub record KeepsRelations {A : Type 0} (x : Exec Lineage A) : Type 0 where
  pub at :
      (l : Lineage) (rs : List LineageRelation)
      → l.backing ≡ memory rs
      → (x l).1.backing ≡ memory rs

pub >>=-KeepsRelations :
    {A B : Type 0} (x : Exec Lineage A) (g : A → Exec Lineage B)
    → KeepsRelations x
    → ((a : A) → KeepsRelations (g a))
    → KeepsRelations (x >>= g)
unfolding ◌>>=◌
>>=-KeepsRelations x g kx kg = record {
  at = λ l rs m. elim (Result-cases (x l).0) [
    | inl (a, r) ↦ rw r ((kg a).at (x l).1 rs (kx.at l rs m))
    | inr (e, r) ↦ rw r (kx.at l rs m)
  ];
}

pub lift-KeepsRelations : {A : Type 0} (r : Result A) → KeepsRelations (lift r)
lift-KeepsRelations r = record { at = λ l rs m. m }

hydrate-KeepsRelations : (h : Host) → KeepsRelations (hydrate h)
unfolding hydrate
hydrate-KeepsRelations h = record { at = λ l rs m. ground (arith, m) }

know-KeepsRelations : (h : Host) (r : Result String) → KeepsRelations (know h r)
unfolding know
know-KeepsRelations h (ok id) = record { at = λ l rs m. m }
know-KeepsRelations h (err e) = record { at = λ l rs m. m }

pub register_artifact-KeepsRelations :
    (h : Host) (v : String) → KeepsRelations (register_artifact h v)
unfolding register_artifact
register_artifact-KeepsRelations h v =
    search (>>=-KeepsRelations, hydrate-KeepsRelations, know-KeepsRelations)

pub register_step-KeepsRelations : (h : Host) (v : String) → KeepsRelations (register_step h v)
unfolding register_step
register_step-KeepsRelations h v =
    search (>>=-KeepsRelations, hydrate-KeepsRelations, know-KeepsRelations)

pub for_each-KeepsRelations :
    {A : Type 0} (g : A → Exec Lineage (Unit {0})) (xs : List A)
    → ((x : A) → KeepsRelations (g x))
    → KeepsRelations (for_each g xs)
unfolding for_each
for_each-KeepsRelations g [] k = lift-KeepsRelations (ok tt)
for_each-KeepsRelations g (x ∷ xs) k =
    >>=-KeepsRelations (g x) _ (k x) (λ _. for_each-KeepsRelations g xs k)
