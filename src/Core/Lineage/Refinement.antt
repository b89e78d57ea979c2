-- ===== src/Core/Lineage/Refinement.antt =====
-- core/lineage.py: a lineage in a file beside one in memory.
use molly.Prelude.{
  String, ◌≡◌, refl, true, inl, inr, List, ◌∷◌, arith, Result, ok, err, Result-cases, ap, sym, ◌∙◌,
}
use molly.Prelude.Actions.{Exec, lift, ◌>>=◌}
use molly.Core.Host.{Host}
use molly.Core.Ledger.File.{File}
use molly.Core.Lineage.{LineageRelation}
use molly.Core.Lineage.File.{Known, read_relations}
use molly.Core.Lineage.Reading.{KnowsMore, read_relations-more}
use molly.Core.Lineage.Graph.{
  memory, stored, Lineage, hydrate, know, register_identity, register_artifact, register_step,
}

-- `f` keeps in its file the relations that `m` keeps in memory; both ask for known identities, and
-- know the same.
pub record Mirrors (h : Host) (m f : Lineage) : Type 0 where
  pub rs : List LineageRelation
  pub file : File
  pub in_memory : m.backing ≡ memory rs
  pub in_file : f.backing ≡ stored file
  pub same_known : f.known ≡ m.known
  pub is_strict : m.known.strict ≡ true
  pub readable : read_relations h m.known file ≡ ok rs

-- An action that answers the same on both, and leaves them so.
pub record Agrees (h : Host) {A : Type 0} (x : Exec Lineage A) : Type 0 where
  pub at : (m f : Lineage) → Mirrors h m f → ((x m).0 ≡ (x f).0) × Mirrors h (x m).1 (x f).1

pub lift-Agrees : (h : Host) {A : Type 0} (r : Result A) → Agrees h (lift r)
lift-Agrees h r = record { at = λ m f s. (refl, s) }

pub >>=-Agrees :
    (h : Host) {A B : Type 0} (x : Exec Lineage A) (g : A → Exec Lineage B)
    → Agrees h x
    → ((a : A) → Agrees h (g a))
    → Agrees h (x >>= g)
unfolding ◌>>=◌
>>=-Agrees h x g ax ag = record {
  at = λ m f s.
      let (same, s') = ax.at m f s in
      elim (Result-cases (x m).0) [
        | inl (a, r) ↦ rw (r, sym same ∙ r) ((ag a).at (x m).1 (x f).1 s')
        | inr (e, r) ↦ rw (r, sym same ∙ r) (refl, s')
      ];
}

-- A strict lineage has nothing to remember.
pub hydrate_strict : (h : Host) (l : Lineage) → l.known.strict ≡ true → hydrate h l ≡ (ok tt, l)
unfolding hydrate
hydrate_strict h l e = simp e

hydrate-Agrees : (h : Host) → Agrees h (hydrate h)
hydrate-Agrees h = record {
  at = λ m f s.
      rw
        (
          hydrate_strict h m s.is_strict,
          hydrate_strict h f (ap (λ (k : Known). k.strict) s.same_known ∙ s.is_strict),
        )
        (refl, s);
}

-- One identity more is known.
abbrev more_known : String → Known → Known
more_known id k = record { known_ids = id ∷ k.known_ids; strict = true }

more_known-KnowsMore : (id : String) (k : Known) → k.strict ≡ true → KnowsMore k (more_known id k)
more_known-KnowsMore id k e = record { same_mode = sym e; more = λ other c. ground (arith, c) }

know-Agrees : (h : Host) (r : Result String) → Agrees h (know h r)
unfolding know
know-Agrees h (err e) = record { at = λ m f s. (refl, s) }
know-Agrees h (ok id) = record {
  at = λ m f s. (
    refl,
    record {
      rs = s.rs;
      file = s.file;
      in_memory = s.in_memory;
      in_file = s.in_file;
      same_known = ap (more_known id) s.same_known;
      is_strict = refl;
      readable =
          read_relations-more h m.known (more_known id m.known) s.file s.rs
            (more_known-KnowsMore id m.known s.is_strict) s.readable;
    },
  );
}

pub register_identity-Agrees : (h : Host) (v : String) → Agrees h (register_identity h v)
unfolding register_identity
register_identity-Agrees h v = >>=-Agrees h (hydrate h) _ (hydrate-Agrees h) (λ _. know-Agrees h _)

pub register_artifact-Agrees : (h : Host) (v : String) → Agrees h (register_artifact h v)
unfolding register_artifact
register_artifact-Agrees h v = >>=-Agrees h (hydrate h) _ (hydrate-Agrees h) (λ _. know-Agrees h _)

pub register_step-Agrees : (h : Host) (v : String) → Agrees h (register_step h v)
unfolding register_step
register_step-Agrees h v = >>=-Agrees h (hydrate h) _ (hydrate-Agrees h) (λ _. know-Agrees h _)
