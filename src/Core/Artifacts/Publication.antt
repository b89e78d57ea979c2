-- ===== src/Core/Artifacts/Publication.antt =====
-- core/artifacts.py: what `put` leaves in the store, and what can be read after it.
use molly.Prelude.{
  Bool, ℕ, String, ◌≡◌, refl, false, ◌⊎◌, inl, inr, List, ◌==◌, arith, Result, ap, ◌∙◌, eq_iff,
  Bool-cases, Result-cases,
}
use molly.Prelude.Actions.{Exec, lift, ◌>>=◌}
use molly.Core.Json.{Json, obj}
use molly.Core.Host.{Host}
use molly.Core.Dumps.{canonical_json_bytes}
use molly.Core.Ids.{artifact_sha256}
use molly.Core.Artifacts.{ArtifactRecord, to_dict}
use molly.Core.Artifacts.Store.{
  Entry, missing, symlink, irregular, unreadable, garbled, regular, Store, Request, is_there,
  prefix_of, with_object, with_meta, ensure_directory, paths_created, requested, put_object,
  put_meta, put,
}

-- What stands at each path: what stood there, or something where nothing was.
pub record Fills (s t : Store) : Type 0 where
  pub objects : (d : String) → (t.object d ≡ s.object d) ⊎ (s.object d ≡ missing)
  pub metas : (d : String) → (t.meta d ≡ s.meta d) ⊎ (s.meta d ≡ missing)

Fills-refl : (s : Store) → Fills s s
Fills-refl s = record { objects = λ d. inl refl; metas = λ d. inl refl }

Fills-trans : (s t u : Store) → Fills s t → Fills t u → Fills s u
Fills-trans s t u p q = record {
  objects = λ d. ground (arith, p.objects d, q.objects d);
  metas = λ d. ground (arith, p.metas d, q.metas d);
}

is_there-missing : {A : Type 0} (e : Entry A) → is_there e ≡ false → e ≡ missing
is_there-missing missing e = refl
is_there-missing symlink e = cc
is_there-missing irregular e = cc
is_there-missing unreadable e = cc
is_there-missing garbled e = cc
is_there-missing (regular a) e = cc

with_object-Fills :
    (s : Store) (d : String) (e : Entry (List ℕ))
    → s.object d ≡ missing
    → Fills s (with_object s d e)
with_object-Fills s d e m = record {
  objects = λ j. elim (Bool-cases (j == d)) [
    | inl same ↦ inr (ap s.object ((eq_iff j d).0 same) ∙ m)
    | inr other ↦ inl (rw other refl)
  ];
  metas = λ j. inl refl;
}

with_meta-Fills :
    (s : Store) (d : String) (e : Entry Json) → s.meta d ≡ missing → Fills s (with_meta s d e)
with_meta-Fills s d e m = record {
  objects = λ j. inl refl;
  metas = λ j. elim (Bool-cases (j == d)) [
    | inl same ↦ inr (ap s.meta ((eq_iff j d).0 same) ∙ m)
    | inr other ↦ inl (rw other refl)
  ];
}

module _ (h : Host) where
  paths_created-Fills :
      (makes : Bool) (id : String) (s : Store) → Fills s (paths_created h makes id s).1
  unfolding paths_created
  paths_created-Fills makes id s = elim (Result-cases (artifact_sha256 id)) [
    | inr (e, a) ↦ rw (paths_created, a) (Fills-refl s)
    | inl (d, a) ↦ elim (Result-cases (ensure_directory h makes (s.folder (prefix_of d)))) [
      | inr (e, f) ↦ rw (paths_created, a, f) (Fills-refl s)
      | inl (g, f) ↦
          rw (paths_created, a, f) (record { objects = λ d. inl refl; metas = λ d. inl refl })
    ]
  ]

  put_object-Fills :
      (q : Request) (payload : List ℕ) (d : String) (s : Store)
      → Fills s (put_object h q payload d s).1
  unfolding put_object
  put_object-Fills q payload d s = elim (Bool-cases (is_there (s.object d))) [
    | inl there ↦ rw there (Fills-refl s)
    | inr empty ↦ rw empty (with_object-Fills s d _ (is_there-missing (s.object d) empty))
  ]

  put_meta-Fills :
      (q : Request) (r : ArtifactRecord) (d : String) (s : Store) → Fills s (put_meta h q r d s).1
  unfolding put_meta
  put_meta-Fills q r d s = elim (Bool-cases (is_there (s.meta d))) [
    | inl there ↦ rw there (Fills-refl s)
    | inr empty ↦ elim (Result-cases (canonical_json_bytes h (obj (to_dict r)))) [
      | inr (e, c) ↦ rw (empty, c) (Fills-refl s)
      | inl (bytes, c) ↦ rw (empty, c) (with_meta-Fills s d _ (is_there-missing (s.meta d) empty))
    ]
  ]

  -- An action that only fills.
  record OnlyFills {A : Type 0} (x : Exec Store A) : Type 0 where
    at : (s : Store) → Fills s (x s).1

  lift-OnlyFills : {A : Type 0} (r : Result A) → OnlyFills (lift r)
  lift-OnlyFills r = record { at = λ s. Fills-refl s }

  >>=-OnlyFills :
      {A B : Type 0} (x : Exec Store A) (g : A → Exec Store B)
      → OnlyFills x
      → ((a : A) → OnlyFills (g a))
      → OnlyFills (x >>= g)
  unfolding ◌>>=◌
  >>=-OnlyFills x g fx fg = record {
    at = λ s. elim (Result-cases (x s).0) [
      | inl (a, r) ↦ rw r (Fills-trans s (x s).1 (g a (x s).1).1 (fx.at s) ((fg a).at (x s).1))
      | inr (e, r) ↦ rw r (fx.at s)
    ];
  }

  steps-OnlyFills :
      (q : Request) (payload : List ℕ) (r : ArtifactRecord) (d id : String)
      → OnlyFills (paths_created h q.makes_folder id)
        × OnlyFills (put_object h q payload d)
        × OnlyFills (put_meta h q r d)
  steps-OnlyFills q payload r d id = (
    record { at = λ t. paths_created-Fills q.makes_folder id t },
    record { at = λ t. put_object-Fills q payload d t },
    record { at = λ t. put_meta-Fills q r d t },
  )

  -- Whatever the file system and other processes do, and whether `put` succeeds or raises: at every
  -- path of an object and of metadata stands what stood there before, unless nothing stood there.
  pub put-Fills : (q : Request) (payload : List ℕ) (s : Store) → Fills s (put h q payload s).1
  unfolding put
  put-Fills q payload s =
      (>>=-OnlyFills (lift (requested h q payload)) _ (lift-OnlyFills _) (λ r.
          >>=-OnlyFills (paths_created h q.makes_folder r.artifact_id) _
            (steps-OnlyFills q payload r "" r.artifact_id).0
            (λ d.
              >>=-OnlyFills (put_object h q payload d) _ (steps-OnlyFills q payload r d "").1
                (λ _. (steps-OnlyFills q payload r d "").2)))).at
        s
