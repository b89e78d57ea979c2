-- ===== src/Core/Lineage/Sessions.antt =====
-- core/lineage.py: any sequence of calls of the methods of `ArtifactLineage`, on a lineage in a file
-- and on one in memory.
use molly.Prelude.{
  ℕ, ◌+◌, String, ◌≡◌, refl, none, some, List, [], ◌∷◌, Option, Result, ok, ap, ap₂, sym, ◌∙◌,
  arith,
}
use molly.Prelude.Actions.{Exec, pure, lift, for_each, ◌>>=◌}
use molly.Core.Json.{Fields}
use molly.Core.Host.{Host}
use molly.Core.Ids.Laws.{IsoLaws}
use molly.Core.Ledger.File.{File}
use molly.Core.Lineage.{LineageRelation, produced_by, derived_from}
use molly.Core.Lineage.File.{Known, read_relations}
use molly.Core.Lineage.Codec.{RelationWords}
use molly.Core.Lineage.Sealing.{FieldLaws}
use molly.Core.Lineage.Graph.{
  stored, Lineage, Outside, Addition, relations, snapshot, add_relation, register_identity,
  register_artifact, register_step, or_default,
}
use molly.Core.Lineage.Methods.{
  repeat_of, occurrence, add_relation_idempotent, settle, wanted, find_relation, add_derived,
  know_production, record_production,
}
use molly.Core.Lineage.Memory.{relations-memory}
use molly.Core.Lineage.Refinement.{
  Mirrors, Agrees, lift-Agrees, >>=-Agrees, register_identity-Agrees, register_artifact-Agrees,
  register_step-Agrees,
}
use molly.Core.Lineage.Publishing.{Reliable, add_relation-Agrees}

-- A call of a method that changes the lineage, or of `relations`.
pub data Call : Type 0 where
  know_identity know_artifact know_step : String → Call
  add : Outside → Addition → Call
  add_once : Outside → Addition → String → Call
  produce : (ℕ → Outside) → String → String → List String → Option Fields → Option String → Call
  read : Call

-- What a call answers.
pub data Answer : Type 0 where
  identity : String → Answer
  told : List LineageRelation → Answer

module _ (h : Host) where
  unfoldable pub perform : Call → Exec Lineage Answer
  perform (know_identity v) = register_identity h v >>= λ id. pure (identity id)
  perform (know_artifact v) = register_artifact h v >>= λ id. pure (identity id)
  perform (know_step v) = register_step h v >>= λ id. pure (identity id)
  perform (add o a) = add_relation h o a >>= λ r. pure (told (r ∷ []))
  perform (add_once o a id) = add_relation_idempotent h o a id >>= λ r. pure (told (r ∷ []))
  perform (produce o artifact step inputs metadata time) =
      record_production h o artifact step inputs metadata time >>= λ rs. pure (told rs)
  perform read = snapshot h >>= λ rs. pure (told rs)

  -- A session keeps on after a call that raised.
  unfoldable pub session : List Call → Lineage → List (Result Answer) × Lineage
  session [] l = ([], l)
  session (c ∷ calls) l =
      let (answer, after) = perform c l in
      let (answers, last) = session calls after in (answer ∷ answers, last)

-- The disk meets every write of a call.
pub record ReliableAlways (o : ℕ → Outside) : Type 0 where
  pub always : (n : ℕ) → Reliable (o n).disk

abbrev pub ReliableCall : Call → Type 0
ReliableCall (know_identity v) = Unit
ReliableCall (know_artifact v) = Unit
ReliableCall (know_step v) = Unit
ReliableCall (add o a) = Reliable o.disk
ReliableCall (add_once o a id) = Reliable o.disk
ReliableCall (produce o artifact step inputs metadata time) = ReliableAlways o
ReliableCall read = Unit

abbrev pub ReliableCalls : List Call → Type 0
ReliableCalls [] = Unit
ReliableCalls (c ∷ calls) = ReliableCall c × ReliableCalls calls

relations-stored :
    (h : Host) (l : Lineage) (f : File)
    → l.backing ≡ stored f
    → relations h l ≡ read_relations h l.known f
unfolding relations
relations-stored h l f e = ground (arith, e)

read-Agrees : (h : Host) → Agrees h (snapshot h)
read-Agrees h = record {
  at = λ m f s. (
    relations-memory h m s.rs s.in_memory
        ∙ sym s.readable
        ∙ ap (λ (k : Known). read_relations h k s.file) (sym s.same_known)
        ∙ sym (relations-stored h f s.file s.in_file),
    s,
  );
}

for_each-Agrees :
    (h : Host) {A : Type 0} (g : A → Exec Lineage (Unit {0})) (xs : List A)
    → ((x : A) → Agrees h (g x))
    → Agrees h (for_each g xs)
unfolding for_each
for_each-Agrees h g [] ag = lift-Agrees h (ok tt)
for_each-Agrees h g (x ∷ xs) ag = >>=-Agrees h (g x) _ (ag x) (λ _. for_each-Agrees h g xs ag)

module _ (h : Host) (laws : IsoLaws h) (words : RelationWords h) (names : FieldLaws h) where
  abbrev adds : (o : Outside) (a : Addition) → Reliable o.disk → Agrees h (add_relation h o a)
  adds = add_relation-Agrees h laws words names

  settle-Agrees :
      (o : Outside) (w : LineageRelation) (found : Option LineageRelation)
      → Reliable o.disk
      → Agrees h (settle h o w found)
  unfolding settle
  settle-Agrees o w none reliable = adds o (repeat_of w) reliable
  settle-Agrees o w (some r) reliable = lift-Agrees h _

  add_once-Agrees :
      (o : Outside) (a : Addition) (id : String)
      → Reliable o.disk
      → Agrees h (add_relation_idempotent h o a id)
  unfolding add_relation_idempotent
  add_once-Agrees o a id reliable = >>=-Agrees h (lift (wanted h o a id)) _ (lift-Agrees h _) (λ w.
      >>=-Agrees h (snapshot h) _ (read-Agrees h)
        (λ rs. settle-Agrees o w (find_relation id rs) reliable))

  add_derived-Agrees :
      (o : ℕ → Outside) (n : ℕ) (artifact : String) (time : Option String)
      (metadata : Option Fields) (inputs : List String)
      → ReliableAlways o
      → Agrees h (add_derived h o n artifact time metadata inputs)
  unfolding add_derived
  add_derived-Agrees o n artifact time metadata [] r = lift-Agrees h (ok [])
  add_derived-Agrees o n artifact time metadata (i ∷ is) r =
      let first = adds (o n) (occurrence derived_from artifact i time metadata) (r.always n) in
      let rest = add_derived-Agrees o (n + 1) artifact time metadata is r in
      search (>>=-Agrees h, lift-Agrees h)

  know_production-Agrees :
      (artifact step : String) (inputs : List String)
      → Agrees h (know_production h artifact step inputs)
  unfolding know_production
  know_production-Agrees artifact step inputs =
      search
        (
          >>=-Agrees h,
          lift-Agrees h,
          register_artifact-Agrees h,
          register_step-Agrees h,
          for_each-Agrees h,
        )
        depth 12

  record_production-Agrees :
      (o : ℕ → Outside) (artifact step : String) (inputs : List String) (metadata : Option Fields)
      (created_at : Option String)
      → ReliableAlways o
      → Agrees h (record_production h o artifact step inputs metadata created_at)
  unfolding record_production
  record_production-Agrees o artifact step inputs metadata created_at r =
      let time = some (or_default created_at (o 0).now) in
      let produced = adds (o 0) (occurrence produced_by artifact step time metadata) (r.always 0) in
      search (>>=-Agrees h, lift-Agrees h, know_production-Agrees, add_derived-Agrees)

  perform-Agrees : (c : Call) → ReliableCall c → Agrees h (perform h c)
  unfolding perform
  perform-Agrees (know_identity v) r =
      search (>>=-Agrees h, lift-Agrees h, register_identity-Agrees h)
  perform-Agrees (know_artifact v) r =
      search (>>=-Agrees h, lift-Agrees h, register_artifact-Agrees h)
  perform-Agrees (know_step v) r = search (>>=-Agrees h, lift-Agrees h, register_step-Agrees h)
  perform-Agrees (add o a) r = search (>>=-Agrees h, lift-Agrees h, adds)
  perform-Agrees (add_once o a id) r = search (>>=-Agrees h, lift-Agrees h, add_once-Agrees)
  perform-Agrees (produce o artifact step inputs metadata time) r =
      search (>>=-Agrees h, lift-Agrees h, record_production-Agrees)
  perform-Agrees read r = search (>>=-Agrees h, lift-Agrees h, read-Agrees h)

  -- Given the laws of ISO dates, of the names of the relation types and of the name of the digest
  -- field: on a disk that meets every write and sync, a strict lineage in a file gives to any sequence of
  -- calls the answers, exceptions included, of a lineage in memory that holds the relations of that
  -- file and knows the same identities; and it holds the same relations afterwards.
  pub session-Mirrors :
      (calls : List Call) (m f : Lineage)
      → ReliableCalls calls
      → Mirrors h m f
      → ((session h calls m).0 ≡ (session h calls f).0)
        × Mirrors h (session h calls m).1 (session h calls f).1
  unfolding session
  session-Mirrors [] m f r s = (refl, s)
  session-Mirrors (c ∷ calls) m f r s =
      let (same, s') = (perform-Agrees c r.0).at m f s in
      let (rest, last) = session-Mirrors calls (perform h c m).1 (perform h c f).1 r.1 s' in
      (ap₂ ◌∷◌ same rest, last)
