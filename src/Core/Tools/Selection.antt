-- ===== src/Core/Tools/Selection.antt =====
-- core/tools.py, `ToolRegistry`: what registering a tool makes of resolving it.
use molly.Prelude.{
  String, ◌≡◌, refl, sym, ◌∙◌, Bool, true, false, ◌==◌, some, List, [], ◌∷◌, ◌++◌, any, keep,
  keep-append, arith, ok, err, eq_refl, bind-eq-ok, ok-injective, refuse, refuse-eq-ok,
  tool_contract,
}
use molly.Core.Ids.{validate_identifier}
use molly.Core.Tools.Spec.{ToolSpec}
use molly.Core.Tools.Registry.{RegisteredTool, register, resolve, same_key}

module _ {Executor : Type 0} where
  -- The entries that `resolve` is left with, of one name and one version.
  candidates : String → String → List (RegisteredTool Executor) → List (RegisteredTool Executor)
  candidates name version tools =
      keep (λ (e : RegisteredTool Executor). e.spec.version == version)
        (keep (λ (e : RegisteredTool Executor). e.spec.name == name) tools)

  none_before :
      (name version : String) (tools : List (RegisteredTool Executor))
      → any (same_key name version) tools ≡ false
      → candidates name version tools ≡ []
  unfolding candidates
  none_before name version [] a = refl
  none_before name version (t ∷ tools) a = ground (arith, a, none_before name version tools)

  candidates-append :
      (name version : String) (xs ys : List (RegisteredTool Executor))
      → candidates name version (xs ++ ys)
        ≡ candidates name version xs ++ candidates name version ys
  unfolding candidates
  candidates-append name version xs ys =
      rw (keep-append (λ (e : RegisteredTool Executor). e.spec.name == name) xs ys) (
        keep-append (λ (e : RegisteredTool Executor). e.spec.version == version)
          (keep (λ (e : RegisteredTool Executor). e.spec.name == name) xs) _)

  any-snoc :
      (p : RegisteredTool Executor → Bool) (xs : List (RegisteredTool Executor))
      (x : RegisteredTool Executor)
      → p x ≡ true
      → any p (xs ++ x ∷ []) ≡ true
  any-snoc p [] x e = ground (arith, e)
  any-snoc p (y ∷ xs) x e = ground (arith, any-snoc p xs x e)

  only_itself :
      (entry : RegisteredTool Executor)
      → candidates entry.spec.name entry.spec.version (entry ∷ []) ≡ entry ∷ []
  unfolding candidates
  only_itself entry = ground (arith, eq_refl entry.spec.name, eq_refl entry.spec.version)

  -- A tool that could be registered, and whose name and version are identifiers, is what its name
  -- and version resolve to; registering it again is refused.
  pub resolve-register :
      (spec : ToolSpec) (executor : Executor) (tools after : List (RegisteredTool Executor))
      → register spec executor tools ≡ ok after
      → validate_identifier spec.name ≡ ok spec.name
      → validate_identifier spec.version ≡ ok spec.version
      → (resolve spec.name (some spec.version) after ≡ ok spec)
        × ((other : Executor) → register spec other after ≡ err tool_contract)
  unfolding register resolve candidates
  resolve-register spec executor tools after e n v =
      let entry : RegisteredTool Executor = record { spec = spec; executor = executor } in
      let (_, fresh, last) =
        bind-eq-ok (refuse (any (same_key spec.name spec.version) tools) tool_contract) _ e in
      let grown : after ≡ tools ++ entry ∷ [] = sym (ok-injective last) in
      let found : candidates spec.name spec.version after ≡ entry ∷ [] = rw grown (
        candidates-append spec.name spec.version tools (entry ∷ [])
        ∙ rw (none_before spec.name spec.version tools (refuse-eq-ok _ _ fresh))
            (only_itself entry)) in
      let here : any (same_key spec.name spec.version) after ≡ true = rw grown (
        any-snoc (same_key spec.name spec.version) tools entry
          (ground (arith, eq_refl spec.name, eq_refl spec.version))) in
      (rw (n, v, found), λ other. rw here)
