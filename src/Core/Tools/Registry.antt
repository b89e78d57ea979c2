-- ===== src/Core/Tools/Registry.antt =====
-- core/tools.py: `ToolRegistry`, the closed map from exact tool versions to executors.
use Prim.Native.Nat.{Ordering}
use Prim.Native.String.{compare}
use molly.Prelude.{
  String, Bool, true, false, ◌&&◌, Option, none, some, List, [], ◌∷◌, ◌++◌, map, ◌==◌, any, keep,
  if◌then◌else◌, Result, ok, err, ◌>>=◌, ◌>>◌, refuse, tool_contract,
}
use molly.Core.Json.{Fields}
use molly.Core.Host.{Host}
use molly.Core.Ids.{validate_identifier, validate_digest_reference}
use molly.Core.Tools.Spec.{ToolSpec, spec_digest, model_view}

pub record RegisteredTool (Executor : Type 0) : Type 0 where
  pub spec : ToolSpec
  pub executor : Executor

module _ {Executor : Type 0} where
  -- the entry that `_tools` has under the key of `spec`
  abbrev pub same_key : String → String → RegisteredTool Executor → Bool
  same_key name version entry = entry.spec.name == name && entry.spec.version == version

  unfoldable pub register :
      ToolSpec → Executor → List (RegisteredTool Executor) → Result (List (RegisteredTool Executor))
  register spec executor tools = do
    refuse (any (same_key spec.name spec.version) tools) tool_contract
    ok (tools ++ (record { spec = spec; executor = executor }) ∷ [])

  unfoldable pub by_name :
      String → List (RegisteredTool Executor) → Result (List (RegisteredTool Executor))
  by_name name tools =
      validate_identifier name >> ok (keep (λ entry. entry.spec.name == name) tools)

  -- The narrowing of the candidates by a version, if one is given.
  abbrev pub of_version :
      Option String → List (RegisteredTool Executor) → Result (List (RegisteredTool Executor))
  of_version none candidates = ok candidates
  of_version (some version) candidates =
      validate_identifier version >> ok (keep (λ entry. entry.spec.version == version) candidates)

  abbrev pub only : List (RegisteredTool Executor) → Result ToolSpec
  only [] = err tool_contract
  only (entry ∷ []) = ok entry.spec
  only (_ ∷ _ ∷ _) = err tool_contract

  unfoldable pub resolve : String → Option String → List (RegisteredTool Executor) → Result ToolSpec
  unfolding by_name
  resolve name version tools = do
    named ← by_name name tools
    candidates ← of_version version named
    only candidates

  unfoldable pub resolve_exact :
      Host → String → String → String → List (RegisteredTool Executor) → Result ToolSpec
  resolve_exact h name version digest tools = do
    spec ← resolve name (some version) tools
    expected ← validate_digest_reference digest
    actual ← spec_digest h spec
    if actual == expected then ok spec else err tool_contract

  abbrev find :
      (RegisteredTool Executor → Bool)
      → List (RegisteredTool Executor)
      → Option (RegisteredTool Executor)
  find p [] = none
  find p (x ∷ xs) = if p x then some x else find p xs

  unfoldable pub executor_for : Host → ToolSpec → List (RegisteredTool Executor) → Result Executor
  executor_for h spec tools = elim (find (same_key spec.name spec.version) tools) [
    | none ↦ err tool_contract
    | some entry ↦ do
      registered ← spec_digest h entry.spec
      asked ← spec_digest h spec
      if registered == asked then ok entry.executor else err tool_contract
  ]

-- `key=lambda item: (item.name, item.version)`
comes_before : ToolSpec → ToolSpec → Bool
comes_before a b = elim (compare a.name b.name) [
  | Ordering.lt ↦ true
  | Ordering.gt ↦ false
  | Ordering.eq ↦ elim (compare a.version b.version) [ Ordering.gt ↦ false | _ ↦ true ]
]

insert_spec : ToolSpec → List ToolSpec → List ToolSpec
unfolding comes_before
insert_spec s [] = s ∷ []
insert_spec s (t ∷ ts) =
    let later = insert_spec s ts in if comes_before s t then s ∷ t ∷ ts else t ∷ later

unfoldable pub specs : {Executor : Type 0} → List (RegisteredTool Executor) → List ToolSpec
unfolding insert_spec
specs [] = []
specs (entry ∷ tools) = insert_spec entry.spec (specs tools)

unfoldable pub model_visible_tools :
    {Executor : Type 0} → List (RegisteredTool Executor) → List Fields
model_visible_tools tools = map model_view (specs tools)
