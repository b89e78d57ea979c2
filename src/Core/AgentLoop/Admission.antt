-- ===== src/Core/AgentLoop/Admission.antt =====
-- core/agent_loop.py: what holds of a proposal that `run` lets through to its materialization.
use molly.Prelude.{
  ok-injective, ap, String, ◌≡◌, refl, true, List, [], ◌∷◌, none, Result, Result-cases, Bool-cases,
  inl, inr, ok, contains, ◌∙◌,
}
use molly.Core.Ledger.{LedgerEvent}
use molly.Core.Tools.Spec.{ToolSpec, validate_arguments}
use molly.Core.Tools.Registry.{resolve}
use molly.Core.Tools.Policy.{check}
use molly.Core.Tools.Actions.{ToolCallProposal}
use molly.Core.Runs.{RunRequest}
use molly.Core.AgentLoop.View.{visible_artifacts}
use molly.Core.AgentLoop.World.{Env, World, Exec, for_each, ◌>>=◌}
use molly.Core.AgentLoop.Execute.{verify_visible, validate_proposal_inputs}
use molly.Core.AgentLoop.Run.{admit, check_proposal}

-- Each of the texts is visible, and the store vouches for it.
abbrev pub AllVerified : (String → Result (Unit {0})) → List String → List String → Type 0
AllVerified verify visible [] = Unit
AllVerified verify visible (id ∷ ids) =
    (contains visible id ≡ true) × (verify id ≡ ok tt) × AllVerified verify visible ids

pub record Admitted {S L P : Type 0} (env : Env S L P) (request : RunRequest)
    (proposal : ToolCallProposal) (events : List LedgerEvent) (w : World S L P) (spec : ToolSpec)
    : Type 0 where
  pub resolved : resolve proposal.tool_name none env.registry ≡ ok spec
  pub verified :
      AllVerified
        (env.store_verify w.store)
        (visible_artifacts request events)
        proposal.input_artifact_ids
  pub conforms : validate_arguments env.host spec proposal.arguments ≡ ok tt
  pub allowed : check env.policy spec ≡ ok tt

-- What it takes for an action and its continuation to return.
bind-returns :
    {W A B : Type 0} (m : Exec W A) (f : A → Exec W B) (w : W) (b : B)
    → ((m >>= f) w).0 ≡ ok b
    → (a : A) × ((m w).0 ≡ ok a) × ((f a (m w).1).0 ≡ ok b)
unfolding ◌>>=◌
bind-returns m f w b e = elim (Result-cases (m w).0) [
  | inl (a, r) ↦ (a, r, rw (◌>>=◌, r) at e)
  | inr (x, r) ↦ absurd (cc (rw (◌>>=◌, r) at e))
]

module _ {S L P : Type 0} (env : Env S L P) (request : RunRequest) where
  verify_visible_lem :
      (visible : List String) (id : String) (w : World S L P)
      → (verify_visible env request visible id w).0 ≡ ok tt
      → (contains visible id ≡ true)
        × (env.store_verify w.store id ≡ ok tt)
        × ((verify_visible env request visible id w).1 ≡ w)
  unfolding verify_visible
  verify_visible_lem visible id w e = elim (Bool-cases (contains visible id)) [
    | inl seen ↦ (seen, rw (verify_visible, seen) at e, rw (verify_visible, seen) refl)
    | inr hidden ↦ absurd (cc (rw (verify_visible, hidden) at e))
  ]

  validate_inputs_lem :
      (visible ids : List String) (w : World S L P)
      → (for_each (verify_visible env request visible) ids w).0 ≡ ok tt
      → AllVerified (env.store_verify w.store) visible ids
  unfolding for_each
  validate_inputs_lem visible [] w e = tt
  validate_inputs_lem visible (id ∷ ids) w e =
      let (_, first, later) =
        bind-returns (verify_visible env request visible id)
          (λ _. for_each (verify_visible env request visible) ids) w tt e in
      let (seen, vouched, still) = verify_visible_lem visible id w first in
      (seen, vouched, validate_inputs_lem visible ids w (rw still at later))

  check_proposal-Admitted :
      (proposal : ToolCallProposal) (events : List LedgerEvent) (w : World S L P) (spec : ToolSpec)
      → (check_proposal env request proposal events w).0 ≡ ok spec
      → Admitted env request proposal events w spec
  unfolding check_proposal validate_proposal_inputs
  check_proposal-Admitted proposal events w spec e =
      let (found, resolved, e1) = bind-returns _ _ w spec e in
      let (_, verified, e2) = bind-returns _ _ w spec e1 in
      let (_, conforms, e3) = bind-returns _ _ _ spec e2 in
      let (_, allowed, e4) = bind-returns _ _ _ spec e3 in
      let same : found ≡ spec = ok-injective e4 in
      record {
        resolved = resolved ∙ ap ok same;
        verified =
            validate_inputs_lem (visible_artifacts request events) proposal.input_artifact_ids w
              verified;
        conforms = rw same at conforms;
        allowed = rw same at allowed;
      }

  -- If the checks of a proposal pass, the specification that they return is the only registered one of
  -- the proposed name, the policy allows it, the arguments conform to its schema, and each proposed
  -- input is visible to the run and verified by the store.
  pub admit-Admitted :
      (proposal : ToolCallProposal) (events : List LedgerEvent) (w : World S L P) (spec : ToolSpec)
      → (admit env request proposal events w).0 ≡ ok spec
      → Admitted env request proposal events w spec
  unfolding admit
  admit-Admitted proposal events w spec e =
      elim (Result-cases (check_proposal env request proposal events w).0) [
        | inl (found, r) ↦
            let same : found ≡ spec = ok-injective (rw (admit, r) at e) in
            check_proposal-Admitted proposal events w spec (r ∙ ap ok same)
        | inr (x, r) ↦ absurd (cc (rw (admit, r) at e))
      ]
