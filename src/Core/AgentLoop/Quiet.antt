-- ===== src/Core/AgentLoop/Quiet.antt =====
-- The actions of the loop that leave the ledger file alone, whether they raise or not.
use molly.Prelude.{
  tool_contract, String, ◌≡◌, refl, ◌∙◌, Bool, true, false, List, [], ◌∷◌, Option, none, some,
  Result-cases, arith, inl, inr, reconciliation_error,
}
use molly.Core.Json.{Fields}
use molly.Core.Ledger.{LedgerEvent}
use molly.Core.Tools.Spec.{ToolSpec}
use molly.Core.Tools.Actions.{ToolCallProposal}
use molly.Core.Tools.Execution.{ToolExecutionContext, ArtifactDraft}
use molly.Core.Runs.{RunRequest, RunContext}
use molly.Core.AgentLoop.World.{
  ToolExecutor, Env, World, Exec, IdField, step_field, call_field, raise, when, for_each, now,
  new_unique_id, run_events, ◌>>=◌,
}
use molly.Core.AgentLoop.Project.{RunProjection}
use molly.Core.AgentLoop.Lineage.{
  know_artifact, add, project_success, reconcile_success_lineage, on_lineage, or_unreconciled,
}
use molly.Core.AgentLoop.Execute.{
  materialize, verify_visible, validate_proposal_inputs, put_all, perform,
}
use molly.Core.AgentLoop.Run.{
  verify_inputs, result, fresh_result, finish, invoke_provider, admit, check_proposal,
}

pub record Quiet {S L P A : Type 0} (m : Exec (World S L P) A) : Type 0 where
  pub leaves : (w : World S L P) → (m w).1.ledger ≡ w.ledger

module _ {S L P : Type 0} where
  pub Quiet-bind :
      {A B : Type 0} (m : Exec (World S L P) A) (f : A → Exec (World S L P) B)
      → Quiet m
      → ((a : A) → Quiet (f a))
      → Quiet (m >>= f)
  unfolding ◌>>=◌
  Quiet-bind m f a b = record {
    leaves = λ w. elim (Result-cases (m w).0) [
      | inl (x, e) ↦ rw e ((b x).leaves (m w).1 ∙ a.leaves w)
      | inr (x, e) ↦ rw e (a.leaves w)
    ];
  }

  -- An action that is seen to leave the ledger alone.
  pub at_once :
      {A : Type 0} {m : Exec (World S L P) A}
      → ((w : World S L P) → (m w).1.ledger ≡ w.ledger)
      → Quiet m
  at_once e = record { leaves = e }

  pub Quiet-for_each :
      {A : Type 0} (f : A → Exec (World S L P) (Unit {0})) (xs : List A)
      → ((a : A) → Quiet (f a))
      → Quiet (for_each f xs)
  unfolding for_each
  Quiet-for_each f [] a = at_once (λ w. refl)
  Quiet-for_each f (x ∷ xs) a =
      Quiet-bind (f x) (λ _. for_each f xs) (a x) (λ _. Quiet-for_each f xs a)

  Quiet-when : (test : Bool) (m : Exec (World S L P) (Unit {0})) → Quiet m → Quiet (when test m)
  Quiet-when true m a = a
  Quiet-when false m a = at_once (λ w. refl)

  Quiet-or_unreconciled :
      (env : Env S L P) {A : Type 0} (o : Option A) → Quiet (or_unreconciled env o)
  Quiet-or_unreconciled env none = at_once (λ w. refl)
  Quiet-or_unreconciled env (some a) = at_once (λ w. refl)

module _ {S L P : Type 0} (env : Env S L P) where
  pub new_unique_id-Quiet :
      (prefix : String) (kind : IdField) → Quiet (new_unique_id env prefix kind)
  unfolding new_unique_id
  new_unique_id-Quiet prefix kind = at_once (λ w. ground arith)

  pub now-Quiet : Quiet (now env)
  unfolding now
  now-Quiet = at_once (λ w. refl)

  pub run_events-Quiet : (run_id : String) → Quiet (run_events env run_id)
  unfolding run_events
  run_events-Quiet run_id = at_once (λ w. refl)

  know_artifact-Quiet : (id : String) → Quiet (know_artifact env id)
  unfolding know_artifact
  know_artifact-Quiet id =
      Quiet-bind _ (λ _. on_lineage env (λ l. env.register_artifact l id)) (at_once (λ w. refl))
        (λ _. at_once (λ w. refl))

  add-Quiet :
      (e : LedgerEvent) (metadata : Fields) (r s o : String) → Quiet (add env e metadata r s o)
  unfolding add
  add-Quiet e metadata r s o = Quiet-bind _ _ (at_once (λ w. refl)) (λ _. at_once (λ w. refl))

  pub project_success-Quiet : (e : LedgerEvent) → Quiet (project_success env e)
  unfolding project_success
  project_success-Quiet e =
      Quiet-bind _ _ (Quiet-when _ (raise reconciliation_error) (at_once (λ w. refl))) (λ _.
        Quiet-bind _ _ (at_once (λ w. refl)) (λ _.
          Quiet-bind _ _ (Quiet-or_unreconciled env _) (λ step.
            Quiet-bind _ _ (Quiet-or_unreconciled env _) (λ call.
              Quiet-bind _ _ (at_once (λ w. refl)) (λ _.
                Quiet-bind _ _ (Quiet-for_each (know_artifact env) _ know_artifact-Quiet) (λ _.
                  Quiet-bind _ _
                    (Quiet-for_each _ _ (λ output.
                      Quiet-bind _ _ (add-Quiet e _ _ output step)
                        (λ _. Quiet-for_each _ _ (add-Quiet e _ _ output))))
                    (λ _. Quiet-for_each _ _ (λ input. add-Quiet e _ _ input step))))))))

  pub reconcile_success_lineage-Quiet :
      (events : List LedgerEvent) → Quiet (reconcile_success_lineage env events)
  unfolding reconcile_success_lineage
  reconcile_success_lineage-Quiet events =
      Quiet-for_each _ events (λ e. Quiet-when _ (project_success env e) (project_success-Quiet e))

  put_all-Quiet : (request : RunRequest) (ds : List ArtifactDraft) → Quiet (put_all env request ds)
  unfolding put_all
  put_all-Quiet request [] = at_once (λ w. refl)
  put_all-Quiet request (d ∷ ds) =
      Quiet-bind _ _ (at_once (λ w. refl))
        (λ id. Quiet-bind _ _ (put_all-Quiet request ds) (λ ids. at_once (λ w. refl)))

  pub perform-Quiet :
      (request : RunRequest) (spec : ToolSpec) (executor : ToolExecutor S L P)
      (c : ToolExecutionContext)
      → Quiet (perform env request spec executor c)
  unfolding perform
  perform-Quiet request spec executor c = Quiet-bind _ _ (at_once (λ w. refl)) (λ raw.
      Quiet-bind _ _ (at_once (λ w. refl)) (λ result.
        Quiet-bind _ _ (at_once (λ w. refl)) (λ encoded.
          Quiet-bind _ _ (Quiet-when _ (raise tool_contract) (at_once (λ w. refl))) (λ _.
            Quiet-bind _ _ (at_once (λ w. refl))
              (λ _. Quiet-bind _ _ (put_all-Quiet request _) (λ outputs. at_once (λ w. refl)))))))

  pub materialize-Quiet :
      (request : RunRequest) (proposal : ToolCallProposal) (spec : ToolSpec)
      → Quiet (materialize env request proposal spec)
  unfolding materialize
  materialize-Quiet request proposal spec =
      Quiet-bind _ _ (new_unique_id-Quiet "step_" step_field) (λ step.
        Quiet-bind _ _ (new_unique_id-Quiet "call_" call_field) (λ call.
          Quiet-bind _ _ (at_once (λ w. refl))
            (λ digest. Quiet-bind _ _ now-Quiet (λ time. at_once (λ w. refl)))))

  verify_visible-Quiet :
      (request : RunRequest) (visible : List String) (id : String)
      → Quiet (verify_visible env request visible id)
  unfolding verify_visible
  verify_visible-Quiet request visible id = at_once (λ w. ground arith)

  check_proposal-Quiet :
      (request : RunRequest) (proposal : ToolCallProposal) (events : List LedgerEvent)
      → Quiet (check_proposal env request proposal events)
  unfolding check_proposal validate_proposal_inputs
  check_proposal-Quiet request proposal events = Quiet-bind _ _ (at_once (λ w. refl)) (λ spec.
      Quiet-bind _ _ (Quiet-for_each _ _ (verify_visible-Quiet request _)) (λ _.
        Quiet-bind _ _ (at_once (λ w. refl))
          (λ _. Quiet-bind _ _ (at_once (λ w. refl)) (λ _. at_once (λ w. refl)))))

  pub admit-Quiet :
      (request : RunRequest) (proposal : ToolCallProposal) (events : List LedgerEvent)
      → Quiet (admit env request proposal events)
  unfolding admit
  admit-Quiet request proposal events =
      at_once (check_proposal-Quiet request proposal events).leaves

  pub invoke_provider-Quiet :
      (request : RunRequest) (c : RunContext) → Quiet (invoke_provider env request c)
  unfolding invoke_provider
  invoke_provider-Quiet request c = at_once (λ w. refl)

  pub verify_inputs-Quiet : (request : RunRequest) → Quiet (verify_inputs env request)
  unfolding verify_inputs
  verify_inputs-Quiet request = Quiet-for_each _ _ (λ id. at_once (λ w. refl))

  pub result-Quiet :
      (request : RunRequest) (p : RunProjection) (message : String)
      → Quiet (finish env request (result env request p message))
  unfolding finish result
  result-Quiet request p message =
      Quiet-bind _ _ (Quiet-bind _ _ (run_events-Quiet _) (λ events. at_once (λ w. refl)))
        (λ r. at_once (λ w. refl))

  pub fresh_result-Quiet :
      (request : RunRequest) (message : String)
      → Quiet (finish env request (fresh_result env request message))
  unfolding finish fresh_result
  fresh_result-Quiet request message =
      Quiet-bind _ _
        (Quiet-bind _ _ (run_events-Quiet _)
          (λ events. Quiet-bind _ _ (at_once (λ w. refl)) (λ p. at_once (λ w. refl))))
        (λ r. at_once (λ w. refl))
