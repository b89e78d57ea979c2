-- ===== src/Core/AgentLoop/Lineage.antt =====
-- core/agent_loop.py: `_project_success`, which derives the lineage of one successful execution,
-- and `_reconcile_success_lineage`, which repeats it for a whole run.
use molly.Prelude.{
  String, true, false, Option, none, some, List, ◌++◌, if◌then◌else◌, Result, ok, err,
  reconciliation_error,
}
use molly.Core.Json.{Fields, str, obj, end, field}
use molly.Core.Host.{Host}
use molly.Core.Dumps.{json_sha256}
use molly.Core.Ids.{concat}
use molly.Core.Ledger.{LedgerEvent}
use molly.Core.AgentLoop.{
  tool_execution_succeeded, is_type, metadata_call_id, validated_success_result_data,
}
use molly.Core.AgentLoop.World.{
  Env, World, Exec, pure, raise, lift, rethrow_as, when, for_each, ◌>>=◌, ◌>>◌,
}

abbrev pub produced_by : String
produced_by = "PRODUCED_BY"

abbrev pub derived_from : String
derived_from = "DERIVED_FROM"

abbrev pub consumed_by : String
consumed_by = "CONSUMED_BY"

abbrev prefixed : Result String → Result String
prefixed (ok digest) = ok (concat "rel_exec_" digest)
prefixed (err e) = err e

-- `_execution_relation_id`
unfoldable pub execution_relation_id : Host → LedgerEvent → String → String → String → Result String
execution_relation_id h e relation subject object = prefixed (
    json_sha256 h (
      obj (
        field "success_event_id" (str e.event_id) (
          field "relation_type" (str relation)
            (field "subject_id" (str subject) (field "object_id" (str object) end))))))

module _ {S L P : Type 0} (env : Env S L P) where
  -- An operation of the lineage.
  abbrev pub on_lineage : (L → Result (Unit {0}) × L) → Exec (World S L P) (Unit {0})
  on_lineage f w = let (r, l) = f w.lineage in (r, record w { lineage = l })

  -- One artifact of the event: it has to be there, and becomes known to the lineage.
  unfoldable pub know_artifact : String → Exec (World S L P) (Unit {0})
  know_artifact artifact_id = do
    rethrow_as reconciliation_error (λ w. (env.store_verify w.store artifact_id, w))
    on_lineage (λ l. env.register_artifact l artifact_id)

  -- The helper `add` of `_project_success`.
  unfoldable pub add :
      LedgerEvent → Fields → String → String → String → Exec (World S L P) (Unit {0})
  unfolding execution_relation_id
  add e metadata relation subject object = do
    relation_id ← lift (execution_relation_id env.host e relation subject object)
    rethrow_as reconciliation_error (
        on_lineage
          (λ l. env.add_relation l relation subject object relation_id e.timestamp metadata))

  abbrev pub or_unreconciled : {A : Type 0} → Option A → Exec (World S L P) A
  or_unreconciled none = raise reconciliation_error
  or_unreconciled (some a) = pure a

  unfoldable pub project_success : LedgerEvent → Exec (World S L P) (Unit {0})
  unfolding know_artifact add for_each validated_success_result_data
  project_success e = do
    when (if is_type tool_execution_succeeded e then false else true) (raise reconciliation_error)
    lift (validated_success_result_data env.host e)
    step_id ← or_unreconciled e.step_id
    call_id ← or_unreconciled (metadata_call_id e)
    on_lineage (λ l. env.register_step l step_id)
    for_each know_artifact (e.input_artifact_ids ++ e.output_artifact_ids)
    let metadata : Fields =
        field "run_id" (str e.run_id)
          (field "call_id" (str call_id) (field "success_event_id" (str e.event_id) end))
    for_each
        (λ output.
          add e metadata produced_by output step_id
          >> for_each (add e metadata derived_from output) e.input_artifact_ids)
        e.output_artifact_ids
    for_each (λ input. add e metadata consumed_by input step_id) e.input_artifact_ids

  unfoldable pub reconcile_success_lineage : List LedgerEvent → Exec (World S L P) (Unit {0})
  unfolding project_success for_each
  reconcile_success_lineage events =
      for_each (λ e. when (is_type tool_execution_succeeded e) (project_success e)) events
