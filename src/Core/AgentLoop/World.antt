-- ===== src/Core/AgentLoop/World.antt =====
-- What `AgentLoop` is given and what it changes: its collaborators, the state behind them, the
-- actions on that state, and the loop's own access to the ledger.
use molly.Prelude.{
  ℕ, zero, suc, ◌+◌, String, Option, none, some, List, [], ◌∷◌, ◌==◌, contains, length,
  if◌then◌else◌, Result, ok, err, Error, run_state, out_of_fuel,
}
use molly.Core.Json.{Json, Fields, end}
use molly.Core.Host.{Host}
use molly.Core.Ids.{concat, normalize_timestamp}
use molly.Core.Ledger
use molly.Core.Ledger.{LedgerEvent}
use molly.Core.Ledger.File
use molly.Core.Ledger.File.{Disk, for_run, read_events}
use molly.Core.Tools.Registry.{RegisteredTool}
use molly.Core.Tools.Policy.{ToolPolicy}
use molly.Core.Tools.Actions.{StructuredAction}
use molly.Core.Tools.Execution.{ToolExecutionContext, ToolResult, ArtifactDraft}
use molly.Core.Runs.{RunRequest, RunContext}
use molly.Core.AgentLoop.{event_types, metadata_call_id}
unfoldable pub use molly.Prelude.Actions.{
  Exec, pure, raise, lift, continue, ◌>>=◌, ◌>>◌, rethrow_as, when, for_each,
}

-- What a decision provider answers: an exception, an action object, or a value to be parsed.
pub data Reply : Type 0 where
  raises : Error → Reply
  action : StructuredAction → Reply
  value : Json → Reply

pub record World (S L P : Type 0) : Type 0 where
  pub ledger : File.File
  pub store : S
  pub lineage : L
  pub provider : P
  pub tick : ℕ

-- `ToolExecutor`: any host callable. It is called with its context and the context's bounded reader,
-- and being a closure it may read everything else as well, the ledger and the whole store included,
-- and change the store and the lineage. It does not write the file of the ledger or speak for the
-- provider.
abbrev pub ToolExecutor : Type 0 → Type 0 → Type 0 → Type 0
ToolExecutor S L P =
    ToolExecutionContext → (String → Result (List ℕ)) → World S L P → Result ToolResult × S × L

-- The collaborators of an `AgentLoop`, over the states `S` of the artifact store, `L` of the
-- lineage and `P` of the decision provider. The clock and the UUIDs are read at a counter, and so
-- is what the disk does during an append to the ledger.
pub record Env (S L P : Type 0) : Type 0 where
  pub host : Host
  pub disk : ℕ → Disk
  pub clock : ℕ → String
  pub uuid : ℕ → String
  -- `type(error).__name__`
  pub error_name : Error → String
  pub registry : List (RegisteredTool (ToolExecutor S L P))
  pub policy : ToolPolicy
  pub store_verify : S → String → Result (Unit {0})
  pub store_read : S → String → Result (List ℕ)
  pub store_put : S → ArtifactDraft → Result String × S
  pub register_step : L → String → Result (Unit {0}) × L
  pub register_artifact : L → String → Result (Unit {0}) × L
  -- relation type, subject, object, relation identity, timestamp, metadata
  pub add_relation : L → String → String → String → String → String → Fields → Result (Unit {0}) × L
  pub next_action : P → RunContext → List Fields → Reply × P

-- The identities of one kind that the ledger's events carry.
pub data IdField : Type 0 where
  event_field step_field call_field : IdField

abbrev push_some : Option String → List String → List String
push_some none ids = ids
push_some (some x) ids = if x == "" then ids else x ∷ ids

abbrev pub carried : IdField → LedgerEvent → Option String
carried event_field e = some e.event_id
carried step_field e = e.step_id
carried call_field e = metadata_call_id e

unfoldable pub used_ids : IdField → List LedgerEvent → List String
used_ids kind [] = []
used_ids kind (e ∷ es) = push_some (carried kind e) (used_ids kind es)

-- The loop of `_new_unique_id` over `new_server_id(prefix)`, from UUID number `n` on.
unfoldable pub first_unused : (ℕ → String) → String → List String → ℕ → ℕ → Option (String × ℕ)
first_unused uuid prefix used zero n = none
first_unused uuid prefix used (suc fuel) n =
    let candidate = concat prefix (uuid n) in
    let rest = first_unused uuid prefix used fuel (n + 1) in
    if contains used candidate then rest else some (candidate, n + 1)

module _ {S L P : Type 0} (env : Env S L P) where
  -- `_now`
  unfoldable pub now : Exec (World S L P) String
  now w = (normalize_timestamp env.host (env.clock w.tick), record w { tick = w.tick + 1 })

  -- `_new_unique_id`; the identities used are one fewer than the candidates tried.
  unfoldable pub new_unique_id : String → IdField → Exec (World S L P) String
  unfolding first_unused used_ids read_events
  new_unique_id prefix kind w = elim (read_events env.host w.ledger) [
    | err e ↦ (err e, w)
    | ok events ↦
        let used = used_ids kind events in
        elim (first_unused env.uuid prefix used (suc (length used)) w.tick) [
          | none ↦ (err out_of_fuel, w)
          | some (id, tick) ↦ (ok id, record w { tick = tick })
        ]
  ]

  -- `self.ledger.for_run(run_id)`
  unfoldable pub run_events : String → Exec (World S L P) (List LedgerEvent)
  run_events run_id w = (for_run env.host run_id w.ledger, w)

  -- `LedgerEvent(**fields)` and `RunLedger.append`
  unfoldable pub ledger_append : LedgerEvent → Exec (World S L P) LedgerEvent
  ledger_append e w = elim (Ledger.post_init env.host e) [
    | err x ↦ (err x, w)
    | ok checked ↦
        let (r, file) = File.append env.host (env.disk w.tick) checked w.ledger in
        (r, record w { ledger = file; tick = w.tick + 1 })
  ]

  -- `_append`: the event is given but for its identity, its run and its time.
  unfoldable pub append_event : RunRequest → LedgerEvent → Exec (World S L P) LedgerEvent
  unfolding now new_unique_id ledger_append
  append_event request draft =
      if contains event_types draft.event_type
      then (do
        event_id ← new_unique_id "evt_" event_field
        time ← now
        ledger_append
            (record draft { event_id = event_id; run_id = request.run_id; timestamp = time }))
      else raise run_state

-- The keyword arguments of `_append` that have a default.
unfoldable pub draft : String → String → Fields → LedgerEvent
draft event_type status metadata = record {
  event_id = "";
  run_id = "";
  event_type = event_type;
  step_id = none;
  status = some status;
  tool_name = none;
  tool_version = none;
  input_artifact_ids = [];
  output_artifact_ids = [];
  model_profile = end;
  provider_profile = end;
  prompt_digest = none;
  config_digest = none;
  seed_metadata = end;
  timestamp = "";
  metadata = metadata;
  previous_event_sha256 = none;
  event_sha256 = none;
}
