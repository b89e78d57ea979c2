-- ===== src/Lib.antt =====
-- Molly runs a research agent: a decision provider (a model or a script) proposes structured
-- actions, and the server's loop admits, approves, executes and records them. This library models
-- the core package, src/molly/core, and states what makes its ledger and its loop correct.
--
-- The parts and how they interact. An agent loop (core/agent_loop.py) is given a run request
-- (core/runs.py). It reads the run's events from an append-only ledger (core/ledger.py), computes
-- from them the state of the run, asks the provider for an action, materializes a proposed tool
-- call (core/tools.py), waits for a human approval (core/approvals.py) where the policy wants one,
-- executes the call, and appends an event for each step. All identities, digests and JSON values
-- go through core/ids.py. The results of a call are artifacts in a content-addressed store
-- (core/artifacts.py), whose origins a lineage records (core/lineage.py); people review artifacts
-- (core/reviews.py), and validators judge them (core/validation.py).
--
-- Files. Prelude holds the shared names: numbers and tests, lists, and in Prelude/Errors the
-- exception classes of src/molly/core/errors.py with the type of a fallible value, and in
-- Prelude/Actions the actions on a state. Core/Json is the Python value that a JSON text decodes
-- to. Core/Host is a record of what the standard library and jsonschema do: SHA-256, the parsing
-- and printing of ISO dates, floats, Unicode tables, schema validation; the laws of ISO dates that
-- some theorems need are the record IsoLaws of Core/Ids/Laws. Core/Ids, Core/Freeze and Core/Dumps
-- model src/molly/core/ids.py: the validators; _freeze_json and thaw_json; canonical_json_bytes
-- and json_sha256. Core/Values is what the readers of dictionaries do with str(), tuple() and
-- dict().
--
-- Core/Ledger is LedgerEvent of src/molly/core/ledger.py: __post_init__ is post_init, to_dict and
-- computed_sha256 keep their names, from_dict is from_dict. Core/Ledger/File is RunLedger over a
-- file that is missing, a symlink, irregular, unreadable, or a list of lines, each of them torn,
-- empty, undecodable or a decoded value: _read_events is read_events, append is append, and a
-- record Disk says whether the path is clean, whether the write of the line ends or leaves a part
-- of it, and whether the fsync and the close behind it end. Core/Ledger/Reading, Sealing, Codec,
-- Growth and Authentic are proofs about them.
--
-- Core/Tools has a file for each part of src/molly/core/tools.py: Spec (ToolSpec), Registry
-- (ToolRegistry), Policy (ToolPolicy), Actions (the structured actions and action_from_value),
-- Call (MaterializedToolCall) and Execution (ToolExecutionContext, ArtifactDraft, ToolResult). An
-- executor, ToolExecutor, is in Core/AgentLoop/World: any function of the context, of its
-- read_artifact and of the whole state of the loop, which answers a result and may change the
-- artifact store and the lineage, the ledger not. Core/Tools/Codec and Selection are proofs about
-- calls and the registry. Core/Approvals is src/molly/core/approvals.py, with a proof in its
-- Codec, and Core/Runs is src/molly/core/runs.py.
--
-- Core/Lineage is LineageRelation of src/molly/core/lineage.py. Its child File is
-- ArtifactLineage._read_relations, Graph the state of ArtifactLineage (relations in memory or in a
-- file, known identities, the strict mode) with __init__, the register methods and add_relation,
-- and Methods what is made of these: add_relation_idempotent, record_production and the questions;
-- == of two mappings is in Core/Equality. Codec, Sealing and Reading are proofs about one relation
-- and one file; Refinement and Publishing compare a lineage in a file with one in memory, step by
-- step, and Sessions over any calls; Memory, Keeping, Wanted, Repeats, Productions and Origins are
-- about a lineage in memory.
--
-- Core/Artifacts is ArtifactRecord of src/molly/core/artifacts.py, and Core/Artifacts/Store is
-- ArtifactStore: what stands at the paths of objects and metadata, looked up by digest, and put,
-- verify, read, read_metadata and exists over it; a Publication says what _publish_no_replace
-- meets: another process that was first, a failure before the link, or one of the fsync behind it;
-- a Request says whether a folder can be made. Records, Integrity, Publication, Roundtrip, Answers
-- and Again are proofs about them. Core/Reviews and Core/Validation are src/molly/core/reviews.py
-- and src/molly/core/validation.py, with proofs in their Codec and in Reviews/Binding.
--
-- Core/AgentLoop is src/molly/core/agent_loop.py. Its state is the record World of
-- Core/AgentLoop/World: the ledger file, the states of the artifact store, the lineage and the
-- provider, and a counter at which the clock, the UUIDs and the disk are read. Its collaborators
-- are the record Env. An action is a function from a state to a result and a state, which keeps
-- the state it reached when it raises. Project is _project, Limits is _counts and
-- _hard_limit_reason, View is _context, _result and status, Lineage is _project_success, Execute
-- is _materialize to _execute_call, and Run is _initialize_or_validate (its child Start) and run
-- (its children Answers and Operator, and itself). Pending, Rejection, Halting, Fresh and Bounds
-- are proofs about them. Admission is about the checks of a proposal. Quiet, Steps, Course,
-- Rounds, Phases and Asking follow a whole run: which actions leave the ledger alone, what the
-- others do to it, and that a run keeps whatever its appends keep; History and Limited apply that,
-- with Growing on one event more and Budget on the counts of a longer ledger. Measure bounds the
-- rounds that a run has left, Outcomes is about actions that end well, Materialized about the
-- events behind a pending call, and Remaining, Progress, Consulting and Ending show that a round
-- that goes on leaves fewer rounds; Termination concludes that the loop ends. Once is about a call
-- that has been executed. Tests applies the theorems at concrete inputs.
--
-- Bounds and fuel. The loop of run is recursion on fuel, with an error of its own where the fuel
-- is used up; Core/AgentLoop/Termination compares it with the rounds of its while True, which have
-- no fuel. Two rounds for each decision that the server allows, one for each materialized call,
-- one for an approval and a last one are enough, so 26 for a new run. The loop of _new_unique_id
-- is given one more round than there are identities in use, so that distinct UUIDs cannot all be
-- taken. Counts and limits are unbounded numbers, as Python's are.
--
-- Not modelled: file locks and descriptors (one process appends at a time), tool executors that
-- write the ledger of their own run, other processes that replace files of the artifact store
-- during a put, the text of error messages, values of a type that the annotations exclude, and the
-- packages outside src/molly/core. The artifact store, the lineage, the tool executors and the
-- provider are parameters of the loop: arbitrary functions on arbitrary states. Reading a written
-- line back gives the dictionary that was written.
pub mod Prelude
pub mod Core
pub mod Tests
