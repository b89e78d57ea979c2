-- ===== src/Tests/Machine.antt =====
-- A small concrete machine for the tests: constant digests, two dates, and no Unicode.
use molly.Prelude.{
  ℕ, [], ap, ok, err, zero, suc, os_error, stop_iteration, String, ◌≡◌, refl, true, false, Option,
  none, some, ◌==◌, if◌then◌else◌, arith,
}
use molly.Core.Ids.{concat}
use molly.Core.Ids.Laws.{remove_prefix-concat}
use molly.Core.Ledger.File.{File}
use molly.Core.Runs.{RunRequest}
use molly.Core.AgentLoop.World.{Env, World, raises}
use molly.Core.Json.{end, Fields}
use molly.Core.Ledger.{LedgerEvent}
use molly.Core.Tools.Call.{MaterializedToolCall}
use molly.Core.Host.{Host, Moment}
use molly.Core.Ids.Laws.{IsoLaws}

abbrev pub digest_a : String
digest_a = "aaaaaaaaaaaaaaaaaaaaaaaaaaaaaaaaaaaaaaaaaaaaaaaaaaaaaaaaaaaaaaaa"

abbrev pub noon : String
noon = "2024-01-01T12:00:00.000000Z"

abbrev pub midday : Moment
midday = record { is_aware = true; utc = some 0 }

abbrev pub dates : String → Option Moment
dates text =
    if text == "2024-01-01T12:00:00.000000+00:00"
    then some midday
    else if text == "2024-01-01T14:00:00+02:00"
    then some midday
    else none

abbrev pub machine : Host
machine = record {
  sha256 = λ _. digest_a;
  from_iso = dates;
  iso_text = λ _. "2024-01-01T12:00:00.000000+00:00";
  str_of = λ _. "value";
  int_of = λ _. none;
  casefold = λ text. text;
  strip = λ text. text;
  upper = λ text. text;
  is_space = λ _. false;
  equal_float = λ _ _. true;
  check_schema = λ _. true;
  conforms = λ _ _. true;
}

dates-midday : (t : String) (d : Moment) → dates t ≡ some d → midday ≡ d
dates-midday t d e = ground arith

pub machine-IsoLaws : IsoLaws machine
unfolding concat
machine-IsoLaws = record {
  stamp = λ _. "2024-01-01T12:00:00.000000";
  in_utc = λ m. refl;
  unsigned = λ m. refl;
  unspaced = λ m. refl;
  reads_back = λ t m e. ap some (dates-midday t (record { is_aware = true; utc = some m }) e);
}

abbrev pub request : RunRequest
request = record {
  run_id = "run_1";
  goal = "find";
  input_artifact_ids = [];
  tool_policy_digest = digest_a;
  created_at = noon;
  metadata = end;
  legacy_budget = none;
}

-- The UUIDs of the tests: `n` letters.
unfoldable pub counted : ℕ → String
counted zero = ""
counted (suc n) = concat "a" (counted n)

same_tail : (s t : String) → concat "a" s ≡ concat "a" t → s ≡ t
same_tail s t e = cc (remove_prefix-concat "a" s, remove_prefix-concat "a" t, e)

pub counted-injective : (i j : ℕ) → counted i ≡ counted j → i ≡ j
unfolding counted concat
counted-injective zero zero e = refl
counted-injective zero (suc j) e = cc
counted-injective (suc i) zero e = cc
counted-injective (suc i) (suc j) e =
    ap suc (counted-injective i j (same_tail (counted i) (counted j) e))

abbrev pub env : Env (Unit {0}) (Unit {0}) (Unit {0})
env = record {
  host = machine;
  disk = λ _. record { ancestors_clean = true; writes = true; tears = true; flushes = true };
  clock = λ _. noon;
  uuid = counted;
  error_name = λ _. "ToolError";
  registry = [];
  policy = record {
    allowed_tools = [];
    allowed_side_effect_classes = [];
    approval_required_side_effect_classes = [];
  };
  store_verify = λ _ _. ok tt;
  store_read = λ _ _. ok [];
  store_put = λ s _. (err os_error, s);
  register_step = λ l _. (ok tt, l);
  register_artifact = λ l _. (ok tt, l);
  add_relation = λ l _ _ _ _ _ _. (ok tt, l);
  next_action = λ p _ _. (raises stop_iteration, p);
}

abbrev pub world : File → World (Unit {0}) (Unit {0}) (Unit {0})
world file = record { ledger = file; store = tt; lineage = tt; provider = tt; tick = 0 }

abbrev pub event : String → Option String → Option String → Fields → Option String → LedgerEvent
event kind step tool metadata digest = record {
  event_id = "evt_a";
  run_id = "run_1";
  event_type = kind;
  step_id = step;
  status = some "DONE";
  tool_name = tool;
  tool_version = tool;
  input_artifact_ids = [];
  output_artifact_ids = [];
  model_profile = end;
  provider_profile = end;
  prompt_digest = none;
  config_digest = none;
  seed_metadata = end;
  timestamp = noon;
  metadata = metadata;
  previous_event_sha256 = none;
  event_sha256 = digest;
}

abbrev pub call : MaterializedToolCall
call = record {
  run_id = "run_1";
  step_id = "step_1";
  call_id = "call_1";
  tool_name = "t1";
  tool_version = "t1";
  tool_spec_digest = digest_a;
  policy_digest = digest_a;
  arguments = end;
  input_artifact_ids = [];
  created_at = noon;
  tool_call_digest = some digest_a;
  reason_summary = "";
}

-- An event about that call.
abbrev pub call_event_of : String → Fields → LedgerEvent
call_event_of kind metadata = event kind (some "step_1") (some "t1") metadata none
