-- ===== src/Core/Ledger/Sealing.antt =====
-- What `RunLedger.append` makes of an event before it writes it: the same occurrence, linked to the
-- events before it and sealed by the digest of its own body.
use molly.Prelude.{
  String, ◌≡◌, refl, false, none, some, List, ◌==◌, any, arith, ok, sym, ap, ◌∙◌, ok-injective,
  bind-eq-ok, refuse, refuse-eq-ok, ledger_error,
}
use molly.Core.Json.{obj}
use molly.Core.Host.{Host}
use molly.Core.Freeze.{freeze-frozen, freeze_json_mapping}
use molly.Core.Dumps.{canonical_json_bytes}
use molly.Core.Ids.Laws.{IsoLaws, validate_artifact_ids-Keeps, normalize_timestamp_idem}
use molly.Core.Ledger.{LedgerEvent, post_init, computed_sha256, body, to_dict}
use molly.Core.Ledger.File.{prepare, head_digest}

-- Checking a checked event again, sealed or not, changes nothing.
post_init_again :
    (h : Host) (laws : IsoLaws h) (r e p : LedgerEvent) (d : String)
    → post_init h r ≡ ok e
    → post_init h (record e { event_sha256 = some d }) ≡ ok p
    → p ≡ record e { event_sha256 = some d }
unfolding post_init
post_init_again h laws r e p d q s = ground (
  arith,
  validate_artifact_ids-Keeps r.input_artifact_ids,
  validate_artifact_ids-Keeps r.output_artifact_ids,
  freeze-frozen h r.model_profile e.model_profile,
  freeze-frozen h r.provider_profile e.provider_profile,
  freeze-frozen h r.seed_metadata e.seed_metadata,
  freeze-frozen h r.metadata e.metadata,
  normalize_timestamp_idem h laws r.timestamp e.timestamp,
)

computed_sha256-sealed :
    (h : Host) (e : LedgerEvent) (d : String)
    → computed_sha256 h (record e { event_sha256 = some d }) ≡ computed_sha256 h e
unfolding computed_sha256 body
computed_sha256-sealed h e d = refl

-- `p` tells the occurrence that `e` tells: only times and mappings have been normalised, and the
-- two fields of the chain set.
pub record SameOccurrence (h : Host) (e p : LedgerEvent) : Type 0 where
  pub same_id : p.event_id ≡ e.event_id
  pub same_run : p.run_id ≡ e.run_id
  pub same_type : p.event_type ≡ e.event_type
  pub same_step : p.step_id ≡ e.step_id
  pub same_status : p.status ≡ e.status
  pub same_tool : p.tool_name ≡ e.tool_name
  pub same_version : p.tool_version ≡ e.tool_version
  pub same_inputs : p.input_artifact_ids ≡ e.input_artifact_ids
  pub same_outputs : p.output_artifact_ids ≡ e.output_artifact_ids
  pub same_metadata : freeze_json_mapping h e.metadata ≡ ok p.metadata

pub post_init-SameOccurrence :
    (h : Host) (e p : LedgerEvent) → post_init h e ≡ ok p → SameOccurrence h e p
unfolding post_init
post_init-SameOccurrence h e p q = ground (
  arith,
  validate_artifact_ids-Keeps e.input_artifact_ids,
  validate_artifact_ids-Keeps e.output_artifact_ids,
)

post_init-previous :
    (h : Host) (e p : LedgerEvent)
    → post_init h e ≡ ok p
    → p.previous_event_sha256 ≡ e.previous_event_sha256
unfolding post_init
post_init-previous h e p q = ground arith

-- `p` is the sealed form of `e` behind the events of `es`.
pub record Seals (h : Host) (e : LedgerEvent) (es : List LedgerEvent) (p : LedgerEvent)
    : Type 0 where
  pub checked_from : LedgerEvent
  pub checked : post_init h checked_from ≡ ok p
  pub digest : String
  pub is_sealed : p.event_sha256 ≡ some digest
  pub covers : computed_sha256 h p ≡ ok digest
  pub linked : p.previous_event_sha256 ≡ head_digest es
  pub fresh : any (λ item. item.event_id == p.event_id) es ≡ false
  pub same : SameOccurrence h e p

pub prepare-Seals :
    (h : Host) (laws : IsoLaws h) (e : LedgerEvent) (es : List LedgerEvent) (p : LedgerEvent)
    → prepare h e es ≡ ok p
    → Seals h e es p
unfolding prepare
prepare-Seals h laws e es p q =
    let (_, apart, q1) =
      bind-eq-ok (refuse (any (λ item. item.event_id == e.event_id) es) ledger_error) _ q in
    let raw = record e { previous_event_sha256 = head_digest es; event_sha256 = none } in
    let (prepared, initial, q2) = bind-eq-ok (post_init h raw) _ q1 in
    let (d, computed, q3) = bind-eq-ok (computed_sha256 h prepared) _ q2 in
    let (persisted, again, q4) =
      bind-eq-ok (post_init h (record prepared { event_sha256 = some d })) _ q3 in
    let (_, encoded, q5) = bind-eq-ok (canonical_json_bytes h (obj (to_dict persisted))) _ q4 in
    let same : persisted ≡ p = ok-injective q5 in
    let shape = post_init_again h laws raw prepared persisted d initial again in
    let told = post_init-SameOccurrence h raw prepared initial in
    let shape' : p ≡ record prepared { event_sha256 = some d } = sym same ∙ shape in
    record {
      checked_from = record prepared { event_sha256 = some d };
      checked = again ∙ ap ok same;
      digest = d;
      is_sealed = ap (λ (t : LedgerEvent). t.event_sha256) shape';
      covers = ap (computed_sha256 h) shape' ∙ computed_sha256-sealed h prepared d ∙ computed;
      linked =
          ap (λ (t : LedgerEvent). t.previous_event_sha256) shape'
          ∙ post_init-previous h raw prepared initial;
      fresh = rw (shape', told.same_id) (refuse-eq-ok _ _ apart);
      same = rw shape' (record {
        same_id = told.same_id;
        same_run = told.same_run;
        same_type = told.same_type;
        same_step = told.same_step;
        same_status = told.same_status;
        same_tool = told.same_tool;
        same_version = told.same_version;
        same_inputs = told.same_inputs;
        same_outputs = told.same_outputs;
        same_metadata = told.same_metadata;
      });
    }
