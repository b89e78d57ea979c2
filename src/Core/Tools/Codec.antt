-- ===== src/Core/Tools/Codec.antt =====
-- core/tools.py: a materialized call, its dictionary and `from_dict`.
use molly.Prelude.{
  ℕ, List, Result-cases, Option-cases, inl, inr, eq_iff, String, ◌≡◌, refl, sym, ◌∙◌, ap, some,
  arith, ok, Result, bind, bind-eq-ok, ok-injective, eq_refl, refuse, tool_contract,
}
use molly.Core.Json.{obj}
use molly.Core.Host.{Host}
use molly.Core.Freeze.{freeze-thaw, thaw_fields, freeze_json_mapping}
use molly.Core.Dumps.{json_sha256, canonical_json_bytes}
use molly.Core.Ids.{
  validate_identifier, validate_digest_reference, validate_sha256, validate_artifact_ids,
  normalize_timestamp,
}
use molly.Core.Ids.Laws.{
  validate_identifier-Keeps, validate_artifact_ids-Keeps, validate_digest_reference_idem,
  validate_digest_reference_bare, normalize_timestamp_idem, IsoLaws,
}
use molly.Core.Values.{dict_of, tuple_of-strings}
use molly.Core.Tools.Actions.{reject_model_authority_fields, too_long, has_nul}
use molly.Core.Tools.Call.{
  MaterializedToolCall, post_init, settle_digest, to_dict, body, computed_digest, call_of_fields,
  from_dict,
}
use molly.Core.Tools.Authority.{reject-refrozen}

-- The call as `from_dict` sees it before its checks: its arguments thawed.
abbrev thawed : MaterializedToolCall → MaterializedToolCall
thawed c = record c { arguments = thaw_fields c.arguments }

call_of_fields-to_dict :
    (h : Host) (c : MaterializedToolCall) (d : String)
    → c.tool_call_digest ≡ some d
    → call_of_fields h (to_dict c d) ≡ ok (thawed c)
unfolding call_of_fields to_dict dict_of
call_of_fields-to_dict h c d e = simp (tuple_of-strings, e)

-- A checked call holds the digest of its body.
settle_digest_lem :
    (h : Host) (c e : MaterializedToolCall)
    → settle_digest h c ≡ ok e
    → (d : String) × (e ≡ record c { tool_call_digest = some d }) × (computed_digest h c ≡ ok d)
unfolding settle_digest
settle_digest_lem h c e q = elim (Result-cases (computed_digest h c)) [
  | inr (x, failed) ↦ absurd (elim (Option-cases c.tool_call_digest) [
    | inl new ↦ ground arith
    | inr (given, has) ↦ ground arith
  ])
  | inl (d, computed) ↦ elim (Option-cases c.tool_call_digest) [
    | inl new ↦ (d, ground arith, computed)
    | inr (given, has) ↦ elim (Result-cases (validate_digest_reference given)) [
      | inr (x, bad) ↦ absurd (ground arith)
      | inl (digest, good) ↦ (d, ground (arith, eq_iff digest d), computed)
    ]
  ]
]

settle_again :
    (h : Host) (c : MaterializedToolCall) (d : String)
    → c.tool_call_digest ≡ some d
    → validate_digest_reference d ≡ ok d
    → computed_digest h c ≡ ok d
    → settle_digest h c ≡ ok c
unfolding settle_digest
settle_again h c d has valid computed = ground (arith, eq_refl d)

-- What the standard library documents of `hexdigest`: 64 lower case hexadecimal digits.
pub record HexLaws (h : Host) : Type 0 where
  pub hexadecimal : (bytes : List ℕ) → validate_sha256 (h.sha256 bytes) ≡ ok (h.sha256 bytes)

computed_digest-valid :
    (h : Host) (hex : HexLaws h) (c : MaterializedToolCall) (d : String)
    → computed_digest h c ≡ ok d
    → validate_digest_reference d ≡ ok d
unfolding computed_digest json_sha256
computed_digest-valid h hex c d e =
    let (bytes, encoded, last) = bind-eq-ok (canonical_json_bytes h (obj (body c))) _ e in
    rw (sym (ok-injective last))
      (validate_digest_reference_bare (h.sha256 bytes) (hex.hexadecimal bytes))

identifier_itself : (v w : String) → validate_identifier v ≡ ok w → validate_identifier v ≡ ok v
identifier_itself v w e = ground (arith, validate_identifier-Keeps v, e)

-- The way through the checks of a call.
record Checked (h : Host) (r c : MaterializedToolCall) : Type 0 where
  digest : String
  run : validate_identifier c.run_id ≡ ok c.run_id
  step : validate_identifier c.step_id ≡ ok c.step_id
  identity : validate_identifier c.call_id ≡ ok c.call_id
  name : validate_identifier c.tool_name ≡ ok c.tool_name
  version : validate_identifier c.tool_version ≡ ok c.tool_version
  short : refuse (too_long c.reason_summary) tool_contract ≡ ok tt
  clean : refuse (has_nul c.reason_summary) tool_contract ≡ ok tt
  spec : validate_digest_reference r.tool_spec_digest ≡ ok c.tool_spec_digest
  policy : validate_digest_reference r.policy_digest ≡ ok c.policy_digest
  allowed : reject_model_authority_fields h r.arguments ≡ ok tt
  arguments : freeze_json_mapping h r.arguments ≡ ok c.arguments
  inputs : validate_artifact_ids r.input_artifact_ids ≡ ok c.input_artifact_ids
  time : normalize_timestamp h r.created_at ≡ ok c.created_at
  holds : c.tool_call_digest ≡ some digest
  computed : computed_digest h c ≡ ok digest

computed_digest-settled :
    (h : Host) (c : MaterializedToolCall) (d : String)
    → computed_digest h (record c { tool_call_digest = some d }) ≡ computed_digest h c
unfolding computed_digest body
computed_digest-settled h c d = refl

post_init-Checked : (h : Host) (r c : MaterializedToolCall) → post_init h r ≡ ok c → Checked h r c
unfolding post_init
post_init-Checked h r c e =
    let (_, i1, e1) = bind-eq-ok (validate_identifier r.run_id) _ e in
    let (_, i2, e2) = bind-eq-ok (validate_identifier r.step_id) _ e1 in
    let (_, i3, e3) = bind-eq-ok (validate_identifier r.call_id) _ e2 in
    let (_, i4, e4) = bind-eq-ok (validate_identifier r.tool_name) _ e3 in
    let (_, i5, e5) = bind-eq-ok (validate_identifier r.tool_version) _ e4 in
    let (spec, s, e6) = bind-eq-ok (validate_digest_reference r.tool_spec_digest) _ e5 in
    let (policy, p, e7) = bind-eq-ok (validate_digest_reference r.policy_digest) _ e6 in
    let (_, a, e8) = bind-eq-ok (reject_model_authority_fields h r.arguments) _ e7 in
    let (arguments, f, e9) = bind-eq-ok (freeze_json_mapping h r.arguments) _ e8 in
    let (inputs, n, e10) = bind-eq-ok (validate_artifact_ids r.input_artifact_ids) _ e9 in
    let (time, t, e11) = bind-eq-ok (normalize_timestamp h r.created_at) _ e10 in
    let raw = record r {
      tool_spec_digest = spec;
      policy_digest = policy;
      arguments = arguments;
      input_artifact_ids = inputs;
      created_at = time;
    } in
    let (settled, q, e12) = bind-eq-ok (settle_digest h raw) _ e11 in
    let (_, z1, e13) = bind-eq-ok (refuse (too_long r.reason_summary) tool_contract) _ e12 in
    let (_, z2, e14) = bind-eq-ok (refuse (has_nul r.reason_summary) tool_contract) _ e13 in
    let (d, shape, computed) = settle_digest_lem h raw settled q in
    let whole : c ≡ record raw { tool_call_digest = some d } = sym (ok-injective e14) ∙ shape in
    rw whole (record {
      digest = d;
      run = identifier_itself r.run_id _ i1;
      step = identifier_itself r.step_id _ i2;
      identity = identifier_itself r.call_id _ i3;
      name = identifier_itself r.tool_name _ i4;
      version = identifier_itself r.tool_version _ i5;
      short = z1;
      clean = z2;
      spec = s;
      policy = p;
      allowed = a;
      arguments = f;
      inputs = n;
      time = t;
      holds = refl;
      computed = computed_digest-settled h raw d ∙ computed;
    })

artifact_ids_again :
    (vs ws : List String) → validate_artifact_ids vs ≡ ok ws → validate_artifact_ids ws ≡ ok ws
artifact_ids_again vs ws e = ground (arith, validate_artifact_ids-Keeps vs, e)

-- The end of the checks, on the settled call.
abbrev bounded : MaterializedToolCall → Result MaterializedToolCall → Result MaterializedToolCall
bounded c settled = bind settled (λ s.
    bind (refuse (too_long c.reason_summary) tool_contract)
      (λ _. bind (refuse (has_nul c.reason_summary) tool_contract) (λ _. ok s)))

-- Freezing what was thawed of the arguments, and every other check, gives the call back.
post_init-thawed :
    (h : Host) (laws : IsoLaws h) (hex : HexLaws h) (r c : MaterializedToolCall)
    → Checked h r c
    → post_init h (thawed c) ≡ ok c
unfolding post_init
post_init-thawed h laws hex r c k =
    let spec = (validate_digest_reference_idem r.tool_spec_digest k.spec).0 in
    let policy = (validate_digest_reference_idem r.policy_digest k.policy).0 in
    let allowed = reject-refrozen h r.arguments c.arguments k.arguments ∙ k.allowed in
    let arguments = freeze-thaw h r.arguments c.arguments k.arguments in
    let inputs = artifact_ids_again r.input_artifact_ids c.input_artifact_ids k.inputs in
    let time = normalize_timestamp_idem h laws r.created_at c.created_at k.time in
    let within_bounds : bounded c (ok c) ≡ ok c = rw (k.short, k.clean) in
    let settled =
      settle_again h c k.digest k.holds (computed_digest-valid h hex c k.digest k.computed)
        k.computed in
    simp
      (k.run, k.step, k.identity, k.name, k.version, spec, policy, allowed, arguments, inputs, time)
      (ap (bounded c) settled ∙ within_bounds)

-- Given the laws of ISO dates and of hexadecimal digests, a call that its constructor has checked,
-- and that holds the digest `d`, is read back from the dictionary that `to_dict` writes as it was.
pub call_from_dict-to_dict :
    (h : Host) (laws : IsoLaws h) (hex : HexLaws h) (r c : MaterializedToolCall) (d : String)
    → post_init h r ≡ ok c
    → c.tool_call_digest ≡ some d
    → from_dict h (to_dict c d) ≡ ok c
unfolding from_dict to_dict
call_from_dict-to_dict h laws hex r c d p q =
    rw (call_of_fields-to_dict h c d q, post_init-thawed h laws hex r c (post_init-Checked h r c p))
