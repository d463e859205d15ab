-- ===== src/Gate/Tests.antt =====
-- A run of the gate of src/sia/authority_gate.py whose parts count their calls.
use sovereignty_ai_gate.Prelude.{ℕ, ◌+◌, ◌≡◌, ◌↔◌, refl, true, false, [], some, none, ok}
use sovereignty_ai_gate.Utils.Json.{end}
use sovereignty_ai_gate.Operations.{OperationRequest, AuthorizationDecision, operation_name}
use sovereignty_ai_gate.Gate.{
  AuthorityGate, authorize, record_in, decision_of, after_identity, after_capability,
}
use sovereignty_ai_gate.Gate.Evidence.{Recorded, authorize-Recorded}

-- The identity is known, the capability is refused, and every call adds one.
abbrev gate : AuthorityGate ℕ
gate = record {
  verify_identity = λ identity s. (s + 1, ok (true, "VERIFIED", "known"));
  verify_capability = λ request s. (
    s + 1,
    ok (record {
      allowed = false;
      reason_code = "REVOKED";
      reason = "gone";
      capability_id = some "c1";
      scopes = [];
    }),
  );
  policy_hash = λ s. "h";
  evaluate = λ request capability s.
      (s + 1, ok (record { allowed = true; reason = "fine"; matched_rule = none }));
  record_decision = λ request decision s. (s + 1, ok (some s));
}

abbrev request : OperationRequest
request = record {
  operation = "READ_MEMORY";
  identity = none;
  capability = none;
  parent_capability = none;
  requester_id = "alice";
  resource_id = "r";
  model_id = "m";
  provider_id = none;
  metadata = end;
}

abbrev refusal : AuthorizationDecision
refusal = record {
  allowed = false;
  operation = "READ_MEMORY";
  reason_code = "REVOKED";
  reason = "gone";
  capability_id = some "c1";
  policy_hash = "h";
  audit_required = true;
  evidence_sequence = some 2;
}

-- Two verifiers and one record: the policy is not asked.
calls : authorize gate request 0 ≡ (3, ok refusal)
unfolding authorize after_identity after_capability record_in decision_of operation_name
calls = refl

authorize-Recorded_example :
    (authorize gate request 0 ≡ (3, ok refusal)) ↔ Recorded gate request 0 3 refusal
authorize-Recorded_example = authorize-Recorded gate request 0 3 refusal
