-- ===== src/Verifier/Tests.antt =====
-- A delegation of one provider call.
use sovereignty_ai_gate.Prelude.{
  ◌≡◌, ◌↔◌, inr, arith, contains, refl, true, false, [], ◌∷◌, none, some, ok,
}
use sovereignty_ai_gate.Prelude.Int.{pos}
use sovereignty_ai_gate.Platform.{Moment}
use sovereignty_ai_gate.Platform.Toy.{toy}
use sovereignty_ai_gate.Utils.Json.{end}
use sovereignty_ai_gate.Delegation.{DelegationToken}
use sovereignty_ai_gate.Capabilities.{from_keys}
use sovereignty_ai_gate.Operations.{
  OperationRequest, CapabilityVerification, delegation_token, operation_of, member_of,
}
use sovereignty_ai_gate.Verifier.{verify_capability, adapt}
use sovereignty_ai_gate.Verifier.Permits.{Permits}
use sovereignty_ai_gate.Verifier.Acceptance.{verify_capability-Permits}

abbrev now : Moment
now = record { seconds = pos 3; reading = 3; text = "wednesday"; uuid = "u" }

abbrev token : DelegationToken
token = record {
  token_id = "t1";
  grantor_id = "alice";
  grantee_id = "acme";
  scope = "provider.call" ∷ [];
  issued_at = "monday";
  expires_at = some "friday";
  depth = 0;
  revoked = false;
  parent_id = none;
  schema_version = "1.0";
}

abbrev request : OperationRequest
request = record {
  operation = "CALL_PROVIDER";
  identity = some (record {
    identity_id = "alice";
    device_id = none;
    verified = true;
    hardware_backed = false;
    metadata = end;
  });
  capability = some (delegation_token token);
  parent_capability = none;
  requester_id = "alice";
  resource_id = "r";
  model_id = "m";
  provider_id = some "acme";
  metadata = end;
}

verify_capability-Permits_example :
    ((v : CapabilityVerification) × (verify_capability toy now request ≡ ok v) × (v.allowed ≡ true))
    ↔ Permits toy now request
verify_capability-Permits_example = verify_capability-Permits toy now request

-- The request is permitted.
permitted : Permits toy now request
unfolding operation_of member_of adapt from_keys contains
permitted = record {
  capability = delegation_token token;
  adapted = _;
  parent = none;
  op = _;
  scope = "provider.call";
  presented = refl;
  known = refl;
  owned = refl;
  serves = inr refl;
  live = (refl, (5, refl, omega arith));
  parent_known = refl;
  covered = tt;
  protected = refl;
  held = refl;
  required = refl;
}
