-- ===== src/Adapters/Tests.antt =====
-- The owner calls a provider under a delegation.
use sovereignty_ai_gate.Prelude.{
  ◌≡◌, refl, true, false, [], ◌∷◌, none, some, ok, err, type_error, contains,
}
use sovereignty_ai_gate.Prelude.Int.{pos}
use sovereignty_ai_gate.Platform.{Moment}
use sovereignty_ai_gate.Platform.Toy.{toy, chars}
use sovereignty_ai_gate.Utils.Json.{null, end}
use sovereignty_ai_gate.Trust.{create_identity}
use sovereignty_ai_gate.Trust.Toy.{toy_root, toy_backend-IsSigner}
use sovereignty_ai_gate.Scar.{
  ScarLedger, verify_integrity, verify_from, append_event, actor_of, lacks_provenance,
}
use sovereignty_ai_gate.Delegation.{is_valid, is_expired}
use sovereignty_ai_gate.Capabilities.{from_keys}
use sovereignty_ai_gate.Identity
use sovereignty_ai_gate.Identity.{bind_device, without_device, any_active, is_device_trusted}
use sovereignty_ai_gate.Operations.{
  OperationRequest, AuthorizationDecision, delegation_token, other_object, operation_of, member_of,
  operation_name,
}
use sovereignty_ai_gate.Verifier.{
  verify_capability, verify_presented, verify_found, verify_adapted, verify_operation,
  verify_member, verified, adapt, is_other_owner, is_other_provider, exceeds, is_disjoint,
  is_inactive,
}
use sovereignty_ai_gate.Policy
use sovereignty_ai_gate.Gate.{
  authorize, after_identity, after_capability, after_policy, record_in, decision_of,
}
use sovereignty_ai_gate.Adapters.{
  IdentityAdapter, PolicyAdapter, create_adapter, identity_context, verify_identity, trusts_device,
  evaluate, record_decision, decision_event, appended, adapter_gate,
}
use sovereignty_ai_gate.Adapters.Authorization.{Authorized, gate-Authorized}
use sovereignty_ai_gate.Adapters.Totality.{Outcome, authorize-Outcome}

abbrev now : Moment
now = record { seconds = pos 3; reading = 3; text = "wednesday"; uuid = "u" }

abbrev adapter : IdentityAdapter
adapter = create_adapter "alice" toy_root (pos 0)

abbrev policy : PolicyAdapter
policy = record { policy = record { default_effect = "allow"; rules = [] }; policy_hash = "h" }

abbrev request : OperationRequest
request = record {
  operation = "CALL_PROVIDER";
  identity = some (identity_context adapter);
  capability = some (
      delegation_token (record {
        token_id = "t1";
        grantor_id = "alice";
        grantee_id = "acme";
        scope = "provider.call" ∷ [];
        issued_at = "monday";
        expires_at = some "friday";
        depth = 0;
        revoked = false;
        parent_id = none;
        schema_version = "1.0";
      }));
  parent_capability = none;
  requester_id = "alice";
  resource_id = "r";
  model_id = "m";
  provider_id = some "acme";
  metadata = end;
}

abbrev ledger : ScarLedger
ledger = record { identity_id = "alice"; root_of_trust = toy_root; events = [] }

abbrev decision : AuthorizationDecision
decision = record {
  allowed = true;
  operation = "CALL_PROVIDER";
  reason_code = "AUTHORIZED";
  reason = "No matching rule; default is 'allow'";
  capability_id = some "t1";
  policy_hash = "h";
  audit_required = true;
  evidence_sequence = some 0;
}

abbrev after : ScarLedger
after = (authorize (adapter_gate toy now adapter policy) request ledger).0

allowed : authorize (adapter_gate toy now adapter policy) request ledger ≡ (after, ok decision)
unfolding authorize after_identity after_capability after_policy record_in decision_of
    operation_name adapter_gate verify_identity trusts_device identity_context create_adapter
    Identity.create bind_device without_device any_active is_device_trusted verify_capability
    verify_presented verify_found verify_adapted verify_operation verify_member verified adapt
    is_other_owner is_other_provider exceeds is_disjoint is_inactive is_valid is_expired from_keys
    contains operation_of member_of evaluate Policy.evaluate Policy.evaluate_rules
    Policy.default_decision record_decision decision_event appended append_event actor_of
    lacks_provenance create_identity chars
allowed = refl

fresh : verify_integrity toy ledger ≡ true
unfolding verify_integrity verify_from
fresh = refl

gate-Authorized_example : Authorized toy now adapter policy request ledger after decision
gate-Authorized_example =
    gate-Authorized toy now adapter policy request ledger after decision toy_backend-IsSigner fresh
      allowed

-- An object of no known class is presented.
abbrev unknown : OperationRequest
unknown = record request { capability = some (other_object null) }

raised : authorize (adapter_gate toy now adapter policy) unknown ledger ≡ (ledger, err type_error)
unfolding authorize after_identity adapter_gate verify_identity trusts_device identity_context
    create_adapter Identity.create bind_device without_device any_active is_device_trusted
    verify_capability verify_presented adapt create_identity chars
raised = refl

authorize-Outcome_example :
    Outcome toy now adapter policy unknown ledger
      (authorize (adapter_gate toy now adapter policy) unknown ledger)
authorize-Outcome_example = authorize-Outcome toy now adapter policy unknown ledger
