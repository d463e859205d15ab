-- ===== src/Adapters.antt =====
-- src/sia/authority_adapters.py: the parts that the authority gives its gate, its vault and its
-- memory firewall. The capability verifier is in Verifier.antt.
pub mod Authorization
pub mod Totality
mod Tests
use sovereignty_ai_gate.Prelude.{
  ℕ, String, Bool, true, false, not, List, [], ◌∷◌, Option, none, some, Result, ok, err, ◌>>=◌,
  ◌>>◌, raise_if, require, value_error, length, Dict, lookup, str_eq, if◌then◌else◌,
}
use sovereignty_ai_gate.Prelude.Int.{ℤ, pos}
use sovereignty_ai_gate.Prelude.Effects.{Effect, lift}
use sovereignty_ai_gate.Platform.{Platform, Moment}
use sovereignty_ai_gate.Utils.{hash_object}
use sovereignty_ai_gate.Utils.Json.{
  Value, bool, str, arr, obj, Items, nil, cons, optional, Fields, end, field, texts,
}
use sovereignty_ai_gate.Trust.{RootOfTrust, sign}
use sovereignty_ai_gate.Scar.{ScarLedger, EventRequest, append_event}
use sovereignty_ai_gate.Vault
use sovereignty_ai_gate.Vault.{MemoryChain}
use sovereignty_ai_gate.Memory
use sovereignty_ai_gate.Memory.{MemoryRecord}
use sovereignty_ai_gate.Policy
use sovereignty_ai_gate.Policy.{AuthorityPolicy, Rule}
use sovereignty_ai_gate.Identity
use sovereignty_ai_gate.Identity.{HumanIdentity, bind_device, is_device_trusted}
use sovereignty_ai_gate.Operations.{
  IdentityContext, OperationRequest, operation_name, PolicyEvaluation, CapabilityVerification,
  AuthorizationDecision, AuthorizedContextPacket,
}
use sovereignty_ai_gate.Verifier.{verify_capability}
use sovereignty_ai_gate.Gate.{AuthorityGate}

pub record IdentityAdapter : Type 0 where
  pub owner_identity : HumanIdentity
  pub root_of_trust : RootOfTrust

-- `IdentityAdapter.create` on a root of trust; the identity is made in the second `now`.
unfoldable pub create_adapter : String → RootOfTrust → ℤ → IdentityAdapter
unfolding Identity.create bind_device
create_adapter owner_id trust now = record {
  owner_identity =
      bind_device (Identity.create owner_id owner_id trust.identity.public_key now) (record {
        device_id = trust.identity.identity_id;
        root_identity_id = trust.identity.identity_id;
        bound_at = pos trust.identity.created_at;
        active = true;
        metadata = end;
      });
  root_of_trust = trust;
}

unfoldable pub identity_context : IdentityAdapter → IdentityContext
identity_context a = record {
  identity_id = a.owner_identity.identity_id;
  device_id = some a.root_of_trust.identity.identity_id;
  verified = true;
  hardware_backed = a.root_of_trust.identity.hardware_backed;
  metadata = field "authority_source" (str "ROOT_OF_TRUST") end;
}

unfoldable pub trusts_device : HumanIdentity → Option String → Bool
unfolding is_device_trusted
trusts_device owner none = false
trusts_device owner (some device_id) = is_device_trusted owner device_id

unfoldable pub verify_identity : IdentityAdapter → Option IdentityContext → Bool × String × String
unfolding trusts_device
verify_identity a none = (false, "NO_IDENTITY", "No identity context supplied")
verify_identity a (some identity) =
    if not identity.verified
    then (false, "INVALID_IDENTITY", "Identity context is not verified")
    else if not (str_eq identity.identity_id a.owner_identity.identity_id)
    then (false, "INVALID_IDENTITY", "Identity does not match authority owner")
    else if not (trusts_device a.owner_identity identity.device_id)
    then (false, "INVALID_IDENTITY", "Identity device is not trusted")
    else (true, "IDENTITY_VERIFIED", "Identity verified")

unfoldable pub fields_of : Dict Value → Fields
fields_of [] = end
fields_of ((key, value) ∷ more) = field key value (fields_of more)

unfoldable pub with_text : String → Option String → Fields → Fields
with_text key none more = more
with_text key (some text) more = field key (str text) more

-- A rule as it was given, keys that it has not left out.
unfoldable pub rule_documents : List Rule → Items
unfolding fields_of with_text
rule_documents [] = nil
rule_documents (r ∷ rs) =
    cons
      (obj (
        field "match" (obj (fields_of r.pattern))
          (with_text "effect" r.effect (with_text "id" r.id end))))
      (rule_documents rs)

-- `AuthorityPolicy.to_dict`
unfoldable pub policy_document : AuthorityPolicy → Value
unfolding rule_documents
policy_document policy = obj (
    field "default" (str policy.default_effect)
      (field "rules" (arr (rule_documents policy.rules)) end))

-- The hash is taken when the adapter is made.
pub record PolicyAdapter : Type 0 where
  pub policy : AuthorityPolicy
  pub policy_hash : String

unfoldable pub policy_adapter : Platform → AuthorityPolicy → PolicyAdapter
unfolding policy_document
policy_adapter p policy = record {
  policy = policy;
  policy_hash = hash_object p (policy_document policy);
}

-- The request that the policy is asked about.
unfoldable pub policy_request : OperationRequest → CapabilityVerification → Dict Value
unfolding operation_name
policy_request request capability =
    ("operation", str (operation_name request))
    ∷ ("action", str (operation_name request))
    ∷ ("requester_id", str request.requester_id)
    ∷ ("resource_id", str request.resource_id)
    ∷ ("model_id", str request.model_id)
    ∷ ("provider_id", optional request.provider_id)
    ∷ ("capability_id", optional capability.capability_id)
    ∷ ("capability_scopes", arr (texts capability.scopes))
    ∷ []

-- `PolicyAdapter.evaluate`
unfoldable pub evaluate :
    PolicyAdapter → OperationRequest → CapabilityVerification → PolicyEvaluation
unfolding policy_request
evaluate a request capability =
    let decision = Policy.evaluate a.policy (policy_request request capability) in
    record {
      allowed = decision.allowed;
      reason = decision.reason;
      matched_rule = decision.matched_rule;
    }

-- The event that `record_decision` appends.
unfoldable pub decision_event : OperationRequest → AuthorizationDecision → EventRequest
decision_event request decision = record {
  event_type = "AUTHORIZATION_DECISION";
  actor = "HUMAN";
  capability_id = decision.capability_id;
  memory_hash = none;
  metadata = field "operation" (str decision.operation) (
      field "allowed" (bool decision.allowed) (
        field "reason_code" (str decision.reason_code) (
          field "reason" (str decision.reason) (
            field "policy_hash" (str decision.policy_hash) (
              field "audit_required" (bool decision.audit_required) (
                field "resource_id" (str request.resource_id)
                  (field "provider_id" (optional request.provider_id) end)))))));
  timestamp = none;
}

module _ (p : Platform) (now : Moment) where
  -- The ledger after an append, or an exception and the ledger as it was.
  unfoldable pub appended : ScarLedger → Result ScarLedger → ScarLedger × Result (Option ℕ)
  appended ledger (err e) = (ledger, err e)
  appended ledger (ok after) = (after, ok (some (length ledger.events)))

  -- `EvidenceLedgerAdapter.record_decision`, which returns the new event's number: its position.
  unfoldable pub record_decision :
      OperationRequest → AuthorizationDecision → Effect ScarLedger (Option ℕ)
  unfolding decision_event appended
  record_decision request decision = λ ledger.
      appended ledger (append_event p ledger (decision_event request decision) now.text now.uuid)

  -- The gate that `SovereignAuthority` makes of its adapters. Only the evidence changes.
  unfoldable pub adapter_gate : IdentityAdapter → PolicyAdapter → AuthorityGate ScarLedger
  unfolding verify_identity evaluate record_decision
  adapter_gate identity policy = record {
    verify_identity = λ context. lift (ok (verify_identity identity context));
    verify_capability = λ request. lift (verify_capability p now request);
    policy_hash = λ ledger. policy.policy_hash;
    evaluate = λ request capability. lift (ok (evaluate policy request capability));
    record_decision = record_decision;
  }
