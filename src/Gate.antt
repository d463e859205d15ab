-- ===== src/Gate.antt =====
-- `DefaultAuthorityGate` of src/sia/authority_gate.py. The verifiers, the policy and the evidence are
-- abstract classes there, so here they are operations of a record over a state `S` of their own,
-- which each call may change and each of which may raise.
pub mod Evidence
mod Tests
use sovereignty_ai_gate.Prelude.{ℕ, String, Bool, true, false, Option, none, if◌then◌else◌}
use sovereignty_ai_gate.Prelude.Effects.{Effect, ◌>>=◌, return, reads}
use sovereignty_ai_gate.Operations.{
  IdentityContext, OperationRequest, operation_name, PolicyEvaluation, CapabilityVerification,
  AuthorizationDecision,
}

-- `DefaultAuthorityGate(identity_verifier=..., capability_verifier=..., policy=..., evidence=...)`
pub record AuthorityGate (S : Type 0) : Type 0 where
  pub verify_identity : Option IdentityContext → Effect S (Bool × String × String)
  pub verify_capability : OperationRequest → Effect S CapabilityVerification
  pub policy_hash : S → String
  pub evaluate : OperationRequest → CapabilityVerification → Effect S PolicyEvaluation
  pub record_decision : OperationRequest → AuthorizationDecision → Effect S (Option ℕ)

-- A decision that is not recorded yet.
unfoldable pub decision_of :
    Bool → String → String → String → Option String → String → AuthorizationDecision
decision_of allowed operation reason_code reason capability_id policy_hash = record {
  allowed = allowed;
  operation = operation;
  reason_code = reason_code;
  reason = reason;
  capability_id = capability_id;
  policy_hash = policy_hash;
  audit_required = true;
  evidence_sequence = none;
}

module _ {S : Type 0} (g : AuthorityGate S) where
  -- `_record`
  unfoldable pub record_in :
      OperationRequest → AuthorizationDecision → Effect S AuthorizationDecision
  record_in request decision = do
    sequence ← g.record_decision request decision
    return (record decision { evidence_sequence = sequence })

  -- `authorize` once the policy has answered.
  unfoldable pub after_policy :
      OperationRequest
      → String
      → CapabilityVerification
      → PolicyEvaluation
      → Effect S AuthorizationDecision
  unfolding operation_name decision_of record_in
  after_policy request policy_hash capability policy_decision =
      if policy_decision.allowed
      then record_in request (
          decision_of true (operation_name request) "AUTHORIZED" policy_decision.reason
            capability.capability_id policy_hash)
      else record_in request (
          decision_of false (operation_name request) "POLICY_DENIED" policy_decision.reason
            capability.capability_id policy_hash)

  -- `authorize` once the capability's verifier has answered.
  unfoldable pub after_capability :
      OperationRequest → String → CapabilityVerification → Effect S AuthorizationDecision
  unfolding operation_name decision_of record_in after_policy
  after_capability request policy_hash capability =
      if capability.allowed
      then g.evaluate request capability >>= after_policy request policy_hash capability
      else record_in request (
          decision_of false (operation_name request) capability.reason_code capability.reason
            capability.capability_id policy_hash)

  -- `authorize` once the identity's verifier has answered.
  unfoldable pub after_identity :
      OperationRequest → String → Bool × String × String → Effect S AuthorizationDecision
  unfolding operation_name decision_of record_in after_capability
  after_identity request policy_hash (identity_allowed, identity_code, identity_reason) =
      if identity_allowed
      then g.verify_capability request >>= after_capability request policy_hash
      else record_in request (
          decision_of false (operation_name request) identity_code identity_reason none policy_hash)

  -- `DefaultAuthorityGate.authorize`
  unfoldable pub authorize : OperationRequest → Effect S AuthorizationDecision
  unfolding after_identity
  authorize request = do
    policy_hash ← reads g.policy_hash
    answer ← g.verify_identity request.identity
    after_identity request policy_hash answer
