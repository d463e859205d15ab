-- ===== src/Capabilities/Access.antt =====
-- `CapabilityManager.authorize` of src/sia/capability_manager.py: evaluating a capability.
use sovereignty_ai_gate.Prelude.{
  String, Bool, true, false, not, Option, none, some, Result, ok, err, ◌>>=◌, delegation_expired,
  delegation_revoked, delegation_scope, str_eq, if◌then◌else◌,
}
use sovereignty_ai_gate.Platform.{Platform}
use sovereignty_ai_gate.Utils.Json.{bool, str, Fields, end, field, optional}
use sovereignty_ai_gate.Delegation
use sovereignty_ai_gate.Delegation.{DelegationToken, deref, is_valid}
use sovereignty_ai_gate.Capabilities.{
  CapabilityGrant, CapabilityDecision, CapabilityManager, Now, get, record_event,
}

-- The arguments of `authorize`.
pub record AccessRequest : Type 0 where
  pub capability_id : String
  pub subject_id : String
  pub action : String
  pub resource_id : Option String

-- The `except` clauses of `authorize`; any other exception passes through.
unfoldable pub reason_of : Result (Unit {0}) → Result String
reason_of (ok _) = ok "AUTHORIZED"
reason_of (err delegation_expired) = ok "CAPABILITY_EXPIRED"
reason_of (err delegation_revoked) = ok "CAPABILITY_REVOKED"
reason_of (err delegation_scope) = ok "SCOPE_MISSING"
reason_of (err e) = err e

unfoldable pub resource_mismatch : Option String → Option String → Bool
resource_mismatch none requested = false
resource_mismatch (some bound) none = true
resource_mismatch (some bound) (some requested) = not (str_eq bound requested)

-- The `reason` that goes with each reason code.
unfoldable pub reason_text : String → String
reason_text reason_code =
    if str_eq reason_code "SUBJECT_MISMATCH"
    then "Capability subject does not match requester"
    else if str_eq reason_code "CAPABILITY_INACTIVE"
    then "Capability is expired or revoked"
    else if str_eq reason_code "RESOURCE_MISMATCH"
    then "Capability is not bound to the requested resource"
    else if str_eq reason_code "CAPABILITY_EXPIRED"
    then "Capability has expired"
    else if str_eq reason_code "CAPABILITY_REVOKED"
    then "Capability has been revoked"
    else if str_eq reason_code "SCOPE_MISSING"
    then "Capability does not include the requested action"
    else "Capability authorizes the requested action"

unfoldable pub authorization_payload : AccessRequest → Bool → String → Fields
authorization_payload r allowed reason_code = field "capability_id" (str r.capability_id) (
    field "subject_id" (str r.subject_id) (
      field "action" (str r.action) (
        field "resource_id" (optional r.resource_id)
          (field "allowed" (bool allowed) (field "reason_code" (str reason_code) end)))))

module _ (p : Platform) (now : Now) where
  -- The `if` chain of `authorize`: the reason code.
  unfoldable pub evaluate :
      CapabilityManager → AccessRequest → CapabilityGrant → DelegationToken → Result String
  unfolding reason_of resource_mismatch
  evaluate m r grant token =
      if not (str_eq token.grantee_id r.subject_id)
      then ok "SUBJECT_MISMATCH"
      else is_valid p now.instant token >>= λ valid.
          if not valid
          then ok "CAPABILITY_INACTIVE"
          else if resource_mismatch grant.resource_id r.resource_id
          then ok "RESOURCE_MISMATCH"
          else reason_of (Delegation.authorize p now.instant m.authorizer r.capability_id r.action)

  unfoldable pub decide :
      CapabilityManager → AccessRequest → String → CapabilityManager × CapabilityDecision
  unfolding record_event reason_text
  decide m r reason_code =
      let allowed = str_eq reason_code "AUTHORIZED" in
      let (m', sequence) =
        record_event p now m "capability.authorization"
          (authorization_payload r allowed reason_code) in
      (
        m',
        record {
          allowed = allowed;
          capability_id = r.capability_id;
          subject_id = r.subject_id;
          action = r.action;
          resource_id = r.resource_id;
          reason_code = reason_code;
          reason = reason_text reason_code;
          evidence_sequence = sequence;
        },
      )

  -- `CapabilityManager.authorize`
  unfoldable pub authorize :
      CapabilityManager → AccessRequest → Result (CapabilityManager × CapabilityDecision)
  unfolding get evaluate decide
  authorize m r = get m r.capability_id >>= λ grant.
      deref m.authorizer.heap grant.token >>= λ token.
      evaluate m r grant token >>= λ reason_code. ok (decide m r reason_code)
