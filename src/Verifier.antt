-- ===== src/Verifier.antt =====
-- `CapabilityAdapter` of src/sia/authority_adapters.py: which capability permits which operation.
pub mod Permits
pub mod Acceptance
mod Tests
use Prim.Native.String.{◌++◌ as str_append}
use sovereignty_ai_gate.Prelude.{
  String, Bool, true, false, not, ◌&&◌, ◌||◌, List, [], ◌∷◌, Option, none, some, map, all, contains,
  Result, ok, err, ◌>>=◌, type_error, str_eq, if◌then◌else◌, leb,
}
use sovereignty_ai_gate.Prelude.Int.{pos, ltb_ℤ}
use sovereignty_ai_gate.Platform.{Platform, Moment}
use sovereignty_ai_gate.Utils.{sort_texts}
use sovereignty_ai_gate.Permissions
use sovereignty_ai_gate.Permissions.{is_active}
use sovereignty_ai_gate.Delegation.{is_valid}
use sovereignty_ai_gate.Capabilities.{from_keys}
use sovereignty_ai_gate.Operations.{
  ProtectedOperation, read_memory, write_memory, export_archive, import_archive, execute_tool,
  release_context, call_provider, workspace_list, workspace_read, workspace_analyze,
  workspace_repo_status, operation_of, IdentityContext, Expiry, never, at_second, at_text,
  CapabilityRecord, Capability, capability_record, capability_token, delegation_token, other_object,
  OperationRequest, operation_name, CapabilityVerification,
}

-- `OPERATION_SCOPES`
abbrev pub operation_scopes : ProtectedOperation → List String
operation_scopes read_memory = "memory.read" ∷ "READ_CONTEXT_WINDOW" ∷ []
operation_scopes write_memory =
    "memory.write" ∷ "WRITE_CONFIRMED_MEMORY" ∷ "APPEND_MEMORY_SUGGESTION" ∷ []
operation_scopes export_archive = "export.archive" ∷ []
operation_scopes import_archive = "import.archive" ∷ []
operation_scopes execute_tool = "tool.execute" ∷ []
operation_scopes release_context = "context.release" ∷ []
operation_scopes call_provider = "provider.call" ∷ "READ_CONTEXT_WINDOW" ∷ []
operation_scopes workspace_list = "workspace.list" ∷ []
operation_scopes workspace_read = "workspace.read" ∷ []
operation_scopes workspace_analyze = "workspace.analyze" ∷ []
operation_scopes workspace_repo_status = "workspace.repo_status" ∷ []

abbrev expiry_of : Option String → Expiry
expiry_of none = never
expiry_of (some text) = at_text text

-- `adapt`
unfoldable pub adapt : Option Capability → Result (Option CapabilityRecord)
adapt none = ok none
adapt (some (capability_record r)) = ok (some r)
adapt (some (capability_token t)) = ok (
    some (record {
      capability_id = t.token_id;
      owner_identity = t.owner_identity;
      scopes = map Permissions.value t.scopes;
      provider_id = some t.provider_id;
      issuer_device = some t.issuer_device;
      expires_at = at_second t.expires_at;
      revoked = t.revoked;
      parent_capability_id = none;
    }))
adapt (some (delegation_token t)) = ok (
    some (record {
      capability_id = t.token_id;
      owner_identity = t.grantor_id;
      scopes = from_keys t.scope;
      provider_id = some t.grantee_id;
      issuer_device = none;
      expires_at = expiry_of t.expires_at;
      revoked = t.revoked;
      parent_capability_id = t.parent_id;
    }))
adapt (some (other_object v)) = err type_error

-- `request.identity is not None` and it is not the capability's owner.
unfoldable pub is_other_owner : Option IdentityContext → String → Bool
is_other_owner none owner_identity = false
is_other_owner (some identity) owner_identity = not (str_eq owner_identity identity.identity_id)

-- `request.provider_id and adapted.provider_id not in (None, request.provider_id)`
unfoldable pub is_other_provider : Option String → Option String → Bool
is_other_provider none held = false
is_other_provider (some requested) none = false
is_other_provider (some requested) (some held) =
    not (str_eq requested "") && not (str_eq held requested)

-- `scopes.issubset(others)`
unfoldable pub is_subset : List String → List String → Bool
is_subset scopes others = all (λ s. contains s others) scopes

-- A parent is given and its scopes do not cover the child's.
unfoldable pub exceeds : List String → Option CapabilityRecord → Bool
unfolding is_subset
exceeds scopes none = false
exceeds scopes (some parent) = not (is_subset scopes parent.scopes)

-- `scopes.isdisjoint(others)`
unfoldable pub is_disjoint : List String → List String → Bool
is_disjoint scopes others = all (λ s. not (contains s others)) scopes

unfoldable pub refused : String → String → Option String → CapabilityVerification
refused reason_code reason capability_id = record {
  allowed = false;
  reason_code = reason_code;
  reason = reason;
  capability_id = capability_id;
  scopes = [];
}

unfoldable pub verified : CapabilityRecord → CapabilityVerification
verified r = record {
  allowed = true;
  reason_code = "CAPABILITY_VERIFIED";
  reason = "Capability verified";
  capability_id = some r.capability_id;
  scopes = sort_texts r.scopes;
}

-- The last checks of `verify_capability`, with the operation's member or the ValueError.
unfoldable pub verify_member :
    OperationRequest → CapabilityRecord → Result ProtectedOperation → CapabilityVerification
unfolding is_disjoint refused verified operation_name
verify_member request adapted (err e) =
    refused "UNKNOWN_OPERATION" (str_append "Unknown operation: " request.operation)
      (some adapted.capability_id)
verify_member request adapted (ok op) =
    if is_disjoint adapted.scopes (operation_scopes op)
    then refused "CAPABILITY_SCOPE_MISSING"
        (str_append "Capability does not permit " (operation_name request))
        (some adapted.capability_id)
    else verified adapted

unfoldable pub verify_operation : OperationRequest → CapabilityRecord → CapabilityVerification
unfolding operation_of verify_member
verify_operation request adapted = verify_member request adapted (operation_of request.operation)

module _ (p : Platform) (now : Moment) where
  unfoldable pub is_past : Expiry → Result Bool
  is_past never = ok false
  is_past (at_second expiry) = ok (not (ltb_ℤ now.seconds expiry))
  is_past (at_text text) = p.fromisoformat text >>= λ expiry. ok (leb expiry now.reading)

  -- `_is_inactive`
  unfoldable pub is_inactive : Capability → Result Bool
  unfolding is_active is_valid is_past
  is_inactive (capability_token t) = ok (not (is_active t now.seconds))
  is_inactive (delegation_token t) = is_valid p now.reading t >>= λ valid. ok (not valid)
  is_inactive (capability_record r) = if r.revoked then ok true else is_past r.expires_at
  is_inactive (other_object v) = ok true

  -- `verify_capability` on the capability of the request and its record.
  unfoldable pub verify_adapted :
      OperationRequest → Capability → CapabilityRecord → Result CapabilityVerification
  unfolding is_other_owner is_other_provider is_inactive adapt exceeds refused verify_operation
  verify_adapted request capability adapted =
      if is_other_owner request.identity adapted.owner_identity
      then ok (
          refused "INVALID_CAPABILITY" "Capability owner does not match verified identity"
            (some adapted.capability_id))
      else if is_other_provider request.provider_id adapted.provider_id
      then ok (
          refused "INVALID_CAPABILITY" "Capability grantee does not match requested provider"
            (some adapted.capability_id))
      else do
        inactive ← is_inactive capability
        if inactive
            then ok (
                refused "EXPIRED_CAPABILITY" "Capability is expired or revoked"
                  (some adapted.capability_id))
            else do
              parent ← adapt request.parent_capability
              if exceeds adapted.scopes parent
                  then ok (
                      refused "CHILD_SCOPE_EXCEEDED" "Child capability cannot exceed parent scope"
                        (some adapted.capability_id))
                  else ok (verify_operation request adapted)

  -- `verify_capability` after `adapt`.
  unfoldable pub verify_found :
      OperationRequest → Capability → Option CapabilityRecord → Result CapabilityVerification
  unfolding refused
  verify_found request capability none =
      ok (refused "MISSING_CAPABILITY" "Protected operation requires a capability" none)
  verify_found request capability (some adapted) = verify_adapted request capability adapted

  -- `verify_capability` with what the request presents.
  unfoldable pub verify_presented :
      OperationRequest → Option Capability → Result CapabilityVerification
  unfolding refused verify_found
  verify_presented request none =
      ok (refused "MISSING_CAPABILITY" "Protected operation requires a capability" none)
  verify_presented request (some capability) =
      adapt (some capability) >>= λ adapted. verify_found request capability adapted

  unfoldable pub verify_capability : OperationRequest → Result CapabilityVerification
  unfolding verify_presented
  verify_capability request = verify_presented request request.capability
