-- ===== src/Operations.antt =====
-- The data of src/sia/authority_gate.py: protected operations, the capabilities that may be presented
-- for one, requests, decisions and context packets.
use sovereignty_ai_gate.Prelude.{
  ℕ, String, Bool, List, [], ◌∷◌, Option, Result, ok, err, value_error, str_eq, if◌then◌else◌,
}
use sovereignty_ai_gate.Prelude.Int.{ℤ}
use sovereignty_ai_gate.Utils.Json.{Value, bool, str, arr, obj, Items, optional, Fields, end, field}
use sovereignty_ai_gate.Permissions.{CapabilityToken}
use sovereignty_ai_gate.Delegation.{DelegationToken}

pub data ProtectedOperation : Type 0 where
  read_memory write_memory export_archive import_archive execute_tool : ProtectedOperation
  release_context call_provider workspace_list workspace_read : ProtectedOperation
  workspace_analyze workspace_repo_status : ProtectedOperation

abbrev pub value : ProtectedOperation → String
value read_memory = "READ_MEMORY"
value write_memory = "WRITE_MEMORY"
value export_archive = "EXPORT_ARCHIVE"
value import_archive = "IMPORT_ARCHIVE"
value execute_tool = "EXECUTE_TOOL"
value release_context = "RELEASE_CONTEXT"
value call_provider = "CALL_PROVIDER"
value workspace_list = "WORKSPACE_LIST"
value workspace_read = "WORKSPACE_READ"
value workspace_analyze = "WORKSPACE_ANALYZE"
value workspace_repo_status = "WORKSPACE_REPO_STATUS"

abbrev pub all_operations : List ProtectedOperation
all_operations =
    read_memory ∷ write_memory ∷ export_archive ∷ import_archive ∷ execute_tool ∷ release_context
    ∷ call_provider ∷ workspace_list ∷ workspace_read ∷ workspace_analyze ∷ workspace_repo_status
    ∷ []

unfoldable pub member_of : List ProtectedOperation → String → Result ProtectedOperation
member_of [] text = err value_error
member_of (o ∷ os) text =
    let rest = member_of os text in if str_eq (value o) text then ok o else rest

-- `ProtectedOperation(text)`: the member of this value, or a ValueError.
unfoldable pub operation_of : String → Result ProtectedOperation
unfolding member_of
operation_of text = member_of all_operations text

pub record IdentityContext : Type 0 where
  pub identity_id : String
  pub device_id : Option String
  pub verified : Bool
  pub hardware_backed : Bool
  pub metadata : Fields

-- `expires_at: str | int | None`
pub data Expiry : Type 0 where
  never : Expiry
  at_second : ℤ → Expiry
  at_text : String → Expiry

-- A frozenset of texts is a list without repeats.
pub record CapabilityRecord : Type 0 where
  pub capability_id : String
  pub owner_identity : String
  pub scopes : List String
  pub provider_id : Option String
  pub issuer_device : Option String
  pub expires_at : Expiry
  pub revoked : Bool
  pub parent_capability_id : Option String

-- What a request may carry as its capability: an object of one of the three classes that the
-- program knows, with its attributes at the time of the call, or some other object.
pub data Capability : Type 0 where
  capability_record : CapabilityRecord → Capability
  capability_token : CapabilityToken → Capability
  delegation_token : DelegationToken → Capability
  other_object : Value → Capability

pub record OperationRequest : Type 0 where
  pub operation : String
  pub identity : Option IdentityContext
  pub capability : Option Capability
  pub parent_capability : Option Capability
  pub requester_id : String
  pub resource_id : String
  pub model_id : String
  pub provider_id : Option String
  pub metadata : Fields

-- `operation_name`: a protected operation's value and any other operation's text are both the text
-- itself.
unfoldable pub operation_name : OperationRequest → String
operation_name r = r.operation

pub record PolicyEvaluation : Type 0 where
  pub allowed : Bool
  pub reason : String
  pub matched_rule : Option String

pub record CapabilityVerification : Type 0 where
  pub allowed : Bool
  pub reason_code : String
  pub reason : String
  pub capability_id : Option String
  pub scopes : List String

pub record AuthorizationDecision : Type 0 where
  pub allowed : Bool
  pub operation : String
  pub reason_code : String
  pub reason : String
  pub capability_id : Option String
  pub policy_hash : String
  pub audit_required : Bool
  pub evidence_sequence : Option ℕ

pub record AuthorizedContextPacket : Type 0 where
  pub packet_id : String
  pub provider_id : String
  pub owner_identity : String
  pub capability_id : Option String
  pub operation : String
  pub policy_hash : String
  pub memory_context : Items
  pub metadata : Fields
  pub authorized : Bool
  pub audit_required : Bool

-- `AuthorizedContextPacket.to_dict`
unfoldable pub packet_document : AuthorizedContextPacket → Value
packet_document k = obj (
    field "packet_id" (str k.packet_id) (
      field "provider_id" (str k.provider_id) (
        field "owner_identity" (str k.owner_identity) (
          field "capability_id" (optional k.capability_id) (
            field "operation" (str k.operation) (
              field "policy_hash" (str k.policy_hash) (
                field "memory_context" (arr k.memory_context) (
                  field "metadata" (obj k.metadata) (
                    field "authorized" (bool k.authorized)
                      (field "audit_required" (bool k.audit_required) end))))))))))
