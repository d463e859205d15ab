-- ===== src/Recorder.antt =====
-- src/sia/audit/recorder.py, src/sia/audit/provider_events.py and src/sia/context/request_context.py: the
-- typed events of the audit ledger. A helper of the recorder is one append; here it is the event that
-- it appends, and `record_event` is the append.
use Prim.Native.String.{◌++◌ as str_append}
use sovereignty_ai_gate.Prelude.{String, Bool, List, Option, none, some}
use sovereignty_ai_gate.Prelude.Int.{ℤ}
use sovereignty_ai_gate.Platform.{Platform}
use sovereignty_ai_gate.Audit.{AuditLedger, append}
use sovereignty_ai_gate.Utils.Json.{
  Value, null, bool, int, str, arr, obj, optional, Fields, end, field, texts,
}

-- The arguments of one append.
pub record AuditEvent : Type 0 where
  pub event_type : String
  pub payload : Fields
  pub actor_id : String
  pub timestamp : Option String

unfoldable pub record_event : Platform → AuditLedger → AuditEvent → String → AuditLedger
record_event p ledger e now = append p ledger e.event_type e.payload e.actor_id e.timestamp now

unfoldable pub untimed : String → Fields → String → AuditEvent
untimed event_type payload actor_id = record {
  event_type = event_type;
  payload = payload;
  actor_id = actor_id;
  timestamp = none;
}

unfoldable pub authority_init : String → String → AuditEvent
unfolding untimed
authority_init actor_id version =
    untimed "authority.init" (field "version" (str version) end) actor_id

unfoldable pub boundary_registered : String → String → String → String → AuditEvent
unfolding untimed
boundary_registered actor_id boundary_id boundary_type model_id =
    untimed "boundary.registered"
      (field "boundary_id" (str boundary_id)
        (field "boundary_type" (str boundary_type) (field "model_id" (str model_id) end)))
      actor_id

unfoldable pub delegation_issued : String → String → String → List String → AuditEvent
unfolding untimed
delegation_issued actor_id token_id grantee_id scope =
    untimed "delegation.issued"
      (field "token_id" (str token_id)
        (field "grantee_id" (str grantee_id) (field "scope" (arr (texts scope)) end)))
      actor_id

unfoldable pub delegation_revoked : String → String → AuditEvent
unfolding untimed
delegation_revoked actor_id token_id =
    untimed "delegation.revoked" (field "token_id" (str token_id) end) actor_id

unfoldable pub memory_access : String → String → String → String → AuditEvent
unfolding untimed
memory_access actor_id record_id model_id access_type =
    untimed "memory.access"
      (field "record_id" (str record_id)
        (field "model_id" (str model_id) (field "access_type" (str access_type) end)))
      actor_id

unfoldable pub export_created : String → String → AuditEvent
unfolding untimed
export_created actor_id bundle_id =
    untimed "export.created" (field "bundle_id" (str bundle_id) end) actor_id

unfoldable pub import_loaded : String → String → AuditEvent
unfolding untimed
import_loaded actor_id bundle_id =
    untimed "import.loaded" (field "bundle_id" (str bundle_id) end) actor_id

-- `details or {}`
unfoldable pub conformance_result : String → String → Bool → Option Fields → AuditEvent
unfolding untimed
conformance_result actor_id rfc passed details =
    untimed "conformance.result"
      (field "rfc" (str rfc) (
        field "passed" (bool passed)
          (field "details" (obj (elim details [ none ↦ end | some d ↦ d ])) end)))
      actor_id

unfoldable pub mcp_operation : String → String → Fields → AuditEvent
unfolding untimed
mcp_operation actor_id event_type payload = untimed event_type payload actor_id

-- The arguments of `record_tool_operation`; `none` is `None`.
pub record ToolOperation : Type 0 where
  pub request_id : Option String
  pub authorization_id : Option String
  pub identity_id : Option String
  pub workspace_id : Option String
  pub binding_id : Option String
  pub branch : Option String
  pub task_id : Option String
  pub capability_id : Option String
  pub tool_name : Option String
  pub operation : Option String
  pub decision : Option String
  pub execution_status : Option String
  pub failure_reason : Option String
  pub timestamp : Option String

-- A key whose value is `None` is left out.
abbrev given : String → Option String → Fields → Fields
given key none more = more
given key (some text) more = field key (str text) more

unfoldable pub tool_payload : ToolOperation → Fields
tool_payload o = given "request_id" o.request_id (
    given "authorization_id" o.authorization_id (
      given "identity_id" o.identity_id (
        given "workspace_id" o.workspace_id (
          given "binding_id" o.binding_id (
            given "branch" o.branch (
              given "task_id" o.task_id (
                given "capability_id" o.capability_id (
                  given "tool_name" o.tool_name (
                    given "operation" o.operation (
                      given "decision" o.decision (
                        given "execution_status" o.execution_status (
                          given "failure_reason" o.failure_reason
                            (given "timestamp" o.timestamp end)))))))))))))

unfoldable pub tool_operation : String → String → ToolOperation → AuditEvent
unfolding untimed tool_payload
tool_operation actor_id event_type o = untimed event_type (tool_payload o) actor_id

pub record RequestContext : Type 0 where
  pub request_id : String
  pub correlation_id : String
  pub session_id : String
  pub operation : String
  pub subject_id : String
  pub capability_id : Option String
  pub policy_hash : String
  pub timestamp : String
  pub authority_sequence : ℤ

-- `RequestContext.advance`
unfoldable pub advance : RequestContext → ℤ → RequestContext
advance c authority_sequence = record c { authority_sequence = authority_sequence }

pub data ProviderEventType : Type 0 where
  requested approved completed failed : ProviderEventType

abbrev pub value : ProviderEventType → String
value requested = "requested"
value approved = "approved"
value completed = "completed"
value failed = "failed"

pub record ProviderScarEvent : Type 0 where
  pub event_type : ProviderEventType
  pub context : RequestContext
  pub provider_id : String
  pub error_code : Option String
  pub error_category : Option String
  pub retryable : Option Bool

unfoldable pub optional_bool : Option Bool → Value
optional_bool none = null
optional_bool (some b) = bool b

-- `ProviderSCAREvent.to_payload`
unfoldable pub provider_payload : ProviderScarEvent → Fields
unfolding optional_bool
provider_payload e = field "event_type" (str (value e.event_type)) (
    field "request_id" (str e.context.request_id) (
      field "correlation_id" (str e.context.correlation_id) (
        field "session_id" (str e.context.session_id) (
          field "operation" (str e.context.operation) (
            field "subject_id" (str e.context.subject_id) (
              field "capability_id" (optional e.context.capability_id) (
                field "policy_hash" (str e.context.policy_hash) (
                  field "authority_sequence" (int e.context.authority_sequence) (
                    field "provider_id" (str e.provider_id) (
                      field "error_code" (optional e.error_code) (
                        field "error_category" (optional e.error_category)
                          (field "retryable" (optional_bool e.retryable) end))))))))))))

unfoldable pub provider_event : ProviderScarEvent → AuditEvent
unfolding provider_payload
provider_event e = record {
  event_type = str_append "provider." (value e.event_type);
  payload = provider_payload e;
  actor_id = e.context.subject_id;
  timestamp = some e.context.timestamp;
}
