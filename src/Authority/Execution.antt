-- ===== src/Authority/Execution.antt =====
-- `execute_tool_authorized` of src/sia/authority.py: authorize, issue a context, run, and leave evidence.
use Prim.Native.String.{◌++◌ as str_append}
use sovereignty_ai_gate.Prelude.{
  ℕ, String, Bool, true, false, not, List, Option, none, some, Error, Result, ok, err, str_eq,
  if◌then◌else◌,
}
use sovereignty_ai_gate.Prelude.Int.{pos}
use sovereignty_ai_gate.Prelude.Effects.{◌>>=◌, ◌>>◌, return, reads, lift}
use sovereignty_ai_gate.Platform.{Platform, Moment}
use sovereignty_ai_gate.Recorder.{ToolOperation, tool_operation}
use sovereignty_ai_gate.Tools.{
  ToolCapability, ToolExecutionContext, ToolExecutionResult, issue_context,
}
use sovereignty_ai_gate.Operations.{
  IdentityContext, Capability, capability_record, capability_token, delegation_token, other_object,
  OperationRequest, operation_name, AuthorizationDecision,
}
use sovereignty_ai_gate.Authority.{Act, require_initialized, log}
use sovereignty_ai_gate.Authority.Authorized.{authorize_operation}

-- What Python makes of texts and exceptions: `repr(text)`, and of an exception its message or else
-- its class's name, its `code` or "UNKNOWN", and its `retryable` or False.
pub record Messages : Type 0 where
  pub repr : String → String
  pub message : Error → String
  pub code : Error → String
  pub retryable : Error → Bool

-- The arguments of `execute_tool_authorized`, but for the request and the executor.
pub record ToolCall : Type 0 where
  pub tool_name : String
  pub args : List String
  pub capability : ToolCapability
  pub input_hash : String
  pub requester : String
  pub runtime_version : String

-- `getattr(capability, "capability_id", None) or getattr(capability, "token_id", None)`; an object of
-- another class is taken to have neither.
unfoldable pub id_of : Option Capability → Option String
id_of none = none
id_of (some (capability_record r)) =
    if str_eq r.capability_id "" then none else some r.capability_id
id_of (some (capability_token t)) = some t.token_id
id_of (some (delegation_token t)) = some t.token_id
id_of (some (other_object v)) = none

-- Both ids are given and differ.
unfoldable pub is_mismatch : Option String → Option String → Bool
is_mismatch none decided = false
is_mismatch (some requested) none = false
is_mismatch (some requested) (some decided) = not (str_eq requested decided)

unfoldable pub identity_id_of : Option IdentityContext → Option String
identity_id_of none = none
identity_id_of (some i) = some i.identity_id

unfoldable pub text_or_empty : Option String → String
text_or_empty none = ""
text_or_empty (some s) = s

module _ (p : Platform) (say : Messages) where
  -- `str(sequence)` of a sequence that is there.
  unfoldable pub authorization_id_of : Option ℕ → Option String
  authorization_id_of none = none
  authorization_id_of (some n) = some (p.show (pos n))

  -- The evidence of one stage; `made` is the moment of the request.
  unfoldable pub tool_evidence :
      Moment
      → OperationRequest
      → ToolCall
      → AuthorizationDecision
      → String
      → String
      → Option String
      → String
      → ToolOperation
  tool_evidence made request call decision verdict status failure_reason timestamp = record {
    request_id = some made.uuid;
    authorization_id = authorization_id_of decision.evidence_sequence;
    identity_id = identity_id_of request.identity;
    workspace_id = none;
    binding_id = none;
    branch = none;
    task_id = none;
    capability_id = decision.capability_id;
    tool_name = some call.tool_name;
    operation = some (operation_name request);
    decision = some verdict;
    execution_status = some status;
    failure_reason = failure_reason;
    timestamp = some timestamp;
  }

  -- The decision that a mismatch is answered with.
  unfoldable pub mismatch_decision : AuthorizationDecision → Option String → AuthorizationDecision
  mismatch_decision decision requested = record decision {
    allowed = false;
    reason_code = "CAPABILITY_CONTEXT_MISMATCH";
    reason = str_append "capability_id in request (" (
        str_append (say.repr (text_or_empty requested)) (
          str_append ") does not match the decision ("
            (str_append (say.repr (text_or_empty decision.capability_id)) ")")));
    audit_required = true;
  }

  -- The arguments of `_issue_tool_execution_context`.
  unfoldable pub context_of :
      Moment → OperationRequest → ToolCall → AuthorizationDecision → ToolExecutionContext
  context_of made request call decision = record {
    request_id = made.uuid;
    authorization_id = authorization_id_of decision.evidence_sequence;
    identity_id = text_or_empty (identity_id_of request.identity);
    capability_id = decision.capability_id;
    tool_name = call.tool_name;
    operation = operation_name request;
    tool_capability = call.capability;
    args = call.args;
    input_hash = call.input_hash;
    requester = call.requester;
    runtime_version = call.runtime_version;
    issued_at = made.text;
    workspace_id = none;
    binding_id = none;
    branch = none;
    task_id = none;
    marker = false;
  }

  module _ (clock : ℕ → Moment) (request : OperationRequest)
      (executor : ToolExecutionContext → Result ToolExecutionResult) (call : ToolCall) where
    abbrev pub Answer : Type 0
    Answer = AuthorizationDecision × Option ToolExecutionResult

    -- `self._recorder.record_tool_operation(...)`
    unfoldable pub log_tool :
        Moment
        → String
        → AuthorizationDecision
        → String
        → String
        → Option String
        → String
        → Act Unit
    log_tool now event_type decision verdict status failure_reason timestamp = do
      owner_id ← reads (λ s. s.owner_id)
      log p now (
          tool_operation owner_id event_type
            (tool_evidence (clock 0) request call decision verdict status failure_reason timestamp))

    -- After the executor has answered.
    unfoldable pub after_run : AuthorizationDecision → Result ToolExecutionResult → Act Answer
    after_run decision (err e) =
        log_tool (clock 4) "tool.operation.failed" decision "authorized" "failed"
          (some (say.message e)) (clock 3).text
        >> lift (err e)
    after_run decision (ok result) =
        log_tool (clock 4) "tool.operation.completed" decision "authorized" "completed" none
          (clock 3).text
        >> return (decision, some result)

    -- The run of an authorized call.
    unfoldable pub run_authorized : AuthorizationDecision → Act Answer
    run_authorized decision = do
      ctx ← lift (issue_context (context_of (clock 0) request call decision))
      log_tool (clock 2) "tool.operation.started" decision "authorized" "started" none
          (clock 0).text
      after_run decision (executor ctx)

    -- After the decision.
    unfoldable pub after_decision : AuthorizationDecision → Act Answer
    after_decision decision =
        if not decision.allowed
        then (log_tool (clock 2) "tool.operation.denied" decision "denied" "denied"
              (some decision.reason) (clock 0).text
            >> return (decision, none))
        else if is_mismatch (id_of request.capability) decision.capability_id
        then (log_tool (clock 2) "tool.operation.rejected" decision "rejected" "rejected"
              (some "CAPABILITY_CONTEXT_MISMATCH") (clock 0).text
            >> return (mismatch_decision decision (id_of request.capability), none))
        else run_authorized decision

    -- `execute_tool_authorized`
    unfoldable pub execute_tool_authorized : Act Answer
    execute_tool_authorized = do
      require_initialized
      decision ← authorize_operation p (clock 1) request
      after_decision decision
