-- ===== src/Tools.antt =====
-- src/sia/tools/: the tool registry, the capability validator, the executor and its audit file. The
-- subprocess, the clock and the file system are parameters; a tool's timestamps are numbers, as
-- `is_expired` reads a time with no zone as UTC.
pub mod Execution
pub mod Allowed
mod Tests
use Prim.Native.String.{◌++◌ as str_append}
use sovereignty_ai_gate.Prelude.{
  ℕ, String, Bool, true, false, not, List, [], ◌∷◌, ◌++◌, Option, none, some, Result, ok, err,
  ◌>>=◌, ◌>>◌, raise_if, require, value_error, permission_error, direct_execution_denied,
  context_forgery_denied, capability_validation_error, duplicate_tool_registration, contains, Dict,
  lookup, insert, has_key, leb, str_eq, if◌then◌else◌,
}
use sovereignty_ai_gate.Prelude.Int.{ℤ, pos, negsuc}
use sovereignty_ai_gate.Platform.{Platform, Moment}
use sovereignty_ai_gate.Audit.{genesis_hash}
use sovereignty_ai_gate.Utils.{canonical_bytes}
use sovereignty_ai_gate.Utils.Json.{Value, str, int, arr, obj, Fields, end, field, texts}

pub record ToolCapability : Type 0 where
  pub tool_id : String
  pub allowed_commands : List String
  pub max_runtime_seconds : ℤ
  pub owner : String
  pub expires_at : ℕ
  pub signature : String

unfoldable pub is_expired : ToolCapability → ℕ → Bool
is_expired c now = leb c.expires_at now

pub record ToolExecutionRequest : Type 0 where
  pub tool_name : String
  pub args : List String
  pub capability : ToolCapability
  pub input_hash : String
  pub requester : String

pub record ToolExecutionResult : Type 0 where
  pub tool_name : String
  pub status : String
  pub stdout : String
  pub stderr : String
  pub returncode : ℤ
  pub input_hash : String
  pub execution_hash : String
  pub timestamp : String
  pub signature : String

-- `marker` says whether the object was given the module's own marker.
pub record ToolExecutionContext : Type 0 where
  pub request_id : String
  pub authorization_id : Option String
  pub identity_id : String
  pub capability_id : Option String
  pub tool_name : String
  pub operation : String
  pub tool_capability : ToolCapability
  pub args : List String
  pub input_hash : String
  pub requester : String
  pub runtime_version : String
  pub issued_at : String
  pub workspace_id : Option String
  pub binding_id : Option String
  pub branch : Option String
  pub task_id : Option String
  pub marker : Bool

-- `__post_init__`: only an object with the marker comes to be.
unfoldable pub construct : ToolExecutionContext → Result ToolExecutionContext
construct ctx = raise_if (not ctx.marker) context_forgery_denied >> ok ctx

-- `_issue_tool_execution_context`
unfoldable pub issue_context : ToolExecutionContext → Result ToolExecutionContext
unfolding construct
issue_context arguments = construct (record arguments { marker = true })

pub record RegisteredTool : Type 0 where
  pub name : String
  pub executable : String

abbrev pub ToolRegistry : Type 0
ToolRegistry = Dict RegisteredTool

unfoldable pub register : ToolRegistry → String → String → Result ToolRegistry
register tools name executable = do
  raise_if (str_eq name "") value_error
  raise_if (str_eq executable "") value_error
  raise_if (has_key name tools) duplicate_tool_registration
  ok (insert name (record { name = name; executable = executable }) tools)

unfoldable pub resolve : ToolRegistry → String → Result String
resolve tools name = require permission_error (lookup name tools) >>= λ t. ok t.executable

unfoldable pub is_registered : ToolRegistry → String → Bool
is_registered tools name = has_key name tools

-- `ToolValidator.validate`
unfoldable pub validate : ToolExecutionRequest → ℕ → Result (Unit {0})
unfolding is_expired
validate request now = raise_if (is_expired request.capability now) capability_validation_error

-- What a subprocess leaves.
pub record CompletedProcess : Type 0 where
  pub stdout : String
  pub stderr : String
  pub returncode : ℤ

-- `subprocess.run([executable, *args], timeout=...)`, which may raise.
abbrev pub Subprocess : Type 0
Subprocess = String → List String → ℤ → Result CompletedProcess

-- `AuditLedger` of src/sia/tools/audit.py: the last hash, and the file's entries in order.
pub record ToolAudit : Type 0 where
  pub previous_hash : String
  pub file : List Value

-- `AuditLedger(path)` on a file that is there: the chain starts anew.
unfoldable pub open_audit : List Value → ToolAudit
open_audit file = record { previous_hash = genesis_hash; file = file }

unfoldable pub entry_fields : ToolExecutionRequest → ToolExecutionResult → Fields → Fields
entry_fields request result more =
    field "request"
      (obj (
        field "tool_name" (str request.tool_name) (
          field "args" (arr (texts request.args)) (
            field "input_hash" (str request.input_hash)
              (field "requester" (str request.requester) end)))))
      (field "result"
        (obj (
          field "tool_name" (str result.tool_name) (
            field "status" (str result.status) (
              field "stdout" (str result.stdout) (
                field "stderr" (str result.stderr) (
                  field "returncode" (int result.returncode) (
                    field "input_hash" (str result.input_hash) (
                      field "execution_hash" (str result.execution_hash) (
                        field "timestamp" (str result.timestamp)
                          (field "signature" (str result.signature) end))))))))))
        more)

module _ (p : Platform) where
  -- `record`: `dump` is `json.dumps(entry, sort_keys=True)`.
  unfoldable pub record_execution :
      (Value → String) → ToolAudit → ToolExecutionRequest → ToolExecutionResult → ToolAudit
  unfolding entry_fields
  record_execution dump audit request result =
      let entry = obj (entry_fields request result end) in
      let ledger_hash = p.sha3_512 (p.encode (str_append audit.previous_hash (dump entry))) in
      record {
        previous_hash = ledger_hash;
        file =
            audit.file
            ++ obj (entry_fields request result (field "ledger_hash" (str ledger_hash) end)) ∷ [];
      }

  unfoldable pub hash_execution : ToolExecutionContext → CompletedProcess → String
  hash_execution ctx r = p.sha3_512 (
      canonical_bytes p (
        obj (
          field "tool_name" (str ctx.tool_name) (
            field "args" (arr (texts ctx.args)) (
              field "input_hash" (str ctx.input_hash) (
                field "stdout_hash" (str (p.sha3_512 (p.encode r.stdout))) (
                  field "stderr_hash" (str (p.sha3_512 (p.encode r.stderr))) (
                    field "returncode" (int r.returncode)
                      (field "runtime_version" (str ctx.runtime_version) end)))))))))

  unfoldable pub hash_signature : String → String → String
  hash_signature capability_signature execution_hash =
      p.sha3_512 (p.encode (str_append capability_signature (str_append ":" execution_hash)))
