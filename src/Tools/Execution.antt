-- ===== src/Tools/Execution.antt =====
-- `PlaygroundExecutor` of src/sia/tools/executor.py.
use sovereignty_ai_gate.Prelude.{
  ℕ, zero, suc, String, Bool, true, false, not, List, Option, none, some, Result, ok, err, ◌>>=◌,
  ◌>>◌, raise_if, direct_execution_denied, capability_validation_error, contains, if◌then◌else◌,
}
use sovereignty_ai_gate.Prelude.Int.{ℤ, pos, negsuc}
use sovereignty_ai_gate.Prelude.Effects.{Effect}
use sovereignty_ai_gate.Platform.{Platform, Moment}
use sovereignty_ai_gate.Utils.Json.{Value}
use sovereignty_ai_gate.Tools.{
  ToolCapability, ToolExecutionRequest, ToolExecutionResult, ToolExecutionContext, ToolRegistry,
  CompletedProcess, Subprocess, ToolAudit, is_expired, resolve, validate, record_execution,
  hash_execution, hash_signature,
}

pub record Executor : Type 0 where
  pub registry : ToolRegistry
  pub audit_ledger : Option ToolAudit

-- `execute` never runs anything.
unfoldable pub execute : String → List String → ToolCapability → Result ToolExecutionResult
execute tool_name args capability = err direct_execution_denied

-- `returncode == 0`
abbrev pub is_zero : ℤ → Bool
is_zero (pos zero) = true
is_zero (pos (suc n)) = false
is_zero (negsuc n) = false

unfoldable pub check_context : ToolExecutionContext → ℕ → Result (Unit {0})
unfolding is_expired
check_context ctx now = do
  raise_if (is_expired ctx.tool_capability now) capability_validation_error
  raise_if (not (contains ctx.tool_name ctx.tool_capability.allowed_commands))
      capability_validation_error

unfoldable pub request_of : ToolExecutionContext → ToolExecutionRequest
request_of ctx = record {
  tool_name = ctx.tool_name;
  args = ctx.args;
  capability = ctx.tool_capability;
  input_hash = ctx.input_hash;
  requester = ctx.requester;
}

-- The checks and the subprocess of `execute_authorized`; the clock is read for each check.
unfoldable pub run_tool :
    ToolRegistry → Subprocess → ToolExecutionContext → ℕ → ℕ → Result CompletedProcess
unfolding check_context request_of validate resolve
run_tool registry run ctx checked validated = do
  check_context ctx checked
  validate (request_of ctx) validated
  executable ← resolve registry ctx.tool_name
  run executable ctx.args ctx.tool_capability.max_runtime_seconds

module _ (p : Platform) where
  unfoldable pub result_of : ToolExecutionContext → CompletedProcess → String → ToolExecutionResult
  result_of ctx r timestamp =
      let execution_hash = hash_execution p ctx r in
      record {
        tool_name = ctx.tool_name;
        status = if is_zero r.returncode then "success" else "error";
        stdout = r.stdout;
        stderr = r.stderr;
        returncode = r.returncode;
        input_hash = ctx.input_hash;
        execution_hash = execution_hash;
        timestamp = timestamp;
        signature = hash_signature p ctx.tool_capability.signature execution_hash;
      }

  -- `if self.audit_ledger is not None: self.audit_ledger.record(...)`
  unfoldable pub audited :
      (Value → String)
      → Option ToolAudit
      → ToolExecutionRequest
      → ToolExecutionResult
      → Option ToolAudit
  audited dump none request output = none
  audited dump (some audit) request output = some (record_execution p dump audit request output)

  -- `execute_authorized` after the subprocess.
  unfoldable pub finish :
      (Value → String)
      → Executor
      → ToolExecutionContext
      → String
      → Result CompletedProcess
      → Executor × Result ToolExecutionResult
  unfolding result_of audited request_of
  finish dump x ctx timestamp (err e) = (x, err e)
  finish dump x ctx timestamp (ok r) =
      let output = result_of ctx r timestamp in
      (record x { audit_ledger = audited dump x.audit_ledger (request_of ctx) output }, ok output)

  -- `execute_authorized`
  unfoldable pub execute_authorized :
      (Value → String)
      → Subprocess
      → (ℕ → Moment)
      → ToolExecutionContext
      → Effect Executor ToolExecutionResult
  unfolding run_tool finish
  execute_authorized dump run clock ctx = λ x.
      finish dump x ctx (clock 2).text
        (run_tool x.registry run ctx (clock 0).reading (clock 1).reading)
