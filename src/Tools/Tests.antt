-- ===== src/Tools/Tests.antt =====
-- A run of one registered tool.
use sovereignty_ai_gate.Prelude.{
  ◌≡◌, ◌↔◌, refl, true, [], ◌∷◌, none, some, ok, ℕ, arith, lookup, contains,
}
use sovereignty_ai_gate.Prelude.Int.{pos}
use sovereignty_ai_gate.Platform.{Moment}
use sovereignty_ai_gate.Platform.Toy.{toy}
use sovereignty_ai_gate.Tools.{
  ToolCapability, ToolExecutionContext, ToolExecutionResult, CompletedProcess, Subprocess,
  open_audit, record_execution,
}
use sovereignty_ai_gate.Tools.Execution.{
  Executor, execute_authorized, result_of, audited, request_of,
}
use sovereignty_ai_gate.Tools.Allowed.{Executed, execute_authorized-Executed}

abbrev capability : ToolCapability
capability = record {
  tool_id = "t";
  allowed_commands = "echo" ∷ [];
  max_runtime_seconds = pos 5;
  owner = "alice";
  expires_at = 9;
  signature = "s";
}

abbrev context : ToolExecutionContext
context = record {
  request_id = "q";
  authorization_id = some "0";
  identity_id = "alice";
  capability_id = some "c";
  tool_name = "echo";
  operation = "EXECUTE_TOOL";
  tool_capability = capability;
  args = "hi" ∷ [];
  input_hash = "";
  requester = "alice";
  runtime_version = "3";
  issued_at = "monday";
  workspace_id = none;
  binding_id = none;
  branch = none;
  task_id = none;
  marker = true;
}

abbrev process : CompletedProcess
process = record { stdout = "hi"; stderr = ""; returncode = pos 0 }

abbrev run : Subprocess
run executable args timeout = ok process

abbrev clock : ℕ → Moment
clock i = record { seconds = pos i; reading = i; text = "monday"; uuid = "u" }

abbrev executor : Executor
executor = record {
  registry = ("echo", record { name = "echo"; executable = "/bin/echo" }) ∷ [];
  audit_ledger = some (open_audit []);
}

abbrev output : ToolExecutionResult
output = result_of toy context process "monday"

abbrev after : Executor
after = record executor {
  audit_ledger = audited toy (λ v. "d") executor.audit_ledger (request_of context) output;
}

-- It runs.
executed : Executed toy (λ v. "d") run clock context executor after output
unfolding lookup contains result_of audited record_execution request_of
executed = record {
  process = process;
  ran = record {
    tool = record { name = "echo"; executable = "/bin/echo" };
    registered = refl;
    named = refl;
    in_time = (omega arith, omega arith);
    ran = refl;
  };
  result = refl;
  registry = refl;
  audit = refl;
}

execute_authorized-Executed_example :
    (execute_authorized toy (λ v. "d") run clock context executor ≡ (after, ok output))
    ↔ Executed toy (λ v. "d") run clock context executor after output
execute_authorized-Executed_example =
    execute_authorized-Executed toy (λ v. "d") run clock context executor after output
