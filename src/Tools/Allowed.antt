-- ===== src/Tools/Allowed.antt =====
-- What src/sia/tools/executor.py runs.
use Prim.Native.String.{◌++◌ as str_append}
use mathlib.Core.Option
use sovereignty_ai_gate.Prelude.{
  ℕ, ◌<◌, String, ◌≡◌, ◌↔◌, refl, ap, sym, ◌∙◌, true, false, [], ◌∷◌, ◌++◌, Option, none, some,
  if◌then◌else◌, arith, Result, ok, err, >>=-eq-ok, raise_if-eq-ok, require, require-eq-ok,
  raise_if_iff, ok-injective, permission_error, lookup, contains, capability_validation_error, leb,
}
use sovereignty_ai_gate.Platform.{Platform, Moment}
use sovereignty_ai_gate.Utils.Json.{Value, Fields, field, end, obj, arr, str, int, texts}
use sovereignty_ai_gate.Tools.{
  ToolExecutionContext, ToolExecutionResult, RegisteredTool, ToolRegistry, CompletedProcess,
  Subprocess, ToolAudit, is_expired, resolve, validate, record_execution, entry_fields,
  hash_execution, hash_signature,
}
use sovereignty_ai_gate.Tools.Execution.{
  Executor, is_zero, check_context, request_of, run_tool, result_of, audited, finish,
  execute_authorized,
}

-- A registered tool that the capability names and that is run before its expiry.
pub record Ran (registry : ToolRegistry) (run : Subprocess) (ctx : ToolExecutionContext)
    (checked validated : ℕ) (r : CompletedProcess) : Type 0 where
  pub tool : RegisteredTool
  pub registered : lookup ctx.tool_name registry ≡ some tool
  pub named : contains ctx.tool_name ctx.tool_capability.allowed_commands ≡ true
  pub in_time :
      (checked < ctx.tool_capability.expires_at) × (validated < ctx.tool_capability.expires_at)
  pub ran : run tool.executable ctx.args ctx.tool_capability.max_runtime_seconds ≡ ok r

expiry_false : (now expires_at : ℕ) → now < expires_at → leb expires_at now ≡ false
expiry_false now expires_at h = ground (arith, h)

module _ (registry : ToolRegistry) (run : Subprocess) (ctx : ToolExecutionContext)
    (checked validated : ℕ) where
  run_tool-Ran :
      (r : CompletedProcess)
      → run_tool registry run ctx checked validated ≡ ok r
      → Ran registry run ctx checked validated r
  unfolding run_tool check_context validate is_expired resolve request_of
  run_tool-Ran r h =
      let (_, passed, h1) = >>=-eq-ok (check_context ctx checked) _ h in
      let (_, valid, h2) = >>=-eq-ok (validate (request_of ctx) validated) _ h1 in
      let (exe, found, h3) = >>=-eq-ok (resolve registry ctx.tool_name) _ h2 in
      let (live, named) =
        raise_if-eq-ok (is_expired ctx.tool_capability checked) capability_validation_error _
          passed in
      let (tool, registered, path) =
        >>=-eq-ok (require permission_error (lookup ctx.tool_name registry)) _ found in
      let live' = (raise_if_iff _ capability_validation_error).0 valid in
      record {
        tool = tool;
        registered = require-eq-ok permission_error _ registered;
        named = ground (arith, (raise_if_iff _ capability_validation_error).0 named);
        in_time = (ground (arith, live), ground (arith, live'));
        ran =
            ap (λ e. run e ctx.args ctx.tool_capability.max_runtime_seconds) (ok-injective path)
            ∙ h3;
      }

  Ran-run_tool :
      (r : CompletedProcess)
      → Ran registry run ctx checked validated r
      → run_tool registry run ctx checked validated ≡ ok r
  unfolding run_tool check_context validate is_expired resolve request_of
  Ran-run_tool r t =
      let late = expiry_false checked ctx.tool_capability.expires_at t.in_time.0 in
      let later = expiry_false validated ctx.tool_capability.expires_at t.in_time.1 in
      simp (late, later, t.named, t.registered, t.ran)

-- The document of an audit entry: what was asked for, what it gave, and more after them.
abbrev entry_document : ToolExecutionContext → ToolExecutionResult → Fields → Fields
entry_document ctx output more =
    field "request"
      (obj (
        field "tool_name" (str ctx.tool_name) (
          field "args" (arr (texts ctx.args))
            (field "input_hash" (str ctx.input_hash) (field "requester" (str ctx.requester) end)))))
      (field "result"
        (obj (
          field "tool_name" (str output.tool_name) (
            field "status" (str output.status) (
              field "stdout" (str output.stdout) (
                field "stderr" (str output.stderr) (
                  field "returncode" (int output.returncode) (
                    field "input_hash" (str output.input_hash) (
                      field "execution_hash" (str output.execution_hash) (
                        field "timestamp" (str output.timestamp)
                          (field "signature" (str output.signature) end))))))))))
        more)

-- An audit file with one more entry, whose hash covers the hash before it.
abbrev extended :
    Platform → (Value → String) → ToolExecutionContext → ToolExecutionResult → ToolAudit → ToolAudit
extended p dump ctx output audit =
    let hash =
      p.sha3_512
        (p.encode (str_append audit.previous_hash (dump (obj (entry_document ctx output end))))) in
    record {
      previous_hash = hash;
      file =
          audit.file ++ obj (entry_document ctx output (field "ledger_hash" (str hash) end)) ∷ [];
    }

audited-extended :
    (p : Platform) (dump : Value → String) (ctx : ToolExecutionContext)
    (output : ToolExecutionResult) (audit : Option ToolAudit)
    → audited p dump audit (request_of ctx) output ≡ Option.map (extended p dump ctx output) audit
unfolding audited record_execution entry_fields request_of
audited-extended p dump ctx output none = refl
audited-extended p dump ctx output (some audit) = refl

-- What a run that returns leaves.
pub record Executed (p : Platform) (dump : Value → String) (run : Subprocess) (clock : ℕ → Moment)
    (ctx : ToolExecutionContext) (x x' : Executor) (output : ToolExecutionResult) : Type 0 where
  pub process : CompletedProcess
  pub ran : Ran x.registry run ctx (clock 0).reading (clock 1).reading process
  pub result : output ≡ record {
    tool_name = ctx.tool_name;
    status = if is_zero process.returncode then "success" else "error";
    stdout = process.stdout;
    stderr = process.stderr;
    returncode = process.returncode;
    input_hash = ctx.input_hash;
    execution_hash = hash_execution p ctx process;
    timestamp = (clock 2).text;
    signature = hash_signature p ctx.tool_capability.signature (hash_execution p ctx process);
  }
  pub registry : x'.registry ≡ x.registry
  pub audit : x'.audit_ledger ≡ Option.map (extended p dump ctx output) x.audit_ledger

module _ (p : Platform) (dump : Value → String) (run : Subprocess) (clock : ℕ → Moment)
    (ctx : ToolExecutionContext) (x x' : Executor) (output : ToolExecutionResult) where
  finish-Executed :
      (m : Result CompletedProcess)
      → run_tool x.registry run ctx (clock 0).reading (clock 1).reading ≡ m
      → finish p dump x ctx (clock 2).text m ≡ (x', ok output)
      → Executed p dump run clock ctx x x' output
  unfolding finish result_of
  finish-Executed (err e) known h = absurd (cc)
  finish-Executed (ok r) known h =
      let result = ok-injective (ap (λ t. t.1) h) in
      let after = ap (λ t. t.0) h in
      record {
        process = r;
        ran = run_tool-Ran x.registry run ctx (clock 0).reading (clock 1).reading r known;
        result = sym result;
        registry = ap (λ t. t.registry) (sym after);
        audit =
            ap (λ t. t.audit_ledger) (sym after)
            ∙ ap (λ o. audited p dump x.audit_ledger (request_of ctx) o) result
            ∙ audited-extended p dump ctx output x.audit_ledger;
      }

  Executed-returns :
      Executed p dump run clock ctx x x' output
      → execute_authorized p dump run clock ctx x ≡ (x', ok output)
  unfolding execute_authorized finish result_of
  Executed-returns t =
      let same : record x { audit_ledger = audited p dump x.audit_ledger (request_of ctx) output }
          ≡ x' =
        cc (t.registry, t.audit, audited-extended p dump ctx output x.audit_ledger) in
      rw (Ran-run_tool x.registry run ctx (clock 0).reading (clock 1).reading t.process t.ran)
        (cc (t.result, same))

  -- `execute_authorized` returns a result exactly when the tool is registered, the capability names
  -- it and expires after both checks, and its subprocess returns; the result is then that
  -- process's output with its hash, `success` if it returned 0 and `error` if not, the registry stays,
  -- and an audit file that is attached gains one entry, of the call and its result, whose hash covers
  -- the hash before it.
  pub execute_authorized-Executed :
      (execute_authorized p dump run clock ctx x ≡ (x', ok output))
      ↔ Executed p dump run clock ctx x x' output
  unfolding execute_authorized
  execute_authorized-Executed = (λ h. finish-Executed _ refl h, Executed-returns)
