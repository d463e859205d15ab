-- ===== src/Authority/Tests.antt =====
-- A young authority.
use sovereignty_ai_gate.Prelude.{
  ℕ, String, ◌≡◌, refl, true, false, [], ◌∷◌, none, All, length, Result, ok, err, subprocess_error,
  lookup, contains,
}
use sovereignty_ai_gate.Prelude.Int.{pos}
use sovereignty_ai_gate.Platform.{Moment}
use sovereignty_ai_gate.Platform.Toy.{toy}
use sovereignty_ai_gate.Utils.Json.{end, str}
use sovereignty_ai_gate.Trust.Toy.{toy_root, toy_backend-IsSigner}
use sovereignty_ai_gate.Scar.{new_ledger}
use sovereignty_ai_gate.Policy.{AuthorityPolicy}
use sovereignty_ai_gate.Memory.{MemoryRecord, has_consent, assert_read_access}
use sovereignty_ai_gate.Tools.{ToolExecutionContext, ToolExecutionResult}
use sovereignty_ai_gate.Operations.{OperationRequest}
use sovereignty_ai_gate.Adapters.{policy_adapter, create_adapter}
use sovereignty_ai_gate.Authority.{
  SovereignAuthority, new_authority, initialize, require_initialized, register_boundary,
  find_record, access_record, read_memory, log, verify_ledger, verify_authority_evidence,
}
use sovereignty_ai_gate.Authority.Execution.{Messages, ToolCall, execute_tool_authorized}
use sovereignty_ai_gate.Authority.Providers.{read_all}
use sovereignty_ai_gate.Authority.Invariant.{IsIntact}
use sovereignty_ai_gate.Authority.Preservation.{initialize-keeps}
use sovereignty_ai_gate.Authority.Reachable.{
  Steps, here, next, initializes, registers, new-IsIntact, reachable_intact,
}
use sovereignty_ai_gate.Authority.Guarded.{uninitialized_inert}
use sovereignty_ai_gate.Authority.Evidence.{ToolOutcome}
use sovereignty_ai_gate.Authority.ToolRuns.{execute_tool_authorized-ToolOutcome}
use sovereignty_ai_gate.Authority.Consent.{Consented, read_all-Consented}

abbrev now : Moment
now = record { seconds = pos 3; reading = 3; text = "wednesday"; uuid = "u" }

abbrev clock : ℕ → Moment
clock i = now

abbrev policy : AuthorityPolicy
policy = record { default_effect = "deny"; rules = [] }

abbrev say : Messages
say = record {
  repr = λ s. s;
  message = λ e. "failed";
  code = λ e. "UNKNOWN";
  retryable = λ e. false;
}

abbrev start : SovereignAuthority
start = record {
  owner_id = "alice";
  initialized = false;
  registry = [];
  policy = policy_adapter toy policy;
  delegations = record { heap = []; tokens = [] };
  memory = [];
  ledger = [];
  loader = [];
  identity = create_adapter "alice" toy_root (pos 0);
  evidence = record { identity_id = "alice"; root_of_trust = toy_root; events = [] };
  vault = [];
}

made : new_authority toy "alice" policy toy_root (pos 0) ≡ ok start
unfolding new_authority new_ledger
made = refl

abbrev begun : SovereignAuthority
begun = (initialize toy now start).0

abbrev registered : SovereignAuthority
registered = (register_boundary toy now "b1" "m" "creator" [] begun).0

run : Steps toy say start registered
run = next (next here (initializes now)) (registers now "b1" "m" "creator" [])

reachable_intact_example :
    (verify_ledger toy registered ≡ ok tt) × (verify_authority_evidence toy registered ≡ true)
reachable_intact_example =
    reachable_intact toy say "alice" policy toy_root (pos 0) start registered toy_backend-IsSigner
      made run

abbrev too_early : SovereignAuthority
too_early = (register_boundary toy now "b1" "m" "creator" [] start).0

uninitialized_inert_example : too_early ≡ start
uninitialized_inert_example =
    uninitialized_inert toy say start too_early (registers now "b1" "m" "creator" []) refl refl

begun-IsIntact : IsIntact toy begun
begun-IsIntact =
    (initialize-keeps toy now).kept start
      (new-IsIntact toy say "alice" policy toy_root (pos 0) start toy_backend-IsSigner made)

ready : begun.initialized ≡ true
unfolding initialize log
ready = refl

abbrev call : ToolCall
call = record {
  tool_name = "echo";
  args = [];
  capability = record {
    tool_id = "t";
    allowed_commands = "echo" ∷ [];
    max_runtime_seconds = pos 5;
    owner = "alice";
    expires_at = 9;
    signature = "s";
  };
  input_hash = "";
  requester = "alice";
  runtime_version = "3";
}

abbrev executor : ToolExecutionContext → Result ToolExecutionResult
executor ctx = err subprocess_error

abbrev request : OperationRequest
request = record {
  operation = "EXECUTE_TOOL";
  identity = none;
  capability = none;
  parent_capability = none;
  requester_id = "alice";
  resource_id = "r";
  model_id = "m";
  provider_id = none;
  metadata = end;
}

execute_tool_authorized-ToolOutcome_example :
    ToolOutcome toy say clock request executor call begun
      (execute_tool_authorized toy say clock request executor call begun)
execute_tool_authorized-ToolOutcome_example =
    execute_tool_authorized-ToolOutcome toy say clock request executor call begun ready
      begun-IsIntact

abbrev tea : MemoryRecord
tea = record {
  record_id = "r1";
  model_id = "m";
  content = str "tea";
  consent = "acme" ∷ [];
  created_at = "monday";
  schema_version = "1.0";
}

abbrev stocked : SovereignAuthority
stocked = record start { initialized = true; memory = ("r1", tea) ∷ [] }

abbrev after : SovereignAuthority
after = (read_all toy clock 4 "acme" ("r1" ∷ []) stocked).0

read : read_all toy clock 4 "acme" ("r1" ∷ []) stocked ≡ (after, ok (tea ∷ []))
unfolding read_all read_memory require_initialized find_record access_record lookup
    assert_read_access has_consent contains log
read = refl

read_all-Consented_example :
    (after.memory ≡ stocked.memory)
    × (length (tea ∷ []) ≡ length {A = String} ("r1" ∷ []))
    × All (λ (r : MemoryRecord). Consented stocked.memory "acme" r) (tea ∷ [])
read_all-Consented_example =
    read_all-Consented toy clock 4 "acme" ("r1" ∷ []) stocked after (tea ∷ []) read
