-- ===== src/Authority/Authorized.antt =====
-- The operations of src/sia/authority.py that ask the authority's gate first.
use sovereignty_ai_gate.Prelude.{ℕ, String, Option, none, some, Result, ok, if◌then◌else◌}
use sovereignty_ai_gate.Prelude.{◌>>=◌ as bind}
use sovereignty_ai_gate.Prelude.Effects.{◌>>=◌, ◌>>◌, return}
use sovereignty_ai_gate.Platform.{Platform, Moment}
use sovereignty_ai_gate.Utils.Json.{Fields}
use sovereignty_ai_gate.Scar.{ScarLedger}
use sovereignty_ai_gate.Memory.{MemoryRecord}
use sovereignty_ai_gate.Bundles.{ExportBundle, ImportBundle}
use sovereignty_ai_gate.Operations.{OperationRequest, AuthorizationDecision, Capability}
use sovereignty_ai_gate.Gate
use sovereignty_ai_gate.Adapters.{identity_context, adapter_gate}
use sovereignty_ai_gate.Firewall.{record_memory}
use sovereignty_ai_gate.Authority.{
  SovereignAuthority, Act, attempt, require_initialized, store_memory, read_memory, create_export,
  load_import,
}

-- `make_operation_request`
unfoldable pub make_operation_request :
    SovereignAuthority
    → String
    → Option Capability
    → Option Capability
    → String
    → String
    → Option String
    → Fields
    → OperationRequest
make_operation_request s operation capability parent resource_id model_id provider_id metadata =
    record {
      operation = operation;
      identity = some (identity_context s.identity);
      capability = capability;
      parent_capability = parent;
      requester_id = s.owner_id;
      resource_id = resource_id;
      model_id = model_id;
      provider_id = provider_id;
      metadata = metadata;
    }

module _ (p : Platform) where
  -- The gate works on the evidence ledger alone.
  unfoldable pub with_evidence :
      SovereignAuthority
      → ScarLedger × Result AuthorizationDecision
      → SovereignAuthority × Result AuthorizationDecision
  with_evidence s (evidence, outcome) = (record s { evidence = evidence }, outcome)

  -- `self._authority_gate.authorize(request)`
  unfoldable pub ask_gate : Moment → OperationRequest → Act AuthorizationDecision
  ask_gate now request = λ s.
      with_evidence s (Gate.authorize (adapter_gate p now s.identity s.policy) request s.evidence)

  unfoldable pub authorize_operation : Moment → OperationRequest → Act AuthorizationDecision
  authorize_operation now request = do require_initialized; ask_gate now request

  -- `self._vault.record_memory(...)`
  unfoldable pub record_in_vault : Moment → MemoryRecord → Option String → Act (Unit {0})
  record_in_vault now r capability_id = attempt (λ s.
      bind (record_memory p s.owner_id s.identity.root_of_trust s.vault r capability_id now)
        (λ vault. ok (record s { vault = vault })))

  unfoldable pub store_memory_authorized :
      (ℕ → Moment) → OperationRequest → MemoryRecord → Act AuthorizationDecision
  store_memory_authorized clock request r = do
    require_initialized
    decision ← authorize_operation (clock 0) request
    if decision.allowed
        then (do
          store_memory p (clock 1) r
          record_in_vault (clock 2) r decision.capability_id
          return decision)
        else return decision

  unfoldable pub read_memory_authorized :
      (ℕ → Moment)
      → OperationRequest
      → String
      → String
      → Act (AuthorizationDecision × Option MemoryRecord)
  read_memory_authorized clock request record_id requesting_model_id = do
    require_initialized
    decision ← authorize_operation (clock 0) request
    if decision.allowed
        then (do
          r ← read_memory p (clock 1) record_id requesting_model_id
          return (decision, some r))
        else return (decision, none)

  unfoldable pub create_export_authorized :
      (ℕ → Moment)
      → OperationRequest
      → String
      → Fields
      → String
      → String
      → Act (AuthorizationDecision × Option ExportBundle)
  create_export_authorized clock request bundle_id payload payload_hash signature = do
    require_initialized
    decision ← authorize_operation (clock 0) request
    if decision.allowed
        then (do
          bundle ← create_export p (clock 1) (clock 2) bundle_id payload payload_hash signature
          return (decision, some bundle))
        else return (decision, none)

  unfoldable pub load_import_authorized :
      (ℕ → Moment) → OperationRequest → ImportBundle → Act AuthorizationDecision
  load_import_authorized clock request bundle = do
    require_initialized
    decision ← authorize_operation (clock 0) request
    if decision.allowed
        then (do load_import p (clock 1) bundle; return decision)
        else return decision
