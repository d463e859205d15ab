-- ===== src/Authority.antt =====
-- `SovereignAuthority` of src/sia/authority.py: its state and the operations on boundaries, delegations,
-- memory, exports and imports. An operation takes a reading of the clock for each time that it, or
-- what it calls, asks for one. The conformance harness is not part of the state.
pub mod Authorized
pub mod Execution
pub mod Providers
pub mod Invariant
pub mod Preservation
pub mod Calls
pub mod Reachable
pub mod Guarded
pub mod Evidence
pub mod ToolRuns
pub mod Consent
mod Tests
use sovereignty_ai_gate.Prelude.{
  ℕ, String, Bool, true, false, not, List, [], ◌∷◌, Option, none, some, Result, ok, err, raise_if,
  require, not_initialized, key_error, Dict, lookup, insert, if◌then◌else◌,
}
use sovereignty_ai_gate.Prelude.{◌>>=◌ as bind}
use sovereignty_ai_gate.Prelude.Int.{ℤ}
use sovereignty_ai_gate.Prelude.Effects.{Effect, ◌>>=◌, ◌>>◌, return, reads, modify, lift}
use sovereignty_ai_gate.Platform.{Platform, Moment}
use sovereignty_ai_gate.Utils.Json.{Value, Fields}
use sovereignty_ai_gate.Trust.{RootOfTrust}
use sovereignty_ai_gate.Audit.{AuditLedger}
use sovereignty_ai_gate.Audit
use sovereignty_ai_gate.Scar.{ScarLedger, new_ledger, verify_integrity}
use sovereignty_ai_gate.Vault.{MemoryChain}
use sovereignty_ai_gate.Policy
use sovereignty_ai_gate.Policy.{AuthorityPolicy}
use sovereignty_ai_gate.Delegation
use sovereignty_ai_gate.Delegation.{Authorizer, no_tokens, DelegationToken}
use sovereignty_ai_gate.Boundary
use sovereignty_ai_gate.Boundary.{BoundaryRegistry}
use sovereignty_ai_gate.Memory.{MemoryRecord, validate_record, assert_read_access}
use sovereignty_ai_gate.Bundles.{ExportBundle, ImportBundle, BundleLoader, validate_bundle, load}
use sovereignty_ai_gate.Recorder.{
  AuditEvent, record_event, authority_init, boundary_registered, delegation_issued,
  delegation_revoked, memory_access, export_created, import_loaded,
}
use sovereignty_ai_gate.Operations.{
  OperationRequest, AuthorizationDecision, Capability, IdentityContext,
}
use sovereignty_ai_gate.Gate
use sovereignty_ai_gate.Adapters.{
  IdentityAdapter, PolicyAdapter, policy_adapter, create_adapter, identity_context, adapter_gate,
}
use sovereignty_ai_gate.Firewall.{record_memory, verify_vault}

pub record SovereignAuthority : Type 0 where
  pub owner_id : String
  pub initialized : Bool
  pub registry : BoundaryRegistry
  pub policy : PolicyAdapter
  pub delegations : Authorizer
  pub memory : Dict MemoryRecord
  pub ledger : AuditLedger
  pub loader : BundleLoader
  pub identity : IdentityAdapter
  pub evidence : ScarLedger
  pub vault : MemoryChain

abbrev pub Act : Type 0 → Type 0
Act A = Effect SovereignAuthority A

-- A change that may be refused, and is then not made.
unfoldable pub settle :
    SovereignAuthority → Result SovereignAuthority → SovereignAuthority × Result (Unit {0})
settle s (err e) = (s, err e)
settle s (ok after) = (after, ok tt)

unfoldable pub attempt : (SovereignAuthority → Result SovereignAuthority) → Act (Unit {0})
attempt f = λ s. settle s (f s)

-- `_require_initialized`
unfoldable pub require_initialized : Act (Unit {0})
require_initialized = λ s. (s, raise_if (not s.initialized) not_initialized)

-- `SovereignAuthority(owner_id, policy)` on a root of trust.
unfoldable pub new_authority :
    Platform → String → AuthorityPolicy → RootOfTrust → ℤ → Result SovereignAuthority
new_authority p owner_id policy trust now = bind (new_ledger owner_id trust) (λ evidence.
    ok (record {
      owner_id = owner_id;
      initialized = false;
      registry = [];
      policy = policy_adapter p policy;
      delegations = no_tokens;
      memory = [];
      ledger = [];
      loader = [];
      identity = create_adapter owner_id trust now;
      evidence = evidence;
      vault = [];
    }))

-- `ExportBundle(...)` in `create_export`.
unfoldable pub export_bundle : String → String → Fields → String → String → String → ExportBundle
export_bundle owner_id bundle_id payload payload_hash signature created_at = record {
  bundle_id = bundle_id;
  created_by = owner_id;
  payload = payload;
  payload_hash = payload_hash;
  signature = signature;
  created_at = created_at;
  schema_version = "1.0";
}

module _ (p : Platform) where
  -- One append of the recorder.
  unfoldable pub log : Moment → AuditEvent → Act (Unit {0})
  log now e = modify (λ s. record s { ledger = record_event p s.ledger e now.text })

  unfoldable pub initialize : Moment → Act (Unit {0})
  initialize now = do
    modify (λ s. record s { initialized = true })
    owner_id ← reads (λ s. s.owner_id)
    log now (authority_init owner_id "0.1.0")

  unfoldable pub register_boundary :
      Moment → String → String → String → List String → Act (Unit {0})
  register_boundary now boundary_id model_id boundary_type scope = do
    require_initialized
    owner_id ← reads (λ s. s.owner_id)
    attempt (λ s.
        bind (Boundary.register s.registry boundary_id model_id boundary_type owner_id scope)
          (λ registry. ok (record s { registry = registry })))
    log now (boundary_registered owner_id boundary_id boundary_type model_id)

  -- `issue_delegation`, which returns the token that it is given.
  unfoldable pub issue_delegation : Moment → DelegationToken → Option (List String) → Act (Unit {0})
  issue_delegation now token parent_scope = do
    require_initialized
    attempt (λ s.
        bind (Delegation.issue s.delegations token parent_scope)
          (λ (delegations, place). ok (record s { delegations = delegations })))
    owner_id ← reads (λ s. s.owner_id)
    log now (delegation_issued owner_id token.token_id token.grantee_id token.scope)

  unfoldable pub revoke_delegation : Moment → String → Act (Unit {0})
  revoke_delegation now token_id = do
    require_initialized
    attempt (λ s.
        bind (Delegation.revoke s.delegations token_id)
          (λ delegations. ok (record s { delegations = delegations })))
    owner_id ← reads (λ s. s.owner_id)
    log now (delegation_revoked owner_id token_id)

  unfoldable pub store_memory : Moment → MemoryRecord → Act (Unit {0})
  store_memory now r = do
    require_initialized
    lift (validate_record r)
    modify (λ s. record s { memory = insert r.record_id r s.memory })
    owner_id ← reads (λ s. s.owner_id)
    log now (memory_access owner_id r.record_id r.model_id "write")

  -- `self._memory[record_id]`
  unfoldable pub find_record : String → Act MemoryRecord
  find_record record_id = λ s. (s, require key_error (lookup record_id s.memory))

  -- `read_memory` of the record that it found.
  unfoldable pub access_record : Moment → String → String → MemoryRecord → Act MemoryRecord
  access_record now record_id requesting_model_id r = do
    lift (assert_read_access r requesting_model_id)
    log now (memory_access requesting_model_id record_id r.model_id "read")
    return r

  unfoldable pub read_memory : Moment → String → String → Act MemoryRecord
  read_memory now record_id requesting_model_id = do
    require_initialized
    r ← find_record record_id
    access_record now record_id requesting_model_id r

  unfoldable pub create_export :
      Moment → Moment → String → Fields → String → String → Act ExportBundle
  create_export made now bundle_id payload payload_hash signature = do
    require_initialized
    owner_id ← reads (λ s. s.owner_id)
    let bundle = export_bundle owner_id bundle_id payload payload_hash signature made.text
    lift (validate_bundle p bundle)
    log now (export_created owner_id bundle_id)
    return bundle

  unfoldable pub load_import : Moment → ImportBundle → Act (Unit {0})
  load_import now bundle = do
    require_initialized
    attempt (λ s. bind (load s.loader bundle) (λ loader. ok (record s { loader = loader })))
    owner_id ← reads (λ s. s.owner_id)
    log now (import_loaded owner_id bundle.bundle_id)

  unfoldable pub enforce_policy : Dict Value → Act (Unit {0})
  enforce_policy request = do
    require_initialized
    policy ← reads (λ s. s.policy.policy)
    lift (Policy.enforce policy request)

  unfoldable pub verify_ledger : SovereignAuthority → Result (Unit {0})
  verify_ledger s = Audit.verify_chain p s.ledger

  unfoldable pub verify_authority_evidence : SovereignAuthority → Bool
  verify_authority_evidence s =
      if verify_integrity p s.evidence
      then verify_vault p s.identity.root_of_trust s.vault
      else false
