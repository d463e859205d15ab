-- ===== src/Authority/Reachable.antt =====
-- Every state of a sovereign authority (src/sia/authority.py), from its creation on.
use sovereignty_ai_gate.Prelude.{
  ℕ, String, ◌≡◌, refl, true, List, Option, Dict, Result, ok, >>=-eq-ok, raise_if-eq-ok,
  ok-injective, value_error, str_eq,
}
use sovereignty_ai_gate.Prelude.Int.{ℤ}
use sovereignty_ai_gate.Platform.{Platform, Moment}
use sovereignty_ai_gate.Utils.Json.{Value, Fields}
use sovereignty_ai_gate.Trust.{IsSigner, RootOfTrust}
use sovereignty_ai_gate.Audit
use sovereignty_ai_gate.Scar
use sovereignty_ai_gate.Scar.{new_ledger}
use sovereignty_ai_gate.Vault
use sovereignty_ai_gate.Policy.{AuthorityPolicy}
use sovereignty_ai_gate.Delegation.{DelegationToken}
use sovereignty_ai_gate.Memory.{MemoryRecord}
use sovereignty_ai_gate.Bundles.{ImportBundle}
use sovereignty_ai_gate.Tools.{ToolExecutionContext, ToolExecutionResult}
use sovereignty_ai_gate.Operations.{OperationRequest}
use sovereignty_ai_gate.Adapters.{create_adapter}
use sovereignty_ai_gate.Firewall.{verify_vault}
use sovereignty_ai_gate.Authority.{
  SovereignAuthority, new_authority, initialize, register_boundary, issue_delegation,
  revoke_delegation, store_memory, read_memory, create_export, load_import, enforce_policy,
  verify_ledger, verify_authority_evidence,
}
use sovereignty_ai_gate.Authority.Authorized.{
  authorize_operation, store_memory_authorized, read_memory_authorized, create_export_authorized,
  load_import_authorized,
}
use sovereignty_ai_gate.Authority.Execution.{Messages, ToolCall, execute_tool_authorized}
use sovereignty_ai_gate.Authority.Providers.{AiProvider, call_provider_authorized}
use sovereignty_ai_gate.Authority.Invariant.{IsIntact, authorize_operation-keeps}
use sovereignty_ai_gate.Authority.Preservation.{
  initialize-keeps, register_boundary-keeps, issue_delegation-keeps, revoke_delegation-keeps,
  store_memory-keeps, read_memory-keeps, create_export-keeps, load_import-keeps,
  enforce_policy-keeps, store_memory_authorized-keeps, read_memory_authorized-keeps,
  create_export_authorized-keeps, load_import_authorized-keeps,
}
use sovereignty_ai_gate.Authority.Calls.{
  execute_tool_authorized-keeps, call_provider_authorized-keeps,
}

module _ (p : Platform) (say : Messages) where
  -- One call of an operation, at any time, whether it returns or raises.
  pub data Step (s : SovereignAuthority) : SovereignAuthority → Type 0 where
    initializes : (now : Moment) → Step s (initialize p now s).0
    registers :
        (now : Moment) (boundary_id model_id boundary_type : String) (scope : List String)
        → Step s (register_boundary p now boundary_id model_id boundary_type scope s).0
    delegates :
        (now : Moment) (token : DelegationToken) (parent_scope : Option (List String))
        → Step s (issue_delegation p now token parent_scope s).0
    revokes : (now : Moment) (token_id : String) → Step s (revoke_delegation p now token_id s).0
    stores : (now : Moment) (r : MemoryRecord) → Step s (store_memory p now r s).0
    stores_authorized :
        (clock : ℕ → Moment) (request : OperationRequest) (r : MemoryRecord)
        → Step s (store_memory_authorized p clock request r s).0
    reads_memory :
        (now : Moment) (record_id model_id : String)
        → Step s (read_memory p now record_id model_id s).0
    reads_authorized :
        (clock : ℕ → Moment) (request : OperationRequest) (record_id model_id : String)
        → Step s (read_memory_authorized p clock request record_id model_id s).0
    exports :
        (made now : Moment) (bundle_id : String) (payload : Fields) (hash signature : String)
        → Step s (create_export p made now bundle_id payload hash signature s).0
    exports_authorized :
        (clock : ℕ → Moment) (request : OperationRequest) (bundle_id : String) (payload : Fields)
        (hash signature : String)
        → Step s (create_export_authorized p clock request bundle_id payload hash signature s).0
    imports : (now : Moment) (bundle : ImportBundle) → Step s (load_import p now bundle s).0
    imports_authorized :
        (clock : ℕ → Moment) (request : OperationRequest) (bundle : ImportBundle)
        → Step s (load_import_authorized p clock request bundle s).0
    enforces : (request : Dict Value) → Step s (enforce_policy p request s).0
    authorizes :
        (now : Moment) (request : OperationRequest) → Step s (authorize_operation p now request s).0
    executes :
        (clock : ℕ → Moment) (request : OperationRequest)
        (executor : ToolExecutionContext → Result ToolExecutionResult) (call : ToolCall)
        → Step s (execute_tool_authorized p say clock request executor call s).0
    calls :
        (clock : ℕ → Moment) (request : OperationRequest) (provider : AiProvider)
        (record_ids : List String)
        → Step s (call_provider_authorized p say clock request provider record_ids s).0

  pub data Steps (s : SovereignAuthority) : SovereignAuthority → Type 0 where
    here : Steps s s
    next : {t u : SovereignAuthority} → Steps s t → Step t u → Steps s u

  Step-IsIntact : {s t : SovereignAuthority} → Step s t → IsIntact p s → IsIntact p t
  Step-IsIntact (initializes now) i = (initialize-keeps p now).kept _ i
  Step-IsIntact (registers now b m k sc) i = (register_boundary-keeps p now b m k sc).kept _ i
  Step-IsIntact (delegates now t ps) i = (issue_delegation-keeps p now t ps).kept _ i
  Step-IsIntact (revokes now t) i = (revoke_delegation-keeps p now t).kept _ i
  Step-IsIntact (stores now r) i = (store_memory-keeps p now r).kept _ i
  Step-IsIntact (stores_authorized clock q r) i =
      (store_memory_authorized-keeps p clock q r).kept _ i
  Step-IsIntact (reads_memory now r m) i = (read_memory-keeps p now r m).kept _ i
  Step-IsIntact (reads_authorized clock q r m) i =
      (read_memory_authorized-keeps p clock q r m).kept _ i
  Step-IsIntact (exports made now b l h g) i = (create_export-keeps p made now b l h g).kept _ i
  Step-IsIntact (exports_authorized clock q b l h g) i =
      (create_export_authorized-keeps p clock q b l h g).kept _ i
  Step-IsIntact (imports now b) i = (load_import-keeps p now b).kept _ i
  Step-IsIntact (imports_authorized clock q b) i =
      (load_import_authorized-keeps p clock q b).kept _ i
  Step-IsIntact (enforces q) i = (enforce_policy-keeps p q).kept _ i
  Step-IsIntact (authorizes now q) i = (authorize_operation-keeps p now q).kept _ i
  Step-IsIntact (executes clock q x c) i =
      (execute_tool_authorized-keeps p say clock q x c).kept _ i
  Step-IsIntact (calls clock q v ids) i =
      (call_provider_authorized-keeps p say clock q v ids).kept _ i

  Steps-IsIntact : {s t : SovereignAuthority} → Steps s t → IsIntact p s → IsIntact p t
  Steps-IsIntact here i = i
  Steps-IsIntact (next steps step) i = Step-IsIntact step (Steps-IsIntact steps i)

  pub new-IsIntact :
      (owner_id : String) (policy : AuthorityPolicy) (trust : RootOfTrust) (now : ℤ)
      (s : SovereignAuthority)
      → IsSigner trust.backend
      → new_authority p owner_id policy trust now ≡ ok s
      → IsIntact p s
  unfolding new_authority new_ledger create_adapter Audit.verify_chain Audit.verify_from
      Scar.verify_integrity Scar.verify_from verify_vault Vault.validate Vault.validate_from
  new-IsIntact owner_id policy trust now s signer made =
      let (evidence, opened, done) = >>=-eq-ok (new_ledger owner_id trust) _ made in
      let (named, empty) = raise_if-eq-ok (str_eq owner_id "") value_error _ opened in
      rw (← ok-injective done, ← ok-injective empty)
        (record {
          audit = refl;
          proof = refl;
          memory = refl;
          evidence_signer = signer;
          signer = signer;
        })

  -- In every state that a new authority comes to, by any calls of its operations whether they return or
  -- raise, the audit ledger, the signed evidence and the vault verify, if the device's signatures do.
  pub reachable_intact :
      (owner_id : String) (policy : AuthorityPolicy) (trust : RootOfTrust) (now : ℤ)
      (s t : SovereignAuthority)
      → IsSigner trust.backend
      → new_authority p owner_id policy trust now ≡ ok s
      → Steps s t
      → (verify_ledger p t ≡ ok tt) × (verify_authority_evidence p t ≡ true)
  unfolding verify_ledger verify_authority_evidence
  reachable_intact owner_id policy trust now s t signer made steps =
      let i = Steps-IsIntact steps (new-IsIntact owner_id policy trust now s signer made) in
      (i.audit, simp (i.proof, i.memory))
