-- ===== src/Authority/Preservation.antt =====
-- Each operation of src/sia/authority.py on boundaries, delegations, memory, exports and imports keeps
-- the records intact.
use sovereignty_ai_gate.Prelude.{ℕ, String, List, Option, Dict, true, insert, if◌then◌else◌}
use sovereignty_ai_gate.Prelude.Effects.{
  Effect, ◌>>=◌, Keeps, >>=-keeps, lift-keeps, reads-keeps, return-keeps, if-keeps, reads,
  modify-keeps,
}
use sovereignty_ai_gate.Platform.{Platform, Moment}
use sovereignty_ai_gate.Utils.Json.{Value, Fields}
use sovereignty_ai_gate.Boundary
use sovereignty_ai_gate.Policy
use sovereignty_ai_gate.Delegation
use sovereignty_ai_gate.Delegation.{DelegationToken}
use sovereignty_ai_gate.Memory.{MemoryRecord, assert_read_access}
use sovereignty_ai_gate.Bundles.{ImportBundle, load, validate_bundle}
use sovereignty_ai_gate.Recorder.{
  AuditEvent, authority_init, boundary_registered, export_created, delegation_issued,
  delegation_revoked, memory_access, import_loaded,
}
use sovereignty_ai_gate.Operations.{OperationRequest, AuthorizationDecision}
use sovereignty_ai_gate.Authority.{
  SovereignAuthority, Act, export_bundle, require_initialized, log, initialize, register_boundary,
  issue_delegation, revoke_delegation, store_memory, find_record, access_record, read_memory,
  create_export, load_import, enforce_policy,
}
use sovereignty_ai_gate.Authority.Authorized.{
  authorize_operation, store_memory_authorized, read_memory_authorized, create_export_authorized,
  load_import_authorized,
}
use sovereignty_ai_gate.Authority.Invariant.{
  IsIntact, log-keeps, require_initialized-keeps, attempt-keeps, authorize_operation-keeps,
  record_in_vault-keeps,
}

module _ (p : Platform) where
  abbrev keep {ℓ κ} :
      {A : Type ℓ} {B : Type κ} {m : Effect SovereignAuthority A}
      {next : A → Effect SovereignAuthority B}
      → Keeps (IsIntact p) m
      → ((a : A) → Keeps (IsIntact p) (next a))
      → Keeps (IsIntact p) (m >>= next)
  keep = >>=-keeps (IsIntact p)

  -- After the check that comes first.
  guarded :
      {A : Type 0} {m : Act A}
      → Keeps (IsIntact p) m
      → Keeps (IsIntact p) (require_initialized >>= λ _. m)
  guarded kept = keep (require_initialized-keeps p) (λ _. kept)

  -- An event at the end, in the name of the owner.
  owned_log :
      (now : Moment) (e : String → AuditEvent)
      → Keeps (IsIntact p) (reads (λ s. s.owner_id) >>= λ owner_id. log p now (e owner_id))
  owned_log now e = keep (reads-keeps (IsIntact p) _) (λ owner_id. log-keeps p now (e owner_id))

  pub initialize-keeps : (now : Moment) → Keeps (IsIntact p) (initialize p now)
  unfolding initialize
  initialize-keeps now =
      keep (modify-keeps (IsIntact p) (λ s. record s { initialized = true }) (λ s i. i))
        (λ _. owned_log now (λ o. authority_init o "0.1.0"))

  pub register_boundary-keeps :
      (now : Moment) (boundary_id model_id boundary_type : String) (scope : List String)
      → Keeps (IsIntact p) (register_boundary p now boundary_id model_id boundary_type scope)
  unfolding register_boundary
  register_boundary-keeps now boundary_id model_id boundary_type scope = guarded (
      keep (reads-keeps (IsIntact p) (λ s. s.owner_id)) (λ owner_id.
        keep
          (attempt-keeps p
            (λ s. Boundary.register s.registry boundary_id model_id boundary_type owner_id scope)
            (λ s registry. record s { registry = registry }) (λ s x got i. i))
          (λ _. log-keeps p now (boundary_registered owner_id boundary_id boundary_type model_id))))

  pub issue_delegation-keeps :
      (now : Moment) (token : DelegationToken) (parent_scope : Option (List String))
      → Keeps (IsIntact p) (issue_delegation p now token parent_scope)
  unfolding issue_delegation
  issue_delegation-keeps now token parent_scope = guarded (
      keep
        (attempt-keeps p (λ s. Delegation.issue s.delegations token parent_scope)
          (λ s x. record s { delegations = x.0 }) (λ s x got i. i))
        (λ _. owned_log now (λ o. delegation_issued o token.token_id token.grantee_id token.scope)))

  pub revoke_delegation-keeps :
      (now : Moment) (token_id : String) → Keeps (IsIntact p) (revoke_delegation p now token_id)
  unfolding revoke_delegation
  revoke_delegation-keeps now token_id = guarded (
      keep
        (attempt-keeps p (λ s. Delegation.revoke s.delegations token_id)
          (λ s x. record s { delegations = x }) (λ s x got i. i))
        (λ _. owned_log now (λ o. delegation_revoked o token_id)))

  pub store_memory-keeps :
      (now : Moment) (r : MemoryRecord) → Keeps (IsIntact p) (store_memory p now r)
  unfolding store_memory
  store_memory-keeps now r = guarded (
      keep (lift-keeps (IsIntact p) _) (λ _.
        keep
          (modify-keeps (IsIntact p) (λ s. record s { memory = insert r.record_id r s.memory })
            (λ s i. i))
          (λ _. owned_log now (λ o. memory_access o r.record_id r.model_id "write"))))

  find_record-keeps : (record_id : String) → Keeps (IsIntact p) (find_record p record_id)
  unfolding find_record
  find_record-keeps record_id = record { kept = λ s i. i }

  pub read_memory-keeps :
      (now : Moment) (record_id requesting_model_id : String)
      → Keeps (IsIntact p) (read_memory p now record_id requesting_model_id)
  unfolding read_memory access_record
  read_memory-keeps now record_id requesting_model_id = guarded (
      keep (find_record-keeps record_id) (λ r.
        keep (lift-keeps (IsIntact p) (assert_read_access r requesting_model_id)) (λ _.
          keep (log-keeps p now (memory_access requesting_model_id record_id r.model_id "read"))
            (λ _. return-keeps (IsIntact p) r))))

  pub create_export-keeps :
      (made now : Moment) (bundle_id : String) (payload : Fields) (payload_hash signature : String)
      → Keeps (IsIntact p) (create_export p made now bundle_id payload payload_hash signature)
  unfolding create_export
  create_export-keeps made now bundle_id payload payload_hash signature = guarded (
      keep (reads-keeps (IsIntact p) (λ s. s.owner_id)) (λ owner_id.
        let bundle = export_bundle owner_id bundle_id payload payload_hash signature made.text in
        keep (lift-keeps (IsIntact p) (validate_bundle p bundle)) (λ _.
          keep (log-keeps p now (export_created owner_id bundle_id))
            (λ _. return-keeps (IsIntact p) bundle))))

  pub load_import-keeps :
      (now : Moment) (bundle : ImportBundle) → Keeps (IsIntact p) (load_import p now bundle)
  unfolding load_import
  load_import-keeps now bundle = guarded (
      keep
        (attempt-keeps p (λ s. load s.loader bundle) (λ s x. record s { loader = x })
          (λ s x got i. i))
        (λ _. owned_log now (λ o. import_loaded o bundle.bundle_id)))

  pub enforce_policy-keeps : (request : Dict Value) → Keeps (IsIntact p) (enforce_policy p request)
  unfolding enforce_policy
  enforce_policy-keeps request = guarded (
      keep (reads-keeps (IsIntact p) (λ s. s.policy.policy))
        (λ policy. lift-keeps (IsIntact p) (Policy.enforce policy request)))

  -- A decision, and what is done if it allows.
  pub decided-keeps :
      {A : Type 0} (now : Moment) (request : OperationRequest)
      {granted refused : AuthorizationDecision → Act A}
      → ((d : AuthorizationDecision) → Keeps (IsIntact p) (granted d))
      → ((d : AuthorizationDecision) → Keeps (IsIntact p) (refused d))
      → Keeps (IsIntact p) (
          require_initialized >>= λ _.
          (authorize_operation p now request >>= λ d. if d.allowed then granted d else refused d))
  decided-keeps now request kept other = guarded (
      keep (authorize_operation-keeps p now request)
        (λ d. if-keeps (IsIntact p) d.allowed (kept d) (other d)))

  pub store_memory_authorized-keeps :
      (clock : ℕ → Moment) (request : OperationRequest) (r : MemoryRecord)
      → Keeps (IsIntact p) (store_memory_authorized p clock request r)
  unfolding store_memory_authorized
  store_memory_authorized-keeps clock request r =
      decided-keeps (clock 0) request
        (λ d. keep (store_memory-keeps (clock 1) r) (λ _.
          keep (record_in_vault-keeps p (clock 2) r d.capability_id)
            (λ _. return-keeps (IsIntact p) d)))
        (λ d. return-keeps (IsIntact p) d)

  pub read_memory_authorized-keeps :
      (clock : ℕ → Moment) (request : OperationRequest) (record_id requesting_model_id : String)
      → Keeps (IsIntact p) (read_memory_authorized p clock request record_id requesting_model_id)
  unfolding read_memory_authorized
  read_memory_authorized-keeps clock request record_id requesting_model_id =
      decided-keeps (clock 0) request
        (λ d.
          keep (read_memory-keeps (clock 1) record_id requesting_model_id)
            (λ r. return-keeps (IsIntact p) _))
        (λ d. return-keeps (IsIntact p) _)

  pub create_export_authorized-keeps :
      (clock : ℕ → Moment) (request : OperationRequest) (bundle_id : String) (payload : Fields)
      (payload_hash signature : String)
      → Keeps
          (IsIntact p)
          (create_export_authorized p clock request bundle_id payload payload_hash signature)
  unfolding create_export_authorized
  create_export_authorized-keeps clock request bundle_id payload payload_hash signature =
      decided-keeps (clock 0) request
        (λ d.
          keep (create_export-keeps (clock 1) (clock 2) bundle_id payload payload_hash signature)
            (λ b. return-keeps (IsIntact p) _))
        (λ d. return-keeps (IsIntact p) _)

  pub load_import_authorized-keeps :
      (clock : ℕ → Moment) (request : OperationRequest) (bundle : ImportBundle)
      → Keeps (IsIntact p) (load_import_authorized p clock request bundle)
  unfolding load_import_authorized
  load_import_authorized-keeps clock request bundle =
      decided-keeps (clock 0) request
        (λ d. keep (load_import-keeps (clock 1) bundle) (λ _. return-keeps (IsIntact p) d))
        (λ d. return-keeps (IsIntact p) d)
