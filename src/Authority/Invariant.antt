-- ===== src/Authority/Invariant.antt =====
-- The records of src/sia/authority.py stay intact.
use sovereignty_ai_gate.Prelude.{
  String, ◌≡◌, refl, true, Option, some, Result, ok, err, >>=-eq-ok, ok-injective, inl, inr,
}
use sovereignty_ai_gate.Prelude.{◌>>=◌ as bind}
use sovereignty_ai_gate.Prelude.Effects.{Keeps, >>=-keeps}
use sovereignty_ai_gate.Platform.{Platform, Moment}
use sovereignty_ai_gate.Trust
use sovereignty_ai_gate.Trust.{IsSigner, RootOfTrust, verify_signature}
use sovereignty_ai_gate.Audit.{AuditLedger, verify_chain}
use sovereignty_ai_gate.Audit.Integrity.{verify_chain-append}
use sovereignty_ai_gate.Scar.{ScarLedger, verify_integrity}
use sovereignty_ai_gate.Vault.{MemoryChain}
use sovereignty_ai_gate.Vault.Integrity.{validate-append}
use sovereignty_ai_gate.Memory.{MemoryRecord}
use sovereignty_ai_gate.Recorder.{AuditEvent, record_event}
use sovereignty_ai_gate.Operations.{OperationRequest}
use sovereignty_ai_gate.Gate
use sovereignty_ai_gate.Adapters.{IdentityAdapter, adapter_gate}
use sovereignty_ai_gate.Adapters.Authorization.{gate-Authorized}
use sovereignty_ai_gate.Adapters.Totality.{authorize-Outcome}
use sovereignty_ai_gate.Firewall.{record_memory, verify_vault}
use sovereignty_ai_gate.Authority.{SovereignAuthority, settle, attempt, require_initialized, log}
use sovereignty_ai_gate.Authority.Authorized.{
  with_evidence, ask_gate, authorize_operation, record_in_vault,
}

-- The audit ledger, the evidence and the vault verify, under a device whose signatures verify.
pub record Intact (p : Platform) (ledger : AuditLedger) (evidence : ScarLedger)
    (identity : IdentityAdapter) (vault : MemoryChain) : Type 0 where
  pub audit : verify_chain p ledger ≡ ok tt
  pub proof : verify_integrity p evidence ≡ true
  pub memory : verify_vault p identity.root_of_trust vault ≡ true
  pub evidence_signer : IsSigner evidence.root_of_trust.backend
  pub signer : IsSigner identity.root_of_trust.backend

module _ (p : Platform) where
  abbrev pub IsIntact : SovereignAuthority → Type 0
  IsIntact s = Intact p s.ledger s.evidence s.identity s.vault

  pub log-keeps : (now : Moment) (e : AuditEvent) → Keeps IsIntact (log p now e)
  unfolding log record_event
  log-keeps now e = record {
    kept = λ s i. record {
      audit =
          (verify_chain-append p s.ledger e.event_type e.payload e.actor_id e.timestamp now.text
            i.audit).0;
      proof = i.proof;
      memory = i.memory;
      evidence_signer = i.evidence_signer;
      signer = i.signer;
    };
  }

  pub require_initialized-keeps : Keeps IsIntact require_initialized
  unfolding require_initialized
  require_initialized-keeps = record { kept = λ s i. i }

  settle-keeps :
      (s : SovereignAuthority) (m : Result SovereignAuthority)
      → IsIntact s
      → ((t : SovereignAuthority) → m ≡ ok t → IsIntact t)
      → IsIntact (settle s m).0
  unfolding settle
  settle-keeps s (err e) i kept = i
  settle-keeps s (ok t) i kept = kept t refl

  -- A change that may be refused.
  pub attempt-keeps :
      {X : Type 0} (f : SovereignAuthority → Result X)
      (put : SovereignAuthority → X → SovereignAuthority)
      → ((s : SovereignAuthority) (x : X) → f s ≡ ok x → IsIntact s → IsIntact (put s x))
      → Keeps IsIntact (attempt (λ s. bind (f s) (λ x. ok (put s x))))
  unfolding attempt
  attempt-keeps f put frame = record {
    kept = λ s i. settle-keeps s (bind (f s) (λ x. ok (put s x))) i (λ t h.
        let (x, got, done) = >>=-eq-ok (f s) (λ x. ok (put s x)) h in
        let e : put s x ≡ t = ok-injective done in rw (← e) (frame s x got i));
  }

  -- The gate's outcome.
  authorized-keeps :
      (now : Moment) (request : OperationRequest) (s : SovereignAuthority)
      → IsIntact s
      → IsIntact
          (with_evidence p s
            (Gate.authorize (adapter_gate p now s.identity s.policy) request s.evidence)).0
  unfolding with_evidence
  authorized-keeps now request s i =
      elim (authorize-Outcome p now s.identity s.policy request s.evidence).0 [
        | inl (after, d, returned) ↦
            let t =
              gate-Authorized p now s.identity s.policy request s.evidence after d i.evidence_signer
                i.proof returned in
            rw returned (record {
              audit = i.audit;
              proof = t.valid;
              memory = i.memory;
              evidence_signer = rw t.appends.same_root i.evidence_signer;
              signer = i.signer;
            })
        | inr (e, known, outcome) ↦ rw outcome i
      ]

  ask_gate-keeps :
      (now : Moment) (request : OperationRequest) → Keeps IsIntact (ask_gate p now request)
  unfolding ask_gate
  ask_gate-keeps now request = record { kept = λ s i. authorized-keeps now request s i }

  pub authorize_operation-keeps :
      (now : Moment) (request : OperationRequest)
      → Keeps IsIntact (authorize_operation p now request)
  unfolding authorize_operation
  authorize_operation-keeps now request =
      >>=-keeps IsIntact require_initialized-keeps (λ _. ask_gate-keeps now request)

  pub record_in_vault-keeps :
      (now : Moment) (r : MemoryRecord) (capability_id : Option String)
      → Keeps IsIntact (record_in_vault p now r capability_id)
  unfolding record_in_vault record_memory verify_vault Trust.sign verify_signature
  record_in_vault-keeps now r capability_id =
      attempt-keeps
        (λ s. record_memory p s.owner_id s.identity.root_of_trust s.vault r capability_id now)
        (λ s vault. record s { vault = vault })
        (λ s chain got i. record {
          audit = i.audit;
          proof = i.proof;
          memory =
              (validate-append p (some (verify_signature s.identity.root_of_trust)) s.vault _
                now.seconds now.uuid chain (λ payload. i.signer.accepts payload) got i.memory).0;
          evidence_signer = i.evidence_signer;
          signer = i.signer;
        })
