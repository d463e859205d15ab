-- ===== src/Adapters/Totality.antt =====
-- When the gate of src/sia/authority_gate.py, with the adapters of src/sia/authority_adapters.py, raises.
use sovereignty_ai_gate.Prelude.{
  String, ◌≡◌, ◌⊎◌, ◌↔◌, inl, inr, refl, ap, Bool, true, false, Error, Result, ok, err, none,
  Bool-cases,
}
use sovereignty_ai_gate.Prelude.Effects.{◌>>=◌, lift}
use sovereignty_ai_gate.Platform.{Platform, Moment}
use sovereignty_ai_gate.Scar.{ScarLedger, append_event, actor_of, lacks_provenance}
use sovereignty_ai_gate.Operations.{
  OperationRequest, operation_name, AuthorizationDecision, CapabilityVerification, PolicyEvaluation,
}
use sovereignty_ai_gate.Verifier.{verify_capability}
use sovereignty_ai_gate.Gate.{
  decision_of, record_in, after_policy, after_capability, after_identity, authorize,
}
use sovereignty_ai_gate.Adapters.{
  IdentityAdapter, PolicyAdapter, verify_identity, evaluate, decision_event, appended,
  record_decision, adapter_gate,
}

module _ (p : Platform) (now : Moment) (identity : IdentityAdapter) (policy : PolicyAdapter) where
  abbrev Returns :
      OperationRequest → ScarLedger → ScarLedger × Result AuthorizationDecision → Type 0
  Returns request ledger outcome =
      (after : ScarLedger) × (d : AuthorizationDecision) × (outcome ≡ (after, ok d))

  record_in-Returns :
      (request : OperationRequest) (d : AuthorizationDecision) (ledger : ScarLedger)
      → Returns request ledger (record_in (adapter_gate p now identity policy) request d ledger)
  unfolding record_in adapter_gate record_decision appended append_event decision_event actor_of
      lacks_provenance
  record_in-Returns request d ledger = (_, _, refl)

  after_policy-Returns :
      (request : OperationRequest) (hash : String) (c : CapabilityVerification)
      (e : PolicyEvaluation) (ledger : ScarLedger)
      → Returns request ledger
          (after_policy (adapter_gate p now identity policy) request hash c e ledger)
  unfolding after_policy
  after_policy-Returns request hash c e ledger = elim (Bool-cases e.allowed) [
    | inl allowed ↦ rw allowed (
        record_in-Returns request
          (decision_of true (operation_name request) "AUTHORIZED" e.reason c.capability_id hash)
          ledger)
    | inr refused ↦ rw refused (
        record_in-Returns request
          (decision_of false (operation_name request) "POLICY_DENIED" e.reason c.capability_id hash)
          ledger)
  ]

  after_capability-Returns :
      (request : OperationRequest) (hash : String) (c : CapabilityVerification)
      (ledger : ScarLedger)
      → Returns request ledger
          (after_capability (adapter_gate p now identity policy) request hash c ledger)
  unfolding after_capability adapter_gate
  after_capability-Returns request hash c ledger = elim (Bool-cases c.allowed) [
    | inl allowed ↦
        rw allowed (after_policy-Returns request hash c (evaluate policy request c) ledger)
    | inr refused ↦ rw refused (
        record_in-Returns request
          (decision_of false (operation_name request) c.reason_code c.reason c.capability_id hash)
          ledger)
  ]

  -- A verified identity presents a capability whose verification raises.
  abbrev pub Raises : OperationRequest → Error → Type 0
  Raises request e =
      ((verify_identity identity request.identity).0 ≡ true)
      × (verify_capability p now request ≡ err e)

  -- An outcome of `authorize`: a decision, or what the capability's verifier raised; and it is an
  -- exception exactly when that raised it.
  abbrev pub Outcome :
      OperationRequest → ScarLedger → ScarLedger × Result AuthorizationDecision → Type 0
  Outcome request ledger outcome =
      (Returns request ledger outcome
        ⊎ ((e : Error) × Raises request e × (outcome ≡ (ledger, err e))))
      × ((e : Error) → (outcome.1 ≡ err e) ↔ Raises request e)

  known-Outcome :
      (request : OperationRequest) (hash : String) (ledger : ScarLedger)
      (m : Result CapabilityVerification)
      → (verify_identity identity request.identity).0 ≡ true
      → verify_capability p now request ≡ m
      → Outcome request ledger
          ((lift m >>= after_capability (adapter_gate p now identity policy) request hash) ledger)
  known-Outcome request hash ledger (err e) known raised =
      (inr (e, (known, raised), refl), λ e'. (λ h. (known, cc (raised, h)), λ h. cc (raised, h.1)))
  known-Outcome request hash ledger (ok c) known capable =
      let returns = after_capability-Returns request hash c ledger in
      (inl returns, λ e. (λ h. cc (ap (λ x. x.1) returns.2, h), λ h. cc (capable, h.1)))

  answered-Outcome :
      (request : OperationRequest) (ledger : ScarLedger) (known : Bool) (code reason : String)
      → (verify_identity identity request.identity).0 ≡ known
      → Outcome request ledger (
          after_identity
            (adapter_gate p now identity policy)
            request
            policy.policy_hash
            (known, code, reason)
            ledger)
  unfolding after_identity adapter_gate
  answered-Outcome request ledger true code reason known =
      known-Outcome request policy.policy_hash ledger (verify_capability p now request) known refl
  answered-Outcome request ledger false code reason stranger =
      let returns =
        record_in-Returns request
          (decision_of false (operation_name request) code reason none policy.policy_hash) ledger in
      (inl returns, λ e. (λ h. cc (ap (λ x. x.1) returns.2, h), λ h. cc (stranger, h.0)))

  -- The gate raises an exception exactly when a verified identity presents a capability whose
  -- verification raises that exception, and then no evidence is added. In every other case it
  -- returns a decision.
  pub authorize-Outcome :
      (request : OperationRequest) (ledger : ScarLedger)
      → Outcome request ledger (authorize (adapter_gate p now identity policy) request ledger)
  unfolding authorize adapter_gate
  authorize-Outcome request ledger =
      let answer = verify_identity identity request.identity in
      answered-Outcome request ledger answer.0 answer.1 answer.2 refl
