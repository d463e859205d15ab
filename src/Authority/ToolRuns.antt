-- ===== src/Authority/ToolRuns.antt =====
-- The outcomes of `execute_tool_authorized` of src/sia/authority.py.
use sovereignty_ai_gate.Prelude.{
  ℕ, ◌≡◌, inl, inr, refl, ap, ◌∙◌, true, false, not, none, some, Result, Bool-cases, raise_if,
  not_initialized, if-true, if-false,
}
use sovereignty_ai_gate.Prelude.Effects.{◌>>=◌, ◌>>◌, continue, return}
use sovereignty_ai_gate.Platform.{Platform, Moment}
use sovereignty_ai_gate.Scar.{ScarLedger}
use sovereignty_ai_gate.Recorder.{tool_operation, untimed}
use sovereignty_ai_gate.Tools.{ToolExecutionContext, ToolExecutionResult, issue_context, construct}
use sovereignty_ai_gate.Operations.{OperationRequest, AuthorizationDecision}
use sovereignty_ai_gate.Gate
use sovereignty_ai_gate.Adapters.{adapter_gate}
use sovereignty_ai_gate.Adapters.Authorization.{Authorized, gate-Authorized, Justified}
use sovereignty_ai_gate.Adapters.Totality.{authorize-Outcome}
use sovereignty_ai_gate.Authority.{SovereignAuthority, Act, log, require_initialized}
use sovereignty_ai_gate.Authority.Authorized.{with_evidence, ask_gate, authorize_operation}
use sovereignty_ai_gate.Authority.Execution.{
  Messages, ToolCall, id_of, is_mismatch, log_tool, run_authorized, after_decision,
  execute_tool_authorized,
}
use sovereignty_ai_gate.Authority.Invariant.{IsIntact}
use sovereignty_ai_gate.Authority.Evidence.{
  one-event, adapt-is_mismatch, issued, ToolOutcome, run-ToolOutcome,
}

module _ {A : Type 0} where
  -- The check that comes first passes.
  pub guarded_ready :
      (m : Act A) (s : SovereignAuthority)
      → s.initialized ≡ true
      → (require_initialized >>= λ _. m) s ≡ m s
  unfolding require_initialized
  guarded_ready m s ready = ap (λ b. continue (λ _. m) (s, raise_if (not b) not_initialized)) ready

module _ (p : Platform) (say : Messages) (clock : ℕ → Moment) (request : OperationRequest)
    (executor : ToolExecutionContext → Result ToolExecutionResult) (call : ToolCall) where
  -- The id that an allowed decision names is the one that the request presents.
  matching :
      (s : SovereignAuthority) (d : AuthorizationDecision)
      → Justified p (clock 1) s.identity s.policy request d.capability_id
      → is_mismatch (id_of request.capability) d.capability_id ≡ false
  matching s d j =
      rw (j.permits.presented, j.named)
        (adapt-is_mismatch j.permits.capability j.permits.adapted j.permits.known)

  after_denied :
      (d : AuthorizationDecision)
      → d.allowed ≡ false
      → after_decision p say clock request executor call d ≡ (
          log_tool p say clock request executor call
            (clock 2)
            "tool.operation.denied"
            d
            "denied"
            "denied"
            (some d.reason)
            (clock 0).text
          >> return (d, none))
  unfolding after_decision
  after_denied d refused = if-true (not d.allowed) _ _ (ap not refused)

  after_allowed :
      (d : AuthorizationDecision)
      → d.allowed ≡ true
      → is_mismatch (id_of request.capability) d.capability_id ≡ false
      → after_decision p say clock request executor call d
        ≡ run_authorized p say clock request executor call d
  unfolding after_decision
  after_allowed d granted same =
      if-false (not d.allowed) _ _ (ap not granted)
      ∙ if-false (is_mismatch (id_of request.capability) d.capability_id) _ _ same

  denied-ToolOutcome :
      (s : SovereignAuthority) (evidence : ScarLedger) (d : AuthorizationDecision)
      → Authorized p (clock 1) s.identity s.policy request s.evidence evidence d
      → d.allowed ≡ false
      → ToolOutcome p say clock request executor call s
          (after_decision p say clock request executor call d (record s { evidence = evidence }))
  unfolding log_tool log tool_operation untimed
  denied-ToolOutcome s evidence d a refused = rw (after_denied d refused) (
      inr (
        inl (record {
          decision = d;
          refused = refused;
          returned = refl;
          traced = one-event p s.ledger _ _;
          evidence = a;
        })))

  allowed-ToolOutcome :
      (s : SovereignAuthority) (evidence : ScarLedger) (d : AuthorizationDecision)
      → Authorized p (clock 1) s.identity s.policy request s.evidence evidence d
      → d.allowed ≡ true
      → is_mismatch (id_of request.capability) d.capability_id ≡ false
      → ToolOutcome p say clock request executor call s
          (after_decision p say clock request executor call d (record s { evidence = evidence }))
  unfolding run_authorized issue_context construct
  allowed-ToolOutcome s evidence d a granted same = rw (after_allowed d granted same) (
      run-ToolOutcome p say clock request executor call s evidence d
        (executor (issued p say clock request executor call d)) a granted refl)

  decided-ToolOutcome :
      (s : SovereignAuthority) (evidence : ScarLedger) (d : AuthorizationDecision)
      → Authorized p (clock 1) s.identity s.policy request s.evidence evidence d
      → ToolOutcome p say clock request executor call s
          (after_decision p say clock request executor call d (record s { evidence = evidence }))
  decided-ToolOutcome s evidence d a = elim (Bool-cases d.allowed) [
    | inr refused ↦ denied-ToolOutcome s evidence d a refused
    | inl granted ↦ elim a.justified [
      | inl refused ↦ denied-ToolOutcome s evidence d a refused
      | inr j ↦ allowed-ToolOutcome s evidence d a granted (matching s d j)
    ]
  ]

  -- The decision, and what follows.
  called :
      (s : SovereignAuthority)
      → s.initialized ≡ true
      → execute_tool_authorized p say clock request executor call s
        ≡ continue (after_decision p say clock request executor call) (
            with_evidence p s
              (Gate.authorize (adapter_gate p (clock 1) s.identity s.policy) request s.evidence))
  unfolding execute_tool_authorized authorize_operation ask_gate
  called s ready =
      guarded_ready
        (authorize_operation p (clock 1) request
          >>= after_decision p say clock request executor call)
        s ready
      ∙ ap (continue (after_decision p say clock request executor call))
          (guarded_ready (ask_gate p (clock 1) request) s ready)

  -- In an initialized authority whose records are intact, a tool call has one of four outcomes. A
  -- verified identity presents a capability whose verification raises: the call raises the same, and
  -- nothing changes. The gate refuses: the refusal is
  -- returned with no result, under one `denied` entry of the audit ledger. Or the gate allows, the
  -- executor is given the context issued for this decision, and its exception is raised, or its
  -- result returned with the decision, under a `started` entry and then a `failed` or `completed`
  -- one. In the last three cases the decision is recorded in signed evidence that verifies, and
  -- rests on the owner, the capability and the policy if it allows.
  pub execute_tool_authorized-ToolOutcome :
      (s : SovereignAuthority)
      → s.initialized ≡ true
      → IsIntact p s
      → ToolOutcome p say clock request executor call s
          (execute_tool_authorized p say clock request executor call s)
  unfolding with_evidence
  execute_tool_authorized-ToolOutcome s ready i =
      elim (authorize-Outcome p (clock 1) s.identity s.policy request s.evidence).0 [
        | inl (evidence, d, returned) ↦
            rw (called s ready, returned)
              (decided-ToolOutcome s evidence d (
                gate-Authorized p (clock 1) s.identity s.policy request s.evidence evidence d
                  i.evidence_signer i.proof returned))
        | inr (e, (known, raised), outcome) ↦
            rw (called s ready, outcome)
              (inl (record { error = e; known = known; raised = raised; outcome = refl }))
      ]
