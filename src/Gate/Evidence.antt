-- ===== src/Gate/Evidence.antt =====
-- What each call of the gate of src/sia/authority_gate.py decides and records.
use sovereignty_ai_gate.Prelude.{
  ℕ, String, ◌≡◌, ◌↔◌, inl, inr, sym, ap, ◌∙◌, Bool, true, false, Option, none, ok, ok-injective,
  Bool-cases,
}
use sovereignty_ai_gate.Prelude.Effects.{◌>>=◌, >>=-returned, continue, return}
use sovereignty_ai_gate.Operations.{
  OperationRequest, operation_name, PolicyEvaluation, CapabilityVerification, AuthorizationDecision,
}
use sovereignty_ai_gate.Gate.{
  AuthorityGate, decision_of, record_in, after_policy, after_capability, after_identity, authorize,
}

-- A decision with these fields, to be recorded.
abbrev pub unrecorded :
    Bool → String → String → String → Option String → String → AuthorizationDecision
unrecorded allowed operation reason_code reason capability_id policy_hash = record {
  allowed = allowed;
  operation = operation;
  reason_code = reason_code;
  reason = reason;
  capability_id = capability_id;
  policy_hash = policy_hash;
  audit_required = true;
  evidence_sequence = none;
}

module _ {S : Type 0} (g : AuthorityGate S) (request : OperationRequest) where
  -- The decision on a request in a state, and the state in which it is to be recorded: the one after
  -- the calls up to the first refusal.
  pub data Settled (s : S) : S → AuthorizationDecision → Type 0 where
    stranger :
        {s1 : S} (code reason : String)
        → g.verify_identity request.identity s ≡ (s1, ok (false, code, reason))
        → Settled s s1
            (unrecorded false (operation_name request) code reason none (g.policy_hash s))
    incapable :
        {s1 s2 : S} (code reason : String) (c : CapabilityVerification)
        → g.verify_identity request.identity s ≡ (s1, ok (true, code, reason))
        → g.verify_capability request s1 ≡ (s2, ok c)
        → c.allowed ≡ false
        → Settled s s2 (
            unrecorded false
              (operation_name request)
              c.reason_code
              c.reason
              c.capability_id
              (g.policy_hash s))
    denied :
        {s1 s2 s3 : S} (code reason : String) (c : CapabilityVerification) (e : PolicyEvaluation)
        → g.verify_identity request.identity s ≡ (s1, ok (true, code, reason))
        → g.verify_capability request s1 ≡ (s2, ok c)
        → c.allowed ≡ true
        → g.evaluate request c s2 ≡ (s3, ok e)
        → e.allowed ≡ false
        → Settled s s3 (
            unrecorded false
              (operation_name request)
              "POLICY_DENIED"
              e.reason
              c.capability_id
              (g.policy_hash s))
    permitted :
        {s1 s2 s3 : S} (code reason : String) (c : CapabilityVerification) (e : PolicyEvaluation)
        → g.verify_identity request.identity s ≡ (s1, ok (true, code, reason))
        → g.verify_capability request s1 ≡ (s2, ok c)
        → c.allowed ≡ true
        → g.evaluate request c s2 ≡ (s3, ok e)
        → e.allowed ≡ true
        → Settled s s3 (
            unrecorded true
              (operation_name request)
              "AUTHORIZED"
              e.reason
              c.capability_id
              (g.policy_hash s))

  -- A settled decision, one call that records it, and the number that this gives.
  pub record Recorded (s u : S) (d : AuthorizationDecision) : Type 0 where
    pub at : S
    pub decision : AuthorizationDecision
    pub settled : Settled s at decision
    pub sequence : Option ℕ
    pub once : g.record_decision request decision at ≡ (u, ok sequence)
    pub numbered : d ≡ record decision { evidence_sequence = sequence }

  made-Recorded :
      (s at u : S) (decision d : AuthorizationDecision)
      → Settled s at decision
      → record_in g request decision at ≡ (u, ok d)
      → Recorded s u d
  unfolding record_in
  made-Recorded s at u decision d settled h =
      let (t, sequence, recorded, rest) =
        >>=-returned (g.record_decision request decision)
          (λ n. return (record decision { evidence_sequence = n })) at h in
      record {
        at = at;
        decision = decision;
        settled = settled;
        sequence = sequence;
        once = recorded ∙ ap (λ x. (x.0, ok sequence)) rest;
        numbered = sym (ok-injective (ap (λ x. x.1) rest));
      }

  pub Recorded-record_in :
      (s u : S) (d : AuthorizationDecision) (r : Recorded s u d)
      → record_in g request r.decision r.at ≡ (u, ok d)
  unfolding record_in
  Recorded-record_in s u d r =
      ap (continue (λ n. return (record r.decision { evidence_sequence = n }))) r.once
      ∙ ap (λ x. (u, ok x)) (sym r.numbered)

  after_policy-Recorded :
      (s s1 s2 : S) {u : S} {d : AuthorizationDecision} (code reason : String)
      (c : CapabilityVerification)
      → g.verify_identity request.identity s ≡ (s1, ok (true, code, reason))
      → g.verify_capability request s1 ≡ (s2, ok c)
      → c.allowed ≡ true
      → (g.evaluate request c >>= after_policy g request (g.policy_hash s) c) s2 ≡ (u, ok d)
      → Recorded s u d
  unfolding after_policy decision_of
  after_policy-Recorded s s1 s2 code reason c known capable granted h =
      let (s3, e, evaluated, rest) =
        >>=-returned (g.evaluate request c) (after_policy g request (g.policy_hash s) c) s2 h in
      elim (Bool-cases e.allowed) [
        | inl yes_e ↦
            made-Recorded s s3 _ _ _
              (permitted code reason c e known capable granted evaluated yes_e) (rw yes_e at rest)
        | inr no_e ↦
            made-Recorded s s3 _ _ _ (denied code reason c e known capable granted evaluated no_e)
              (rw no_e at rest)
      ]

  after_capability-Recorded :
      (s s1 : S) {u : S} {d : AuthorizationDecision} (code reason : String)
      → g.verify_identity request.identity s ≡ (s1, ok (true, code, reason))
      → (g.verify_capability request >>= after_capability g request (g.policy_hash s)) s1
        ≡ (u, ok d)
      → Recorded s u d
  unfolding after_capability decision_of
  after_capability-Recorded s s1 code reason known h =
      let (s2, c, capable, rest) =
        >>=-returned (g.verify_capability request) (after_capability g request (g.policy_hash s)) s1
          h in
      elim (Bool-cases c.allowed) [
        | inl yes_c ↦
            after_policy-Recorded s s1 s2 code reason c known capable yes_c (rw yes_c at rest)
        | inr no_c ↦
            made-Recorded s s2 _ _ _ (incapable code reason c known capable no_c) (rw no_c at rest)
      ]

  after_identity-Recorded :
      (s s1 : S) {u : S} {d : AuthorizationDecision} (known : Bool) (code reason : String)
      → g.verify_identity request.identity s ≡ (s1, ok (known, code, reason))
      → after_identity g request (g.policy_hash s) (known, code, reason) s1 ≡ (u, ok d)
      → Recorded s u d
  unfolding after_identity decision_of
  after_identity-Recorded s s1 true code reason asked h =
      after_capability-Recorded s s1 code reason asked h
  after_identity-Recorded s s1 false code reason asked h =
      made-Recorded s s1 _ _ _ (stranger code reason asked) (h)

  returned-Recorded :
      (s u : S) (d : AuthorizationDecision) → authorize g request s ≡ (u, ok d) → Recorded s u d
  unfolding authorize
  returned-Recorded s u d h =
      let (s1, answer, asked, rest) =
        >>=-returned (g.verify_identity request.identity)
          (after_identity g request (g.policy_hash s)) s h in
      after_identity-Recorded s s1 answer.0 answer.1 answer.2 asked rest

  Settled-authorize :
      (s t : S) (d : AuthorizationDecision)
      → Settled s t d
      → authorize g request s ≡ record_in g request d t
  unfolding authorize after_identity after_capability after_policy decision_of
  Settled-authorize s _ _ (stranger code reason asked) = simp (asked)
  Settled-authorize s _ _ (incapable code reason c asked capable refused) =
      simp (asked, capable, refused)
  Settled-authorize s _ _ (denied code reason c e asked capable granted evaluated refused) =
      simp (asked, capable, granted, evaluated, refused)
  Settled-authorize s _ _ (permitted code reason c e asked capable granted evaluated allowed) =
      simp (asked, capable, granted, evaluated, allowed)

  -- `authorize` returns a decision in a state exactly when it is settled as follows and its record,
  -- which is the last call, returns: a stranger is refused with the verifier's code before the
  -- capability is looked at, a refused capability before the policy is asked, a refusal of the
  -- policy is POLICY_DENIED, and AUTHORIZED is given when all three allow. Every such decision
  -- names the operation and the hash that the policy had at the start, and is recorded once, after
  -- the calls that settle it and no others; it is returned with the number that its record gave.
  pub authorize-Recorded :
      (s u : S) (d : AuthorizationDecision) → (authorize g request s ≡ (u, ok d)) ↔ Recorded s u d
  authorize-Recorded s u d = (
    returned-Recorded s u d,
    λ r. Settled-authorize s r.at r.decision r.settled ∙ Recorded-record_in s u d r,
  )
