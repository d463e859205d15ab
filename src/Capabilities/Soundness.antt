-- ===== src/Capabilities/Soundness.antt =====
-- The calls of `CapabilityManager.authorize` (src/sia/capability_manager.py) that allow an action.
use sovereignty_ai_gate.Prelude.{
  ◌≡◌, refl, ap, ◌∙◌, ◌↔◌, true, arith, ok, >>=-eq-ok, ok-injective, require-eq-ok,
  delegation_invalid, key_error, str_eq, eq_iff,
}
use sovereignty_ai_gate.Platform.{Platform}
use sovereignty_ai_gate.Delegation.{deref, authorize_token}
use sovereignty_ai_gate.Capabilities.{CapabilityDecision, CapabilityManager, Now, get}
use sovereignty_ai_gate.Capabilities.Access.{AccessRequest, authorize, evaluate, decide}
use sovereignty_ai_gate.Capabilities.WellFormed.{IsWellFormed}
use sovereignty_ai_gate.Capabilities.Revocation.{authorize_of_parts}
use sovereignty_ai_gate.Capabilities.Evaluation.{
  Permitted, authorize_registered, evaluate_sound, evaluate_complete,
}

module _ (p : Platform) (now : Now) where
  -- A call of `authorize` that returns a decision which allows the action.
  pub record Allows (m : CapabilityManager) (r : AccessRequest) : Type 0 where
    pub after : CapabilityManager
    pub decision : CapabilityDecision
    pub returned : authorize p now m r ≡ ok (after, decision)
    pub allowed : decision.allowed ≡ true

  Allows-Permitted :
      (m : CapabilityManager) (r : AccessRequest)
      → IsWellFormed m
      → Allows m r
      → Permitted p now m r
  unfolding authorize get deref decide
  Allows-Permitted m r w a =
      let (grant, got, h1) = >>=-eq-ok (get m r.capability_id) _ a.returned in
      let (token, held, h2) = >>=-eq-ok (deref m.authorizer.heap grant.token) _ h1 in
      let (reason, outcome, h3) = >>=-eq-ok (evaluate p now m r grant token) _ h2 in
      let granted = require-eq-ok delegation_invalid _ got in
      let placed = require-eq-ok key_error _ held in
      let g = w.at r.capability_id grant granted in
      let same : g.token ≡ token = ground (arith, g.placed, placed) in
      let passed : str_eq reason "AUTHORIZED" ≡ true =
        ap (λ (x : CapabilityManager × CapabilityDecision). x.1.allowed) (ok-injective h3)
        ∙ a.allowed in
      record {
        grant = grant;
        token = token;
        granted = granted;
        placed = placed;
        serves =
            evaluate_sound p now m r grant token
              (authorize_registered p now m r.capability_id r.action grant g
                ∙ ap (λ t. authorize_token p now.instant t r.action) same)
              (outcome ∙ ap ok ((eq_iff reason "AUTHORIZED").0 passed));
      }

  Permitted-Allows :
      (m : CapabilityManager) (r : AccessRequest)
      → IsWellFormed m
      → Permitted p now m r
      → Allows m r
  unfolding decide
  Permitted-Allows m r w s =
      let g = w.at r.capability_id s.grant s.granted in
      let same : g.token ≡ s.token = ground (arith, g.placed, s.placed) in
      let result = decide p now m r "AUTHORIZED" in
      record {
        after = result.0;
        decision = result.1;
        returned =
            authorize_of_parts p r.capability_id now m r s.grant s.token "AUTHORIZED" s.granted
              s.placed
              (evaluate_complete p now m r s.grant s.token
                (authorize_registered p now m r.capability_id r.action s.grant g
                  ∙ ap (λ t. authorize_token p now.instant t r.action) same)
                s.serves);
        allowed = refl;
      }

  -- In a manager where every grant's token is on the heap under the grant's id, no deeper than the
  -- maximum, and is the object that the authorizer has for that id, `authorize` returns and allows the
  -- action exactly when the capability is registered and its
  -- token is the requester's, not revoked, not expired, bound to no other resource, and has the
  -- action or the wildcard in its scope.
  pub authorize_exact :
      (m : CapabilityManager) (r : AccessRequest)
      → IsWellFormed m
      → Allows m r ↔ Permitted p now m r
  authorize_exact m r w = (Allows-Permitted m r w, Permitted-Allows m r w)
