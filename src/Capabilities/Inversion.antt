-- ===== src/Capabilities/Inversion.antt =====
-- What a successful `issue` or `revoke` of src/sia/capability_manager.py has done.
use sovereignty_ai_gate.Prelude.{
  ℕ, ◌≤◌, String, ◌≡◌, refl, sym, ap, ◌∙◌, ◌||◌, str_eq, has_key, delegation_invalid, ok-injective,
  List, [], ◌∷◌, ◌++◌, Option, none, some, arith, ok, require-eq-ok, length, lookup, insert,
  has_key-false, ltb-false, >>=-eq-ok, raise_if-eq-ok,
}
use sovereignty_ai_gate.Platform.{Platform}
use sovereignty_ai_gate.Utils.Json.{Fields}
use sovereignty_ai_gate.Capabilities.Access.{
  AccessRequest, authorize, evaluate, decide, authorization_payload,
}
use sovereignty_ai_gate.Delegation
use sovereignty_ai_gate.Delegation.{
  DelegationToken, Authorizer, deref, get_place, revoke_at, validate_structure,
  validate_parent_scope, max_depth,
}
use sovereignty_ai_gate.Capabilities.{
  CapabilityGrant, CapabilityDecision, CapabilityManager, Now, Parent, IssueRequest, get, parent_of,
  new_token, store_grant, record_event, issue, revoke, is_empty, issued_payload, revoked_payload,
}

-- What the authorizer has checked and done when it has issued a token.
pub issue_token :
    (a : Authorizer) (token : DelegationToken) (scope : Option (List String))
    (issued : Authorizer × ℕ)
    → Delegation.issue a token scope ≡ ok issued
    → (validate_parent_scope token.scope scope ≡ ok tt)
      × (token.depth ≤ max_depth)
      × (issued.0.heap ≡ a.heap ++ token ∷ [])
      × (issued.0.tokens ≡ insert token.token_id (length a.heap) a.tokens)
      × (issued.1 ≡ length a.heap)
unfolding Delegation.issue validate_structure
issue_token a token scope issued h =
    let (structured, h1) = raise_if-eq-ok _ _ _ h in
    let (t, scoped, h2) = >>=-eq-ok _ _ h1 in
    let (shallow, h3) = raise_if-eq-ok _ _ _ h2 in
    let e = ok-injective h3 in
    (
      scoped,
      ltb-false max_depth token.depth shallow,
      ap (λ (i : Authorizer × ℕ). i.0.heap) (sym e),
      ap (λ (i : Authorizer × ℕ). i.0.tokens) (sym e),
      ap (λ (i : Authorizer × ℕ). i.1) (sym e),
    )

module _ (p : Platform) (now : Now) where
  -- Recording touches the ledger only.
  pub record_event_frame :
      (m : CapabilityManager) (event_type : String) (payload : Fields)
      → let m' = (record_event p now m event_type payload).0 in
        (m'.owner_identity ≡ m.owner_identity)
        × (m'.authorizer ≡ m.authorizer)
        × (m'.grants ≡ m.grants)
  unfolding record_event
  record_event_frame m event_type payload = ground arith

  -- A grant is stored with the authorizer and recorded.
  stored :
      (m m' : CapabilityManager) (r : IssueRequest) (authorizer : Authorizer) (place : ℕ)
      → (record_event p now
          (store_grant m r authorizer place)
          "capability.issued"
          (issued_payload r)).0
        ≡ m'
      → (m'.owner_identity ≡ m.owner_identity)
        × (m'.authorizer ≡ authorizer)
        × (m'.grants
            ≡ insert r.capability_id
                (record { token = place; resource_id = r.resource_id; constraints = r.constraints })
                m.grants)
  unfolding store_grant
  stored m m' r authorizer place e =
      let (owner, a, g) =
        record_event_frame (store_grant m r authorizer place) "capability.issued"
          (issued_payload r) in
      rw (← e) (owner, a, g)

  pub record Issued (m : CapabilityManager) (r : IssueRequest) (m' : CapabilityManager)
      : Type 0 where
    pub parent : Parent
    pub from_parent : parent_of p now m r.subject_id r.parent_capability_id ≡ ok parent
    pub fresh : lookup r.capability_id m.grants ≡ none
    pub scoped : validate_parent_scope (new_token now r parent).scope parent.scope ≡ ok tt
    pub shallow : parent.depth ≤ max_depth
    pub heap : m'.authorizer.heap ≡ m.authorizer.heap ++ new_token now r parent ∷ []
    pub tokens :
        m'.authorizer.tokens ≡ insert r.capability_id (length m.authorizer.heap) m.authorizer.tokens
    pub grant : CapabilityGrant
    pub grant_token : grant.token ≡ length m.authorizer.heap
    pub grant_resource : grant.resource_id ≡ r.resource_id
    pub grants : m'.grants ≡ insert r.capability_id grant m.grants
    pub owner : m'.owner_identity ≡ m.owner_identity

  pub issue-Issued :
      (m m' : CapabilityManager) (r : IssueRequest) → issue p now m r ≡ ok m' → Issued m r m'
  unfolding issue new_token
  issue-Issued m m' r h =
      let (filled, h1) =
        raise_if-eq-ok (str_eq r.capability_id "" || str_eq r.subject_id "") delegation_invalid _
          h in
      let (scope, h2) = raise_if-eq-ok (is_empty r.scope) delegation_invalid _ h1 in
      let (unknown, h3) =
        raise_if-eq-ok (has_key r.capability_id m.grants) delegation_invalid _ h2 in
      let (parent, from_parent, h4) =
        >>=-eq-ok (parent_of p now m r.subject_id r.parent_capability_id) _ h3 in
      let (issued, done, h5) =
        >>=-eq-ok (Delegation.issue m.authorizer (new_token now r parent) parent.scope) _ h4 in
      let (scoped, shallow, heap, tokens, place) =
        issue_token m.authorizer (new_token now r parent) parent.scope issued done in
      let (owner, authorizer, grants) = stored m m' r issued.0 issued.1 (ok-injective h5) in
      record {
        parent = parent;
        from_parent = from_parent;
        fresh = has_key-false r.capability_id m.grants unknown;
        scoped = scoped;
        shallow = shallow;
        heap = ap (λ (a : Authorizer). a.heap) authorizer ∙ heap;
        tokens = ap (λ (a : Authorizer). a.tokens) authorizer ∙ tokens;
        grant = record {
          token = issued.1;
          resource_id = r.resource_id;
          constraints = r.constraints;
        };
        grant_token = place;
        grant_resource = refl;
        grants = grants;
        owner = owner;
      }

  pub record Revoked (m : CapabilityManager) (capability_id : String) (m' : CapabilityManager)
      : Type 0 where
    pub grant : CapabilityGrant
    pub granted : lookup capability_id m.grants ≡ some grant
    pub place : ℕ
    pub registered : lookup capability_id m.authorizer.tokens ≡ some place
    pub heap : m'.authorizer.heap ≡ revoke_at m.authorizer.heap place
    pub tokens : m'.authorizer.tokens ≡ m.authorizer.tokens
    pub grants : m'.grants ≡ m.grants
    pub owner : m'.owner_identity ≡ m.owner_identity

  pub revoke-Revoked :
      (m m' : CapabilityManager) (capability_id : String)
      → revoke p now m capability_id ≡ ok m'
      → Revoked m capability_id m'
  unfolding revoke get Delegation.revoke get_place
  revoke-Revoked m m' capability_id h =
      let (grant, granted, h1) = >>=-eq-ok (get m capability_id) _ h in
      let (authorizer, done, h2) = >>=-eq-ok (Delegation.revoke m.authorizer capability_id) _ h1 in
      let (place, registered, h3) = >>=-eq-ok (get_place m.authorizer capability_id) _ done in
      let (token, found, h4) = >>=-eq-ok (deref authorizer.heap grant.token) _ h2 in
      let e = ok-injective h4 in
      let e' = ok-injective h3 in
      let (owner, a, g) =
        record_event_frame (record m { authorizer = authorizer }) "capability.revoked"
          (revoked_payload capability_id token.grantee_id grant.resource_id) in
      record {
        grant = grant;
        granted = require-eq-ok delegation_invalid _ granted;
        place = place;
        registered = require-eq-ok delegation_invalid _ registered;
        heap =
            ap (λ (x : CapabilityManager). x.authorizer.heap) (sym e)
            ∙ ap (λ (x : Authorizer). x.heap) (a ∙ sym e');
        tokens =
            ap (λ (x : CapabilityManager). x.authorizer.tokens) (sym e)
            ∙ ap (λ (x : Authorizer). x.tokens) (a ∙ sym e');
        grants = ap (λ (x : CapabilityManager). x.grants) (sym e) ∙ g;
        owner = ap (λ (x : CapabilityManager). x.owner_identity) (sym e) ∙ owner;
      }

  -- Evaluating a capability changes the ledger only.
  pub authorize_frame :
      (m m' : CapabilityManager) (r : AccessRequest) (d : CapabilityDecision)
      → authorize p now m r ≡ ok (m', d)
      → (m'.owner_identity ≡ m.owner_identity)
        × (m'.authorizer ≡ m.authorizer)
        × (m'.grants ≡ m.grants)
  unfolding authorize decide get
  authorize_frame m m' r d h =
      let (grant, granted, h1) = >>=-eq-ok (get m r.capability_id) _ h in
      let (token, found, h2) = >>=-eq-ok (deref m.authorizer.heap grant.token) _ h1 in
      let (reason, evaluated, h3) = >>=-eq-ok (evaluate p now m r grant token) _ h2 in
      let e = ok-injective h3 in
      let (owner, a, g) =
        record_event_frame m "capability.authorization"
          (authorization_payload r (str_eq reason "AUTHORIZED") reason) in
      (
        ap (λ (x : CapabilityManager × CapabilityDecision). x.0.owner_identity) (sym e) ∙ owner,
        ap (λ (x : CapabilityManager × CapabilityDecision). x.0.authorizer) (sym e) ∙ a,
        ap (λ (x : CapabilityManager × CapabilityDecision). x.0.grants) (sym e) ∙ g,
      )
