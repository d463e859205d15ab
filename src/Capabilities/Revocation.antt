-- ===== src/Capabilities/Revocation.antt =====
-- What becomes of a capability after its revocation (src/sia/capability_manager.py).
use sovereignty_ai_gate.Prelude.{
  String, ◌≡◌, refl, ap, ◌∙◌, Bool, true, false, some, arith, ok, bind-ok, require-some,
  delegation_invalid, key_error, get_elem?, get_elem?-append_left, get_elem?_inside, lookup,
  lookup-insert, str_eq, eq_iff, if◌then◌else◌,
}
use sovereignty_ai_gate.Platform.{Platform}
use sovereignty_ai_gate.Delegation.{DelegationToken, deref, is_valid}
use sovereignty_ai_gate.Delegation.Heap.{get_elem?-revoke_at, get_elem?-revoke_at_self}
use sovereignty_ai_gate.Capabilities.{
  CapabilityGrant, CapabilityDecision, CapabilityManager, Now, IssueRequest, issue, revoke, get,
}
use sovereignty_ai_gate.Capabilities.Access.{AccessRequest, authorize, evaluate, decide}
use sovereignty_ai_gate.Capabilities.Inversion.{issue-Issued, revoke-Revoked, authorize_frame}
use sovereignty_ai_gate.Capabilities.WellFormed.{IsWellFormed}

-- One successful call on the manager, at some time.
pub data Step (p : Platform) : CapabilityManager → CapabilityManager → Type 0 where
  issued :
      {m m' : CapabilityManager} (now : Now) (r : IssueRequest)
      → issue p now m r ≡ ok m'
      → Step p m m'
  revoked :
      {m m' : CapabilityManager} (now : Now) (capability_id : String)
      → revoke p now m capability_id ≡ ok m'
      → Step p m m'
  evaluated :
      {m m' : CapabilityManager} (now : Now) (r : AccessRequest) (d : CapabilityDecision)
      → authorize p now m r ≡ ok (m', d)
      → Step p m m'

pub data Steps (p : Platform) (m : CapabilityManager) : CapabilityManager → Type 0 where
  here : Steps p m m
  next : {m' m'' : CapabilityManager} → Steps p m m' → Step p m' m'' → Steps p m m''

-- The grant of this id holds a revoked token.
pub record IsRevoked (capability_id : String) (m : CapabilityManager) : Type 0 where
  pub grant : CapabilityGrant
  pub token : DelegationToken
  pub granted : lookup capability_id m.grants ≡ some grant
  pub placed : get_elem? m.authorizer.heap grant.token ≡ some token
  pub dead : token.revoked ≡ true

module _ (p : Platform) (id : String) where
  Step-IsRevoked : {m m' : CapabilityManager} → Step p m m' → IsRevoked id m → IsRevoked id m'
  Step-IsRevoked (issued {m} {m'} now r h) d =
      let i = issue-Issued p now m m' r h in
      record {
        grant = d.grant;
        token = d.token;
        granted = rw i.grants (
            ground (
              arith,
              d.granted,
              i.fresh,
              eq_iff r.capability_id id,
              lookup-insert r.capability_id id i.grant m.grants,
            ));
        placed = rw i.heap (
            get_elem?-append_left m.authorizer.heap _ d.grant.token
              (get_elem?_inside m.authorizer.heap _ _ d.placed)
            ∙ d.placed);
        dead = d.dead;
      }
  Step-IsRevoked (revoked {m} {m'} now capability_id h) d =
      let r = revoke-Revoked p now m m' capability_id h in
      let (t, placed, ages) =
        get_elem?-revoke_at m.authorizer.heap r.place d.grant.token d.token d.placed in
      record {
        grant = d.grant;
        token = t;
        granted = ap (lookup id) r.grants ∙ d.granted;
        placed = ap (λ heap. get_elem? heap d.grant.token) r.heap ∙ placed;
        dead = ages.stays_revoked d.dead;
      }
  Step-IsRevoked (evaluated {m} {m'} now r decision h) d =
      let (owner, a, g) = authorize_frame p now m m' r decision h in
      record {
        grant = d.grant;
        token = d.token;
        granted = ap (lookup id) g ∙ d.granted;
        placed = rw a d.placed;
        dead = d.dead;
      }

  Steps-IsRevoked : {m m' : CapabilityManager} → Steps p m m' → IsRevoked id m → IsRevoked id m'
  Steps-IsRevoked here d = d
  Steps-IsRevoked (next r s) d = Step-IsRevoked s (Steps-IsRevoked r d)

  revoke-IsRevoked :
      (now : Now) (m m' : CapabilityManager)
      → IsWellFormed m
      → revoke p now m id ≡ ok m'
      → IsRevoked id m'
  revoke-IsRevoked now m m' w h =
      let r = revoke-Revoked p now m m' id h in
      let g = w.at id r.grant r.granted in
      let same : r.place ≡ r.grant.token = ground (arith, r.registered, g.registered) in
      record {
        grant = r.grant;
        token = record g.token { revoked = true };
        granted = ap (lookup id) r.grants ∙ r.granted;
        placed =
            ap (λ heap. get_elem? heap r.grant.token) r.heap
            ∙ rw same (get_elem?-revoke_at_self m.authorizer.heap r.grant.token g.token g.placed);
        dead = refl;
      }

  evaluate_dead :
      (now : Now) (m : CapabilityManager) (r : AccessRequest) (grant : CapabilityGrant)
      (token : DelegationToken)
      → token.revoked ≡ true
      → evaluate p now m r grant token
        ≡ ok (
            if str_eq token.grantee_id r.subject_id
            then "CAPABILITY_INACTIVE"
            else "SUBJECT_MISMATCH")
  unfolding evaluate is_valid
  evaluate_dead now m r grant token dead = ground arith

  -- A refusal: the decision that `authorize` returns does not allow the action.
  pub record Refuses (now : Now) (m : CapabilityManager) (r : AccessRequest) : Type 0 where
    pub after : CapabilityManager
    pub decision : CapabilityDecision
    pub returned : authorize p now m r ≡ ok (after, decision)
    pub refused : decision.allowed ≡ false

  pub authorize_of_parts :
      (now : Now) (m : CapabilityManager) (r : AccessRequest) (g : CapabilityGrant)
      (t : DelegationToken) (reason : String)
      → lookup r.capability_id m.grants ≡ some g
      → get_elem? m.authorizer.heap g.token ≡ some t
      → evaluate p now m r g t ≡ ok reason
      → authorize p now m r ≡ ok (decide p now m r reason)
  unfolding authorize get deref
  authorize_of_parts now m r g t reason found placed outcome =
      bind-ok _ (require-some delegation_invalid found)
      ∙ bind-ok _ (require-some key_error placed)
      ∙ bind-ok _ outcome

  refusal_codes :
      (b : Bool)
      → str_eq (if b then "CAPABILITY_INACTIVE" else "SUBJECT_MISMATCH") "AUTHORIZED" ≡ false
  refusal_codes true = refl
  refusal_codes false = refl

  authorize-IsRevoked :
      (now : Now) (m : CapabilityManager) (r : AccessRequest)
      → r.capability_id ≡ id
      → IsRevoked id m
      → Refuses now m r
  unfolding decide
  authorize-IsRevoked now m r same d =
      let reason =
        if str_eq d.token.grantee_id r.subject_id
        then "CAPABILITY_INACTIVE"
        else "SUBJECT_MISMATCH" in
      let result = decide p now m r reason in
      record {
        after = result.0;
        decision = result.1;
        returned =
            authorize_of_parts now m r d.grant d.token reason
              (ap (λ k. lookup k m.grants) same ∙ d.granted) d.placed
              (evaluate_dead now m r d.grant d.token d.dead);
        refused = refusal_codes (str_eq d.token.grantee_id r.subject_id);
      }

  -- Once a capability of a well-formed manager has been revoked by a `revoke` that returned, every later
  -- evaluation of it, at any time and for any requester, action and resource, returns a decision that
  -- refuses; whatever calls of `issue`, `revoke` and `authorize` that return come in between.
  pub revocation_final :
      (now now' : Now) {m m' : CapabilityManager} (m'' : CapabilityManager) (r : AccessRequest)
      → IsWellFormed m
      → revoke p now m id ≡ ok m'
      → Steps p m' m''
      → r.capability_id ≡ id
      → Refuses now' m'' r
  revocation_final now now' {m} {m'} m'' r w h steps same =
      authorize-IsRevoked now' m'' r same (Steps-IsRevoked steps (revoke-IsRevoked now m m' w h))
