-- ===== src/Capabilities/WellFormed.antt =====
-- The invariant that ties the manager's grants to the authorizer's tokens
-- (src/sia/capability_manager.py), and the operations on it.
use sovereignty_ai_gate.Prelude.{
  Result, raise_if, raise_if-eq-ok, ok-injective, value_error, ◌>>◌, ◌≤◌, String, ◌≡◌, refl, sym,
  ap, ◌∙◌, inl, inr, false, [], Option, none, some, arith, ok, get_elem?, get_elem?-append_left,
  get_elem?_inside, get_elem?-append_self, lookup, insert, lookup-insert, lookup-insert_self,
  str_eq, eq_iff, Bool-cases,
}
use sovereignty_ai_gate.Platform.{Platform}
use sovereignty_ai_gate.Audit.{AuditLedger}
use sovereignty_ai_gate.Delegation.{Authorizer, DelegationToken, max_depth, no_tokens}
use sovereignty_ai_gate.Delegation.Heap.{get_elem?-revoke_at}
use sovereignty_ai_gate.Capabilities.{
  CapabilityGrant, CapabilityDecision, CapabilityManager, Now, IssueRequest, new_token, issue,
  revoke,
}
use sovereignty_ai_gate.Capabilities.Access.{AccessRequest, authorize}
use sovereignty_ai_gate.Capabilities.Inversion.{
  Issued, issue-Issued, revoke-Revoked, authorize_frame,
}

-- A grant's token is on the heap, under the grant's id, no deeper than allowed, and the authorizer
-- has the same object for that id.
pub record GrantAt (m : CapabilityManager) (capability_id : String) (g : CapabilityGrant)
    : Type 0 where
  pub token : DelegationToken
  pub placed : get_elem? m.authorizer.heap g.token ≡ some token
  pub named : token.token_id ≡ capability_id
  pub shallow : token.depth ≤ max_depth
  pub registered : lookup capability_id m.authorizer.tokens ≡ some g.token

pub record IsWellFormed (m : CapabilityManager) : Type 0 where
  pub at :
      (capability_id : String) (g : CapabilityGrant)
      → lookup capability_id m.grants ≡ some g
      → GrantAt m capability_id g

-- A manager with no grants.
abbrev pub no_grants : String → Authorizer → Option AuditLedger → CapabilityManager
no_grants owner authorizer ledger = record {
  owner_identity = owner;
  authorizer = authorizer;
  ledger = ledger;
  grants = [];
}

-- `authorizer or DelegationAuthorizer()`
unfoldable pub authorizer_or_new : Option Authorizer → Authorizer
authorizer_or_new none = no_tokens
authorizer_or_new (some authorizer) = authorizer

-- `CapabilityManager(owner_identity=..., authorizer=..., recorder=...)`
unfoldable pub new_manager :
    String → Option Authorizer → Option AuditLedger → Result CapabilityManager
unfolding authorizer_or_new
new_manager owner authorizer ledger =
    raise_if (str_eq owner "") value_error
    >> ok (no_grants owner (authorizer_or_new authorizer) ledger)

no_grants-IsWellFormed :
    (owner : String) (authorizer : Authorizer) (ledger : Option AuditLedger)
    → IsWellFormed (no_grants owner authorizer ledger)
unfolding lookup
no_grants-IsWellFormed owner authorizer ledger = record { at = λ capability_id g h. cc }

pub new_manager-IsWellFormed :
    (owner : String) (authorizer : Option Authorizer) (ledger : Option AuditLedger)
    {m : CapabilityManager}
    → new_manager owner authorizer ledger ≡ ok m
    → IsWellFormed m
unfolding new_manager
new_manager-IsWellFormed owner authorizer ledger h =
    rw (← ok-injective (raise_if-eq-ok (str_eq owner "") value_error _ h).1)
      (no_grants-IsWellFormed owner (authorizer_or_new authorizer) ledger)

-- Grants, authorizer and owner alone decide the invariant.
IsWellFormed-frame :
    (m m' : CapabilityManager)
    → m'.authorizer ≡ m.authorizer
    → m'.grants ≡ m.grants
    → IsWellFormed m
    → IsWellFormed m'
IsWellFormed-frame m m' a g w = record {
  at = λ capability_id grant h.
      let old = w.at capability_id grant (ap (lookup capability_id) (sym g) ∙ h) in
      record {
        token = old.token;
        placed = rw a old.placed;
        named = old.named;
        shallow = old.shallow;
        registered = rw a old.registered;
      };
}

module _ (p : Platform) (now : Now) where
  new_at_id :
      (m m' : CapabilityManager) (r : IssueRequest) (i : Issued p now m r m')
      → GrantAt m' r.capability_id i.grant
  unfolding new_token
  new_at_id m m' r i = record {
    token = new_token now r i.parent;
    placed = rw (i.heap, i.grant_token) (get_elem?-append_self m.authorizer.heap _);
    named = refl;
    shallow = i.shallow;
    registered =
        rw (i.tokens, i.grant_token) (lookup-insert_self r.capability_id _ m.authorizer.tokens);
  }

  old_elsewhere :
      (m m' : CapabilityManager) (r : IssueRequest) (i : Issued p now m r m')
      (capability_id : String) (g : CapabilityGrant)
      → str_eq r.capability_id capability_id ≡ false
      → GrantAt m capability_id g
      → GrantAt m' capability_id g
  old_elsewhere m m' r i capability_id g other old = record {
    token = old.token;
    placed = rw i.heap (
        get_elem?-append_left m.authorizer.heap _ g.token (get_elem?_inside _ _ _ old.placed)
        ∙ old.placed);
    named = old.named;
    shallow = old.shallow;
    registered = rw (i.tokens, lookup-insert, other) old.registered;
  }

  -- In a manager where every grant's token is on the heap under the grant's id, no deeper than the
  -- maximum, and is the object that the authorizer has for that id, it is so after any `issue` that
  -- returns.
  pub issue-IsWellFormed :
      (m m' : CapabilityManager) (r : IssueRequest)
      → issue p now m r ≡ ok m'
      → IsWellFormed m
      → IsWellFormed m'
  issue-IsWellFormed m m' r h w = record {
    at = λ capability_id g found.
        let i = issue-Issued p now m m' r h in
        let here : lookup capability_id (insert r.capability_id i.grant m.grants) ≡ some g =
          ap (lookup capability_id) (sym i.grants) ∙ found in
        elim (Bool-cases (str_eq r.capability_id capability_id)) [
          | inl same ↦
              let e : r.capability_id ≡ capability_id = (eq_iff _ _).0 same in
              let eg : i.grant ≡ g =
                ground (arith, lookup-insert r.capability_id capability_id i.grant m.grants) in
              rw (← e, ← eg) (new_at_id m m' r i)
          | inr other ↦ old_elsewhere m m' r i capability_id g other (
              w.at capability_id g
                (ground (arith, lookup-insert r.capability_id capability_id i.grant m.grants)))
        ];
  }

  -- In a manager where every grant's token is on the heap under the grant's id, no deeper than the
  -- maximum, and is the object that the authorizer has for that id, it is so after any `revoke` that
  -- returns.
  pub revoke-IsWellFormed :
      (m m' : CapabilityManager) (capability_id : String)
      → revoke p now m capability_id ≡ ok m'
      → IsWellFormed m
      → IsWellFormed m'
  revoke-IsWellFormed m m' capability_id h w = record {
    at = λ id g found.
        let r = revoke-Revoked p now m m' capability_id h in
        let old = w.at id g (ap (lookup id) (sym r.grants) ∙ found) in
        let (t, placed, ages) =
          get_elem?-revoke_at m.authorizer.heap r.place g.token old.token old.placed in
        record {
          token = t;
          placed = rw r.heap placed;
          named = ages.token_id ∙ old.named;
          shallow = rw ages.depth old.shallow;
          registered = rw r.tokens old.registered;
        };
  }

  pub authorize-IsWellFormed :
      (m m' : CapabilityManager) (r : AccessRequest) (d : CapabilityDecision)
      → authorize p now m r ≡ ok (m', d)
      → IsWellFormed m
      → IsWellFormed m'
  authorize-IsWellFormed m m' r d h w =
      let (owner, a, g) = authorize_frame p now m m' r d h in IsWellFormed-frame m m' a g w
