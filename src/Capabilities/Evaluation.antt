-- ===== src/Capabilities/Evaluation.antt =====
-- The tests of `CapabilityManager.authorize` (src/sia/capability_manager.py), from the requester's
-- subject to the token's scope.
use sovereignty_ai_gate.Prelude.{
  String, ◌≡◌, refl, sym, ap, ◌∙◌, ◌↔◌, ◌⊎◌, inl, inr, Bool, true, false, not, ◌&&◌, ◌||◌, Option,
  none, some, arith, Result, ok, >>=-eq-ok, ok-injective, bind-ok, require-some, delegation_invalid,
  delegation_scope, raise_if, key_error, get_elem?, lookup, contains, str_eq, eq_iff, Bool-cases,
  if◌then◌else◌,
}
use sovereignty_ai_gate.Platform.{Platform}
use sovereignty_ai_gate.Delegation
use sovereignty_ai_gate.Delegation.{
  DelegationToken, deref, is_valid, is_expired, authorize_token, get_place,
}
use sovereignty_ai_gate.Delegation.Scope.{permits}
use sovereignty_ai_gate.Capabilities.{CapabilityGrant, CapabilityManager, Now}
use sovereignty_ai_gate.Capabilities.Access.{AccessRequest, evaluate, resource_mismatch, reason_of}
use sovereignty_ai_gate.Capabilities.WellFormed.{GrantAt}

scope_reason :
    (here wild : Bool)
    → reason_of (raise_if (not here && not wild) delegation_scope)
      ≡ (if here || wild then ok "AUTHORIZED" else ok "SCOPE_MISSING")
unfolding reason_of
scope_reason true wild = refl
scope_reason false true = refl
scope_reason false false = refl

-- Reason codes are told apart by their texts.
reason_apart {ℓ} : {A : Type ℓ} (s t : String) → str_eq s t ≡ false → ok s ≡ ok t → A
reason_apart s t differ e = absurd (ground (arith, eq_iff s t, ok-injective e))

inactive {ℓ} :
    {A : Type ℓ} (valid : Bool) (x : Result String)
    → valid ≡ false
    → (if not valid then ok "CAPABILITY_INACTIVE" else x) ≡ ok "AUTHORIZED"
    → A
inactive valid x e h = reason_apart "CAPABILITY_INACTIVE" "AUTHORIZED" refl (rw e at h)

mismatched {ℓ} :
    {A : Type ℓ} (mismatch : Bool) (x : Result String)
    → mismatch ≡ true
    → (if mismatch then ok "RESOURCE_MISMATCH" else x) ≡ ok "AUTHORIZED"
    → A
mismatched mismatch x e h = reason_apart "RESOURCE_MISMATCH" "AUTHORIZED" refl (rw e at h)

module _ (p : Platform) (now : Now) where
  -- What it takes for a token to serve a request.
  pub record Serves (r : AccessRequest) (grant : CapabilityGrant) (token : DelegationToken)
      : Type 0 where
    pub subject : token.grantee_id ≡ r.subject_id
    pub live : token.revoked ≡ false
    pub in_time : is_expired p now.instant token ≡ ok false
    pub resource : (grant.resource_id ≡ none) ⊎ (grant.resource_id ≡ r.resource_id)
    pub scope : permits token.scope r.action ≡ true

  pub record Permitted (m : CapabilityManager) (r : AccessRequest) : Type 0 where
    pub grant : CapabilityGrant
    pub token : DelegationToken
    pub granted : lookup r.capability_id m.grants ≡ some grant
    pub placed : get_elem? m.authorizer.heap grant.token ≡ some token
    pub serves : Serves r grant token

  resource_mismatch-false :
      (bound requested : Option String)
      → (resource_mismatch bound requested ≡ false) ↔ ((bound ≡ none) ⊎ (bound ≡ requested))
  unfolding resource_mismatch
  resource_mismatch-false none requested = (λ h. inl refl, λ h. refl)
  resource_mismatch-false (some b) none = (λ h. absurd (ground arith), λ h. absurd (ground arith))
  resource_mismatch-false (some b) (some c) =
      (λ h. inr (ground (arith, eq_iff b c)), λ h. ground (arith, eq_iff b c))

  authorize_token_live :
      (token : DelegationToken) (action : String)
      → token.revoked ≡ false
      → is_expired p now.instant token ≡ ok false
      → reason_of (authorize_token p now.instant token action)
        ≡ (if permits token.scope action then ok "AUTHORIZED" else ok "SCOPE_MISSING")
  unfolding authorize_token permits
  authorize_token_live token action live in_time = rw live (
      ap reason_of (bind-ok _ in_time)
      ∙ scope_reason (contains action token.scope) (contains "*" token.scope))

  -- The authorizer looks at the object that the grant holds.
  pub authorize_registered :
      (m : CapabilityManager) (capability_id action : String) (g : CapabilityGrant)
      → (at : GrantAt m capability_id g)
      → Delegation.authorize p now.instant m.authorizer capability_id action
        ≡ authorize_token p now.instant at.token action
  unfolding Delegation.authorize get_place deref
  authorize_registered m capability_id action g at =
      bind-ok _ (require-some delegation_invalid at.registered)
      ∙ bind-ok _ (require-some key_error at.placed)

  -- The last tests of `evaluate`, for the requester's own token, live and in time.
  evaluate_live :
      (m : CapabilityManager) (r : AccessRequest) (grant : CapabilityGrant)
      (token : DelegationToken)
      → Delegation.authorize p now.instant m.authorizer r.capability_id r.action
        ≡ authorize_token p now.instant token r.action
      → token.grantee_id ≡ r.subject_id
      → token.revoked ≡ false
      → is_expired p now.instant token ≡ ok false
      → evaluate p now m r grant token ≡ (
          if resource_mismatch grant.resource_id r.resource_id
          then ok "RESOURCE_MISMATCH"
          else if permits token.scope r.action
          then ok "AUTHORIZED"
          else ok "SCOPE_MISSING")
  unfolding evaluate is_valid
  evaluate_live m r grant token same subject live in_time =
      rw ((eq_iff token.grantee_id r.subject_id).1 subject, live)
        (bind-ok _ (bind-ok _ in_time)
          ∙ ap
              (λ x.
                if resource_mismatch grant.resource_id r.resource_id
                then ok "RESOURCE_MISMATCH"
                else x)
              (ap reason_of same ∙ authorize_token_live token r.action live in_time))

  -- Some test before those has failed.
  evaluate_early :
      (m : CapabilityManager) (r : AccessRequest) (grant : CapabilityGrant)
      (token : DelegationToken)
      → evaluate p now m r grant token ≡ ok "AUTHORIZED"
      → (token.grantee_id ≡ r.subject_id)
        × (token.revoked ≡ false)
        × (is_expired p now.instant token ≡ ok false)
  unfolding evaluate is_valid
  evaluate_early m r grant token h = elim (Bool-cases (str_eq token.grantee_id r.subject_id)) [
    | inr other ↦ reason_apart "SUBJECT_MISMATCH" "AUTHORIZED" refl (rw other at h)
    | inl own ↦ elim (Bool-cases token.revoked) [
      | inl dead ↦ reason_apart "CAPABILITY_INACTIVE" "AUTHORIZED" refl (rw (own, dead) at h)
      | inr live ↦
          let (valid, tested, h2) = >>=-eq-ok (is_valid p now.instant token) _ (rw own at h) in
          let (expired, in_time, kept) =
            >>=-eq-ok (is_expired p now.instant token) _ (rw live at tested) in
          elim (Bool-cases expired) [
            | inl late ↦ inactive valid _ (sym (ok-injective kept) ∙ ap not late) h2
            | inr early ↦
                ((eq_iff token.grantee_id r.subject_id).0 own, live, in_time ∙ ap ok early)
          ]
    ]
  ]

  pub evaluate_sound :
      (m : CapabilityManager) (r : AccessRequest) (grant : CapabilityGrant)
      (token : DelegationToken)
      → Delegation.authorize p now.instant m.authorizer r.capability_id r.action
        ≡ authorize_token p now.instant token r.action
      → evaluate p now m r grant token ≡ ok "AUTHORIZED"
      → Serves r grant token
  evaluate_sound m r grant token same h =
      let (subject, live, in_time) = evaluate_early m r grant token h in
      let h2 = sym (evaluate_live m r grant token same subject live in_time) ∙ h in
      elim (Bool-cases (resource_mismatch grant.resource_id r.resource_id)) [
        | inl mismatch ↦ mismatched _ _ mismatch h2
        | inr bound ↦ elim (Bool-cases (permits token.scope r.action)) [
          | inr narrow ↦ reason_apart "SCOPE_MISSING" "AUTHORIZED" refl (rw (bound, narrow) at h2)
          | inl wide ↦ record {
            subject = subject;
            live = live;
            in_time = in_time;
            resource = (resource_mismatch-false grant.resource_id r.resource_id).0 bound;
            scope = wide;
          }
        ]
      ]

  pub evaluate_complete :
      (m : CapabilityManager) (r : AccessRequest) (grant : CapabilityGrant)
      (token : DelegationToken)
      → Delegation.authorize p now.instant m.authorizer r.capability_id r.action
        ≡ authorize_token p now.instant token r.action
      → Serves r grant token
      → evaluate p now m r grant token ≡ ok "AUTHORIZED"
  evaluate_complete m r grant token same s =
      evaluate_live m r grant token same s.subject s.live s.in_time
      ∙ rw ((resource_mismatch-false grant.resource_id r.resource_id).1 s.resource, s.scope) refl
