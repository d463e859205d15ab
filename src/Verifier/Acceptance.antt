-- ===== src/Verifier/Acceptance.antt =====
-- When src/sia/authority_adapters.py accepts the capability of a request.
use sovereignty_ai_gate.Prelude.{
  String, ◌≡◌, ◌↔◌, refl, ap, ◌∙◌, inl, inr, Bool, true, false, not, ◌&&◌, Option, none, some,
  arith, Result, ok, err, ◌>>=◌, >>=-eq-ok, ok-injective, Bool-cases, if◌then◌else◌, ltb,
}
use sovereignty_ai_gate.Platform.{Platform, Moment}
use sovereignty_ai_gate.Permissions.{is_active, is_expired}
use sovereignty_ai_gate.Delegation
use sovereignty_ai_gate.Delegation.{DelegationToken, is_valid}
use sovereignty_ai_gate.Operations.{
  ProtectedOperation, operation_of, Expiry, never, at_second, at_text, CapabilityRecord, Capability,
  capability_record, capability_token, delegation_token, other_object, OperationRequest,
  CapabilityVerification,
}
use sovereignty_ai_gate.Verifier.{
  operation_scopes, adapt, is_other_owner, is_other_provider, exceeds, is_disjoint, refused,
  verified, verify_member, verify_operation, verify_found, verify_presented, is_past, is_inactive,
  verify_adapted, verify_capability,
}
use sovereignty_ai_gate.Verifier.Permits.{
  Permits, IsFuture, IsCurrent, IsLive, is_other_owner-IsOwnedBy, is_other_provider-Serves,
  exceeds-Covers, is_disjoint-false, meets-is_disjoint,
}

module _ (p : Platform) (now : Moment) where
  is_past-IsFuture : (e : Expiry) → (is_past p now e ≡ ok false) ↔ IsFuture p now e
  unfolding is_past
  is_past-IsFuture never = (λ _. tt, λ _. refl)
  is_past-IsFuture (at_second s) = (λ h. ground (arith, ok-injective h), λ h. rw h refl)
  is_past-IsFuture (at_text text) = (
    λ h.
        let (e, parsed, rest) = >>=-eq-ok (p.fromisoformat text) _ h in
        (e, parsed, ground (arith, ok-injective rest)),
    λ (e, parsed, later). rw parsed (ap ok (ground arith)),
  )

  unexpired :
      (expires_at : Option String)
      → ((elim expires_at [
        | none ↦ ok false
        | some text ↦ p.fromisoformat text >>= λ expiry. ok (ltb expiry now.reading)
      ])
          ≡ ok false)
        ↔ IsCurrent p now expires_at
  unexpired none = (λ _. tt, λ _. refl)
  unexpired (some text) = (
    λ h.
        let (e, parsed, rest) = >>=-eq-ok (p.fromisoformat text) _ h in
        (e, parsed, ground (arith, ok-injective rest)),
    λ (e, parsed, later). rw parsed (ap ok (ground arith)),
  )

  unless_revoked :
      (revoked : Bool) (rest : Result Bool)
      → ((if revoked then ok true else rest) ≡ ok false) ↔ ((revoked ≡ false) × (rest ≡ ok false))
  unless_revoked true rest = (λ h. absurd (ground arith), λ h. absurd (ground arith))
  unless_revoked false rest = (λ h. (refl, h), λ h. h.1)

  negated : (m : Result Bool) → ((m >>= λ b. ok (not b)) ≡ ok false) ↔ (m ≡ ok true)
  negated (err e) = (λ h. cc, λ h. cc)
  negated (ok true) = (λ h. refl, λ h. refl)
  negated (ok false) = (λ h. absurd (ground arith), λ h. absurd (ground arith))

  valid_unless :
      (revoked : Bool) (m : Result Bool)
      → ((if revoked then ok false else (m >>= λ b. ok (not b))) ≡ ok true)
        ↔ ((revoked ≡ false) × (m ≡ ok false))
  valid_unless true m = (λ h. absurd (ground arith), λ h. absurd (ground arith))
  valid_unless false (err e) = (λ h. cc, λ h. cc)
  valid_unless false (ok true) = (λ h. absurd (ground arith), λ h. absurd (ground arith))
  valid_unless false (ok false) = (λ h. (refl, refl), λ h. refl)

  both :
      (revoked before : Bool)
      → (ok (not (not revoked && not (not before))) ≡ ok false)
        ↔ ((revoked ≡ false) × (before ≡ true))
  both revoked before =
      (λ h. let e = ok-injective h in ground (arith, e), λ h. ap ok (ground arith))

  -- The capability's own test, in terms of its dates.
  is_inactive-IsLive : (c : Capability) → (is_inactive p now c ≡ ok false) ↔ IsLive p now c
  unfolding is_inactive is_active is_expired is_valid Delegation.is_expired
  is_inactive-IsLive (capability_record r) =
      let (there, back) = unless_revoked r.revoked (is_past p now r.expires_at) in
      let (later, earlier) = is_past-IsFuture r.expires_at in
      (λ h. let (a, b) = there h in (a, later b), λ (a, b). back (a, earlier b))
  is_inactive-IsLive (capability_token t) = both t.revoked _
  is_inactive-IsLive (delegation_token t) =
      let valid = is_valid p now.reading t in
      let (un, re) = negated valid in
      let (there, back) = valid_unless t.revoked (Delegation.is_expired p now.reading t) in
      let (later, earlier) = unexpired t.expires_at in
      (λ h. let (a, b) = there (un h) in (a, later b), λ (a, b). re (back (a, earlier b)))
  is_inactive-IsLive (other_object v) = (λ h. absurd (ground arith), λ h. absurd h)

unrefused :
    (test : Bool) (reason_code reason : String) (id : Option String)
    (m : Result CapabilityVerification) (v : CapabilityVerification)
    → (if test then ok (refused reason_code reason id) else m) ≡ ok v
    → v.allowed ≡ true
    → (test ≡ false) × (m ≡ ok v)
unfolding refused
unrefused true reason_code reason id m v h allowed = cc
unrefused false reason_code reason id m v h allowed = (refl, h)

-- What the last checks accept.
accepted :
    (request : OperationRequest) (a : CapabilityRecord) (found : Result ProtectedOperation)
    → (verify_member request a found).allowed ≡ true
    → (op : ProtectedOperation) × (found ≡ ok op)
      × (is_disjoint a.scopes (operation_scopes op) ≡ false)
unfolding verify_member refused
accepted request a (err e) h = cc
accepted request a (ok op) h = elim (Bool-cases (is_disjoint a.scopes (operation_scopes op))) [
  | inl apart ↦ absurd (ground arith)
  | inr meet ↦ (op, refl, meet)
]

module _ (p : Platform) (now : Moment) (request : OperationRequest) where
  adapted-Permits :
      (c : Capability) (a : CapabilityRecord) (v : CapabilityVerification)
      → request.capability ≡ some c
      → adapt (some c) ≡ ok (some a)
      → verify_adapted p now request c a ≡ ok v
      → v.allowed ≡ true
      → Permits p now request
  unfolding verify_adapted verify_operation
  adapted-Permits c a v presented known h allowed =
      let (owner, h1) =
        unrefused (is_other_owner request.identity a.owner_identity) _ _ _ _ v h allowed in
      let (provider, h2) =
        unrefused (is_other_provider request.provider_id a.provider_id) _ _ _ _ v h1 allowed in
      let (inactive, tested, h3) = >>=-eq-ok (is_inactive p now c) _ h2 in
      let (live, h4) = unrefused inactive _ _ _ _ v h3 allowed in
      let (parent, parent_known, h5) = >>=-eq-ok (adapt request.parent_capability) _ h4 in
      let (within, h6) = unrefused (exceeds a.scopes parent) _ _ _ _ v h5 allowed in
      let (op, protected, meet) =
        accepted request a (operation_of request.operation)
          (ap (λ w. w.allowed) (ok-injective h6) ∙ allowed) in
      let (scope, held, required) = is_disjoint-false a.scopes (operation_scopes op) meet in
      record {
        capability = c;
        adapted = a;
        parent = parent;
        op = op;
        scope = scope;
        presented = presented;
        known = known;
        owned = (is_other_owner-IsOwnedBy request.identity a.owner_identity).0 owner;
        serves = (is_other_provider-Serves request.provider_id a.provider_id).0 provider;
        live = (is_inactive-IsLive p now c).0 (tested ∙ ap ok live);
        parent_known = parent_known;
        covered = (exceeds-Covers a.scopes parent).0 within;
        protected = protected;
        held = held;
        required = required;
      }

  found-Permits :
      (c : Capability) (found : Option CapabilityRecord) (v : CapabilityVerification)
      → request.capability ≡ some c
      → adapt (some c) ≡ ok found
      → verify_found p now request c found ≡ ok v
      → v.allowed ≡ true
      → Permits p now request
  unfolding verify_found refused
  found-Permits c none v presented known h allowed = absurd (cc)
  found-Permits c (some a) v presented known h allowed =
      adapted-Permits c a v presented known h allowed

  presented-Permits :
      (o : Option Capability) (v : CapabilityVerification)
      → request.capability ≡ o
      → verify_presented p now request o ≡ ok v
      → v.allowed ≡ true
      → Permits p now request
  unfolding verify_presented refused
  presented-Permits none v e h allowed = absurd (cc)
  presented-Permits (some c) v e h allowed =
      let (found, known, rest) = >>=-eq-ok (adapt (some c)) _ h in
      found-Permits c found v e known rest allowed

  pub Permits-verified :
      (t : Permits p now request) → verify_capability p now request ≡ ok (verified t.adapted)
  unfolding verify_capability verify_presented verify_found verify_adapted verify_operation
      verify_member
  Permits-verified t =
      let own = (is_other_owner-IsOwnedBy request.identity t.adapted.owner_identity).1 t.owned in
      let serve = (is_other_provider-Serves request.provider_id t.adapted.provider_id).1 t.serves in
      let live = (is_inactive-IsLive p now t.capability).1 t.live in
      let within = (exceeds-Covers t.adapted.scopes t.parent).1 t.covered in
      let meet =
        meets-is_disjoint t.adapted.scopes (operation_scopes t.op) t.scope t.held t.required in
      simp (t.presented, t.known, own, serve, live, t.parent_known, within, t.protected, meet)

  -- A capability is accepted exactly when the request presents one of a known class that the
  -- request's identity owns, that serves the request's provider, that is neither revoked nor past
  -- its date, whose scopes lie within those of the parent that is given, and that holds one of the
  -- scopes of the protected operation that the request names.
  pub verify_capability-Permits :
      ((v : CapabilityVerification) × (verify_capability p now request ≡ ok v) × (v.allowed ≡ true))
      ↔ Permits p now request
  unfolding verify_capability verified
  verify_capability-Permits = (
    λ (v, returned, allowed). presented-Permits request.capability v refl returned allowed,
    λ t. (verified t.adapted, Permits-verified t, refl),
  )
