-- ===== src/Adapters/Authorization.antt =====
-- The gate of src/sia/authority_gate.py with the adapters of src/sia/authority_adapters.py.
use sovereignty_ai_gate.Prelude.{
  ℕ, String, ◌≡◌, ◌⊎◌, inl, inr, refl, sym, ap, ◌∙◌, Bool, true, false, not, Option, none, some,
  Result, ok, err, ok-injective, length, str_eq, eq_iff, arith, if◌then◌else◌,
}
use sovereignty_ai_gate.Prelude.Effects.{>>=-returned, return}
use sovereignty_ai_gate.Platform.{Platform, Moment}
use sovereignty_ai_gate.Trust.{IsSigner}
use sovereignty_ai_gate.Scar.{ScarLedger, append_event, verify_integrity}
use sovereignty_ai_gate.Scar.Integrity.{Appended, append_event-verify}
use sovereignty_ai_gate.Policy
use sovereignty_ai_gate.Identity.{HumanIdentity, is_device_trusted}
use sovereignty_ai_gate.Operations.{
  IdentityContext, OperationRequest, CapabilityVerification, AuthorizationDecision,
}
use sovereignty_ai_gate.Verifier.{verify_capability, verified}
use sovereignty_ai_gate.Verifier.Permits.{Permits}
use sovereignty_ai_gate.Verifier.Acceptance.{verify_capability-Permits, Permits-verified}
use sovereignty_ai_gate.Gate.{AuthorityGate, decision_of, record_in, authorize}
use sovereignty_ai_gate.Gate.Evidence.{
  Settled, stranger, incapable, denied, permitted, Recorded-record_in, authorize-Recorded,
}
use sovereignty_ai_gate.Adapters.{
  IdentityAdapter, PolicyAdapter, trusts_device, verify_identity, policy_request, evaluate,
  decision_event, appended, record_decision, adapter_gate,
}

-- The identity is the owner, verified, on a trusted device.
pub record IsOwner (a : IdentityAdapter) (context : Option IdentityContext) : Type 0 where
  pub identity : IdentityContext
  pub device_id : String
  pub given : context ≡ some identity
  pub attested : identity.verified ≡ true
  pub same : identity.identity_id ≡ a.owner_identity.identity_id
  pub device : identity.device_id ≡ some device_id
  pub trusted : is_device_trusted a.owner_identity device_id ≡ true

trusted_device :
    (owner : HumanIdentity) (device_id : Option String)
    → trusts_device owner device_id ≡ true
    → (d : String) × (device_id ≡ some d) × (is_device_trusted owner d ≡ true)
unfolding trusts_device
trusted_device owner none h = cc
trusted_device owner (some d) h = (d, refl, h)

three_tests :
    (a b c : Bool) (w x y z : Bool × String × String)
    → w.0 ≡ false
    → x.0 ≡ false
    → y.0 ≡ false
    → (if not a then w else if not b then x else if not c then y else z).0 ≡ true
    → (a ≡ true) × (b ≡ true) × (c ≡ true)
three_tests a b c w x y z hw hx hy h = ground (arith, hw, hx, hy, h)

verify_identity-IsOwner :
    (a : IdentityAdapter) (context : Option IdentityContext)
    → (verify_identity a context).0 ≡ true
    → IsOwner a context
unfolding verify_identity
verify_identity-IsOwner a none h = cc
verify_identity-IsOwner a (some i) h =
    let (attested, same, device) =
      three_tests i.verified (str_eq i.identity_id a.owner_identity.identity_id)
        (trusts_device a.owner_identity i.device_id) _ _ _ _ refl refl refl h in
    let (d, held, trusted) = trusted_device a.owner_identity i.device_id device in
    record {
      identity = i;
      device_id = d;
      given = refl;
      attested = attested;
      same = (eq_iff _ _).0 same;
      device = held;
      trusted = trusted;
    }

module _ (p : Platform) (now : Moment) (identity : IdentityAdapter) (policy : PolicyAdapter) where
  -- All that an allowed decision rests on.
  pub record Justified (request : OperationRequest) (capability_id : Option String) : Type 0 where
    pub owner : IsOwner identity request.identity
    pub permits : Permits p now request
    pub named : capability_id ≡ some permits.adapted.capability_id
    pub allowed :
        (Policy.evaluate policy.policy (policy_request request (verified permits.adapted))).allowed
        ≡ true

  justify :
      (request : OperationRequest) (c : CapabilityVerification)
      → (verify_identity identity request.identity).0 ≡ true
      → verify_capability p now request ≡ ok c
      → c.allowed ≡ true
      → (evaluate policy request c).allowed ≡ true
      → Justified request c.capability_id
  unfolding evaluate verified
  justify request c asked capable granted allowed =
      let permits = (verify_capability-Permits p now request).0 (c, capable, granted) in
      let same : c ≡ verified permits.adapted =
        ok-injective (sym capable ∙ Permits-verified p now request permits) in
      record {
        owner = verify_identity-IsOwner identity request.identity asked;
        permits = permits;
        named = ap (λ v. v.capability_id) same;
        allowed =
            ap (λ v. (Policy.evaluate policy.policy (policy_request request v)).allowed) (sym same)
            ∙ allowed;
      }

  abbrev gate : AuthorityGate ScarLedger
  gate = adapter_gate p now identity policy

  Settled-Justified :
      (request : OperationRequest) (s t : ScarLedger) (d : AuthorizationDecision)
      → Settled gate request s t d
      → (s ≡ t) × ((d.allowed ≡ false) ⊎ Justified request d.capability_id)
  unfolding adapter_gate decision_of evaluate
  Settled-Justified request s _ _ (stranger code reason asked) = (ap (λ x. x.0) asked, inl refl)
  Settled-Justified request s _ _ (incapable code reason c asked capable refused) =
      (ap (λ x. x.0) asked ∙ ap (λ x. x.0) capable, inl refl)
  Settled-Justified request s _ _ (denied code reason c e asked capable granted evaluated refused) =
      (ap (λ x. x.0) asked ∙ ap (λ x. x.0) capable ∙ ap (λ x. x.0) evaluated, inl refl)
  Settled-Justified request s _ _
        (permitted code reason c e asked capable granted evaluated allowed) =
      (
        ap (λ x. x.0) asked ∙ ap (λ x. x.0) capable ∙ ap (λ x. x.0) evaluated,
        inr (
            justify request c (ap (λ x. x.0) (ok-injective (ap (λ x. x.1) asked)))
              (ap (λ x. x.1) capable) granted
              (ap (λ x. x.allowed) (ok-injective (ap (λ x. x.1) evaluated)) ∙ allowed)),
      )

  -- One decision, recorded.
  pub record Authorized (request : OperationRequest) (ledger after : ScarLedger)
      (d : AuthorizationDecision) : Type 0 where
    pub appends : Appended p ledger (decision_event request d) after
    pub numbered : d.evidence_sequence ≡ some (length ledger.events)
    pub valid : verify_integrity p after ≡ true
    pub justified : (d.allowed ≡ false) ⊎ Justified request d.capability_id

  appended-ok :
      (ledger : ScarLedger) (m : Result ScarLedger) {after : ScarLedger} {n : Option ℕ}
      → appended p now ledger m ≡ (after, ok n)
      → (m ≡ ok after) × (n ≡ some (length ledger.events))
  unfolding appended
  appended-ok ledger (err e) h = cc
  appended-ok ledger (ok u) h = (ap (λ x. ok (x.0)) h, sym (ok-injective (ap (λ x. x.1) h)))

  record-Appended :
      (request : OperationRequest) (ledger after : ScarLedger) (d d' : AuthorizationDecision)
      → record_in gate request d ledger ≡ (after, ok d')
      → (append_event p ledger (decision_event request d') now.text now.uuid ≡ ok after)
        × (d'.evidence_sequence ≡ some (length ledger.events))
        × (d'.allowed ≡ d.allowed)
        × (d.capability_id ≡ d'.capability_id)
  unfolding adapter_gate record_in record_decision decision_event
  record-Appended request ledger after d d' h =
      let (t, sequence, recorded, rest) =
        >>=-returned (record_decision p now request d)
          (λ n. return (record d { evidence_sequence = n })) ledger h in
      let (made, number) = appended-ok ledger _ recorded in
      let kept : t ≡ after = ap (λ x. x.0) rest in
      let final : record d { evidence_sequence = sequence } ≡ d' =
        ok-injective (ap (λ x. x.1) rest) in
      rw (← final) (made ∙ ap ok kept, number, refl, refl)

  -- Where the device's signatures verify: each decision that the authority's gate returns on a ledger
  -- that verifies is the last event of a ledger that verifies and keeps the events before, its
  -- number is that event's, and if it allows, then the identity is the owner's, verified, on a
  -- trusted active device, the capability permits the request at that moment and is the one that
  -- the decision names, and the policy allows the request with that capability's id and scopes.
  pub gate-Authorized :
      (request : OperationRequest) (ledger after : ScarLedger) (d : AuthorizationDecision)
      → IsSigner ledger.root_of_trust.backend
      → verify_integrity p ledger ≡ true
      → authorize (adapter_gate p now identity policy) request ledger ≡ (after, ok d)
      → Authorized request ledger after d
  gate-Authorized request ledger after d signer valid h =
      let r = (authorize-Recorded gate request ledger after d).0 h in
      let (same, justified) = Settled-Justified request ledger r.at r.decision r.settled in
      let (made, number, verdict, held) = record-Appended request ledger after r.decision d (
        ap (λ l. record_in gate request r.decision l) same
        ∙ Recorded-record_in gate request ledger after d r) in
      let (valid', appends) =
        append_event-verify p ledger (decision_event request d) now.text now.uuid after signer made
          valid in
      record {
        appends = appends;
        numbered = number;
        valid = valid';
        justified = elim justified [
          | inl refusal ↦ inl (verdict ∙ refusal)
          | inr j ↦ inr (rw held at j)
        ];
      }
