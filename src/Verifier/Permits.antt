-- ===== src/Verifier/Permits.antt =====
-- What the capability of a request must be for src/sia/authority_adapters.py to accept it.
use sovereignty_ai_gate.Prelude.{
  ℕ, ◌≤◌, ◌<◌, String, ◌≡◌, ◌↔◌, ◌⊎◌, inl, inr, refl, Bool, true, false, not, ◌&&◌, List, [], ◌∷◌,
  Option, none, some, arith, contains, ok, str_eq, eq_iff, Bool-cases,
}
use sovereignty_ai_gate.Prelude.Int.{ltb_ℤ}
use sovereignty_ai_gate.Platform.{Platform, Moment}
use sovereignty_ai_gate.Operations.{
  ProtectedOperation, operation_of, IdentityContext, Expiry, never, at_second, at_text,
  CapabilityRecord, Capability, capability_record, capability_token, delegation_token, other_object,
  OperationRequest,
}
use sovereignty_ai_gate.Verifier.{
  operation_scopes, adapt, is_other_owner, is_other_provider, is_subset, exceeds, is_disjoint,
}

abbrev pub IsOwnedBy : Option IdentityContext → String → Type 0
IsOwnedBy none owner_identity = Unit
IsOwnedBy (some identity) owner_identity = owner_identity ≡ identity.identity_id

-- A capability for no provider in particular serves every one.
abbrev pub Serves : Option String → Option String → Type 0
Serves none held = Unit
Serves (some requested) none = Unit
Serves (some requested) (some held) = (requested ≡ "") ⊎ (held ≡ requested)

abbrev pub Covers : List String → Option CapabilityRecord → Type 0
Covers scopes none = Unit
Covers scopes (some parent) =
    (s : String) → contains s scopes ≡ true → contains s parent.scopes ≡ true

module _ (p : Platform) (now : Moment) where
  abbrev pub IsFuture : Expiry → Type 0
  IsFuture never = Unit
  IsFuture (at_second expiry) = ltb_ℤ now.seconds expiry ≡ true
  IsFuture (at_text text) =
      (expiry : ℕ) × (p.fromisoformat text ≡ ok expiry) × (now.reading < expiry)

  -- A delegation token still serves at the moment of its expiry.
  abbrev pub IsCurrent : Option String → Type 0
  IsCurrent none = Unit
  IsCurrent (some text) = (expiry : ℕ) × (p.fromisoformat text ≡ ok expiry) × (now.reading ≤ expiry)

  abbrev pub IsLive : Capability → Type 0
  IsLive (capability_record r) = (r.revoked ≡ false) × IsFuture r.expires_at
  IsLive (capability_token t) = (t.revoked ≡ false) × (ltb_ℤ now.seconds t.expires_at ≡ true)
  IsLive (delegation_token t) = (t.revoked ≡ false) × IsCurrent t.expires_at
  IsLive (other_object v) = ⊥

  pub record Permits (request : OperationRequest) : Type 0 where
    pub capability : Capability
    pub adapted : CapabilityRecord
    pub parent : Option CapabilityRecord
    pub op : ProtectedOperation
    pub scope : String
    pub presented : request.capability ≡ some capability
    pub known : adapt (some capability) ≡ ok (some adapted)
    pub owned : IsOwnedBy request.identity adapted.owner_identity
    pub serves : Serves request.provider_id adapted.provider_id
    pub live : IsLive capability
    pub parent_known : adapt request.parent_capability ≡ ok parent
    pub covered : Covers adapted.scopes parent
    pub protected : operation_of request.operation ≡ ok op
    pub held : contains scope adapted.scopes ≡ true
    pub required : contains scope (operation_scopes op) ≡ true

pub is_other_owner-IsOwnedBy :
    (i : Option IdentityContext) (owner : String)
    → (is_other_owner i owner ≡ false) ↔ IsOwnedBy i owner
unfolding is_other_owner
is_other_owner-IsOwnedBy none owner = (λ _. tt, λ _. refl)
is_other_owner-IsOwnedBy (some i) owner = (
  λ h. (eq_iff owner i.identity_id).0 (ground arith),
  λ h. rw ((eq_iff owner i.identity_id).1 h) refl,
)

provider_test : (a b : Bool) → ((not a && not b) ≡ false) ↔ ((a ≡ true) ⊎ (b ≡ true))
provider_test true b = (λ h. inl refl, λ h. refl)
provider_test false true = (λ h. inr refl, λ h. refl)
provider_test false false = (λ h. absurd (ground arith), λ h. absurd (ground arith))

pub is_other_provider-Serves :
    (requested held : Option String)
    → (is_other_provider requested held ≡ false) ↔ Serves requested held
unfolding is_other_provider
is_other_provider-Serves none held = (λ _. tt, λ _. refl)
is_other_provider-Serves (some r) none = (λ _. tt, λ _. refl)
is_other_provider-Serves (some r) (some h) =
    let (there, back) = provider_test (str_eq r "") (str_eq h r) in
    (
      λ e. elim (there e) [ inl a ↦ inl ((eq_iff r "").0 a) | inr b ↦ inr ((eq_iff h r).0 b) ],
      λ e. back (elim e [ inl a ↦ inl ((eq_iff r "").1 a) | inr b ↦ inr ((eq_iff h r).1 b) ]),
    )

is_subset-contains :
    (xs ys : List String)
    → (is_subset xs ys ≡ true) ↔ ((s : String) → contains s xs ≡ true → contains s ys ≡ true)
unfolding is_subset contains
is_subset-contains [] ys = (λ _. λ s h. cc, λ _. refl)
is_subset-contains (x ∷ xs) ys =
    let (there, back) = is_subset-contains xs ys in
    (
      λ h s m. elim (Bool-cases (str_eq s x)) [
        | inl same ↦ rw ((eq_iff s x).0 same) (ground arith)
        | inr differ ↦ there (ground arith) s (ground arith)
      ],
      λ h.
          ground
            (arith, h x (rw ((eq_iff x x).1 refl) refl), back (λ s m. h s (ground (arith, m)))),
    )

negation_off : (b : Bool) → (not b ≡ false) ↔ (b ≡ true)
negation_off b = ground arith

pub exceeds-Covers :
    (scopes : List String) (parent : Option CapabilityRecord)
    → (exceeds scopes parent ≡ false) ↔ Covers scopes parent
unfolding exceeds
exceeds-Covers scopes none = (λ _. tt, λ _. refl)
exceeds-Covers scopes (some parent) =
    let (there, back) = is_subset-contains scopes parent.scopes in
    let (drop, add) = negation_off (is_subset scopes parent.scopes) in
    (λ h. there (drop h), λ h. add (back h))

-- Two scopes that meet have a common text.
pub is_disjoint-false :
    (xs ys : List String)
    → is_disjoint xs ys ≡ false
    → (s : String) × (contains s xs ≡ true) × (contains s ys ≡ true)
unfolding is_disjoint contains
is_disjoint-false [] ys h = cc
is_disjoint-false (x ∷ xs) ys h = elim (Bool-cases (contains x ys)) [
  | inl held ↦ (x, rw ((eq_iff x x).1 refl) refl, held)
  | inr missing ↦
      let (s, a, b) = is_disjoint-false xs ys (ground arith) in (s, ground (arith, a), b)
]

pub meets-is_disjoint :
    (xs ys : List String) (s : String)
    → contains s xs ≡ true
    → contains s ys ≡ true
    → is_disjoint xs ys ≡ false
unfolding is_disjoint contains
meets-is_disjoint [] ys s h k = cc
meets-is_disjoint (x ∷ xs) ys s h k = elim (Bool-cases (str_eq s x)) [
  | inl same ↦ let e = (eq_iff s x).0 same in let k' = rw e at k in ground (arith, k')
  | inr differ ↦ let rest = meets-is_disjoint xs ys s (ground arith) k in ground (arith, rest)
]
