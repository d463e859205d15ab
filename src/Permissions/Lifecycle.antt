-- ===== src/Permissions/Lifecycle.antt =====
-- What a token of src/sovereignty_core/permissions/capability.py allows over its life.
use sovereignty_ai_gate.Prelude.{
  String, ◌≡◌, ◌≢◌, ◌↔◌, refl, sym, ap, ◌∙◌, inl, inr, Bool, true, false, not, ◌&&◌, ◌||◌, List, [],
  ◌∷◌, Option, All, all, arith, ok, >>=-eq-ok, ok-injective, raise_if-eq-ok, bind-ok, raise_if,
  value_error, Error, contains, str_eq, eq_iff, Bool-cases, if◌then◌else◌,
}
use sovereignty_ai_gate.Prelude.Int.{ℤ, ltb_ℤ, ◌+ℤ◌}
use sovereignty_ai_gate.Permissions.{
  CapabilityScope, CapabilityToken, CreateRequest, value, member_of, scope_of, scopes_of, has,
  meets, allowed_scopes, is_none_left, assert_invariants, token_of, create, is_expired, is_active,
  revoke, allows, root_access, all_scopes,
}

-- The invariants of a token.
pub record LeastPrivilege (t : CapabilityToken) : Type 0 where
  pub not_owner : t.provider_id ≢ t.owner_identity
  pub not_root : t.provider_id ≢ t.authority_source
  pub by_human : t.issuer ≡ "HUMAN_DEVICE"
  pub some_scope : t.scopes ≢ []
  pub allowed_only : All (λ s. has s allowed_scopes ≡ true) t.scopes
  pub none_forbidden : meets t.scopes t.forbidden_scopes ≡ false
  pub lasting : ltb_ℤ t.issued_at t.expires_at ≡ true

all-All :
    (test : CapabilityScope → Bool) (ss : List CapabilityScope)
    → all test ss ≡ true
    → All (λ s. test s ≡ true) ss
all-All test [] h = tt
all-All test (s ∷ ss) h = (ground arith, all-All test ss (ground arith))

is_none_left-false : (ss : List CapabilityScope) → is_none_left ss ≡ false → ss ≢ []
unfolding is_none_left
is_none_left-false [] h e = cc
is_none_left-false (s ∷ ss) h e = cc

differ : (s t : String) → str_eq s t ≡ false → s ≢ t
differ s t h e = cc ((eq_iff s t).1 e, h)

true_of_negated : (b : Bool) → not b ≡ false → b ≡ true
true_of_negated b h = ground arith

passed : (b : Bool) (e : Error) → raise_if (not b) e ≡ ok tt → b ≡ true
passed true e h = refl
passed false e h = cc

pub assert_invariants-LeastPrivilege :
    (t : CapabilityToken) → assert_invariants t ≡ ok tt → LeastPrivilege t
unfolding assert_invariants
assert_invariants-LeastPrivilege t h =
    let (owner, h1) = raise_if-eq-ok (str_eq t.provider_id t.owner_identity) value_error _ h in
    let (root, h2) = raise_if-eq-ok (str_eq t.provider_id t.authority_source) value_error _ h1 in
    let (human, h3) = raise_if-eq-ok (not (str_eq t.issuer "HUMAN_DEVICE")) value_error _ h2 in
    let (left, h4) = raise_if-eq-ok (is_none_left t.scopes) value_error _ h3 in
    let (only, h5) =
      raise_if-eq-ok (not (all (λ s. has s allowed_scopes) t.scopes)) value_error _ h4 in
    let (apart, h6) = raise_if-eq-ok (meets t.scopes t.forbidden_scopes) value_error _ h5 in
    let (rootless, h7) = raise_if-eq-ok (has root_access t.scopes) value_error _ h6 in
    record {
      not_owner = differ _ _ owner;
      not_root = differ _ _ root;
      by_human = (eq_iff _ _).0 (true_of_negated _ human);
      some_scope = is_none_left-false t.scopes left;
      allowed_only = all-All (λ s. has s allowed_scopes) t.scopes (true_of_negated _ only);
      none_forbidden = apart;
      lasting = passed (ltb_ℤ t.issued_at t.expires_at) value_error h7;
    }

-- The scope that a text names has that text as its value.
member_of-value :
    (ss : List CapabilityScope) (text : String) (s : CapabilityScope)
    → member_of ss text ≡ ok s
    → value s ≡ text
unfolding member_of
member_of-value [] text s h = cc
member_of-value (x ∷ ss) text s h = elim (Bool-cases (str_eq (value x) text)) [
  | inl same ↦
      let e : x ≡ s = ok-injective (rw same at h) in
      ap value (sym e) ∙ (eq_iff (value x) text).0 same
  | inr other ↦ member_of-value ss text s (rw other at h)
]

scope_of-value : (text : String) (s : CapabilityScope) → scope_of text ≡ ok s → value s ≡ text
unfolding scope_of
scope_of-value text s h = member_of-value all_scopes text s h

has-value :
    (s x : CapabilityScope) (ss : List CapabilityScope) → value s ≡ value x → has s ss ≡ has x ss
unfolding has
has-value s x [] e = refl
has-value s x (y ∷ ss) e = rw (e, has-value s x ss e) refl

-- A frozenset takes an item that it has no second time.
has-added :
    (s x : CapabilityScope) (ss : List CapabilityScope)
    → has s (if has x ss then ss else x ∷ ss) ≡ (str_eq (value s) (value x) || has s ss)
unfolding has
has-added s x ss = elim (Bool-cases (has x ss)) [
  | inl held ↦ rw held (ground (arith, has-value s x ss, held, eq_iff (value s) (value x)))
  | inr fresh ↦ rw fresh (ground arith)
]

has-scopes_of :
    (ts : List String) (ss : List CapabilityScope) (text : String) (s : CapabilityScope)
    → scopes_of ts ≡ ok ss
    → value s ≡ text
    → has s ss ≡ contains text ts
unfolding scopes_of contains
has-scopes_of [] ss text s h e = rw (← ok-injective h) (unfold has in refl)
has-scopes_of (t ∷ ts) ss text s h e =
    let (x, named, h1) = >>=-eq-ok (scope_of t) _ h in
    let (xs, rest, h2) = >>=-eq-ok (scopes_of ts) _ h1 in
    ap (has s) (sym (ok-injective h2))
    ∙ has-added s x xs
    ∙ rw (e, scope_of-value t x named, has-scopes_of ts xs text s rest e) refl

-- A text among those that a frozenset was made of names a scope.
contains-scope_of :
    (ts : List String) (ss : List CapabilityScope) (text : String)
    → scopes_of ts ≡ ok ss
    → contains text ts ≡ true
    → (s : CapabilityScope) × (scope_of text ≡ ok s)
unfolding scopes_of contains
contains-scope_of [] ss text h c = cc
contains-scope_of (t ∷ ts) ss text h c =
    let (x, named, h1) = >>=-eq-ok (scope_of t) _ h in
    let (xs, rest, h2) = >>=-eq-ok (scopes_of ts) _ h1 in
    elim (Bool-cases (str_eq text t)) [
      | inl same ↦ (x, ap scope_of ((eq_iff text t).0 same) ∙ named)
      | inr other ↦ contains-scope_of ts xs text rest (ground arith)
    ]

active_tests :
    (before held : Bool) → ((not (not before) && held) ≡ true) ↔ ((held ≡ true) × (before ≡ true))
active_tests before held = ground arith

module _ (r : CreateRequest) (ss : List CapabilityScope) (now : ℤ) (uuid scope : String)
    (named : scopes_of r.scopes ≡ ok ss) where
  new_token_allows :
      (at : ℤ)
      → (allows (token_of r ss now uuid) scope at ≡ ok true)
        ↔ ((contains scope r.scopes ≡ true) × (ltb_ℤ at (now +ℤ r.ttl_seconds) ≡ true))
  unfolding allows is_active is_expired token_of
  new_token_allows at = (
    λ h.
        let (s, n, h1) = >>=-eq-ok (scope_of scope) _ h in
        let (held, before) =
          (active_tests (ltb_ℤ at (now +ℤ r.ttl_seconds)) (has s ss)).0 (ok-injective h1) in
        (sym (has-scopes_of r.scopes ss scope s named (scope_of-value scope s n)) ∙ held, before),
    λ (held, before).
        let (s, n) = contains-scope_of r.scopes ss scope named held in
        bind-ok _ n
        ∙ ap ok (
            (active_tests (ltb_ℤ at (now +ℤ r.ttl_seconds)) (has s ss)).1
              (has-scopes_of r.scopes ss scope s named (scope_of-value scope s n) ∙ held, before)),
  )

revoke-allows :
    (t : CapabilityToken) (revocation_id : Option String) (id scope : String) (revoked_at at : ℤ)
    → allows (revoke t revocation_id id revoked_at) scope at ≢ ok true
unfolding allows is_active revoke
revoke-allows t revocation_id id scope revoked_at at e =
    let (s, n, e1) = >>=-eq-ok (scope_of scope) _ e in cc (ok-injective e1)

-- A token that `create` returns has the invariants of least privilege; it allows a scope at a time
-- exactly when the scope was requested and the time is before the end of its time to live; and
-- once it is revoked it allows no scope at any time.
pub create-allows :
    (r : CreateRequest) (now : ℤ) (uuid : String) (t : CapabilityToken)
    → create r now uuid ≡ ok t
    → LeastPrivilege t
      × ((scope : String) (at : ℤ)
          → (allows t scope at ≡ ok true)
            ↔ ((contains scope r.scopes ≡ true) × (ltb_ℤ at (now +ℤ r.ttl_seconds) ≡ true)))
      × ((revocation_id : Option String) (id scope : String) (revoked_at at : ℤ)
          → allows (revoke t revocation_id id revoked_at) scope at ≢ ok true)
unfolding create
create-allows r now uuid t h =
    let (ss, named, h1) = >>=-eq-ok (scopes_of r.scopes) _ h in
    let (checked, invariants, h2) = >>=-eq-ok (assert_invariants (token_of r ss now uuid)) _ h1 in
    let made : token_of r ss now uuid ≡ t = ok-injective h2 in
    rw (← made) (
      assert_invariants-LeastPrivilege (token_of r ss now uuid) invariants,
      λ scope at. new_token_allows r ss now uuid scope named at,
      revoke-allows (token_of r ss now uuid),
    )
