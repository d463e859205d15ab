-- ===== src/Delegation/Scope.antt =====
-- The scope check of src/sia/delegation/authorizer.py, and the wildcard.
use sovereignty_ai_gate.Prelude.{
  ℕ, ◌≤◌, String, ◌≡◌, ◌≢◌, refl, ◌⊎◌, inl, inr, Bool, true, false, ◌||◌, List, [], ◌∷◌, ◌++◌, some,
  ok, arith, contains, length, insert, lookup-insert_self, get_elem?-append_self, str_eq, eq_iff,
  Bool-cases,
}
use sovereignty_ai_gate.Platform.{Platform}
use sovereignty_ai_gate.Delegation.{
  DelegationToken, Authorizer, has_excess, validate_scope_subset, is_expired, max_depth, issue,
  authorize,
}

-- The actions that a scope permits: the test of `authorize`.
unfoldable pub permits : List String → String → Bool
permits scope action = contains action scope || contains "*" scope

has_excess-contains :
    (child parent : List String) (action : String)
    → has_excess child parent ≡ false
    → contains action child ≡ true
    → (contains action parent ≡ true) ⊎ (action ≡ "*")
unfolding has_excess contains
has_excess-contains [] parent action h c = cc
has_excess-contains (s ∷ child) parent action h c = elim (Bool-cases (str_eq action s)) [
  | inr other ↦ has_excess-contains child parent action (ground arith) (ground arith)
  | inl same ↦
      let e : action ≡ s = (eq_iff action s).0 same in
      rw e (elim (Bool-cases (contains s parent)) [
        | inl held ↦ inl held
        | inr missing ↦ inr ((eq_iff s "*").0 (ground arith))
      ])
]

or_true : (b : Bool) → (b || true) ≡ true
or_true b = ground arith

wildcard_absent :
    (child : List String) (action : String)
    → action ≡ "*"
    → contains "*" child ≡ false
    → contains action child ≡ true
    → ⊥
wildcard_absent child action e plain held = cc

-- A child scope that passes the check and does not hold the wildcard permits nothing that the
-- parent's scope does not permit.
pub validate_scope_subset-permits :
    (child parent : List String) (action : String)
    → validate_scope_subset child parent ≡ ok tt
    → contains "*" child ≡ false
    → permits child action ≡ true
    → permits parent action ≡ true
unfolding validate_scope_subset permits
validate_scope_subset-permits child parent action h plain p =
    elim (Bool-cases (contains "*" parent)) [
      | inl wild ↦ rw wild (or_true (contains action parent))
      | inr narrow ↦ elim (has_excess-contains child parent action (ground arith) (ground arith)) [
        | inl held ↦ rw held refl
        | inr star ↦ absurd (wildcard_absent child action star plain (ground arith))
      ]
    ]

has_excess-wildcard : (parent : List String) → has_excess ("*" ∷ []) parent ≡ false
unfolding has_excess
has_excess-wildcard parent = ground arith

-- The wildcard alone passes the check against any parent scope, and permits every action.
pub wildcard_escapes :
    (parent : List String) (action : String)
    → (validate_scope_subset ("*" ∷ []) parent ≡ ok tt) × (permits ("*" ∷ []) action ≡ true)
unfolding validate_scope_subset has_excess permits contains
wildcard_escapes parent action = (ground arith, ground arith)

module _ (p : Platform) (now : ℕ) where
  -- A token whose scope is the wildcard alone, with an id, no deeper than the maximum, not revoked and
  -- not expired, is issued under any parent scope, however narrow, and is then authorized for every
  -- action.
  pub wildcard_token_authorized :
      (a : Authorizer) (token : DelegationToken) (parent_scope : List String) (action : String)
      → token.scope ≡ "*" ∷ []
      → token.token_id ≢ ""
      → token.depth ≤ max_depth
      → token.revoked ≡ false
      → is_expired p now token ≡ ok false
      → (a' : Authorizer) × (place : ℕ) × (issue a token (some parent_scope) ≡ ok (a', place))
        × (authorize p now a' token.token_id action ≡ ok tt)
  unfolding issue authorize
  wildcard_token_authorized a token parent_scope action wild named shallow live in_time =
      let a' : Authorizer = record {
        heap = a.heap ++ token ∷ [];
        tokens = insert token.token_id (length a.heap) a.tokens;
      } in
      let no_excess : has_excess token.scope parent_scope ≡ false =
        rw wild (has_excess-wildcard parent_scope) in
      let permitted : contains "*" token.scope ≡ true = rw wild (unfold contains in ground arith) in
      (
        a',
        length a.heap,
        ground (arith, eq_iff token.token_id "", no_excess),
        ground (
          arith,
          lookup-insert_self token.token_id (length a.heap) a.tokens,
          get_elem?-append_self a.heap token,
          permitted,
        ),
      )
