-- ===== src/Delegation/Tests.antt =====
-- Runs of src/sia/delegation/authorizer.py on small tokens.
use sovereignty_ai_gate.Prelude.{
  ℕ, ◌≡◌, ◌≢◌, refl, true, false, [], ◌∷◌, some, none, arith, ok, err, delegation_scope, contains,
  eq_iff,
}
use sovereignty_ai_gate.Platform.Toy.{toy}
use sovereignty_ai_gate.Delegation.{
  DelegationToken, Authorizer, no_tokens, validate_scope_subset, has_excess, is_expired, issue,
  authorize,
}
use sovereignty_ai_gate.Delegation.Scope.{
  permits, validate_scope_subset-permits, wildcard_token_authorized,
}

abbrev pub token : DelegationToken
token = record {
  token_id = "t1";
  grantor_id = "owner";
  grantee_id = "alice";
  scope = "*" ∷ [];
  issued_at = "monday";
  expires_at = some "friday";
  depth = 1;
  revoked = false;
  parent_id = none;
  schema_version = "1.0";
}

too_wide : validate_scope_subset ("write" ∷ []) ("read" ∷ []) ≡ err delegation_scope
unfolding validate_scope_subset has_excess contains
too_wide = refl

narrow : validate_scope_subset ("read" ∷ []) ("read" ∷ "write" ∷ []) ≡ ok tt
unfolding validate_scope_subset has_excess contains
narrow = refl

no_wildcard : contains "*" ("read" ∷ []) ≡ false
unfolding contains
no_wildcard = refl

reads : permits ("read" ∷ []) "read" ≡ true
unfolding permits contains
reads = refl

in_time : is_expired toy 3 token ≡ ok false
unfolding is_expired
in_time = refl

validate_scope_subset-permits_example : permits ("read" ∷ "write" ∷ []) "read" ≡ true
validate_scope_subset-permits_example =
    validate_scope_subset-permits ("read" ∷ []) ("read" ∷ "write" ∷ []) "read" narrow no_wildcard
      reads

token_named : token.token_id ≢ ""
token_named e = cc ((eq_iff "t1" "").1 e)

wildcard_token_authorized_example :
    (a' : Authorizer) × (place : ℕ) × (issue no_tokens token (some ("read" ∷ [])) ≡ ok (a', place))
    × (authorize toy 3 a' "t1" "admin" ≡ ok tt)
wildcard_token_authorized_example =
    wildcard_token_authorized toy 3 no_tokens token ("read" ∷ []) "admin" refl token_named
      (omega arith) refl in_time
