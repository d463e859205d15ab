-- ===== src/Delegation.antt =====
-- src/sia/delegation/models.py and src/sia/delegation/authorizer.py: delegation tokens and their
-- authorizer. A token is a mutable object that the authorizer and its clients share, so tokens live
-- on a heap and are named by their position in it. `now` is the clock's reading.
pub mod Heap
pub mod Scope
mod Tests
use sovereignty_ai_gate.Prelude.{
  ℕ, zero, suc, String, Bool, true, false, not, ◌&&◌, ◌||◌, List, [], ◌∷◌, ◌++◌, Option, none, some,
  Result, ok, err, ◌>>=◌, ◌>>◌, raise_if, require, delegation_invalid, delegation_expired,
  delegation_revoked, delegation_scope, delegation_chain_too_deep, key_error, length, get_elem?,
  set, contains, Dict, lookup, insert, values, str_eq, ltb, if◌then◌else◌,
}
use sovereignty_ai_gate.Platform.{Platform}

pub record DelegationToken : Type 0 where
  pub token_id : String
  pub grantor_id : String
  pub grantee_id : String
  pub scope : List String
  pub issued_at : String
  pub expires_at : Option String
  pub depth : ℕ
  pub revoked : Bool
  pub parent_id : Option String
  pub schema_version : String

abbrev pub max_depth : ℕ
max_depth = 4

module _ (p : Platform) (now : ℕ) where
  unfoldable pub is_expired : DelegationToken → Result Bool
  is_expired t = elim t.expires_at [
    | none ↦ ok false
    | some expires_at ↦ p.fromisoformat expires_at >>= λ expiry. ok (ltb expiry now)
  ]

  unfoldable pub is_valid : DelegationToken → Result Bool
  unfolding is_expired
  is_valid t = if t.revoked then ok false else is_expired t >>= λ expired. ok (not expired)

pub record Authorizer : Type 0 where
  pub heap : List DelegationToken
  pub tokens : Dict ℕ

-- `DelegationAuthorizer()`
abbrev pub no_tokens : Authorizer
no_tokens = record { heap = []; tokens = [] }

-- `_validate_structure`: `to_dict` always has the required keys, so only the token's id can fail.
unfoldable pub validate_structure : DelegationToken → Result (Unit {0})
validate_structure t = raise_if (str_eq t.token_id "") delegation_invalid

-- `set(child_scope) - set(parent_scope) - {"*"}` holds something.
unfoldable pub has_excess : List String → List String → Bool
has_excess [] parent_scope = false
has_excess (s ∷ r) parent_scope =
    (not (contains s parent_scope) && not (str_eq s "*")) || has_excess r parent_scope

unfoldable pub validate_scope_subset : List String → List String → Result (Unit {0})
unfolding has_excess
validate_scope_subset child_scope parent_scope =
    if contains "*" parent_scope
    then ok tt
    else raise_if (has_excess child_scope parent_scope) delegation_scope

-- `if parent_scope is not None: _validate_scope_subset(...)`
unfoldable pub validate_parent_scope : List String → Option (List String) → Result (Unit {0})
unfolding validate_scope_subset
validate_parent_scope scope none = ok tt
validate_parent_scope scope (some parent_scope) = validate_scope_subset scope parent_scope

-- `DelegationAuthorizer.issue` of a new object: the authorizer after it, and the token's place.
unfoldable pub issue : Authorizer → DelegationToken → Option (List String) → Result (Authorizer × ℕ)
unfolding validate_structure validate_parent_scope
issue a token parent_scope = do
  validate_structure token
  validate_parent_scope token.scope parent_scope
  raise_if (ltb max_depth token.depth) delegation_chain_too_deep
  ok (
    record { heap = a.heap ++ token ∷ []; tokens = insert token.token_id (length a.heap) a.tokens },
    length a.heap,
  )

-- The object at a place. Every place that is handed out is on the heap.
unfoldable pub deref : List DelegationToken → ℕ → Result DelegationToken
deref heap place = require key_error (get_elem? heap place)

-- `_get`
unfoldable pub get_place : Authorizer → String → Result ℕ
get_place a token_id = require delegation_invalid (lookup token_id a.tokens)

-- `token.revoked = True` on the object at a place.
unfoldable pub revoke_at : List DelegationToken → ℕ → List DelegationToken
revoke_at [] place = []
revoke_at (t ∷ heap) zero = record t { revoked = true } ∷ heap
revoke_at (t ∷ heap) (suc place) = t ∷ revoke_at heap place

-- `DelegationAuthorizer.revoke`
unfoldable pub revoke : Authorizer → String → Result Authorizer
unfolding get_place revoke_at
revoke a token_id =
    get_place a token_id >>= λ place. ok (record a { heap = revoke_at a.heap place })

module _ (p : Platform) (now : ℕ) where
  -- The checks of `authorize` on the token that it found.
  unfoldable pub authorize_token : DelegationToken → String → Result (Unit {0})
  unfolding is_expired
  authorize_token token action = do
    raise_if token.revoked delegation_revoked
    expired ← is_expired p now token
    raise_if expired delegation_expired
    raise_if (not (contains action token.scope) && not (contains "*" token.scope)) delegation_scope

  -- `DelegationAuthorizer.authorize`
  unfoldable pub authorize : Authorizer → String → String → Result (Unit {0})
  unfolding get_place deref authorize_token
  authorize a token_id action =
      get_place a token_id >>= λ place. deref a.heap place >>= λ token. authorize_token token action
