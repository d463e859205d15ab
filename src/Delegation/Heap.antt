-- ===== src/Delegation/Heap.antt =====
-- The heap of delegation tokens (src/sia/delegation/authorizer.py): what revoking one object does
-- to the others.
use sovereignty_ai_gate.Prelude.{
  ℕ, zero, suc, ◌≡◌, refl, true, List, [], ◌∷◌, some, arith, get_elem?,
}
use sovereignty_ai_gate.Delegation.{DelegationToken, revoke_at}

-- A token after some revocations: revoked perhaps, and otherwise the same.
pub record Ages (before after : DelegationToken) : Type 0 where
  pub token_id : after.token_id ≡ before.token_id
  pub grantor_id : after.grantor_id ≡ before.grantor_id
  pub grantee_id : after.grantee_id ≡ before.grantee_id
  pub scope : after.scope ≡ before.scope
  pub expires_at : after.expires_at ≡ before.expires_at
  pub depth : after.depth ≡ before.depth
  pub parent_id : after.parent_id ≡ before.parent_id
  pub stays_revoked : before.revoked ≡ true → after.revoked ≡ true

pub Ages-refl : (t : DelegationToken) → Ages t t
Ages-refl t = ground arith

pub get_elem?-revoke_at :
    (heap : List DelegationToken) (place i : ℕ) (t : DelegationToken)
    → get_elem? heap i ≡ some t
    → (t' : DelegationToken) × (get_elem? (revoke_at heap place) i ≡ some t') × Ages t t'
unfolding revoke_at
get_elem?-revoke_at [] place i t h = cc
get_elem?-revoke_at (x ∷ heap) zero zero t h = (record x { revoked = true }, refl, ground arith)
get_elem?-revoke_at (x ∷ heap) zero (suc i) t h = (t, h, Ages-refl t)
get_elem?-revoke_at (x ∷ heap) (suc place) zero t h = (t, h, Ages-refl t)
get_elem?-revoke_at (x ∷ heap) (suc place) (suc i) t h = get_elem?-revoke_at heap place i t h

pub get_elem?-revoke_at_self :
    (heap : List DelegationToken) (place : ℕ) (t : DelegationToken)
    → get_elem? heap place ≡ some t
    → get_elem? (revoke_at heap place) place ≡ some (record t { revoked = true })
unfolding revoke_at
get_elem?-revoke_at_self [] place t h = cc
get_elem?-revoke_at_self (x ∷ heap) zero t h = ground arith
get_elem?-revoke_at_self (x ∷ heap) (suc place) t h = get_elem?-revoke_at_self heap place t h
