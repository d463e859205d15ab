-- ===== src/Merkle.antt =====
-- src/sovereignty_core/audit/merkle.py: the Merkle tree of an audit log, inclusion proofs and their
-- verification.
--
-- `_build_merkle_levels` keeps its first level apart from the list that it pads, and appends every
-- later level itself: padding such a level by `current.append` pads the stored level too. So the
-- stored levels are `leaves`, then padded levels, then the root alone.
pub mod Levels
pub mod Inclusion
pub mod Proofs
pub mod Binding
pub mod Padding
mod Tests
use Prim.Native.String.{◌++◌ as str_append}
use sovereignty_ai_gate.Prelude.{
  ℕ, zero, suc, ◌+◌, ◌-◌, ◌/◌, ◌%◌, String, Bool, List, [], ◌∷◌, ◌++◌, map, none, some, Result, ok,
  err, ◌>>=◌, require, merkle_error, index_error, length, get_elem?, last_or, ltb, ◌==◌, str_eq,
  if◌then◌else◌,
}
use sovereignty_ai_gate.Prelude.Int.{ℤ, pos, negsuc}
use sovereignty_ai_gate.Platform.{Platform}
use sovereignty_ai_gate.Utils.{canonical_bytes}
use sovereignty_ai_gate.Audit.{AuditLedger, to_dict}
use sovereignty_ai_gate.Utils.Json.{Value}

pub record MerkleProof : Type 0 where
  pub leaf_hash : String
  pub siblings : List (String × String)
  pub root : String

pub record MerkleTree : Type 0 where
  pub root : String
  pub leaves : List String
  pub levels : List (List String)
  pub algorithm : String

-- `current.append(current[-1])` where the length is odd.
unfoldable pub pad : List String → List String
pad level = if length level % 2 == 0 then level else level ++ last_or "" level ∷ []

-- `levels[:-1]`
unfoldable pub drop_last : List (List String) → List (List String)
drop_last [] = []
drop_last (x ∷ []) = []
drop_last (x ∷ y ∷ r) = x ∷ drop_last (y ∷ r)

-- `levels[1:]`
unfoldable pub tail : List (List String) → List (List String)
tail [] = []
tail (x ∷ r) = r

abbrev head_or : String → List String → String
head_or d [] = d
head_or d (x ∷ xs) = x

-- `levels[-1][0]`
unfoldable pub root_of : List (List String) → String
root_of levels = head_or "" (last_or [] levels)

module _ (p : Platform) where
  unfoldable pub hash_entry : Value → String
  hash_entry entry = p.sha3_512 (canonical_bytes p entry)

  unfoldable pub hash_pair : String → String → String
  hash_pair left right = p.sha3_512 (p.encode (str_append left right))

  -- The comprehension over `range(0, len(current), 2)`, on a list of even length.
  unfoldable pub next_level : List String → List String
  next_level [] = []
  next_level (x ∷ []) = []
  next_level (x ∷ y ∷ r) = hash_pair x y ∷ next_level r

  -- The `while` loop on fuel: the levels from `current` on, as they are stored at the end. Each
  -- round halves the list, so its length is fuel enough.
  unfoldable pub levels_from : ℕ → List String → List (List String)
  unfolding pad
  levels_from zero current = []
  levels_from (suc fuel) current =
      let padded = pad current in
      let rest = levels_from fuel (next_level padded) in
      if ltb 1 (length current) then padded ∷ rest else current ∷ []

  unfoldable pub build_merkle_levels : List String → Result (List (List String))
  unfolding tail
  build_merkle_levels [] = err merkle_error
  build_merkle_levels leaves = ok (leaves ∷ tail (levels_from (length leaves) leaves))

  unfoldable pub build_merkle_from_scarlog : List Value → Result MerkleTree
  unfolding root_of
  build_merkle_from_scarlog [] = err merkle_error
  build_merkle_from_scarlog (entry ∷ entries) =
      let leaves = map hash_entry (entry ∷ entries) in
      build_merkle_levels leaves >>= λ levels.
      ok
        (record { root = root_of levels; leaves = leaves; levels = levels; algorithm = "SHA3-512" })

  unfoldable pub build_merkle_from_audit_ledger : AuditLedger → Result MerkleTree
  unfolding build_merkle_from_scarlog
  build_merkle_from_audit_ledger [] = err merkle_error
  build_merkle_from_audit_ledger (e ∷ es) = build_merkle_from_scarlog (map to_dict (e ∷ es))

  -- One round of the loop of `verify_merkle_proof`.
  unfoldable pub combine : String → String → String → Result String
  combine direction sibling current =
      if str_eq direction "RIGHT"
      then ok (hash_pair current sibling)
      else if str_eq direction "LEFT"
      then ok (hash_pair sibling current)
      else err merkle_error

  unfoldable pub apply_siblings : List (String × String) → String → Result String
  unfolding combine
  apply_siblings [] current = ok current
  apply_siblings ((direction, sibling) ∷ r) current =
      combine direction sibling current >>= apply_siblings r

  unfoldable pub verify_merkle_proof : MerkleProof → Result Bool
  unfolding apply_siblings
  verify_merkle_proof proof =
      apply_siblings proof.siblings proof.leaf_hash >>= λ current. ok (str_eq current proof.root)

-- `padded[sibling_pos]`
unfoldable pub sibling_at : List String → ℕ → Result (String × String)
sibling_at padded position =
    if position % 2 == 0
    then (require index_error (get_elem? padded (position + 1)) >>= λ s. ok ("RIGHT", s))
    else (require index_error (get_elem? padded (position - 1)) >>= λ s. ok ("LEFT", s))

-- The loop of `generate_proof` over `tree.levels[:-1]`.
unfoldable pub siblings_from : List (List String) → ℕ → Result (List (String × String))
unfolding pad sibling_at
siblings_from [] position = ok []
siblings_from (level ∷ r) position =
    let rest = siblings_from r (position / 2) in
    sibling_at (pad level) position >>= λ s. rest >>= λ ss. ok (s ∷ ss)

unfoldable pub generate_proof : MerkleTree → ℤ → Result MerkleProof
unfolding siblings_from drop_last
generate_proof tree (negsuc n) = err index_error
generate_proof tree (pos index) = require index_error (get_elem? tree.leaves index) >>= λ leaf.
    siblings_from (drop_last tree.levels) index >>= λ siblings.
    ok (record { leaf_hash = leaf; siblings = siblings; root = tree.root })
