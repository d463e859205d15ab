-- ===== src/Merkle/Tests.antt =====
-- Runs of src/sovereignty_core/audit/merkle.py on small logs.
use sovereignty_ai_gate.Prelude.{
  ℕ, ◌+◌, ◌≤◌, ◌<◌, String, ◌≡◌, refl, ◌⊎◌, List, [], ◌∷◌, map, arith, ok, err, index_error, length,
  true,
}
use sovereignty_ai_gate.Prelude.Int.{pos, negsuc}
use sovereignty_ai_gate.Chain.{Clash}
use sovereignty_ai_gate.Platform.Toy.{toy, chars, toy-IsTextual, even_digest, odd_digest}
use sovereignty_ai_gate.Utils.{canonical_bytes, canonicalize}
use sovereignty_ai_gate.Utils.Json.{Value, bool, null, str, count}
use sovereignty_ai_gate.Merkle.{
  MerkleTree, build_merkle_from_scarlog, build_merkle_levels, hash_entry, hash_pair, levels_from,
  next_level, root_of, tail, pad, generate_proof,
}
use sovereignty_ai_gate.Merkle.Proofs.{Proves, generate_proof-verify}
use sovereignty_ai_gate.Merkle.Binding.{SameLeaf, LevelClash, merkle_root_binding}
use sovereignty_ai_gate.Merkle.Padding.{repeated_entry_same_root}

abbrev log : List Value
log = bool true ∷ null ∷ count 7 ∷ []

abbrev tree_of : List String → List (List String) → MerkleTree
tree_of leaves levels = record {
  root = root_of levels;
  leaves = leaves;
  levels = levels;
  algorithm = "SHA3-512";
}

abbrev log_tree : MerkleTree
log_tree =
    let leaves = map (hash_entry toy) log in
    tree_of leaves (leaves ∷ tail (levels_from toy 3 leaves))

log_built : build_merkle_from_scarlog toy log ≡ ok log_tree
unfolding build_merkle_from_scarlog build_merkle_levels
log_built = refl

abbrev padded_tree : MerkleTree
padded_tree =
    let leaves = map (hash_entry toy) (bool true ∷ null ∷ count 7 ∷ count 7 ∷ []) in
    tree_of leaves (leaves ∷ tail (levels_from toy 4 leaves))

padded_built :
    build_merkle_from_scarlog toy (bool true ∷ null ∷ count 7 ∷ count 7 ∷ []) ≡ ok padded_tree
unfolding build_merkle_from_scarlog build_merkle_levels
padded_built = refl

levels_of_two :
    levels_from toy 2 (odd_digest ∷ even_digest ∷ [])
    ≡ (odd_digest ∷ even_digest ∷ []) ∷ (even_digest ∷ []) ∷ []
unfolding levels_from pad next_level hash_pair chars
levels_of_two = refl

negative_index : generate_proof log_tree (negsuc 0) ≡ err index_error
unfolding generate_proof
negative_index = refl

generate_proof-verify_example :
    (tree : MerkleTree) × (build_merkle_from_scarlog toy log ≡ ok tree)
    × (tree.leaves ≡ map (hash_entry toy) log)
    × ((index : ℕ) → index < length log → Proves toy tree index)
    × ((index : ℕ) → length log ≤ index → generate_proof tree (pos index) ≡ err index_error)
    × ((n : ℕ) → generate_proof tree (negsuc n) ≡ err index_error)
generate_proof-verify_example = generate_proof-verify toy (bool true) (null ∷ count 7 ∷ [])

-- Two logs whose roots are one, as the toy digest does not tell their entries apart.
abbrev one_log : List Value
one_log = str "ab" ∷ null ∷ []

abbrev other_log : List Value
other_log = str "ac" ∷ null ∷ []

abbrev one_tree : List Value → MerkleTree
one_tree entries =
    let leaves = map (hash_entry toy) entries in
    tree_of leaves (leaves ∷ tail (levels_from toy 2 leaves))

one_built : build_merkle_from_scarlog toy one_log ≡ ok (one_tree one_log)
unfolding build_merkle_from_scarlog build_merkle_levels
one_built = refl

other_built : build_merkle_from_scarlog toy other_log ≡ ok (one_tree other_log)
unfolding build_merkle_from_scarlog build_merkle_levels
other_built = refl

one_root : (one_tree one_log).root ≡ (one_tree other_log).root
unfolding hash_entry canonical_bytes canonicalize chars
one_root = refl

merkle_root_binding_example :
    (map (canonical_bytes toy) one_log ≡ map (canonical_bytes toy) other_log)
    ⊎ Clash (SameLeaf toy) one_log other_log
    ⊎ LevelClash toy (map (hash_entry toy) one_log) (map (hash_entry toy) other_log)
merkle_root_binding_example =
    merkle_root_binding toy toy-IsTextual one_log other_log refl one_built other_built one_root

repeated_entry_same_root_example :
    (padded_tree.root ≡ log_tree.root) × (length padded_tree.leaves ≡ length log_tree.leaves + 1)
repeated_entry_same_root_example =
    repeated_entry_same_root toy (bool true ∷ null ∷ []) (count 7) refl (omega arith) log_built
      padded_built
