-- ===== src/Merkle/Proofs.antt =====
-- The proofs that `generate_proof` makes, under `verify_merkle_proof`
-- (src/sovereignty_core/audit/merkle.py).
use sovereignty_ai_gate.Prelude.{
  ℕ, ◌≤◌, ◌<◌, String, ◌≡◌, refl, true, List, ◌∷◌, map, some, arith, ok, err, length, get_elem?,
  get_elem?-some, get_elem?-none, length-map, index_error,
}
use text.Mathlib.TextPositions.{eq_refl}
use sovereignty_ai_gate.Prelude.Int.{pos, negsuc}
use sovereignty_ai_gate.Utils.Json.{Value}
use sovereignty_ai_gate.Platform.{Platform}
use sovereignty_ai_gate.Merkle.{
  MerkleProof, MerkleTree, tail, root_of, hash_entry, build_merkle_from_scarlog, levels_from,
  build_merkle_levels, verify_merkle_proof, generate_proof,
}
use sovereignty_ai_gate.Merkle.Inclusion.{PathTo, path_build}

module _ (p : Platform) where
  -- What is promised of a proof for one position of a tree.
  pub record Proves (tree : MerkleTree) (index : ℕ) : Type 0 where
    pub proof : MerkleProof
    pub generated : generate_proof tree (pos index) ≡ ok proof
    pub accepted : verify_merkle_proof p proof ≡ ok true
    pub same_root : proof.root ≡ tree.root
    pub leaf : get_elem? tree.leaves index ≡ some proof.leaf_hash

  PathTo-Proves :
      (tree : MerkleTree) (index : ℕ) (node : String)
      → get_elem? tree.leaves index ≡ some node
      → PathTo p tree.levels index node
      → tree.root ≡ root_of tree.levels
      → Proves tree index
  unfolding generate_proof verify_merkle_proof
  PathTo-Proves tree index node at path root = record {
    proof = record { leaf_hash = node; siblings = path.siblings; root = tree.root };
    generated = rw (at, path.recorded, generate_proof) refl;
    accepted = rw (path.applied, root, eq_refl) refl;
    same_root = refl;
    leaf = at;
  }

  -- A tree is built from every log that is not empty. For each position of the log, and for no other
  -- index, negative ones included, `generate_proof` makes a proof; it carries the hash of the entry at
  -- that position and the root of the tree, and `verify_merkle_proof` accepts it.
  pub generate_proof-verify :
      (entry : Value) (entries : List Value)
      → (tree : MerkleTree) × (build_merkle_from_scarlog p (entry ∷ entries) ≡ ok tree)
        × (tree.leaves ≡ map (hash_entry p) (entry ∷ entries))
        × ((index : ℕ) → index < length (entry ∷ entries) → Proves tree index)
        × ((index : ℕ)
            → length (entry ∷ entries) ≤ index
            → generate_proof tree (pos index) ≡ err index_error)
        × ((n : ℕ) → generate_proof tree (negsuc n) ≡ err index_error)
  unfolding build_merkle_from_scarlog build_merkle_levels generate_proof
  generate_proof-verify entry entries =
      let leaves = map (hash_entry p) (entry ∷ entries) in
      let levels = leaves ∷ tail (levels_from p (length leaves) leaves) in
      let tree : MerkleTree = record {
        root = root_of levels;
        leaves = leaves;
        levels = levels;
        algorithm = "SHA3-512";
      } in
      let same_length : length leaves ≡ length (entry ∷ entries) =
        length-map (hash_entry p) (entry ∷ entries) in
      (
        tree,
        refl,
        refl,
        (λ index inside.
            let (node, at) = get_elem?-some leaves index (omega (arith, same_length)) in
            PathTo-Proves tree index node at
              (path_build p (hash_entry p entry) (map (hash_entry p) entries) index node
                (omega (arith, same_length)) at)
              refl),
        (λ index outside.
            rw (get_elem?-none leaves index (omega (arith, same_length)), generate_proof) refl),
        (λ n. refl),
      )
