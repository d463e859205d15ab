-- ===== src/Merkle/Padding.antt =====
-- Logs of odd length, whose last node `_build_merkle_levels` of
-- src/sovereignty_core/audit/merkle.py duplicates.
use sovereignty_ai_gate.Prelude.{
  suc, ◌+◌, ◌%◌, ◌<◌, String, ◌≡◌, refl, sym, ap, ◌∙◌, List, [], ◌∷◌, ◌++◌, map, arith, ok,
  ok-injective, length, length-map, last_or,
}
use sovereignty_ai_gate.Platform.{Platform}
use sovereignty_ai_gate.Utils.Json.{Value}
use sovereignty_ai_gate.Merkle.{
  MerkleTree, pad, root_of, hash_entry, next_level, levels_from, build_merkle_levels,
  build_merkle_from_scarlog,
}
use sovereignty_ai_gate.Merkle.Levels.{
  length-pad, pad-pad, root_of-levels_from, root_of_build, levels_from_fuel,
}

module _ (p : Platform) where
  -- A list and its padding have the same root, with fuel enough for both.
  root_of-pad :
      (level : List String)
      → 1 < length level
      → root_of (levels_from p (length level) level)
        ≡ root_of (levels_from p (length (pad level)) (pad level))
  root_of-pad [] more = elim more [ ]
  root_of-pad (x ∷ xs) more =
      let fuel = length (pad (x ∷ xs)) in
      let up : root_of (levels_from p (suc fuel) (x ∷ xs))
          ≡ root_of (levels_from p (suc fuel) (pad (x ∷ xs))) =
        root_of-levels_from p fuel (x ∷ xs) (omega (arith, length-pad (x ∷ xs))) more
        ∙ ap (λ l. root_of (levels_from p fuel (next_level p l))) (sym (pad-pad (x ∷ xs)))
        ∙ sym (
            root_of-levels_from p fuel (pad (x ∷ xs)) (omega arith)
              (omega (arith, length-pad (x ∷ xs)))) in
      cc (
        up,
        levels_from_fuel p (length (x ∷ xs)) (suc fuel) (x ∷ xs) (omega arith)
            (omega (arith, length-pad (x ∷ xs))) (omega arith),
        levels_from_fuel p fuel (suc fuel) (pad (x ∷ xs)) (omega arith) (omega arith)
            (omega (arith, length-pad (x ∷ xs))),
      )

  pad_odd :
      (level : List String) → length level % 2 ≡ 1 → pad level ≡ level ++ last_or "" level ∷ []
  unfolding pad
  pad_odd level odd = rw odd refl

  map-append_last :
      (d : String) (log : List Value) (entry : Value)
      → map (hash_entry p) (log ++ entry ∷ entry ∷ [])
        ≡ map (hash_entry p) (log ++ entry ∷ [])
          ++ last_or d (map (hash_entry p) (log ++ entry ∷ [])) ∷ []
  map-append_last d [] entry = refl
  map-append_last d (x ∷ log) entry =
      ap (λ l. hash_entry p x ∷ l) (map-append_last (hash_entry p x) log entry)

  root_of_built :
      (log : List Value) {tree : MerkleTree}
      → build_merkle_from_scarlog p log ≡ ok tree
      → (tree.root ≡ root_of (levels_from p (length tree.leaves) tree.leaves))
        × (tree.leaves ≡ map (hash_entry p) log)
  unfolding build_merkle_from_scarlog build_merkle_levels
  root_of_built [] e = cc
  root_of_built (a ∷ log) e =
      rw (← ok-injective e) (root_of_build p (hash_entry p a) (map (hash_entry p) log), refl)

  -- A log of three or more entries, an odd number of them, and the same log with its last entry
  -- repeated have trees with one root, though the second has one leaf more.
  pub repeated_entry_same_root :
      (log : List Value) (entry : Value) {tree tree' : MerkleTree}
      → length (log ++ entry ∷ []) % 2 ≡ 1
      → 1 < length (log ++ entry ∷ [])
      → build_merkle_from_scarlog p (log ++ entry ∷ []) ≡ ok tree
      → build_merkle_from_scarlog p (log ++ entry ∷ entry ∷ []) ≡ ok tree'
      → (tree'.root ≡ tree.root) × (length tree'.leaves ≡ length tree.leaves + 1)
  repeated_entry_same_root log entry odd more e e' =
      let xs = map (hash_entry p) (log ++ entry ∷ []) in
      let (root, leaves) = root_of_built (log ++ entry ∷ []) e in
      let (root', leaves') = root_of_built (log ++ entry ∷ entry ∷ []) e' in
      let same_length : length xs ≡ length (log ++ entry ∷ []) =
        length-map (hash_entry p) (log ++ entry ∷ []) in
      let padded : map (hash_entry p) (log ++ entry ∷ entry ∷ []) ≡ pad xs =
        map-append_last "" log entry ∙ sym (pad_odd xs (omega (arith, same_length))) in
      (
        rw (root, root', leaves, leaves', padded)
            (sym (root_of-pad xs (omega (arith, same_length)))),
        rw (leaves, leaves', padded) (omega (arith, length-pad xs, same_length)),
      )
