-- ===== src/Merkle/Inclusion.antt =====
-- Paths in the stored levels of src/sovereignty_core/audit/merkle.py: the siblings that
-- `generate_proof` records lead from a leaf to the root.
use sovereignty_ai_gate.Prelude.{
  ℕ, zero, suc, ◌+◌, ◌-◌, ◌/◌, ◌%◌, ◌≤◌, ◌<◌, String, ◌≡◌, refl, ◌∙◌, inl, inr, List, [], ◌∷◌, some,
  arith, ok, length, get_elem?, get_elem?-some, Bool-cases, ◌==◌, ltb, ltb→lt,
}
use sovereignty_ai_gate.Platform.{Platform}
use sovereignty_ai_gate.Merkle.{
  pad, drop_last, tail, root_of, hash_pair, next_level, levels_from, combine, apply_siblings,
  sibling_at, siblings_from,
}
use sovereignty_ai_gate.Merkle.Levels.{
  length-pad, pad-pad, get_elem?-pad, get_elem?-next_level, length-next_level-pad,
  length-next_level, levels_above,
}

module _ (p : Platform) where
  -- A recorded sibling leads from a node to its parent on the next level.
  record StepUp (level : List String) (i : ℕ) (node : String) : Type 0 where
    pub direction : String
    pub sibling : String
    pub parent : String
    pub recorded : sibling_at (pad level) i ≡ ok (direction, sibling)
    pub applied : combine p direction sibling node ≡ ok parent
    pub placed : get_elem? (next_level p (pad level)) (i / 2) ≡ some parent

  step_right :
      (level : List String) (i : ℕ) (node : String)
      → i % 2 ≡ 0
      → i < length level
      → get_elem? (pad level) i ≡ some node
      → StepUp level i node
  unfolding sibling_at combine
  step_right level i node even inside at =
      let (s, es) = get_elem?-some (pad level) (suc i) (omega (arith, length-pad level)) in
      let e : i + 1 ≡ suc i = omega arith in
      record {
        direction = "RIGHT";
        sibling = s;
        parent = hash_pair p node s;
        recorded = rw (even, e, es) refl;
        applied = refl;
        placed = get_elem?-next_level p (pad level) i node s even at es;
      }

  -- At an odd position the sibling stands to the left.
  step_left :
      (level : List String) (i : ℕ) (node : String)
      → i % 2 ≡ 0
      → suc i < length level
      → get_elem? (pad level) (suc i) ≡ some node
      → StepUp level (suc i) node
  unfolding sibling_at combine
  step_left level i node even inside at =
      let (s, es) = get_elem?-some (pad level) i (omega (arith, length-pad level)) in
      let odd : suc i % 2 ≡ 1 = omega arith in
      let before : suc i - 1 ≡ i = omega arith in
      let half : suc i / 2 ≡ i / 2 = omega arith in
      record {
        direction = "LEFT";
        sibling = s;
        parent = hash_pair p s node;
        recorded = rw (odd, before, es) refl;
        applied = refl;
        placed = rw half (get_elem?-next_level p (pad level) i s node even es at);
      }

  step_up :
      (level : List String) (i : ℕ) (node : String)
      → i < length level
      → get_elem? level i ≡ some node
      → StepUp level i node
  step_up level zero node inside at =
      step_right level zero node refl inside (get_elem?-pad level zero inside ∙ at)
  step_up level (suc i) node inside at = elim (Bool-cases (i % 2 == 0)) [
    | inl e ↦ step_left level i node (ground arith) inside (get_elem?-pad level (suc i) inside ∙ at)
    | inr e ↦
        step_right level (suc i) node (ground arith) inside
          (get_elem?-pad level (suc i) inside ∙ at)
  ]

  -- The recorded siblings of a position, and what they fold up to.
  pub record PathTo (levels : List (List String)) (i : ℕ) (node : String) : Type 0 where
    pub siblings : List (String × String)
    pub recorded : siblings_from (drop_last levels) i ≡ ok siblings
    pub applied : apply_siblings p siblings node ≡ ok (root_of levels)

  -- A level of one node is the root.
  path_root :
      (level : List String) (i : ℕ) (node : String)
      → length level ≤ 1
      → get_elem? level i ≡ some node
      → PathTo (level ∷ []) i node
  unfolding siblings_from drop_last apply_siblings root_of
  path_root [] i node one at = cc
  path_root (x ∷ []) zero node one at = record {
    siblings = [];
    recorded = refl;
    applied = ground arith;
  }
  path_root (x ∷ []) (suc i) node one at = cc
  path_root (x ∷ y ∷ r) i node one at = absurd (omega arith)

  path_cons :
      (level padded l : List String) (r : List (List String)) (i : ℕ) (node : String)
      → pad level ≡ pad padded
      → (up : StepUp padded i node) → PathTo (l ∷ r) (i / 2) up.parent
      → PathTo (level ∷ l ∷ r) i node
  unfolding siblings_from drop_last apply_siblings root_of
  path_cons level padded l r i node same up path = record {
    siblings = (up.direction, up.sibling) ∷ path.siblings;
    recorded = rw (same, up.recorded, path.recorded) refl;
    applied = rw up.applied path.applied;
  }

  path_cons_above :
      (fuel : ℕ) (level padded : List String) (i : ℕ) (node : String)
      → pad level ≡ pad padded
      → length padded ≤ suc fuel
      → 1 < length padded
      → (up : StepUp padded i node)
      → PathTo (levels_from p fuel (next_level p (pad padded))) (i / 2) up.parent
      → PathTo (level ∷ levels_from p fuel (next_level p (pad padded))) i node
  path_cons_above fuel level padded i node same fits more up path =
      let (l, r, e) = levels_above p fuel padded fits more in
      rw e (path_cons level padded l r i node same up (rw e at path))

  -- Fuel for the list's length is enough: the path from any position reaches the root.
  path_from :
      (fuel : ℕ) (level : List String) (i : ℕ) (node : String)
      → length level ≤ fuel
      → i < length level
      → get_elem? level i ≡ some node
      → PathTo (levels_from p fuel level) i node
  unfolding levels_from
  path_from zero level i node fits inside at = absurd (omega arith)
  path_from (suc fuel) level i node fits inside at = elim (Bool-cases (ltb 1 (length level))) [
    | inl more ↦
        let up = step_up level i node inside at in
        rw more (
          path_cons_above fuel (pad level) level i node (pad-pad level) fits (ltb→lt _ _ more) up (
            path_from fuel (next_level p (pad level)) (i / 2) up.parent
              (omega (arith, length-next_level-pad p level, ltb→lt _ _ more))
              (omega (arith, length-next_level p (pad level), length-pad level, ltb→lt _ _ more))
              up.placed))
    | inr done ↦ rw done (path_root level i node (ground arith) at)
  ]

  -- The first level is stored unpadded; its paths are the same.
  pub path_build :
      (x : String) (xs : List String) (i : ℕ) (node : String)
      → i < length (x ∷ xs)
      → get_elem? (x ∷ xs) i ≡ some node
      → PathTo ((x ∷ xs) ∷ tail (levels_from p (length (x ∷ xs)) (x ∷ xs))) i node
  unfolding levels_from tail
  path_build x xs i node inside at = elim (Bool-cases (ltb 1 (length (x ∷ xs)))) [
    | inl more ↦
        let up = step_up (x ∷ xs) i node inside at in
        rw more (
          path_cons_above (length xs) (x ∷ xs) (x ∷ xs) i node refl (omega arith) (ltb→lt _ _ more)
            up
            (path_from (length xs) (next_level p (pad (x ∷ xs))) (i / 2) up.parent
              (omega (arith, length-next_level-pad p (x ∷ xs), ltb→lt _ _ more))
              (omega
                (arith, length-next_level p (pad (x ∷ xs)), length-pad (x ∷ xs), ltb→lt _ _ more))
              up.placed))
    | inr done ↦ rw done (path_root (x ∷ xs) i node (ground arith) at)
  ]
