-- ===== src/Merkle/Levels.antt =====
-- The shape of the levels of `_build_merkle_levels` (src/sovereignty_core/audit/merkle.py): how
-- padding and pairing change lengths and positions.
use sovereignty_ai_gate.Prelude.{
  ℕ, zero, suc, ◌+◌, ◌/◌, ◌%◌, ◌≤◌, ◌<◌, String, ◌≡◌, refl, inl, inr, List, [], ◌∷◌, some, arith,
  length, get_elem?, last_or, length-append, get_elem?-append_left, Bool-cases, ◌==◌, ltb, ltb→lt,
  lt→ltb,
}
use sovereignty_ai_gate.Platform.{Platform}
use sovereignty_ai_gate.Merkle.{pad, next_level, hash_pair, levels_from, root_of, tail}

pub length-pad : (level : List String) → length (pad level) ≡ length level + length level % 2
unfolding pad
length-pad level = ground (arith, length-append level (last_or "" level ∷ []))

pub pad-pad : (level : List String) → pad (pad level) ≡ pad level
pad-pad level = elim (Bool-cases (length (pad level) % 2 == 0)) [
  | inl e ↦ unfold pad in rw e refl
  | inr e ↦ absurd (ground (arith, length-pad level))
]

pub get_elem?-pad :
    (level : List String) (i : ℕ) → i < length level → get_elem? (pad level) i ≡ get_elem? level i
unfolding pad
get_elem?-pad level i h = ground (arith, get_elem?-append_left level (last_or "" level ∷ []) i h)

module _ (p : Platform) where
  pub length-next_level : (level : List String) → length (next_level p level) ≡ length level / 2
  unfolding next_level
  length-next_level [] = refl
  length-next_level (x ∷ []) = refl
  length-next_level (x ∷ y ∷ r) = omega (arith, length-next_level r)

  -- A pair of neighbours at an even position has its parent at half that position.
  pub get_elem?-next_level :
      (level : List String) (i : ℕ) (a b : String)
      → i % 2 ≡ 0
      → get_elem? level i ≡ some a
      → get_elem? level (suc i) ≡ some b
      → get_elem? (next_level p level) (i / 2) ≡ some (hash_pair p a b)
  unfolding next_level
  get_elem?-next_level [] i a b e ha hb = cc
  get_elem?-next_level (x ∷ []) i a b e ha hb = cc
  get_elem?-next_level (x ∷ y ∷ r) zero a b e ha hb = ground arith
  get_elem?-next_level (x ∷ y ∷ r) (suc zero) a b e ha hb = absurd (omega arith)
  get_elem?-next_level (x ∷ y ∷ r) (suc (suc i)) a b e ha hb =
      let half : suc (suc i) / 2 ≡ suc (i / 2) = omega arith in
      rw half (get_elem?-next_level r i a b (omega arith) ha hb)

  -- One round shortens a list of two or more, and leaves something.
  pub length-next_level-pad :
      (level : List String)
      → 1 < length level
      → (length (next_level p (pad level)) < length level) × (0 < length (next_level p (pad level)))
  length-next_level-pad level h = omega (arith, length-next_level (pad level), length-pad level)

  -- With fuel there is a level.
  levels_from-nonempty :
      (fuel : ℕ) (level : List String)
      → (l : List String) × (r : List (List String)) × (levels_from p (suc fuel) level ≡ l ∷ r)
  unfolding levels_from
  levels_from-nonempty fuel level = elim (Bool-cases (ltb 1 (length level))) [
    | inl more ↦ (pad level, levels_from p fuel (next_level p (pad level)), rw more refl)
    | inr done ↦ (level, [], rw done refl)
  ]

  -- The levels above a list of two or more are not empty.
  pub levels_above :
      (fuel : ℕ) (level : List String)
      → length level ≤ suc fuel
      → 1 < length level
      → (l : List String) × (r : List (List String)) × (levels_from p fuel
            (next_level p (pad level))
          ≡ l ∷ r)
  levels_above zero level fits more = absurd (omega arith)
  levels_above (suc fuel) level fits more = levels_from-nonempty fuel (next_level p (pad level))

  -- With a list of two or more, the root is found above its first level.
  pub root_of-levels_from :
      (fuel : ℕ) (level : List String)
      → length level ≤ suc fuel
      → 1 < length level
      → root_of (levels_from p (suc fuel) level)
        ≡ root_of (levels_from p fuel (next_level p (pad level)))
  unfolding levels_from root_of
  root_of-levels_from fuel level fits more =
      let (l, r, e) = levels_above fuel level fits more in rw (lt→ltb _ _ more, e) refl

  -- More fuel than the list's length changes nothing.
  pub levels_from_fuel :
      (f g : ℕ) (level : List String)
      → length level ≤ f
      → length level ≤ g
      → 0 < length level
      → levels_from p f level ≡ levels_from p g level
  unfolding levels_from
  levels_from_fuel zero g level hf hg pos_length = absurd (omega arith)
  levels_from_fuel (suc f) zero level hf hg pos_length = absurd (omega arith)
  levels_from_fuel (suc f) (suc g) level hf hg pos_length =
      elim (Bool-cases (ltb 1 (length level))) [
        | inl more ↦
            rw
              (
                more,
                levels_from_fuel f g (next_level p (pad level))
                    (omega (arith, length-next_level-pad level, ltb→lt _ _ more))
                    (omega (arith, length-next_level-pad level, ltb→lt _ _ more))
                    (omega (arith, length-next_level-pad level, ltb→lt _ _ more)),
              )
              refl
        | inr done ↦ rw done refl
      ]

  -- Storing the first level unpadded does not change the root.
  pub root_of_build :
      (x : String) (xs : List String)
      → root_of ((x ∷ xs) ∷ tail (levels_from p (length (x ∷ xs)) (x ∷ xs)))
        ≡ root_of (levels_from p (length (x ∷ xs)) (x ∷ xs))
  unfolding levels_from root_of tail
  root_of_build x [] = refl
  root_of_build x (y ∷ ys) =
      let (l, r, e) = levels_above (length (y ∷ ys)) (x ∷ y ∷ ys) (omega arith) (omega arith) in
      rw (lt→ltb 1 (length (x ∷ y ∷ ys)) (omega arith), e) refl
