-- ===== src/Merkle/Binding.antt =====
-- Logs whose Merkle trees have one root (src/sovereignty_core/audit/merkle.py).
use Prim.Native.String.{count, ◌++◌ as str_append}
use text.Mathlib.TextLemmas.{append_inj}
use native.Mathlib.Decide.{ℕ_discrete}
use sovereignty_ai_gate.Prelude.{
  ℕ, zero, suc, ◌%◌, ◌≤◌, ◌<◌, String, ◌≡◌, ◌≢◌, refl, sym, ◌∙◌, ◌⊎◌, inl, inr, List, [], ◌∷◌, map,
  arith, ok, length, length-map, append_inj_left, Bool-cases, ◌==◌, All, All-append_one,
  All-last_or,
}
use sovereignty_ai_gate.Platform.{Platform, Bytes, IsTextual}
use sovereignty_ai_gate.Chain.{Clash}
use sovereignty_ai_gate.Utils.{canonical_bytes}
use sovereignty_ai_gate.Utils.Json.{Value}
use sovereignty_ai_gate.Merkle.{
  MerkleTree, pad, root_of, hash_entry, hash_pair, next_level, levels_from, build_merkle_levels,
  build_merkle_from_scarlog,
}
use sovereignty_ai_gate.Merkle.Levels.{
  length-pad, length-next_level-pad, length-next_level, root_of-levels_from, root_of_build,
}

Bytes-discrete : Discrete Bytes
Bytes-discrete = hlevel ℕ_discrete

abbrev IsDigest : String → Type 0
IsDigest s = count s ≡ 128

-- Two inputs with one digest.
abbrev pub Collides : Platform → Bytes → Bytes → Type 0
Collides p a b = (a ≢ b) × (p.sha3_512 a ≡ p.sha3_512 b)

-- Entries with one hash and different canonical bytes.
abbrev pub SameLeaf : Platform → Value → Value → Type 0
SameLeaf p a b = Collides p (canonical_bytes p a) (canonical_bytes p b)

-- In one place of two levels, two pairs of nodes are different and have one digest.
pub data PairClash (p : Platform) : List String → List String → Type 0 where
  first :
      {x y z w : String} {r s : List String}
      → Collides p (p.encode (str_append x y)) (p.encode (str_append z w))
      → PairClash p (x ∷ y ∷ r) (z ∷ w ∷ s)
  later :
      {x y z w : String} {r s : List String} → PairClash p r s → PairClash p (x ∷ y ∷ r) (z ∷ w ∷ s)

-- The same, on two levels that are below the root or on two levels above them.
pub data LevelClash (p : Platform) : List String → List String → Type 0 where
  children :
      {xs ys : List String} → 1 < length xs → PairClash p (pad xs) (pad ys) → LevelClash p xs ys
  above :
      {xs ys : List String}
      → 1 < length xs
      → LevelClash p (next_level p (pad xs)) (next_level p (pad ys))
      → LevelClash p xs ys

module _ (p : Platform) (h : IsTextual p) where
  -- Equal digests come of equal inputs, or the inputs collide.
  digest_binding : (a b : Bytes) → p.sha3_512 a ≡ p.sha3_512 b → (a ≡ b) ⊎ Collides p a b
  digest_binding a b e = elim (Bytes-discrete a b) [
    | yes same ↦ inl same
    | no differ ↦ inr (differ, e)
  ]

  hash_pair_binding :
      (a b c d : String)
      → IsDigest a
      → IsDigest c
      → hash_pair p a b ≡ hash_pair p c d
      → ((a ≡ c) × (b ≡ d)) ⊎ Collides p (p.encode (str_append a b)) (p.encode (str_append c d))
  unfolding hash_pair
  hash_pair_binding a b c d da dc e =
      elim (digest_binding (p.encode (str_append a b)) (p.encode (str_append c d)) e) [
        | inl same ↦ inl (append_inj (h.encode_injective _ _ same) (da ∙ sym dc))
        | inr found ↦ inr found
      ]

  next_level-All : (level : List String) → All IsDigest (next_level p level)
  unfolding next_level hash_pair
  next_level-All [] = tt
  next_level-All (x ∷ []) = tt
  next_level-All (x ∷ y ∷ r) = (h.digest_length _, next_level-All r)

  -- Levels of one even length with the same parents are the same.
  next_level_binding :
      (xs ys : List String)
      → length xs % 2 ≡ 0
      → length xs ≡ length ys
      → All IsDigest xs
      → All IsDigest ys
      → next_level p xs ≡ next_level p ys
      → (xs ≡ ys) ⊎ PairClash p xs ys
  unfolding next_level
  next_level_binding [] [] even same dx dy e = inl refl
  next_level_binding [] (y ∷ ys) even same dx dy e = absurd (omega arith)
  next_level_binding (x ∷ []) ys even same dx dy e = absurd (omega arith)
  next_level_binding (x ∷ y ∷ r) [] even same dx dy e = absurd (omega arith)
  next_level_binding (x ∷ y ∷ r) (z ∷ []) even same dx dy e = absurd (omega arith)
  next_level_binding (x ∷ y ∷ r) (z ∷ w ∷ s) even same dx dy e =
      elim (hash_pair_binding x y z w dx.0 dy.0 (cc)) [
        | inr found ↦ inr (first found)
        | inl heads ↦ elim (next_level_binding r s (omega arith) (omega arith) dx.1.1 dy.1.1 (cc)) [
          | inr found ↦ inr (later found)
          | inl tails ↦ inl (cc (heads.0, heads.1))
        ]
      ]

  pad-All : (level : List String) → 0 < length level → All IsDigest level → All IsDigest (pad level)
  unfolding pad
  pad-All level some_item d = elim (Bool-cases (length level % 2 == 0)) [
    | inl e ↦ rw e d
    | inr e ↦ rw e (All-append_one IsDigest level _ d (All-last_or IsDigest level "" some_item d))
  ]

  pad_binding : (xs ys : List String) → length xs ≡ length ys → pad xs ≡ pad ys → xs ≡ ys
  unfolding pad
  pad_binding xs ys same e = elim (Bool-cases (length ys % 2 == 0)) [
    | inl even ↦ (rw (same, even) at e)
    | inr odd ↦ append_inj_left xs ys _ _ same (rw (same, odd) at e)
  ]

  root_binding :
      (fuel : ℕ) (xs ys : List String)
      → length xs ≤ fuel
      → 0 < length xs
      → length xs ≡ length ys
      → All IsDigest xs
      → All IsDigest ys
      → root_of (levels_from p fuel xs) ≡ root_of (levels_from p fuel ys)
      → (xs ≡ ys) ⊎ LevelClash p xs ys
  root_binding zero xs ys fits pos_length same dx dy e = absurd (omega arith)
  root_binding (suc fuel) [] ys fits pos_length same dx dy e = absurd (omega arith)
  root_binding (suc fuel) (x ∷ xs) [] fits pos_length same dx dy e = absurd (omega arith)
  root_binding (suc fuel) (x ∷ []) (y ∷ []) fits pos_length same dx dy e =
      inl (unfold levels_from root_of in cc)
  root_binding (suc fuel) (x ∷ []) (y ∷ w ∷ ys) fits pos_length same dx dy e = absurd (omega arith)
  root_binding (suc fuel) (x ∷ z ∷ xs) (y ∷ []) fits pos_length same dx dy e = absurd (omega arith)
  root_binding (suc fuel) (x ∷ z ∷ xs) (y ∷ w ∷ ys) fits pos_length same dx dy e =
      let a = x ∷ z ∷ xs in
      let b = y ∷ w ∷ ys in
      let parents : (next_level p (pad a) ≡ next_level p (pad b))
          ⊎ LevelClash p (next_level p (pad a)) (next_level p (pad b)) =
        root_binding fuel (next_level p (pad a)) (next_level p (pad b))
          (omega (arith, length-next_level-pad p a)) (omega (arith, length-next_level-pad p a))
          (omega (
            arith,
            length-next_level p (pad a),
            length-next_level p (pad b),
            length-pad a,
            length-pad b,
          ))
          (next_level-All (pad a)) (next_level-All (pad b))
          (sym (root_of-levels_from p fuel a (omega arith) (omega arith))
            ∙ e
            ∙ root_of-levels_from p fuel b (omega arith) (omega arith)) in
      elim parents [
        | inr found ↦ inr (above (omega arith) found)
        | inl higher ↦
            elim (next_level_binding (pad a) (pad b) (omega (arith, length-pad a))
              (omega (arith, length-pad a, length-pad b)) (pad-All a (omega arith) dx)
              (pad-All b (omega arith) dy) higher) [
                | inr found ↦ inr (children (omega arith) found)
                | inl padded ↦ inl (pad_binding a b same padded)
              ]
      ]

  hash_entry-All : (log : List Value) → All IsDigest (map (hash_entry p) log)
  unfolding hash_entry
  hash_entry-All [] = tt
  hash_entry-All (entry ∷ log) = (h.digest_length _, hash_entry-All log)

  leaves_binding :
      (log other : List Value)
      → length log ≡ length other
      → map (hash_entry p) log ≡ map (hash_entry p) other
      → (map (canonical_bytes p) log ≡ map (canonical_bytes p) other) ⊎ Clash (SameLeaf p) log other
  unfolding hash_entry
  leaves_binding [] [] same e = inl refl
  leaves_binding [] (b ∷ other) same e = absurd (omega arith)
  leaves_binding (a ∷ log) [] same e = absurd (omega arith)
  leaves_binding (a ∷ log) (b ∷ other) same e =
      elim (digest_binding (canonical_bytes p a) (canonical_bytes p b) (cc)) [
        | inr found ↦ inr (record {
          index = 0;
          first = a;
          second = b;
          in_first = refl;
          in_second = refl;
          differ = found;
        })
        | inl heads ↦ elim (leaves_binding log other (omega arith) (cc)) [
          | inr c ↦ inr (record {
            index = suc c.index;
            first = c.first;
            second = c.second;
            in_first = c.in_first;
            in_second = c.in_second;
            differ = c.differ;
          })
          | inl tails ↦ inl (cc heads)
        ]
      ]

  -- Where different texts have different UTF-8 bytes and every digest has 128 digits: for two logs of
  -- one length whose trees have the same root, every entry has the canonical bytes of the entry in its
  -- place in the other log; or in one place the two logs hold entries with different canonical bytes
  -- and one digest, or the two trees hold different pairs of nodes with one digest.
  pub merkle_root_binding :
      (log other : List Value) {tree tree' : MerkleTree}
      → length log ≡ length other
      → build_merkle_from_scarlog p log ≡ ok tree
      → build_merkle_from_scarlog p other ≡ ok tree'
      → tree.root ≡ tree'.root
      → (map (canonical_bytes p) log ≡ map (canonical_bytes p) other)
        ⊎ Clash (SameLeaf p) log other
        ⊎ LevelClash p (map (hash_entry p) log) (map (hash_entry p) other)
  unfolding build_merkle_from_scarlog build_merkle_levels
  merkle_root_binding [] other same e e' root = cc
  merkle_root_binding (a ∷ log) [] same e e' root = cc
  merkle_root_binding (a ∷ log) (b ∷ other) {tree} {tree'} same e e' root =
      let xs = map (hash_entry p) (a ∷ log) in
      let ys = map (hash_entry p) (b ∷ other) in
      let same_length : length xs ≡ length ys = omega (
        arith,
        length-map {0, 0} (hash_entry p) (a ∷ log),
        length-map {0, 0} (hash_entry p) (b ∷ other),
      ) in
      let roots : root_of (levels_from p (length xs) xs) ≡ root_of (levels_from p (length xs) ys) =
        cc (
          root_of_build p (hash_entry p a) (map (hash_entry p) log),
          root_of_build p (hash_entry p b) (map (hash_entry p) other),
        ) in
      elim (root_binding (length xs) xs ys (omega arith) (omega arith) same_length
        (hash_entry-All (a ∷ log)) (hash_entry-All (b ∷ other)) roots) [
          | inr found ↦ inr (inr found)
          | inl leaves ↦ elim (leaves_binding (a ∷ log) (b ∷ other) same leaves) [
            | inl bytes ↦ inl bytes
            | inr found ↦ inr (inl found)
          ]
        ]
