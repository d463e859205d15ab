-- ===== src/Chain.antt =====
-- Hash chains, for the logs of the program that link each record to the one before it: what the
-- links mean, and chains that end in one hash.
use sovereignty_ai_gate.Prelude.{
  ℕ, suc, ◌+◌, String, ◌≡◌, refl, ◌⊎◌, inl, inr, List, [], ◌∷◌, ◌++◌, map, some, get_elem?, arith,
  length,
}

module _ {E : Type 0} (hash_of : E → String) where
  -- The hash that the next record links to.
  abbrev pub head_hash : String → List E → String
  head_hash genesis [] = genesis
  head_hash genesis (e ∷ r) = head_hash (hash_of e) r

  pub head_hash-append :
      (genesis : String) (es : List E) (e : E) → head_hash genesis (es ++ e ∷ []) ≡ hash_of e
  head_hash-append genesis [] e = refl
  head_hash-append genesis (x ∷ es) e = head_hash-append (hash_of x) es e

-- A record is sound at its place: given its index and the hash before it.
module _ {E : Type 0} (hash_of : E → String) (Sound : ℕ → String → E → Type 0) where
  abbrev pub IsLinked : ℕ → String → List E → Type 0
  IsLinked n before [] = Unit
  IsLinked n before (e ∷ r) = Sound n before e × IsLinked (suc n) (hash_of e) r

  pub IsLinked-append :
      (n m : ℕ) (before : String) (es : List E) (e : E)
      → n + length es ≡ m
      → IsLinked n before es
      → Sound m (head_hash hash_of before es) e
      → IsLinked n before (es ++ e ∷ [])
  IsLinked-append n m before [] e here linked s = let same : n ≡ m = omega arith in (rw same s, tt)
  IsLinked-append n m before (x ∷ es) e here linked s =
      (linked.0, IsLinked-append (suc n) m (hash_of x) es e (omega arith) linked.1 s)

-- Two records in one place of two logs that `Differ`.
pub record Clash {E : Type 0} (Differ : E → E → Type 0) (es fs : List E) : Type 0 where
  pub index : ℕ
  pub first : E
  pub second : E
  pub in_first : get_elem? es index ≡ some first
  pub in_second : get_elem? fs index ≡ some second
  pub differ : Differ first second

-- `view` is what a record's hash covers. `commits`: sound records with one hash have one view, and
-- name one hash before them, or they `Differ`.
module _ {E V : Type 0} (hash_of : E → String) (view : E → V) (Sound : ℕ → String → E → Type 0)
    (Differ : E → E → Type 0)
    (commits : (n m : ℕ) (before before' : String) (e f : E)
      → Sound n before e
      → Sound m before' f
      → hash_of e ≡ hash_of f
      → ((view e ≡ view f) × (before ≡ before')) ⊎ Differ e f) where
  pub chain_binding :
      (n m : ℕ) (before before' : String) (es fs : List E)
      → length es ≡ length fs
      → IsLinked hash_of Sound n before es
      → IsLinked hash_of Sound m before' fs
      → head_hash hash_of before es ≡ head_hash hash_of before' fs
      → ((map view es ≡ map view fs) × (before ≡ before')) ⊎ Clash Differ es fs
  chain_binding n m before before' [] [] same le lf e = inl (refl, e)
  chain_binding n m before before' [] (y ∷ fs) same le lf e = absurd (omega arith)
  chain_binding n m before before' (x ∷ es) [] same le lf e = absurd (omega arith)
  chain_binding n m before before' (x ∷ es) (y ∷ fs) same le lf e =
      elim (chain_binding (suc n) (suc m) (hash_of x) (hash_of y) es fs (omega arith) le.1 lf.1 e) [
        | inr c ↦ inr (record {
          index = suc c.index;
          first = c.first;
          second = c.second;
          in_first = c.in_first;
          in_second = c.in_second;
          differ = c.differ;
        })
        | inl (tails, hashes) ↦ elim (commits n m before before' x y le.0 lf.0 hashes) [
          | inr differ ↦ inr (record {
            index = 0;
            first = x;
            second = y;
            in_first = refl;
            in_second = refl;
            differ = differ;
          })
          | inl (heads, befores) ↦ inl (cc (heads, tails), befores)
        ]
      ]
