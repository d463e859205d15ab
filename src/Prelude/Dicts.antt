-- ===== src/Prelude/Dicts.antt =====
-- A Python dict with text keys, as an association list in insertion order.
use Prim.Native.String.{String}
use mathlib.Core.Path.{◌≡◌, refl}
use mathlib.Core.Bool.{Bool, true, false}
use mathlib.Core.List.{List, [], ◌∷◌}
use mathlib.Core.Option.{Option, none, some}
use native.Mathlib.Omega.{arith}
use text.Mathlib.Text.{◌==◌ as str_eq}
use text.Mathlib.TextEquality.{eq_iff}
use text.Mathlib.TextPositions.{eq_refl}
use sovereignty_ai_gate.Prelude.Tests.{if◌then◌else◌}

abbrev pub Dict {ℓ} : Type ℓ → Type ℓ
Dict V = List (String × V)

module _ {ℓ} {V : Type ℓ} where
  -- `d.get(k)`
  unfoldable pub lookup : String → Dict V → Option V
  lookup k [] = none
  lookup k ((j, v) ∷ m) = if str_eq j k then some v else lookup k m

  -- `d[k] = v`
  unfoldable pub insert : String → V → Dict V → Dict V
  insert k v [] = (k, v) ∷ []
  insert k v ((j, w) ∷ m) = if str_eq j k then (k, v) ∷ m else (j, w) ∷ insert k v m

  -- `k in d`
  unfoldable pub has_key : String → Dict V → Bool
  unfolding lookup
  has_key k m = elim (lookup k m) [ none ↦ false | some _ ↦ true ]

  -- `d.values()`
  unfoldable pub values : Dict V → List V
  values [] = []
  values ((k, v) ∷ m) = v ∷ values m

  pub lookup-insert :
      (key other : String) (item : V) (dict : Dict V)
      → lookup other (insert key item dict)
        ≡ (if str_eq key other then some item else lookup other dict)
  unfolding lookup insert
  lookup-insert key other item [] = refl
  lookup-insert key other item ((first, held) ∷ dict) =
      let rest = lookup-insert key other item dict in
      ground (arith, eq_iff first other, eq_iff first key, eq_iff key other, rest)

  pub lookup-insert_self : (k : String) (v : V) (m : Dict V) → lookup k (insert k v m) ≡ some v
  lookup-insert_self k v m = simp (lookup-insert, eq_refl)

module _ {ℓ} {V : Type ℓ} where
  pub has_key-false : (k : String) (m : Dict V) → has_key k m ≡ false → lookup k m ≡ none
  unfolding has_key
  has_key-false k m h = ground arith

  pub has_key-some : (k : String) (m : Dict V) {v : V} → lookup k m ≡ some v → has_key k m ≡ true
  unfolding has_key
  has_key-some k m h = ground (arith, h)

pub ruleset dict_laws = (lookup-insert, lookup-insert_self)
