-- ===== src/Prelude/Lists.antt =====
-- Lists measured and indexed by native numbers, under the library's names.
use Prim.Native.Nat.{ℕ, zero, suc, ◌+◌, ◌≤◌, ◌<◌}
use Prim.Native.String.{String}
use mathlib.Core.Path.{◌≡◌, refl, ap}
use mathlib.Core.Bool.{Bool, true, false, ◌||◌, ◌&&◌}
use mathlib.Core.List.{List, [], ◌∷◌, ◌++◌, map}
use mathlib.Core.Option.{Option, none, some}
use native.Mathlib.Omega.{arith}
use text.Mathlib.Text.{◌==◌ as str_eq}

module _ {ℓ} {A : Type ℓ} where
  abbrev pub length : List A → ℕ
  length [] = 0
  length (x ∷ xs) = suc (length xs)

  abbrev pub get_elem? : List A → ℕ → Option A
  get_elem? [] i = none
  get_elem? (x ∷ xs) zero = some x
  get_elem? (x ∷ xs) (suc i) = get_elem? xs i

  abbrev pub set : List A → ℕ → A → List A
  set [] i v = []
  set (x ∷ xs) zero v = v ∷ xs
  set (x ∷ xs) (suc i) v = x ∷ set xs i v

  -- The last item of a list, or the default of an empty one.
  abbrev pub last_or : A → List A → A
  last_or d [] = d
  last_or d (x ∷ xs) = last_or x xs

  pub length-append : (xs ys : List A) → length (xs ++ ys) ≡ length xs + length ys
  length-append [] ys = omega arith
  length-append (x ∷ xs) ys = omega (arith, length-append xs ys)

  pub last_or-append : (d : A) (xs : List A) (y : A) → last_or d (xs ++ y ∷ []) ≡ y
  last_or-append d [] y = refl
  last_or-append d (x ∷ xs) y = last_or-append x xs y

  pub get_elem?-append_left :
      (xs ys : List A) (i : ℕ) → i < length xs → get_elem? (xs ++ ys) i ≡ get_elem? xs i
  get_elem?-append_left [] ys i h = elim h [ ]
  get_elem?-append_left (x ∷ xs) ys zero h = refl
  get_elem?-append_left (x ∷ xs) ys (suc i) h = get_elem?-append_left xs ys i (omega arith)

  pub get_elem?-append_self : (xs : List A) (y : A) → get_elem? (xs ++ y ∷ []) (length xs) ≡ some y
  get_elem?-append_self [] y = refl
  get_elem?-append_self (x ∷ xs) y = get_elem?-append_self xs y

  pub get_elem?_inside : (xs : List A) (i : ℕ) (x : A) → get_elem? xs i ≡ some x → i < length xs
  get_elem?_inside [] i x h = cc
  get_elem?_inside (y ∷ xs) zero x h = omega arith
  get_elem?_inside (y ∷ xs) (suc i) x h = omega (arith, get_elem?_inside xs i x h)

  pub get_elem?-none : (xs : List A) (i : ℕ) → length xs ≤ i → get_elem? xs i ≡ none
  get_elem?-none [] i h = refl
  get_elem?-none (x ∷ xs) zero h = absurd (omega arith)
  get_elem?-none (x ∷ xs) (suc i) h = get_elem?-none xs i (omega arith)

  -- A position inside a list holds an item.
  pub get_elem?-some : (xs : List A) (i : ℕ) → i < length xs → (x : A) × (get_elem? xs i ≡ some x)
  get_elem?-some [] i h = elim h [ ]
  get_elem?-some (x ∷ xs) zero h = (x, refl)
  get_elem?-some (x ∷ xs) (suc i) h = get_elem?-some xs i (omega arith)

module _ {ℓ} {A : Type ℓ} where
  pub append_inj_left : (xs ys s t : List A) → length xs ≡ length ys → xs ++ s ≡ ys ++ t → xs ≡ ys
  append_inj_left [] [] s t l e = refl
  append_inj_left [] (y ∷ ys) s t l e = absurd (omega arith)
  append_inj_left (x ∷ xs) [] s t l e = absurd (omega arith)
  append_inj_left (x ∷ xs) (y ∷ ys) s t l e = cc (append_inj_left xs ys s t (omega arith) (cc))

module _ {ℓ} {A : Type ℓ} where
  pub map-id : (xs : List A) → map (λ x. x) xs ≡ xs
  map-id [] = refl
  map-id (x ∷ xs) = ap (λ l. x ∷ l) (map-id xs)

module _ {ℓ κ} {A : Type ℓ} {B : Type κ} where
  pub length-map : (f : A → B) (xs : List A) → length (map f xs) ≡ length xs
  length-map f [] = refl
  length-map f (x ∷ xs) = ap suc (length-map f xs)

-- Python's `x in xs` on a list of texts.
unfoldable pub contains : String → List String → Bool
contains x [] = false
contains x (y ∷ ys) = str_eq x y || contains x ys

-- A predicate by recursion computes to tuples, which the tactics read and build.
abbrev pub All {ℓ κ} : {A : Type ℓ} → (A → Type κ) → List A → Type κ
All P [] = Unit
All P (x ∷ xs) = P x × All P xs

module _ {ℓ} {A : Type ℓ} where
  abbrev pub all : (A → Bool) → List A → Bool
  all test [] = true
  all test (x ∷ xs) = test x && all test xs

module _ {ℓ κ} {A : Type ℓ} (P : A → Type κ) where
  pub All-append_one : (xs : List A) (y : A) → All P xs → P y → All P (xs ++ y ∷ [])
  All-append_one [] y h hy = (hy, tt)
  All-append_one (x ∷ xs) y h hy = (h.0, All-append_one xs y h.1 hy)

  pub All-last_or : (xs : List A) (d : A) → 0 < length xs → All P xs → P (last_or d xs)
  All-last_or [] d n h = elim n [ ]
  All-last_or (x ∷ []) d n h = h.0
  All-last_or (x ∷ y ∷ r) d n h = All-last_or (y ∷ r) x (omega arith) h.1
