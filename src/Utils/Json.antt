-- ===== src/Utils/Json.antt =====
-- The values that enter a canonical document: Python's `None`, `bool`, `int`, `str`, `list` (or
-- `tuple`) and `dict` with text keys. Floats, decimals and dates are not modelled: no record that
-- the program hashes itself holds one.
use sovereignty_ai_gate.Prelude.{
  ℕ, String, Bool, List, [], ◌∷◌, Option, none, some, inl, inr, str_eq, eq_iff, Bool-cases,
}
use native.Mathlib.Decide.{ℕ_discrete}
use sovereignty_ai_gate.Prelude.Int.{ℤ, pos}

mutual
  pub data Value : Type 0 where
    null : Value
    bool : Bool → Value
    int : ℤ → Value
    str : String → Value
    arr : Items → Value
    obj : Fields → Value

  pub data Fields : Type 0 where
    end : Fields
    field : String → Value → Fields → Fields

  pub data Items : Type 0 where
    nil : Items
    cons : Value → Items → Items

-- A text that may be missing: `None` or the text.
abbrev pub optional : Option String → Value
optional none = null
optional (some s) = str s

-- A counter such as a sequence number.
abbrev pub count : ℕ → Value
count n = int (pos n)

abbrev pub texts : List String → Items
texts [] = nil
texts (s ∷ ss) = cons (str s) (texts ss)

pub String-discrete : Discrete String
String-discrete s t = elim (Bool-cases (str_eq s t)) [
  | inl same ↦ yes ((eq_iff s t).0 same)
  | inr differ ↦ no (λ e. cc ((eq_iff s t).1 e, differ))
]

pub Value-discrete : Discrete Value
Value-discrete = hlevel (ℕ_discrete, String-discrete)
