-- ===== src/Platform/Toy.antt =====
-- A small platform for the tests: its digests tell apart inputs by their first byte's parity.
use Prim.Native.String.count
use Prim.Native.String.{[] as empty, ◌∷◌ as prepend}
use text.Mathlib.TextEquality.{Char-path}
use Prim.Native.Char.{Char, code}
use sovereignty_ai_gate.Prelude.{
  ℕ, zero, suc, length, ◌%◌, String, ◌≡◌, refl, Bool, true, false, List, [], ◌∷◌, map, Result, ok,
  err, value_error, ◌==◌, str_eq, if◌then◌else◌,
}
use sovereignty_ai_gate.Utils.Json.{Value, null, bool, int, str, arr, obj}
use sovereignty_ai_gate.Platform.{Platform, IsTextual, Bytes}

abbrev pub even_digest : String
even_digest =
    "a1a1a1a1a1a1a1a1a1a1a1a1a1a1a1a1a1a1a1a1a1a1a1a1a1a1a1a1a1a1a1a1a1a1a1a1a1a1a1a1a1a1a1a1a1a1a1a1a1a1a1a1a1a1a1a1a1a1a1a1a1a1a1a1"

abbrev pub odd_digest : String
odd_digest =
    "b2b2b2b2b2b2b2b2b2b2b2b2b2b2b2b2b2b2b2b2b2b2b2b2b2b2b2b2b2b2b2b2b2b2b2b2b2b2b2b2b2b2b2b2b2b2b2b2b2b2b2b2b2b2b2b2b2b2b2b2b2b2b2b2"

unfoldable pub chars : String → List Char
chars empty = []
chars (prepend c s) = c ∷ chars s

chars_injective : (s t : String) → chars s ≡ chars t → s ≡ t
unfolding chars
chars_injective empty empty e = refl
chars_injective empty (prepend d t) e = cc
chars_injective (prepend c s) empty e = cc
chars_injective (prepend c s) (prepend d t) e = cc (chars_injective s t (cc))

abbrev toy_digest : Bytes → String
toy_digest [] = even_digest
toy_digest (b ∷ r) = if b % 2 == 0 then even_digest else odd_digest

abbrev repeated : ℕ → ℕ → Bytes
repeated zero b = []
repeated (suc n) b = b ∷ repeated n b

abbrev toy_dumps : Value → String
toy_dumps null = "null"
toy_dumps (bool b) = "bool"
toy_dumps (int n) = "int"
toy_dumps (str s) = s
toy_dumps (arr xs) = "arr"
toy_dumps (obj fs) = "obj"

-- Two days of a calendar.
abbrev toy_time : String → Result ℕ
toy_time s = if str_eq s "monday" then ok 1 else if str_eq s "friday" then ok 5 else err value_error

abbrev pub toy : Platform
toy = record {
  sha3_512 = toy_digest;
  digest = λ b. repeated 64 (length b);
  hex = toy_digest;
  encode = λ s. map code (chars s);
  dumps = toy_dumps;
  normalize = λ s. s;
  lower = λ s. s;
  show = λ n. "n";
  fromisoformat = toy_time;
}

chosen_length :
    (even : Bool) → Prim.Native.String.count (if even then even_digest else odd_digest) ≡ 128
chosen_length true = refl
chosen_length false = refl

digest_length : (b : Bytes) → Prim.Native.String.count (toy_digest b) ≡ 128
digest_length [] = refl
digest_length (b ∷ r) = chosen_length (b % 2 == 0)

codes_injective : (l m : List Char) → map code l ≡ map code m → l ≡ m
codes_injective [] [] e = refl
codes_injective [] (d ∷ m) e = cc
codes_injective (c ∷ l) [] e = cc
codes_injective (c ∷ l) (d ∷ m) e = cc (Char-path c d (cc), codes_injective l m (cc))

pub toy-IsTextual : IsTextual toy
toy-IsTextual = record {
  encode_injective = λ s t e. chars_injective s t (codes_injective (chars s) (chars t) e);
  digest_length = digest_length;
}
