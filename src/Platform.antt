-- ===== src/Platform.antt =====
-- What the program takes from Python's standard library and from `cryptography`, as parameters:
-- nothing here is code of the repository, and nothing is assumed of it beyond what a theorem's
-- hypotheses name.
pub mod Toy
use sovereignty_ai_gate.Prelude.{ℕ, String, Bool, true, List, ◌≡◌, Result}
use sovereignty_ai_gate.Prelude.Int.{ℤ}
use sovereignty_ai_gate.Utils.Json.{Value}

abbrev pub Bytes : Type 0
Bytes = List ℕ

pub record Platform : Type 0 where
  -- `hashlib.sha3_512(data).hexdigest()`
  pub sha3_512 : Bytes → String
  -- `hashlib.sha3_512(data).digest()`
  pub digest : Bytes → Bytes
  -- `data.hex()`
  pub hex : Bytes → String
  -- `text.encode("utf-8")`
  pub encode : String → Bytes
  -- `json.dumps(value, sort_keys=True, separators=(",", ":"), ensure_ascii=False)`
  pub dumps : Value → String
  -- `unicodedata.normalize("NFC", text)`
  pub normalize : String → String
  -- `text.lower()`
  pub lower : String → String
  -- `str(number)`
  pub show : ℤ → String
  -- `datetime.fromisoformat(text)`, as a number that a clock's reading is compared with. A text
  -- that is no timestamp raises, and so does the comparison of a timestamp with no time zone.
  pub fromisoformat : String → Result ℕ

-- What one call reads from its surroundings: the clock, in seconds, as a timestamp to compare with and
-- as ISO text, and a new UUID.
pub record Moment : Type 0 where
  pub seconds : ℤ
  pub reading : ℕ
  pub text : String
  pub uuid : String

-- The documented behaviour of `encode` and of a hexadecimal SHA3-512 digest.
pub record IsTextual (p : Platform) : Type 0 where
  pub encode_injective : (s t : String) → p.encode s ≡ p.encode t → s ≡ t
  pub digest_length : (b : Bytes) → Prim.Native.String.count (p.sha3_512 b) ≡ 128
