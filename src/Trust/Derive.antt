-- ===== src/Trust/Derive.antt =====
-- `SoftwareTrustBackend.derive_key` of src/sovereignty_core/identity/root_of_trust.py: key material by
-- hashing a counter.
use sovereignty_ai_gate.Prelude.{
  ℕ, zero, suc, ◌+◌, ◌*◌, ◌/◌, ◌%◌, ◌≤◌, ◌<◌, ◌≡◌, refl, ◌∙◌, inl, inr, [], ◌∷◌, ◌++◌, arith,
  Result, ok, err, ◌>>=◌, bind-ok, root_trust_error, overflow_error, length, length-append, ltb,
  ltb→lt, ltb-false, Bool-cases, if◌then◌else◌,
}
use sovereignty_ai_gate.Prelude.Int.{ℤ, pos, negsuc}
use sovereignty_ai_gate.Platform.{Platform, Bytes}

-- `counter.to_bytes(4, "big")`, which raises an OverflowError from 2^32 on.
abbrev big_endian : ℕ → Bytes
big_endian counter =
    counter / 16777216 ∷ counter / 65536 % 256 ∷ counter / 256 % 256 ∷ counter % 256 ∷ []

unfoldable pub to_bytes : ℕ → Result Bytes
to_bytes counter = if ltb counter 4294967296 then ok (big_endian counter) else err overflow_error

-- `output[:length]`
unfoldable pub take_bytes : Bytes → ℕ → Bytes
take_bytes [] n = []
take_bytes (b ∷ r) zero = []
take_bytes (b ∷ r) (suc n) = b ∷ take_bytes r n

module _ (p : Platform) (root_secret : Bytes) where
  unfoldable pub block_of : Bytes → Bytes → Bytes
  block_of context counter = p.digest (p.encode "SAMA_DERIVE:" ++ counter ++ context ++ root_secret)

  -- The `while` loop on fuel; every round adds a digest, so the wanted length is fuel enough.
  unfoldable pub derive_loop : ℕ → Bytes → ℕ → ℕ → Bytes → Result Bytes
  unfolding to_bytes block_of
  derive_loop zero context wanted counter output = ok output
  derive_loop (suc fuel) context wanted counter output =
      let rest = derive_loop fuel context wanted (counter + 1) in
      if ltb (length output) wanted
      then (to_bytes counter >>= λ c. rest (output ++ block_of context c))
      else ok output

  unfoldable pub derive_key : Bytes → ℤ → Result Bytes
  unfolding derive_loop take_bytes
  derive_key context (negsuc n) = err root_trust_error
  derive_key context (pos zero) = err root_trust_error
  derive_key context (pos (suc n)) =
      derive_loop (suc n) context (suc n) 0 [] >>= λ output. ok (take_bytes output (suc n))

length-take_bytes : (b : Bytes) (n : ℕ) → n ≤ length b → length (take_bytes b n) ≡ n
unfolding take_bytes
length-take_bytes [] n h = omega arith
length-take_bytes (x ∷ b) zero h = refl
length-take_bytes (x ∷ b) (suc n) h = omega (arith, length-take_bytes b n (omega arith))

to_bytes-ok : (counter : ℕ) → counter < 4294967296 → to_bytes counter ≡ ok (big_endian counter)
unfolding to_bytes
to_bytes-ok counter h = elim (Bool-cases (ltb counter 4294967296)) [
  | inl small ↦ rw small refl
  | inr large ↦ absurd (omega (arith, ltb-false _ _ large))
]

module _ (p : Platform) (root_secret context : Bytes) (wanted : ℕ)
    (digest_size : (b : Bytes) → length (p.digest b) ≡ 64)
    (bounded : wanted ≤ 64 * 4294967296) where
  -- The output is 64 bytes for each round so far.
  derive_loop-enough :
      (fuel counter : ℕ) (output : Bytes)
      → length output ≡ 64 * counter
      → wanted ≤ length output + fuel
      → (out : Bytes) × (derive_loop p root_secret fuel context wanted counter output ≡ ok out)
        × (wanted ≤ length out)
  unfolding derive_loop block_of
  derive_loop-enough zero counter output size fits = (output, refl, omega arith)
  derive_loop-enough (suc fuel) counter output size fits =
      elim (Bool-cases (ltb (length output) wanted)) [
        | inr full ↦ (output, rw full refl, ltb-false _ _ full)
        | inl short ↦
            let c = big_endian counter in
            let converted = to_bytes-ok counter (omega (arith, ltb→lt _ _ short)) in
            let block = block_of p root_secret context c in
            let more : length (output ++ block) ≡ 64 * (counter + 1) = omega (
              arith,
              length-append output block,
              digest_size (p.encode "SAMA_DERIVE:" ++ c ++ context ++ root_secret),
            ) in
            let (out, looped, enough) =
              derive_loop-enough fuel (counter + 1) (output ++ block) more (omega arith) in
            (out, rw short (bind-ok _ converted ∙ looped), enough)
      ]

-- For a positive length of at most 64 * 2^32, with a digest of 64 bytes, `derive_key` returns key
-- material of exactly that length.
pub derive_key-length :
    (p : Platform) (root_secret context : Bytes) (wanted : ℕ)
    → ((b : Bytes) → length (p.digest b) ≡ 64)
    → 0 < wanted
    → wanted ≤ 64 * 4294967296
    → (key : Bytes) × (derive_key p root_secret context (pos wanted) ≡ ok key)
      × (length key ≡ wanted)
unfolding derive_key
derive_key-length p root_secret context zero digest_size positive bounded = absurd (omega arith)
derive_key-length p root_secret context (suc n) digest_size positive bounded =
    let (out, looped, enough) =
      derive_loop-enough p root_secret context (suc n) digest_size bounded (suc n) 0 [] refl
        (omega arith) in
    (take_bytes out (suc n), bind-ok _ looped, length-take_bytes out (suc n) enough)
