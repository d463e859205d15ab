-- ===== src/Vault/Integrity.antt =====
-- Integrity of the memory chain (src/sovereignty_core/vault/memory_chain.py): `append` and `validate`.
use sovereignty_ai_gate.Prelude.{
  ℕ, suc, String, ◌≡◌, ◌≢◌, ◌↔◌, ◌⊎◌, inl, inr, refl, sym, ap, ◌∙◌, Bool, true, false, not, [], ◌∷◌,
  ◌++◌, map, Option, none, some, arith, ok, >>=-eq-ok, ok-injective, length, str_eq, eq_iff, ◌==◌,
  if◌then◌else◌,
}
use sovereignty_ai_gate.Prelude.Int.{ℤ}
use sovereignty_ai_gate.Chain.{head_hash, IsLinked, IsLinked-append, Clash, chain_binding}
use sovereignty_ai_gate.Platform.{Platform, Bytes}
use sovereignty_ai_gate.Audit.{genesis_hash}
use sovereignty_ai_gate.Utils.Json.{Value, Value-discrete}
use sovereignty_ai_gate.Utils.{sort_fields, insert_field}
use sovereignty_ai_gate.Utils.KeyOrder.{in_key_order, text_at}
use sovereignty_ai_gate.Vault.{
  MemoryBlock, MemoryChain, AppendRequest, block_hash_of, payload, payload_bytes, hash_of_block,
  draft, sealed, append, bad_signature, validate_from, validate, classification_of,
}

abbrev pub Verifier : Type 0
Verifier = Option (Bytes → String → Bool)

-- A block's payload, keys in order.
abbrev pub ordered_payload : MemoryBlock → Value
ordered_payload b = in_key_order (payload b)

-- Blocks whose payloads differ in more than the order of keys, and which have one hash.
pub record SameHash (p : Platform) (e f : MemoryBlock) : Type 0 where
  pub differ : ordered_payload e ≢ ordered_payload f
  pub same_hash : hash_of_block p e ≡ hash_of_block p f

previous_hash_of :
    (e f : MemoryBlock) → ordered_payload e ≡ ordered_payload f → e.previous_hash ≡ f.previous_hash
unfolding payload in_key_order sort_fields insert_field text_at
previous_hash_of e f doc = ap (text_at "previous_hash") doc

module _ (p : Platform) (verify : Verifier) where
  abbrev pub Sound : ℕ → String → MemoryBlock → Type 0
  Sound index before b =
      (b.index ≡ index)
      × (b.previous_hash ≡ before)
      × (b.block_hash ≡ hash_of_block p b)
      × (bad_signature p verify b ≡ false)

  four_tests :
      (a b c d rest : Bool)
      → ((if not a
            then false
            else if not b
            then false
            else if not c
            then false
            else if d
            then false
            else rest)
          ≡ true)
        ↔ ((a ≡ true) × (b ≡ true) × (c ≡ true) × (d ≡ false) × (rest ≡ true))
  four_tests a b c d rest = ground arith

  validate_from-IsLinked :
      (index : ℕ) (before : String) (chain : MemoryChain)
      → (validate_from p verify index before chain ≡ true)
        ↔ IsLinked block_hash_of Sound index before chain
  unfolding validate_from
  validate_from-IsLinked index before [] = (λ h. tt, λ h. refl)
  validate_from-IsLinked index before (b ∷ r) =
      let (there, back) = validate_from-IsLinked (suc index) b.block_hash r in
      let tests =
        four_tests (b.index == index) (str_eq b.previous_hash before)
          (str_eq (hash_of_block p b) b.block_hash) (bad_signature p verify b)
          (validate_from p verify (suc index) b.block_hash r) in
      (
        λ h.
            let (i, v, k, s, rest) = tests.0 h in
            ((ground arith, (eq_iff _ _).0 v, sym ((eq_iff _ _).0 k), s), there rest),
        λ ((i, v, k, s), rest).
            tests.1 (ground arith, (eq_iff _ _).1 v, (eq_iff _ _).1 (sym k), s, back rest),
      )

  -- `validate` accepts exactly the chains in which every block has its position as its index, the
  -- hash of the block before it as its previous hash (the first one the genesis sentinel), the
  -- hash of its own payload, and no signature that the verifier, where one is given, refuses.
  pub validate-IsLinked :
      (chain : MemoryChain)
      → (validate p chain verify ≡ true) ↔ IsLinked block_hash_of Sound 0 genesis_hash chain
  unfolding validate
  validate-IsLinked chain = validate_from-IsLinked 0 genesis_hash chain

-- A block without its signature and its signer.
unfoldable pub unsigned : MemoryBlock → MemoryBlock
unsigned b = record b { signature = none; signer = none }

-- A verifier accepts what a signer makes; without a verifier or a signer there is nothing to accept.
abbrev pub Agrees : Verifier → Option (Bytes → String) → Type 0
Agrees none sign = Unit
Agrees (some verify) none = Unit
Agrees (some verify) (some sign) = (message : Bytes) → verify message (sign message) ≡ true

module _ (p : Platform) where
  sealed_signature :
      (verify : Verifier) (b : MemoryBlock) (sign : Option (Bytes → String))
      → Agrees verify sign
      → bad_signature p verify (sealed p b sign) ≡ false
  unfolding bad_signature sealed payload_bytes payload
  sealed_signature none b sign a = refl
  sealed_signature (some verify) b none a = refl
  sealed_signature (some verify) b (some sign) a = ap not (a (payload_bytes p b))

  -- A chain that validates still validates after an append whose classification is one of the three
  -- and whose signer, if any, the verifier agrees with; the blocks that were there are kept.
  pub validate-append :
      (verify : Verifier) (chain : MemoryChain) (r : AppendRequest) (now : ℤ) (uuid : String)
      (after : MemoryChain)
      → Agrees verify r.sign_payload
      → append p chain r now uuid ≡ ok after
      → validate p chain verify ≡ true
      → (validate p after verify ≡ true)
        × (b : MemoryBlock) × (after ≡ chain ++ b ∷ [])
        × (b.content ≡ r.content)
        × (b.provenance ≡ r.provenance)
  unfolding append draft sealed hash_of_block payload_bytes payload
  validate-append verify chain r now uuid after a h valid =
      let (c, named, h1) = >>=-eq-ok (classification_of r.classification) _ h in
      let b = sealed p (draft p chain r c now uuid) r.sign_payload in
      rw (← ok-injective h1) (
        (validate-IsLinked p verify (chain ++ b ∷ [])).1 (
            IsLinked-append block_hash_of (Sound p verify) 0 (length chain) genesis_hash chain b
              (omega arith) ((validate-IsLinked p verify chain).0 valid)
              (
                refl,
                refl,
                refl,
                sealed_signature verify (draft p chain r c now uuid) r.sign_payload a,
              )),
        b,
        refl,
        refl,
        refl,
      )

  module _ (verify : Verifier) where
    commits :
        (n m : ℕ) (before before' : String) (e f : MemoryBlock)
        → Sound p verify n before e
        → Sound p verify m before' f
        → e.block_hash ≡ f.block_hash
        → ((ordered_payload e ≡ ordered_payload f) × (before ≡ before')) ⊎ SameHash p e f
    commits n m before before' e f (i, v, k, s) (i', v', k', s') same =
        elim (Value-discrete (ordered_payload e) (ordered_payload f)) [
          | no differ ↦ inr (record { differ = differ; same_hash = sym k ∙ same ∙ k' })
          | yes doc ↦ inl (doc, sym v ∙ previous_hash_of e f doc ∙ v')
        ]

    -- Two chains of one length that both validate, under one verifier or none, and end in the same
    -- block hash have the same payloads up to the order of keys, block for block; or in one place they
    -- hold two blocks whose payloads differ in more than that, and which have one hash.
    pub chain_tamper_evident :
        (chain other : MemoryChain)
        → length chain ≡ length other
        → validate p chain verify ≡ true
        → validate p other verify ≡ true
        → head_hash block_hash_of genesis_hash chain ≡ head_hash block_hash_of genesis_hash other
        → (map ordered_payload chain ≡ map ordered_payload other) ⊎ Clash (SameHash p) chain other
    chain_tamper_evident chain other same h k hashes =
        elim (chain_binding block_hash_of ordered_payload (Sound p verify) (SameHash p) commits 0 0
          genesis_hash genesis_hash chain other same ((validate-IsLinked p verify chain).0 h)
          ((validate-IsLinked p verify other).0 k) hashes) [
            | inl found ↦ inl found.0
            | inr found ↦ inr found
          ]

  unsigned_links :
      (verify verify' : Verifier) (n : ℕ) (before : String) (chain : MemoryChain)
      → IsLinked block_hash_of (Sound p verify) n before chain
      → IsLinked block_hash_of (Sound p verify') n before (map unsigned chain)
  unfolding unsigned hash_of_block payload_bytes payload bad_signature
  unsigned_links verify verify' n before [] h = tt
  unsigned_links verify none n before (b ∷ r) ((i, v, k, s), rest) =
      ((i, v, k, refl), unsigned_links verify none (suc n) b.block_hash r rest)
  unsigned_links verify (some f) n before (b ∷ r) ((i, v, k, s), rest) =
      ((i, v, k, refl), unsigned_links verify (some f) (suc n) b.block_hash r rest)

  -- A chain that validates still validates, under every verifier, with the signatures and signers
  -- of all its blocks taken out.
  pub validate-unsigned :
      (verify verify' : Verifier) (chain : MemoryChain)
      → validate p chain verify ≡ true
      → validate p (map unsigned chain) verify' ≡ true
  validate-unsigned verify verify' chain h =
      (validate-IsLinked p verify' (map unsigned chain)).1 (
        unsigned_links verify verify' 0 genesis_hash chain ((validate-IsLinked p verify chain).0 h))
