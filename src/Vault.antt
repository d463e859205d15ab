-- ===== src/Vault.antt =====
-- src/sovereignty_core/vault/memory_chain.py: the hash chain of memory blocks. A block's hash covers
-- the previous hash and its payload; the signature and the signer are outside it.
pub mod Integrity
mod Tests
use sovereignty_ai_gate.Prelude.{
  ℕ, suc, String, Bool, true, false, not, List, [], ◌∷◌, ◌++◌, Option, none, some, Result, ok, err,
  ◌>>=◌, value_error, length, ◌==◌, str_eq, if◌then◌else◌,
}
use sovereignty_ai_gate.Prelude.Int.{ℤ}
use sovereignty_ai_gate.Chain.{head_hash}
use sovereignty_ai_gate.Platform.{Platform, Bytes}
use sovereignty_ai_gate.Audit.{genesis_hash}
use sovereignty_ai_gate.Utils.Json.{Value, str, int, obj, count, optional, Fields, end, field}

pub data MemoryClassification : Type 0 where
  user_confirmed ai_suggested temporary_context : MemoryClassification

abbrev pub value : MemoryClassification → String
value user_confirmed = "USER_CONFIRMED"
value ai_suggested = "AI_SUGGESTED"
value temporary_context = "TEMPORARY_CONTEXT"

-- `MemoryClassification(text)`
unfoldable pub classification_of : String → Result MemoryClassification
classification_of text =
    if str_eq text "USER_CONFIRMED"
    then ok user_confirmed
    else if str_eq text "AI_SUGGESTED"
    then ok ai_suggested
    else if str_eq text "TEMPORARY_CONTEXT"
    then ok temporary_context
    else err value_error

pub record MemoryProvenance : Type 0 where
  pub owner_identity : String
  pub source_type : String
  pub source_id : String
  pub issuer_device : Option String
  pub capability_token_id : Option String
  pub consent_id : Option String
  pub metadata : Fields

pub record MemoryBlock : Type 0 where
  pub block_id : String
  pub index : ℕ
  pub previous_hash : String
  pub block_hash : String
  pub classification : MemoryClassification
  pub content : Value
  pub provenance : MemoryProvenance
  pub created_at : ℤ
  pub signature : Option String
  pub signer : Option String
  pub metadata : Fields

abbrev pub MemoryChain : Type 0
MemoryChain = List MemoryBlock

unfoldable pub provenance_document : MemoryProvenance → Value
provenance_document o = obj (
    field "owner_identity" (str o.owner_identity) (
      field "source_type" (str o.source_type) (
        field "source_id" (str o.source_id) (
          field "issuer_device" (optional o.issuer_device) (
            field "capability_token_id" (optional o.capability_token_id) (
              field "consent_id" (optional o.consent_id)
                (field "metadata" (obj o.metadata) end)))))))

-- `MemoryBlock.payload`
unfoldable pub payload : MemoryBlock → Value
unfolding provenance_document
payload b = obj (
    field "block_id" (str b.block_id) (
      field "index" (count b.index) (
        field "previous_hash" (str b.previous_hash) (
          field "classification" (str (value b.classification)) (
            field "content" b.content (
              field "provenance" (provenance_document b.provenance) (
                field "created_at" (int b.created_at) (field "metadata" (obj b.metadata) end))))))))

abbrev pub block_hash_of : MemoryBlock → String
block_hash_of b = b.block_hash

-- The arguments of `append`; the times and the UUID are filled in by the caller's clock.
pub record AppendRequest : Type 0 where
  pub classification : String
  pub content : Value
  pub provenance : MemoryProvenance
  pub signer : Option String
  pub sign_payload : Option (Bytes → String)
  pub created_at : Option ℤ
  pub metadata : Fields

module _ (p : Platform) where
  -- `_canonical_bytes` of the chain, which does not normalize texts.
  unfoldable pub payload_bytes : MemoryBlock → Bytes
  unfolding payload
  payload_bytes b = p.encode (p.dumps (payload b))

  unfoldable pub hash_of_block : MemoryBlock → String
  unfolding payload_bytes
  hash_of_block b = p.sha3_512 (p.encode b.previous_hash ++ payload_bytes b)

  -- The block that `append` adds, before its hash and signature are known.
  unfoldable pub draft :
      MemoryChain → AppendRequest → MemoryClassification → ℤ → String → MemoryBlock
  draft chain r classification now uuid = record {
    block_id = uuid;
    index = length chain;
    previous_hash = head_hash block_hash_of genesis_hash chain;
    block_hash = "";
    classification = classification;
    content = r.content;
    provenance = r.provenance;
    created_at = elim r.created_at [ none ↦ now | some at ↦ at ];
    signature = none;
    signer = r.signer;
    metadata = r.metadata;
  }

  unfoldable pub sealed : MemoryBlock → Option (Bytes → String) → MemoryBlock
  unfolding hash_of_block payload_bytes
  sealed b sign_payload = record b {
    block_hash = hash_of_block b;
    signature = elim sign_payload [ none ↦ none | some sign ↦ some (sign (payload_bytes b)) ];
  }

  -- `MemoryChain.append`: the chain after it; the new block is its last.
  unfoldable pub append : MemoryChain → AppendRequest → ℤ → String → Result MemoryChain
  unfolding classification_of draft sealed
  append chain r now uuid = classification_of r.classification >>= λ c.
      ok (chain ++ sealed (draft chain r c now uuid) r.sign_payload ∷ [])

  -- `verify_signature is not None and block.signature is not None` and the signature is refused.
  unfoldable pub bad_signature : Option (Bytes → String → Bool) → MemoryBlock → Bool
  unfolding payload_bytes
  bad_signature none b = false
  bad_signature (some verify) b = elim b.signature [
    | none ↦ false
    | some s ↦ not (verify (payload_bytes b) s)
  ]

  -- The loop of `validate`.
  unfoldable pub validate_from : Option (Bytes → String → Bool) → ℕ → String → MemoryChain → Bool
  unfolding hash_of_block bad_signature
  validate_from verify index expected_previous [] = true
  validate_from verify index expected_previous (b ∷ r) =
      let rest = validate_from verify (suc index) b.block_hash r in
      if not (b.index == index)
      then false
      else if not (str_eq b.previous_hash expected_previous)
      then false
      else if not (str_eq (hash_of_block b) b.block_hash)
      then false
      else if bad_signature verify b
      then false
      else rest

  unfoldable pub validate : MemoryChain → Option (Bytes → String → Bool) → Bool
  unfolding validate_from
  validate chain verify = validate_from verify 0 genesis_hash chain
