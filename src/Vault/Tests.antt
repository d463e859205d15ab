-- ===== src/Vault/Tests.antt =====
-- Runs of src/sovereignty_core/vault/memory_chain.py on small chains.
use sovereignty_ai_gate.Prelude.{
  String, ◌≡◌, ◌⊎◌, refl, true, [], ◌∷◌, ◌++◌, map, some, none, ok, err, value_error, str_eq,
}
use text.Mathlib.TextPositions.{eq_refl}
use sovereignty_ai_gate.Prelude.Int.{pos}
use sovereignty_ai_gate.Platform.Toy.{toy, chars}
use sovereignty_ai_gate.Utils.Json.{str, end}
use sovereignty_ai_gate.Vault.{
  MemoryBlock, AppendRequest, user_confirmed, classification_of, draft, sealed, append,
  hash_of_block, validate, validate_from,
}
use sovereignty_ai_gate.Chain.{Clash}
use sovereignty_ai_gate.Vault.Integrity.{
  Verifier, SameHash, ordered_payload, Agrees, validate-append, chain_tamper_evident,
}

abbrev pub request : String → AppendRequest
request classification = record {
  classification = classification;
  content = str "likes tea";
  provenance = record {
    owner_identity = "alice";
    source_type = "provider";
    source_id = "chat";
    issuer_device = none;
    capability_token_id = some "t1";
    consent_id = none;
    metadata = end;
  };
  signer = some "laptop";
  sign_payload = some toy.sha3_512;
  created_at = none;
  metadata = end;
}

abbrev verifier : Verifier
verifier = some (λ message signature. str_eq (toy.sha3_512 message) signature)

abbrev pub block : MemoryBlock
block =
    sealed toy (draft toy [] (request "USER_CONFIRMED") user_confirmed (pos 5) "b1")
      (some toy.sha3_512)

appended : append toy [] (request "USER_CONFIRMED") (pos 5) "b1" ≡ ok (block ∷ [])
unfolding append classification_of
appended = refl

unclassified : append toy [] (request "SECRET") (pos 5) "b1" ≡ err value_error
unfolding append classification_of
unclassified = refl

empty_validates : validate toy [] verifier ≡ true
unfolding validate validate_from
empty_validates = refl

signer-Agrees : Agrees verifier (some toy.sha3_512)
signer-Agrees = λ message. eq_refl (toy.sha3_512 message)

chain_validates : validate toy (block ∷ []) verifier ≡ true
chain_validates =
    (validate-append toy verifier [] (request "USER_CONFIRMED") (pos 5) "b1" (block ∷ [])
      signer-Agrees appended empty_validates).0

validate-append_example :
    (validate toy (block ∷ []) verifier ≡ true)
    × (b : MemoryBlock) × (block ∷ [] ≡ [] ++ b ∷ [])
    × (b.content ≡ str "likes tea")
    × (b.provenance ≡ (request "USER_CONFIRMED").provenance)
validate-append_example =
    validate-append toy verifier [] (request "USER_CONFIRMED") (pos 5) "b1" (block ∷ [])
      signer-Agrees appended empty_validates

-- The toy digest does not tell these blocks apart.
abbrev milk : AppendRequest
milk = record (request "USER_CONFIRMED") { content = str "likes milk" }

abbrev forged : MemoryBlock
forged = sealed toy (draft toy [] milk user_confirmed (pos 5) "b1") (some toy.sha3_512)

forged_appended : append toy [] milk (pos 5) "b1" ≡ ok (forged ∷ [])
unfolding append classification_of
forged_appended = refl

forged_validates : validate toy (forged ∷ []) verifier ≡ true
forged_validates =
    (validate-append toy verifier [] milk (pos 5) "b1" (forged ∷ []) signer-Agrees forged_appended
      empty_validates).0

one_end : block.block_hash ≡ forged.block_hash
unfolding sealed hash_of_block draft chars
one_end = refl

chain_tamper_evident_example :
    (map ordered_payload (block ∷ []) ≡ map ordered_payload (forged ∷ []))
    ⊎ Clash (SameHash toy) (block ∷ []) (forged ∷ [])
chain_tamper_evident_example =
    chain_tamper_evident toy verifier (block ∷ []) (forged ∷ []) refl chain_validates
      forged_validates one_end
