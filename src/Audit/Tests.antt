-- ===== src/Audit/Tests.antt =====
-- Runs of src/sia/audit/ledger.py on small ledgers.
use sovereignty_ai_gate.Prelude.{
  ◌≡◌, refl, ◌⊎◌, [], ◌∷◌, ◌++◌, some, none, ok, err, audit_chain_error, length, map,
}
use sovereignty_ai_gate.Platform.Toy.{toy, chars}
use sovereignty_ai_gate.Utils.{hash_object, canonical_hash, hash_hex}
use sovereignty_ai_gate.Utils.Json.{end}
use sovereignty_ai_gate.Audit.{
  LedgerEntry, AuditLedger, genesis_hash, last_hash, append, new_entry, compute_hash, verify,
  verify_from, verify_chain,
}
use sovereignty_ai_gate.Chain.{Clash}
use sovereignty_ai_gate.Audit.Integrity.{
  SameHash, sealed_document, Stops, verify_chain-append, ledger_tamper_evident, verify_chain-Stops,
}

abbrev ledger : AuditLedger
ledger = append toy [] "capability.issued" end "alice" none "monday"

ledger_verifies : verify_chain toy ledger ≡ ok tt
unfolding verify_chain verify_from
ledger_verifies = (verify_chain-append toy [] "capability.issued" end "alice" none "monday" refl).0

-- The entry once more: its own hash is right, but it links to the genesis.
broken_chain : verify_chain toy (ledger ++ ledger) ≡ err audit_chain_error
unfolding append new_entry verify_chain verify_from verify compute_hash hash_object canonical_hash
    hash_hex chars
broken_chain = refl

verify_chain-append_example :
    let after = append toy ledger "capability.revoked" end "bob" (some "friday") "monday" in
    (verify_chain toy after ≡ ok tt)
    × (e : LedgerEntry) × (after ≡ ledger ++ e ∷ [])
    × (e.entry_id ≡ length ledger)
    × (e.event_type ≡ "capability.revoked")
    × (e.payload ≡ end)
    × (e.actor_id ≡ "bob")
verify_chain-append_example =
    verify_chain-append toy ledger "capability.revoked" end "bob" (some "friday") "monday"
      ledger_verifies

-- The toy digest does not tell these entries apart.
abbrev forged : AuditLedger
forged = append toy [] "capability.revoked" end "alice" none "monday"

forged_verifies : verify_chain toy forged ≡ ok tt
unfolding verify_chain verify_from
forged_verifies = (verify_chain-append toy [] "capability.revoked" end "alice" none "monday" refl).0

one_end : last_hash ledger ≡ last_hash forged
unfolding append new_entry compute_hash hash_object canonical_hash hash_hex chars
one_end = refl

one_length : length ledger ≡ length forged
unfolding append
one_length = refl

ledger_tamper_evident_example :
    (map sealed_document ledger ≡ map sealed_document forged) ⊎ Clash (SameHash toy) ledger forged
ledger_tamper_evident_example =
    ledger_tamper_evident toy ledger forged one_length ledger_verifies forged_verifies one_end

verify_chain-Stops_example : Stops toy genesis_hash (ledger ++ ledger) audit_chain_error
verify_chain-Stops_example =
    verify_chain-Stops toy (ledger ++ ledger) audit_chain_error broken_chain
