-- ===== src/Sbp/Tests.antt =====
-- Runs of src/sbp/audit.py on small chains.
use sovereignty_ai_gate.Prelude.{
  ◌≡◌, ◌⊎◌, refl, true, [], ◌∷◌, ◌++◌, map, some, none, ok, err, value_error,
}
use sovereignty_ai_gate.Platform.Toy.{toy, chars}
use sovereignty_ai_gate.Trust.Toy.{toy_backend, toy_backend-IsSigner}
use sovereignty_ai_gate.Utils.{canonical_bytes, canonicalize}
use sovereignty_ai_gate.Utils.Json.{end}
use sovereignty_ai_gate.Chain.{Clash, head_hash}
use sovereignty_ai_gate.Audit.{genesis_hash}
use sovereignty_ai_gate.Sbp.{
  AuditEntry, AuditChain, EntryRequest, hash_of_entry, hash_entry, draft, sealed, append,
  signed_document, verify_from, verify_integrity,
}
use sovereignty_ai_gate.Sbp.Integrity.{SameHash, append-verify_integrity, branch_tamper_evident}

abbrev start : AuditChain
start = record { branch_id = "main"; root = toy_backend; entries = [] }

abbrev request : EntryRequest
request = record {
  actor_id = "alice";
  action = "BRANCH_CREATED";
  object_id = none;
  metadata = some end;
  timestamp = none;
  entry_id = none;
}

abbrev one : AuditChain
one = record start { entries = sealed toy toy_backend (draft toy start request "monday" "e1") ∷ [] }

appended : append toy start request "monday" "e1" ≡ ok one
unfolding append
appended = refl

no_action : append toy start (record request { action = "" }) "monday" "e1" ≡ err value_error
unfolding append
no_action = refl

start_verifies : verify_integrity toy start ≡ true
unfolding verify_integrity verify_from
start_verifies = refl

one_verifies : verify_integrity toy one ≡ true
one_verifies =
    (append-verify_integrity toy start request "monday" "e1" one toy_backend-IsSigner appended
      start_verifies).0

append-verify_integrity_example :
    (verify_integrity toy one ≡ true)
    × (e : AuditEntry) × (one.entries ≡ [] ++ e ∷ [])
    × (e.branch_id ≡ "main")
    × (e.actor_id ≡ "alice")
    × (e.action ≡ "BRANCH_CREATED")
    × (e.object_id ≡ none)
append-verify_integrity_example =
    append-verify_integrity toy start request "monday" "e1" one toy_backend-IsSigner appended
      start_verifies

-- The toy digest does not tell these entries apart.
abbrev merge : EntryRequest
merge = record request { action = "BRANCH_MERGED" }

abbrev forged : AuditChain
forged = record start {
  entries = sealed toy toy_backend (draft toy start merge "monday" "e1") ∷ [];
}

forged_appended : append toy start merge "monday" "e1" ≡ ok forged
unfolding append
forged_appended = refl

forged_verifies : verify_integrity toy forged ≡ true
forged_verifies =
    (append-verify_integrity toy start merge "monday" "e1" forged toy_backend-IsSigner
      forged_appended start_verifies).0

one_end :
    head_hash hash_of_entry genesis_hash one.entries
    ≡ head_hash hash_of_entry genesis_hash forged.entries
unfolding sealed draft hash_entry canonical_bytes canonicalize chars
one_end = refl

branch_tamper_evident_example :
    (map signed_document one.entries ≡ map signed_document forged.entries)
    ⊎ Clash (SameHash toy) one.entries forged.entries
branch_tamper_evident_example =
    branch_tamper_evident toy one forged refl refl refl one_verifies forged_verifies one_end
