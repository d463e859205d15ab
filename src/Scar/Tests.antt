-- ===== src/Scar/Tests.antt =====
-- Runs of src/sovereignty_core/audit/scar.py on small ledgers.
use sovereignty_ai_gate.Prelude.{
  ℕ, ◌<◌, ◌≡◌, ◌≢◌, ◌↔◌, ◌⊎◌, refl, true, false, [], ◌∷◌, ◌++◌, map, some, none, arith, ok, err,
  scar_ledger_error, length,
}
use sovereignty_ai_gate.Prelude.Int.{pos}
use sovereignty_ai_gate.Platform.Toy.{toy, chars}
use sovereignty_ai_gate.Trust.Toy.{toy_root, toy_backend-IsSigner}
use sovereignty_ai_gate.Permissions.{
  CapabilityToken, read_preference, forbidden, is_active, is_expired,
}
use sovereignty_ai_gate.Utils.{canonical_bytes, canonicalize}
use sovereignty_ai_gate.Utils.Json.{str, arr, nil, end, field}
use sovereignty_ai_gate.Scar.{
  ScarEvent, ScarLedger, human, provider, EventRequest, actor_of, lacks_provenance, draft, sealed,
  append_event, verify_from, verify_integrity, event_hash_of, hash_event,
}
use sovereignty_ai_gate.Audit.{genesis_hash}
use sovereignty_ai_gate.Chain.{Clash, head_hash}
use sovereignty_ai_gate.Scar.Records.{
  assert_identity, access_request, record_provider_access, record_provider_access-active,
  access_names_other_provider,
}
use sovereignty_ai_gate.Scar.Attestation.{
  ScarAttestation, attest_merkle_root, verify_attestation, device_id,
}
use sovereignty_ai_gate.Scar.Integrity.{
  SameHash, ordered_document, IsChained, Appended, append_event-verify, scar_tamper_evident,
}
use sovereignty_ai_gate.Scar.Export.{
  IsSigned, assert_scar_invariants, assert_scar_invariants-IsSigned, canonical_events,
  merkle_evidence, export_audit_bundle,
}
use sovereignty_ai_gate.Scar.Attested.{Included, attest-verify, attestation_stale}

abbrev start : ScarLedger
start = record { identity_id = "alice"; root_of_trust = toy_root; events = [] }

abbrev request : EventRequest
request = record {
  event_type = "CAPABILITY_ISSUED";
  actor = "HUMAN";
  capability_id = none;
  memory_hash = none;
  metadata = end;
  timestamp = some "monday";
}

abbrev one : ScarLedger
one = record start {
  events = sealed toy toy_root (draft toy start request human "monday" "e1") ∷ [];
}

appended : append_event toy start request "monday" "e1" ≡ ok one
unfolding append_event actor_of lacks_provenance
appended = refl

unproven :
    append_event toy start (record request { actor = "PROVIDER" }) "monday" "e1"
    ≡ err scar_ledger_error
unfolding append_event actor_of lacks_provenance
unproven = refl

start_verifies : verify_integrity toy start ≡ true
unfolding verify_integrity verify_from
start_verifies = refl

append_event-verify_example : (verify_integrity toy one ≡ true) × Appended toy start request one
append_event-verify_example =
    append_event-verify toy start request "monday" "e1" one toy_backend-IsSigner appended
      start_verifies

one_verifies : verify_integrity toy one ≡ true
one_verifies =
    (append_event-verify toy start request "monday" "e1" one toy_backend-IsSigner appended
      start_verifies).0

assert_scar_invariants-IsSigned_example :
    ((verify_integrity toy one ≡ true) ↔ IsChained toy one)
    × ((assert_scar_invariants toy one ≡ ok tt) ↔ (IsChained toy one × IsSigned one.events))
assert_scar_invariants-IsSigned_example = assert_scar_invariants-IsSigned toy one

-- A bundle of no events has no root.
start_exported :
    export_audit_bundle toy start "friday"
    ≡ ok (
        field "format" (str "SAMA-SCAR-AUDIT-BUNDLE-1") (
          field "identity_id"
            (str "alice")
            (field "device_id" (str (device_id start)) (field "entries" (arr nil) end))))
unfolding export_audit_bundle merkle_evidence canonical_events
start_exported = refl

-- The toy digest does not tell these events apart.
abbrev revocation : EventRequest
revocation = record request { event_type = "CAPABILITY_REVOKED" }

abbrev forged : ScarLedger
forged = record start {
  events = sealed toy toy_root (draft toy start revocation human "monday" "e1") ∷ [];
}

forged_appended : append_event toy start revocation "monday" "e1" ≡ ok forged
unfolding append_event actor_of lacks_provenance
forged_appended = refl

forged_verifies : verify_integrity toy forged ≡ true
forged_verifies =
    (append_event-verify toy start revocation "monday" "e1" forged toy_backend-IsSigner
      forged_appended start_verifies).0

one_end :
    head_hash event_hash_of genesis_hash one.events
    ≡ head_hash event_hash_of genesis_hash forged.events
unfolding sealed draft hash_event chars canonical_bytes canonicalize
one_end = refl

scar_tamper_evident_example :
    (map ordered_document one.events ≡ map ordered_document forged.events)
    ⊎ Clash (SameHash toy) one.events forged.events
scar_tamper_evident_example =
    scar_tamper_evident toy one forged refl refl refl one_verifies forged_verifies one_end

attest-verify_example :
    (a : ScarAttestation) × (attest_merkle_root toy one none "friday" ≡ ok a)
    × (verify_attestation toy one a ≡ ok true)
    × (a.entry_count ≡ 1)
    × ((index : ℕ) → index < 1 → Included toy one a index)
attest-verify_example = attest-verify toy one none "friday" toy_backend-IsSigner (omega arith)

attested_one : (a : ScarAttestation) × (attest_merkle_root toy one none "friday" ≡ ok a)
attested_one =
    let (a, made, verified, counted, included) =
      attest-verify toy one none "friday" toy_backend-IsSigner (omega arith) in
    (a, made)

none_left : length start.events ≢ length one.events
none_left e = omega arith

attestation_stale_example : verify_attestation toy start attested_one.0 ≡ ok false
attestation_stale_example =
    attestation_stale toy one start none "friday" attested_one.0 attested_one.1 none_left

abbrev token : CapabilityToken
token = record {
  token_id = "t1";
  provider_id = "openai";
  owner_identity = "alice";
  scopes = read_preference ∷ [];
  forbidden_scopes = forbidden;
  issued_at = pos 1000;
  expires_at = pos 1060;
  issuer_device = "laptop";
  signature = "s";
  issuer = "HUMAN_DEVICE";
  authority_source = "ROOT_OF_TRUST";
  revoked = false;
  revocation_id = none;
  revoked_at = none;
  audit = record { issuer_device = "laptop"; created_by = "HUMAN"; reason = ""; metadata = end };
  metadata = end;
}

-- The ledger after an access with the caller's own metadata.
abbrev accessed : ScarLedger
accessed = record start {
  events =
      sealed toy toy_root (
        draft toy start (access_request token none (field "provider_id" (str "other") end)) provider
          "monday" "e2")
      ∷ [];
}

access_recorded :
    record_provider_access toy start token none
      (field "provider_id" (str "other") end)
      (pos 1001)
      "monday"
      "e2"
    ≡ ok accessed
unfolding record_provider_access assert_identity access_request append_event actor_of
    lacks_provenance is_active is_expired
access_recorded = refl

late_access :
    record_provider_access toy start token none end (pos 1060) "monday" "e2" ≡ err scar_ledger_error
unfolding record_provider_access assert_identity is_active is_expired
late_access = refl

record_provider_access-active_example :
    (token.owner_identity ≡ start.identity_id)
    × (is_active token (pos 1001) ≡ true)
    × (verify_integrity toy accessed ≡ true)
    × (e : ScarEvent) × (accessed.events ≡ start.events ++ e ∷ [])
    × (e.actor ≡ provider)
    × (e.capability_id ≡ some token.token_id)
    × (e.memory_hash ≡ none)
record_provider_access-active_example =
    record_provider_access-active toy start token none (field "provider_id" (str "other") end)
      (pos 1001) "monday" "e2" accessed toy_backend-IsSigner start_verifies access_recorded

access_names_other_provider_example :
    (verify_integrity toy accessed ≡ true)
    × (e : ScarEvent) × (accessed.events ≡ start.events ++ e ∷ [])
    × (e.metadata ≡ field "provider_id" (str "other") end)
access_names_other_provider_example =
    access_names_other_provider toy start token "other" (pos 1001) "monday" "e2" accessed
      toy_backend-IsSigner start_verifies access_recorded
