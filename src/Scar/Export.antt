-- ===== src/Scar/Export.antt =====
-- Export and assertions of src/sovereignty_core/audit/scar.py: `export_audit_bundle` and
-- `assert_scar_invariants`; and the export of the evidence adapter of src/sia/authority_adapters.py.
-- A bundle is a dict; the clock's text is an argument.
use sovereignty_ai_gate.Prelude.{
  ℕ, suc, String, ◌≡◌, ◌≢◌, ◌↔◌, refl, Bool, true, false, not, ◌||◌, List, [], ◌∷◌, none, arith,
  Result, ok, ◌>>=◌, ◌>>◌, raise_if, raise_if-eq-ok, assertion_error, str_eq, eq_iff, ◌==◌,
  if◌then◌else◌,
}
use sovereignty_ai_gate.Chain.{IsLinked}
use sovereignty_ai_gate.Platform.{Platform}
use sovereignty_ai_gate.Audit.{genesis_hash}
use sovereignty_ai_gate.Utils.Json.{
  Value, str, bool, arr, obj, count, Items, nil, cons, Fields, end, field,
}
use sovereignty_ai_gate.Merkle.{MerkleTree}
use sovereignty_ai_gate.Scar.{
  ScarEvent, ScarLedger, event_hash_of, to_dict, lacks_provenance, verify_integrity,
}
use sovereignty_ai_gate.Scar.Records.{put}
use sovereignty_ai_gate.Scar.Attestation.{
  ScarAttestation, device_id, get_merkle_root, attest_merkle_root,
}
use sovereignty_ai_gate.Scar.Integrity.{Sound, IsChained, verify_integrity-IsChained}

-- `SCARAttestation.to_dict`
unfoldable pub attestation_dict : ScarAttestation → Value
attestation_dict a = obj (
    field "version" (count a.version) (
      field "algorithm" (str a.algorithm) (
        field "signature_algorithm" (str a.signature_algorithm) (
          field "root_hash" (str a.root_hash) (
            field "entry_count" (count a.entry_count) (
              field "created_at" (str a.created_at) (
                field "identity_id" (str a.identity_id) (
                  field "device_id" (str a.device_id)
                    (field "signature" (str a.signature) end)))))))))

-- `_canonical_events`
unfoldable pub canonical_events : List ScarEvent → Items
canonical_events [] = nil
canonical_events (e ∷ es) = cons (to_dict e) (canonical_events es)

unfoldable pub evidence_fields : MerkleTree → ScarAttestation → Fields
unfolding attestation_dict
evidence_fields tree a =
    field "merkle_root" (str tree.root)
      (field "merkle_algorithm" (str tree.algorithm) (field "attestation" (attestation_dict a) end))

-- The loop's assertions on one event.
unfoldable pub breaks_invariant : ℕ → String → ScarEvent → Bool
breaks_invariant sequence identity_id e =
    not (e.sequence == sequence)
    || not (str_eq e.identity_id identity_id)
    || str_eq e.signature ""
    || str_eq e.event_hash ""
    || lacks_provenance e.actor e.capability_id

-- The loop of `assert_scar_invariants`.
unfoldable pub assert_from : String → ℕ → List ScarEvent → Result (Unit {0})
unfolding breaks_invariant
assert_from identity_id sequence [] = ok tt
assert_from identity_id sequence (e ∷ es) =
    raise_if (breaks_invariant sequence identity_id e) assertion_error
    >> assert_from identity_id (suc sequence) es

module _ (p : Platform) where
  -- What the bundle of a ledger that has events holds besides them.
  unfoldable pub merkle_evidence : ScarLedger → String → List ScarEvent → Result Fields
  unfolding evidence_fields
  merkle_evidence l now [] = ok end
  merkle_evidence l now (e ∷ es) = do
    tree ← get_merkle_root p l
    a ← attest_merkle_root p l none now
    ok (evidence_fields tree a)

  unfoldable pub export_audit_bundle : ScarLedger → String → Result Fields
  unfolding canonical_events merkle_evidence
  export_audit_bundle l now = do
    evidence ← merkle_evidence l now l.events
    ok (
        field "format" (str "SAMA-SCAR-AUDIT-BUNDLE-1") (
          field "identity_id" (str l.identity_id) (
            field "device_id" (str (device_id l))
              (field "entries" (arr (canonical_events l.events)) evidence))))

  -- `EvidenceLedgerAdapter.export_bundle`
  unfoldable pub export_bundle : ScarLedger → String → Result Fields
  unfolding export_audit_bundle
  export_bundle l now = do
    bundle ← export_audit_bundle l now
    if l.root_of_trust.identity.hardware_backed
        then ok bundle
        else ok (
            put "hardware_warning"
              (str
                "This audit bundle is signed with a real software key but does not carry hardware-backed attestation.")
              (put "signing_algorithm" (str l.root_of_trust.backend.algorithm)
                (put "hardware_backed" (bool false) bundle)))

  unfoldable pub assert_scar_invariants : ScarLedger → Result (Unit {0})
  unfolding assert_from
  assert_scar_invariants l =
      raise_if (not (verify_integrity p l)) assertion_error >> assert_from l.identity_id 0 l.events

-- Every event has a signature and a hash.
abbrev pub IsSigned : List ScarEvent → Type 0
IsSigned [] = Unit
IsSigned (e ∷ es) = ((e.signature ≢ "") × (e.event_hash ≢ "")) × IsSigned es

differ_iff : (s t : String) → (str_eq s t ≡ false) ↔ (s ≢ t)
differ_iff s t = ground (arith, eq_iff s t)

two_left :
    (a b c d k : Bool)
    → a ≡ true
    → b ≡ true
    → k ≡ false
    → ((not a || not b || c || d || k) ≡ false) ↔ ((c ≡ false) × (d ≡ false))
two_left a b c d k ha hb hk = ground arith

module _ (p : Platform) where
  assert_from-IsSigned :
      (l : ScarLedger) (n : ℕ) (before : String) (es : List ScarEvent)
      → IsLinked event_hash_of (Sound p l.root_of_trust l.identity_id) n before es
      → (assert_from l.identity_id n es ≡ ok tt) ↔ IsSigned es
  unfolding assert_from breaks_invariant
  assert_from-IsSigned l n before [] linked = (λ h. tt, λ h. refl)
  assert_from-IsSigned l n before (e ∷ es) ((a, b, c, d, s, k), linked) =
      let (there, back) = assert_from-IsSigned l (suc n) e.event_hash es linked in
      let (split, join) =
        two_left (e.sequence == n) (str_eq e.identity_id l.identity_id) (str_eq e.signature "")
          (str_eq e.event_hash "") (lacks_provenance e.actor e.capability_id) (ground arith)
          ((eq_iff _ _).1 b) d in
      (
        λ h.
            let (passed, rest) =
              raise_if-eq-ok (breaks_invariant n l.identity_id e) assertion_error _ h in
            let (signed, hashed) = split passed in
            (((differ_iff _ _).0 signed, (differ_iff _ _).0 hashed), there rest),
        λ ((signed, hashed), rest).
            rw (join ((differ_iff _ _).1 signed, (differ_iff _ _).1 hashed)) (back rest),
      )

  -- `verify_integrity` accepts exactly the ledgers in which every event has its position as its
  -- sequence number, the ledger's identity, the hash of the event before it (the first one the
  -- genesis sentinel), a capability if its actor is a provider, a signature over its document that
  -- the device verifies, and the hash of its document and signature. `assert_scar_invariants` passes
  -- exactly those of them in which no event's signature or hash is empty.
  pub assert_scar_invariants-IsSigned :
      (l : ScarLedger)
      → ((verify_integrity p l ≡ true) ↔ IsChained p l)
        × ((assert_scar_invariants p l ≡ ok tt) ↔ (IsChained p l × IsSigned l.events))
  unfolding assert_scar_invariants
  assert_scar_invariants-IsSigned l =
      let (there, back) = verify_integrity-IsChained p l in
      (
        (there, back),
        (
          λ h.
              let (passed, rest) =
                raise_if-eq-ok (not (verify_integrity p l)) assertion_error _ h in
              let chained = there (ground arith) in
              (chained, (assert_from-IsSigned l 0 genesis_hash l.events chained).0 rest),
          λ (chained, signed).
              rw (back chained) ((assert_from-IsSigned l 0 genesis_hash l.events chained).1 signed),
        ),
      )
