-- ===== src/Scar/Attested.antt =====
-- Attestations of src/sovereignty_core/audit/scar.py, and the ledgers that verify them.
use sovereignty_ai_gate.Prelude.{
  ℕ, ◌<◌, String, ◌≡◌, ◌≢◌, refl, sym, ap, ◌∙◌, Bool, true, false, List, [], ◌∷◌, map, Option,
  arith, Result, ok, >>=-eq-ok, bind-ok, ok-injective, length, length-map, eq_iff, if◌then◌else◌,
}
use sovereignty_ai_gate.Prelude.Int.{pos}
use sovereignty_ai_gate.Platform.{Platform}
use sovereignty_ai_gate.Trust
use sovereignty_ai_gate.Trust.{RootOfTrust, IsSigner, verify_signature}
use sovereignty_ai_gate.Audit.{text_or}
use sovereignty_ai_gate.Merkle.{MerkleTree, MerkleProof, verify_merkle_proof, hash_entry}
use sovereignty_ai_gate.Merkle.Proofs.{Proves, generate_proof-verify}
use sovereignty_ai_gate.Scar.{ScarEvent, ScarLedger, to_dict}
use sovereignty_ai_gate.Scar.Attestation.{
  ScarAttestation, root_of_events, get_merkle_root, prove_event, attestation_bytes,
  unsigned_attestation, sign_attestation, attest_merkle_root, attestation_document, attests,
  attests_root, verify_attestation, device_id,
}

module _ (p : Platform) where
  -- The tree of a ledger that is not empty.
  record Rooted (es : List ScarEvent) : Type 0 where
    pub tree : MerkleTree
    pub built : root_of_events p es ≡ ok tree
    pub leaves : length tree.leaves ≡ length es
    pub proves : (index : ℕ) → index < length es → Proves p tree index

  events-Rooted : (es : List ScarEvent) → 0 < length es → Rooted es
  unfolding root_of_events
  events-Rooted [] h = absurd (omega arith)
  events-Rooted (e ∷ es) h =
      let (tree, built, leaves, proves, none_past, none_before) =
        generate_proof-verify p (to_dict e) (map to_dict es) in
      let size : length (map to_dict (e ∷ es)) ≡ length (e ∷ es) = length-map to_dict (e ∷ es) in
      record {
        tree = tree;
        built = built;
        leaves = ap length leaves ∙ length-map (hash_entry p) (map to_dict (e ∷ es)) ∙ size;
        proves = λ index inside. proves index (omega (arith, size));
      }

  -- A proof for one event of a ledger, against the root that an attestation names.
  pub record Included (l : ScarLedger) (a : ScarAttestation) (index : ℕ) : Type 0 where
    pub proof : MerkleProof
    pub proved : prove_event p l (pos index) ≡ ok proof
    pub accepted : verify_merkle_proof p proof ≡ ok true
    pub attested : proof.root ≡ a.root_hash

  attests_same :
      (a : ScarAttestation) (tree : MerkleTree)
      → a.root_hash ≡ tree.root
      → a.entry_count ≡ length tree.leaves
      → a.algorithm ≡ tree.algorithm
      → attests a tree ≡ true
  unfolding attests
  attests_same a tree root count algorithm =
      ground (arith, eq_iff a.root_hash tree.root, eq_iff a.algorithm tree.algorithm)

  verify_of_parts :
      (l : ScarLedger) (a : ScarAttestation) (tree : MerkleTree)
      → a.identity_id ≡ l.identity_id
      → a.device_id ≡ device_id l
      → verify_signature l.root_of_trust (attestation_bytes p a) a.signature ≡ true
      → root_of_events p l.events ≡ ok tree
      → verify_attestation p l a ≡ ok (attests a tree)
  unfolding verify_attestation get_merkle_root attests_root
  verify_of_parts l a tree identity device signed built =
      rw ((eq_iff _ _).1 identity, (eq_iff _ _).1 device, signed, built) refl

  leaves_of :
      (es : List ScarEvent) (tree : MerkleTree)
      → root_of_events p es ≡ ok tree
      → length tree.leaves ≡ length es
  leaves_of [] tree built = unfold root_of_events in cc built
  leaves_of (e ∷ es) tree built =
      let r = events-Rooted (e ∷ es) (omega arith) in
      ap (λ (t : MerkleTree). length t.leaves) (ok-injective (sym built ∙ r.built)) ∙ r.leaves

  other_count :
      (a : ScarAttestation) (es : List ScarEvent)
      → length es ≢ a.entry_count
      → attests_root a (root_of_events p es) ≡ ok false
  unfolding attests_root attests
  other_count a [] differ = unfold root_of_events in refl
  other_count a (e ∷ es) differ =
      let r = events-Rooted (e ∷ es) (omega arith) in
      rw r.built (ap ok (ground (arith, differ, r.leaves)))

  refused_at_last :
      (a b : Bool) (last : Result Bool)
      → last ≡ ok false
      → (if a then ok false else if b then ok false else last) ≡ ok false
  refused_at_last a b last h = ground arith

  -- A ledger that has events, on a device whose signatures verify, can be attested; it verifies its
  -- attestation, which counts its events; and each event has a proof that is accepted against the
  -- attested root.
  pub attest-verify :
      (l : ScarLedger) (created_at : Option String) (now : String)
      → IsSigner l.root_of_trust.backend
      → 0 < length l.events
      → (a : ScarAttestation) × (attest_merkle_root p l created_at now ≡ ok a)
        × (verify_attestation p l a ≡ ok true)
        × (a.entry_count ≡ length l.events)
        × ((index : ℕ) → index < length l.events → Included l a index)
  unfolding attest_merkle_root get_merkle_root unsigned_attestation sign_attestation
      attestation_bytes attestation_document verify_attestation verify_signature Trust.sign
      attests_root attests prove_event
  attest-verify l created_at now signer some_event =
      let r = events-Rooted l.events some_event in
      let a = sign_attestation p l (unsigned_attestation p l r.tree (text_or created_at now)) in
      (
        a,
        bind-ok _ r.built,
        verify_of_parts l a r.tree refl refl (signer.accepts (attestation_bytes p a)) r.built
            ∙ ap ok (attests_same a r.tree refl refl refl),
        r.leaves,
        λ index inside.
            let q = r.proves index inside in
            record {
              proof = q.proof;
              proved = bind-ok _ r.built ∙ q.generated;
              accepted = q.accepted;
              attested = q.same_root;
            },
      )

  -- What an attestation counts.
  entry_count_of :
      (l : ScarLedger) (created_at : Option String) (now : String) (a : ScarAttestation)
      → attest_merkle_root p l created_at now ≡ ok a
      → a.entry_count ≡ length l.events
  unfolding attest_merkle_root get_merkle_root unsigned_attestation sign_attestation
  entry_count_of l created_at now a h =
      let (tree, built, made) = >>=-eq-ok (root_of_events p l.events) _ h in
      ap (λ (x : ScarAttestation). x.entry_count) (sym (ok-injective made))
      ∙ leaves_of l.events tree built

  -- An attestation of one ledger is refused, without an exception, by every ledger that holds
  -- another number of events, such as the same ledger after an append.
  pub attestation_stale :
      (l l' : ScarLedger) (created_at : Option String) (now : String) (a : ScarAttestation)
      → attest_merkle_root p l created_at now ≡ ok a
      → length l'.events ≢ length l.events
      → verify_attestation p l' a ≡ ok false
  unfolding verify_attestation get_merkle_root
  attestation_stale l l' created_at now a h other =
      let count = entry_count_of l created_at now a h in
      refused_at_last _ _ _ (other_count a l'.events (λ same. other (same ∙ count)))
