-- ===== src/Scar/Attestation.antt =====
-- Attestations of src/sovereignty_core/audit/scar.py: the device's signature over the Merkle root of a
-- SCAR ledger.
use sovereignty_ai_gate.Prelude.{
  ℕ, String, Bool, false, not, ◌&&◌, ◌||◌, List, [], ◌∷◌, map, Option, Result, ok, err, ◌>>=◌,
  scar_ledger_error, length, ◌==◌, str_eq, if◌then◌else◌,
}
use sovereignty_ai_gate.Prelude.Int.{ℤ}
use sovereignty_ai_gate.Platform.{Platform, Bytes}
use sovereignty_ai_gate.Trust
use sovereignty_ai_gate.Trust.{RootOfTrust, verify_signature}
use sovereignty_ai_gate.Audit.{text_or}
use sovereignty_ai_gate.Utils.{canonical_bytes}
use sovereignty_ai_gate.Utils.Json.{Value, str, obj, count, end, field}
use sovereignty_ai_gate.Merkle.{MerkleTree, MerkleProof, build_merkle_from_scarlog, generate_proof}
use sovereignty_ai_gate.Scar.{ScarEvent, ScarLedger, to_dict}

pub record ScarAttestation : Type 0 where
  pub root_hash : String
  pub algorithm : String
  pub entry_count : ℕ
  pub created_at : String
  pub identity_id : String
  pub device_id : String
  pub signature : String
  pub version : ℕ
  pub signature_algorithm : String

-- `SCARAttestation.signing_document`
unfoldable pub attestation_document : ScarAttestation → Value
attestation_document a = obj (
    field "version" (count a.version) (
      field "algorithm" (str a.algorithm) (
        field "signature_algorithm" (str a.signature_algorithm) (
          field "root_hash" (str a.root_hash) (
            field "entry_count" (count a.entry_count) (
              field "created_at" (str a.created_at) (
                field "identity_id" (str a.identity_id)
                  (field "device_id" (str a.device_id) end))))))))

-- `device_id`
abbrev pub device_id : ScarLedger → String
device_id l = l.root_of_trust.identity.identity_id

-- The last test of `verify_attestation`.
unfoldable pub attests : ScarAttestation → MerkleTree → Bool
attests a tree =
    str_eq a.root_hash tree.root
    && (a.entry_count == length tree.leaves)
    && str_eq a.algorithm tree.algorithm

-- `try: tree = ... except SCARLedgerError: return False`
unfoldable pub attests_root : ScarAttestation → Result MerkleTree → Result Bool
unfolding attests
attests_root a (ok tree) = ok (attests a tree)
attests_root a (err scar_ledger_error) = ok false
attests_root a (err e) = err e

module _ (p : Platform) where
  unfoldable pub root_of_events : List ScarEvent → Result MerkleTree
  root_of_events [] = err scar_ledger_error
  root_of_events (e ∷ es) = build_merkle_from_scarlog p (map to_dict (e ∷ es))

  unfoldable pub get_merkle_root : ScarLedger → Result MerkleTree
  unfolding root_of_events
  get_merkle_root l = root_of_events l.events

  unfoldable pub prove_event : ScarLedger → ℤ → Result MerkleProof
  unfolding get_merkle_root
  prove_event l index = get_merkle_root l >>= λ tree. generate_proof tree index

  unfoldable pub attestation_bytes : ScarAttestation → Bytes
  unfolding attestation_document
  attestation_bytes a = canonical_bytes p (attestation_document a)

  -- The document of an attestation, before it is signed.
  unfoldable pub unsigned_attestation : ScarLedger → MerkleTree → String → ScarAttestation
  unsigned_attestation l tree created_at = record {
    root_hash = tree.root;
    algorithm = tree.algorithm;
    entry_count = length tree.leaves;
    created_at = created_at;
    identity_id = l.identity_id;
    device_id = device_id l;
    signature = "";
    version = 1;
    signature_algorithm = "ML-DSA-87";
  }

  -- Signed twice: the first signature only names the algorithm.
  unfoldable pub sign_attestation : ScarLedger → ScarAttestation → ScarAttestation
  unfolding attestation_bytes Trust.sign
  sign_attestation l a =
      let first = Trust.sign p l.root_of_trust (attestation_bytes a) 0 in
      let named : ScarAttestation = record a { signature_algorithm = first.algorithm } in
      record named {
        signature = (Trust.sign p l.root_of_trust (attestation_bytes named) 0).signature;
      }

  unfoldable pub attest_merkle_root : ScarLedger → Option String → String → Result ScarAttestation
  unfolding get_merkle_root unsigned_attestation sign_attestation text_or
  attest_merkle_root l created_at now = get_merkle_root l >>= λ tree.
      ok (sign_attestation l (unsigned_attestation l tree (text_or created_at now)))

  unfoldable pub verify_attestation : ScarLedger → ScarAttestation → Result Bool
  unfolding attestation_bytes verify_signature attests_root get_merkle_root
  verify_attestation l a =
      if not (str_eq a.identity_id l.identity_id) || not (str_eq a.device_id (device_id l))
      then ok false
      else if not (verify_signature l.root_of_trust (attestation_bytes a) a.signature)
      then ok false
      else attests_root a (get_merkle_root l)
