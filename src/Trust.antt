-- ===== src/Trust.antt =====
-- src/sovereignty_core/identity/root_of_trust.py: the root of trust over a backend. `TrustBackend` is
-- the abstract class; its implementations hand out signatures of code that is not in the
-- repository, so a backend is a value of this record. The clock's reading is an argument.
pub mod Derive
pub mod Toy
mod Tests
use sovereignty_ai_gate.Prelude.{
  ℕ, String, Bool, true, false, not, List, [], ◌∷◌, ◌++◌, Result, str_eq, ◌≡◌, if◌then◌else◌,
}
use sovereignty_ai_gate.Prelude.Int.{ℤ, pos}
use sovereignty_ai_gate.Platform.{Platform, Bytes}

pub record TrustBackend : Type 0 where
  pub backend_name : String
  pub hardware_backed : Bool
  pub algorithm : String
  pub public_key_bytes : Bytes
  pub sign : Bytes → String
  pub verify : Bytes → String → Bool
  pub derive_key : Bytes → ℤ → Result Bytes

-- The documented behaviour of a signature: `verify` accepts what `sign` made of the same payload.
pub record IsSigner (b : TrustBackend) : Type 0 where
  pub accepts : (payload : Bytes) → b.verify payload (b.sign payload) ≡ true

pub record DeviceIdentity : Type 0 where
  pub identity_id : String
  pub public_key : String
  pub backend_name : String
  pub hardware_backed : Bool
  pub created_at : ℕ
  pub version : ℕ

pub record SignedObject : Type 0 where
  pub payload_hash : String
  pub signature : String
  pub signer : String
  pub timestamp : ℕ
  pub algorithm : String

pub record RootOfTrust : Type 0 where
  pub backend : TrustBackend
  pub identity : DeviceIdentity

module _ (p : Platform) where
  unfoldable pub create_identity : TrustBackend → ℕ → DeviceIdentity
  create_identity b now = record {
    identity_id = p.sha3_512 (p.encode "SAMA_IDENTITY:" ++ b.public_key_bytes);
    public_key = p.hex b.public_key_bytes;
    backend_name = b.backend_name;
    hardware_backed = b.hardware_backed;
    created_at = now;
    version = 1;
  }

  -- `RootOfTrust(backend)`
  unfoldable pub root_of_trust : TrustBackend → ℕ → RootOfTrust
  unfolding create_identity
  root_of_trust b now = record { backend = b; identity = create_identity b now }

  unfoldable pub derive_identity_key : RootOfTrust → Result Bytes
  derive_identity_key r = r.backend.derive_key (p.encode "SAMA_IDENTITY_KEY") (pos 32)

  unfoldable pub derive_vault_key : RootOfTrust → Result Bytes
  derive_vault_key r = r.backend.derive_key (p.encode "SAMA_VAULT_KEY") (pos 32)

  unfoldable pub sign : RootOfTrust → Bytes → ℕ → SignedObject
  sign r payload now = record {
    payload_hash = p.sha3_512 payload;
    signature = r.backend.sign payload;
    signer = r.identity.identity_id;
    timestamp = now;
    algorithm = r.backend.algorithm;
  }

  unfoldable pub verify : RootOfTrust → Bytes → SignedObject → Bool
  verify r payload signed =
      if not (str_eq (p.sha3_512 payload) signed.payload_hash)
      then false
      else r.backend.verify payload signed.signature

unfoldable pub verify_signature : RootOfTrust → Bytes → String → Bool
verify_signature r payload signature = r.backend.verify payload signature
