-- ===== src/Trust/Toy.antt =====
-- A small trust backend for the tests: a payload's signature is its digest.
use text.Mathlib.TextPositions.{eq_refl}
use sovereignty_ai_gate.Prelude.{false, [], ◌∷◌, ok, str_eq}
use sovereignty_ai_gate.Platform.Toy.{toy}
use sovereignty_ai_gate.Trust.{TrustBackend, IsSigner, RootOfTrust, create_identity}

abbrev pub toy_backend : TrustBackend
toy_backend = record {
  backend_name = "toy";
  hardware_backed = false;
  algorithm = "Ed25519";
  public_key_bytes = 7 ∷ [];
  sign = toy.sha3_512;
  verify = λ payload signature. str_eq (toy.sha3_512 payload) signature;
  derive_key = λ context length. ok [];
}

pub toy_backend-IsSigner : IsSigner toy_backend
toy_backend-IsSigner = record { accepts = λ payload. eq_refl (toy.sha3_512 payload) }

abbrev pub toy_root : RootOfTrust
toy_root = record { backend = toy_backend; identity = create_identity toy toy_backend 0 }
