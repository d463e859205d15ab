-- ===== src/Trust/Tests.antt =====
-- Runs of `derive_key` of src/sovereignty_core/identity/root_of_trust.py.
use sovereignty_ai_gate.Prelude.{◌≡◌, refl, [], ◌∷◌, arith, ok, err, root_trust_error, length}
use sovereignty_ai_gate.Prelude.Int.{pos, negsuc}
use sovereignty_ai_gate.Platform.{Bytes}
use sovereignty_ai_gate.Platform.Toy.{toy}
use sovereignty_ai_gate.Trust.Derive.{derive_key, derive_key-length}

no_length : derive_key toy [] [] (negsuc 4) ≡ err root_trust_error
unfolding derive_key
no_length = refl

derive_key-length_example :
    (key : Bytes) × (derive_key toy (1 ∷ 2 ∷ []) (3 ∷ []) (pos 100) ≡ ok key) × (length key ≡ 100)
derive_key-length_example =
    derive_key-length toy (1 ∷ 2 ∷ []) (3 ∷ []) 100 (λ b. refl) (omega arith) (omega arith)
