-- ===== src/Prelude/Results.antt =====
-- What Python code raises, as a value. Messages are not modelled: a constructor stands for the
-- exception's class and, where classes are shared, for the error code it carries.
use mathlib.Core.Path.{◌≡◌, refl}
use mathlib.Core.Logic.{◌↔◌}
use mathlib.Core.Bool.{Bool, true, false}
use mathlib.Core.Option.{Option, none, some}

pub data Error : Type 0 where
  value_error type_error index_error key_error permission_error : Error
  merkle_error scar_ledger_error audit_tampered audit_chain_error : Error
  delegation_invalid delegation_expired delegation_revoked delegation_scope : Error
  delegation_chain_too_deep : Error
  codec_error policy_denied not_initialized : Error
  direct_execution_denied context_forgery_denied capability_validation_error : Error
  duplicate_tool_registration root_trust_error overflow_error : Error
  memory_schema_error memory_consent_denied : Error
  export_schema_invalid import_duplicate import_version_unsupported : Error
  import_schema_invalid registry_not_found registry_duplicate : Error
  creator_locked conversion_denied provider_call_error subprocess_error assertion_error : Error

pub data Result {ℓ} (A : Type ℓ) : Type ℓ where
  err : Error → Result A
  ok : A → Result A

-- `if test: raise e`
abbrev pub raise_if : Bool → Error → Result (Unit {0})
raise_if true e = err e
raise_if false e = ok tt

infixl 5 ◌>>=◌ ◌>>◌
-- `abbrev`, so that it computes wherever an outcome is known.
abbrev pub ◌>>=◌ {ℓ κ} : {A : Type ℓ} {B : Type κ} → Result A → (A → Result B) → Result B
err e >>= next = err e
ok a >>= next = next a

-- After a check that returns nothing.
abbrev pub ◌>>◌ {κ} : {B : Type κ} → Result (Unit {0}) → Result B → Result B
check >> rest = check >>= λ _. rest

-- Inversion of a successful bind.
pub >>=-eq-ok {ℓ κ} :
    {A : Type ℓ} {B : Type κ} (outcome : Result A) (next : A → Result B) {b : B}
    → (outcome >>= next) ≡ ok b
    → (a : A) × (outcome ≡ ok a) × (next a ≡ ok b)
>>=-eq-ok (err e) next returned = cc
>>=-eq-ok (ok a) next returned = (a, refl, returned)

pub ok-injective {ℓ} : {A : Type ℓ} {a b : A} → ok a ≡ ok b → a ≡ b
ok-injective e = cc

-- Inversion of a test that did not raise.
pub raise_if-eq-ok {ℓ} :
    {B : Type ℓ} (test : Bool) (e : Error) (m : Result B) {b : B}
    → (raise_if test e >> m) ≡ ok b
    → (test ≡ false) × (m ≡ ok b)
raise_if-eq-ok true e m h = cc
raise_if-eq-ok false e m h = (refl, h)

-- The same for a test that comes last.
pub raise_if_iff : (test : Bool) (e : Error) → (raise_if test e ≡ ok tt) ↔ (test ≡ false)
raise_if_iff true e = (λ h. cc, λ h. cc)
raise_if_iff false e = (λ h. refl, λ h. refl)

pub bind-ok {ℓ κ} :
    {A : Type ℓ} {B : Type κ} {m : Result A} {a : A} (f : A → Result B) → m ≡ ok a → (m >>= f) ≡ f a
bind-ok f e = rw e refl

-- A value that a lookup must find, or an exception.
abbrev pub require {ℓ} : {A : Type ℓ} → Error → Option A → Result A
require e none = err e
require e (some a) = ok a

pub require-some {ℓ} :
    {A : Type ℓ} (e : Error) {o : Option A} {a : A} → o ≡ some a → require e o ≡ ok a
require-some e h = rw h refl

pub require-eq-ok {ℓ} :
    {A : Type ℓ} (e : Error) (o : Option A) {a : A} → require e o ≡ ok a → o ≡ some a
require-eq-ok e none h = cc
require-eq-ok e (some a) h = cc
