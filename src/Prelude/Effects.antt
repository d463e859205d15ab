-- ===== src/Prelude/Effects.antt =====
-- Python code that changes state and may raise: what it did to the state before an exception stays
-- done.
use mathlib.Core.Path.{◌≡◌, refl}
use mathlib.Core.Bool.{Bool, true, false}
use sovereignty_ai_gate.Prelude.Tests.{if◌then◌else◌}
use sovereignty_ai_gate.Prelude.Results.{Result, ok, err}

abbrev pub Effect {ℓ κ} : Type ℓ → Type κ → Type (ℓ ⊔ κ)
Effect S A = S → S × Result A

abbrev pub continue {ℓ κ μ} :
    {S : Type ℓ} {A : Type κ} {B : Type μ} → (A → Effect S B) → S × Result A → S × Result B
continue next (s, err e) = (s, err e)
continue next (s, ok a) = next a s

infixl 5 ◌>>=◌ ◌>>◌
abbrev pub ◌>>=◌ {ℓ κ μ} :
    {S : Type ℓ} {A : Type κ} {B : Type μ} → Effect S A → (A → Effect S B) → Effect S B
m >>= next = λ s. continue next (m s)

abbrev pub ◌>>◌ {ℓ μ} : {S : Type ℓ} {B : Type μ} → Effect S (Unit {0}) → Effect S B → Effect S B
m >> next = m >>= λ _. next

abbrev pub return {ℓ κ} : {S : Type ℓ} {A : Type κ} → A → Effect S A
return a = λ s. (s, ok a)

-- A value of the state.
abbrev pub reads {ℓ κ} : {S : Type ℓ} {A : Type κ} → (S → A) → Effect S A
reads f = λ s. (s, ok (f s))

abbrev pub modify {ℓ} : {S : Type ℓ} → (S → S) → Effect S (Unit {0})
modify f = λ s. (f s, ok tt)

-- Code that changes nothing.
abbrev pub lift {ℓ κ} : {S : Type ℓ} {A : Type κ} → Result A → Effect S A
lift m = λ s. (s, m)

module _ {ℓ κ μ} {S : Type ℓ} {A : Type κ} {B : Type μ} where
  continue-ok :
      (next : A → Effect S B) (before : S × Result A) {u : S} {b : B}
      → continue next before ≡ (u, ok b)
      → (t : S) × (a : A) × (before ≡ (t, ok a)) × (next a t ≡ (u, ok b))
  continue-ok next (s, err e) h = cc
  continue-ok next (s, ok a) h = (s, a, refl, h)

  -- Inversion of a bind that returns.
  pub >>=-returned :
      (m : Effect S A) (next : A → Effect S B) (s : S) {u : S} {b : B}
      → (m >>= next) s ≡ (u, ok b)
      → (t : S) × (a : A) × (m s ≡ (t, ok a)) × (next a t ≡ (u, ok b))
  >>=-returned m next s h = continue-ok next (m s) h

-- What code keeps of a state, whether it returns or raises.
pub record Keeps {ℓ κ μ} {S : Type ℓ} {A : Type κ} (Inv : S → Type μ) (m : Effect S A)
    : Type (ℓ ⊔ μ) where
  pub kept : (s : S) → Inv s → Inv (m s).0

module _ {ℓ κ μ ν} {S : Type ℓ} {A : Type κ} {B : Type μ} (Inv : S → Type ν) where
  continue-keeps :
      (next : A → Effect S B) (before : S × Result A)
      → Inv before.0
      → ((a : A) → Keeps Inv (next a))
      → Inv (continue next before).0
  continue-keeps next (s, err e) held rest = held
  continue-keeps next (s, ok a) held rest = (rest a).kept s held

  pub >>=-keeps :
      {m : Effect S A} {next : A → Effect S B}
      → Keeps Inv m
      → ((a : A) → Keeps Inv (next a))
      → Keeps Inv (m >>= next)
  >>=-keeps {m} {next} first rest = record {
    kept = λ s held. continue-keeps next (m s) (first.kept s held) rest;
  }

module _ {ℓ κ ν} {S : Type ℓ} {A : Type κ} (Inv : S → Type ν) where
  pub lift-keeps : (m : Result A) → Keeps {S = S} Inv (lift m)
  lift-keeps m = record { kept = λ s held. held }

  pub reads-keeps : (f : S → A) → Keeps Inv (reads f)
  reads-keeps f = record { kept = λ s held. held }

  pub return-keeps : (a : A) → Keeps {S = S} Inv (return a)
  return-keeps a = record { kept = λ s held. held }

  pub if-keeps :
      (test : Bool) {m n : Effect S A}
      → Keeps Inv m
      → Keeps Inv n
      → Keeps Inv (if test then m else n)
  if-keeps true kept other = kept
  if-keeps false kept other = other

module _ {ℓ ν} {S : Type ℓ} (Inv : S → Type ν) where
  pub modify-keeps : (f : S → S) → ((s : S) → Inv s → Inv (f s)) → Keeps Inv (modify f)
  modify-keeps f frame = record { kept = frame }
