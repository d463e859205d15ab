-- ===== src/Permissions/Consent.antt =====
-- src/sovereignty_core/permissions/consent.py: explicit consent records and their lifecycle.
use sovereignty_ai_gate.Prelude.{
  String, ◌≡◌, ◌↔◌, refl, ap, ok-injective, raise_if-eq-ok, Bool, true, false, not, ◌&&◌, List,
  Option, none, some, arith, Result, ok, ◌>>◌, raise_if, value_error, contains, if◌then◌else◌,
}
use sovereignty_ai_gate.Prelude.Int.{ℤ, ltb_ℤ, ◌≤ℤ◌}
use sovereignty_ai_gate.Utils.Json.{Fields}

pub data ConsentStatus : Type 0 where
  active revoked expired : ConsentStatus

pub record ConsentRecord : Type 0 where
  pub consent_id : String
  pub owner_identity : String
  pub grantee_id : String
  pub scopes : List String
  pub purpose : String
  pub issued_at : ℤ
  pub issuer_device : String
  pub expires_at : Option ℤ
  pub status : ConsentStatus
  pub revoked_at : Option ℤ
  pub revocation_reason : Option String
  pub metadata : Fields

-- The arguments of `grant`.
pub record GrantRequest : Type 0 where
  pub owner_identity : String
  pub grantee_id : String
  pub scopes : List String
  pub purpose : String
  pub issuer_device : String
  pub expires_at : Option ℤ
  pub metadata : Fields

-- `expires_at is not None and now >= expires_at`
unfoldable pub is_past : Option ℤ → ℤ → Bool
is_past none now = false
is_past (some expires_at) now = not (ltb_ℤ now expires_at)

unfoldable pub grant : GrantRequest → ℤ → String → Result ConsentRecord
unfolding is_past
grant r now uuid = do
  raise_if (is_past r.expires_at now) value_error
  ok (record {
    consent_id = uuid;
    owner_identity = r.owner_identity;
    grantee_id = r.grantee_id;
    scopes = r.scopes;
    purpose = r.purpose;
    issued_at = now;
    issuer_device = r.issuer_device;
    expires_at = r.expires_at;
    status = active;
    revoked_at = none;
    revocation_reason = none;
    metadata = r.metadata;
  })

abbrev pub is_revoked : ConsentStatus → Bool
is_revoked active = false
is_revoked revoked = true
is_revoked expired = false

unfoldable pub is_active : ConsentRecord → ℤ → Bool
unfolding is_past
is_active c now =
    if is_revoked c.status then false else if is_past c.expires_at now then false else true

unfoldable pub current_status : ConsentRecord → ℤ → ConsentStatus
unfolding is_past
current_status c now =
    if is_revoked c.status then revoked else if is_past c.expires_at now then expired else active

unfoldable pub revoke : ConsentRecord → String → ℤ → ConsentRecord
revoke c reason revoked_at = record c {
  status = revoked;
  revocation_reason = some reason;
  revoked_at = some revoked_at;
}

unfoldable pub allows : ConsentRecord → String → ℤ → Bool
unfolding is_active
allows c scope now = is_active c now && contains scope c.scopes

is_past_later :
    (expires_at : Option ℤ) (now later : ℤ)
    → now ≤ℤ later
    → is_past expires_at later ≡ false
    → is_past expires_at now ≡ false
unfolding is_past
is_past_later none now later h e = refl
is_past_later (some x) now later h e = ground arith

active_is_not_expired :
    (a b : Bool)
    → ((if a then revoked else if b then expired else active) ≡ active)
      ↔ ((if a then false else if b then false else true) ≡ true)
active_is_not_expired true b = (λ h. absurd (ground arith), λ h. absurd (ground arith))
active_is_not_expired false true = (λ h. absurd (ground arith), λ h. absurd (ground arith))
active_is_not_expired false false = (λ h. refl, λ h. refl)

both_tests :
    (past held : Bool)
    → (((if past then false else true) && held) ≡ true) ↔ ((held ≡ true) × (past ≡ false))
both_tests past held = ground arith

-- A consent is active exactly when its current status is ACTIVE.
pub is_active-current_status :
    (c : ConsentRecord) (now : ℤ) → (current_status c now ≡ active) ↔ (is_active c now ≡ true)
unfolding current_status is_active
is_active-current_status c now =
    active_is_not_expired (is_revoked c.status) (is_past c.expires_at now)

-- A consent that `grant` makes allows a scope at a time exactly when the scope was granted and
-- the time is before the expiry, where there is one; what it allows at some time it has allowed
-- at every earlier one; and once revoked it allows nothing.
pub grant-allows :
    (r : GrantRequest) (issued : ℤ) (uuid : String) (c : ConsentRecord) (scope : String)
    (now earlier : ℤ)
    → grant r issued uuid ≡ ok c
    → earlier ≤ℤ now
    → ((allows c scope now ≡ true)
        ↔ ((contains scope r.scopes ≡ true) × (is_past r.expires_at now ≡ false)))
      × (allows c scope now ≡ true → allows c scope earlier ≡ true)
      × ((reason : String) (at later : ℤ) → allows (revoke c reason at) scope later ≡ false)
unfolding grant allows is_active revoke
grant-allows r issued uuid c scope now earlier h before =
    let made = ok-injective (raise_if-eq-ok _ value_error _ h).1 in
    let status : active ≡ c.status = ap (λ (x : ConsentRecord). x.status) made in
    let expiry : r.expires_at ≡ c.expires_at = ap (λ (x : ConsentRecord). x.expires_at) made in
    let scopes : r.scopes ≡ c.scopes = ap (λ (x : ConsentRecord). x.scopes) made in
    rw (← status, ← expiry, ← scopes)
      (
        both_tests (is_past r.expires_at now) (contains scope r.scopes),
        λ held. (both_tests (is_past r.expires_at earlier) (contains scope r.scopes)).1 (
          ((both_tests (is_past r.expires_at now) (contains scope r.scopes)).0 held).0,
          is_past_later r.expires_at earlier now before
              ((both_tests (is_past r.expires_at now) (contains scope r.scopes)).0 held).1,
        ),
        λ reason at later. refl,
      )
