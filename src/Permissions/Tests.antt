-- ===== src/Permissions/Tests.antt =====
-- Runs of src/sovereignty_core/permissions/capability.py and consent.py.
use sovereignty_ai_gate.Prelude.{
  String, ◌≡◌, ◌≢◌, ◌↔◌, refl, true, [], ◌∷◌, Option, some, none, ok, err, value_error, contains,
}
use sovereignty_ai_gate.Prelude.Int.{ℤ, pos, ltb_ℤ, ◌+ℤ◌}
use sovereignty_ai_gate.Utils.Json.{end}
use sovereignty_ai_gate.Permissions.{
  CapabilityToken, CreateRequest, read_preference, token_of, create, scopes_of, scope_of, member_of,
  has, assert_invariants, meets, is_none_left, allows, revoke,
}
use sovereignty_ai_gate.Permissions.Lifecycle.{LeastPrivilege, create-allows}
use sovereignty_ai_gate.Permissions.Consent.{
  ConsentRecord, GrantRequest, ConsentStatus, grant, is_past, current_status,
}

abbrev pub request : CreateRequest
request = record {
  provider_id = "openai";
  owner_identity = "alice";
  scopes = "READ_PREFERENCE" ∷ "READ_PREFERENCE" ∷ [];
  issuer_device = "laptop";
  signature = "s";
  ttl_seconds = pos 60;
  reason = "";
  metadata = end;
}

abbrev pub token : CapabilityToken
token = token_of request (read_preference ∷ []) (pos 1000) "t1"

created : create request (pos 1000) "t1" ≡ ok token
unfolding create scopes_of scope_of member_of has assert_invariants meets is_none_left token_of ◌+ℤ◌
created = refl

root_refused :
    create (record request { scopes = "ROOT_ACCESS" ∷ [] }) (pos 1000) "t1" ≡ err value_error
unfolding create scopes_of scope_of member_of has assert_invariants meets is_none_left token_of ◌+ℤ◌
root_refused = refl

create-allows_example :
    LeastPrivilege token
    × ((scope : String) (at : ℤ)
        → (allows token scope at ≡ ok true)
          ↔ ((contains scope request.scopes ≡ true) × (ltb_ℤ at (pos 1000 +ℤ pos 60) ≡ true)))
    × ((revocation_id : Option String) (id scope : String) (revoked_at at : ℤ)
        → allows (revoke token revocation_id id revoked_at) scope at ≢ ok true)
create-allows_example = create-allows request (pos 1000) "t1" token created

abbrev approval : GrantRequest
approval = record {
  owner_identity = "alice";
  grantee_id = "openai";
  scopes = "chat" ∷ [];
  purpose = "help";
  issuer_device = "laptop";
  expires_at = some (pos 50);
  metadata = end;
}

abbrev consent : ConsentRecord
consent = record {
  consent_id = "k1";
  owner_identity = "alice";
  grantee_id = "openai";
  scopes = "chat" ∷ [];
  purpose = "help";
  issued_at = pos 10;
  issuer_device = "laptop";
  expires_at = some (pos 50);
  status = ConsentStatus.active;
  revoked_at = none;
  revocation_reason = none;
  metadata = end;
}

granted : grant approval (pos 10) "k1" ≡ ok consent
unfolding grant is_past
granted = refl

late : current_status consent (pos 50) ≡ ConsentStatus.expired
unfolding current_status is_past
late = refl
