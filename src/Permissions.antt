-- ===== src/Permissions.antt =====
-- src/sovereignty_core/permissions/capability.py: temporary, signed provider permission tokens. A
-- frozenset is a list without repeats; the clock's reading and a new UUID are arguments.
pub mod Consent
pub mod Lifecycle
mod Tests
use sovereignty_ai_gate.Prelude.{
  String, Bool, true, false, not, ◌&&◌, List, [], ◌∷◌, Option, none, some, map, all, Result, ok,
  err, ◌>>=◌, ◌>>◌, raise_if, value_error, str_eq, if◌then◌else◌,
}
use sovereignty_ai_gate.Prelude.Int.{ℤ, ltb_ℤ, ◌+ℤ◌}
use sovereignty_ai_gate.Platform.{Platform, Bytes}
use sovereignty_ai_gate.Utils.{sort_texts}
use sovereignty_ai_gate.Utils.Json.{Value, arr, int, obj, str, Fields, end, field, texts}

pub data CapabilityScope : Type 0 where
  read_preference read_context_window append_memory_suggestion : CapabilityScope
  write_confirmed_memory root_access admin_memory_access export_vault : CapabilityScope
  export_private_keys mint_identity : CapabilityScope

-- `scope.value`
abbrev pub value : CapabilityScope → String
value read_preference = "READ_PREFERENCE"
value read_context_window = "READ_CONTEXT_WINDOW"
value append_memory_suggestion = "APPEND_MEMORY_SUGGESTION"
value write_confirmed_memory = "WRITE_CONFIRMED_MEMORY"
value root_access = "ROOT_ACCESS"
value admin_memory_access = "ADMIN_MEMORY_ACCESS"
value export_vault = "EXPORT_VAULT"
value export_private_keys = "EXPORT_PRIVATE_KEYS"
value mint_identity = "MINT_IDENTITY"

abbrev pub allowed_scopes : List CapabilityScope
allowed_scopes =
    read_preference ∷ read_context_window ∷ append_memory_suggestion ∷ write_confirmed_memory ∷ []

abbrev pub forbidden : List CapabilityScope
forbidden =
    root_access ∷ admin_memory_access ∷ export_vault ∷ export_private_keys ∷ mint_identity ∷ []

-- `CapabilityScope(text)`: the member of this value, or a ValueError.
member_of : List CapabilityScope → String → Result CapabilityScope
member_of [] text = err value_error
member_of (s ∷ ss) text =
    let rest = member_of ss text in if str_eq (value s) text then ok s else rest

abbrev pub all_scopes : List CapabilityScope
all_scopes =
    read_preference ∷ read_context_window ∷ append_memory_suggestion ∷ write_confirmed_memory
    ∷ forbidden

unfoldable pub scope_of : String → Result CapabilityScope
unfolding member_of
scope_of text = member_of all_scopes text

-- `scope in scopes`
unfoldable pub has : CapabilityScope → List CapabilityScope → Bool
has s [] = false
has s (x ∷ xs) = let rest = has s xs in if str_eq (value s) (value x) then true else rest

-- `frozenset(CapabilityScope(scope) for scope in scopes)`
unfoldable pub scopes_of : List String → Result (List CapabilityScope)
unfolding scope_of has
scopes_of [] = ok []
scopes_of (t ∷ ts) =
    let rest = scopes_of ts in
    scope_of t >>= λ s. rest >>= λ ss. ok (if has s ss then ss else s ∷ ss)

-- `scopes & other`, as a test.
unfoldable pub meets : List CapabilityScope → List CapabilityScope → Bool
unfolding has
meets [] other = false
meets (s ∷ ss) other = let rest = meets ss other in if has s other then true else rest

pub record CapabilityAudit : Type 0 where
  pub issuer_device : String
  pub created_by : String
  pub reason : String
  pub metadata : Fields

pub record CapabilityToken : Type 0 where
  pub token_id : String
  pub provider_id : String
  pub owner_identity : String
  pub scopes : List CapabilityScope
  pub forbidden_scopes : List CapabilityScope
  pub issued_at : ℤ
  pub expires_at : ℤ
  pub issuer_device : String
  pub signature : String
  pub issuer : String
  pub authority_source : String
  pub revoked : Bool
  pub revocation_id : Option String
  pub revoked_at : Option ℤ
  pub audit : CapabilityAudit
  pub metadata : Fields

unfoldable pub is_none_left : List CapabilityScope → Bool
is_none_left [] = true
is_none_left (s ∷ ss) = false

unfoldable pub assert_invariants : CapabilityToken → Result (Unit {0})
unfolding has meets is_none_left
assert_invariants t = do
  raise_if (str_eq t.provider_id t.owner_identity) value_error
  raise_if (str_eq t.provider_id t.authority_source) value_error
  raise_if (not (str_eq t.issuer "HUMAN_DEVICE")) value_error
  raise_if (is_none_left t.scopes) value_error
  raise_if (not (all (λ s. has s allowed_scopes) t.scopes)) value_error
  raise_if (meets t.scopes t.forbidden_scopes) value_error
  raise_if (has root_access t.scopes) value_error
  raise_if (not (ltb_ℤ t.issued_at t.expires_at)) value_error

-- The arguments of `create`.
pub record CreateRequest : Type 0 where
  pub provider_id : String
  pub owner_identity : String
  pub scopes : List String
  pub issuer_device : String
  pub signature : String
  pub ttl_seconds : ℤ
  pub reason : String
  pub metadata : Fields

-- The object that `create` makes; `__post_init__` then checks it.
unfoldable pub token_of : CreateRequest → List CapabilityScope → ℤ → String → CapabilityToken
token_of r scopes now uuid = record {
  token_id = uuid;
  provider_id = r.provider_id;
  owner_identity = r.owner_identity;
  scopes = scopes;
  forbidden_scopes = forbidden;
  issued_at = now;
  expires_at = now +ℤ r.ttl_seconds;
  issuer_device = r.issuer_device;
  signature = r.signature;
  issuer = "HUMAN_DEVICE";
  authority_source = "ROOT_OF_TRUST";
  revoked = false;
  revocation_id = none;
  revoked_at = none;
  audit = record {
    issuer_device = r.issuer_device;
    created_by = "HUMAN";
    reason = r.reason;
    metadata = r.metadata;
  };
  metadata = r.metadata;
}

unfoldable pub create : CreateRequest → ℤ → String → Result CapabilityToken
unfolding scopes_of token_of assert_invariants
create r now uuid = do
  scopes ← scopes_of r.scopes
  let t = token_of r scopes now uuid
  assert_invariants t
  ok t

unfoldable pub is_expired : CapabilityToken → ℤ → Bool
is_expired t now = not (ltb_ℤ now t.expires_at)

unfoldable pub is_active : CapabilityToken → ℤ → Bool
unfolding is_expired
is_active t now = not t.revoked && not (is_expired t now)

-- `revocation_id or str(uuid.uuid4())`
unfoldable pub revoke : CapabilityToken → Option String → String → ℤ → CapabilityToken
revoke t revocation_id uuid revoked_at = record t {
  revoked = true;
  revocation_id =
      some (elim revocation_id [ none ↦ uuid | some s ↦ if str_eq s "" then uuid else s ]);
  revoked_at = some revoked_at;
}

unfoldable pub allows : CapabilityToken → String → ℤ → Result Bool
unfolding scope_of is_active has
allows t scope now = scope_of scope >>= λ s. ok (is_active t now && has s t.scopes)

-- `dump` is `json.dumps(document, sort_keys=True, separators=(",", ":"))`, which escapes what is not
-- ASCII.
module _ (p : Platform) (dump : Value → String) where
  unfoldable pub signing_payload : CapabilityToken → Bytes
  signing_payload t = p.encode (
      dump (
        obj (
          field "token_id" (str t.token_id) (
            field "provider_id" (str t.provider_id) (
              field "owner_identity" (str t.owner_identity) (
                field "scopes" (arr (texts (sort_texts (map value t.scopes)))) (
                  field "forbidden_scopes" (arr (texts (sort_texts (map value t.forbidden_scopes))))
                    (field "issued_at" (int t.issued_at) (
                      field "expires_at" (int t.expires_at) (
                        field "issuer_device" (str t.issuer_device) (
                          field "issuer" (str t.issuer) (
                            field "authority_source" (str t.authority_source)
                              (field "metadata" (obj t.metadata) end)))))))))))))

  unfoldable pub verify_signature : CapabilityToken → (Bytes → String → Bool) → Bool
  unfolding signing_payload
  verify_signature t verifier = verifier (signing_payload t) t.signature
