-- ===== src/Firewall/Packets.antt =====
-- What leaves through the memory firewall of src/sia/authority_adapters.py.
use sovereignty_ai_gate.Prelude.{
  String, ◌≡◌, refl, true, not, List, [], ◌∷◌, Option, none, some, arith, ok, >>=-eq-ok,
  raise_if-eq-ok, require-eq-ok, ok-injective, value_error, require, contains, lookup,
}
use sovereignty_ai_gate.Platform.{Platform}
use sovereignty_ai_gate.Utils.Json.{
  Value, null, bool, int, str, arr, obj, Items, nil, cons, Fields, end, field,
}
use sovereignty_ai_gate.Operations.{
  OperationRequest, IdentityContext, AuthorizationDecision, AuthorizedContextPacket,
  packet_document,
}
use sovereignty_ai_gate.Firewall.{
  Remembered, memory_record, mapping, safe_fields, safe_names, sanitize, sanitize_records,
  packet_of, build_context_packet, has_field, names_forbidden, probe,
}

abbrev pub AreSafe : Fields → Type 0
AreSafe end = Unit
AreSafe (field k v more) = (contains k safe_names ≡ true) × AreSafe more

-- A list of dicts that hold safe fields only.
abbrev pub IsSanitized : Items → Type 0
IsSanitized nil = Unit
IsSanitized (cons (obj fs) more) = AreSafe fs × IsSanitized more
IsSanitized (cons null more) = ⊥
IsSanitized (cons (bool b) more) = ⊥
IsSanitized (cons (int n) more) = ⊥
IsSanitized (cons (str s) more) = ⊥
IsSanitized (cons (arr xs) more) = ⊥

one_safe :
    (k : String) (o : Option Value) (more : Fields)
    → contains k safe_names ≡ true
    → AreSafe more
    → AreSafe (elim o [ none ↦ more | some v ↦ field k v more ])
one_safe k none more h rest = rest
one_safe k (some v) more h rest = (h, rest)

sanitize-AreSafe : (r : Remembered) → AreSafe (sanitize r)
unfolding sanitize safe_fields contains
sanitize-AreSafe (memory_record r) = (refl, (refl, (refl, tt)))
sanitize-AreSafe (mapping m) = one_safe "record_id" (lookup "record_id" m) _ refl (
    one_safe "model_id" (lookup "model_id" m) _ refl
      (one_safe "content" (lookup "content" m) _ refl tt))

sanitize_records-IsSanitized : (rs : List Remembered) → IsSanitized (sanitize_records rs)
unfolding sanitize_records
sanitize_records-IsSanitized [] = tt
sanitize_records-IsSanitized (r ∷ rs) = (sanitize-AreSafe r, sanitize_records-IsSanitized rs)

-- What a packet that is built gives away.
pub record Released (p : Platform) (number : Items → String) (request : OperationRequest)
    (decision : AuthorizationDecision) (provider_id : String) (k : AuthorizedContextPacket)
    : Type 0 where
  pub allowed : decision.allowed ≡ true
  pub identity : IdentityContext
  pub given : request.identity ≡ some identity
  pub owner : k.owner_identity ≡ identity.identity_id
  pub provider : k.provider_id ≡ provider_id
  pub capability : k.capability_id ≡ decision.capability_id
  pub sanitized : IsSanitized k.memory_context
  pub answer : Fields
  pub probed : probe number k ≡ ok (k, answer)

module _ (p : Platform) (number : Items → String) where
  -- A packet is built only on an allowed decision and for the request's identity. It names that
  -- identity, the provider and the decision's capability, its memory holds no field but a record's
  -- id, model and content, and the probe provider accepts it.
  pub build_context_packet-Released :
      (request : OperationRequest) (decision : AuthorizationDecision) (provider_id : String)
      (rs : List Remembered) (k : AuthorizedContextPacket)
      → build_context_packet p request decision provider_id rs ≡ ok k
      → Released p number request decision provider_id k
  unfolding build_context_packet packet_of probe names_forbidden has_field packet_document contains
  build_context_packet-Released request decision provider_id rs k h =
      let (allowed, h1) = raise_if-eq-ok (not decision.allowed) value_error _ h in
      let (identity, given, h2) = >>=-eq-ok (require value_error request.identity) _ h1 in
      rw (← ok-injective h2) (record {
        allowed = ground (arith, allowed);
        identity = identity;
        given = require-eq-ok value_error request.identity given;
        owner = refl;
        provider = refl;
        capability = refl;
        sanitized = sanitize_records-IsSanitized rs;
        answer = _;
        probed = refl;
      })
