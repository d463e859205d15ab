-- ===== src/Firewall.antt =====
-- The memory firewall and the vault adapter of src/sia/authority_adapters.py, and the probe provider of
-- src/sia/authority_gate.py.
pub mod Packets
mod Tests
use Prim.Native.String.{◌++◌ as str_append}
use sovereignty_ai_gate.Prelude.{
  ℕ, String, Bool, true, false, not, ◌||◌, List, [], ◌∷◌, Option, none, some, Result, ok, err,
  ◌>>=◌, ◌>>◌, raise_if, require, value_error, Dict, lookup, contains, str_eq, if◌then◌else◌,
}
use sovereignty_ai_gate.Prelude.Int.{ℤ, pos}
use sovereignty_ai_gate.Platform.{Platform, Moment}
use sovereignty_ai_gate.Utils.{hash_object}
use sovereignty_ai_gate.Utils.Json.{
  Value, str, bool, arr, obj, Items, nil, cons, optional, Fields, end, field,
}
use sovereignty_ai_gate.Trust.{RootOfTrust, sign, verify_signature}
use sovereignty_ai_gate.Vault
use sovereignty_ai_gate.Vault.{MemoryChain, AppendRequest}
use sovereignty_ai_gate.Memory.{MemoryRecord, to_dict}
use sovereignty_ai_gate.Operations.{
  OperationRequest, operation_name, IdentityContext, AuthorizationDecision, AuthorizedContextPacket,
  packet_document,
}

-- What the firewall may be handed: a memory record, or another object by its keys or attributes.
pub data Remembered : Type 0 where
  memory_record : MemoryRecord → Remembered
  mapping : Dict Value → Remembered

-- `{k: record[k] for k in _SAFE_FIELDS if k in record}`
unfoldable pub safe_fields : List String → Dict Value → Fields
safe_fields [] held = end
safe_fields (k ∷ ks) held = elim (lookup k held) [
  | none ↦ safe_fields ks held
  | some v ↦ field k v (safe_fields ks held)
]

abbrev pub safe_names : List String
safe_names = "record_id" ∷ "model_id" ∷ "content" ∷ []

unfoldable pub sanitize : Remembered → Fields
unfolding safe_fields
sanitize (memory_record r) =
    field "record_id" (str r.record_id)
      (field "model_id" (str r.model_id) (field "content" r.content end))
sanitize (mapping m) = safe_fields safe_names m

-- `_sanitize_memory_records`
unfoldable pub sanitize_records : List Remembered → Items
unfolding sanitize
sanitize_records [] = nil
sanitize_records (r ∷ rs) = cons (obj (sanitize r)) (sanitize_records rs)

module _ (p : Platform) where
  -- The packet for a verified owner.
  unfoldable pub packet_of :
      OperationRequest
      → AuthorizationDecision
      → String
      → List Remembered
      → IdentityContext
      → AuthorizedContextPacket
  unfolding sanitize_records operation_name
  packet_of request decision provider_id memory_records identity =
      let sanitized = sanitize_records memory_records in
      record {
        packet_id = hash_object p (
            obj (
              field "provider_id" (str provider_id) (
                field "owner_identity" (str identity.identity_id) (
                  field "capability_id" (optional decision.capability_id) (
                    field "operation" (str (operation_name request)) (
                      field "policy_hash" (str decision.policy_hash) (
                        field "memory_context" (arr sanitized)
                          (field "resource_id" (str request.resource_id) end))))))));
        provider_id = provider_id;
        owner_identity = identity.identity_id;
        capability_id = decision.capability_id;
        operation = operation_name request;
        policy_hash = decision.policy_hash;
        memory_context = sanitized;
        metadata =
            field "resource_id" (str request.resource_id)
              (field "model_id" (str request.model_id) end);
        authorized = true;
        audit_required = true;
      }

  -- `DefaultMemoryFirewall.build_context_packet`
  unfoldable pub build_context_packet :
      OperationRequest
      → AuthorizationDecision
      → String
      → List Remembered
      → Result AuthorizedContextPacket
  unfolding packet_of
  build_context_packet request decision provider_id memory_records = do
    raise_if (not decision.allowed) value_error
    identity ← require value_error request.identity
    ok (packet_of request decision provider_id memory_records identity)

  -- `VaultAdapter.record_memory`: the chain after it.
  unfoldable pub record_memory :
      String
      → RootOfTrust
      → MemoryChain
      → MemoryRecord
      → Option String
      → Moment
      → Result MemoryChain
  unfolding to_dict
  record_memory owner_identity root chain r capability_id now =
      Vault.append p chain
        (record {
          classification = "USER_CONFIRMED";
          content = to_dict r;
          provenance = record {
            owner_identity = owner_identity;
            source_type = "human";
            source_id = owner_identity;
            issuer_device = some root.identity.identity_id;
            capability_token_id = capability_id;
            consent_id = none;
            metadata = end;
          };
          signer = some root.identity.identity_id;
          sign_payload = some (λ payload. (sign p root payload 0).signature);
          created_at = none;
          metadata = end;
        })
        now.seconds now.uuid

  -- `VaultAdapter.verify_chain`
  unfoldable pub verify_vault : RootOfTrust → MemoryChain → Bool
  verify_vault root chain = Vault.validate p chain (some (verify_signature root))

abbrev pub forbidden_fields : List String
forbidden_fields =
    "vault" ∷ "vault_key" ∷ "vault_keys" ∷ "keys" ∷ "identity_secret" ∷ "root_of_trust"
    ∷ "memory_store" ∷ "unrestricted_memory" ∷ []

-- The document's keys meet a list.
unfoldable pub has_field : List String → Fields → Bool
has_field names end = false
has_field names (field k v more) = contains k names || has_field names more

unfoldable pub names_forbidden : Value → Bool
unfolding has_field
names_forbidden (obj fs) = has_field forbidden_fields fs
names_forbidden v = false

-- `LocalAuthorityProbeProvider.execute`: the packet that it keeps, and its answer. `number` is the
-- text of a count.
unfoldable pub probe :
    (Items → String) → AuthorizedContextPacket → Result (AuthorizedContextPacket × Fields)
unfolding names_forbidden packet_document
probe number packet = do
  raise_if (not packet.authorized) value_error
  raise_if (names_forbidden (packet_document packet)) value_error
  ok (
    packet,
    field "provider_id" (str "local.authority-probe") (
        field "status" (str "ok") (
          field "authorized" (bool true) (
            field "proof"
              (str (
                str_append "local.authority-probe:" (
                  str_append packet.operation (
                    str_append ":" (
                      str_append (elim packet.capability_id [ none ↦ "None" | some c ↦ c ])
                        (str_append ":" (number packet.memory_context)))))))
              end))),
  )
