-- ===== src/Scar/Records.antt =====
-- The typed records of src/sovereignty_core/audit/scar.py: `record_memory_change`,
-- `record_capability_issue` and `record_provider_access`.
use sovereignty_ai_gate.Prelude.{
  String, ◌≡◌, sym, Bool, true, false, not, [], ◌∷◌, ◌++◌, map, Option, none, some, Result, ok,
  ◌>>◌, raise_if, raise_if-eq-ok, ok-injective, scar_ledger_error, str_eq, eq_iff, arith,
  if◌then◌else◌,
}
use sovereignty_ai_gate.Prelude.Int.{ℤ}
use sovereignty_ai_gate.Platform.{Platform}
use sovereignty_ai_gate.Trust.{IsSigner}
use sovereignty_ai_gate.Utils.{sort_texts}
use sovereignty_ai_gate.Utils.Json.{Value, str, int, arr, texts, count, Fields, end, field}
use sovereignty_ai_gate.Permissions
use sovereignty_ai_gate.Permissions.{CapabilityToken, is_active}
use sovereignty_ai_gate.Vault
use sovereignty_ai_gate.Vault.{MemoryBlock}
use sovereignty_ai_gate.Scar.{
  ScarLedger, ScarEvent, provider, EventRequest, append_event, actor_of, verify_integrity,
}
use sovereignty_ai_gate.Scar.Integrity.{append_event-verify}

-- `d[k] = v`: the value of a key that is there is replaced, and a new key goes last.
unfoldable pub put : String → Value → Fields → Fields
put k v end = field k v end
put k v (field j w fs) =
    let rest = put k v fs in if str_eq j k then field k v fs else field j w rest

-- `{**first, **second}`
unfoldable pub merge : Fields → Fields → Fields
unfolding put
merge first end = first
merge first (field k v fs) = merge (put k v first) fs

-- `_assert_identity`
unfoldable pub assert_identity : ScarLedger → String → Result (Unit {0})
assert_identity l identity_id = raise_if (not (str_eq identity_id l.identity_id)) scar_ledger_error

unfoldable pub memory_request : Platform → MemoryBlock → EventRequest
memory_request p b = record {
  event_type = "MEMORY_CHANGE";
  actor = if str_eq (p.lower b.provenance.source_type) "provider" then "PROVIDER" else "HUMAN";
  capability_id = b.provenance.capability_token_id;
  memory_hash = some b.block_hash;
  metadata = field "block_id" (str b.block_id) (
      field "classification" (str (Vault.value b.classification))
        (field "memory_index" (count b.index) end));
  timestamp = none;
}

unfoldable pub issue_request : CapabilityToken → EventRequest
issue_request t = record {
  event_type = "CAPABILITY_ISSUED";
  actor = "HUMAN";
  capability_id = some t.token_id;
  memory_hash = none;
  metadata = field "provider_id" (str t.provider_id) (
      field "scopes" (arr (texts (sort_texts (map Permissions.value t.scopes))))
        (field "issuer_device" (str t.issuer_device) (field "expires_at" (int t.expires_at) end)));
  timestamp = none;
}

unfoldable pub access_request : CapabilityToken → Option String → Fields → EventRequest
unfolding merge
access_request t memory_hash metadata = record {
  event_type = "PROVIDER_ACCESS";
  actor = "PROVIDER";
  capability_id = some t.token_id;
  memory_hash = memory_hash;
  metadata = merge (field "provider_id" (str t.provider_id) end) metadata;
  timestamp = none;
}

module _ (p : Platform) where
  unfoldable pub record_memory_change :
      ScarLedger → MemoryBlock → String → String → Result ScarLedger
  unfolding assert_identity memory_request
  record_memory_change l b now uuid = do
    assert_identity l b.provenance.owner_identity
    append_event p l (memory_request p b) now uuid

  unfoldable pub record_capability_issue :
      ScarLedger → CapabilityToken → String → String → Result ScarLedger
  unfolding assert_identity issue_request
  record_capability_issue l t now uuid = do
    assert_identity l t.owner_identity
    append_event p l (issue_request t) now uuid

  -- `clock` is what `token.is_active` reads, `now` the text of the event's time.
  unfoldable pub record_provider_access :
      ScarLedger
      → CapabilityToken
      → Option String
      → Fields
      → ℤ
      → String
      → String
      → Result ScarLedger
  unfolding assert_identity access_request
  record_provider_access l t memory_hash metadata clock now uuid = do
    assert_identity l t.owner_identity
    raise_if (not (is_active t clock)) scar_ledger_error
    append_event p l (access_request t memory_hash metadata) now uuid

  same_owner :
      (l : ScarLedger) (s : String) → not (str_eq s l.identity_id) ≡ false → s ≡ l.identity_id
  same_owner l s h = (eq_iff s l.identity_id).0 (ground arith)

  usable : (b : Bool) → not b ≡ false → b ≡ true
  usable b h = ground arith

  -- On a ledger that verifies, of a device whose signatures verify, provider access is recorded only
  -- under a token of the ledger's own identity that is active; the ledger then still verifies, with one
  -- more event, which names the provider as its actor and the token as its capability.
  pub record_provider_access-active :
      (l : ScarLedger) (t : CapabilityToken) (memory_hash : Option String) (metadata : Fields)
      (clock : ℤ) (now uuid : String) (after : ScarLedger)
      → IsSigner l.root_of_trust.backend
      → verify_integrity p l ≡ true
      → record_provider_access l t memory_hash metadata clock now uuid ≡ ok after
      → (t.owner_identity ≡ l.identity_id)
        × (is_active t clock ≡ true)
        × (verify_integrity p after ≡ true)
        × (e : ScarEvent) × (after.events ≡ l.events ++ e ∷ [])
        × (e.actor ≡ provider)
        × (e.capability_id ≡ some t.token_id)
        × (e.memory_hash ≡ memory_hash)
  unfolding record_provider_access assert_identity access_request actor_of
  record_provider_access-active l t memory_hash metadata clock now uuid after signer valid h =
      let (own, h1) =
        raise_if-eq-ok (not (str_eq t.owner_identity l.identity_id)) scar_ledger_error _ h in
      let (live, h2) = raise_if-eq-ok (not (is_active t clock)) scar_ledger_error _ h1 in
      let (verified, a) =
        append_event-verify p l (access_request t memory_hash metadata) now uuid after signer h2
          valid in
      (
        same_owner l t.owner_identity own,
        usable (is_active t clock) live,
        verified,
        a.event,
        a.events,
        sym (ok-injective a.actor),
        a.capability_id,
        a.memory_hash,
      )

  -- The caller's metadata can name another provider: on a ledger that verifies, of a device whose
  -- signatures verify, a recorded access under one provider's token then adds an event whose metadata
  -- is the other provider's id alone, and the ledger still verifies.
  pub access_names_other_provider :
      (l : ScarLedger) (t : CapabilityToken) (other : String) (clock : ℤ) (now uuid : String)
      (after : ScarLedger)
      → IsSigner l.root_of_trust.backend
      → verify_integrity p l ≡ true
      → record_provider_access l t none (field "provider_id" (str other) end) clock now uuid
        ≡ ok after
      → (verify_integrity p after ≡ true)
        × (e : ScarEvent) × (after.events ≡ l.events ++ e ∷ [])
        × (e.metadata ≡ field "provider_id" (str other) end)
  unfolding record_provider_access assert_identity access_request merge put
  access_names_other_provider l t other clock now uuid after signer valid h =
      let (own, h1) =
        raise_if-eq-ok (not (str_eq t.owner_identity l.identity_id)) scar_ledger_error _ h in
      let (live, h2) = raise_if-eq-ok (not (is_active t clock)) scar_ledger_error _ h1 in
      let (verified, a) =
        append_event-verify p l (access_request t none (field "provider_id" (str other) end)) now
          uuid after signer h2 valid in
      (verified, a.event, a.events, a.metadata)
