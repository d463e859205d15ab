-- ===== src/Scar.antt =====
-- src/sovereignty_core/audit/scar.py: the device-signed SCAR ledger: its events, `append_event` and
-- `verify_integrity`. Freezing and thawing metadata is detaching it: the document stays. The clock's
-- text and a new UUID are arguments.
pub mod Records
pub mod Attestation
pub mod Integrity
pub mod Attested
pub mod Export
mod Tests
use sovereignty_ai_gate.Prelude.{
  ℕ, suc, String, Bool, true, false, not, ◌&&◌, ◌||◌, List, [], ◌∷◌, ◌++◌, Option, none, some,
  Result, ok, err, ◌>>=◌, ◌>>◌, raise_if, value_error, scar_ledger_error, length, ◌==◌, str_eq,
  if◌then◌else◌,
}
use sovereignty_ai_gate.Chain.{head_hash}
use sovereignty_ai_gate.Platform.{Platform, Bytes}
use sovereignty_ai_gate.Trust
use sovereignty_ai_gate.Trust.{RootOfTrust, SignedObject, verify_signature}
use sovereignty_ai_gate.Audit.{genesis_hash, text_or}
use sovereignty_ai_gate.Utils.{canonical_bytes}
use sovereignty_ai_gate.Utils.Json.{Value, str, obj, count, optional, Fields, end, field}

pub data ScarActor : Type 0 where
  human provider device : ScarActor

abbrev pub value : ScarActor → String
value human = "HUMAN"
value provider = "PROVIDER"
value device = "DEVICE"

-- `SCARActor(text)`
unfoldable pub actor_of : String → Result ScarActor
actor_of text =
    if str_eq text "HUMAN"
    then ok human
    else if str_eq text "PROVIDER"
    then ok provider
    else if str_eq text "DEVICE"
    then ok device
    else err value_error

pub record ScarEvent : Type 0 where
  pub sequence : ℕ
  pub event_id : String
  pub event_type : String
  pub timestamp : String
  pub identity_id : String
  pub actor : ScarActor
  pub capability_id : Option String
  pub memory_hash : Option String
  pub previous_event_hash : String
  pub signature : String
  pub event_hash : String
  pub metadata : Fields

-- The signed fields of an event, and more after them.
unfoldable pub signed_fields : ScarEvent → Fields → Fields
signed_fields e more = field "sequence" (count e.sequence) (
    field "event_id" (str e.event_id) (
      field "event_type" (str e.event_type) (
        field "timestamp" (str e.timestamp) (
          field "identity_id" (str e.identity_id) (
            field "actor" (str (value e.actor)) (
              field "capability_id" (optional e.capability_id) (
                field "memory_hash" (optional e.memory_hash) (
                  field "previous_event_hash" (str e.previous_event_hash)
                    (field "metadata" (obj e.metadata) more)))))))))

unfoldable pub signing_document : ScarEvent → Value
unfolding signed_fields
signing_document e = obj (signed_fields e end)

-- `{**document, "signature": signature}`
unfoldable pub hashed_document : ScarEvent → Value
unfolding signed_fields
hashed_document e = obj (signed_fields e (field "signature" (str e.signature) end))

-- `SCAREvent.to_dict`
unfoldable pub to_dict : ScarEvent → Value
unfolding signed_fields
to_dict e = obj (
    signed_fields e
      (field "signature" (str e.signature) (field "event_hash" (str e.event_hash) end)))

pub record ScarLedger : Type 0 where
  pub identity_id : String
  pub root_of_trust : RootOfTrust
  pub events : List ScarEvent

-- `SCARLedger(identity_id=..., root_of_trust=...)`
unfoldable pub new_ledger : String → RootOfTrust → Result ScarLedger
new_ledger identity_id root = do
  raise_if (str_eq identity_id "") value_error
  ok (record { identity_id = identity_id; root_of_trust = root; events = [] })

abbrev pub event_hash_of : ScarEvent → String
event_hash_of e = e.event_hash

-- The arguments of `append_event`.
pub record EventRequest : Type 0 where
  pub event_type : String
  pub actor : String
  pub capability_id : Option String
  pub memory_hash : Option String
  pub metadata : Fields
  pub timestamp : Option String

-- A provider with no capability.
unfoldable pub lacks_provenance : ScarActor → Option String → Bool
lacks_provenance provider none = true
lacks_provenance provider (some c) = false
lacks_provenance human c = false
lacks_provenance device c = false

module _ (p : Platform) where
  -- `_hash_event`
  unfoldable pub hash_event : ScarEvent → String
  unfolding hashed_document
  hash_event e = p.sha3_512 (canonical_bytes p (hashed_document e))

  unfoldable pub signing_bytes : ScarEvent → Bytes
  unfolding signing_document
  signing_bytes e = canonical_bytes p (signing_document e)

  -- The event that `append_event` makes, before its signature and its hash.
  unfoldable pub draft : ScarLedger → EventRequest → ScarActor → String → String → ScarEvent
  unfolding text_or
  draft l r actor now uuid = record {
    sequence = length l.events;
    event_id = uuid;
    event_type = r.event_type;
    timestamp = text_or r.timestamp now;
    identity_id = l.identity_id;
    actor = actor;
    capability_id = r.capability_id;
    memory_hash = r.memory_hash;
    previous_event_hash = head_hash event_hash_of genesis_hash l.events;
    signature = "";
    event_hash = "";
    metadata = r.metadata;
  }

  unfoldable pub sealed : RootOfTrust → ScarEvent → ScarEvent
  unfolding signing_bytes hash_event Trust.sign
  sealed root e =
      let signed : ScarEvent = record e {
        signature = (Trust.sign p root (signing_bytes e) 0).signature;
      } in
      record signed { event_hash = hash_event signed }

  -- `append_event`: the ledger after it; the new event is its last.
  unfoldable pub append_event : ScarLedger → EventRequest → String → String → Result ScarLedger
  unfolding actor_of draft sealed lacks_provenance
  append_event l r now uuid = do
    raise_if (str_eq r.event_type "") value_error
    actor ← actor_of r.actor
    raise_if (lacks_provenance actor r.capability_id) scar_ledger_error
    ok (record l { events = l.events ++ sealed l.root_of_trust (draft l r actor now uuid) ∷ [] })

  module _ (root : RootOfTrust) (identity_id : String) where
    -- The loop of `verify_integrity`.
    unfoldable pub verify_from : ℕ → String → List ScarEvent → Bool
    unfolding lacks_provenance verify_signature signing_bytes hash_event
    verify_from sequence expected_previous_hash [] = true
    verify_from sequence expected_previous_hash (e ∷ r) =
        let rest = verify_from (suc sequence) e.event_hash r in
        if not (e.sequence == sequence)
          || not (str_eq e.identity_id identity_id)
          || not (str_eq e.previous_event_hash expected_previous_hash)
          || lacks_provenance e.actor e.capability_id
        then false
        else if not (verify_signature root (signing_bytes e) e.signature)
        then false
        else if not (str_eq e.event_hash (hash_event e))
        then false
        else rest

  unfoldable pub verify_integrity : ScarLedger → Bool
  unfolding verify_from
  verify_integrity l = verify_from l.root_of_trust l.identity_id 0 genesis_hash l.events
