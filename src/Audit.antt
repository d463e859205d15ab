-- ===== src/Audit.antt =====
-- src/sia/audit/ledger.py: the append-only, hash-chained audit ledger.
pub mod Integrity
mod Tests
use sovereignty_ai_gate.Prelude.{
  ℕ, String, List, [], ◌∷◌, ◌++◌, Option, none, some, Result, ok, err, ◌>>=◌, ◌>>◌, raise_if,
  audit_tampered, audit_chain_error, length, not, str_eq, if◌then◌else◌,
}
use sovereignty_ai_gate.Chain.{head_hash}
use sovereignty_ai_gate.Platform.{Platform}
use sovereignty_ai_gate.Utils.{hash_object}
use sovereignty_ai_gate.Utils.Json.{Value, str, obj, count, Fields, end, field}

-- `"0" * 128`
abbrev pub genesis_hash : String
genesis_hash =
    "00000000000000000000000000000000000000000000000000000000000000000000000000000000000000000000000000000000000000000000000000000000"

-- `text or default`: a missing or empty text gives the default.
unfoldable pub text_or : Option String → String → String
text_or none default = default
text_or (some s) default = if str_eq s "" then default else s

pub record LedgerEntry : Type 0 where
  pub entry_id : ℕ
  pub event_type : String
  pub payload : Fields
  pub actor_id : String
  pub timestamp : String
  pub prev_hash : String
  pub entry_hash : String

abbrev pub AuditLedger : Type 0
AuditLedger = List LedgerEntry

-- `LedgerEntry.to_dict`
unfoldable pub to_dict : LedgerEntry → Value
to_dict e = obj (
    field "entry_id" (count e.entry_id) (
      field "event_type" (str e.event_type) (
        field "payload" (obj e.payload) (
          field "actor_id" (str e.actor_id)
            (field "timestamp" (str e.timestamp) (field "prev_hash" (str e.prev_hash) end))))))

-- The hash of the last entry, or the sentinel of an empty ledger.
abbrev pub entry_hash_of : LedgerEntry → String
entry_hash_of e = e.entry_hash

abbrev pub last_hash : AuditLedger → String
last_hash = head_hash entry_hash_of genesis_hash

module _ (p : Platform) where
  unfoldable pub compute_hash : LedgerEntry → String
  compute_hash e = hash_object p (to_dict e)

  -- `LedgerEntry.verify`
  unfoldable pub verify : LedgerEntry → Result (Unit {0})
  unfolding compute_hash
  verify e = raise_if (not (str_eq e.entry_hash (compute_hash e))) audit_tampered

  -- The entry that `AuditLedger.append` adds; `now` is the clock's text.
  unfoldable pub new_entry :
      AuditLedger → String → Fields → String → Option String → String → LedgerEntry
  unfolding compute_hash text_or
  new_entry ledger event_type payload actor_id timestamp now =
      let entry : LedgerEntry = record {
        entry_id = length ledger;
        event_type = event_type;
        payload = payload;
        actor_id = actor_id;
        timestamp = text_or timestamp now;
        prev_hash = last_hash ledger;
        entry_hash = "";
      } in
      record entry { entry_hash = compute_hash entry }

  -- `AuditLedger.append`, which also returns the new entry (`new_entry`).
  unfoldable pub append :
      AuditLedger → String → Fields → String → Option String → String → AuditLedger
  append ledger event_type payload actor_id timestamp now =
      ledger ++ new_entry ledger event_type payload actor_id timestamp now ∷ []

  -- The loop of `verify_chain`.
  unfoldable pub verify_from : String → AuditLedger → Result (Unit {0})
  unfolding verify
  verify_from prev_hash [] = ok tt
  verify_from prev_hash (e ∷ r) =
      verify e
      >> raise_if (not (str_eq e.prev_hash prev_hash)) audit_chain_error
      >> verify_from e.entry_hash r

  unfoldable pub verify_chain : AuditLedger → Result (Unit {0})
  unfolding verify_from
  verify_chain ledger = verify_from genesis_hash ledger
