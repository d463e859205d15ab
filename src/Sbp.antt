-- ===== src/Sbp.antt =====
-- src/sbp/audit.py: the signed audit chain of a branch. The root authority (src/sbp/root.py) hands
-- `sign` and `verify` on to its trust backend, so a chain holds the backend. The clock's text and a new
-- UUID are arguments; an entry id is a text by its type.
pub mod Integrity
mod Tests
use sovereignty_ai_gate.Prelude.{
  ℕ, suc, String, Bool, true, false, not, List, [], ◌∷◌, ◌++◌, Option, none, some, Result, ok, err,
  ◌>>=◌, ◌>>◌, raise_if, value_error, length, ◌==◌, str_eq, if◌then◌else◌,
}
use sovereignty_ai_gate.Chain.{head_hash}
use sovereignty_ai_gate.Platform.{Platform, Bytes}
use sovereignty_ai_gate.Trust.{TrustBackend}
use sovereignty_ai_gate.Audit.{genesis_hash, text_or}
use sovereignty_ai_gate.Utils.{canonical_bytes}
use sovereignty_ai_gate.Utils.Json.{
  Value, str, arr, obj, Items, nil, cons, count, optional, Fields, end, field,
}

pub record AuditEntry : Type 0 where
  pub sequence : ℕ
  pub entry_id : String
  pub timestamp : String
  pub branch_id : String
  pub actor_id : String
  pub action : String
  pub object_id : Option String
  pub metadata_hash : Option String
  pub previous_hash : String
  pub signature : String
  pub entry_hash : String

-- The signed fields of an entry, and more after them.
unfoldable pub entry_fields : AuditEntry → Fields → Fields
entry_fields e more = field "sequence" (count e.sequence) (
    field "entry_id" (str e.entry_id) (
      field "timestamp" (str e.timestamp) (
        field "branch_id" (str e.branch_id) (
          field "actor_id" (str e.actor_id) (
            field "action" (str e.action) (
              field "object_id" (optional e.object_id) (
                field "metadata_hash" (optional e.metadata_hash)
                  (field "previous_hash" (str e.previous_hash) more))))))))

-- `{**signing_doc, "signature": signature}`
unfoldable pub signed_document : AuditEntry → Value
unfolding entry_fields
signed_document e = obj (entry_fields e (field "signature" (str e.signature) end))

-- `AuditEntry.to_dict`
unfoldable pub to_dict : AuditEntry → Value
unfolding entry_fields
to_dict e = obj (
    entry_fields e
      (field "signature" (str e.signature) (field "entry_hash" (str e.entry_hash) end)))

unfoldable pub entry_documents : List AuditEntry → Items
unfolding to_dict
entry_documents [] = nil
entry_documents (e ∷ es) = cons (to_dict e) (entry_documents es)

pub record AuditChain : Type 0 where
  pub branch_id : String
  pub root : TrustBackend
  pub entries : List AuditEntry

-- `AuditChain(branch_id=..., root=...)`
unfoldable pub new_chain : String → TrustBackend → Result AuditChain
new_chain branch_id root = do
  raise_if (str_eq branch_id "") value_error
  ok (record { branch_id = branch_id; root = root; entries = [] })

-- The arguments of `append`.
pub record EntryRequest : Type 0 where
  pub actor_id : String
  pub action : String
  pub object_id : Option String
  pub metadata : Option Fields
  pub timestamp : Option String
  pub entry_id : Option String

-- `export_bundle` of a chain whose root has the given id.
unfoldable pub export_bundle : AuditChain → String → Fields
unfolding entry_documents
export_bundle c root_id = field "format" (str "SBP-AUDIT-BUNDLE-0.1") (
    field "branch_id" (str c.branch_id) (
      field "root_id" (str root_id) (
        field "entry_count" (count (length c.entries))
          (field "entries" (arr (entry_documents c.entries)) end))))

abbrev pub hash_of_entry : AuditEntry → String
hash_of_entry e = e.entry_hash

module _ (p : Platform) where
  -- The bytes of `signing_document`.
  unfoldable pub document_bytes : AuditEntry → Bytes
  unfolding entry_fields
  document_bytes e = canonical_bytes p (obj (entry_fields e end))

  -- `_hash_entry`
  unfoldable pub hash_entry : AuditEntry → String
  unfolding signed_document
  hash_entry e = p.sha3_512 (canonical_bytes p (signed_document e))

  unfoldable pub metadata_hash_of : Option Fields → Option String
  metadata_hash_of none = none
  metadata_hash_of (some metadata) = some (p.sha3_512 (canonical_bytes p (obj metadata)))

  -- The entry that `append` makes, before its signature and its hash.
  unfoldable pub draft : AuditChain → EntryRequest → String → String → AuditEntry
  unfolding text_or metadata_hash_of
  draft c r now uuid = record {
    sequence = length c.entries;
    entry_id = elim r.entry_id [ none ↦ uuid | some entry_id ↦ entry_id ];
    timestamp = text_or r.timestamp now;
    branch_id = c.branch_id;
    actor_id = r.actor_id;
    action = r.action;
    object_id = r.object_id;
    metadata_hash = metadata_hash_of r.metadata;
    previous_hash = head_hash hash_of_entry genesis_hash c.entries;
    signature = "";
    entry_hash = "";
  }

  unfoldable pub sealed : TrustBackend → AuditEntry → AuditEntry
  unfolding document_bytes hash_entry
  sealed root e =
      let signed : AuditEntry = record e { signature = root.sign (document_bytes e) } in
      record signed { entry_hash = hash_entry signed }

  -- `AuditChain.append`: the chain after it; the new entry is its last.
  unfoldable pub append : AuditChain → EntryRequest → String → String → Result AuditChain
  unfolding draft sealed
  append c r now uuid = do
    raise_if (str_eq r.action "") value_error
    ok (record c { entries = c.entries ++ sealed c.root (draft c r now uuid) ∷ [] })

  module _ (root : TrustBackend) (branch_id : String) where
    -- The loop of `verify_integrity`.
    unfoldable pub verify_from : ℕ → String → List AuditEntry → Bool
    unfolding document_bytes hash_entry
    verify_from sequence expected_previous [] = true
    verify_from sequence expected_previous (e ∷ r) =
        let rest = verify_from (suc sequence) e.entry_hash r in
        if not (e.sequence == sequence)
        then false
        else if not (str_eq e.branch_id branch_id)
        then false
        else if not (str_eq e.previous_hash expected_previous)
        then false
        else if not (root.verify (document_bytes e) e.signature)
        then false
        else if not (str_eq e.entry_hash (hash_entry e))
        then false
        else rest

  unfoldable pub verify_integrity : AuditChain → Bool
  unfolding verify_from
  verify_integrity c = verify_from c.root c.branch_id 0 genesis_hash c.entries
