-- ===== src/Bundles.antt =====
-- src/sia/export/ and src/sia/imports/: export bundles, import bundles, their validators and the loader.
-- A bundle's fields are of their declared types, so the tests of a missing field or of a field's
-- type never fire.
pub mod Sealed
mod Tests
use sovereignty_ai_gate.Prelude.{
  String, Bool, true, false, not, ◌||◌, Option, none, some, Result, ok, err, ◌>>=◌, ◌>>◌, raise_if,
  require, export_schema_invalid, import_duplicate, import_version_unsupported,
  import_schema_invalid, key_error, Dict, insert, has_key, str_eq, if◌then◌else◌,
}
use sovereignty_ai_gate.Platform.{Platform}
use sovereignty_ai_gate.Utils.{hash_object}
use sovereignty_ai_gate.Utils.Json.{
  Value, null, bool, int, str, arr, obj, Items, nil, cons, Fields, end, field,
}

pub record ExportBundle : Type 0 where
  pub bundle_id : String
  pub created_by : String
  pub payload : Fields
  pub payload_hash : String
  pub signature : String
  pub created_at : String
  pub schema_version : String

-- `ImportBundle`, the later of its two declarations, whose payload may be any document.
pub record ImportBundle : Type 0 where
  pub bundle_id : String
  pub created_by : String
  pub payload : Value
  pub payload_hash : String
  pub signature : String
  pub created_at : String
  pub schema_version : String

-- `ExportBundle.to_dict`
unfoldable pub to_dict : ExportBundle → Value
to_dict b = obj (
    field "schema_version" (str b.schema_version) (
      field "bundle_id" (str b.bundle_id) (
        field "created_by" (str b.created_by) (
          field "created_at" (str b.created_at) (
            field "payload" (obj b.payload) (
              field "payload_hash" (str b.payload_hash)
                (field "signature" (str b.signature) end)))))))

module _ (p : Platform) where
  unfoldable pub validate_bundle : ExportBundle → Result (Unit {0})
  validate_bundle b = do
    raise_if (not (str_eq b.schema_version "1.0")) export_schema_invalid
    raise_if (str_eq b.bundle_id "") export_schema_invalid
    raise_if (str_eq b.created_by "") export_schema_invalid
    raise_if (str_eq b.payload_hash "") export_schema_invalid
    raise_if (str_eq b.signature "") export_schema_invalid
    raise_if (not (str_eq b.payload_hash (hash_object p (obj b.payload)))) export_schema_invalid

  unfoldable pub validate_import : ImportBundle → Result (Unit {0})
  validate_import b = do
    raise_if (not (str_eq b.schema_version "1.0")) import_version_unsupported
    raise_if (not (str_eq b.payload_hash (hash_object p b.payload))) import_schema_invalid

-- `BundleLoader`: the bundles seen, by id.
abbrev pub BundleLoader : Type 0
BundleLoader = Dict ImportBundle

unfoldable pub load : BundleLoader → ImportBundle → Result BundleLoader
load seen b = do
  raise_if (has_key b.bundle_id seen) import_duplicate
  ok (insert b.bundle_id b seen)

-- `payload[key]`
unfoldable pub at_key : String → Fields → Option Value
at_key key end = none
at_key key (field k v more) = let rest = at_key key more in if str_eq k key then some v else rest

unfoldable pub is_dict : Value → Bool
is_dict (obj fs) = true
is_dict null = false
is_dict (bool b) = false
is_dict (int n) = false
is_dict (str s) = false
is_dict (arr xs) = false

unfoldable pub all_dicts : Items → Bool
unfolding is_dict
all_dicts nil = true
all_dicts (cons x xs) = let rest = all_dicts xs in if is_dict x then rest else false

-- The records of a payload, if they are a list of dicts.
unfoldable pub record_list : Value → Result Items
unfolding all_dicts
record_list (arr xs) = raise_if (not (all_dicts xs)) import_schema_invalid >> ok xs
record_list (obj fs) = err import_schema_invalid
record_list null = err import_schema_invalid
record_list (bool b) = err import_schema_invalid
record_list (int n) = err import_schema_invalid
record_list (str s) = err import_schema_invalid

pub record ImportedLedger : Type 0 where
  pub ledger_version : Value
  pub ledger_hash : Value
  pub records : Items
  pub schema_version : String

-- `validate_import_payload` and the construction of the ledger after it.
unfoldable pub imported : Fields → Result ImportedLedger
unfolding at_key record_list
imported payload = do
  ledger_version ← require import_schema_invalid (at_key "ledger_version" payload)
  ledger_hash ← require import_schema_invalid (at_key "ledger_hash" payload)
  found ← require import_schema_invalid (at_key "records" payload)
  records ← record_list found
  ok (record {
    ledger_version = ledger_version;
    ledger_hash = ledger_hash;
    records = records;
    schema_version = "1.0";
  })

-- `import_ledger` of an export bundle. `reload` is `json.loads(json.dumps(...))` on a dict.
unfoldable pub import_ledger : Platform → (Fields → Fields) → ExportBundle → Result ImportedLedger
unfolding validate_bundle imported
import_ledger p reload b = validate_bundle p b >> imported (reload b.payload)
