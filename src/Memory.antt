-- ===== src/Memory.antt =====
-- src/sia/memory/models.py and src/sia/memory/validator.py: memory records, their schema check and
-- their consent rule. A record's fields are of their declared types, so the tests of a missing field
-- and of a field's type never fire.
use sovereignty_ai_gate.Prelude.{
  String, Bool, not, ◌||◌, List, Result, ◌>>◌, raise_if, memory_schema_error, memory_consent_denied,
  contains, str_eq,
}
use sovereignty_ai_gate.Utils.Json.{Value, str, arr, obj, end, field, texts}

pub record MemoryRecord : Type 0 where
  pub record_id : String
  pub model_id : String
  pub content : Value
  pub consent : List String
  pub created_at : String
  pub schema_version : String

unfoldable pub to_dict : MemoryRecord → Value
to_dict r = obj (
    field "schema_version" (str r.schema_version) (
      field "record_id" (str r.record_id) (
        field "model_id" (str r.model_id) (
          field "content" r.content (
            field "consent" (arr (texts r.consent)) (field "created_at" (str r.created_at) end))))))

unfoldable pub has_consent : MemoryRecord → String → Bool
has_consent r requesting_model_id =
    str_eq requesting_model_id r.model_id || contains requesting_model_id r.consent

unfoldable pub validate_record : MemoryRecord → Result (Unit {0})
validate_record r = do
  raise_if (str_eq r.record_id "") memory_schema_error
  raise_if (str_eq r.model_id "") memory_schema_error
  raise_if (not (str_eq r.schema_version "1.0")) memory_schema_error

unfoldable pub assert_read_access : MemoryRecord → String → Result (Unit {0})
unfolding has_consent
assert_read_access r requesting_model_id =
    raise_if (not (has_consent r requesting_model_id)) memory_consent_denied
