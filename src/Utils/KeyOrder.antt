-- ===== src/Utils/KeyOrder.antt =====
-- Documents up to the order of the keys of their dicts, which Python's `==` and the canonical form of
-- src/sia/utils/canonical.py leave out of account.
use sovereignty_ai_gate.Prelude.{String, str_eq, if◌then◌else◌}
use sovereignty_ai_gate.Utils.{sort_fields}
use sovereignty_ai_gate.Utils.Json.{
  Value, null, bool, int, str, arr, obj, Items, nil, cons, Fields, end, field,
}

-- The document with every dict's keys sorted.
unfoldable mutual
  pub in_key_order : Value → Value
  in_key_order null = null
  in_key_order (bool b) = bool b
  in_key_order (int n) = int n
  in_key_order (str s) = str s
  in_key_order (arr xs) = arr (items_in_order xs)
  in_key_order (obj fs) = obj (sort_fields (fields_in_order fs))

  pub items_in_order : Items → Items
  items_in_order nil = nil
  items_in_order (cons x xs) = cons (in_key_order x) (items_in_order xs)

  pub fields_in_order : Fields → Fields
  fields_in_order end = end
  fields_in_order (field k v fs) = field k (in_key_order v) (fields_in_order fs)

abbrev pub text_of : Value → String
text_of null = ""
text_of (bool b) = ""
text_of (int n) = ""
text_of (str s) = s
text_of (arr xs) = ""
text_of (obj fs) = ""

abbrev pub field_text : String → Fields → String
field_text key end = ""
field_text key (field k v fs) =
    let rest = field_text key fs in if str_eq k key then text_of v else rest

-- The text at a key of a dict.
unfoldable pub text_at : String → Value → String
text_at key null = ""
text_at key (bool b) = ""
text_at key (int n) = ""
text_at key (str s) = ""
text_at key (arr xs) = ""
text_at key (obj fs) = field_text key fs
