-- ===== src/Utils.antt =====
-- src/sia/utils/canonical.py and src/sia/utils/hashing.py: the canonical form of a document, its
-- bytes, and digests of it.
pub mod Json
pub mod KeyOrder
use Prim.Native.String.{compare}
use text.Mathlib.Text.{is_le}
use sovereignty_ai_gate.Prelude.{String, List, [], ◌∷◌, ◌++◌, if◌then◌else◌}
use sovereignty_ai_gate.Platform.{Platform, Bytes}
use sovereignty_ai_gate.Utils.Json.{
  Value, null, bool, int, str, arr, obj, Items, nil, cons, Fields, end, field,
}

-- Python's stable `sorted` by key, as an insertion sort: an item goes before the first one whose
-- key is not smaller.
unfoldable pub insert_field : String → Value → Fields → Fields
insert_field k v end = field k v end
insert_field k v (field j w fs) =
    let rest = insert_field k v fs in
    if is_le (compare k j) then field k v (field j w fs) else field j w rest

unfoldable pub sort_fields : Fields → Fields
unfolding insert_field
sort_fields end = end
sort_fields (field k v fs) = insert_field k v (sort_fields fs)

-- Python's `sorted` on texts.
insert_text : String → List String → List String
insert_text s [] = s ∷ []
insert_text s (t ∷ ts) =
    let rest = insert_text s ts in if is_le (compare s t) then s ∷ t ∷ ts else t ∷ rest

unfoldable pub sort_texts : List String → List String
unfolding insert_text
sort_texts [] = []
sort_texts (s ∷ ss) = insert_text s (sort_texts ss)

module _ (p : Platform) where
  -- `_canonicalize`: the values are rewritten and the keys kept, so sorting after the rewriting is
  -- sorting before it.
  unfoldable mutual
    pub canonicalize : Value → Value
    canonicalize null = null
    canonicalize (bool b) = bool b
    canonicalize (int n) = int n
    canonicalize (str s) = str (p.normalize s)
    canonicalize (arr xs) = arr (canonicalize_items xs)
    canonicalize (obj fs) = obj (sort_fields (canonicalize_fields fs))

    pub canonicalize_items : Items → Items
    canonicalize_items nil = nil
    canonicalize_items (cons x xs) = cons (canonicalize x) (canonicalize_items xs)

    pub canonicalize_fields : Fields → Fields
    canonicalize_fields end = end
    canonicalize_fields (field k v fs) = field k (canonicalize v) (canonicalize_fields fs)

  unfoldable pub canonical_bytes : Value → Bytes
  canonical_bytes v = p.encode (p.dumps (canonicalize v))

  unfoldable pub hash_hex : Bytes → String
  hash_hex data_bytes = p.sha3_512 data_bytes

  abbrev pub default_domain : String
  default_domain = "SIA_ARTIFACT"

  unfoldable pub canonical_hash : Value → String → String
  canonical_hash v domain = hash_hex (p.encode domain ++ (0 ∷ []) ++ canonical_bytes v)

  unfoldable pub hash_object : Value → String
  hash_object v = canonical_hash v default_domain

  unfoldable pub chain_hash : String → Value → String → String
  chain_hash previous_hash entry domain =
      hash_hex
        (p.encode domain ++ (0 ∷ []) ++ p.encode previous_hash ++ (0 ∷ []) ++ canonical_bytes entry)
