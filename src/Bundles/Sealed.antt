-- ===== src/Bundles/Sealed.antt =====
-- Which bundles of src/sia/export/ and src/sia/imports/ pass.
use sovereignty_ai_gate.Prelude.{
  String, ◌≡◌, ◌≢◌, ◌↔◌, inl, inr, false, not, ok, raise_if-eq-ok, raise_if_iff,
  export_schema_invalid, str_eq, eq_iff, arith, Bool-cases,
}
use sovereignty_ai_gate.Platform.{Platform}
use sovereignty_ai_gate.Utils.{hash_object}
use sovereignty_ai_gate.Utils.Json.{obj}
use sovereignty_ai_gate.Bundles.{ExportBundle, ImportBundle, validate_bundle, validate_import}

-- What an export bundle that passes is.
pub record IsSealed (p : Platform) (b : ExportBundle) : Type 0 where
  pub version : b.schema_version ≡ "1.0"
  pub named : b.bundle_id ≢ ""
  pub authored : b.created_by ≢ ""
  pub signed : b.signature ≢ ""
  pub hashed : b.payload_hash ≡ hash_object p (obj b.payload)
  pub some_hash : b.payload_hash ≢ ""

not_text : (s t : String) → (str_eq s t ≡ false) ↔ (s ≢ t)
not_text s t = (
  λ h e. cc (h, (eq_iff s t).1 e),
  λ n. elim (Bool-cases (str_eq s t)) [
    | inl same ↦ absurd (n ((eq_iff s t).0 same))
    | inr differ ↦ differ
  ],
)

is_text : (s t : String) → (not (str_eq s t) ≡ false) ↔ (s ≡ t)
is_text s t = (λ h. (eq_iff s t).0 (ground arith), λ e. ground (arith, (eq_iff s t).1 e))

-- The bundle on the importing side.
abbrev pub received : ExportBundle → ImportBundle
received b = record {
  bundle_id = b.bundle_id;
  created_by = b.created_by;
  payload = obj b.payload;
  payload_hash = b.payload_hash;
  signature = b.signature;
  created_at = b.created_at;
  schema_version = b.schema_version;
}

module _ (p : Platform) where
  validated-IsSealed : (b : ExportBundle) → validate_bundle p b ≡ ok tt → IsSealed p b
  unfolding validate_bundle
  validated-IsSealed b h =
      let (a, h1) =
        raise_if-eq-ok (not (str_eq b.schema_version "1.0")) export_schema_invalid _ h in
      let (c, h2) = raise_if-eq-ok (str_eq b.bundle_id "") export_schema_invalid _ h1 in
      let (d, h3) = raise_if-eq-ok (str_eq b.created_by "") export_schema_invalid _ h2 in
      let (e, h4) = raise_if-eq-ok (str_eq b.payload_hash "") export_schema_invalid _ h3 in
      let (f, h5) = raise_if-eq-ok (str_eq b.signature "") export_schema_invalid _ h4 in
      record {
        version = (is_text _ _).0 a;
        named = (not_text _ _).0 c;
        authored = (not_text _ _).0 d;
        signed = (not_text _ _).0 f;
        hashed = (is_text _ _).0 ((raise_if_iff _ export_schema_invalid).0 h5);
        some_hash = (not_text _ _).0 e;
      }

  IsSealed-validated : (b : ExportBundle) → IsSealed p b → validate_bundle p b ≡ ok tt
  unfolding validate_bundle
  IsSealed-validated b s = simp (
    (is_text b.schema_version "1.0").1 s.version,
    (not_text b.bundle_id "").1 s.named,
    (not_text b.created_by "").1 s.authored,
    (not_text b.payload_hash "").1 s.some_hash,
    (not_text b.signature "").1 s.signed,
    (is_text b.payload_hash (hash_object p (obj b.payload))).1 s.hashed,
  )

  IsSealed-received : (b : ExportBundle) → IsSealed p b → validate_import p (received b) ≡ ok tt
  unfolding validate_import
  IsSealed-received b s = simp (
    (is_text b.schema_version "1.0").1 s.version,
    (is_text b.payload_hash (hash_object p (obj b.payload))).1 s.hashed,
  )

  -- An export bundle passes its validator exactly when its version is 1.0, its id, author and
  -- signature are not empty, and its payload hash is the hash of its payload and is not empty; then,
  -- received as an import bundle with the same fields, it passes the import validator too.
  pub validate_bundle-IsSealed :
      (b : ExportBundle)
      → (validate_bundle p b ≡ ok tt) ↔ (IsSealed p b × (validate_import p (received b) ≡ ok tt))
  validate_bundle-IsSealed b = (
    λ h. let s = validated-IsSealed b h in (s, IsSealed-received b s),
    λ (s, _). IsSealed-validated b s,
  )
