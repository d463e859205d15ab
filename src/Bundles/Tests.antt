-- ===== src/Bundles/Tests.antt =====
-- A bundle, and one whose hash is not its payload's.
use sovereignty_ai_gate.Prelude.{◌≡◌, ◌↔◌, ok}
use sovereignty_ai_gate.Platform.Toy.{toy}
use sovereignty_ai_gate.Utils.{hash_object}
use sovereignty_ai_gate.Utils.Json.{obj, str, end, field}
use sovereignty_ai_gate.Bundles.{ExportBundle, ImportBundle, validate_bundle, validate_import}
use sovereignty_ai_gate.Bundles.Sealed.{IsSealed, received, validate_bundle-IsSealed}

abbrev bundle : ExportBundle
bundle = record {
  bundle_id = "b1";
  created_by = "alice";
  payload = field "records" (str "none") end;
  payload_hash = hash_object toy (obj (field "records" (str "none") end));
  signature = "s";
  created_at = "monday";
  schema_version = "1.0";
}

abbrev forged : ImportBundle
forged = record (received bundle) { payload_hash = "forged" }

validate_bundle-IsSealed_example :
    (validate_bundle toy bundle ≡ ok tt)
    ↔ (IsSealed toy bundle × (validate_import toy (received bundle) ≡ ok tt))
validate_bundle-IsSealed_example = validate_bundle-IsSealed toy bundle
