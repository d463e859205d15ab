-- ===== src/Identity.antt =====
-- src/sovereignty_core/identity/identity.py: the owner's identity and the devices bound to it.
pub mod Devices
mod Tests
use sovereignty_ai_gate.Prelude.{
  String, Bool, true, false, not, ◌&&◌, ◌||◌, List, [], ◌∷◌, ◌++◌, Result, ok, raise_if, ◌>>◌,
  value_error, str_eq, if◌then◌else◌,
}
use sovereignty_ai_gate.Prelude.Int.{ℤ, pos, ltb_ℤ}
use sovereignty_ai_gate.Utils.Json.{
  Value, null, bool, int, str, arr, obj, Items, nil, cons, Fields, end, field, texts,
}

pub record DeviceBinding : Type 0 where
  pub device_id : String
  pub root_identity_id : String
  pub bound_at : ℤ
  pub active : Bool
  pub metadata : Fields

pub record RecoveryPolicy : Type 0 where
  pub policy_type : String
  pub threshold : ℤ
  pub trusted_contacts : List String
  pub metadata : Fields

-- `RecoveryPolicy.__post_init__`
unfoldable pub check_recovery : RecoveryPolicy → Result (Unit {0})
check_recovery r = raise_if (ltb_ℤ r.threshold (pos 1)) value_error

-- `RecoveryPolicy()`
abbrev pub default_recovery : RecoveryPolicy
default_recovery = record {
  policy_type = "manual";
  threshold = pos 1;
  trusted_contacts = [];
  metadata = end;
}

-- `provider`, `authority_source` and `owner` hold one value each: the last two are enumerations of
-- one member and the first is declared to be `None`.
pub record HumanIdentity : Type 0 where
  pub identity_id : String
  pub display_name : String
  pub public_identity_key : String
  pub created_at : ℤ
  pub recovery_policy : RecoveryPolicy
  pub device_bindings : List DeviceBinding
  pub version : ℤ
  pub metadata : Fields

-- `HumanIdentity.create`
unfoldable pub create : String → String → String → ℤ → HumanIdentity
create identity_id display_name public_identity_key now = record {
  identity_id = identity_id;
  display_name = display_name;
  public_identity_key = public_identity_key;
  created_at = now;
  recovery_policy = default_recovery;
  device_bindings = [];
  version = pos 1;
  metadata = end;
}

-- The bindings of other devices.
unfoldable pub without_device : String → List DeviceBinding → List DeviceBinding
without_device device_id [] = []
without_device device_id (b ∷ bs) =
    let rest = without_device device_id bs in
    if str_eq b.device_id device_id then rest else b ∷ rest

unfoldable pub bind_device : HumanIdentity → DeviceBinding → HumanIdentity
unfolding without_device
bind_device i binding = record i {
  device_bindings = without_device binding.device_id i.device_bindings ++ binding ∷ [];
}

-- The loop of `deactivate_device`.
unfoldable pub deactivated : String → List DeviceBinding → List DeviceBinding × Bool
deactivated device_id [] = ([], false)
deactivated device_id (b ∷ bs) =
    let (rest, updated) = deactivated device_id bs in
    if str_eq b.device_id device_id && b.active
    then (record b { active = false } ∷ rest, true)
    else (b ∷ rest, updated)

unfoldable pub deactivate_device : HumanIdentity → String → HumanIdentity × Bool
unfolding deactivated
deactivate_device i device_id =
    let (bindings, updated) = deactivated device_id i.device_bindings in
    (record i { device_bindings = bindings }, updated)

-- Some binding is of this device and active.
unfoldable pub any_active : String → List DeviceBinding → Bool
any_active device_id [] = false
any_active device_id (b ∷ bs) =
    (str_eq b.device_id device_id && b.active) || any_active device_id bs

unfoldable pub is_device_trusted : HumanIdentity → String → Bool
unfolding any_active
is_device_trusted i device_id = any_active device_id i.device_bindings

unfoldable pub binding_documents : List DeviceBinding → Items
binding_documents [] = nil
binding_documents (b ∷ bs) =
    cons
      (obj (
        field "device_id" (str b.device_id) (
          field "root_identity_id" (str b.root_identity_id) (
            field "bound_at" (int b.bound_at)
              (field "active" (bool b.active) (field "metadata" (obj b.metadata) end))))))
      (binding_documents bs)

unfoldable pub recovery_document : RecoveryPolicy → Value
recovery_document r = obj (
    field "policy_type" (str r.policy_type) (
      field "threshold" (int r.threshold) (
        field "trusted_contacts" (arr (texts r.trusted_contacts))
          (field "metadata" (obj r.metadata) end))))

-- `HumanIdentity.to_dict`
unfoldable pub to_dict : HumanIdentity → Value
unfolding binding_documents recovery_document
to_dict i = obj (
    field "identity_id" (str i.identity_id) (
      field "display_name" (str i.display_name) (
        field "public_identity_key" (str i.public_identity_key) (
          field "created_at" (int i.created_at) (
            field "recovery_policy" (recovery_document i.recovery_policy) (
              field "device_bindings" (arr (binding_documents i.device_bindings)) (
                field "version" (int i.version) (
                  field "metadata" (obj i.metadata) (
                    field "provider" null (
                      field "authority_source" (str "ROOT_OF_TRUST")
                        (field "owner" (str "HUMAN") end)))))))))))
