-- ===== src/Identity/Tests.antt =====
-- An owner with two devices.
use sovereignty_ai_gate.Prelude.{◌≡◌, refl, true, false, [], ◌∷◌, str_eq, if◌then◌else◌}
use sovereignty_ai_gate.Prelude.Int.{pos}
use sovereignty_ai_gate.Utils.Json.{end}
use sovereignty_ai_gate.Identity.{
  DeviceBinding, HumanIdentity, bind_device, deactivate_device, is_device_trusted, without_device,
  any_active,
}
use sovereignty_ai_gate.Identity.Devices.{bind_deactivate-trusted}

abbrev laptop : DeviceBinding
laptop = record {
  device_id = "laptop";
  root_identity_id = "root";
  bound_at = pos 1;
  active = true;
  metadata = end;
}

abbrev owner : HumanIdentity
owner = record {
  identity_id = "alice";
  display_name = "Alice";
  public_identity_key = "07";
  created_at = pos 0;
  recovery_policy = record {
    policy_type = "manual";
    threshold = pos 1;
    trusted_contacts = [];
    metadata = end;
  };
  device_bindings = record laptop { device_id = "phone" } ∷ record laptop { active = false } ∷ [];
  version = pos 1;
  metadata = end;
}

-- Binding again makes the laptop trusted.
rebound : is_device_trusted (bind_device owner laptop) "laptop" ≡ true
unfolding is_device_trusted bind_device without_device any_active
rebound = refl

bind_deactivate-trusted_example :
    (is_device_trusted (bind_device owner laptop) "phone"
      ≡ (if str_eq "laptop" "phone" then true else is_device_trusted owner "phone"))
    × (is_device_trusted (deactivate_device owner "phone").0 "phone"
        ≡ (if str_eq "phone" "phone" then false else is_device_trusted owner "phone"))
    × ((deactivate_device owner "phone").1 ≡ is_device_trusted owner "phone")
bind_deactivate-trusted_example = bind_deactivate-trusted owner laptop "phone" "phone"
