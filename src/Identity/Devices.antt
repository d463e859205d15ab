-- ===== src/Identity/Devices.antt =====
-- Which devices an identity of src/sovereignty_core/identity/identity.py trusts.
use sovereignty_ai_gate.Prelude.{
  String, ◌≡◌, refl, false, not, ◌&&◌, ◌||◌, List, [], ◌∷◌, ◌++◌, arith, str_eq, eq_iff,
  if◌then◌else◌,
}
use sovereignty_ai_gate.Identity.{
  DeviceBinding, HumanIdentity, without_device, bind_device, deactivated, deactivate_device,
  any_active, is_device_trusted,
}

any_active-append :
    (d : String) (xs : List DeviceBinding) (b : DeviceBinding)
    → any_active d (xs ++ b ∷ []) ≡ (any_active d xs || (str_eq b.device_id d && b.active))
unfolding any_active
any_active-append d [] b = ground arith
any_active-append d (x ∷ xs) b = let rest = any_active-append d xs b in ground (arith, rest)

any_active-without :
    (d e : String) (xs : List DeviceBinding)
    → any_active d (without_device e xs) ≡ (not (str_eq e d) && any_active d xs)
unfolding any_active without_device
any_active-without d e [] = ground arith
any_active-without d e (x ∷ xs) =
    let rest = any_active-without d e xs in
    ground (arith, rest, eq_iff x.device_id e, eq_iff e d, eq_iff x.device_id d)

any_active-deactivated :
    (d e : String) (xs : List DeviceBinding)
    → any_active d (deactivated e xs).0 ≡ (not (str_eq e d) && any_active d xs)
unfolding any_active deactivated
any_active-deactivated d e [] = ground arith
any_active-deactivated d e (x ∷ xs) =
    let rest = any_active-deactivated d e xs in
    ground (arith, rest, eq_iff x.device_id e, eq_iff e d, eq_iff x.device_id d)

updated-any_active : (e : String) (xs : List DeviceBinding) → (deactivated e xs).1 ≡ any_active e xs
unfolding any_active deactivated
updated-any_active e [] = refl
updated-any_active e (x ∷ xs) = let rest = updated-any_active e xs in ground (arith, rest)

-- Binding a device decides its trust by the new binding alone, and deactivating it takes its trust
-- away, whatever bindings it had; the trust of every other device stays. `deactivate_device` says
-- whether the device was trusted.
pub bind_deactivate-trusted :
    (i : HumanIdentity) (b : DeviceBinding) (off d : String)
    → (is_device_trusted (bind_device i b) d
        ≡ (if str_eq b.device_id d then b.active else is_device_trusted i d))
      × (is_device_trusted (deactivate_device i off).0 d
          ≡ (if str_eq off d then false else is_device_trusted i d))
      × ((deactivate_device i off).1 ≡ is_device_trusted i off)
unfolding is_device_trusted bind_device deactivate_device
bind_deactivate-trusted i b off d =
    let added = any_active-append d (without_device b.device_id i.device_bindings) b in
    let kept = any_active-without d b.device_id i.device_bindings in
    (
      ground (arith, added, kept),
      ground (arith, any_active-deactivated d off i.device_bindings),
      updated-any_active off i.device_bindings,
    )
