-- ===== src/Boundary/Tests.antt =====
-- A boundary that is narrowed and switched off.
use sovereignty_ai_gate.Prelude.{
  ◌≡◌, refl, true, false, not, [], ◌∷◌, err, some, lookup, insert, str_eq, raise_if, creator_locked,
  conversion_denied, registry_duplicate,
}
use sovereignty_ai_gate.Boundary.{
  BoundaryRecord, BoundaryRegistry, register, get, deactivate, update_scope, assert_creator_locked,
  assert_no_conversion,
}
use sovereignty_ai_gate.Boundary.Locked.{Steps, here, next, deactivated, rescoped, boundary_locked}

abbrev b001 : BoundaryRecord
b001 = record {
  boundary_id = "b001";
  model_id = "m";
  boundary_type = "creator";
  creator_id = "alice";
  scope = "memory.read" ∷ "memory.write" ∷ [];
  active = true;
}

abbrev registry : BoundaryRegistry
registry = ("b001", b001) ∷ []

abbrev narrowed : BoundaryRegistry
narrowed = ("b001", record b001 { scope = "memory.read" ∷ []; active = false }) ∷ []

run : Steps registry narrowed
unfolding deactivate update_scope get insert lookup
run = next (next here (rescoped "b001" ("memory.read" ∷ []) refl)) (deactivated "b001" refl)

present : lookup "b001" registry ≡ some b001
unfolding lookup
present = refl

boundary_locked_example :
    (assert_creator_locked narrowed "b001" "bob"
      ≡ raise_if (not (str_eq "alice" "bob")) creator_locked)
    × (assert_no_conversion narrowed "b001" "reader"
        ≡ raise_if (not (str_eq "creator" "reader")) conversion_denied)
    × (register narrowed "b001" "m" "reader" "bob" [] ≡ err registry_duplicate)
boundary_locked_example = boundary_locked "b001" "bob" "reader" "m" [] b001 present run
