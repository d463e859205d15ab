-- ===== src/Boundary.antt =====
-- `BoundaryRegistry` of src/sia/security/boundary_registry.py. A record that `register` or `get` hands
-- out is the one in the registry: a client that changes its fields is outside this model.
pub mod Locked
mod Tests
use sovereignty_ai_gate.Prelude.{
  String, Bool, true, false, not, ◌&&◌, List, [], ◌∷◌, Result, ok, err, ◌>>=◌, ◌>>◌, raise_if,
  require, registry_duplicate, registry_not_found, creator_locked, conversion_denied, Dict, lookup,
  insert, has_key, values, str_eq, if◌then◌else◌,
}

pub record BoundaryRecord : Type 0 where
  pub boundary_id : String
  pub model_id : String
  pub boundary_type : String
  pub creator_id : String
  pub scope : List String
  pub active : Bool

abbrev pub BoundaryRegistry : Type 0
BoundaryRegistry = Dict BoundaryRecord

unfoldable pub new_record : String → String → String → String → List String → BoundaryRecord
new_record boundary_id model_id boundary_type creator_id scope = record {
  boundary_id = boundary_id;
  model_id = model_id;
  boundary_type = boundary_type;
  creator_id = creator_id;
  scope = scope;
  active = true;
}

-- `register`: the registry after it; the new record is the one of this id.
unfoldable pub register :
    BoundaryRegistry → String → String → String → String → List String → Result BoundaryRegistry
unfolding new_record
register registry boundary_id model_id boundary_type creator_id scope = do
  raise_if (has_key boundary_id registry) registry_duplicate
  ok (insert boundary_id (new_record boundary_id model_id boundary_type creator_id scope) registry)

unfoldable pub get : BoundaryRegistry → String → Result BoundaryRecord
get registry boundary_id = require registry_not_found (lookup boundary_id registry)

unfoldable pub active_records : List BoundaryRecord → List BoundaryRecord
active_records [] = []
active_records (r ∷ rs) = let rest = active_records rs in if r.active then r ∷ rest else rest

unfoldable pub list_active : BoundaryRegistry → List BoundaryRecord
unfolding active_records
list_active registry = active_records (values registry)

unfoldable pub records_of_model : String → List BoundaryRecord → List BoundaryRecord
records_of_model model_id [] = []
records_of_model model_id (r ∷ rs) =
    let rest = records_of_model model_id rs in
    if r.active && str_eq r.model_id model_id then r ∷ rest else rest

unfoldable pub list_for_model : BoundaryRegistry → String → List BoundaryRecord
unfolding records_of_model
list_for_model registry model_id = records_of_model model_id (values registry)

unfoldable pub deactivate : BoundaryRegistry → String → Result BoundaryRegistry
unfolding get
deactivate registry boundary_id =
    get registry boundary_id >>= λ r. ok (insert boundary_id (record r { active = false }) registry)

unfoldable pub update_scope : BoundaryRegistry → String → List String → Result BoundaryRegistry
unfolding get
update_scope registry boundary_id scope =
    get registry boundary_id >>= λ r. ok (insert boundary_id (record r { scope = scope }) registry)

unfoldable pub assert_creator_locked : BoundaryRegistry → String → String → Result (Unit {0})
unfolding get
assert_creator_locked registry boundary_id creator_id =
    get registry boundary_id >>= λ r. raise_if (not (str_eq r.creator_id creator_id)) creator_locked

unfoldable pub assert_no_conversion : BoundaryRegistry → String → String → Result (Unit {0})
unfolding get
assert_no_conversion registry boundary_id new_type = get registry boundary_id >>= λ r.
    raise_if (not (str_eq r.boundary_type new_type)) conversion_denied
