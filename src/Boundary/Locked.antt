-- ===== src/Boundary/Locked.antt =====
-- What stays of a boundary of src/sia/security/boundary_registry.py, whatever is called.
use sovereignty_ai_gate.Prelude.{
  String, ◌≡◌, refl, ◌∙◌, sym, ap, not, List, some, ok, >>=-eq-ok, raise_if-eq-ok, ok-injective,
  require-eq-ok, raise_if, registry_duplicate, registry_not_found, creator_locked,
  conversion_denied, err, has_key-false, has_key-some, lookup, insert, lookup-insert, str_eq,
  eq_iff, arith, Bool-cases, inl, inr, has_key,
}
use sovereignty_ai_gate.Boundary.{
  BoundaryRecord, BoundaryRegistry, register, get, deactivate, update_scope, assert_creator_locked,
  assert_no_conversion,
}

-- One call that changes the registry and returns.
pub data Step : BoundaryRegistry → BoundaryRegistry → Type 0 where
  registered :
      {r r' : BoundaryRegistry} (boundary_id model_id boundary_type creator_id : String)
      (scope : List String)
      → register r boundary_id model_id boundary_type creator_id scope ≡ ok r'
      → Step r r'
  deactivated :
      {r r' : BoundaryRegistry} (boundary_id : String)
      → deactivate r boundary_id ≡ ok r'
      → Step r r'
  rescoped :
      {r r' : BoundaryRegistry} (boundary_id : String) (scope : List String)
      → update_scope r boundary_id scope ≡ ok r'
      → Step r r'

pub data Steps (r : BoundaryRegistry) : BoundaryRegistry → Type 0 where
  here : Steps r r
  next : {r' r'' : BoundaryRegistry} → Steps r r' → Step r' r'' → Steps r r''

-- The boundary of this id has this creator, type and model.
pub record IsFixed (boundary_id creator_id boundary_type model_id : String) (r : BoundaryRegistry)
    : Type 0 where
  pub held : BoundaryRecord
  pub found : lookup boundary_id r ≡ some held
  pub creator : held.creator_id ≡ creator_id
  pub kind : held.boundary_type ≡ boundary_type
  pub model : held.model_id ≡ model_id

module _ (id creator kind model : String) where
  -- Writing back a record that agrees with the one held keeps a boundary.
  kept :
      (other : String) (b b' : BoundaryRecord) (r : BoundaryRegistry)
      → lookup other r ≡ some b
      → b'.creator_id ≡ b.creator_id
      → b'.boundary_type ≡ b.boundary_type
      → b'.model_id ≡ b.model_id
      → IsFixed id creator kind model r
      → IsFixed id creator kind model (insert other b' r)
  kept other b b' r found c k m f = elim (Bool-cases (str_eq other id)) [
    | inl same ↦
        let e : some b ≡ some f.held =
          sym found ∙ ap (λ x. lookup x r) ((eq_iff other id).0 same) ∙ f.found in
        record {
          held = b';
          found = lookup-insert other id b' r ∙ ground (arith, same);
          creator = cc (c, e, f.creator);
          kind = cc (k, e, f.kind);
          model = cc (m, e, f.model);
        }
    | inr differ ↦ record {
      held = f.held;
      found = lookup-insert other id b' r ∙ ground (arith, differ, f.found);
      creator = f.creator;
      kind = f.kind;
      model = f.model;
    }
  ]

  Step-IsFixed :
      {r r' : BoundaryRegistry}
      → Step r r'
      → IsFixed id creator kind model r
      → IsFixed id creator kind model r'
  unfolding register deactivate update_scope get
  Step-IsFixed (registered {r} other m k c scope h) f =
      let (fresh, done) = raise_if-eq-ok (has_key other r) registry_duplicate _ h in
      let absent = has_key-false other r fresh in
      rw (← ok-injective done) (record {
        held = f.held;
        found = lookup-insert other id _ r ∙ ground (arith, absent, f.found, eq_iff other id);
        creator = f.creator;
        kind = f.kind;
        model = f.model;
      })
  Step-IsFixed (deactivated {r} other h) f =
      let (b, found, done) = >>=-eq-ok (get r other) _ h in
      rw (← ok-injective done)
        (kept other b _ r (require-eq-ok registry_not_found _ found) refl refl refl f)
  Step-IsFixed (rescoped {r} other scope h) f =
      let (b, found, done) = >>=-eq-ok (get r other) _ h in
      rw (← ok-injective done)
        (kept other b _ r (require-eq-ok registry_not_found _ found) refl refl refl f)

  Steps-IsFixed :
      {r r' : BoundaryRegistry}
      → Steps r r'
      → IsFixed id creator kind model r
      → IsFixed id creator kind model r'
  Steps-IsFixed here f = f
  Steps-IsFixed (next steps step) f = Step-IsFixed step (Steps-IsFixed steps f)

-- Once a boundary is registered, no run of the registry's operations changes its creator or its type:
-- both assertions compare with the first ones, and its id cannot be registered again.
pub boundary_locked :
    (id claimed_id claimed_type model_id : String) (scope : List String) (b : BoundaryRecord)
    {r r' : BoundaryRegistry}
    → lookup id r ≡ some b
    → Steps r r'
    → (assert_creator_locked r' id claimed_id
        ≡ raise_if (not (str_eq b.creator_id claimed_id)) creator_locked)
      × (assert_no_conversion r' id claimed_type
          ≡ raise_if (not (str_eq b.boundary_type claimed_type)) conversion_denied)
      × (register r' id model_id claimed_type claimed_id scope ≡ err registry_duplicate)
unfolding assert_creator_locked assert_no_conversion register get
boundary_locked id claimed_id claimed_type model_id scope b found steps =
    let start : IsFixed id b.creator_id b.boundary_type b.model_id _ = record {
      held = b;
      found = found;
      creator = refl;
      kind = refl;
      model = refl;
    } in
    let f = Steps-IsFixed id b.creator_id b.boundary_type b.model_id steps start in
    (simp (f.found, f.creator), simp (f.found, f.kind), rw (has_key-some id _ f.found) refl)
