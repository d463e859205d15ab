-- ===== src/Policy.antt =====
-- `AuthorityPolicy` of src/sia/security/authority_policy.py: the first rule that matches decides. A key
-- that a rule's dict has not is `none`.
pub mod Decisions
mod Tests
use Prim.Native.String.{◌++◌ as str_append}
use sovereignty_ai_gate.Prelude.{
  String, Bool, true, false, not, List, [], ◌∷◌, Option, none, some, Result, ok, err, raise_if,
  policy_denied, Dict, ℕ, suc, ◌&&◌, ◌==◌, lookup, str_eq, if◌then◌else◌,
}
use sovereignty_ai_gate.Prelude.Int.{ℤ, pos, eq_ℤ}
use sovereignty_ai_gate.Utils.Json.{
  Value, null, bool, int, str, arr, obj, Items, nil, cons, Fields, end, field,
}

pub record PolicyDecision : Type 0 where
  pub allowed : Bool
  pub reason : String
  pub matched_rule : Option String

pub record Rule : Type 0 where
  pub pattern : Dict Value
  pub effect : Option String
  pub id : Option String

-- `policy.get("default", "deny")` and `policy.get("rules", [])`
pub record AuthorityPolicy : Type 0 where
  pub default_effect : String
  pub rules : List Rule

-- A Boolean is an integer to Python.
unfoldable pub int_of : Bool → ℤ
int_of true = pos 1
int_of false = pos 0

unfoldable pub size : Fields → ℕ
size end = 0
size (field k v fs) = suc (size fs)

-- `fields.get(key)`, with `none` for a missing key.
unfoldable pub find : String → Fields → Option Value
find key end = none
find key (field k v fs) = let rest = find key fs in if str_eq k key then some v else rest

-- `first == second`: True is 1 and False is 0, lists are compared item for item, and dicts by the
-- keys that they have and the values at them, in whatever order.
unfoldable mutual
  pub same : Value → Value → Bool
  same null null = true
  same null _ = false
  same (bool a) (bool b) = eq_ℤ (int_of a) (int_of b)
  same (bool a) (int n) = eq_ℤ (int_of a) n
  same (bool a) _ = false
  same (int m) (bool b) = eq_ℤ m (int_of b)
  same (int m) (int n) = eq_ℤ m n
  same (int m) _ = false
  same (str s) (str t) = str_eq s t
  same (str s) _ = false
  same (arr xs) (arr ys) = same_items xs ys
  same (arr xs) _ = false
  same (obj fs) (obj gs) = (size fs == size gs) && held_in fs gs
  same (obj fs) _ = false

  pub same_items : Items → Items → Bool
  same_items nil nil = true
  same_items nil (cons y ys) = false
  same_items (cons x xs) nil = false
  same_items (cons x xs) (cons y ys) = same x y && same_items xs ys

  pub held_in : Fields → Fields → Bool
  held_in end gs = true
  held_in (field k v fs) gs = elim (find k gs) [ none ↦ false | some w ↦ same v w ] && held_in fs gs

-- `request.get(key)`, which gives `None` for a missing key.
unfoldable pub get_or_null : String → Dict Value → Value
get_or_null key request = elim (lookup key request) [ none ↦ null | some value ↦ value ]

-- `_matches`
unfoldable pub matches : Dict Value → Dict Value → Bool
unfolding get_or_null same
matches [] request = true
matches ((key, value) ∷ pattern) request =
    let rest = matches pattern request in
    if same value (str "*")
    then rest
    else if same (get_or_null key request) value
    then rest
    else false

unfoldable pub text_of : Option String → String → String
text_of none default = default
text_of (some s) default = s

unfoldable pub decision_of : Rule → PolicyDecision
unfolding text_of
decision_of rule = record {
  allowed = str_eq (text_of rule.effect "deny") "allow";
  reason = str_append "Matched rule '" (str_append (text_of rule.id "?") "'");
  matched_rule = rule.id;
}

unfoldable pub default_decision : String → PolicyDecision
default_decision default_effect = record {
  allowed = str_eq default_effect "allow";
  reason = str_append "No matching rule; default is '" (str_append default_effect "'");
  matched_rule = none;
}

-- The loop of `evaluate`.
unfoldable pub evaluate_rules : String → List Rule → Dict Value → PolicyDecision
unfolding matches decision_of default_decision
evaluate_rules default_effect [] request = default_decision default_effect
evaluate_rules default_effect (rule ∷ rules) request =
    let rest = evaluate_rules default_effect rules request in
    if matches rule.pattern request then decision_of rule else rest

unfoldable pub evaluate : AuthorityPolicy → Dict Value → PolicyDecision
unfolding evaluate_rules
evaluate policy request = evaluate_rules policy.default_effect policy.rules request

unfoldable pub enforce : AuthorityPolicy → Dict Value → Result (Unit {0})
unfolding evaluate
enforce policy request = raise_if (not (evaluate policy request).allowed) policy_denied
