-- ===== src/Policy/Tests.antt =====
-- A run of src/sia/security/authority_policy.py.
use sovereignty_ai_gate.Prelude.{
  ◌≡◌, ◌↔◌, ◌⊎◌, refl, false, [], ◌∷◌, some, err, policy_denied, Dict,
}
use sovereignty_ai_gate.Utils.Json.{Value, str}
use sovereignty_ai_gate.Policy.{
  AuthorityPolicy, default_decision, evaluate_rules, evaluate, enforce,
}
use sovereignty_ai_gate.Policy.Decisions.{Decides, NoneFits, Defaulted, evaluate-Decides}

abbrev policy : AuthorityPolicy
policy = record {
  default_effect = "deny";
  rules =
      record {
        pattern = ("action", str "read") ∷ ("subject", str "*") ∷ [];
        effect = some "allow";
        id = some "readers";
      }
      ∷ [];
}

abbrev request : Dict Value
request = ("action", str "read") ∷ ("subject", str "alice") ∷ []

no_rules : enforce (record policy { rules = [] }) request ≡ err policy_denied
unfolding enforce evaluate evaluate_rules default_decision
no_rules = refl

evaluate-Decides_example :
    (Decides policy.rules request (evaluate policy request)
      ⊎ (NoneFits policy.rules request × Defaulted "deny" (evaluate policy request)))
    × ((enforce policy request ≡ err policy_denied) ↔ ((evaluate policy request).allowed ≡ false))
evaluate-Decides_example = evaluate-Decides policy request
