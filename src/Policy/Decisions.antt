-- ===== src/Policy/Decisions.antt =====
-- Which rule decides in src/sia/security/authority_policy.py.
use sovereignty_ai_gate.Prelude.{
  String, ◌≡◌, ◌↔◌, ◌⊎◌, inl, inr, refl, ap, Option, none, some, str_eq, eq_iff, Bool, true, false,
  not, List, [], ◌∷◌, ◌++◌, All, err, raise_if, policy_denied, Dict, Bool-cases, arith,
  if◌then◌else◌,
}
use sovereignty_ai_gate.Utils.Json.{Value, null, bool, int, str, arr, obj}
use sovereignty_ai_gate.Policy.{
  PolicyDecision, Rule, AuthorityPolicy, same, get_or_null, matches, text_of, decision_of,
  default_decision, evaluate_rules, evaluate, enforce,
}

-- What a pattern asks of a request.
abbrev pub Fits : Dict Value → Dict Value → Type 0
Fits pattern request =
    All
      (λ (entry : String × Value).
        (entry.1 ≡ str "*") ⊎ (same (get_or_null entry.0 request) entry.1 ≡ true))
      pattern

-- Only the text of a star equals the wildcard.
is_star : (v : Value) → (same v (str "*") ≡ true) ↔ (v ≡ str "*")
unfolding same
is_star null = (λ h. cc, λ h. cc)
is_star (bool b) = (λ h. cc, λ h. cc)
is_star (int n) = (λ h. cc, λ h. cc)
is_star (str s) = (λ h. ap str ((eq_iff s "*").0 h), λ h. (eq_iff s "*").1 (cc h))
is_star (arr xs) = (λ h. cc, λ h. cc)
is_star (obj fs) = (λ h. cc, λ h. cc)

either_test :
    (a b rest : Bool)
    → ((if a then rest else if b then rest else false) ≡ true)
      ↔ (((a ≡ true) ⊎ (b ≡ true)) × (rest ≡ true))
either_test true b rest = (λ h. (inl refl, h), λ h. h.1)
either_test false true rest = (λ h. (inr refl, h), λ h. h.1)
either_test false false rest = (λ h. absurd (ground arith), λ h. absurd (ground arith))

matches-Fits :
    (pattern request : Dict Value) → (matches pattern request ≡ true) ↔ Fits pattern request
unfolding matches
matches-Fits [] request = (λ h. tt, λ h. refl)
matches-Fits ((key, value) ∷ pattern) request =
    let (there, back) = matches-Fits pattern request in
    let star = is_star value in
    let tests =
      either_test (same value (str "*")) (same (get_or_null key request) value)
        (matches pattern request) in
    (
      λ h.
          let (one, rest) = tests.0 h in
          (elim one [ inl a ↦ inl (star.0 a) | inr b ↦ inr b ], there rest),
      λ (one, rest). tests.1 (elim one [ inl a ↦ inl (star.1 a) | inr b ↦ inr b ], back rest),
    )

effect_allows :
    (effect : Option String)
    → (str_eq (text_of effect "deny") "allow" ≡ true) ↔ (effect ≡ some "allow")
unfolding text_of
effect_allows none = (λ h. cc, λ h. cc)
effect_allows (some s) = (λ h. ap some ((eq_iff s "allow").0 h), λ h. (eq_iff s "allow").1 (cc h))

-- The decision of a rule.
pub record Ruled (rule : Rule) (decision : PolicyDecision) : Type 0 where
  pub allows : (decision.allowed ≡ true) ↔ (rule.effect ≡ some "allow")
  pub matched : decision.matched_rule ≡ rule.id

-- The decision of a default.
pub record Defaulted (default_effect : String) (decision : PolicyDecision) : Type 0 where
  pub allows : (decision.allowed ≡ true) ↔ (default_effect ≡ "allow")
  pub matched : decision.matched_rule ≡ none

decision_of-Ruled : (rule : Rule) → Ruled rule (decision_of rule)
unfolding decision_of
decision_of-Ruled rule = record { allows = effect_allows rule.effect; matched = refl }

default_decision-Defaulted : (effect : String) → Defaulted effect (default_decision effect)
unfolding default_decision
default_decision-Defaulted effect = record { allows = eq_iff effect "allow"; matched = refl }

-- No rule fits.
abbrev pub NoneFits : List Rule → Dict Value → Type 0
NoneFits rules request = All (λ (r : Rule). ¬ Fits r.pattern request) rules

-- The first rule that fits, and the decision that it makes.
pub record Decides (rules : List Rule) (request : Dict Value) (decision : PolicyDecision)
    : Type 0 where
  pub before : List Rule
  pub rule : Rule
  pub after : List Rule
  pub split : rules ≡ before ++ rule ∷ after
  pub passed : NoneFits before request
  pub fits : Fits rule.pattern request
  pub decided : Ruled rule decision

rules_decide :
    (default_effect : String) (rules : List Rule) (request : Dict Value)
    → Decides rules request (evaluate_rules default_effect rules request)
      ⊎ (NoneFits rules request
          × Defaulted default_effect (evaluate_rules default_effect rules request))
unfolding evaluate_rules
rules_decide default_effect [] request = inr (tt, default_decision-Defaulted default_effect)
rules_decide default_effect (rule ∷ rules) request =
    let not_fits : matches rule.pattern request ≡ false → ¬ Fits rule.pattern request =
      λ unfit fits. cc (unfit, (matches-Fits rule.pattern request).1 fits) in
    elim (Bool-cases (matches rule.pattern request)) [
      | inl fits ↦ inl (record {
        before = [];
        rule = rule;
        after = rules;
        split = refl;
        passed = tt;
        fits = (matches-Fits rule.pattern request).0 fits;
        decided = rw fits (decision_of-Ruled rule);
      })
      | inr unfit ↦ elim (rules_decide default_effect rules request) [
        | inr (none_fits, kept) ↦ inr ((not_fits unfit, none_fits), rw unfit kept)
        | inl d ↦ inl (record {
          before = rule ∷ d.before;
          rule = d.rule;
          after = d.after;
          split = ap (λ l. rule ∷ l) d.split;
          passed = (not_fits unfit, d.passed);
          fits = d.fits;
          decided = rw unfit d.decided;
        })
      ]
    ]

refusal : (b : Bool) → (raise_if (not b) policy_denied ≡ err policy_denied) ↔ (b ≡ false)
refusal true = (λ h. absurd (ground arith), λ h. absurd (ground arith))
refusal false = (λ h. refl, λ h. refl)

-- The first rule whose every entry is the wildcard or equals the request's value decides: it allows
-- exactly when its effect is "allow", and is named as the one matched. When no rule is such, the
-- decision allows exactly when the policy's default is "allow", and names no rule. `enforce` raises PolicyDeniedError exactly on the
-- decisions that do not allow.
pub evaluate-Decides :
    (policy : AuthorityPolicy) (request : Dict Value)
    → (Decides policy.rules request (evaluate policy request)
        ⊎ (NoneFits policy.rules request
            × Defaulted policy.default_effect (evaluate policy request)))
      × ((enforce policy request ≡ err policy_denied) ↔ ((evaluate policy request).allowed ≡ false))
unfolding evaluate enforce
evaluate-Decides policy request = (
  rules_decide policy.default_effect policy.rules request,
  refusal (evaluate_rules policy.default_effect policy.rules request).allowed,
)
