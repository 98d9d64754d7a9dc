-- ===== src/Policy/Decisions.antt =====
-- What the policy evaluator decides (internal/policy/policy.go).
use auto_ze_agent.Common.{Bool, Option, arith, false, none, some, true, ◌↔◌, ◌≡◌, ◌≢◌, ◌⊎◌}
use auto_ze_agent.Policy.{
  RiskLevel, r0, Action, allow, require_approval, Rules, valid_risk, at_least, at_most, Decision,
  default_config, authorize, approval_required, deny, evaluate,
}

abbrev pub IsRule : Option Rules → RiskLevel → Action → Type 0
IsRule none level a = ⊥
IsRule (some rules) level a = rules level ≡ some a

-- What a decision that is no denial rests on.
abbrev pub IsBased : Option Rules → RiskLevel → Decision → Type 0
IsBased e level d =
    (valid_risk level ≡ true)
    × ((IsRule e level allow × (d.requires_approval ≡ false))
        ⊎ (IsRule e level require_approval × (d.requires_approval ≡ true)))

pub evaluate_sound :
    (e : Option Rules) (level : RiskLevel)
    → (evaluate e level).action ≢ deny
    → IsBased e level (evaluate e level)
unfolding evaluate
evaluate_sound none level h = ground arith
evaluate_sound (some rules) level h = ground arith

pub evaluate_allow :
    (e : Option Rules) (level : RiskLevel)
    → valid_risk level ≡ true
    → IsRule e level allow
    → ((evaluate e level).action ≡ allow) × ((evaluate e level).requires_approval ≡ false)
unfolding evaluate
evaluate_allow none level v h = absurd h
evaluate_allow (some rules) level v h = (ground arith, ground arith)

pub evaluate_require :
    (e : Option Rules) (level : RiskLevel)
    → valid_risk level ≡ true
    → IsRule e level require_approval
    → ((evaluate e level).action ≡ require_approval) × ((evaluate e level).requires_approval ≡ true)
unfolding evaluate
evaluate_require none level v h = absurd h
evaluate_require (some rules) level v h = (ground arith, ground arith)

-- `Authorize` accepts exactly a known level whose rule allows it, or whose rule requires an
-- approval that was given: a missing evaluator, rule or level is refused.
pub authorize_iff :
    (e : Option Rules) (level : RiskLevel) (approved : Bool)
    → (authorize e level approved ≡ none) ↔ (
        (valid_risk level ≡ true)
        × (IsRule e level allow ⊎ (IsRule e level require_approval × (approved ≡ true))))
unfolding authorize
authorize_iff none level approved = (λ h. ground arith, λ h. ground arith)
authorize_iff (some rules) level approved = (λ h. ground arith, λ h. ground arith)

-- An approval turns only the answer "approval required" into success, and every other answer
-- is the same with and without it.
pub authorize_approval :
    (e : Option Rules) (level : RiskLevel)
    → ((authorize e level false ≡ some (approval_required level)) × (authorize e level true ≡ none))
      ⊎ ((authorize e level true ≡ authorize e level false)
          × (authorize e level false ≢ some (approval_required level)))
unfolding authorize
authorize_approval none level = ground arith
authorize_approval (some rules) level = ground arith

-- The order on risk levels is that of their ranks: the two tests are converse to each other, known
-- levels are comparable, and a chain composes.
pub at_least_order :
    (a b c : RiskLevel)
    → (at_least a b ≡ at_most b a)
      × (valid_risk a ≡ true → valid_risk b ≡ true → (at_least a b ≡ true) ⊎ (at_least b a ≡ true))
      × (at_least a b ≡ true → at_least b c ≡ true → at_least a c ≡ true)
unfolding at_least at_most valid_risk
at_least_order a b c = (ground arith, λ h k. ground arith, λ h k. ground arith)

-- Under the default rules only R0 passes without an approval, and with one every known level passes.
pub default_config-authorize :
    (level : RiskLevel)
    → ((authorize (some default_config) level false ≡ none) ↔ (level ≡ r0))
      × ((authorize (some default_config) level true ≡ none) ↔ (valid_risk level ≡ true))
unfolding authorize default_config valid_risk
default_config-authorize level =
    ((λ h. ground arith, λ h. ground arith), (λ h. ground arith, λ h. ground arith))
