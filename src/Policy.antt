-- ===== src/Policy.antt =====
-- internal/policy/policy.go: risk levels, the rule table and its evaluator. The properties are in
-- the child `Decisions`.
pub mod Decisions
use auto_ze_agent.Common.{
  Bool, Option, Text, false, if◌then◌else◌, is_some, leb, none, not, some, true, ℕ,
}

-- `other_risk` and `other_action` stand for a string that is none of the named values.
pub data RiskLevel : Type 0 where
  r0 r1 r2 r3 r4 : RiskLevel
  other_risk : Text → RiskLevel

-- `riskOrder[r]`, with `none` for a missing key.
unfoldable pub risk_order : RiskLevel → Option ℕ
risk_order r0 = some 0
risk_order r1 = some 1
risk_order r2 = some 2
risk_order r3 = some 3
risk_order r4 = some 4
risk_order (other_risk s) = none

unfoldable pub valid_risk : RiskLevel → Bool
unfolding risk_order
valid_risk r = is_some (risk_order r)

-- `actualOK && requiredOK && test actualOrder requiredOrder`.
both_known : (ℕ → ℕ → Bool) → Option ℕ → Option ℕ → Bool
both_known test (some a) (some b) = test a b
both_known test _ _ = false

unfoldable pub at_least : RiskLevel → RiskLevel → Bool
unfolding risk_order both_known
at_least actual required = both_known (λ a b. leb b a) (risk_order actual) (risk_order required)

unfoldable pub at_most : RiskLevel → RiskLevel → Bool
unfolding risk_order both_known
at_most actual max = both_known (λ a b. leb a b) (risk_order actual) (risk_order max)

pub data Action : Type 0 where
  allow require_approval deny : Action
  other_action : Text → Action

unfoldable pub valid_action : Action → Bool
valid_action (other_action s) = false
valid_action _ = true

-- A rule map, as its lookup.
abbrev pub Rules : Type 0
Rules = RiskLevel → Option Action

unfoldable pub default_config : Rules
default_config r0 = some allow
default_config r1 = some require_approval
default_config r2 = some require_approval
default_config r3 = some require_approval
default_config r4 = some require_approval
default_config (other_risk s) = none

pub data Reason : Type 0 where
  unknown_level unavailable missing_rule allows explicit_approval denies : Reason

pub record Decision : Type 0 where
  pub risk : RiskLevel
  pub action : Action
  pub allowed : Bool
  pub requires_approval : Bool
  pub reason : Reason

denied : RiskLevel → Reason → Decision
denied level reason = record {
  risk = level;
  action = deny;
  allowed = false;
  requires_approval = false;
  reason = reason;
}

-- The `switch` of `Evaluate`, under its test that the rule is there and valid.
by_rule : RiskLevel → Option Action → Decision
unfolding denied
by_rule level (some allow) = record {
  risk = level;
  action = allow;
  allowed = true;
  requires_approval = false;
  reason = allows;
}
by_rule level (some require_approval) = record {
  risk = level;
  action = require_approval;
  allowed = false;
  requires_approval = true;
  reason = explicit_approval;
}
by_rule level (some deny) = denied level denies
by_rule level (some (other_action s)) = denied level missing_rule
by_rule level none = denied level missing_rule

-- The evaluator is a pointer: `none` is the nil one.
evaluate_known : RiskLevel → Option Rules → Decision
unfolding by_rule denied
evaluate_known level none = denied level unavailable
evaluate_known level (some rules) = by_rule level (rules level)

unfoldable pub evaluate : Option Rules → RiskLevel → Decision
unfolding evaluate_known denied valid_risk
evaluate e level =
    if not (valid_risk level) then denied level unknown_level else evaluate_known level e

pub data PolicyError : Type 0 where
  approval_required : RiskLevel → PolicyError
  policy_denied : RiskLevel → Reason → PolicyError

unfoldable pub authorize : Option Rules → RiskLevel → Bool → Option PolicyError
unfolding evaluate
authorize e level approved =
    let d = evaluate e level in
    if d.allowed
    then none
    else if d.requires_approval
    then (if approved then none else some (approval_required level))
    else some (policy_denied level d.reason)
