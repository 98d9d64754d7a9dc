-- ===== src/Approval/Document.antt =====
-- internal/approval/plan.go: plan documents and their normal form. `path.Clean` and
-- `strings.ToLower` are parameters, and so is `encode`, the JSON of a scope, by which the scopes of
-- a step are sorted.
use auto_ze_agent.Common.{
  List, Option, Text, [], any, eq_ℤ, if◌then◌else◌, is_blank, is_nil, keep_if, ltb_ℤ, map, none,
  not, pos, some, text_eq, trim_space, ℕ, ℤ, ◌==◌, ◌||◌, ◌∷◌,
}
use auto_ze_agent.Policy.{RiskLevel, valid_risk}
use auto_ze_agent.Approval.Match.{CapabilityScope}
use auto_ze_agent.Approval.Normal.{text_ltb, sorted_unique, normalize_capability}

pub record PlanBudget : Type 0 where
  pub max_tokens : ℤ
  pub max_cost_micros : ℤ
  pub max_duration_ms : ℤ

pub record StepScope : Type 0 where
  pub step_id : Text
  pub position : ℤ
  pub title : Text
  pub risk : RiskLevel
  pub expected_side_effects : List Text
  pub rollback : Text
  pub timeout_ms : ℤ
  pub capabilities : List CapabilityScope

pub record PlanDocument : Type 0 where
  pub plan_id : Text
  pub task_id : Text
  pub revision : ℕ  -- uint64
  pub objective : Text
  pub budget : PlanBudget
  pub steps : List StepScope

unfoldable pub normalize_text_list : List Text → List Text
normalize_text_list values = sorted_unique (keep_if (λ v. not (is_nil v)) (map trim_space values))

abbrev pub put_first {ℓ} : {A : Type ℓ} → A → Option (List A) → Option (List A)
put_first a none = none
put_first a (some rest) = some (a ∷ rest)

module _ (clean lower : Text → Text) where
  unfoldable pub normalize_capabilities : List CapabilityScope → Option (List CapabilityScope)
  normalize_capabilities [] = some []
  normalize_capabilities (c ∷ cs) =
      let rest = normalize_capabilities cs in
      elim (normalize_capability clean lower c) [ none ↦ none | some n ↦ put_first n rest ]

  module _ (encode : CapabilityScope → Text) where
    -- `sort.Slice` by the encodings; scopes with one encoding are equal.
    unfoldable pub insert_scope : CapabilityScope → List CapabilityScope → List CapabilityScope
    insert_scope c [] = c ∷ []
    insert_scope c (d ∷ ds) =
        let rest = insert_scope c ds in
        if text_ltb (encode d) (encode c) then d ∷ rest else c ∷ d ∷ ds

    unfoldable pub sort_scopes : List CapabilityScope → List CapabilityScope
    unfolding insert_scope
    sort_scopes [] = []
    sort_scopes (c ∷ cs) = insert_scope c (sort_scopes cs)

    unfoldable pub with_capabilities : StepScope → Option (List CapabilityScope) → Option StepScope
    with_capabilities s none = none
    with_capabilities s (some cs) = some (record s {
      title = trim_space s.title;
      expected_side_effects = normalize_text_list s.expected_side_effects;
      rollback = trim_space s.rollback;
      capabilities = sort_scopes cs;
    })

    -- `none` is the error `ErrInvalidPlan`.
    unfoldable pub normalize_step : StepScope → Option StepScope
    unfolding with_capabilities
    normalize_step s =
        if is_blank s.step_id || (ltb_ℤ s.position (pos 0) || is_blank s.title)
        then none
        else if not (valid_risk s.risk)
        then none
        else with_capabilities s (normalize_capabilities s.capabilities)

    -- The loop; `seen` are the steps so far.
    unfoldable pub normalize_steps : List StepScope → List StepScope → Option (List StepScope)
    normalize_steps seen [] = some []
    normalize_steps seen (s ∷ ss) = elim (normalize_step s) [
      | none ↦ none
      | some n ↦
          if any (λ (m : StepScope). text_eq m.step_id n.step_id) seen
          then none
          else if any (λ (m : StepScope). eq_ℤ m.position n.position) seen
          then none
          else put_first n (normalize_steps (n ∷ seen) ss)
    ]

    -- `sort.Slice` by the positions, which are distinct.
    unfoldable pub insert_step : StepScope → List StepScope → List StepScope
    insert_step s [] = s ∷ []
    insert_step s (t ∷ ts) =
        let rest = insert_step s ts in if ltb_ℤ t.position s.position then t ∷ rest else s ∷ t ∷ ts

    unfoldable pub sort_steps : List StepScope → List StepScope
    unfolding insert_step
    sort_steps [] = []
    sort_steps (s ∷ ss) = insert_step s (sort_steps ss)

    unfoldable pub with_steps : PlanDocument → Option (List StepScope) → Option PlanDocument
    with_steps p none = none
    with_steps p (some steps) =
        some (record p { objective = trim_space p.objective; steps = sort_steps steps })

    -- `PlanDocument.normalized`; `none` is the error `ErrInvalidPlan`.
    unfoldable pub normalized : PlanDocument → Option PlanDocument
    unfolding with_steps
    normalized p =
        if is_blank p.plan_id || is_blank p.task_id
        then none
        else if (p.revision == 0) || is_blank p.objective
        then none
        else if is_nil p.steps
        then none
        else with_steps p (normalize_steps [] p.steps)
