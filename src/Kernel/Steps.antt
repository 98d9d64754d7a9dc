-- ===== src/Kernel/Steps.antt =====
-- The steps of a plan over every history of operations on it (internal/kernel/model.go).
use auto_ze_agent.Common.{
  All, All-append, List, Text, [], any, arith, eq_ℤ_iff, false, inl, inr, refl, text_eq_iff, ℕ,
  ◌++◌, ◌∙◌, ◌∷◌, ◌≡◌, ◌≢◌, ◌⊎◌,
}
use auto_ze_agent.Kernel.Base.{Time, ok}
use auto_ze_agent.Kernel.Plan.{
  Plan, PlanStep, PlanState, draft, new_plan, add_step, transition_plan, clashes,
}

-- The operations that change a plan, with the time passed in and the clock's reading.
pub data PlanCall : Type 0 where
  adds : PlanStep → Time → Time → PlanCall
  moves : PlanState → Time → Time → PlanCall

unfoldable pub apply : Plan → PlanCall → Plan
apply p (adds s now clock) = (add_step clock s now p).0
apply p (moves to now clock) = (transition_plan clock to now p).0

unfoldable pub apply_all : Plan → List PlanCall → Plan
apply_all p [] = p
apply_all p (c ∷ cs) = apply_all (apply p c) cs

-- Two steps with different IDs at different positions.
abbrev pub Apart : PlanStep → PlanStep → Type 0
Apart s e = (e.id ≢ s.id) × (e.position ≢ s.position)

abbrev pub PairwiseApart : List PlanStep → Type 0
PairwiseApart [] = Unit
PairwiseApart (s ∷ ss) = All (λ e. Apart e s) ss × PairwiseApart ss

pub record HasSteps (p : Plan) : Type 0 where
  pub owned : All (λ s. s.plan_id ≡ p.id) p.steps
  pub apart : PairwiseApart p.steps

clashes-Apart : (s e : PlanStep) → clashes s e ≡ false → Apart s e
unfolding clashes
clashes-Apart s e h = (
  λ q. ground (arith, (text_eq_iff e.id s.id).1 q),
  λ q. ground (arith, (eq_ℤ_iff e.position s.position).1 q),
)

PairwiseApart-append :
    (s : PlanStep) (ss : List PlanStep)
    → any (clashes s) ss ≡ false
    → PairwiseApart ss
    → PairwiseApart (ss ++ s ∷ [])
PairwiseApart-append s [] h a = (tt, tt)
PairwiseApart-append s (e ∷ ss) h a = (
  All-append (λ x. Apart x e) ss (s ∷ []) a.0 (clashes-Apart s e (ground arith), tt),
  PairwiseApart-append s ss (ground arith) a.1,
)

-- `AddStep` succeeds only on a draft, for a step of this plan that clashes with none.
add_step_cases :
    (clock : Time) (s : PlanStep) (now : Time) (p : Plan)
    → ((add_step clock s now p).0 ≡ p)
      ⊎ ((p.state ≡ draft)
          × (s.plan_id ≡ p.id)
          × (any (clashes s) p.steps ≡ false)
          × ((add_step clock s now p).0.id ≡ p.id)
          × ((add_step clock s now p).0.steps ≡ p.steps ++ s ∷ []))
unfolding add_step
add_step_cases clock s now p = ground (arith, text_eq_iff s.plan_id p.id)

add_step-HasSteps :
    (clock : Time) (s : PlanStep) (now : Time) (p : Plan)
    → HasSteps p
    → HasSteps (add_step clock s now p).0
add_step-HasSteps clock s now p h = elim (add_step_cases clock s now p) [
  | inl same ↦ rw same h
  | inr (d, own, free, i, e) ↦ record {
    owned = rw (i, e) (All-append (λ x. x.plan_id ≡ p.id) p.steps (s ∷ []) h.owned (own, tt));
    apart = rw e (PairwiseApart-append s p.steps free h.apart);
  }
]

transition_plan_keeps :
    (clock : Time) (to : PlanState) (now : Time) (p : Plan)
    → ((transition_plan clock to now p).0.steps ≡ p.steps)
      × ((transition_plan clock to now p).0.id ≡ p.id)
unfolding transition_plan
transition_plan_keeps clock to now p = ground arith

apply-HasSteps : (p : Plan) (c : PlanCall) → HasSteps p → HasSteps (apply p c)
unfolding apply
apply-HasSteps p (adds s now clock) h = add_step-HasSteps clock s now p h
apply-HasSteps p (moves to now clock) h =
    let (e, i) = transition_plan_keeps clock to now p in
    record { owned = rw (e, i) h.owned; apart = rw e h.apart }

apply_all-HasSteps : (p : Plan) (cs : List PlanCall) → HasSteps p → HasSteps (apply_all p cs)
unfolding apply_all
apply_all-HasSteps p [] h = h
apply_all-HasSteps p (c ∷ cs) h = apply_all-HasSteps (apply p c) cs (apply-HasSteps p c h)

-- Over every history of `AddStep` and `Transition` calls on a new plan, all steps belong to the
-- plan, and no two share an ID or a position.
pub plan-HasSteps :
    (clock : Time) (id task : Text) (revision : ℕ) (hash : Text) (now : Time) (cs : List PlanCall)
    {p : Plan}
    → new_plan clock id task revision hash now ≡ ok p
    → HasSteps (apply_all p cs)
unfolding new_plan
plan-HasSteps clock id task revision hash now cs {p} h =
    let e : p.steps ≡ [] = ground arith in
    apply_all-HasSteps p cs (record { owned = rw e tt; apart = rw e tt })

apply_frozen :
    (p : Plan) (c : PlanCall)
    → p.state ≢ draft
    → ((apply p c).steps ≡ p.steps) × ((apply p c).state ≢ draft)
unfolding apply add_step transition_plan
apply_frozen p (adds s now clock) h = ground arith
apply_frozen p (moves to now clock) h = ground arith

-- Once a plan is no draft, no history of calls changes its steps or makes it a draft again.
pub plan_frozen :
    (p : Plan) (cs : List PlanCall)
    → p.state ≢ draft
    → ((apply_all p cs).steps ≡ p.steps) × ((apply_all p cs).state ≢ draft)
unfolding apply_all
plan_frozen p [] h = (refl, h)
plan_frozen p (c ∷ cs) h =
    let (e, k) = apply_frozen p c h in let (e', k') = plan_frozen (apply p c) cs k in (e' ∙ e, k')
