-- ===== src/Kernel/Plan.antt =====
-- internal/kernel/model.go: plans, plan steps and their transitions.
use auto_ze_agent.Common.{
  Bool, List, Option, Text, [], any, codes, eq_ℤ, false, if◌then◌else◌, is_blank, ltb_ℤ, none, not,
  pos, some, text_eq, trim_space, true, u64, ℕ, ℤ, ◌++◌, ◌+◌, ◌==◌, ◌||◌, ◌∷◌,
}
use auto_ze_agent.Kernel.Base.{
  Time, Error, invalid_aggregate, invalid_transition, Result, ok, err, normalized_time,
}

-- `other_plan` and `other_step` stand for a stored string that is none of the named states.
pub data PlanState : Type 0 where
  draft approved superseded : PlanState
  other_plan : Text → PlanState

unfoldable pub plan_state_text : PlanState → Text
plan_state_text draft = codes "draft"
plan_state_text approved = codes "approved"
plan_state_text superseded = codes "superseded"
plan_state_text (other_plan s) = s

unfoldable pub plan_transitions : PlanState → PlanState → Bool
plan_transitions draft approved = true
plan_transitions draft superseded = true
plan_transitions approved superseded = true
plan_transitions _ _ = false

pub data StepState : Type 0 where
  step_pending step_approved step_running step_completed step_failed step_skipped : StepState
  other_step : Text → StepState

unfoldable pub step_state_text : StepState → Text
step_state_text step_pending = codes "pending"
step_state_text step_approved = codes "approved"
step_state_text step_running = codes "running"
step_state_text step_completed = codes "completed"
step_state_text step_failed = codes "failed"
step_state_text step_skipped = codes "skipped"
step_state_text (other_step s) = s

unfoldable pub step_transitions : StepState → StepState → Bool
step_transitions step_pending step_approved = true
step_transitions step_pending step_skipped = true
step_transitions step_approved step_running = true
step_transitions step_approved step_skipped = true
step_transitions step_running step_completed = true
step_transitions step_running step_failed = true
step_transitions _ _ = false

pub record PlanStep : Type 0 where
  pub id : Text
  pub plan_id : Text
  pub position : ℤ
  pub title : Text
  pub state : StepState
  pub effect_level : Text
  pub version : ℕ  -- uint64
  pub created_at : Time
  pub updated_at : Time

pub record Plan : Type 0 where
  pub id : Text
  pub task_id : Text
  pub revision : ℕ  -- uint64
  pub state : PlanState
  pub scope_hash : Text
  pub steps : List PlanStep
  pub version : ℕ  -- uint64
  pub created_at : Time
  pub updated_at : Time

unfoldable pub new_plan : Time → Text → Text → ℕ → Text → Time → Result Plan
unfolding normalized_time
new_plan clock id task_id revision scope_hash now =
    let t = normalized_time clock now in
    if is_blank id || (is_blank task_id || (revision == 0))
    then err invalid_aggregate
    else if is_blank scope_hash
    then err invalid_aggregate
    else ok (record {
      id = id;
      task_id = task_id;
      revision = revision;
      state = draft;
      scope_hash = scope_hash;
      steps = [];
      version = 1;
      created_at = t;
      updated_at = t;
    })

plan_error : PlanState → Text → Error
plan_error from to =
    invalid_transition (record { aggregate = codes "plan"; from = plan_state_text from; to = to })

unfoldable pub transition_plan : Time → PlanState → Time → Plan → Plan × Option Error
unfolding plan_transitions normalized_time plan_error
transition_plan clock to now p =
    if plan_transitions p.state to
    then (
      record p {
        state = to;
        version = u64 (p.version + 1);
        updated_at = normalized_time clock now;
      },
      none,
    )
    else (p, some (plan_error p.state (plan_state_text to)))

-- `existing.ID == step.ID || existing.Position == step.Position`.
unfoldable pub clashes : PlanStep → PlanStep → Bool
clashes step existing = text_eq existing.id step.id || eq_ℤ existing.position step.position

is_draft : PlanState → Bool
is_draft draft = true
is_draft _ = false

unfoldable pub add_step : Time → PlanStep → Time → Plan → Plan × Option Error
unfolding normalized_time plan_error is_draft
add_step clock step now p =
    if not (is_draft p.state)
    then (p, some (plan_error p.state (codes "add_step")))
    else if not (text_eq step.plan_id p.id)
    then (p, some invalid_aggregate)
    else if any (clashes step) p.steps
    then (p, some invalid_aggregate)
    else (
      record p {
        steps = p.steps ++ step ∷ [];
        version = u64 (p.version + 1);
        updated_at = normalized_time clock now;
      },
      none,
    )

unfoldable pub new_plan_step : Time → Text → Text → ℤ → Text → Text → Time → Result PlanStep
unfolding normalized_time
new_plan_step clock id plan_id position title effect_level now =
    let t = normalized_time clock now in
    if is_blank id || (is_blank plan_id || ltb_ℤ position (pos 0))
    then err invalid_aggregate
    else if is_blank title || is_blank effect_level
    then err invalid_aggregate
    else ok (record {
      id = id;
      plan_id = plan_id;
      position = position;
      title = trim_space title;
      state = step_pending;
      effect_level = trim_space effect_level;
      version = 1;
      created_at = t;
      updated_at = t;
    })

unfoldable pub transition_step : Time → StepState → Time → PlanStep → PlanStep × Option Error
unfolding step_transitions normalized_time
transition_step clock to now s =
    if step_transitions s.state to
    then (
      record s {
        state = to;
        version = u64 (s.version + 1);
        updated_at = normalized_time clock now;
      },
      none,
    )
    else (
      s,
      some (
          invalid_transition (record {
            aggregate = codes "plan_step";
            from = step_state_text s.state;
            to = step_state_text to;
          })),
    )
