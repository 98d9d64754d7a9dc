-- ===== src/Kernel/Run.antt =====
-- internal/kernel/model.go: runs and their transitions.
use auto_ze_agent.Common.{
  Bool, Option, Text, [], codes, false, if◌then◌else◌, is_blank, none, some, trim_space, true, u64,
  ℕ, ◌+◌, ◌||◌,
}
use auto_ze_agent.Kernel.Base.{
  Time, Error, invalid_aggregate, invalid_transition, Result, ok, err, normalized_time,
}

-- `other` stands for a stored string that is none of the named states.
pub data RunState : Type 0 where
  created running completed failed cancelled : RunState
  other : Text → RunState

unfoldable pub run_state_text : RunState → Text
run_state_text created = codes "created"
run_state_text running = codes "running"
run_state_text completed = codes "completed"
run_state_text failed = codes "failed"
run_state_text cancelled = codes "cancelled"
run_state_text (other s) = s

unfoldable pub run_transitions : RunState → RunState → Bool
run_transitions created running = true
run_transitions created cancelled = true
run_transitions running completed = true
run_transitions running failed = true
run_transitions running cancelled = true
run_transitions _ _ = false

pub record Run : Type 0 where
  pub id : Text
  pub task_id : Text
  pub plan_id : Text
  pub state : RunState
  pub version : ℕ  -- uint64
  pub started_at : Time
  pub updated_at : Time
  pub finished_at : Option Time
  pub error : Text

unfoldable pub new_run : Time → Text → Text → Text → Time → Result Run
unfolding normalized_time
new_run clock id task_id plan_id now =
    let t = normalized_time clock now in
    if is_blank id || (is_blank task_id || is_blank plan_id)
    then err invalid_aggregate
    else ok (record {
      id = id;
      task_id = task_id;
      plan_id = plan_id;
      state = created;
      version = 1;
      started_at = t;
      updated_at = t;
      finished_at = none;
      error = [];
    })

-- `to == RunCompleted || to == RunFailed || to == RunCancelled`.
unfoldable pub is_finished : RunState → Bool
is_finished completed = true
is_finished failed = true
is_finished cancelled = true
is_finished _ = false

abbrev is_failed : RunState → Bool
is_failed failed = true
is_failed _ = false

unfoldable pub transition : Time → RunState → Text → Time → Run → Run × Option Error
unfolding run_transitions normalized_time is_finished
transition clock to failure now r =
    let t = normalized_time clock now in
    if run_transitions r.state to
    then (
      record r {
        state = to;
        version = u64 (r.version + 1);
        updated_at = t;
        finished_at = if is_finished to then some t else r.finished_at;
        error = if is_failed to then trim_space failure else r.error;
      },
      none,
    )
    else (
      r,
      some (
          invalid_transition (record {
            aggregate = codes "run";
            from = run_state_text r.state;
            to = run_state_text to;
          })),
    )
