-- ===== src/Kernel/Task.antt =====
-- internal/kernel/model.go: tasks, their execution mode and their transitions.
use auto_ze_agent.Common.{
  Bool, Option, Text, [], codes, false, if◌then◌else◌, is_blank, none, not, some, text_eq,
  trim_space, true, u64, ℕ, ◌+◌, ◌||◌,
}
use auto_ze_agent.Kernel.Base.{
  Time, Error, invalid_aggregate, invalid_transition, Result, ok, err, normalized_time,
}

-- `other` stands for a stored string that is none of the named states.
pub data TaskState : Type 0 where
  created running paused completed failed cancelled : TaskState
  other : Text → TaskState

unfoldable pub task_state_text : TaskState → Text
task_state_text created = codes "created"
task_state_text running = codes "running"
task_state_text paused = codes "paused"
task_state_text completed = codes "completed"
task_state_text failed = codes "failed"
task_state_text cancelled = codes "cancelled"
task_state_text (other s) = s

-- The two-level map: whether `to` is a key under `from`.
unfoldable pub task_transitions : TaskState → TaskState → Bool
task_transitions created running = true
task_transitions created cancelled = true
task_transitions running paused = true
task_transitions running completed = true
task_transitions running failed = true
task_transitions running cancelled = true
task_transitions paused running = true
task_transitions paused cancelled = true
task_transitions failed cancelled = true
task_transitions _ _ = false

pub data ExecutionMode : Type 0 where
  agent plan : ExecutionMode
  other_mode : Text → ExecutionMode

unfoldable pub valid : ExecutionMode → Bool
valid agent = true
valid plan = true
valid (other_mode s) = false

unfoldable pub normalize_execution_mode : Text → ExecutionMode
unfolding trim_space text_eq
normalize_execution_mode value = if text_eq (trim_space value) (codes "plan") then plan else agent

pub record Task : Type 0 where
  pub id : Text
  pub session_id : Text
  pub title : Text
  pub objective : Text
  pub state : TaskState
  pub execution_mode : ExecutionMode
  pub version : ℕ  -- uint64
  pub created_at : Time
  pub updated_at : Time

-- `if mode == "" { mode = ExecutionModeAgent }`.
default_mode : ExecutionMode → ExecutionMode
default_mode (other_mode []) = agent
default_mode mode = mode

unfoldable pub new_task_with_mode :
    Time → Text → Text → Text → Text → ExecutionMode → Time → Result Task
unfolding normalized_time default_mode valid
new_task_with_mode clock id session_id title objective mode now =
    let t = normalized_time clock now in
    if is_blank id || is_blank session_id
    then err invalid_aggregate
    else if is_blank title || is_blank objective
    then err invalid_aggregate
    else if not (valid (default_mode mode))
    then err invalid_aggregate
    else ok (record {
      id = id;
      session_id = session_id;
      title = trim_space title;
      objective = trim_space objective;
      state = created;
      execution_mode = default_mode mode;
      version = 1;
      created_at = t;
      updated_at = t;
    })

unfoldable pub new_task : Time → Text → Text → Text → Text → Time → Result Task
unfolding new_task_with_mode
new_task clock id session_id title objective now =
    new_task_with_mode clock id session_id title objective agent now

unfoldable pub transition : Time → TaskState → Time → Task → Task × Option Error
unfolding task_transitions normalized_time
transition clock to now t =
    if task_transitions t.state to
    then (
      record t {
        state = to;
        version = u64 (t.version + 1);
        updated_at = normalized_time clock now;
      },
      none,
    )
    else (
      t,
      some (
          invalid_transition (record {
            aggregate = codes "task";
            from = task_state_text t.state;
            to = task_state_text to;
          })),
    )

unfoldable pub cancel : Time → Time → Task → Task × Option Error
unfolding transition
cancel clock now t = transition clock cancelled now t
