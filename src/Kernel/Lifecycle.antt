-- ===== src/Kernel/Lifecycle.antt =====
-- What holds of a task over every history of transition requests
-- (internal/kernel/model.go).
use auto_ze_agent.Common.{
  Bool, List, Option, Text, [], any, arith, false, inl, inr, is_blank, is_nil, none, refl, some,
  suc, trim_space, trim_space_idem, true, u64, ℕ, ◌+◌, ◌∙◌, ◌∷◌, ◌≡◌, ◌⊎◌,
}
use auto_ze_agent.Kernel.Base.{Time, Error, ok}
use auto_ze_agent.Kernel.Task
use auto_ze_agent.Kernel.Task.{Task, TaskState, ExecutionMode, new_task_with_mode, cancel, valid}

-- A request names a state; the caller passes a time, and the clock reads one.
pub record TaskRequest : Type 0 where
  pub to : TaskState
  pub now : Time
  pub clock : Time

abbrev accepted : Option Error → ℕ → ℕ
accepted none n = suc n
accepted (some e) n = n

-- The task after a history of requests, and how many of them were accepted.
unfoldable pub run_task : Task → List TaskRequest → Task × ℕ
run_task t [] = (t, 0)
run_task t (q ∷ qs) =
    let (t', e) = Task.transition q.clock q.to q.now t in
    let rest = run_task t' qs in (rest.0, accepted e rest.1)

abbrev pub is_terminal : TaskState → Bool
is_terminal TaskState.completed = true
is_terminal TaskState.cancelled = true
is_terminal _ = false

step_terminal :
    (t : Task) (q : TaskRequest)
    → is_terminal t.state ≡ true
    → (Task.transition q.clock q.to q.now t).0 ≡ t
unfolding Task.transition
step_terminal t q h = ground arith

-- A completed or cancelled task keeps every field over every history of transition requests.
pub run_task-terminal :
    (t : Task) (qs : List TaskRequest) → is_terminal t.state ≡ true → (run_task t qs).0 ≡ t
unfolding run_task
run_task-terminal t [] h = refl
run_task-terminal t (q ∷ qs) h = rw (step_terminal t q h) (run_task-terminal t qs h)

abbrev pub is_open : TaskState → Bool
is_open TaskState.created = true
is_open TaskState.running = true
is_open TaskState.paused = true
is_open TaskState.failed = true
is_open _ = false

cancel-state :
    (clock now : Time) (t : Task)
    → is_open t.state ≡ true
    → (cancel clock now t).0.state ≡ TaskState.cancelled
unfolding cancel
cancel-state clock now t h = ground arith

cancel-accepted :
    (clock now : Time) (t : Task) → is_open t.state ≡ true → (cancel clock now t).1 ≡ none
unfolding cancel
cancel-accepted clock now t h = ground arith

-- Cancelling a created, running, paused or failed task succeeds, and the task is still cancelled
-- after every later history of requests.
pub cancel_wins :
    (clock now : Time) (t : Task) (qs : List TaskRequest)
    → is_open t.state ≡ true
    → ((cancel clock now t).1 ≡ none)
      × ((run_task (cancel clock now t).0 qs).0.state ≡ TaskState.cancelled)
cancel_wins clock now t qs h =
    let c = cancel-state clock now t h in
    (cancel-accepted clock now t h, rw (run_task-terminal (cancel clock now t).0 qs (rw c)) c)

step-version :
    (t : Task) (q : TaskRequest) (n : ℕ)
    → u64 ((Task.transition q.clock q.to q.now t).0.version + n)
      ≡ u64 (t.version + accepted (Task.transition q.clock q.to q.now t).1 n)
unfolding Task.transition
step-version t q n = ground arith

-- The version of a task counts the accepted requests, as a `uint64`; a refused one changes nothing.
pub run_task-version :
    (t : Task) (qs : List TaskRequest)
    → u64 (run_task t qs).0.version ≡ u64 (t.version + (run_task t qs).1)
unfolding run_task
run_task-version t [] = omega arith
run_task-version t (q ∷ qs) =
    run_task-version (Task.transition q.clock q.to q.now t).0 qs
    ∙ step-version t q (run_task (Task.transition q.clock q.to q.now t).0 qs).1

abbrev pub is_running : TaskState → Bool
is_running TaskState.running = true
is_running _ = false

abbrev pub asks_running : TaskRequest → Bool
asks_running q = is_running q.to

-- The states that a task can be in before it has run.
abbrev not_yet_run : TaskState → Bool
not_yet_run TaskState.created = true
not_yet_run TaskState.cancelled = true
not_yet_run _ = false

step_not_yet_run :
    (t : Task) (q : TaskRequest)
    → not_yet_run t.state ≡ true
    → (asks_running q ≡ true) ⊎ (not_yet_run (Task.transition q.clock q.to q.now t).0.state ≡ true)
unfolding Task.transition
step_not_yet_run t q h = ground arith

needs_running :
    (t : Task) (qs : List TaskRequest)
    → not_yet_run t.state ≡ true
    → (not_yet_run (run_task t qs).0.state ≡ true) ⊎ (any asks_running qs ≡ true)
unfolding run_task
needs_running t [] h = inl h
needs_running t (q ∷ qs) h = elim (step_not_yet_run t q h) [
  | inl e ↦ inr (rw e refl)
  | inr k ↦ ground (arith, needs_running (Task.transition q.clock q.to q.now t).0 qs k)
]

-- A created task is paused, completed or failed only after a request to run.
pub run_task-needs_running :
    (t : Task) (qs : List TaskRequest)
    → t.state ≡ TaskState.created
    → ((run_task t qs).0.state ≡ TaskState.completed)
      ⊎ (((run_task t qs).0.state ≡ TaskState.paused)
          ⊎ ((run_task t qs).0.state ≡ TaskState.failed))
    → any asks_running qs ≡ true
run_task-needs_running t qs s h = ground (arith, needs_running t qs (rw s refl))

-- What a task satisfies from its creation on.
pub record IsWellFormed (t : Task) : Type 0 where
  pub has_id : is_blank t.id ≡ false
  pub has_session : is_blank t.session_id ≡ false
  pub title_trimmed : trim_space t.title ≡ t.title
  pub has_title : is_nil t.title ≡ false
  pub objective_trimmed : trim_space t.objective ≡ t.objective
  pub has_objective : is_nil t.objective ≡ false
  pub valid_mode : valid t.execution_mode ≡ true

new_task-IsWellFormed :
    (clock now : Time) (id session title objective : Text) (mode : ExecutionMode) {t : Task}
    → new_task_with_mode clock id session title objective mode now ≡ ok t
    → IsWellFormed t
unfolding new_task_with_mode
new_task-IsWellFormed clock now id session title objective mode h =
    ground (arith, trim_space_idem title, trim_space_idem objective)

step-IsWellFormed :
    (t : Task) (q : TaskRequest)
    → IsWellFormed t
    → IsWellFormed (Task.transition q.clock q.to q.now t).0
unfolding Task.transition
step-IsWellFormed t q h = ground arith

run_task-IsWellFormed :
    (t : Task) (qs : List TaskRequest) → IsWellFormed t → IsWellFormed (run_task t qs).0
unfolding run_task
run_task-IsWellFormed t [] h = h
run_task-IsWellFormed t (q ∷ qs) h =
    run_task-IsWellFormed (Task.transition q.clock q.to q.now t).0 qs (step-IsWellFormed t q h)

-- Every task that the constructor accepts has non-blank IDs, a trimmed non-empty title and
-- objective and a valid mode, and keeps them over every history of requests.
pub task-IsWellFormed :
    (clock now : Time) (id session title objective : Text) (mode : ExecutionMode)
    (qs : List TaskRequest) {t : Task}
    → new_task_with_mode clock id session title objective mode now ≡ ok t
    → IsWellFormed (run_task t qs).0
task-IsWellFormed clock now id session title objective mode qs {t} h =
    run_task-IsWellFormed t qs (new_task-IsWellFormed clock now id session title objective mode h)
