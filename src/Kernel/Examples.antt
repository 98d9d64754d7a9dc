-- ===== src/Kernel/Examples.antt =====
-- The theorems on internal/kernel/model.go at concrete aggregates, and tests of the definitions.
use auto_ze_agent.Common.{
  List, Text, [], arith, codes, decimal, eq_ℤ, find_row, length, map, none, pos, refl, some,
  text_eq, trim_space, update_rows, ℕ, ◌∷◌, ◌≡◌,
}
use auto_ze_agent.Kernel.Base.{ok}
use auto_ze_agent.Kernel.Task
use auto_ze_agent.Kernel.Task.{Task, TaskState, ExecutionMode, new_task_with_mode, cancel}
use auto_ze_agent.Kernel.Plan.{
  Plan, PlanStep, draft, approved, step_pending, new_plan, transition_plan, clashes, add_step,
}
use auto_ze_agent.Kernel.Run
use auto_ze_agent.Kernel.Run.{Run, RunState, new_run}
use auto_ze_agent.Kernel.Lifecycle.{TaskRequest, run_task, cancel_wins}
use auto_ze_agent.Kernel.Finish.{RunRequest, run_run}
use auto_ze_agent.Kernel.Steps.{PlanCall, adds, moves, apply, apply_all, HasSteps, plan-HasSteps}
use auto_ze_agent.Kernel.Session.{SessionState}
use auto_ze_agent.Kernel.Base.{version_conflict}
use auto_ze_agent.Kernel.Store.{
  Db, kernel_error, committed, rolled_back, aggregate_event, transition_task, change_task,
  change_found, get_task, scan_task, write_change, commit_reply, state_changed,
}
use auto_ze_agent.Kernel.Histories.{Change, run_change, run_changes, committed_requests}
use auto_ze_agent.Kernel.Follows.{run_changes-run_task}
use auto_ze_agent.Kernel.Versions.{run_change-no_lost_update}
use auto_ze_agent.Events.Store.{
  append, append_normal, normalize, has_required, insert_event, clashes_event, last_sequence,
  appended,
}

abbrev fresh : Task
fresh = record {
  id = codes "t1";
  session_id = codes "s1";
  title = codes "fix";
  objective = codes "fix it";
  state = TaskState.created;
  execution_mode = ExecutionMode.agent;
  version = 1;
  created_at = 7;
  updated_at = 7;
}

abbrev ask : TaskState → TaskRequest
ask to = record { to = to; now = 0; clock = 9 }

abbrev worked : List TaskRequest
worked =
    ask TaskState.running
    ∷ ask TaskState.paused
    ∷ ask TaskState.running
    ∷ ask TaskState.completed
    ∷ []

new_task_trims :
    new_task_with_mode 7
      (codes "t1")
      (codes "s1")
      (codes " fix\n")
      (codes "fix it")
      (ExecutionMode.other_mode [])
      0
    ≡ ok fresh
unfolding new_task_with_mode trim_space
new_task_trims = refl

worked_completes : (run_task fresh worked).0.state ≡ TaskState.completed
unfolding run_task Task.transition Task.normalize_execution_mode
worked_completes = refl

worked_counts : (run_task fresh (ask TaskState.completed ∷ worked)).1 ≡ 4
unfolding run_task Task.transition Task.normalize_execution_mode
worked_counts = refl

cancel_wins_example :
    ((cancel 9 0 fresh).1 ≡ none)
    × ((run_task (cancel 9 0 fresh).0 worked).0.state ≡ TaskState.cancelled)
cancel_wins_example = cancel_wins 9 0 fresh worked refl

abbrev started : Run
started = record {
  id = codes "r1";
  task_id = codes "t1";
  plan_id = codes "p1";
  state = RunState.created;
  version = 1;
  started_at = 3;
  updated_at = 3;
  finished_at = none;
  error = [];
}

abbrev want : RunState → RunRequest
want to = record { to = to; failure = codes " boom "; now = 5; clock = 9 }

started_new : new_run 9 (codes "r1") (codes "t1") (codes "p1") 3 ≡ ok started
unfolding new_run trim_space
started_new = refl

fails_with_error :
    let r = run_run started (want RunState.running ∷ want RunState.failed ∷ []) in
    (r.error ≡ codes "boom") × (r.finished_at ≡ some 5)
unfolding run_run Run.transition trim_space
fails_with_error = (refl, refl)

abbrev empty_plan : Plan
empty_plan = record {
  id = codes "p1";
  task_id = codes "t1";
  revision = 1;
  state = draft;
  scope_hash = codes "h";
  steps = [];
  version = 1;
  created_at = 3;
  updated_at = 3;
}

abbrev step_at : Text → ℕ → PlanStep
step_at id n = record {
  id = id;
  plan_id = codes "p1";
  position = pos n;
  title = codes "do";
  state = step_pending;
  effect_level = codes "R1";
  version = 1;
  created_at = 3;
  updated_at = 3;
}

abbrev calls : List PlanCall
calls =
    adds (step_at (codes "a") 0) 4 9
    ∷ adds (step_at (codes "b") 0) 4 9
    ∷ adds (step_at (codes "b") 1) 4 9
    ∷ moves approved 5 9
    ∷ adds (step_at (codes "c") 2) 6 9
    ∷ []

two_steps : map PlanStep.id (apply_all empty_plan calls).steps ≡ codes "a" ∷ codes "b" ∷ []
unfolding apply_all add_step transition_plan clashes apply text_eq eq_ℤ
two_steps = refl

empty_plan_new : new_plan 9 (codes "p1") (codes "t1") 1 (codes "h") 3 ≡ ok empty_plan
unfolding new_plan trim_space
empty_plan_new = refl

plan-HasSteps_example : HasSteps (apply_all empty_plan calls)
plan-HasSteps_example =
    plan-HasSteps 9 (codes "p1") (codes "t1") 1 (codes "h") 3 calls {p = empty_plan} empty_plan_new

abbrev store : Db
store = record {
  sessions = record { session_id = codes "s1"; session_state = SessionState.active } ∷ [];
  tasks = fresh ∷ [];
  snapshots = [];
  log = [];
}

abbrev encoded : TaskState → TaskState → Text → Text
encoded from to reason = codes "{}"

abbrev change : TaskState → ℕ → Change
change to expected = record {
  id = codes "t1";
  expected = expected;
  reason = codes " go ";
  request = ask to;
}

abbrev running_task : Task
running_task = record fresh { state = TaskState.running; version = 2; updated_at = 9 }

abbrev after_first : Db
after_first = record store {
  tasks = running_task ∷ [];
  log =
      record (aggregate_event (codes "task") (codes "t1") 2 (codes "task.state_changed") 9
        (codes "{}")) { sequence = 1 }
      ∷ [];
}

first_change :
    run_change some encoded (change TaskState.running 1) store ≡ committed after_first running_task
unfolding run_change transition_task change_task change_found get_task find_row scan_task
    write_change update_rows commit_reply append append_normal normalize has_required insert_event
    clashes_event last_sequence appended state_changed aggregate_event decimal trim_space text_eq
    Task.transition Task.normalize_execution_mode
first_change = refl

get_task-store : get_task (codes "t1") store ≡ some fresh
unfolding get_task find_row text_eq
get_task-store = refl

run_changes-run_task_example :
    (row' : Task) × (get_task (codes "t1") (
        run_changes some encoded
          (change TaskState.running 1 ∷ change TaskState.paused 1 ∷ [])
          store)
      ≡ some row')
    × (run_task (scan_task fresh) (
          committed_requests some encoded
            (codes "t1")
            (change TaskState.running 1 ∷ change TaskState.paused 1 ∷ [])
            store)
        ≡ (
          scan_task row',
          length (
              committed_requests some encoded
                (codes "t1")
                (change TaskState.running 1 ∷ change TaskState.paused 1 ∷ [])
                store),
        ))
run_changes-run_task_example =
    run_changes-run_task some encoded (codes "t1")
      (change TaskState.running 1 ∷ change TaskState.paused 1 ∷ []) store fresh get_task-store

run_change-no_lost_update_example :
    run_change some encoded
      (change TaskState.paused 1)
      (run_changes some encoded (change TaskState.paused 2 ∷ []) after_first)
    ≡ rolled_back (kernel_error version_conflict)
run_change-no_lost_update_example =
    run_change-no_lost_update some encoded (change TaskState.running 1) (change TaskState.paused 1)
      (change TaskState.paused 2 ∷ []) store after_first running_task (omega arith) refl refl
      first_change
