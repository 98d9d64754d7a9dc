-- ===== src/Control/Examples.antt =====
-- A cancel of a concrete task with a grant.
use auto_ze_agent.Common.{
  ◌⊎◌, false, [], codes, decimal, find_row, none, refl, some, text_eq, trim_space, true,
  update_rows, ◌∷◌, ◌≡◌,
}
use auto_ze_agent.Kernel.Base.{normalized_time}
use auto_ze_agent.Kernel.Task.{Task, TaskState, agent}
use auto_ze_agent.Kernel.Task as Task
use auto_ze_agent.Kernel.Store.{
  aggregate_event, cancel_task, change_found, change_task, commit_reply, get_task, scan_task,
  state_changed, write_change,
}
use auto_ze_agent.Kernel.Session.{SessionState}
use auto_ze_agent.Events.Store.{
  append, append_normal, normalize, has_required, insert_event, clashes_event, last_sequence,
  appended,
}
use auto_ze_agent.Approval.Match.{Grant}
use auto_ze_agent.Approval.Grant as Grants
use auto_ze_agent.Approval.Ops.{count_granted, revokes}
use auto_ze_agent.Approval.IssueExamples.{scope}
use auto_ze_agent.Control.{
  TaskActionRequest, World, after_change, applied, cancel, control_task, control_trimmed, interrupt,
  revoked,
}
use auto_ze_agent.Control.Cancel.{IsCancelled, is_granted_to, control_task-IsCancelled}

abbrev task : Task
task = record {
  id = codes "t";
  session_id = codes "s";
  title = codes "x";
  objective = codes "o";
  state = TaskState.running;
  execution_mode = agent;
  version = 2;
  created_at = 5;
  updated_at = 6;
}

abbrev grant : Grant
grant = record {
  id = codes "g";
  approval_id = codes "a";
  task_id = codes "t";
  plan_id = codes "p";
  step_id = codes "s";
  plan_hash = codes "h";
  scope = scope;
  issued_at = 6;
  expires_at = 20;
  used_calls = 0;
  revoked_at = none;
}

abbrev world : World
world = record {
  db = record {
    sessions = record { session_id = codes "s"; session_state = SessionState.active } ∷ [];
    tasks = task ∷ [];
    snapshots = [];
    log = [];
  };
  grants = grant ∷ [];
  interrupted = [];
}

abbrev cancelled : Task
cancelled = record task { state = TaskState.cancelled; version = 3; updated_at = 9 }

abbrev after : World
after = record {
  db = record world.db {
    tasks = cancelled ∷ [];
    log =
        record (aggregate_event (codes "task") (codes "t") 3 (codes "task.state_changed") 9
          (codes "{}")) { sequence = 1 }
        ∷ [];
  };
  grants = record grant { revoked_at = some 10 } ∷ [];
  interrupted = codes "t" ∷ [];
}

abbrev request : TaskActionRequest
request = record {
  task_id = codes " t";
  expected_version = 2;
  action = cancel;
  reason = codes "stop";
}

control_run :
    control_task some (λ from to reason. codes "{}") (λ _. true) true request 9 10 world
    ≡ (after, applied cancelled)
unfolding control_task control_trimmed after_change interrupt revoked cancel_task change_task
    change_found get_task find_row scan_task write_change update_rows commit_reply append
    append_normal normalize has_required insert_event clashes_event last_sequence appended
    state_changed aggregate_event decimal trim_space text_eq Task.transition Task.cancel
    Task.normalize_execution_mode Grants.revoke_task_grants Grants.revoke_all Grants.revoke_one
    Grants.load_grant Grants.find_grant Grants.update_where Grants.after_event Grants.revocable
    normalized_time
control_run = refl

control_task-IsCancelled_example :
    IsCancelled some (λ from to reason. codes "{}") (λ _. true) true (trim_space (codes " t")) after
    × ((is_granted_to some
            (λ from to reason. codes "{}")
            (λ _. true)
            true
            (trim_space (codes " t"))
            (Grants.find_grant (codes "g") world.grants)
          ≡ false)
        ⊎ (count_granted (codes "g") (revokes (λ _. true) 11 (codes "g") 11 ∷ []) after.grants ≡ 0))
control_task-IsCancelled_example =
    control_task-IsCancelled some (λ from to reason. codes "{}") (λ _. true) true request 9 10 world
      after cancelled (codes "g") (revokes (λ _. true) 11 (codes "g") 11 ∷ []) refl control_run
