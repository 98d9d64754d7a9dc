-- ===== src/Control.antt =====
-- internal/taskcontrol/service.go: pause, resume and cancel. The change of the task and the
-- revocation of its grants are two transactions. `now` and `later` are what the clock of the service
-- reads at the two; `has_chat` says whether there is an interrupter, whose calls are recorded. The
-- log lines are left out.
mod Cancel
mod Examples
use auto_ze_agent.Common.{
  Bool, List, Option, Text, [], if◌then◌else◌, is_blank, none, some, trim_space, ℕ, ◌++◌, ◌==◌,
  ◌||◌, ◌∷◌,
}
use auto_ze_agent.Kernel.Base.{
  Time, invalid_aggregate, invalid_transition, not_found, version_conflict,
}
use auto_ze_agent.Kernel.Task.{Task, TaskState, paused, running}
use auto_ze_agent.Kernel.Store.{
  Db, Done, StoreError, cancel_task, committed, kernel_error, rolled_back, transition_task,
}
use auto_ze_agent.Approval.Match.{Grant}
use auto_ze_agent.Approval.Grant.{GrantError, Outcome, revoke_task_grants}
use auto_ze_agent.Approval.Grant as Grants

pub data TaskAction : Type 0 where
  pause resume cancel : TaskAction
  other_action : Text → TaskAction

pub record TaskActionRequest : Type 0 where
  pub task_id : Text
  pub expected_version : ℕ  -- uint64
  pub action : TaskAction
  pub reason : Text

pub data Code : Type 0 where
  code_invalid_request code_not_found code_conflict : Code

pub data Answer : Type 0 where
  applied : Task → Answer
  refused : Code → Answer
  failed : StoreError → Answer
  -- The task is changed, and its grants are not revoked.
  not_revoked : Task → GrantError → Answer

pub record World : Type 0 where
  pub db : Db
  pub grants : List Grant
  pub interrupted : List Text

-- `classifyTaskActionError`.
unfoldable pub classify_task_action_error : StoreError → Answer
classify_task_action_error (kernel_error not_found) = refused code_not_found
classify_task_action_error (kernel_error version_conflict) = refused code_conflict
classify_task_action_error (kernel_error (invalid_transition _)) = refused code_conflict
classify_task_action_error (kernel_error invalid_aggregate) = refused code_invalid_request
classify_task_action_error e = failed e

unfoldable pub interrupt : Bool → Text → World → World
interrupt has_chat id w =
    if has_chat then record w { interrupted = w.interrupted ++ id ∷ [] } else w

unfoldable pub revoked : Task → World → Outcome → World × Answer
revoked t w (Grants.committed grants) = (record w { grants = grants }, applied t)
revoked t w (Grants.rolled_back e) = (w, not_revoked t e)

module _ (compact : Text → Option Text) (encode : TaskState → TaskState → Text → Text)
    (appends : Grant → Bool) (has_chat : Bool) where
  -- What follows the change of the task.
  unfoldable pub after_change : TaskAction → Text → Time → World → Done Task → World × Answer
  after_change action id later w (rolled_back e) = (w, classify_task_action_error e)
  after_change pause id later w (committed db t) =
      (interrupt has_chat id (record w { db = db }), applied t)
  after_change cancel id later w (committed db t) =
      revoked t (interrupt has_chat id (record w { db = db }))
        (revoke_task_grants appends later id later w.grants)
  after_change _ id later w (committed db t) = (record w { db = db }, applied t)

  unfoldable pub control_trimmed :
      TaskAction → Text → ℕ → Text → Time → Time → World → World × Answer
  control_trimmed pause id expected reason now later w =
      after_change pause id later w
        (transition_task compact encode now id expected paused reason now w.db)
  control_trimmed resume id expected reason now later w =
      after_change resume id later w
        (transition_task compact encode now id expected running reason now w.db)
  control_trimmed cancel id expected reason now later w =
      after_change cancel id later w (cancel_task compact encode now id expected reason now w.db)
  control_trimmed (other_action _) id expected reason now later w =
      (w, refused code_invalid_request)

  -- `ControlTask`.
  unfoldable pub control_task : TaskActionRequest → Time → Time → World → World × Answer
  control_task r now later w =
      if is_blank r.task_id || (r.expected_version == 0)
      then (w, refused code_invalid_request)
      else control_trimmed r.action (trim_space r.task_id) r.expected_version (trim_space r.reason)
          now later w
