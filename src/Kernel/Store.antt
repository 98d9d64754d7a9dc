-- ===== src/Kernel/Store.antt =====
-- internal/kernel/repository.go, repository_task.go: the tasks in the database, changed under their
-- expected version together with an event in the log. An operation is one transaction; where it
-- fails it rolls back. Failures of the database and nil contexts are left out. `encode` stands for
-- `json.Marshal` of an event's payload, `compact` for what the event store makes of it.
use auto_ze_agent.Common.{
  Bool, List, Option, Text, [], codes, decimal, false, find_row, if◌then◌else◌, is_some, leb, none,
  not, pos, some, text_eq, trim_space, true, update_rows, ℕ, ◌&&◌, ◌++◌, ◌==◌, ◌∷◌,
}
use auto_ze_agent.Kernel.Base.{Time, Error, version_conflict, not_found, Result, ok, err}
use auto_ze_agent.Kernel.Session.{SessionState, active}
use auto_ze_agent.Kernel.Task
use auto_ze_agent.Kernel.Task.{
  Task, TaskState, ExecutionMode, agent, plan, other_mode, new_task_with_mode, cancel,
  normalize_execution_mode,
}
use auto_ze_agent.Kernel.Snapshot.{TaskSkillSnapshot, new_task_skill_snapshot}
use auto_ze_agent.Events.Store.{Event, Log, Reply, stored, append}

-- The columns of a session that the operations on tasks read.
pub record SessionRow : Type 0 where
  pub session_id : Text
  pub session_state : SessionState

pub record Db : Type 0 where
  pub sessions : List SessionRow
  pub tasks : List Task
  pub snapshots : List TaskSkillSnapshot
  pub log : Log

pub data StoreError : Type 0 where
  kernel_error : Error → StoreError
  already_exists session_closed event_refused out_of_range : StoreError

pub data Done {ℓ} (A : Type ℓ) : Type ℓ where
  committed : Db → A → Done A
  rolled_back : StoreError → Done A

-- `aggregateEvent`.
unfoldable pub aggregate_event : Text → Text → ℕ → Text → Time → Text → Event
aggregate_event aggregate_type aggregate_id version event_type occurred_at payload = record {
  sequence = 0;
  id =
      codes "kernel/"
      ++ (aggregate_type ++ (codes "/" ++ (aggregate_id ++ (codes "/v/" ++ decimal version))));
  kind = event_type;
  aggregate_type = aggregate_type;
  aggregate_id = aggregate_id;
  aggregate_version = version;
  occurred_at = occurred_at;
  producer = codes "kernel";
  schema_version = pos 1;
  trace_id = [];
  causation_id = [];
  correlation_id = [];
  payload = payload;
}

unfoldable pub commit_reply {ℓ} : {A : Type ℓ} → Db → A → Log × Reply → Done A
commit_reply db a (log, stored e) = committed (record db { log = log }) a
commit_reply db a (log, _) = rolled_back event_refused

abbrev is_active : SessionState → Bool
is_active active = true
is_active _ = false

abbrev mode_text : ExecutionMode → Text
mode_text agent = codes "agent"
mode_text plan = codes "plan"
mode_text (other_mode s) = s

-- `scanTask` normalises the mode that is stored.
unfoldable pub scan_task : Task → Task
scan_task t = record t { execution_mode = normalize_execution_mode (mode_text t.execution_mode) }

unfoldable pub get_task : Text → Db → Option Task
get_task id db = find_row Task.id id db.tasks

abbrev pub written : Task → Task → Task
written t row = record row { state = t.state; version = t.version; updated_at = t.updated_at }

abbrev pub at_version : Text → ℕ → Task → Bool
at_version id expected row = text_eq row.id id && (row.version == expected)

module _ (compact : Text → Option Text) (encode : TaskState → TaskState → Text → Text) where
  -- The event of a change from one state to another.
  unfoldable pub state_changed : TaskState → Text → Task → Event
  state_changed previous reason t =
      aggregate_event (codes "task") t.id t.version (codes "task.state_changed") t.updated_at
        (encode previous t.state (trim_space reason))

  -- The UPDATE and the event. The driver refuses a version that is no `int64`.
  unfoldable pub write_change : Time → TaskState → Text → ℕ → Db → Task × Option Error → Done Task
  write_change clock previous reason expected db (t, some e) = rolled_back (kernel_error e)
  write_change clock previous reason expected db (t, none) =
      let u = update_rows (at_version t.id expected) (written t) db.tasks in
      if leb 9223372036854775808 t.version
      then rolled_back out_of_range
      else if not (u.1 == 1)
      then rolled_back (kernel_error version_conflict)
      else commit_reply (record db { tasks = u.0 }) t
          (append compact clock (state_changed previous reason t) db.log)

  unfoldable pub change_found :
      Time → ℕ → Text → (Task → Task × Option Error) → Db → Option Task → Done Task
  change_found clock expected reason change db none = rolled_back (kernel_error not_found)
  change_found clock expected reason change db (some row) =
      if not (row.version == expected)
      then rolled_back (kernel_error version_conflict)
      else write_change clock row.state reason expected db (change (scan_task row))

  unfoldable pub change_task :
      Time → Text → ℕ → Text → (Task → Task × Option Error) → Db → Done Task
  change_task clock id expected reason change db =
      change_found clock expected reason change db (get_task id db)

  unfoldable pub transition_task : Time → Text → ℕ → TaskState → Text → Time → Db → Done Task
  transition_task clock id expected to reason now db =
      change_task clock id expected reason (Task.transition clock to now) db

  unfoldable pub cancel_task : Time → Text → ℕ → Text → Time → Db → Done Task
  cancel_task clock id expected reason now db =
      change_task clock id expected reason (cancel clock now) db

-- The database part of `CreateTaskWithSkillSnapshot`.
module _ (compact : Text → Option Text) (encode : Task → TaskSkillSnapshot → Text) where
  unfoldable pub insert_task : Time → Task → TaskSkillSnapshot → Db → Option SessionRow → Done Task
  insert_task clock t snapshot db none = rolled_back (kernel_error not_found)
  insert_task clock t snapshot db (some s) =
      if not (is_active s.session_state)
      then rolled_back session_closed
      else if is_some (get_task t.id db)
      then rolled_back already_exists
      else commit_reply
          (record db { tasks = db.tasks ++ t ∷ []; snapshots = db.snapshots ++ snapshot ∷ [] }) t
          (append compact clock
            (aggregate_event (codes "task") t.id t.version (codes "task.created") t.created_at
              (encode t snapshot))
            db.log)

  unfoldable pub create_checked :
      Time → Result Task → (Task → Result TaskSkillSnapshot) → Db → Done Task
  create_checked clock (err e) snapshot db = rolled_back (kernel_error e)
  create_checked clock (ok t) snapshot db = elim (snapshot t) [
    | err e ↦ rolled_back (kernel_error e)
    | ok s ↦ insert_task clock t s db (find_row SessionRow.session_id t.session_id db.sessions)
  ]

  unfoldable pub create_task_with_skill_snapshot :
      (Text → Text)
      → Time
      → Text
      → Text
      → Text
      → Text
      → List Text
      → Text
      → ExecutionMode
      → Time
      → Db
      → Done Task
  create_task_with_skill_snapshot hash clock id session_id title objective skill_ids instructions
        mode now db =
      create_checked clock (new_task_with_mode clock id session_id title objective mode now)
        (λ t. new_task_skill_snapshot hash clock t.id skill_ids instructions t.created_at) db
