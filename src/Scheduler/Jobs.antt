-- ===== src/Scheduler/Jobs.antt =====
-- internal/scheduler/store.go and pkg/schedulerapi: the jobs. A table is the list of its rows in the
-- order of insertion; the texts of times and of lists of IDs in the columns are the times and the
-- lists. Failures of the database and of the random source are left out.
use auto_ze_agent.Common.{
  Bool, List, Option, Text, [], codes, eq_ℤ, find_row, if◌then◌else◌, is_blank, is_nil, is_some,
  leb_ℤ, ltb_ℤ, member, none, not, pos, pos_part, some, text_eq, to_lower, trim_space, update_rows,
  ℕ, ℤ, ◌&&◌, ◌++◌, ◌==◌, ◌||◌, ◌∷◌,
}
use auto_ze_agent.Kernel.Base.{Time}

pub record Job : Type 0 where
  pub id : Text
  pub name : Text
  pub session_id : Text
  pub task_title : Text
  pub task_objective : Text
  pub execution_mode : Text
  pub skill_ids : List Text
  pub model_ref : Text
  pub interval_seconds : ℕ
  pub next_run_at : Time
  pub timeout_seconds : ℕ
  pub max_retries : ℕ
  pub backoff_seconds : ℕ
  pub misfire_policy : Text
  pub idempotency_key : Text
  pub status : Text
  pub retry_attempt : ℕ
  pub retry_at : Option Time
  pub retry_origin_at : Option Time
  pub created_at : Time
  pub updated_at : Time

pub data RunStatus : Type 0 where
  claimed task_created completed failed timed_out cancelled : RunStatus

pub record JobRun : Type 0 where
  pub run_id : Text
  pub job_id : Text
  pub scheduled_at : Time
  pub attempt : ℕ
  pub run_status : RunStatus
  pub task_request_key : Text
  pub core_task_id : Text
  pub core_task_key : Text
  pub run_error : Text
  pub started_at : Time
  pub finished_at : Option Time

pub record Lease : Type 0 where
  pub job_id : Text
  pub run_id : Text
  pub lease_id : Text
  pub owner : Text
  pub acquired_at : Time
  pub expires_at : Time

pub record Tables : Type 0 where
  pub jobs : List Job
  pub runs : List JobRun
  pub leases : List Lease

pub data SchedulerError : Type 0 where
  missing_fields invalid_timing invalid_policy invalid_mode session_not_found invalid_time :
      SchedulerError
  no_rows missing_job_id job_not_found missing_review invalid_state state_not_changed :
      SchedulerError
  missing_owner lease_refused never_ends missing_ids invalid_status missing_core_task :
      SchedulerError

pub data Answer {ℓ} (A : Type ℓ) : Type ℓ where
  answer : A → Answer A
  refused : SchedulerError → Answer A

pub record CreateRequest : Type 0 where
  pub name : Text
  pub session_id : Text
  pub task_title : Text
  pub task_objective : Text
  pub execution_mode : Text
  pub skill_ids : List Text
  pub model_ref : Text
  pub interval_seconds : ℤ
  pub next_run_at : Text
  pub timeout_seconds : ℤ
  pub max_retries : ℤ
  pub backoff_seconds : ℤ
  pub misfire_policy : Text
  pub idempotency_key : Text

unfoldable pub normalize_execution_mode : Text → Text
normalize_execution_mode value =
    if text_eq (to_lower (trim_space value)) (codes "plan") then codes "plan" else codes "agent"

-- The loop of `normalizeSkillIDs`; `seen` are the IDs so far.
unfoldable pub unseen_ids : List Text → List Text → List Text
unseen_ids seen [] = []
unseen_ids seen (raw ∷ ids) =
    let id = trim_space raw in
    let added = unseen_ids (id ∷ seen) ids in
    let skipped = unseen_ids seen ids in
    if is_nil id then skipped else if member id seen then skipped else id ∷ added

unfoldable pub normalize_skill_ids : List Text → List Text
normalize_skill_ids ids = unseen_ids [] ids

-- The part of `Create` that trims the request and fills it in.
unfoldable pub normalize_request : Option Text → CreateRequest → CreateRequest
normalize_request main_model_ref r = record {
  name = trim_space r.name;
  session_id = trim_space r.session_id;
  task_title = trim_space r.task_title;
  task_objective = trim_space r.task_objective;
  execution_mode = normalize_execution_mode r.execution_mode;
  skill_ids = normalize_skill_ids r.skill_ids;
  model_ref = main_ref (trim_space r.model_ref) main_model_ref;
  interval_seconds = r.interval_seconds;
  next_run_at = r.next_run_at;
  timeout_seconds = if eq_ℤ r.timeout_seconds (pos 0) then pos 1800 else r.timeout_seconds;
  max_retries = r.max_retries;
  backoff_seconds = if eq_ℤ r.backoff_seconds (pos 0) then pos 30 else r.backoff_seconds;
  misfire_policy = default_policy (to_lower (trim_space r.misfire_policy));
  idempotency_key = trim_space r.idempotency_key;
}
  where
    main_ref : Text → Option Text → Text
    main_ref own none = own
    main_ref own (some ref) = if is_nil own then trim_space ref else own

    default_policy : Text → Text
    default_policy policy = if is_nil policy then codes "run_once" else policy

-- What `Create` refuses before it looks into the database.
unfoldable pub check_request : CreateRequest → Option SchedulerError
check_request r =
    if is_nil r.name
      || (is_nil r.session_id
          || (is_nil r.task_title || (is_nil r.task_objective || is_nil r.idempotency_key)))
    then some missing_fields
    else if leb_ℤ r.interval_seconds (pos 0)
        || (leb_ℤ r.timeout_seconds (pos 0)
            || (ltb_ℤ r.max_retries (pos 0) || ltb_ℤ r.backoff_seconds (pos 0)))
    then some invalid_timing
    else if not (
        text_eq r.misfire_policy (codes "skip")
        || (text_eq r.misfire_policy (codes "catch_up")
            || text_eq r.misfire_policy (codes "run_once")))
    then some invalid_policy
    else if not
        (text_eq r.execution_mode (codes "agent") || text_eq r.execution_mode (codes "plan"))
    then some invalid_mode
    else none

unfoldable pub new_job : CreateRequest → Text → Time → Time → Job
new_job r job_id next_run when = record {
  id = job_id;
  name = r.name;
  session_id = r.session_id;
  task_title = r.task_title;
  task_objective = r.task_objective;
  execution_mode = r.execution_mode;
  skill_ids = r.skill_ids;
  model_ref = r.model_ref;
  interval_seconds = pos_part r.interval_seconds;
  next_run_at = next_run;
  timeout_seconds = pos_part r.timeout_seconds;
  max_retries = pos_part r.max_retries;
  backoff_seconds = pos_part r.backoff_seconds;
  misfire_policy = r.misfire_policy;
  idempotency_key = r.idempotency_key;
  status = codes "active";
  retry_attempt = 0;
  retry_at = none;
  retry_origin_at = none;
  created_at = when;
  updated_at = when;
}

abbrev pub or_error {ℓ} : {A : Type ℓ} → SchedulerError → Option A → Answer A
or_error e none = refused e
or_error e (some a) = answer a

-- The PRIMARY KEY and the UNIQUE constraint of the table.
unfoldable pub insert_job : Job → Tables → Tables × Answer Job
insert_job j db =
    if is_some (find_row Job.id j.id db.jobs)
      || is_some (find_row Job.idempotency_key j.idempotency_key db.jobs)
    then (db, or_error no_rows (find_row Job.idempotency_key j.idempotency_key db.jobs))
    else (record db { jobs = db.jobs ++ j ∷ [] }, answer j)

-- `parse` stands for `time.Parse`.
unfoldable pub parse_optional_time : (Text → Option Time) → Time → Text → Option Time
parse_optional_time parse fallback raw =
    if is_blank raw then some fallback else parse (trim_space raw)

unfoldable pub create_at : CreateRequest → Text → Time → Option Time → Tables → Tables × Answer Job
create_at r job_id when none db = (db, refused invalid_time)
create_at r job_id when (some next_run) db = insert_job (new_job r job_id next_run when) db

unfoldable pub create_checked :
    (Text → Option Time)
    → List Text
    → CreateRequest
    → Option SchedulerError
    → Text
    → Time
    → Tables
    → Tables × Answer Job
create_checked parse sessions r (some e) job_id clock db = (db, refused e)
create_checked parse sessions r none job_id clock db =
    if not (member r.session_id sessions)
    then (db, refused session_not_found)
    else create_at r job_id clock (parse_optional_time parse clock r.next_run_at) db

-- `Create`. `sessions` are the IDs in the table of sessions, `job_id` is the random ID.
unfoldable pub create :
    (Text → Option Time)
    → Option Text
    → List Text
    → CreateRequest
    → Text
    → Time
    → Tables
    → Tables × Answer Job
create parse main_model_ref sessions request job_id clock db =
    let r = normalize_request main_model_ref request in
    create_checked parse sessions r (check_request r) job_id clock db

unfoldable pub get : Text → Tables → Answer Job
get job_id db =
    if is_blank job_id
    then refused missing_job_id
    else or_error job_not_found (find_row Job.id (trim_space job_id) db.jobs)

-- The WHERE of `ChangeState`.
unfoldable pub can_change : Text → Job → Bool
can_change job_id j = text_eq j.id job_id && not (text_eq j.status (codes "archived"))

abbrev pub with_status : Text → Time → Job → Job
with_status status when j = record j { status = status; updated_at = when }

unfoldable pub change_state : Text → Text → Text → Text → Time → Tables → Tables × Answer Job
change_state job_id reviewer reason status clock db =
    let u = update_rows (can_change (trim_space job_id)) (with_status status clock) db.jobs in
    if is_blank job_id || (is_blank reviewer || is_blank reason)
    then (db, refused missing_review)
    else if not (
        text_eq status (codes "paused")
        || (text_eq status (codes "active") || text_eq status (codes "archived")))
    then (db, refused invalid_state)
    else if u.1 == 0
    then (db, refused state_not_changed)
    else (record db { jobs = u.0 }, get (trim_space job_id) (record db { jobs = u.0 }))
