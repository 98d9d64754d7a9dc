-- ===== src/Scheduler/Settle.antt =====
-- internal/scheduler/store.go: `Acknowledge`. It is one transaction; where it fails it rolls back.
use auto_ze_agent.Common.{
  Bool, Option, Text, any, codes, false, find_row, if◌then◌else◌, is_blank, is_nil, keep_if, none,
  not, some, text_eq, to_lower, trim_space, true, update_rows, ◌&&◌, ◌||◌,
}
use auto_ze_agent.Kernel.Base.{Time}
use auto_ze_agent.Scheduler.Jobs.{
  Job, RunStatus, claimed, task_created, completed, failed, timed_out, cancelled, JobRun, Lease,
  Tables, no_rows, missing_ids, invalid_status, missing_core_task, Answer, answer, refused,
}
use auto_ze_agent.Scheduler.Expiry.{with_retry, schedule_retry, of_run, change_job}

unfoldable pub run_status_of : Text → Option RunStatus
run_status_of s =
    if text_eq s (codes "task_created")
    then some task_created
    else if text_eq s (codes "completed")
    then some completed
    else if text_eq s (codes "failed")
    then some failed
    else if text_eq s (codes "timed_out")
    then some timed_out
    else if text_eq s (codes "cancelled")
    then some cancelled
    else none

-- The SELECT of `Acknowledge`: the run, if the lease is the run's.
unfoldable pub leased_run : Text → Text → Tables → Option JobRun
leased_run run_id lease_id db =
    if any (λ (l : Lease). text_eq l.run_id run_id && text_eq l.lease_id lease_id) db.leases
    then find_row JobRun.run_id run_id db.runs
    else none

-- What the acknowledgement makes of the job.
unfoldable pub settle_job : Time → RunStatus → JobRun → Job → Job
settle_job now task_created r j = with_retry 0 none none now j
settle_job now failed r j = schedule_retry now now r j
settle_job now timed_out r j = schedule_retry now now r j
settle_job now claimed r j = j
settle_job now _ r j = record j { retry_attempt = 0; updated_at = now }

abbrev finished_time : Time → RunStatus → Option Time
finished_time now task_created = none
finished_time now _ = some now

abbrev pub settled_run : Time → RunStatus → Text → Text → JobRun → JobRun
settled_run now status core_task_id error r = record r {
  run_status = status;
  core_task_id = core_task_id;
  run_error = error;
  finished_at = finished_time now status;
}

unfoldable pub settle :
    Time → RunStatus → Text → Text → Text → Tables → Option JobRun → Tables × Answer Bool
settle now status lease_id core_task_id error db none = (db, refused no_rows)
settle now status lease_id core_task_id error db (some r) =
    if is_created status && is_nil core_task_id then (db, refused missing_core_task) else (
      change_job r.job_id (settle_job now status r) (record db {
        runs =
            (update_rows (of_run r.run_id) (settled_run now status core_task_id error) db.runs).0;
        leases = keep_if (λ l. not (text_eq l.lease_id lease_id)) db.leases;
      }),
      answer true,
    )
  where
    is_created : RunStatus → Bool
    is_created task_created = true
    is_created _ = false

unfoldable pub acknowledge_as :
    Time → Text → Text → Text → Text → Tables → Option RunStatus → Tables × Answer Bool
acknowledge_as now run_id lease_id core_task_id error db none = (db, refused invalid_status)
acknowledge_as now run_id lease_id core_task_id error db (some status) =
    settle now status lease_id core_task_id error db (leased_run run_id lease_id db)

-- `Acknowledge`.
unfoldable pub acknowledge : Time → Text → Text → Text → Text → Text → Tables → Tables × Answer Bool
acknowledge now run_id lease_id core_task_id status error db =
    if is_blank run_id || is_blank lease_id
    then (db, refused missing_ids)
    else acknowledge_as now (trim_space run_id) (trim_space lease_id) (trim_space core_task_id)
        (trim_space error) db (run_status_of (to_lower (trim_space status)))
