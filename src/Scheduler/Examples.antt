-- ===== src/Scheduler/Examples.antt =====
-- The theorems on internal/scheduler at concrete jobs, and tests of the definitions.
use auto_ze_agent.Common.{
  [], arith, codes, decimal, find_row, none, pos, refl, some, text_eq, to_lower, trim_space, true,
  update_rows, ◌<◌, ◌∷◌, ◌≡◌,
}
use auto_ze_agent.Kernel.Base.{Time}
use auto_ze_agent.Scheduler.Advance.{
  seconds, add_time, skip_missed, advance_next_run, Skipped, advance_next_run_lem,
}
use auto_ze_agent.Scheduler.Jobs.{
  RunStatus, Job, JobRun, Lease, claimed, Tables, SchedulerError, refused, answer,
}
use auto_ze_agent.Scheduler.Expiry.{schedule_retry}
use auto_ze_agent.Scheduler.Settle.{
  acknowledge, acknowledge_as, settle, settle_job, leased_run, run_status_of,
}
use auto_ze_agent.Scheduler.Bounded.{IsBounded}
use auto_ze_agent.Scheduler.History.{
  Call, claim_call, acknowledge_call, run_calls, run_calls-IsBounded,
}
use auto_ze_agent.Scheduler.Once.{acknowledge-once}

abbrev job : Job
job = record {
  id = codes "j";
  name = codes "nightly";
  session_id = codes "s";
  task_title = codes "t";
  task_objective = codes "o";
  execution_mode = codes "agent";
  skill_ids = [];
  model_ref = [];
  interval_seconds = 60;
  next_run_at = 5;
  timeout_seconds = 1800;
  max_retries = 1;
  backoff_seconds = 30;
  misfire_policy = codes "skip";
  idempotency_key = codes "k";
  status = codes "active";
  retry_attempt = 0;
  retry_at = none;
  retry_origin_at = none;
  created_at = 1;
  updated_at = 1;
}

abbrev run : JobRun
run = record {
  run_id = codes "r";
  job_id = codes "j";
  scheduled_at = 5;
  attempt = 1;
  run_status = claimed;
  task_request_key = codes "k/5/1";
  core_task_id = [];
  core_task_key = codes "k/5";
  run_error = [];
  started_at = 6;
  finished_at = none;
}

abbrev lease : Lease
lease = record {
  job_id = codes "j";
  run_id = codes "r";
  lease_id = codes "l";
  owner = codes "core";
  acquired_at = 6;
  expires_at = 60000000006;
}

abbrev tables : Tables
tables = record { jobs = job ∷ []; runs = run ∷ []; leases = lease ∷ [] }

-- The second slot after now.
skips : advance_next_run 9 5 32 (pos 10) (codes "skip") ≡ some 35
unfolding advance_next_run skip_missed add_time text_eq
skips = refl

runs_once : advance_next_run 9 5 32 (pos 10) (codes "run_once") ≡ some 42
unfolding advance_next_run add_time text_eq
runs_once = refl

advance_next_run_lem_example :
    (r : Time) × (advance_next_run 41 5 32 (pos 10) (codes "skip") ≡ some r)
    × (5 < r)
    × (codes "skip" ≡ codes "skip" → Skipped 10 32 15 r)
    × (codes "skip" ≡ codes "catch_up" → r ≡ 15)
advance_next_run_lem_example =
    advance_next_run_lem 40 5 32 10 (codes "skip") (omega arith) (omega arith)

tables-IsBounded : IsBounded tables
unfolding find_row text_eq
tables-IsBounded = record {
  keyed = (refl, tt);
  low = (omega arith, tt);
  runs_within = (omega arith, tt);
}

abbrev failed_call : Call
failed_call = acknowledge_call 9 (codes "r") (codes "l") [] (codes "failed") (codes "no model")

abbrev claim_again : Call
claim_again = claim_call (codes "core") (pos 0) (pos 0) 90000000000 (λ n. (codes "r2", codes "l2"))

run_calls-IsBounded_example :
    IsBounded (run_calls (λ t. some 7) decimal none [] tables (failed_call ∷ claim_again ∷ []))
run_calls-IsBounded_example =
    run_calls-IsBounded (λ t. some 7) decimal none [] tables (failed_call ∷ claim_again ∷ [])
      tables-IsBounded

abbrev settled : Tables
settled = record {
  jobs =
      record job {
        retry_attempt = 1;
        retry_at = some 30000000009;
        retry_origin_at = some 5;
        updated_at = 9;
      }
      ∷ [];
  runs =
      record run {
        run_status = RunStatus.failed;
        run_error = codes "no model";
        finished_at = some 9;
      }
      ∷ [];
  leases = [];
}

acknowledged :
    acknowledge 9 (codes "r") (codes "l") [] (codes "Failed") (codes "no model") tables
    ≡ (settled, answer true)
unfolding acknowledge acknowledge_as settle settle_job schedule_retry leased_run run_status_of
    find_row update_rows text_eq trim_space to_lower add_time seconds
acknowledged = refl

acknowledge-once_example :
    (e : SchedulerError) × (acknowledge 10
        (codes "r")
        (codes "l")
        (codes "t1")
        (codes "task_created")
        []
        settled
      ≡ (settled, refused e))
acknowledge-once_example =
    acknowledge-once 9 10 (codes "r") (codes "r") (codes "l") [] (codes "t1") (codes "Failed")
      (codes "task_created") (codes "no model") [] tables settled acknowledged
