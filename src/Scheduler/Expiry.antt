-- ===== src/Scheduler/Expiry.antt =====
-- internal/scheduler/store.go: retries, and the part of `ClaimDue` that ends the expired leases.
-- `format` stands for `formatTime`, whose texts SQLite compares.
use auto_ze_agent.Common.{
  Bool, List, Option, Text, [], any, codes, false, if◌then◌else◌, keep_if, leb, ltb, none, not,
  some, text_eq, true, update_rows, ℕ, ◌&&◌, ◌*◌, ◌==◌, ◌∷◌,
}
use auto_ze_agent.Kernel.Base.{Time}
use auto_ze_agent.Scheduler.Advance.{seconds, add_time}
use auto_ze_agent.Scheduler.Jobs.{Job, RunStatus, claimed, timed_out, JobRun, Lease, Tables}

abbrev pub is_claimed : RunStatus → Bool
is_claimed claimed = true
is_claimed _ = false

-- The order of texts under SQLite's collation BINARY.
unfoldable pub text_leb : Text → Text → Bool
text_leb [] t = true
text_leb (a ∷ s) [] = false
text_leb (a ∷ s) (b ∷ t) = let rest = text_leb s t in if a == b then rest else ltb a b

-- The columns of a retry, which the jobs and the two operations set together.
abbrev pub with_retry : ℕ → Option Time → Option Time → Time → Job → Job
with_retry attempt at origin when j = record j {
  retry_attempt = attempt;
  retry_at = at;
  retry_origin_at = origin;
  updated_at = when;
}

-- A run that failed or ran out of time is tried again while it has retries left.
unfoldable pub schedule_retry : Time → Time → JobRun → Job → Job
schedule_retry now when r j =
    if leb r.attempt j.max_retries
    then with_retry r.attempt (some (add_time now (seconds (j.backoff_seconds * r.attempt))))
        (some r.scheduled_at) when j
    else with_retry 0 none none when j

abbrev pub of_job : Text → Job → Bool
of_job id j = text_eq j.id id

abbrev pub of_run : Text → JobRun → Bool
of_run id r = text_eq r.run_id id

abbrev pub change_job : Text → (Job → Job) → Tables → Tables
change_job id f db = record db { jobs = (update_rows (of_job id) f db.jobs).0 }

module _ (format : Time → Text) where
  unfoldable pub lease_expired : Time → Lease → Bool
  lease_expired now l = text_leb (format l.expires_at) (format now)

  -- The SELECT of the expired runs, without the columns of the job.
  unfoldable pub expired_runs : Time → Tables → List JobRun
  expired_runs now db =
      keep_if
        (λ r.
          is_claimed r.run_status
          && any (λ l. text_eq l.run_id r.run_id && lease_expired now l) db.leases)
        db.runs

  abbrev pub timed_out_run : Time → JobRun → JobRun
  timed_out_run now r = record r {
    run_status = timed_out;
    finished_at = some now;
    run_error = codes "lease expired";
  }

  unfoldable pub expire_run : Time → JobRun → Tables → Tables
  expire_run now r db = change_job r.job_id (schedule_retry now now r) (record db {
    runs =
        (update_rows (λ x. of_run r.run_id x && is_claimed x.run_status) (timed_out_run now)
          db.runs).0;
  })

  unfoldable pub expire_all : Time → List JobRun → Tables → Tables
  expire_all now [] db = db
  expire_all now (r ∷ rs) db = expire_all now rs (expire_run now r db)

  unfoldable pub drop_expired : Time → Tables → Tables
  drop_expired now db = record db { leases = keep_if (λ l. not (lease_expired now l)) db.leases }
