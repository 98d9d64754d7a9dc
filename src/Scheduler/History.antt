-- ===== src/Scheduler/History.antt =====
-- Histories of calls on the scheduler (internal/scheduler/store.go).
use auto_ze_agent.Common.{
  All, Bool, Bool-cases, List, Option, Text, [], any, arith, codes, false, find_row, if◌then◌else◌,
  inl, inr, is_blank, is_some, keep_if, none, not, refl, some, text_eq, text_eq_comm, to_lower,
  trim_space, true, update_rows, ℕ, ℤ, ◌++◌, ◌==◌, ◌||◌, ◌∙◌, ◌∷◌, ◌≡◌,
}
use auto_ze_agent.Kernel.Base.{Time}
use auto_ze_agent.Scheduler.Jobs.{
  or_error, no_rows, missing_core_task, missing_ids, session_not_found, Lease, Job, JobRun,
  RunStatus, claimed, task_created, completed, failed, timed_out, cancelled, Tables, SchedulerError,
  CreateRequest, Answer, answer, refused, new_job, insert_job, create_at, create_checked, create,
  can_change, with_status, change_state,
}
use auto_ze_agent.Scheduler.Expiry.{of_job, of_run}
use auto_ze_agent.Scheduler.Claims.{claim_due}
use auto_ze_agent.Scheduler.Settle.{
  settle_job, settled_run, settle, acknowledge_as, acknowledge, run_status_of, leased_run,
}
use auto_ze_agent.Scheduler.Bounded.{
  Allows, LowRetry, IsKeyed, All-map_of, IsBounded, Keeps, update_jobs-IsBounded,
  update_runs-IsBounded, schedule_retry-Keeps,
}
use auto_ze_agent.Scheduler.Attempts.{claim_due-IsBounded}

-- A call of the store, with what it reads from the clock and the random source.
pub data Call : Type 0 where
  create_call : CreateRequest → Text → Time → Call
  change_call : Text → Text → Text → Text → Time → Call
  claim_call : Text → ℤ → ℤ → Time → (ℕ → Text × Text) → Call
  acknowledge_call : Time → Text → Text → Text → Text → Text → Call

if-IsBounded {ℓ} :
    {A : Type ℓ} (c : Bool) (x y : Tables × Answer A)
    → IsBounded x.0
    → IsBounded y.0
    → IsBounded (if c then x else y).0
if-IsBounded true x y b b' = b
if-IsBounded false x y b b' = b'

settle_job-Keeps : (now : Time) (status : RunStatus) (r : JobRun) → Keeps (settle_job now status r)
unfolding settle_job
settle_job-Keeps now task_created r = record {
  same_id = λ j. refl;
  same_retries = λ j. refl;
  stays_low = λ j l. omega arith;
}
settle_job-Keeps now failed r = schedule_retry-Keeps now now r
settle_job-Keeps now timed_out r = schedule_retry-Keeps now now r
settle_job-Keeps now claimed r = record {
  same_id = λ j. refl;
  same_retries = λ j. refl;
  stays_low = λ j l. l;
}
settle_job-Keeps now completed r = record {
  same_id = λ j. refl;
  same_retries = λ j. refl;
  stays_low = λ j l. omega arith;
}
settle_job-Keeps now cancelled r = record {
  same_id = λ j. refl;
  same_retries = λ j. refl;
  stays_low = λ j l. omega arith;
}

with_leases :
    (leases : List Lease) (db : Tables) → IsBounded db → IsBounded (record db { leases = leases })
with_leases leases db b = record { keyed = b.keyed; low = b.low; runs_within = b.runs_within }

settle-IsBounded :
    (now : Time) (status : RunStatus) (lease_id core_task_id error : Text) (db : Tables)
    (o : Option JobRun)
    → IsBounded db
    → IsBounded (settle now status lease_id core_task_id error db o).0
unfolding settle
settle-IsBounded now status lease_id core_task_id error db none b = b
settle-IsBounded now status lease_id core_task_id error db (some r) b =
    if-IsBounded _ (db, refused missing_core_task) _ b
      (update_jobs-IsBounded (of_job r.job_id) (settle_job now status r)
        (settle_job-Keeps now status r)
        (record db {
          runs =
              (update_rows (of_run r.run_id) (settled_run now status core_task_id error) db.runs).0;
          leases = keep_if (λ (l : Lease). not (text_eq l.lease_id lease_id)) db.leases;
        })
        (with_leases (keep_if (λ (l : Lease). not (text_eq l.lease_id lease_id)) db.leases)
          (record db {
            runs =
                (update_rows (of_run r.run_id) (settled_run now status core_task_id error)
                  db.runs).0;
          })
          (update_runs-IsBounded (of_run r.run_id) (settled_run now status core_task_id error) db
            (λ x. (refl, refl)) b)))

acknowledge_as-IsBounded :
    (now : Time) (run_id lease_id core_task_id error : Text) (db : Tables) (o : Option RunStatus)
    → IsBounded db
    → IsBounded (acknowledge_as now run_id lease_id core_task_id error db o).0
unfolding acknowledge_as
acknowledge_as-IsBounded now run_id lease_id core_task_id error db none b = b
acknowledge_as-IsBounded now run_id lease_id core_task_id error db (some status) b =
    settle-IsBounded now status lease_id core_task_id error db (leased_run run_id lease_id db) b

acknowledge-IsBounded :
    (now : Time) (run_id lease_id core_task_id status error : Text) (db : Tables)
    → IsBounded db
    → IsBounded (acknowledge now run_id lease_id core_task_id status error db).0
unfolding acknowledge
acknowledge-IsBounded now run_id lease_id core_task_id status error db b =
    if-IsBounded _ (db, refused missing_ids) _ b
      (acknowledge_as-IsBounded now (trim_space run_id) (trim_space lease_id)
        (trim_space core_task_id) (trim_space error) db
        (run_status_of (to_lower (trim_space status))) b)

abbrev is_change : Text → Bool
is_change status =
    text_eq status (codes "paused")
    || (text_eq status (codes "active") || text_eq status (codes "archived"))

change_state-IsBounded :
    (job_id reviewer reason status : Text) (clock : Time) (db : Tables)
    → IsBounded db
    → IsBounded (change_state job_id reviewer reason status clock db).0
unfolding change_state
change_state-IsBounded job_id reviewer reason status clock db b =
    let k : Keeps (with_status status clock) = record {
      same_id = λ j. refl;
      same_retries = λ j. refl;
      stays_low = λ j l. l;
    } in
    let b' =
      update_jobs-IsBounded (can_change (trim_space job_id)) (with_status status clock) k db b in
    elim (Bool-cases (is_blank job_id || (is_blank reviewer || is_blank reason))) [
      | inl e ↦ rw e b
      | inr e ↦ elim (Bool-cases (is_change status)) [
        | inl s ↦
            elim (Bool-cases (
              (update_rows (can_change (trim_space job_id)) (with_status status clock) db.jobs).1
              == 0)) [ inl z ↦ rw (e, s, z) b | inr z ↦ rw (e, s, z) b' ]
        | inr s ↦ rw (e, s) b
      ]
    ]

IsKeyed-snoc :
    (js : List Job) (j : Job)
    → is_some (find_row Job.id j.id js) ≡ false
    → IsKeyed js
    → IsKeyed (js ++ j ∷ [])
unfolding find_row
IsKeyed-snoc [] j h keyed = (refl, tt)
IsKeyed-snoc (x ∷ xs) j h (fresh, keyed) = elim (Bool-cases (text_eq x.id j.id)) [
  | inl e ↦ absurd (ground (arith, e, h))
  | inr e ↦ (
    any_snoc xs fresh (text_eq_comm j.id x.id ∙ e),
    IsKeyed-snoc xs j (ground (arith, e, h)) keyed,
  )
]
  where
    any_snoc :
        (ys : List Job)
        → any (of_job x.id) ys ≡ false
        → text_eq j.id x.id ≡ false
        → any (of_job x.id) (ys ++ j ∷ []) ≡ false
    any_snoc [] f d = rw d refl
    any_snoc (y ∷ ys) f d = ground (arith, any_snoc ys)

Allows-snoc :
    (js : List Job) (j : Job) (id : Text) (n : ℕ) → Allows js id n → Allows (js ++ j ∷ []) id n
unfolding find_row
Allows-snoc [] j id n w = absurd w
Allows-snoc (x ∷ xs) j id n w = elim (Bool-cases (text_eq x.id id)) [
  | inl e ↦ rw e (rw e at w)
  | inr e ↦ rw e (Allows-snoc xs j id n (rw e at w))
]

All-snoc {κ} : (P : Job → Type κ) (js : List Job) (j : Job) → All P js → P j → All P (js ++ j ∷ [])
All-snoc P [] j all p = (p, tt)
All-snoc P (x ∷ xs) j (q, all) p = (q, All-snoc P xs j all p)

insert_job-IsBounded :
    (j : Job) (db : Tables) → LowRetry j → IsBounded db → IsBounded (insert_job j db).0
unfolding insert_job
insert_job-IsBounded j db low b = elim (Bool-cases (is_some (find_row Job.id j.id db.jobs))) [
  | inl e ↦ rw e b
  | inr e ↦ rw e (
      if-IsBounded (is_some (find_row Job.idempotency_key j.idempotency_key db.jobs))
        (db, or_error no_rows (find_row Job.idempotency_key j.idempotency_key db.jobs))
        (record db { jobs = db.jobs ++ j ∷ [] }, answer j) b
        (record {
          keyed = IsKeyed-snoc db.jobs j e b.keyed;
          low = All-snoc LowRetry db.jobs j b.low low;
          runs_within =
              All-map_of db.runs (λ (r : JobRun) w. Allows-snoc db.jobs j r.job_id r.attempt w)
                b.runs_within;
        }))
]

create_at-IsBounded :
    (r : CreateRequest) (job_id : Text) (when : Time) (next : Option Time) (db : Tables)
    → IsBounded db
    → IsBounded (create_at r job_id when next db).0
unfolding create_at new_job
create_at-IsBounded r job_id when none db b = b
create_at-IsBounded r job_id when (some next) db b =
    insert_job-IsBounded (new_job r job_id next when) db (omega arith) b

create_checked-IsBounded :
    (parse : Text → Option Time) (sessions : List Text) (r : CreateRequest)
    (e : Option SchedulerError) (job_id : Text) (clock : Time) (db : Tables)
    → IsBounded db
    → IsBounded (create_checked parse sessions r e job_id clock db).0
unfolding create_checked
create_checked-IsBounded parse sessions r (some e) job_id clock db b = b
create_checked-IsBounded parse sessions r none job_id clock db b =
    if-IsBounded _ (db, refused session_not_found) _ b (create_at-IsBounded r job_id clock _ db b)

module _ (parse : Text → Option Time) (format : Time → Text) (main_model_ref : Option Text)
    (sessions : List Text) where
  -- The tables after a call.
  unfoldable pub run_call : Tables → Call → Tables
  run_call db (create_call request job_id clock) =
      (create parse main_model_ref sessions request job_id clock db).0
  run_call db (change_call job_id reviewer reason status clock) =
      (change_state job_id reviewer reason status clock db).0
  run_call db (claim_call owner limit lease now ids) =
      (claim_due format owner limit lease now ids db).0
  run_call db (acknowledge_call now run_id lease_id core_task_id status error) =
      (acknowledge now run_id lease_id core_task_id status error db).0

  unfoldable pub run_calls : Tables → List Call → Tables
  run_calls db [] = db
  run_calls db (c ∷ cs) = run_calls (run_call db c) cs

  run_call-IsBounded : (db : Tables) (c : Call) → IsBounded db → IsBounded (run_call db c)
  unfolding run_call create
  run_call-IsBounded db (create_call request job_id clock) b =
      create_checked-IsBounded parse sessions _ _ job_id clock db b
  run_call-IsBounded db (change_call job_id reviewer reason status clock) b =
      change_state-IsBounded job_id reviewer reason status clock db b
  run_call-IsBounded db (claim_call owner limit lease now ids) b =
      claim_due-IsBounded format owner limit lease now ids db b
  run_call-IsBounded db (acknowledge_call now run_id lease_id core_task_id status error) b =
      acknowledge-IsBounded now run_id lease_id core_task_id status error db b

  -- Over every history of calls, on tables where it holds at first, the IDs of the jobs are
  -- distinct, every run is of a job that is there, and is its first attempt or one of the
  -- `max_retries` after it.
  pub run_calls-IsBounded :
      (db : Tables) (cs : List Call) → IsBounded db → IsBounded (run_calls db cs)
  unfolding run_calls
  run_calls-IsBounded db [] b = b
  run_calls-IsBounded db (c ∷ cs) b =
      run_calls-IsBounded (run_call db c) cs (run_call-IsBounded db c b)
