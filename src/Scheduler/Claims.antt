-- ===== src/Scheduler/Claims.antt =====
-- internal/scheduler/store.go: `ClaimDue`. It is one transaction; where it fails it rolls back.
-- `format` stands for `formatTime`, whose texts SQLite compares.
use auto_ze_agent.Common.{
  Bool, List, Option, Text, [], any, codes, decimal, if◌then◌else◌, is_blank, keep_if, leb_ℤ, ltb,
  ltb_ℤ, none, not, pos, pos_part, some, suc, take, text_eq, trim_space, ℕ, ℤ, ◌&&◌, ◌++◌, ◌+◌,
  ◌||◌, ◌∷◌,
}
use auto_ze_agent.Kernel.Base.{Time}
use auto_ze_agent.Scheduler.Advance.{seconds, add_time, advance_next_run}
use auto_ze_agent.Scheduler.Jobs.{
  Job, claimed, JobRun, Lease, Tables, SchedulerError, missing_owner, lease_refused, never_ends,
  Answer, answer, refused,
}
use auto_ze_agent.Scheduler.Expiry.{text_leb, change_job, expired_runs, expire_all, drop_expired}

-- What is emitted for a claimed job, with the run and the lease.
pub record Claim : Type 0 where
  pub claim_job : Job
  pub claim_run : JobRun
  pub claim_lease : Lease

-- A round of the loop over the due jobs.
pub data Round : Type 0 where
  emitted : Tables → Claim → Round
  passed_over : Round
  aborted : SchedulerError → Round

unfoldable pub put_claim : Claim → Tables × Answer (List Claim) → Tables × Answer (List Claim)
put_claim c (db, answer cs) = (db, answer (c ∷ cs))
put_claim c (db, refused e) = (db, refused e)

unfoldable pub after_round :
    Tables → Round → (Tables → Tables × Answer (List Claim)) → Tables × Answer (List Claim)
after_round db (emitted db' c) rest = put_claim c (rest db')
after_round db passed_over rest = rest db
after_round db (aborted e) rest = (db, refused e)

unfoldable pub or_roll_back {ℓ} : {A : Type ℓ} → Tables → Tables × Answer A → Tables × Answer A
or_roll_back db (db', answer a) = (db', answer a)
or_roll_back db (db', refused e) = (db, refused e)

module _ (format : Time → Text) where
  unfoldable pub due_at : Job → Text
  due_at j = elim j.retry_at [ none ↦ format j.next_run_at | some t ↦ format t ]

  unfoldable pub is_due : Time → Tables → Job → Bool
  is_due now db j =
      text_eq j.status (codes "active")
      && (text_leb (due_at j) (format now)
          && not (any (λ (l : Lease). text_eq l.job_id j.id) db.leases))

  -- ORDER BY the time and then the ID.
  unfoldable pub due_before : Job → Job → Bool
  due_before i j =
      if text_eq (due_at i) (due_at j) then text_leb i.id j.id else text_leb (due_at i) (due_at j)

  unfoldable pub insert_due : Job → List Job → List Job
  insert_due j [] = j ∷ []
  insert_due j (i ∷ is) =
      let rest = insert_due j is in if due_before j i then j ∷ i ∷ is else i ∷ rest

  unfoldable pub sort_due : List Job → List Job
  sort_due [] = []
  sort_due (j ∷ js) = insert_due j (sort_due js)

  unfoldable pub due_jobs : Time → ℕ → Tables → List Job
  due_jobs now limit db = take limit (sort_due (keep_if (is_due now db) db.jobs))

  abbrev pub origin_or : Time → Option Time → Time
  origin_or t none = t
  origin_or t (some origin) = origin

  -- The time that a claim is for.
  unfoldable pub claim_time : Job → Time
  claim_time j =
      if ltb 0 j.retry_attempt then origin_or j.next_run_at j.retry_origin_at else j.next_run_at

  unfoldable pub core_task_key : Job → Text
  core_task_key j = j.idempotency_key ++ (codes "/" ++ format (claim_time j))

  unfoldable pub new_run : Time → Job → Text → JobRun
  new_run now j run_id = record {
    run_id = run_id;
    job_id = j.id;
    scheduled_at = claim_time j;
    attempt = j.retry_attempt + 1;
    run_status = claimed;
    task_request_key = core_task_key j ++ (codes "/" ++ decimal (j.retry_attempt + 1));
    core_task_id = [];
    core_task_key = core_task_key j;
    run_error = [];
    started_at = now;
    finished_at = none;
  }

  unfoldable pub new_lease : Time → Text → ℕ → Job → Text × Text → Lease
  new_lease now owner lease_seconds j ids = record {
    job_id = j.id;
    run_id = ids.0;
    lease_id = ids.1;
    owner = owner;
    acquired_at = now;
    expires_at = add_time now (seconds lease_seconds);
  }

  -- The PRIMARY KEY and UNIQUE constraints.
  unfoldable pub clashes_run : JobRun → JobRun → Bool
  clashes_run new r = text_eq r.run_id new.run_id || text_eq r.task_request_key new.task_request_key

  unfoldable pub clashes_lease : Lease → Lease → Bool
  clashes_lease new l =
      text_eq l.job_id new.job_id
      || (text_eq l.run_id new.run_id || text_eq l.lease_id new.lease_id)

  unfoldable pub advance_job : Time → Job → Tables → Option Time → Option Tables
  advance_job now j db none = none
  advance_job now j db (some next) =
      some (change_job j.id (λ x. record x { next_run_at = next; updated_at = now }) db)

  -- The UPDATE after a claim; `none` where `advanceNextRun` does not return.
  unfoldable pub after_claim : Time → Job → Tables → Option Tables
  after_claim now j db =
      if ltb 0 j.retry_attempt
      then some (change_job j.id (λ x. record x { retry_at = none; updated_at = now }) db)
      else advance_job now j db (
          advance_next_run (claim_time j + now + 2) (claim_time j) now (seconds j.interval_seconds)
            j.misfire_policy)

  unfoldable pub round_end : Claim → Option Tables → Round
  round_end c none = aborted never_ends
  round_end c (some db) = emitted db c

  -- The body of the loop. A run that is there already is passed over.
  unfoldable pub claim_job : Time → Text → ℕ → Job → Text × Text → Tables → Round
  claim_job now owner lease_seconds j ids db =
      let r = new_run now j ids.0 in
      let l = new_lease now owner lease_seconds j ids in
      if any (clashes_run r) db.runs
      then passed_over
      else if any (clashes_lease l) db.leases
      then aborted lease_refused
      else round_end (record { claim_job = j; claim_run = r; claim_lease = l })
          (after_claim now j (record db { runs = db.runs ++ r ∷ []; leases = db.leases ++ l ∷ [] }))

  -- The loop. `ids` are the random IDs of the runs and leases by round.
  unfoldable pub claim_jobs :
      Time → Text → ℕ → List Job → (ℕ → Text × Text) → ℕ → Tables → Tables × Answer (List Claim)
  claim_jobs now owner lease_seconds [] ids n db = (db, answer [])
  claim_jobs now owner lease_seconds (j ∷ js) ids n db =
      after_round db (claim_job now owner lease_seconds j (ids n) db)
        (λ db'. claim_jobs now owner lease_seconds js ids (suc n) db')

  -- `ClaimDue`; a failure rolls the transaction back.
  unfoldable pub claim_due :
      Text → ℤ → ℤ → Time → (ℕ → Text × Text) → Tables → Tables × Answer (List Claim)
  claim_due owner limit lease_seconds now ids db =
      let limit' = if leb_ℤ limit (pos 0) || ltb_ℤ (pos 100) limit then 10 else pos_part limit in
      let lease' =
        if leb_ℤ lease_seconds (pos 0) || ltb_ℤ (pos 3600) lease_seconds
        then 60
        else pos_part lease_seconds in
      let db' = drop_expired format now (expire_all format now (expired_runs format now db) db) in
      if is_blank owner
      then (db, refused missing_owner)
      else or_roll_back db
          (claim_jobs now (trim_space owner) lease' (due_jobs now limit' db') ids 0 db')
