-- ===== src/Scheduler/Attempts.antt =====
-- The attempts of a job over a history of calls (internal/scheduler/store.go).
use auto_ze_agent.Common.{
  All, Bool, Bool-cases, List, Option, Text, [], any, inl, inr, is_blank, ltb, none, refl, some,
  suc, trim_space, update_rows, ℕ, ℤ, ◌&&◌, ◌++◌, ◌+◌, ◌∷◌,
}
use auto_ze_agent.Kernel.Base.{Time}
use auto_ze_agent.Scheduler.Jobs.{Answer, answer, refused, Lease, Job, JobRun, Tables}
use auto_ze_agent.Scheduler.Expiry.{
  expired_runs, schedule_retry, of_job, of_run, is_claimed, timed_out_run, expire_run, expire_all,
  drop_expired,
}
use auto_ze_agent.Scheduler.Claims.{
  after_round, passed_over, aborted, put_claim, or_roll_back, advance_job, new_lease, clashes_run,
  clashes_lease, after_claim, round_end, emitted, Round, Claim, new_run, claim_job, claim_jobs,
  claim_due,
}
use auto_ze_agent.Scheduler.Due.{MayClaim, due_jobs-MayClaim}
use auto_ze_agent.Scheduler.Bounded.{
  Allows, IsBounded, Keeps, All-map_of, Allows-update_rows, update_jobs-IsBounded,
  update_runs-IsBounded, schedule_retry-Keeps,
}

module _ (format : Time → Text) where
  expire_run-IsBounded :
      (now : Time) (r : JobRun) (db : Tables)
      → IsBounded db
      → IsBounded (expire_run format now r db)
  unfolding expire_run
  expire_run-IsBounded now r db b =
      let p = λ (x : JobRun). of_run r.run_id x && is_claimed x.run_status in
      update_jobs-IsBounded (of_job r.job_id) (schedule_retry now now r)
        (schedule_retry-Keeps now now r)
        (record db { runs = (update_rows p (timed_out_run format now) db.runs).0 })
        (update_runs-IsBounded p (timed_out_run format now) db (λ x. (refl, refl)) b)

  expire_all-IsBounded :
      (now : Time) (rs : List JobRun) (db : Tables)
      → IsBounded db
      → IsBounded (expire_all format now rs db)
  unfolding expire_all
  expire_all-IsBounded now [] db b = b
  expire_all-IsBounded now (r ∷ rs) db b =
      expire_all-IsBounded now rs (expire_run format now r db) (expire_run-IsBounded now r db b)

  drop_expired-IsBounded :
      (now : Time) (db : Tables) → IsBounded db → IsBounded (drop_expired format now db)
  unfolding drop_expired
  drop_expired-IsBounded now db b = record {
    keyed = b.keyed;
    low = b.low;
    runs_within = b.runs_within;
  }

  -- What a claim leaves of the bound, and of the jobs that are still to be claimed.
  abbrev Good : Tables → List Job → Type 0
  Good db js = IsBounded db × All (MayClaim db) js

  update-Good :
      (p : Job → Bool) (f : Job → Job) (k : Keeps f) (db : Tables) (js : List Job)
      → Good db js
      → Good (record db { jobs = (update_rows p f db.jobs).0 }) js
  update-Good p f k db js (b, may) = (
    update_jobs-IsBounded p f k db b,
    All-map_of js (λ (j : Job) w. Allows-update_rows p f k db.jobs j.id (j.retry_attempt + 1) w)
        may,
  )

  abbrev GoodIf : Option Tables → List Job → Type 0
  GoodIf none js = Unit {0}
  GoodIf (some db) js = Good db js

  abbrev GoodRound : Round → List Job → Type 0
  GoodRound (emitted db c) js = Good db js
  GoodRound _ js = Unit {0}

  advance_job-Good :
      (now : Time) (j : Job) (db : Tables) (js : List Job) (next : Option Time)
      → Good db js
      → GoodIf (advance_job format now j db next) js
  unfolding advance_job
  advance_job-Good now j db js none good = tt
  advance_job-Good now j db js (some next) good =
      let k : Keeps (λ x. record x { next_run_at = next; updated_at = now }) = record {
        same_id = λ x. refl;
        same_retries = λ x. refl;
        stays_low = λ x l. l;
      } in
      update-Good (of_job j.id) (λ x. record x { next_run_at = next; updated_at = now }) k db js
        good

  after_claim-Good :
      (now : Time) (j : Job) (db : Tables) (js : List Job)
      → Good db js
      → GoodIf (after_claim format now j db) js
  unfolding after_claim
  after_claim-Good now j db js good = elim (Bool-cases (ltb 0 j.retry_attempt)) [
    | inl e ↦
        let k : Keeps (λ x. record x { retry_at = none; updated_at = now }) = record {
          same_id = λ x. refl;
          same_retries = λ x. refl;
          stays_low = λ x l. l;
        } in
        rw e (
          update-Good (of_job j.id) (λ x. record x { retry_at = none; updated_at = now }) k db js
            good)
    | inr e ↦ rw e (advance_job-Good now j db js _ good)
  ]

  round_end-Good :
      (c : Claim) (o : Option Tables) (js : List Job)
      → GoodIf o js
      → GoodRound (round_end format c o) js
  unfolding round_end
  round_end-Good c none js good = tt
  round_end-Good c (some db) js good = good

  All-snoc {κ} :
      (P : JobRun → Type κ) (rs : List JobRun) (r : JobRun) → All P rs → P r → All P (rs ++ r ∷ [])
  All-snoc P [] r all p = (p, tt)
  All-snoc P (x ∷ xs) r (q, all) p = (q, All-snoc P xs r all p)

  claimed_run :
      (now : Time) (j : Job) (run_id : Text) (l : Lease) (db : Tables)
      → IsBounded db
      → MayClaim db j
      → IsBounded (record db {
        runs = db.runs ++ new_run format now j run_id ∷ [];
        leases = db.leases ++ l ∷ [];
      })
  unfolding new_run
  claimed_run now j run_id l db b may = record {
    keyed = b.keyed;
    low = b.low;
    runs_within =
        All-snoc (λ (r : JobRun). Allows db.jobs r.job_id r.attempt) db.runs
          (new_run format now j run_id) b.runs_within may;
  }

  claim_job-Good :
      (now : Time) (owner : Text) (lease : ℕ) (j : Job) (ids : Text × Text) (db : Tables)
      (js : List Job)
      → Good db (j ∷ js)
      → GoodRound (claim_job format now owner lease j ids db) js
  unfolding claim_job
  claim_job-Good now owner lease j ids db js (b, (may, rest)) =
      let r = new_run format now j ids.0 in
      let l = new_lease format now owner lease j ids in
      elim (Bool-cases (any (clashes_run format r) db.runs)) [
        | inl e ↦ rw e tt
        | inr e ↦ elim (Bool-cases (any (clashes_lease format l) db.leases)) [
          | inl e' ↦ rw (e, e') tt
          | inr e' ↦
              rw (e, e')
                (round_end-Good (record { claim_job = j; claim_run = r; claim_lease = l })
                  (after_claim format now j
                    (record db { runs = db.runs ++ r ∷ []; leases = db.leases ++ l ∷ [] }))
                  js
                  (after_claim-Good now j
                    (record db { runs = db.runs ++ r ∷ []; leases = db.leases ++ l ∷ [] }) js
                    (claimed_run now j ids.0 l db b may, rest)))
        ]
      ]

  put_claim-IsBounded :
      (c : Claim) (x : Tables × Answer (List Claim)) → IsBounded x.0 → IsBounded (put_claim c x).0
  unfolding put_claim
  put_claim-IsBounded c (db, answer cs) b = b
  put_claim-IsBounded c (db, refused e) b = b

  or_roll_back-IsBounded :
      (db : Tables) (x : Tables × Answer (List Claim))
      → IsBounded db
      → IsBounded x.0
      → IsBounded (or_roll_back db x).0
  unfolding or_roll_back
  or_roll_back-IsBounded db (db', answer cs) b b' = b'
  or_roll_back-IsBounded db (db', refused e) b b' = b

  after_round-IsBounded :
      (db : Tables) (js : List Job) (r : Round) (rest : Tables → Tables × Answer (List Claim))
      → Good db js
      → GoodRound r js
      → ((db' : Tables) → Good db' js → IsBounded (rest db').0)
      → IsBounded (after_round db r rest).0
  unfolding after_round
  after_round-IsBounded db js (emitted db' c) rest good good' later =
      put_claim-IsBounded c (rest db') (later db' good')
  after_round-IsBounded db js passed_over rest good good' later = later db good
  after_round-IsBounded db js (aborted e) rest (b, may) good' later = b

  claim_jobs-IsBounded :
      (now : Time) (owner : Text) (lease : ℕ) (js : List Job) (ids : ℕ → Text × Text) (n : ℕ)
      (db : Tables)
      → Good db js
      → IsBounded (claim_jobs format now owner lease js ids n db).0
  unfolding claim_jobs
  claim_jobs-IsBounded now owner lease [] ids n db (b, may) = b
  claim_jobs-IsBounded now owner lease (j ∷ js) ids n db (b, (may, rest)) =
      after_round-IsBounded db js (claim_job format now owner lease j (ids n) db)
        (λ db'. claim_jobs format now owner lease js ids (suc n) db') (b, rest)
        (claim_job-Good now owner lease j (ids n) db js (b, (may, rest)))
        (λ db' good. claim_jobs-IsBounded now owner lease js ids (suc n) db' good)

  pub claim_due-IsBounded :
      (owner : Text) (limit lease : ℤ) (now : Time) (ids : ℕ → Text × Text) (db : Tables)
      → IsBounded db
      → IsBounded (claim_due format owner limit lease now ids db).0
  unfolding claim_due
  claim_due-IsBounded owner limit lease now ids db b =
      let db' = drop_expired format now (expire_all format now (expired_runs format now db) db) in
      let b' =
        drop_expired-IsBounded now (expire_all format now (expired_runs format now db) db)
          (expire_all-IsBounded now (expired_runs format now db) db b) in
      elim (Bool-cases (is_blank owner)) [
        | inl e ↦ rw e b
        | inr e ↦ rw e (
            or_roll_back-IsBounded db _ b (
              claim_jobs-IsBounded now (trim_space owner) _ _ ids 0 db'
                (b', due_jobs-MayClaim format now _ db' b')))
      ]
