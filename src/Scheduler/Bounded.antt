-- ===== src/Scheduler/Bounded.antt =====
-- The attempts of a job in the tables of the scheduler (internal/scheduler/store.go): what the
-- updates of the single tables keep.
use auto_ze_agent.Common.{
  All, Bool, Bool-cases, List, Option, Text, [], any, arith, false, find_row, find_row-update_rows,
  inl, inr, none, refl, some, subst, sym, update_rows, updated_row, ℕ, ◌+◌, ◌∷◌, ◌≡◌, ◌≤◌,
}
use auto_ze_agent.Kernel.Base.{Time}
use auto_ze_agent.Scheduler.Jobs.{Job, JobRun, Tables}
use auto_ze_agent.Scheduler.Expiry.{schedule_retry, of_job}

-- `n` attempts are no more than the job allows.
abbrev pub Within : ℕ → Option Job → Type 0
Within n none = ⊥
Within n (some j) = n ≤ j.max_retries + 1

-- The primary key of the jobs.
abbrev pub IsKeyed : List Job → Type 0
IsKeyed [] = Unit {0}
IsKeyed (j ∷ js) = (any (of_job j.id) js ≡ false) × IsKeyed js

-- The job with this ID allows `n` attempts.
abbrev pub Allows : List Job → Text → ℕ → Type 0
Allows jobs id n = Within n (find_row Job.id id jobs)

abbrev pub LowRetry : Job → Type 0
LowRetry j = j.retry_attempt ≤ j.max_retries

-- No run of a job is beyond the first attempt and `max_retries` more.
pub record IsBounded (db : Tables) : Type 0 where
  pub keyed : IsKeyed db.jobs
  pub low : All LowRetry db.jobs
  pub runs_within : All (λ (r : JobRun). Allows db.jobs r.job_id r.attempt) db.runs

-- An update of a job that keeps what the bound is about.
pub record Keeps (f : Job → Job) : Type 0 where
  pub same_id : (j : Job) → (f j).id ≡ j.id
  pub same_retries : (j : Job) → (f j).max_retries ≡ j.max_retries
  pub stays_low : (j : Job) → LowRetry j → LowRetry (f j)

pub All-map_of {ℓ κ κ'} :
    {A : Type ℓ} {P : A → Type κ} {Q : A → Type κ'} (xs : List A)
    → ((x : A) → P x → Q x)
    → All P xs
    → All Q xs
All-map_of [] f all = tt
All-map_of (x ∷ xs) f (p, all) = (f x p, All-map_of xs f all)

Within-updated_row :
    (n : ℕ) (p : Job → Bool) (f : Job → Job) (k : Keeps f) (o : Option Job)
    → Within n o
    → Within n (updated_row p f o)
Within-updated_row n p f k none w = w
Within-updated_row n p f k (some j) w = ground (arith, k.same_retries j)

pub Allows-update_rows :
    (p : Job → Bool) (f : Job → Job) (k : Keeps f) (jobs : List Job) (id : Text) (n : ℕ)
    → Allows jobs id n
    → Allows (update_rows p f jobs).0 id n
Allows-update_rows p f k jobs id n w =
    subst (Within n) (sym (find_row-update_rows Job.id id p f jobs k.same_id))
      (Within-updated_row n p f k (find_row Job.id id jobs) w)

any-update_rows :
    (id : Text) (p : Job → Bool) (f : Job → Job) (k : Keeps f) (jobs : List Job)
    → any (of_job id) (update_rows p f jobs).0 ≡ any (of_job id) jobs
unfolding update_rows
any-update_rows id p f k [] = refl
any-update_rows id p f k (j ∷ js) = elim (Bool-cases (p j)) [
  | inl e ↦ rw (e, k.same_id j, any-update_rows id p f k js) refl
  | inr e ↦ rw (e, any-update_rows id p f k js) refl
]

IsKeyed-update_rows :
    (p : Job → Bool) (f : Job → Job) (k : Keeps f) (jobs : List Job)
    → IsKeyed jobs
    → IsKeyed (update_rows p f jobs).0
unfolding update_rows
IsKeyed-update_rows p f k [] keyed = tt
IsKeyed-update_rows p f k (j ∷ js) (fresh, keyed) = elim (Bool-cases (p j)) [
  | inl e ↦
      rw (e, k.same_id j, any-update_rows j.id p f k js) (fresh, IsKeyed-update_rows p f k js keyed)
  | inr e ↦ rw (e, any-update_rows j.id p f k js) (fresh, IsKeyed-update_rows p f k js keyed)
]

All-update_rows {ℓ κ} :
    {A : Type ℓ} {P : A → Type κ} (p : A → Bool) (f : A → A) (xs : List A)
    → ((x : A) → P x → P (f x))
    → All P xs
    → All P (update_rows p f xs).0
unfolding update_rows
All-update_rows p f [] keep all = tt
All-update_rows p f (x ∷ xs) keep (h, all) = elim (Bool-cases (p x)) [
  | inl e ↦ rw e (keep x h, All-update_rows p f xs keep all)
  | inr e ↦ rw e (h, All-update_rows p f xs keep all)
]

-- Any update of the jobs of this kind.
pub update_jobs-IsBounded :
    (p : Job → Bool) (f : Job → Job) (k : Keeps f) (db : Tables)
    → IsBounded db
    → IsBounded (record db { jobs = (update_rows p f db.jobs).0 })
update_jobs-IsBounded p f k db b = record {
  keyed = IsKeyed-update_rows p f k db.jobs b.keyed;
  low = All-update_rows p f db.jobs k.stays_low b.low;
  runs_within =
      All-map_of db.runs (λ (r : JobRun) w. Allows-update_rows p f k db.jobs r.job_id r.attempt w)
        b.runs_within;
}

-- An update of the runs that keeps the job and the attempt.
pub update_runs-IsBounded :
    (p : JobRun → Bool) (f : JobRun → JobRun) (db : Tables)
    → ((r : JobRun) → ((f r).job_id ≡ r.job_id) × ((f r).attempt ≡ r.attempt))
    → IsBounded db
    → IsBounded (record db { runs = (update_rows p f db.runs).0 })
update_runs-IsBounded p f db same b = record {
  keyed = b.keyed;
  low = b.low;
  runs_within =
      All-update_rows p f db.runs
        (λ (r : JobRun) w.
          subst (λ i. Allows db.jobs i (f r).attempt) (sym (same r).0)
            (subst (Allows db.jobs r.job_id) (sym (same r).1) w))
        b.runs_within;
}

pub schedule_retry-Keeps : (now when : Time) (r : JobRun) → Keeps (schedule_retry now when r)
unfolding schedule_retry
schedule_retry-Keeps now when r = record {
  same_id = λ j. ground arith;
  same_retries = λ j. ground arith;
  stays_low = λ j l. ground (arith, l);
}
