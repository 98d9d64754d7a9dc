-- ===== src/Scheduler/Due.antt =====
-- The jobs that `ClaimDue` selects have a retry left (internal/scheduler/store.go).
use auto_ze_agent.Common.{
  All, Bool, Bool-cases, List, Text, [], any, arith, false, find_row, inl, inr, keep_if, suc, take,
  text_eq, text_eq_comm, text_eq_refl, zero, ℕ, ◌+◌, ◌∷◌, ◌≡◌,
}
use auto_ze_agent.Kernel.Base.{Time}
use auto_ze_agent.Scheduler.Jobs.{Job, Tables}
use auto_ze_agent.Scheduler.Expiry.{of_job}
use auto_ze_agent.Scheduler.Claims.{is_due, insert_due, due_before, sort_due, due_jobs}
use auto_ze_agent.Scheduler.Bounded.{IsKeyed, Allows, LowRetry, IsBounded}

-- A due job may be claimed once more.
abbrev pub MayClaim : Tables → Job → Type 0
MayClaim db j = Allows db.jobs j.id (j.retry_attempt + 1)

other_ids :
    (id : Text) (js : List Job)
    → any (of_job id) js ≡ false
    → All (λ (x : Job). text_eq id x.id ≡ false) js
other_ids id [] h = tt
other_ids id (x ∷ xs) h =
    (ground (arith, h, text_eq_comm id x.id), other_ids id xs (ground (arith, h)))

-- In a table with a primary key a row is found under its ID.
rows-MayClaim :
    (jobs : List Job)
    → IsKeyed jobs
    → All LowRetry jobs
    → All (λ (j : Job). Allows jobs j.id (j.retry_attempt + 1)) jobs
unfolding find_row
rows-MayClaim [] keyed low = tt
rows-MayClaim (j ∷ js) (fresh, keyed) (l, low) = (
  rw (text_eq_refl j.id) (omega (arith, l)),
  both js (other_ids j.id js fresh) (rows-MayClaim js keyed low),
)
  where
    both :
        (xs : List Job)
        → All (λ (x : Job). text_eq j.id x.id ≡ false) xs
        → All (λ (x : Job). Allows js x.id (x.retry_attempt + 1)) xs
        → All (λ (x : Job). Allows (j ∷ js) x.id (x.retry_attempt + 1)) xs
    both [] a b = tt
    both (x ∷ xs) (o, a) (w, b) = (rw o w, both xs a b)

module _ {κ} (P : Job → Type κ) (format : Time → Text) where
  All-insert_due : (j : Job) (js : List Job) → P j → All P js → All P (insert_due format j js)
  unfolding insert_due
  All-insert_due j [] p all = (p, tt)
  All-insert_due j (i ∷ is) p (q, all) = elim (Bool-cases (due_before format j i)) [
    | inl e ↦ rw e (p, (q, all))
    | inr e ↦ rw e (q, All-insert_due j is p all)
  ]

  All-sort_due : (js : List Job) → All P js → All P (sort_due format js)
  unfolding sort_due
  All-sort_due [] all = tt
  All-sort_due (j ∷ js) (p, all) = All-insert_due j (sort_due format js) p (All-sort_due js all)

All-keep_if {κ} :
    (P : Job → Type κ) (p : Job → Bool) (js : List Job) → All P js → All P (keep_if p js)
All-keep_if P p [] all = tt
All-keep_if P p (j ∷ js) (h, all) = elim (Bool-cases (p j)) [
  | inl e ↦ rw e (h, All-keep_if P p js all)
  | inr e ↦ rw e (All-keep_if P p js all)
]

All-take {κ} : (P : Job → Type κ) (n : ℕ) (js : List Job) → All P js → All P (take n js)
All-take P zero js all = tt
All-take P (suc n) [] all = tt
All-take P (suc n) (j ∷ js) (h, all) = (h, All-take P n js all)

-- Every job that is selected may be claimed.
pub due_jobs-MayClaim :
    (format : Time → Text) (now : Time) (limit : ℕ) (db : Tables)
    → IsBounded db
    → All (MayClaim db) (due_jobs format now limit db)
unfolding due_jobs
due_jobs-MayClaim format now limit db b =
    All-take (MayClaim db) limit (sort_due format (keep_if (is_due format now db) db.jobs)) (
      All-sort_due (MayClaim db) format (keep_if (is_due format now db) db.jobs) (
        All-keep_if (MayClaim db) (is_due format now db) db.jobs
          (rows-MayClaim db.jobs b.keyed b.low)))
