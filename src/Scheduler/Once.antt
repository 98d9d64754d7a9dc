-- ===== src/Scheduler/Once.antt =====
-- Acknowledgements of one lease (internal/scheduler/store.go).
use auto_ze_agent.Common.{
  Bool-cases, List, Option, Text, [], any, ap, arith, false, inl, inr, is_blank, keep_if, none, not,
  refl, some, text_eq, to_lower, trim_space, true, ◌&&◌, ◌||◌, ◌∙◌, ◌∷◌, ◌≡◌,
}
use auto_ze_agent.Kernel.Base.{Time}
use auto_ze_agent.Scheduler.Jobs.{
  JobRun, RunStatus, task_created, Lease, Tables, SchedulerError, no_rows, missing_ids,
  invalid_status, answer, refused,
}
use auto_ze_agent.Scheduler.Settle.{settle, acknowledge_as, acknowledge, run_status_of, leased_run}

abbrev without : Text → List Lease → List Lease
without lease_id ls = keep_if (λ (l : Lease). not (text_eq l.lease_id lease_id)) ls

gone :
    (run_id lease_id : Text) (ls : List Lease)
    → any
        (λ (l : Lease). text_eq l.run_id run_id && text_eq l.lease_id lease_id)
        (without lease_id ls)
      ≡ false
gone run_id lease_id [] = refl
gone run_id lease_id (l ∷ ls) = ground (arith, gone run_id lease_id ls)

settle-leases :
    (now : Time) (status : RunStatus) (lease_id core_task_id error : Text) (db db' : Tables)
    (o : Option JobRun)
    → settle now status lease_id core_task_id error db o ≡ (db', answer true)
    → db'.leases ≡ without lease_id db.leases
unfolding settle
settle-leases now status lease_id core_task_id error db db' none h = absurd (cc)
settle-leases now task_created lease_id core_task_id error db db' (some r) h = ground arith
settle-leases now status lease_id core_task_id error db db' (some r) h = ground arith

acknowledge_as-leases :
    (now : Time) (run_id lease_id core_task_id error : Text) (db db' : Tables)
    (o : Option RunStatus)
    → acknowledge_as now run_id lease_id core_task_id error db o ≡ (db', answer true)
    → db'.leases ≡ without lease_id db.leases
unfolding acknowledge_as
acknowledge_as-leases now run_id lease_id core_task_id error db db' none h = absurd (cc)
acknowledge_as-leases now run_id lease_id core_task_id error db db' (some status) h =
    settle-leases now status lease_id core_task_id error db db' (leased_run run_id lease_id db) h

acknowledge_as-refused :
    (now : Time) (run_id lease_id core_task_id error : Text) (before db : Tables)
    (o : Option RunStatus)
    → db.leases ≡ without lease_id before.leases
    → (e : SchedulerError) × (acknowledge_as now run_id lease_id core_task_id error db o
        ≡ (db, refused e))
unfolding acknowledge_as settle leased_run
acknowledge_as-refused now run_id lease_id core_task_id error before db none h =
    (invalid_status, refl)
acknowledge_as-refused now run_id lease_id core_task_id error before db (some status) h =
    let none_left : any (λ (l : Lease). text_eq l.run_id run_id && text_eq l.lease_id lease_id)
          db.leases
        ≡ false =
      ap (any (λ (l : Lease). text_eq l.run_id run_id && text_eq l.lease_id lease_id)) h
      ∙ gone run_id lease_id before.leases in
    (no_rows, rw none_left refl)

-- A lease is acknowledged once: after an acknowledgement that succeeded, every other one with the
-- lease is refused, whatever it says, and changes nothing.
pub acknowledge-once :
    (now now' : Time) (run_id run_id' lease_id core_task_id core_task_id' : Text)
    (status status' error error' : Text) (db db' : Tables)
    → acknowledge now run_id lease_id core_task_id status error db ≡ (db', answer true)
    → (e : SchedulerError) × (acknowledge now' run_id' lease_id core_task_id' status' error' db'
        ≡ (db', refused e))
unfolding acknowledge
acknowledge-once now now' run_id run_id' lease_id core_task_id core_task_id' status status' error
      error' db db' h =
    elim (Bool-cases (is_blank run_id || is_blank lease_id)) [
      | inl e ↦ absurd (ground (arith, e, h))
      | inr e ↦
          let inner = rw e at h in
          let left =
            acknowledge_as-leases now (trim_space run_id) (trim_space lease_id)
              (trim_space core_task_id) (trim_space error) db db'
              (run_status_of (to_lower (trim_space status))) inner in
          elim (Bool-cases (is_blank run_id' || is_blank lease_id)) [
            | inl e' ↦ (missing_ids, rw e' refl)
            | inr e' ↦ rw e' (
                acknowledge_as-refused now' (trim_space run_id') (trim_space lease_id)
                  (trim_space core_task_id') (trim_space error') db db'
                  (run_status_of (to_lower (trim_space status'))) left)
          ]
    ]
