-- ===== src/Kernel/Histories.antt =====
-- Histories of calls on the tasks in the database (internal/kernel/repository_task.go).
use auto_ze_agent.Common.{
  Bool, Bool-cases, List, Option, Text, [], arith, false, if◌then◌else◌, inl, inr, none, refl, some,
  subst, text_eq, true, update_rows, ℕ, ◌&&◌, ◌<◌, ◌==◌, ◌∷◌, ◌≡◌,
}
use auto_ze_agent.Kernel.Base.{Time, Error}
use auto_ze_agent.Kernel.Task
use auto_ze_agent.Kernel.Task.{Task, TaskState}
use auto_ze_agent.Kernel.Store.{
  Db, Done, committed, rolled_back, commit_reply, scan_task, get_task, written, at_version,
  state_changed, write_change, change_found, change_task, transition_task,
}
use auto_ze_agent.Kernel.Lifecycle.{TaskRequest}
use auto_ze_agent.Events.Store.{Log, Reply, stored, append}

-- A call of `TransitionTask`, or of `CancelTask` where it asks for the state cancelled.
pub record Change : Type 0 where
  pub id : Text
  pub expected : ℕ
  pub reason : Text
  pub request : TaskRequest

-- The database after the transaction.
unfoldable pub after_done {ℓ} : {A : Type ℓ} → Db → Done A → Db
after_done db (committed db' a) = db'
after_done db (rolled_back e) = db

abbrev pub is_committed {ℓ} : {A : Type ℓ} → Done A → Bool
is_committed (committed db a) = true
is_committed (rolled_back e) = false

module _ (compact : Text → Option Text) (encode : TaskState → TaskState → Text → Text) where
  unfoldable pub run_change : Change → Db → Done Task
  run_change c db =
      transition_task compact encode c.request.clock c.id c.expected c.request.to c.reason
        c.request.now db

  unfoldable pub run_changes : List Change → Db → Db
  run_changes [] db = db
  run_changes (c ∷ cs) db = run_changes cs (after_done db (run_change c db))

  -- The requests at one task that were committed.
  unfoldable pub committed_requests : Text → List Change → Db → List TaskRequest
  committed_requests id [] db = []
  committed_requests id (c ∷ cs) db =
      let rest = committed_requests id cs (after_done db (run_change c db)) in
      if is_committed (run_change c db) && text_eq c.id id then c.request ∷ rest else rest

commit_reply_tasks :
    (db db' : Db) (t u : Task) (r : Log × Reply)
    → commit_reply db t r ≡ committed db' u
    → (db'.tasks ≡ db.tasks) × (t ≡ u)
unfolding commit_reply
commit_reply_tasks db db' t u (log, stored e) h = (ground arith, ground arith)
commit_reply_tasks db db' t u (log, Reply.invalid_event) h = absurd (cc)
commit_reply_tasks db db' t u (log, Reply.event_id_conflict) h = absurd (cc)
commit_reply_tasks db db' t u (log, Reply.append_failed) h = absurd (cc)

-- What the request makes of the row that is stored.
abbrev pub requested : Change → Task → Task × Option Error
requested c row = Task.transition c.request.clock c.request.to c.request.now (scan_task row)

-- What a committed change found and wrote.
abbrev pub Changed : Change → Db → Db → Type 0
Changed c db db' =
    (row : Task) × (get_task c.id db ≡ some row)
    × (row.version ≡ c.expected)
    × ((requested c row).1 ≡ none)
    × ((requested c row).0.version < 9223372036854775808)
    × (db'.tasks
        ≡ (update_rows (at_version row.id c.expected) (written (requested c row).0) db.tasks).0)

pub requested_id : (c : Change) (row : Task) → (requested c row).0.id ≡ row.id
unfolding Task.transition scan_task
requested_id c row = ground arith

module _ (compact : Text → Option Text) (encode : TaskState → TaskState → Text → Text) where
  write_change_sound :
      (clock : Time) (previous : TaskState) (reason : Text) (expected : ℕ) (db db' : Db)
      (t u : Task) (e : Option Error)
      → write_change compact encode clock previous reason expected db (t, e) ≡ committed db' u
      → (e ≡ none)
        × (t.version < 9223372036854775808)
        × (db'.tasks ≡ (update_rows (at_version t.id expected) (written t) db.tasks).0)
  unfolding write_change
  write_change_sound clock previous reason expected db db' t u (some e) h = absurd (cc)
  write_change_sound clock previous reason expected db db' t u none h =
      let up = update_rows (at_version t.id expected) (written t) db.tasks in
      let reply = append compact clock (state_changed compact encode previous reason t) db.log in
      let low : t.version < 9223372036854775808 = ground arith in
      let inner : commit_reply (record db { tasks = up.0 }) t reply ≡ committed db' u =
        ground (arith, low) in
      (refl, low, (commit_reply_tasks (record db { tasks = up.0 }) db' t u reply inner).0)

  change_found_sound :
      (c : Change) (db db' : Db) (u : Task) (found : Option Task)
      → change_found compact encode c.request.clock c.expected c.reason
          (Task.transition c.request.clock c.request.to c.request.now)
          db
          found
        ≡ committed db' u
      → (row : Task) × (found ≡ some row)
        × (row.version ≡ c.expected)
        × ((requested c row).1 ≡ none)
        × ((requested c row).0.version < 9223372036854775808)
        × (db'.tasks
            ≡ (update_rows (at_version row.id c.expected) (written (requested c row).0) db.tasks).0)
  unfolding change_found
  change_found_sound c db db' u none h = absurd (cc)
  change_found_sound c db db' u (some row) h = elim (Bool-cases (row.version == c.expected)) [
    | inr e ↦ absurd (ground (arith, e, h))
    | inl e ↦
        let inner : write_change compact encode c.request.clock row.state c.reason c.expected db
              (requested c row)
            ≡ committed db' u =
          ground (arith, e, h) in
        let (clean, low, tasks) =
          write_change_sound c.request.clock row.state c.reason c.expected db db'
            (requested c row).0 u (requested c row).1 inner in
        (
          row,
          refl,
          ground (arith, e),
          clean,
          low,
          subst
              (λ i.
                db'.tasks
                ≡ (update_rows (at_version i c.expected) (written (requested c row).0) db.tasks).0)
              (requested_id c row) tasks,
        )
  ]

  -- A change that is committed found the task under the version it expects.
  pub run_change_sound :
      (c : Change) (db db' : Db) (u : Task)
      → run_change compact encode c db ≡ committed db' u
      → Changed c db db'
  unfolding run_change transition_task change_task
  run_change_sound c db db' u h = change_found_sound c db db' u (get_task c.id db) h
