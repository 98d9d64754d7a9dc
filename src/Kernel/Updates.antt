-- ===== src/Kernel/Updates.antt =====
-- What one call leaves of the tasks in the database (internal/kernel/repository_task.go).
use auto_ze_agent.Common.{
  List, Option, Text, ap, arith, false, find_row, find_row-update_rows, find_row_key, if◌then◌else◌,
  none, refl, some, subst, text_eq, text_eq_comm, text_eq_refl, true, u64, update_rows, updated_row,
  ℕ, ◌&&◌, ◌+◌, ◌<◌, ◌==◌, ◌∙◌, ◌≡◌,
}
use auto_ze_agent.Kernel.Task
use auto_ze_agent.Kernel.Task.{Task, TaskState}
use auto_ze_agent.Kernel.Store.{Db, committed, scan_task, get_task, written, at_version}
use auto_ze_agent.Kernel.Histories.{Change, run_change, requested, run_change_sound}

-- A stored row that a change rewrote reads as the task after the transition.
pub scan_task-written :
    (c : Change) (row : Task) → scan_task (written (requested c row).0 row) ≡ (requested c row).0
unfolding scan_task Task.transition
scan_task-written c row = ground arith

pub requested_version :
    (c : Change) (row : Task)
    → (requested c row).1 ≡ none
    → (requested c row).0.version ≡ u64 (row.version + 1)
unfolding scan_task Task.transition
requested_version c row h = ground arith

updated_here :
    (id : Text) (expected : ℕ) (t r : Task) (rows rows' : List Task)
    → find_row Task.id id rows ≡ some r
    → r.version ≡ expected
    → rows' ≡ (update_rows (at_version r.id expected) (written t) rows).0
    → find_row Task.id id rows' ≡ some (written t r)
updated_here id expected t r rows rows' found version e =
    let moved =
      find_row-update_rows Task.id id (at_version r.id expected) (written t) rows (λ x. refl) in
    let here : at_version r.id expected r ≡ true = ground (arith, text_eq_refl r.id) in
    ap (find_row Task.id id) e
    ∙ moved
    ∙ ap (updated_row (at_version r.id expected) (written t)) found
    ∙ ap (λ b. some (if b then written t r else r)) here

updated_elsewhere :
    (id id' : Text) (expected : ℕ) (t r row : Task) (rows rows' : List Task)
    → text_eq id' id ≡ false
    → find_row Task.id id' rows ≡ some r
    → find_row Task.id id rows ≡ some row
    → rows' ≡ (update_rows (at_version r.id expected) (written t) rows).0
    → find_row Task.id id rows' ≡ some row
updated_elsewhere id id' expected t r row rows rows' other found' found e =
    let moved =
      find_row-update_rows Task.id id (at_version r.id expected) (written t) rows (λ x. refl) in
    let here = find_row_key Task.id id' rows r found' in
    let there = find_row_key Task.id id rows row found in
    let apart : text_eq row.id r.id ≡ false =
      ap (λ i. text_eq i r.id) there ∙ ap (text_eq id) here ∙ text_eq_comm id id' ∙ other in
    let skipped : at_version r.id expected row ≡ false =
      ap (λ b. b && (row.version == expected)) apart in
    ap (find_row Task.id id) e
    ∙ moved
    ∙ ap (updated_row (at_version r.id expected) (written t)) found
    ∙ ap (λ b. some (if b then written t row else row)) skipped

module _ (compact : Text → Option Text) (encode : TaskState → TaskState → Text → Text) where
  -- What the transaction leaves at the task that it names.
  pub change_same :
      (c : Change) (db db' : Db) (u row : Task)
      → get_task c.id db ≡ some row
      → run_change compact encode c db ≡ committed db' u
      → (get_task c.id db' ≡ some (written (requested c row).0 row))
        × ((requested c row).1 ≡ none)
        × (row.version ≡ c.expected)
        × ((requested c row).0.version < 9223372036854775808)
  unfolding get_task
  change_same c db db' u row found h =
      let (r, found', version, clean, low, tasks) = run_change_sound compact encode c db db' u h in
      let e : r ≡ row = cc in
      let new =
        updated_here c.id c.expected (requested c r).0 r db.tasks db'.tasks found' version tasks in
      subst
        (λ x.
          (get_task c.id db' ≡ some (written (requested c x).0 x))
          × ((requested c x).1 ≡ none)
          × (x.version ≡ c.expected)
          × ((requested c x).0.version < 9223372036854775808))
        e (new, clean, version, low)

  pub change_other :
      (id : Text) (c : Change) (db db' : Db) (u row : Task)
      → text_eq c.id id ≡ false
      → get_task id db ≡ some row
      → run_change compact encode c db ≡ committed db' u
      → get_task id db' ≡ some row
  unfolding get_task
  change_other id c db db' u row other found h =
      let (r, found', version, clean, low, tasks) = run_change_sound compact encode c db db' u h in
      updated_elsewhere id c.id c.expected (requested c r).0 r row db.tasks db'.tasks other found'
        found tasks
