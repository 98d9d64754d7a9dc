-- ===== src/Kernel/Follows.antt =====
-- The stored task against the task in memory (internal/kernel/repository_task.go, model.go).
use auto_ze_agent.Common.{
  Bool-cases, List, Option, Text, [], false, inl, inr, length, none, refl, some, subst, suc, sym,
  text_eq, text_eq_iff, true, ◌∷◌, ◌≡◌,
}
use auto_ze_agent.Kernel.Task.{Task, TaskState}
use auto_ze_agent.Kernel.Store.{
  StoreError, Db, Done, committed, rolled_back, scan_task, get_task, written,
}
use auto_ze_agent.Kernel.Lifecycle.{TaskRequest, run_task}
use auto_ze_agent.Kernel.Histories.{
  committed_requests, Change, after_done, run_change, run_changes, requested,
}
use auto_ze_agent.Kernel.Updates.{scan_task-written, change_same, change_other}

module _ (compact : Text → Option Text) (encode : TaskState → TaskState → Text → Text) where
  run_task-run_change :
      (c : Change) (row : Task) (qs : List TaskRequest)
      → (requested c row).1 ≡ none
      → (t : Task) → run_task (scan_task (written (requested c row).0 row)) qs ≡ (t, length qs)
      → run_task (scan_task row) (c.request ∷ qs) ≡ (t, suc (length qs))
  unfolding run_task
  run_task-run_change c row qs clean t h =
      let h' = subst (λ x. run_task x qs ≡ (t, length qs)) (scan_task-written c row) h in
      rw (clean, h') refl

  -- How the stored row and the committed requests agree.
  abbrev Follows : Text → List Change → Db → Task → Type 0
  Follows id cs db row =
      (row' : Task) × (get_task id (run_changes compact encode cs db) ≡ some row')
      × (run_task (scan_task row) (committed_requests compact encode id cs db)
          ≡ (scan_task row', length (committed_requests compact encode id cs db)))

  Follows-none :
      (id : Text) (db : Db) (row : Task) → get_task id db ≡ some row → Follows id [] db row
  unfolding run_changes committed_requests run_task
  Follows-none id db row found = (row, found, refl)

  Follows-rolled_back :
      (id : Text) (c : Change) (cs : List Change) (db : Db) (row : Task) (e : StoreError)
      → run_change compact encode c db ≡ rolled_back e
      → Follows id cs db row
      → Follows id (c ∷ cs) db row
  unfolding run_changes committed_requests after_done
  Follows-rolled_back id c cs db row e h f = rw h f

  Follows-other :
      (id : Text) (c : Change) (cs : List Change) (db db' : Db) (u row : Task)
      → run_change compact encode c db ≡ committed db' u
      → text_eq c.id id ≡ false
      → Follows id cs db' row
      → Follows id (c ∷ cs) db row
  unfolding run_changes committed_requests after_done
  Follows-other id c cs db db' u row h other f = rw (h, other) f

  Follows-same :
      (id : Text) (c : Change) (cs : List Change) (db db' : Db) (u row : Task)
      → run_change compact encode c db ≡ committed db' u
      → text_eq c.id id ≡ true
      → (requested c row).1 ≡ none
      → Follows id cs db' (written (requested c row).0 row)
      → Follows id (c ∷ cs) db row
  unfolding run_changes committed_requests after_done
  Follows-same id c cs db db' u row h same clean (row', found, f) =
      rw (h, same)
        (
          row',
          found,
          run_task-run_change c row (committed_requests compact encode id cs db') clean
              (scan_task row') f,
        )

  -- In every sequence of calls the stored task moves as a task in memory does under the requests
  -- that were committed at it, and each of these is accepted.
  pub run_changes-run_task :
      (id : Text) (cs : List Change) (db : Db) (row : Task)
      → get_task id db ≡ some row
      → (row' : Task) × (get_task id (run_changes compact encode cs db) ≡ some row')
        × (run_task (scan_task row) (committed_requests compact encode id cs db)
            ≡ (scan_task row', length (committed_requests compact encode id cs db)))
  run_changes-run_task id [] db row found = Follows-none id db row found
  run_changes-run_task id (c ∷ cs) db row found =
      by_outcome (λ db' r g. run_changes-run_task id cs db' r g) (run_change compact encode c db)
        refl
    where
      by_outcome :
          ((db' : Db) (r : Task) → get_task id db' ≡ some r → Follows id cs db' r)
          → (d : Done Task) → run_change compact encode c db ≡ d
          → Follows id (c ∷ cs) db row
      by_outcome later (rolled_back e) h =
          Follows-rolled_back id c cs db row e h (later db row found)
      by_outcome later (committed db' u) h = elim (Bool-cases (text_eq c.id id)) [
        | inl same ↦
            let e = (text_eq_iff c.id id).0 same in
            let (new, clean, _, _) =
              change_same compact encode c db db' u row
                (subst (λ i. get_task i db ≡ some row) (sym e) found) h in
            Follows-same id c cs db db' u row h same clean (
              later db' (written (requested c row).0 row)
                (subst (λ i. get_task i db' ≡ some (written (requested c row).0 row)) e new))
        | inr other ↦
            Follows-other id c cs db db' u row h other
              (later db' row (change_other compact encode id c db db' u row other found h))
      ]
