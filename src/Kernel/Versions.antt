-- ===== src/Kernel/Versions.antt =====
-- Calls that compete for a version of a stored task (internal/kernel/repository_task.go).
use auto_ze_agent.Common.{
  Bool-cases, List, Option, Text, [], arith, false, inl, inr, refl, some, subst, sym, text_eq,
  text_eq_iff, ℕ, ◌<◌, ◌==◌, ◌∷◌, ◌≡◌,
}
use auto_ze_agent.Kernel.Base.{version_conflict}
use auto_ze_agent.Kernel.Task.{Task, TaskState}
use auto_ze_agent.Kernel.Store.{
  Db, kernel_error, Done, committed, rolled_back, get_task, written, change_found, change_task,
  transition_task,
}
use auto_ze_agent.Kernel.Histories.{
  Change, after_done, run_change, run_changes, requested, run_change_sound,
}
use auto_ze_agent.Kernel.Updates.{requested_version, change_same, change_other}

module _ (compact : Text → Option Text) (encode : TaskState → TaskState → Text → Text) where
  -- The stored version has passed `n`.
  abbrev Past : Text → ℕ → Db → Type 0
  Past id n db =
      (row : Task) × (get_task id db ≡ some row)
      × (n < row.version)
      × (row.version < 9223372036854775808)

  Past-committed :
      (c : Change) (db db' : Db) (u : Task)
      → c.expected < 9223372036854775808
      → run_change compact encode c db ≡ committed db' u
      → Past c.id c.expected db'
  Past-committed c db db' u small h =
      let (r, found, _, _, _, _) = run_change_sound compact encode c db db' u h in
      let (new, clean, version, low) = change_same compact encode c db db' u r found h in
      let next = requested_version c r clean in
      (written (requested c r).0 r, new, omega (arith, version, next, small), low)

  Past-after_done :
      (id : Text) (n : ℕ) (c : Change) (db : Db) (d : Done Task)
      → run_change compact encode c db ≡ d
      → Past id n db
      → Past id n (after_done db d)
  unfolding after_done
  Past-after_done id n c db (rolled_back e) h past = past
  Past-after_done id n c db (committed db' u) h (row, found, beyond, low) =
      elim (Bool-cases (text_eq c.id id)) [
        | inl same ↦
            let e = (text_eq_iff c.id id).0 same in
            let (new, clean, _, low') =
              change_same compact encode c db db' u row
                (subst (λ i. get_task i db ≡ some row) (sym e) found) h in
            let next = requested_version c row clean in
            (
              written (requested c row).0 row,
              subst (λ i. get_task i db' ≡ some (written (requested c row).0 row)) e new,
              omega (arith, next, beyond, low),
              low',
            )
        | inr other ↦
            (row, change_other compact encode id c db db' u row other found h, beyond, low)
      ]

  Past-run_changes :
      (id : Text) (n : ℕ) (cs : List Change) (db : Db)
      → Past id n db
      → Past id n (run_changes compact encode cs db)
  unfolding run_changes
  Past-run_changes id n [] db past = past
  Past-run_changes id n (c ∷ cs) db past =
      Past-run_changes id n cs (after_done db (run_change compact encode c db))
        (Past-after_done id n c db (run_change compact encode c db) refl past)

  Past-refused :
      (d : Change) (db : Db)
      → Past d.id d.expected db
      → run_change compact encode d db ≡ rolled_back (kernel_error version_conflict)
  unfolding run_change transition_task change_task change_found
  Past-refused d db (row, found, beyond, low) =
      let stale : (row.version == d.expected) ≡ false = ground (arith, beyond) in
      rw (found, stale) refl

  -- Of two calls that expect the same version of a task at most one is committed: after the first,
  -- and any calls between, the second is rolled back with a version conflict. The version fits an
  -- `int64`.
  pub run_change-no_lost_update :
      (c d : Change) (between : List Change) (db db' : Db) (u : Task)
      → c.expected < 9223372036854775808
      → d.id ≡ c.id
      → d.expected ≡ c.expected
      → run_change compact encode c db ≡ committed db' u
      → run_change compact encode d (run_changes compact encode between db')
        ≡ rolled_back (kernel_error version_conflict)
  run_change-no_lost_update c d between db db' u small i v h =
      let past = Past-run_changes c.id c.expected between db' (Past-committed c db db' u small h) in
      Past-refused d (run_changes compact encode between db') (
        subst (λ x. Past x d.expected (run_changes compact encode between db')) (sym i)
          (subst (λ x. Past c.id x (run_changes compact encode between db')) (sym v) past))
