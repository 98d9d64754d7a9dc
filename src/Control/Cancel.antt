-- ===== src/Control/Cancel.antt =====
-- What a cancel leaves (internal/taskcontrol/service.go).
use auto_ze_agent.Common.{
  Bool, Bool-cases, false, List, Option, Text, arith, inl, inr, is_blank, none, refl, some, subst,
  sym, text_eq, trim_space, true, ℕ, ◌==◌, ◌||◌, ◌≡◌, ◌⊎◌, ap, ◌∙◌,
}
use auto_ze_agent.Kernel.Base.{Time}
use auto_ze_agent.Kernel.Task.{Task, TaskState, cancelled}
use auto_ze_agent.Kernel.Task as Kernel
use auto_ze_agent.Kernel.Store.{
  Db, Done, StoreError, cancel_task, committed, get_task, rolled_back, transition_task, written,
}
use auto_ze_agent.Kernel.Histories.{Change, requested, run_change, run_change_sound}
use auto_ze_agent.Kernel.Updates.{change_same}
use auto_ze_agent.Approval.Match.{Grant}
use auto_ze_agent.Approval.Grant.{GrantError, Outcome, find_grant, revoke_task_grants}
use auto_ze_agent.Approval.Grant as Grants
use auto_ze_agent.Approval.Ops.{Op, count_granted}
use auto_ze_agent.Approval.History.{run_ops-revoked}
use auto_ze_agent.Approval.Revocation.{revoke_task_grants-revoked}
use auto_ze_agent.Control.{
  Answer, TaskActionRequest, World, after_change, applied, cancel, classify_task_action_error,
  control_task, control_trimmed, interrupt, not_revoked, revoked, refused, code_invalid_request,
}

Done-cases :
    (d : Done Task)
    → ((e : StoreError) × (d ≡ rolled_back e)) ⊎ ((db : Db) × ((t : Task) × (d ≡ committed db t)))
Done-cases (rolled_back e) = inl (e, refl)
Done-cases (committed db t) = inr (db, (t, refl))

abbrev world_of : World × Answer → World
world_of q = q.0

abbrev answer_of : World × Answer → Answer
answer_of q = q.1

classify-applied : (e : StoreError) (t : Task) → classify_task_action_error e ≡ applied t → ⊥
unfolding classify_task_action_error
classify-applied e t h = ground arith

revoked-applied :
    (t t' : Task) (w w' : World) (o : Outcome)
    → revoked t w o ≡ (w', applied t')
    → (o ≡ Grants.committed w'.grants) × (w'.db ≡ w.db)
unfolding revoked
revoked-applied t t' w w' (Grants.committed grants) h =
    let same : record w { grants = grants } ≡ w' = ap world_of h in
    (ap (λ (x : World). Grants.committed x.grants) same, sym (ap World.db same))
revoked-applied t t' w w' (Grants.rolled_back e) h =
    let clash : not_revoked t e ≡ applied t' = ap answer_of h in absurd (cc)

interrupt-db : (has_chat : Bool) (id : Text) (w : World) → (interrupt has_chat id w).db ≡ w.db
unfolding interrupt
interrupt-db true id w = refl
interrupt-db false id w = refl

transition-state :
    (c : Change) (row : Task)
    → (requested c row).1 ≡ none
    → (requested c row).0.state ≡ c.request.to
unfolding Kernel.transition
transition-state c row h = ground (arith, h)

module _ (compact : Text → Option Text) (encode : TaskState → TaskState → Text → Text)
    (appends : Grant → Bool) (has_chat : Bool) where
  -- A cancel as a change of the task.
  abbrev cancel_change : Text → ℕ → Text → Time → Change
  cancel_change id expected reason now = record {
    id = id;
    expected = expected;
    reason = reason;
    request = record { clock = now; to = cancelled; now = now };
  }

  cancel_task-cancelled :
      (id : Text) (expected : ℕ) (reason : Text) (now : Time) (db db' : Db) (t : Task)
      → cancel_task compact encode now id expected reason now db ≡ committed db' t
      → (row : Task) × ((get_task id db' ≡ some row) × (row.state ≡ cancelled))
  cancel_task-cancelled id expected reason now db db' t h =
      let c = cancel_change id expected reason now in
      let run : run_change compact encode c db ≡ committed db' t =
        unfold run_change in
        unfold cancel_task in unfold transition_task in unfold Kernel.cancel in h in
      let (r, found, v, c1, l, ts) = run_change_sound compact encode c db db' t run in
      let (new, clean, v2, l2) = change_same compact encode c db db' t r found run in
      (written (requested c r).0 r, (new, transition-state c r clean))

  after_cancel :
      (id : Text) (later : Time) (w w' : World) (t : Task) (d : Done Task)
      → after_change compact encode appends has_chat cancel id later w d ≡ (w', applied t)
      → (db : Db) × ((u : Task) × ((d ≡ committed db u)
            × ((revoke_task_grants appends later id later w.grants ≡ Grants.committed w'.grants)
                × (w'.db ≡ db))))
  unfolding after_change
  after_cancel id later w w' t (rolled_back e) h = absurd (classify-applied e t (ap answer_of h))
  after_cancel id later w w' t (committed db u) h =
      let (grants, same) = revoked-applied u t _ w' _ h in
      (db, (u, (refl, (grants, same ∙ interrupt-db has_chat id (record w { db = db })))))

  -- What a cancel leaves of the task.
  abbrev pub IsCancelled : Text → World → Type 0
  IsCancelled id w = (row : Task) × ((get_task id w.db ≡ some row) × (row.state ≡ cancelled))

  -- Whether a grant was found, and the task of this ID had it.
  abbrev pub is_granted_to : Text → Option Grant → Bool
  is_granted_to id none = false
  is_granted_to id (some g) = text_eq g.task_id id

  no_use_left :
      (id grant_id : Text) (later : Time) (before after : List Grant) (ops : List Op)
      (found : Option Grant)
      → revoke_task_grants appends later id later before ≡ Grants.committed after
      → find_grant grant_id before ≡ found
      → (is_granted_to id found ≡ false) ⊎ (count_granted grant_id ops after ≡ 0)
  no_use_left id grant_id later before after ops none r h = inl refl
  no_use_left id grant_id later before after ops (some g) r h =
      elim (Bool-cases (text_eq g.task_id id)) [
        | inl mine ↦
            inr
              (run_ops-revoked grant_id ops after (
                revoke_task_grants-revoked appends later id later before after grant_id g r h
                  mine)).0
        | inr other ↦ inl other
      ]

  control_cancel :
      (id : Text) (expected : ℕ) (reason : Text) (now later : Time) (w w' : World) (t : Task)
      (grant_id : Text) (ops : List Op)
      → control_trimmed compact encode appends has_chat cancel id expected reason now later w
        ≡ (w', applied t)
      → IsCancelled id w'
        × ((is_granted_to id (find_grant grant_id w.grants) ≡ false)
            ⊎ (count_granted grant_id ops w'.grants ≡ 0))
  unfolding control_trimmed
  control_cancel id expected reason now later w w' t grant_id ops h =
      let (db, (u, (done, (grants, same)))) = after_cancel id later w w' t _ h in
      (
        subst (λ (x : Db). (row : Task) × ((get_task id x ≡ some row) × (row.state ≡ cancelled)))
            (sym same) (cancel_task-cancelled id expected reason now w.db db u done),
        no_use_left id grant_id later w.grants w'.grants ops _ grants refl,
      )

  -- A cancel that is applied leaves the task cancelled, whether or not the task has grants, and a
  -- grant either was none of this task's before the cancel, or no history of calls on the grants
  -- authorises a use of it any more.
  pub control_task-IsCancelled :
      (r : TaskActionRequest) (now later : Time) (w w' : World) (t : Task) (grant_id : Text)
      (ops : List Op)
      → r.action ≡ cancel
      → control_task compact encode appends has_chat r now later w ≡ (w', applied t)
      → IsCancelled (trim_space r.task_id) w'
        × ((is_granted_to (trim_space r.task_id) (find_grant grant_id w.grants) ≡ false)
            ⊎ (count_granted grant_id ops w'.grants ≡ 0))
  unfolding control_task
  control_task-IsCancelled r now later w w' t grant_id ops a h =
      elim (Bool-cases (is_blank r.task_id || (r.expected_version == 0))) [
        | inl e ↦ absurd (refuses t (ap answer_of (rw e at h)))
        | inr e ↦
            control_cancel (trim_space r.task_id) r.expected_version (trim_space r.reason) now later
              w w' t grant_id ops
              (subst
                (λ x.
                  control_trimmed compact encode appends has_chat x (trim_space r.task_id)
                    r.expected_version (trim_space r.reason) now later w
                  ≡ (w', applied t))
                a (rw e at h))
      ]
    where
      refuses : (t : Task) → refused code_invalid_request ≡ applied t → ⊥
      refuses t h = absurd (cc)
