-- ===== src/Approval/History.antt =====
-- Histories of calls on the table of grants (internal/approval/grant.go).
use auto_ze_agent.Common.{
  Bool, Bool-cases, List, Option, Text, [], arith, false, if◌then◌else◌, inl, inr, is_blank,
  keep_if, map, refl, some, subst, text_eq, text_eq_iff, text_eq_refl, true, ◌&&◌, ◌+◌, ◌∷◌, ◌≡◌,
  ◌≢◌, ◌≤◌,
}
use auto_ze_agent.Kernel.Base.{Time, normalized_time}
use auto_ze_agent.Approval.Match.{Grant, GrantRequest}
use auto_ze_agent.Approval.Grant.{
  Outcome, committed, rolled_back, find_grant, update_where, load_grant, is_active, revocable,
  revoke_at, revoke_grant, revoke_one, revoke_all, revoke_task_grants,
}
use auto_ze_agent.Approval.Consumption.{
  Consumed, find_grant-update_where, find_grant_id, authorize_and_consume_sound, find_grant-consume,
  find_grant-consume_other, load_grant_sound,
}
use auto_ze_agent.Approval.Ops.{
  Op, authorizes, revokes, revokes_task, run_op, settled, granted, run_ops, count_granted,
  calls_used, calls_max, is_revoked,
}
use auto_ze_agent.Approval.Progress.{
  Progress, Progress-refl, Progress-trans, update_where-Progress, revoke_loaded_committed,
  revoke_one_committed,
}

module _ (id : Text) where
  committed-Progress :
      (i : Text) (now : Time) (gs after : List Grant)
      → after ≡ (update_where (revocable i) (revoke_at now) gs).0
      → Progress (find_grant id gs) (find_grant id after) 0
  committed-Progress i now gs after e = rw e (update_where-Progress id i now gs)

  pub revoke_all-Progress :
      (appends : Grant → Bool) (now : Time) (ids : List Text) (gs after : List Grant)
      → revoke_all appends now ids (committed gs) ≡ committed after
      → Progress (find_grant id gs) (find_grant id after) 0
  unfolding revoke_all
  revoke_all-Progress appends now [] gs after h =
      let e : gs ≡ after = ground arith in rw e (Progress-refl (find_grant id after))
  revoke_all-Progress appends now (i ∷ ids) gs after h =
      by_first (revoke_one appends now i (load_grant i gs) gs) refl
        (λ next k. revoke_all-Progress appends now ids next after k) h
    where
      by_first :
          (o : Outcome)
          → revoke_one appends now i (load_grant i gs) gs ≡ o
          → ((next : List Grant)
              → revoke_all appends now ids (committed next) ≡ committed after
              → Progress (find_grant id next) (find_grant id after) 0)
          → revoke_all appends now ids o ≡ committed after
          → Progress (find_grant id gs) (find_grant id after) 0
      by_first (rolled_back e) k further h = absurd (cc)
      by_first (committed next) k further h =
          Progress-trans (find_grant id gs) (find_grant id next) (find_grant id after)
            (committed-Progress i now gs next (revoke_one_committed appends now i _ gs next k))
            (further next h)

  pub Consumed-Progress :
      (contains : Text → Text → Bool) (lower : Text → Text) (plans : Text → Option (Text × Text))
      (now : Time) (request : GrantRequest) (gs after : List Grant)
      → Consumed contains lower plans now request gs after
      → Progress
          (find_grant id gs)
          (find_grant id after)
          (if text_eq request.grant_id id then 1 else 0)
  Consumed-Progress contains lower plans now request gs after (g, found, permits, new) =
      elim (Bool-cases (text_eq request.grant_id id)) [
        | inl e ↦
            let same = (text_eq_iff request.grant_id id).0 e in
            let here = subst (λ i. find_grant i gs ≡ some g) same found in
            rw (e, new, find_grant-consume id g gs here permits.2 permits.0, here)
              (refl, refl, λ l. omega (arith, permits.2), λ r. absurd (ground (arith, permits.0)))
        | inr e ↦
            let other : g.id ≢ id =
              λ k. ground (arith, e, text_eq_iff request.grant_id id, find_grant_id _ gs g found) in
            rw (e, new, find_grant-consume_other id g gs other) (Progress-refl (find_grant id gs))
      ]

  pub run_op-Progress :
      (op : Op) (gs : List Grant) (o : Outcome)
      → run_op op gs ≡ o
      → Progress (find_grant id gs) (find_grant id (settled gs o)) (granted id op o)
  unfolding run_op settled granted revoke_grant revoke_task_grants
  run_op-Progress (authorizes contains lower plans clock request) gs (rolled_back e) h =
      Progress-refl (find_grant id gs)
  run_op-Progress (revokes appends clock i now) gs (rolled_back e) h =
      Progress-refl (find_grant id gs)
  run_op-Progress (revokes_task appends clock task now) gs (rolled_back e) h =
      Progress-refl (find_grant id gs)
  run_op-Progress (authorizes contains lower plans clock request) gs (committed after) h =
      Consumed-Progress contains lower plans (normalized_time clock request.now) request gs after
        (authorize_and_consume_sound contains lower plans clock request gs after h)
  run_op-Progress (revokes appends clock i now) gs (committed after) h =
      let (g, found, active, new) =
        revoke_loaded_committed appends (normalized_time clock now) (load_grant i gs) gs after h in
      committed-Progress g.id (normalized_time clock now) gs after new
  run_op-Progress (revokes_task appends clock task now) gs (committed after) h =
      elim (Bool-cases (is_blank task)) [
        | inl e ↦ absurd (ground (arith, e))
        | inr e ↦
            let all = map Grant.id (keep_if (λ g. text_eq g.task_id task && is_active g) gs) in
            revoke_all-Progress appends (normalized_time clock now) all gs after (ground (arith, e))
      ]

  run_ops-Progress :
      (ops : List Op) (gs : List Grant)
      → Progress (find_grant id gs) (find_grant id (run_ops ops gs)) (count_granted id ops gs)
  unfolding run_ops count_granted
  run_ops-Progress [] gs = Progress-refl (find_grant id gs)
  run_ops-Progress (op ∷ ops) gs =
      let next = settled gs (run_op op gs) in
      Progress-trans (find_grant id gs) (find_grant id next) (find_grant id (run_ops ops next))
        (run_op-Progress op gs (run_op op gs) refl) (run_ops-Progress ops next)

-- Over every history of authorisations and revocations, a grant's counter goes up by exactly the
-- authorised uses, so a counter within the maximum stays within it.
pub run_ops-bounded :
    (id : Text) (ops : List Op) (gs : List Grant)
    → (calls_used (find_grant id (run_ops ops gs))
        ≡ calls_used (find_grant id gs) + count_granted id ops gs)
      × (calls_used (find_grant id gs) ≤ calls_max (find_grant id gs)
          → calls_used (find_grant id gs) + count_granted id ops gs ≤ calls_max (find_grant id gs))
run_ops-bounded id ops gs =
    let (u, x, l, r) = run_ops-Progress id ops gs in (u, λ h. omega (arith, u, x, l h))

-- Over every history, a revoked grant stays revoked, and no call is authorised on it again.
pub run_ops-revoked :
    (id : Text) (ops : List Op) (gs : List Grant)
    → is_revoked (find_grant id gs) ≡ true
    → (count_granted id ops gs ≡ 0) × (is_revoked (find_grant id (run_ops ops gs)) ≡ true)
run_ops-revoked id ops gs h = (run_ops-Progress id ops gs).3 h

-- A committed `RevokeGrant` found the grant unrevoked and leaves it revoked.
pub revoke_grant-revoked :
    (appends : Grant → Bool) (clock : Time) (id : Text) (now : Time) (gs after : List Grant)
    → revoke_grant appends clock id now gs ≡ committed after
    → (is_revoked (find_grant id gs) ≡ false) × (is_revoked (find_grant id after) ≡ true)
unfolding revoke_grant
revoke_grant-revoked appends clock id now gs after h =
    let t = normalized_time clock now in
    let (g, loaded, active, new) =
      revoke_loaded_committed appends t (load_grant id gs) gs after h in
    let found = load_grant_sound id gs g loaded in
    let same = find_grant_id id gs g found in
    let hit : revocable g.id g ≡ true = unfold revocable in rw (text_eq_refl g.id) active in
    rw (new, find_grant-update_where id (revocable g.id) (revoke_at t) gs (λ x. refl), found, hit)
      (ground (arith, active), refl)
