-- ===== src/Approval/Revocation.antt =====
-- What `RevokeTaskGrants` does to the grants of its task (internal/approval/grant.go).
use auto_ze_agent.Common.{
  Bool, Bool-cases, List, Option, Option-cases, Text, [], any, ap, arith, inl, inr, is_blank,
  is_some, keep_if, map, none, refl, some, subst, sym, text_eq, text_eq_iff, true, ◌&&◌, ◌∙◌, ◌∷◌,
  ◌≡◌, ◌⊎◌, not,
}
use auto_ze_agent.Kernel.Base.{Time, normalized_time}
use auto_ze_agent.Approval.Match.{Grant}
use auto_ze_agent.Approval.Grant.{
  GrantError, Outcome, committed, find_grant, is_active, load_grant, revocable, revoke_all,
  revoke_at, revoke_one, revoke_task_grants, rolled_back, update_where,
}
use auto_ze_agent.Approval.Consumption.{find_grant-update_where, find_grant_id, updated}
use auto_ze_agent.Approval.Ops.{is_revoked}
use auto_ze_agent.Approval.Progress.{revoke_one_committed}
use auto_ze_agent.Approval.History.{revoke_all-Progress}

Outcome-cases :
    (o : Outcome)
    → ((e : GrantError) × (o ≡ rolled_back e)) ⊎ ((gs : List Grant) × (o ≡ committed gs))
Outcome-cases (rolled_back e) = inl (e, refl)
Outcome-cases (committed gs) = inr (gs, refl)

module _ (appends : Grant → Bool) (now : Time) (id : Text) where
  -- The first round of the loop.
  revoke_all-first :
      (i : Text) (ids : List Text) (gs after : List Grant)
      → revoke_all appends now (i ∷ ids) (committed gs) ≡ committed after
      → (revoke_all appends now ids (committed (update_where (revocable i) (revoke_at now) gs).0)
          ≡ committed after)
  unfolding revoke_all
  revoke_all-first i ids gs after h =
      elim (Outcome-cases (revoke_one appends now i (load_grant i gs) gs)) [
        | inl (e, o) ↦
            absurd
              (stops e ids after (subst (λ q. revoke_all appends now ids q ≡ committed after) o h))
        | inr (next, o) ↦
            subst (λ n. revoke_all appends now ids (committed n) ≡ committed after)
              (revoke_one_committed appends now i (load_grant i gs) gs next o)
              (subst (λ q. revoke_all appends now ids q ≡ committed after) o h)
      ]
    where
      stops :
          (e : GrantError) (ids : List Text) (after : List Grant)
          → revoke_all appends now ids (rolled_back e) ≡ committed after
          → ⊥
      stops e [] after h = absurd (cc)
      stops e (i ∷ ids) after h = absurd (cc)

  -- The grant after the UPDATE for one ID.
  updated-revoked :
      (i : Text) (g : Grant)
      → text_eq g.id i ≡ true
      → is_revoked (updated (revocable i) (revoke_at now) (some g)) ≡ true
  unfolding revocable
  updated-revoked i g h = ground (arith, h)

  updated-there :
      (i : Text) (o : Option Grant)
      → is_some o ≡ true
      → is_some (updated (revocable i) (revoke_at now) o) ≡ true
  updated-there i none h = absurd (cc)
  updated-there i (some g) h = refl

  -- The loop revokes each grant that is there and whose ID it goes through.
  revoke_all-revoked :
      (ids : List Text) (gs after : List Grant)
      → any (λ i. text_eq i id) ids ≡ true
      → is_some (find_grant id gs) ≡ true
      → revoke_all appends now ids (committed gs) ≡ committed after
      → is_revoked (find_grant id after) ≡ true
  revoke_all-revoked [] gs after m s h = absurd (cc)
  revoke_all-revoked (i ∷ ids) gs after m s h =
      let next = (update_where (revocable i) (revoke_at now) gs).0 in
      let seen : find_grant id next ≡ updated (revocable i) (revoke_at now) (find_grant id gs) =
        find_grant-update_where id (revocable i) (revoke_at now) gs (λ x. refl) in
      let further = revoke_all-first i ids gs after h in
      elim (Bool-cases (text_eq i id)) [
        | inl e ↦ elim (Option-cases (find_grant id gs)) [
          | inl n ↦ absurd (ground (arith, n, s))
          | inr (g, f) ↦
              let same : text_eq g.id i ≡ true =
                (text_eq_iff g.id i).1 (find_grant_id id gs g f ∙ sym ((text_eq_iff i id).0 e)) in
              let now_revoked : is_revoked (find_grant id next) ≡ true =
                ap is_revoked (seen ∙ ap (updated (revocable i) (revoke_at now)) f)
                ∙ updated-revoked i g same in
              ((revoke_all-Progress id appends now ids next after further).3 now_revoked).1
        ]
        | inr e ↦
            revoke_all-revoked ids next after (ground (arith, m, e))
              (ap is_some seen ∙ updated-there i (find_grant id gs) s) further
      ]

  -- A grant that a test keeps is among the IDs.
  find_grant-kept :
      (p : Grant → Bool) (gs : List Grant) (g : Grant)
      → find_grant id gs ≡ some g
      → p g ≡ true
      → any (λ i. text_eq i id) (map Grant.id (keep_if p gs)) ≡ true
  unfolding find_grant
  find_grant-kept p [] g f h = absurd (cc)
  find_grant-kept p (x ∷ gs) g f h = elim (Bool-cases (text_eq x.id id)) [
    | inl e ↦ let same : p x ≡ true = ground (arith, e, f, h) in rw (same, e) refl
    | inr e ↦
        let rest = find_grant-kept p gs g (ground (arith, e, f)) h in
        elim (Bool-cases (p x)) [ inl k ↦ rw (k, e) rest | inr k ↦ rw k rest ]
  ]

-- A committed `RevokeTaskGrants` leaves every grant of the task that is there revoked.
pub revoke_task_grants-revoked :
    (appends : Grant → Bool) (clock : Time) (task : Text) (now : Time) (gs after : List Grant)
    (id : Text) (g : Grant)
    → revoke_task_grants appends clock task now gs ≡ committed after
    → find_grant id gs ≡ some g
    → text_eq g.task_id task ≡ true
    → is_revoked (find_grant id after) ≡ true
unfolding revoke_task_grants
revoke_task_grants-revoked appends clock task now gs after id g h f t =
    let at = normalized_time clock now in
    let mine = λ (x : Grant). text_eq x.task_id task && is_active x in
    let ids = map Grant.id (keep_if mine gs) in
    elim (Bool-cases (is_blank task)) [
      | inl e ↦ absurd (ground (arith, e))
      | inr e ↦
          let all : revoke_all appends at ids (committed gs) ≡ committed after =
            ground (arith, e) in
          elim (Bool-cases (is_active g)) [
            | inl a ↦
                revoke_all-revoked appends at id ids gs after
                  (find_grant-kept appends at id mine gs g f (ground (arith, t, a))) (ap is_some f)
                  all
            | inr a ↦
                ((revoke_all-Progress id appends at ids gs after all).3
                  (ap is_revoked f ∙ ap not a)).1
          ]
    ]
