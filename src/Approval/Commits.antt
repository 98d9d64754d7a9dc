-- ===== src/Approval/Commits.antt =====
-- When an authorisation commits (internal/approval/grant.go).
use auto_ze_agent.Common.{
  Bool, Bool-cases, List, Option, Text, [], arith, false, inl, inr, is_blank, keep_if, length, none,
  refl, some, subst, sym, text_eq, text_eq_iff, text_eq_refl, true, ◌↔◌, ◌∷◌, ◌≡◌, ◌≤◌,
}
use auto_ze_agent.Kernel.Base.{Time, normalized_time}
use auto_ze_agent.Kernel.Task.{task_state_text, running}
use auto_ze_agent.Approval.Match.{Grant, GrantRequest}
use auto_ze_agent.Approval.Grant.{
  committed, find_grant, update_where, load_grant, consumable, consume, check_plan, consume_checked,
  authorize_loaded, authorize_and_consume,
}
use auto_ze_agent.Approval.Consumption.{
  Permits, consumable_self, not_consumable, find_grant_id, authorize_and_consume_sound,
}

-- The ID is a key of the table: at most one row has it.
abbrev pub IsKey : Text → List Grant → Type 0
IsKey id gs = length (keep_if (λ g. text_eq g.id id) gs) ≤ 1

no_rows :
    (g : Grant) (gs : List Grant)
    → length (keep_if (λ x. text_eq x.id g.id) gs) ≡ 0
    → (update_where (consumable g) consume gs).1 ≡ 0
unfolding update_where
no_rows g [] h = refl
no_rows g (x ∷ gs) h = elim (Bool-cases (text_eq x.id g.id)) [
  | inl e ↦ absurd (omega (arith, rw e at h))
  | inr e ↦
      let other : consumable g x ≡ false =
        ground (arith, e, not_consumable g x, text_eq_refl g.id) in
      rw other (no_rows g gs (rw e at h))
]

one_row :
    (g : Grant) (gs : List Grant)
    → find_grant g.id gs ≡ some g
    → IsKey g.id gs
    → consumable g g ≡ true
    → (update_where (consumable g) consume gs).1 ≡ 1
unfolding update_where find_grant
one_row g [] h k c = absurd (cc)
one_row g (x ∷ gs) h k c = elim (Bool-cases (text_eq x.id g.id)) [
  | inl e ↦
      let same : x ≡ g = ground (arith, e) in
      let first : consumable g x ≡ true = rw same c in
      rw (first, no_rows g gs (omega (arith, rw e at k))) refl
  | inr e ↦
      let other : consumable g x ≡ false =
        ground (arith, e, not_consumable g x, text_eq_refl g.id) in
      rw other (one_row g gs (rw e at h) (rw e at k) c)
]

checked_commits :
    (r : Option (Text × Text)) (g : Grant) (gs : List Grant)
    → r ≡ some (g.plan_hash, task_state_text running)
    → (update_where (consumable g) consume gs).1 ≡ 1
    → consume_checked (check_plan r g) g gs ≡ committed (update_where (consumable g) consume gs).0
unfolding consume_checked check_plan
checked_commits none g gs h one = absurd (cc)
checked_commits (some (hash, state)) g gs h one =
    let e : text_eq hash g.plan_hash ≡ true = ground (arith, text_eq_iff hash g.plan_hash) in
    let f : text_eq state (task_state_text running) ≡ true =
      ground (arith, text_eq_iff state (task_state_text running)) in
    rw (e, f, one) refl

module _ (contains : Text → Text → Bool) (lower : Text → Text)
    (plans : Text → Option (Text × Text)) where
  loaded_commits :
      (now : Time) (request : GrantRequest) (g : Grant) (gs : List Grant)
      → Permits contains lower plans now request g
      → (update_where (consumable g) consume gs).1 ≡ 1
      → (after : List Grant) × (authorize_loaded contains lower plans now request (some g) gs
          ≡ committed after)
  unfolding authorize_loaded
  loaded_commits now request g gs (active, unexpired, left, match, stored) one =
      let done = checked_commits (plans g.plan_id) g gs stored one in
      ((update_where (consumable g) consume gs).0, ground (arith, done))

  blank_rolls_back :
      (clock : Time) (request : GrantRequest) (gs after : List Grant)
      → authorize_and_consume contains lower plans clock request gs ≡ committed after
      → is_blank request.grant_id ≡ false
  unfolding authorize_and_consume load_grant authorize_loaded
  blank_rolls_back clock request gs after h = elim (Bool-cases (is_blank request.grant_id)) [
    | inl e ↦ absurd (ground (arith, e))
    | inr e ↦ e
  ]

  -- For a table keyed by grant IDs, an authorisation commits exactly when the ID is not blank and
  -- its grant is unrevoked, unexpired, has calls left, matches the request, and belongs to a
  -- running task and to the current hash of its plan.
  pub authorize_and_consume_iff :
      (clock : Time) (request : GrantRequest) (gs : List Grant)
      → IsKey request.grant_id gs
      → ((after : List Grant) × (authorize_and_consume contains lower plans clock request gs
            ≡ committed after))
        ↔ ((is_blank request.grant_id ≡ false)
            × ((g : Grant) × (find_grant request.grant_id gs ≡ some g)
                × Permits contains lower plans (normalized_time clock request.now) request g))
  unfolding authorize_and_consume load_grant
  authorize_and_consume_iff clock request gs key = (sound, complete)
    where
      sound :
          ((after : List Grant) × (authorize_and_consume contains lower plans clock request gs
              ≡ committed after))
          → (is_blank request.grant_id ≡ false)
            × ((g : Grant) × (find_grant request.grant_id gs ≡ some g)
                × Permits contains lower plans (normalized_time clock request.now) request g)
      sound (after, h) =
          let (g, found, permits, new) =
            authorize_and_consume_sound contains lower plans clock request gs after h in
          (blank_rolls_back clock request gs after h, (g, found, permits))

      complete :
          (is_blank request.grant_id ≡ false)
            × ((g : Grant) × (find_grant request.grant_id gs ≡ some g)
                × Permits contains lower plans (normalized_time clock request.now) request g)
          → (after : List Grant) × (authorize_and_consume contains lower plans clock request gs
              ≡ committed after)
      complete (b, (g, found, permits)) =
          let same = find_grant_id request.grant_id gs g found in
          let one =
            one_row g gs (subst (λ i. find_grant i gs ≡ some g) (sym same) found)
              (subst (λ i. IsKey i gs) (sym same) key) (consumable_self g permits.2 permits.0) in
          rw (b, found)
            (loaded_commits (normalized_time clock request.now) request g gs permits one)
