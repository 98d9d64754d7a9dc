-- ===== src/Approval/Progress.antt =====
-- How one transaction moves the state of a grant (internal/approval/grant.go).
use auto_ze_agent.Common.{
  Bool, Bool-cases, List, Option, Text, arith, inl, inr, none, refl, some, true, ℕ, ◌+◌, ◌==◌, ◌∙◌,
  ◌≡◌, ◌≤◌,
}
use auto_ze_agent.Kernel.Base.{Time}
use auto_ze_agent.Approval.Match.{Grant}
use auto_ze_agent.Approval.Grant.{
  Outcome, grant_revoked, affects_one, committed, rolled_back, find_grant, update_where, is_active,
  revocable, revoke_at, after_event, revoke_loaded, revoke_one,
}
use auto_ze_agent.Approval.Consumption.{updated, find_grant-update_where}
use auto_ze_agent.Approval.Ops.{calls_used, calls_max, is_revoked}

-- `n` authorised uses lead from one state of a grant to another.
abbrev pub Progress : Option Grant → Option Grant → ℕ → Type 0
Progress b a n =
    (calls_used a ≡ calls_used b + n)
    × (calls_max a ≡ calls_max b)
    × (calls_used b ≤ calls_max b → calls_used a ≤ calls_max a)
    × (is_revoked b ≡ true → (n ≡ 0) × (is_revoked a ≡ true))

pub Progress-refl : (b : Option Grant) → Progress b b 0
Progress-refl b = (omega arith, refl, λ h. h, λ h. (refl, h))

pub Progress-trans :
    (a b c : Option Grant) {m n : ℕ} → Progress a b m → Progress b c n → Progress a c (m + n)
Progress-trans a b c (u, x, l, r) (u', x', l', r') = (
  omega (arith, u, u'),
  x' ∙ x,
  λ h. l' (l h),
  λ h. let (z, s) = r h in let (z', s') = r' s in (omega (arith, z, z'), s'),
)

revoke_at-Progress :
    (i : Text) (now : Time) (found : Option Grant)
    → Progress found (updated (revocable i) (revoke_at now) found) 0
revoke_at-Progress i now none = Progress-refl none
revoke_at-Progress i now (some g) = elim (Bool-cases (revocable i g)) [
  | inl e ↦ rw e (omega arith, refl, λ h. h, λ h. (refl, refl))
  | inr e ↦ rw e (Progress-refl (some g))
]

pub update_where-Progress :
    (id i : Text) (now : Time) (gs : List Grant)
    → Progress
        (find_grant id gs)
        (find_grant id (update_where (revocable i) (revoke_at now) gs).0)
        0
update_where-Progress id i now gs =
    rw (find_grant-update_where id (revocable i) (revoke_at now) gs (λ x. refl))
      (revoke_at-Progress i now (find_grant id gs))

after_event_committed :
    (appends : Grant → Bool) (g : Grant) (o : Outcome) (after : List Grant)
    → after_event appends g o ≡ committed after
    → o ≡ committed after
unfolding after_event
after_event_committed appends g (rolled_back e) after h = absurd (cc)
after_event_committed appends g (committed gs) after h = elim (Bool-cases (appends g)) [
  | inl e ↦ ground (arith, e)
  | inr e ↦ absurd (ground (arith, e))
]

pub revoke_loaded_committed :
    (appends : Grant → Bool) (now : Time) (found : Option Grant) (gs after : List Grant)
    → revoke_loaded appends now found gs ≡ committed after
    → (g : Grant) × (found ≡ some g)
      × (is_active g ≡ true)
      × (after ≡ (update_where (revocable g.id) (revoke_at now) gs).0)
unfolding revoke_loaded
revoke_loaded_committed appends now none gs after h = absurd (cc)
revoke_loaded_committed appends now (some g) gs after h =
    let r = update_where (revocable g.id) (revoke_at now) gs in
    let active : is_active g ≡ true = ground arith in
    let opened : after_event appends g (affects_one grant_revoked r) ≡ committed after =
      ground (arith, active) in
    let done = after_event_committed appends g (affects_one grant_revoked r) after opened in
    elim (Bool-cases (r.1 == 1)) [
      | inl f ↦ (g, refl, active, ground (arith, f, done))
      | inr f ↦ absurd (ground (arith, f, done))
    ]

pub revoke_one_committed :
    (appends : Grant → Bool) (now : Time) (i : Text) (found : Option Grant) (gs after : List Grant)
    → revoke_one appends now i found gs ≡ committed after
    → after ≡ (update_where (revocable i) (revoke_at now) gs).0
unfolding revoke_one
revoke_one_committed appends now i none gs after h = absurd (cc)
revoke_one_committed appends now i (some g) gs after h =
    let done = after_event_committed appends g _ after h in ground (arith, done)
