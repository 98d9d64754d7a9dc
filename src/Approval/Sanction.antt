-- ===== src/Approval/Sanction.antt =====
-- What an issued grant rests on (internal/approval/grant.go).
use auto_ze_agent.Common.{
  ◌⊎◌, eq_ℤ_iff, ◌<◌, ◌≤◌, Bool, Bool-cases, Option, Option-cases, Text, [], arith, eq_ℤ, false,
  find_row, inl, inr, is_blank, is_some, ltb, none, not, refl, signed64, some, text_eq, text_eq_iff,
  true, ◌++◌, ◌==◌, ◌||◌, ◌∷◌, ◌≡◌, ap,
}
use auto_ze_agent.Kernel.Base.{Time, normalized_time}
use auto_ze_agent.Approval.Match.{CapabilityScope, Grant}
use auto_ze_agent.Approval.Normal.{normalize_capability}
use auto_ze_agent.Approval.Document.{PlanDocument, normalized}
use auto_ze_agent.Approval.Records.{
  approves_plan, Decision, ScopeType, approved, rejected, changes_requested, other_decision,
  scope_plan, scope_step, other_scope, ApprovalRow, Issued, IssueError, PlanRow, Tables,
  first_error, issued, unless_error,
}
use auto_ze_agent.Approval.Contained.{Contains, plan_contains_scope-Contains}
use auto_ze_agent.Approval.Issue.{
  scope_covers_step, within_approval, GrantInput, approves, insert_grant, issue_grant, issue_normal,
  minted, plan_contains_scope, require_approved_scope, require_current_plan,
}

-- The plan is the one that is stored, at its revision and hash.
abbrev pub IsCurrent : Tables → PlanDocument → Text → Type 0
IsCurrent db p plan_hash =
    (row : PlanRow) × (find_row PlanRow.plan_id p.plan_id db.plans ≡ some row)
    × (row.task_id ≡ p.task_id)
    × (row.revision ≡ signed64 p.revision)
    × (row.scope_hash ≡ plan_hash)

-- The approval covers the whole plan or the step.
abbrev pub Covers : ApprovalRow → Text → Type 0
Covers row step_id =
    (row.scope_type ≡ scope_plan) ⊎ ((row.scope_type ≡ scope_step) × (row.step_id ≡ some step_id))

-- The approval named is there, says yes to this revision and hash, covers the step, is not
-- invalidated, and outlasts the grant.
abbrev pub IsApprovedBy : Tables → PlanDocument → Text → GrantInput → Time → Type 0
IsApprovedBy db p plan_hash input issued_at =
    (row : ApprovalRow) × (find_row ApprovalRow.approval_id input.approval_id db.approvals
      ≡ some row)
    × (row.decision ≡ approved)
    × (row.invalidated_at ≡ none)
    × (row.plan_hash ≡ plan_hash)
    × (row.plan_revision ≡ signed64 p.revision)
    × Covers row input.step_id
    × ((row.expires_at ≡ none)
        ⊎ ((until : Time) × ((row.expires_at ≡ some until)
              × ((issued_at < until) × (input.expires_at ≤ until)))))

first_error-none : (a b : Option IssueError) → first_error a b ≡ none → (a ≡ none) × (b ≡ none)
first_error-none none b h = (refl, h)
first_error-none (some e) b h = absurd (cc)

unless_error-issued :
    {A : Type 0} (e : Option IssueError) (r : Issued A) (db : Tables) (a : A)
    → unless_error e r ≡ issued db a
    → (e ≡ none) × (r ≡ issued db a)
unless_error-issued none r db a h = (refl, h)
unless_error-issued (some e) r db a h = absurd (cc)

require_current_plan-IsCurrent :
    (db : Tables) (p : PlanDocument) (plan_hash : Text)
    → require_current_plan db p plan_hash ≡ none
    → IsCurrent db p plan_hash
unfolding require_current_plan
require_current_plan-IsCurrent db p plan_hash h =
    elim (Option-cases (find_row PlanRow.plan_id p.plan_id db.plans)) [
      | inl e ↦ absurd (ground (arith, e))
      | inr (row, e) ↦ (
        row,
        e,
        (text_eq_iff _ _).0 (ground (arith, e)),
        (eq_ℤ_iff _ _).0 (ground (arith, e)),
        (text_eq_iff _ _).0 (ground (arith, e)),
      )
    ]

scope_covers_step-Covers :
    (row : ApprovalRow) (step_id : Text)
    → scope_covers_step row.scope_type row.step_id step_id ≡ true
    → Covers row step_id
unfolding scope_covers_step
scope_covers_step-Covers row step_id h = covers row.scope_type row.step_id h
  where
    covers :
        (s : ScopeType) (stored : Option Text)
        → scope_covers_step s stored step_id ≡ true
        → (s ≡ scope_plan) ⊎ ((s ≡ scope_step) × (stored ≡ some step_id))
    covers scope_plan stored h = inl refl
    covers scope_step none h = absurd (cc)
    covers scope_step (some i) h = inr (refl, ap some ((text_eq_iff i step_id).0 h))
    covers (other_scope _) stored h = absurd (cc)

approves_plan-approved : (d : Decision) → approves_plan d ≡ true → d ≡ approved
approves_plan-approved approved h = refl
approves_plan-approved rejected h = absurd (cc)
approves_plan-approved changes_requested h = absurd (cc)
approves_plan-approved (other_decision _) h = absurd (cc)

is_some-none : {A : Type 0} (o : Option A) → is_some o ≡ false → o ≡ none
is_some-none none h = refl
is_some-none (some a) h = absurd (cc)

within_approval-until :
    (issued_at expires_at : Time) (o : Option Time)
    → within_approval issued_at expires_at o ≡ true
    → (o ≡ none)
      ⊎ ((until : Time) × ((o ≡ some until) × ((issued_at < until) × (expires_at ≤ until))))
within_approval-until issued_at expires_at none h = inl refl
within_approval-until issued_at expires_at (some until) h =
    inr (until, (refl, (ground (arith, h), ground (arith, h))))

approves-fields :
    (p : PlanDocument) (step_id plan_hash : Text) (issued_at expires_at : Time) (row : ApprovalRow)
    → approves p step_id plan_hash issued_at expires_at row ≡ true
    → (approves_plan row.decision ≡ true)
      × (is_some row.invalidated_at ≡ false)
      × (text_eq row.plan_hash plan_hash ≡ true)
      × (eq_ℤ row.plan_revision (signed64 p.revision) ≡ true)
      × (scope_covers_step row.scope_type row.step_id step_id ≡ true)
      × (within_approval issued_at expires_at row.expires_at ≡ true)
unfolding approves
approves-fields p step_id plan_hash issued_at expires_at row h = (
  ground (arith, h),
  ground (arith, h),
  ground (arith, h),
  ground (arith, h),
  ground (arith, h),
  ground (arith, h),
)

require_approved_scope-IsApprovedBy :
    (db : Tables) (p : PlanDocument) (plan_hash : Text) (input : GrantInput) (issued_at : Time)
    → require_approved_scope db input.approval_id p input.step_id plan_hash issued_at
        input.expires_at
      ≡ none
    → IsApprovedBy db p plan_hash input issued_at
unfolding require_approved_scope
require_approved_scope-IsApprovedBy db p plan_hash input issued_at h =
    elim (Option-cases (find_row ApprovalRow.approval_id input.approval_id db.approvals)) [
      | inl e ↦ absurd (ground (arith, e))
      | inr (row, e) ↦
          let (accepted, valid, same, current, covers, within) =
            approves-fields p input.step_id plan_hash issued_at input.expires_at row
              (ground (arith, e)) in
          (
            row,
            e,
            approves_plan-approved row.decision accepted,
            is_some-none row.invalidated_at valid,
            (text_eq_iff _ _).0 same,
            (eq_ℤ_iff _ _).0 current,
            scope_covers_step-Covers row input.step_id covers,
            within_approval-until issued_at input.expires_at row.expires_at within,
          )
    ]

insert_grant-issued :
    (known_step : Text → Bool) (appends : Grant → Bool) (grant : Grant) (db db' : Tables)
    (g : Grant)
    → insert_grant known_step appends grant db ≡ issued db' g
    → (g ≡ grant)
      × (db' ≡ record db { grants = db.grants ++ grant ∷ [] })
      × (is_some (find_row Grant.id grant.id db.grants) ≡ false)
unfolding insert_grant
insert_grant-issued known_step appends grant db db' g h =
    elim (Bool-cases (is_some (find_row Grant.id grant.id db.grants))) [
      | inl e ↦ absurd (ground (arith, e))
      | inr e ↦ (ground (arith, e), ground (arith, e), e)
    ]

-- What an issued grant rests on: the normal forms `p` of the plan and `s` of the scope.
abbrev pub IsSanctioned :
    (PlanDocument → Text) → GrantInput → PlanDocument → CapabilityScope → Time → Tables → Type 0
IsSanctioned hash input p s issued_at db =
    Contains p input.step_id s
    × (ltb issued_at input.expires_at ≡ true)
    × IsCurrent db p (hash p)
    × IsApprovedBy db p (hash p) input issued_at
    × (is_some (find_row Grant.id input.id db.grants) ≡ false)

module _ (clean lower : Text → Text) (encode : CapabilityScope → Text) (hash : PlanDocument → Text)
    (known_step : Text → Bool) (appends : Grant → Bool) where
  issue_normal-IsSanctioned :
      (input : GrantInput) (p : PlanDocument) (s : CapabilityScope) (issued_at : Time)
      (db db' : Tables) (g : Grant)
      → issue_normal clean lower encode hash known_step appends input p s issued_at db
        ≡ issued db' g
      → IsSanctioned hash input p s issued_at db
        × (g ≡ minted input p (hash p) s issued_at)
        × (db' ≡ record db { grants = db.grants ++ minted input p (hash p) s issued_at ∷ [] })
  unfolding issue_normal
  issue_normal-IsSanctioned input p s issued_at db db' g h =
      elim (Bool-cases (plan_contains_scope p input.step_id s)) [
        | inr e ↦ absurd (ground (arith, e))
        | inl e ↦
            elim (Bool-cases ((input.expires_at == 0) || not (ltb issued_at input.expires_at))) [
              | inl x ↦ absurd (ground (arith, e, x))
              | inr x ↦
                  let (none_of, inserted) = unless_error-issued _ _ db' g (ground (arith, e, x)) in
                  let (current, approval) = first_error-none _ _ none_of in
                  let (minted_g, new, fresh) =
                    insert_grant-issued known_step appends _ db db' g inserted in
                  (
                    (
                      plan_contains_scope-Contains p input.step_id s e,
                      ground (arith, x),
                      require_current_plan-IsCurrent db p (hash p) current,
                      require_approved_scope-IsApprovedBy db p (hash p) input issued_at approval,
                      fresh,
                    ),
                    minted_g,
                    new,
                  )
            ]
      ]

  -- If `IssueGrant` issues a grant, the plan and the scope have normal forms, and a step of the plan
  -- under the ID named has this scope itself or a scope of `http_get` with the same limits and no
  -- domain, of which the scope names one (with any paths, command and arguments). The grant expires
  -- after its issue, the plan is stored with this task, revision and hash, the approval named is a
  -- valid one for this plan and step that outlasts the grant, the grant's ID was free, and the table
  -- gains just this grant, unused and not revoked.
  pub issue_grant-IsSanctioned :
      (clock : Time) (input : GrantInput) (db db' : Tables) (g : Grant)
      → issue_grant clean lower encode hash known_step appends clock input db ≡ issued db' g
      → (p : PlanDocument) × (s : CapabilityScope) × (normalized clean lower encode input.document
          ≡ some p)
        × (normalize_capability clean lower input.scope ≡ some s)
        × IsSanctioned hash input p s (normalized_time clock input.issued_at) db
        × (g ≡ minted input p (hash p) s (normalized_time clock input.issued_at))
        × (db' ≡ record db { grants = db.grants ++ g ∷ [] })
  unfolding issue_grant
  issue_grant-IsSanctioned clock input db db' g h =
      elim (Bool-cases
        (is_blank input.id || (is_blank input.approval_id || is_blank input.step_id))) [
          | inl e ↦ absurd (ground (arith, e))
          | inr e ↦ elim (Option-cases (normalized clean lower encode input.document)) [
            | inl n ↦ absurd (ground (arith, e, n))
            | inr (p, n) ↦ elim (Option-cases (normalize_capability clean lower input.scope)) [
              | inl c ↦ absurd (ground (arith, e, n, c))
              | inr (s, c) ↦
                  let (sanctioned, minted_g, new) =
                    issue_normal-IsSanctioned input p s _ db db' g (ground (arith, e, n, c)) in
                  (p, s, n, c, sanctioned, minted_g, cc)
            ]
          ]
        ]
