-- ===== src/Permission/Issues.antt =====
-- The grant that a decision asks for (internal/toolpermission/service.go, internal/approval/grant.go).
use auto_ze_agent.Common.{
  Bool, Bool-cases, List, Option, Option-cases, Text, [], ap, arith, find_row, inl, inr, is_blank,
  is_some, none, refl, some, subst, sym, text_eq, text_eq_refl, true, ◌++◌, ◌||◌, ◌∷◌, ◌≡◌, not,
  ltb, ◌==◌,
}
use auto_ze_agent.Kernel.Base.{Time, normalized_time}
use auto_ze_agent.Approval.Match.{CapabilityScope, Grant}
use auto_ze_agent.Approval.Normal.{normalize_capability}
use auto_ze_agent.Approval.Document.{PlanDocument, normalized}
use auto_ze_agent.Approval.Records.{
  Issued, IssueError, Tables, already_exists, first_error, issued, not_issued, unless_error,
  ApprovalRow, PlanRow,
}
use auto_ze_agent.Approval.Issue.{
  GrantInput, insert_grant, issue_grant, issue_normal, minted, plan_contains_scope,
  require_approved_scope, require_current_plan,
}
use auto_ze_agent.Approval.Sanction.{issue_grant-IsSanctioned}

find_row-append :
    (id : Text) (g : Grant) (gs : List Grant)
    → g.id ≡ id
    → is_some (find_row Grant.id id (gs ++ g ∷ [])) ≡ true
unfolding find_row
find_row-append id g [] e = rw (e, text_eq_refl id) refl
find_row-append id g (x ∷ gs) e = elim (Bool-cases (text_eq x.id id)) [
  | inl h ↦ rw h refl
  | inr h ↦ rw h (find_row-append id g gs e)
]

require_current_plan-other :
    (db : Tables) (p : PlanDocument) (h : Text)
    → require_current_plan db p h ≡ some already_exists
    → ⊥
unfolding require_current_plan
require_current_plan-other db p h e =
    elim (Option-cases (find_row PlanRow.plan_id p.plan_id db.plans)) [
      | inl n ↦ ground (arith, n)
      | inr (row, n) ↦ ground (arith, n)
    ]

require_approved_scope-other :
    (db : Tables) (a : Text) (p : PlanDocument) (s h : Text) (i x : Time)
    → require_approved_scope db a p s h i x ≡ some already_exists
    → ⊥
unfolding require_approved_scope
require_approved_scope-other db a p s h i x e =
    elim (Option-cases (find_row ApprovalRow.approval_id a db.approvals)) [
      | inl n ↦ ground (arith, n)
      | inr (row, n) ↦ ground (arith, n)
    ]

unless_error-already :
    (a b : Option IssueError) (r : Issued Grant)
    → (a ≡ some already_exists → ⊥)
    → (b ≡ some already_exists → ⊥)
    → unless_error (first_error a b) r ≡ not_issued already_exists
    → r ≡ not_issued already_exists
unless_error-already none none r f g h = h
unless_error-already none (some e) r f g h = absurd (g (cc))
unless_error-already (some e) b r f g h = absurd (f (cc))

insert_grant-already :
    (known_step : Text → Bool) (appends : Grant → Bool) (grant : Grant) (db : Tables)
    → insert_grant known_step appends grant db ≡ not_issued already_exists
    → is_some (find_row Grant.id grant.id db.grants) ≡ true
unfolding insert_grant
insert_grant-already known_step appends grant db h = ground arith

module _ (clean lower : Text → Text) (encode : CapabilityScope → Text) (hash : PlanDocument → Text)
    (known_step : Text → Bool) (appends : Grant → Bool) where
  issue_normal-already :
      (input : GrantInput) (p : PlanDocument) (s : CapabilityScope) (issued_at : Time) (db : Tables)
      → issue_normal clean lower encode hash known_step appends input p s issued_at db
        ≡ not_issued already_exists
      → is_some (find_row Grant.id input.id db.grants) ≡ true
  unfolding issue_normal
  issue_normal-already input p s issued_at db h =
      elim (Bool-cases (plan_contains_scope p input.step_id s)) [
        | inr e ↦ absurd (ground (arith, e))
        | inl e ↦
            elim (Bool-cases ((input.expires_at == 0) || not (ltb issued_at input.expires_at))) [
              | inl x ↦ absurd (ground (arith, e, x))
              | inr x ↦
                  insert_grant-already known_step appends (minted input p (hash p) s issued_at) db (
                    unless_error-already _ _ _ (require_current_plan-other db p (hash p))
                      (require_approved_scope-other db input.approval_id p input.step_id (hash p)
                        issued_at input.expires_at)
                      (ground (arith, e, x)))
            ]
      ]

  -- Where `IssueGrant` says that the grant exists already, it does.
  pub issue_grant-already :
      (clock : Time) (input : GrantInput) (db : Tables)
      → issue_grant clean lower encode hash known_step appends clock input db
        ≡ not_issued already_exists
      → is_some (find_row Grant.id input.id db.grants) ≡ true
  unfolding issue_grant
  issue_grant-already clock input db h =
      elim (Bool-cases
        (is_blank input.id || (is_blank input.approval_id || is_blank input.step_id))) [
          | inl e ↦ absurd (ground (arith, e))
          | inr e ↦ elim (Option-cases (normalized clean lower encode input.document)) [
            | inl n ↦ absurd (ground (arith, e, n))
            | inr (p, n) ↦ elim (Option-cases (normalize_capability clean lower input.scope)) [
              | inl c ↦ absurd (ground (arith, e, n, c))
              | inr (s, c) ↦
                  issue_normal-already input p s (normalized_time clock input.issued_at) db
                    (ground (arith, e, n, c))
            ]
          ]
        ]

  pub issue_grant-there :
      (clock : Time) (input : GrantInput) (db db' : Tables) (g : Grant)
      → issue_grant clean lower encode hash known_step appends clock input db ≡ issued db' g
      → is_some (find_row Grant.id input.id db'.grants) ≡ true
  issue_grant-there clock input db db' g h =
      let (p, s, n, c, ok, m, new) =
        issue_grant-IsSanctioned clean lower encode hash known_step appends clock input db db' g
          h in
      subst (λ (t : Tables). is_some (find_row Grant.id input.id t.grants) ≡ true) (sym new)
        (find_row-append input.id g db.grants (ap Grant.id m))
