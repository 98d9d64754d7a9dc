-- ===== src/Approval/Issue.antt =====
-- internal/approval/grant.go: the issue of a grant. `hash` stands for SHA-256 of the JSON of a
-- normalised plan, `known_step` for the foreign key of the grant's step, and `appends` for whether
-- the event is appended.
use auto_ze_agent.Common.{
  Bool, Option, Text, [], any, codes, eq_ℤ, false, find_row, if◌then◌else◌, is_blank, is_nil,
  is_some, leb, ltb, none, not, signed64, some, text_eq, true, ◌&&◌, ◌++◌, ◌==◌, ◌||◌, ◌∷◌,
}
use auto_ze_agent.Kernel.Base.{Time, normalized_time}
use auto_ze_agent.Approval.Match.{CapabilityScope, Grant}
use auto_ze_agent.Approval.Normal.{normalize_capability}
use auto_ze_agent.Approval.Document.{StepScope, PlanDocument, normalized}
use auto_ze_agent.Approval.Records.{
  PlanRow, ScopeType, scope_plan, scope_step, other_scope, ApprovalRow, Tables, IssueError, denied,
  invalid_plan, missing, plan_changed, not_approved, already_exists, refused_event, out_of_range,
  unknown_step, Issued, issued, not_issued, approves_plan, same_flag, one_domain, scope_eq,
  first_error, unless_error,
}

-- The scopes differ only in the network domains; paths, command and arguments are not compared.
unfoldable pub http_get_domain_narrowing : CapabilityScope → CapabilityScope → Bool
http_get_domain_narrowing plan_scope grant_scope =
    text_eq plan_scope.capability (codes "http_get")
    && (text_eq grant_scope.capability (codes "http_get")
        && (is_nil plan_scope.network_domains
            && (one_domain grant_scope.network_domains
                && (same_flag plan_scope.one_time grant_scope.one_time
                    && ((plan_scope.max_calls == grant_scope.max_calls)
                        && eq_ℤ plan_scope.max_duration_ms grant_scope.max_duration_ms)))))

unfoldable pub plan_contains_scope : PlanDocument → Text → CapabilityScope → Bool
plan_contains_scope p step_id scope =
    any
      (λ (s : StepScope).
        text_eq s.step_id step_id
        && any (λ c. scope_eq c scope || http_get_domain_narrowing c scope) s.capabilities)
      p.steps

unfoldable pub require_current_plan : Tables → PlanDocument → Text → Option IssueError
require_current_plan db p plan_hash = elim (find_row PlanRow.plan_id p.plan_id db.plans) [
  | none ↦ some missing
  | some row ↦
      if text_eq row.task_id p.task_id
        && (eq_ℤ row.revision (signed64 p.revision) && text_eq row.scope_hash plan_hash)
      then none
      else some plan_changed
]

abbrev pub step_is : Text → Option Text → Bool
step_is step_id none = false
step_is step_id (some stored) = text_eq stored step_id

unfoldable pub scope_covers_step : ScopeType → Option Text → Text → Bool
scope_covers_step scope_plan stored step_id = true
scope_covers_step scope_step stored step_id = step_is step_id stored
scope_covers_step (other_scope _) stored step_id = false

abbrev pub within_approval : Time → Time → Option Time → Bool
within_approval issued_at expires_at none = true
within_approval issued_at expires_at (some until) =
    ltb issued_at until && not (ltb until expires_at)

unfoldable pub approves : PlanDocument → Text → Text → Time → Time → ApprovalRow → Bool
approves p step_id plan_hash issued_at expires_at row =
    approves_plan row.decision
    && (not (is_some row.invalidated_at)
        && (text_eq row.plan_hash plan_hash
            && (eq_ℤ row.plan_revision (signed64 p.revision)
                && (scope_covers_step row.scope_type row.step_id step_id
                    && within_approval issued_at expires_at row.expires_at))))

unfoldable pub require_approved_scope :
    Tables → Text → PlanDocument → Text → Text → Time → Time → Option IssueError
require_approved_scope db approval_id p step_id plan_hash issued_at expires_at =
    elim (find_row ApprovalRow.approval_id approval_id db.approvals) [
      | none ↦ some not_approved
      | some row ↦
          if approves p step_id plan_hash issued_at expires_at row then none else some not_approved
    ]

pub record GrantInput : Type 0 where
  pub id : Text
  pub approval_id : Text
  pub document : PlanDocument
  pub step_id : Text
  pub scope : CapabilityScope
  pub issued_at : Time
  pub expires_at : Time

-- The grant that is minted.
abbrev pub minted : GrantInput → PlanDocument → Text → CapabilityScope → Time → Grant
minted input p plan_hash scope issued_at = record {
  id = input.id;
  approval_id = input.approval_id;
  task_id = p.task_id;
  plan_id = p.plan_id;
  step_id = input.step_id;
  plan_hash = plan_hash;
  scope = scope;
  issued_at = issued_at;
  expires_at = input.expires_at;
  used_calls = 0;
  revoked_at = none;
}

-- The `INSERT`; a grant of the ID that is there is not replaced.
unfoldable pub insert_grant : (Text → Bool) → (Grant → Bool) → Grant → Tables → Issued Grant
insert_grant known_step appends grant db =
    if is_some (find_row Grant.id grant.id db.grants)
    then not_issued already_exists
    else if leb 9223372036854775808 grant.scope.max_calls
    then not_issued out_of_range
    else if not (known_step grant.step_id)
    then not_issued unknown_step
    else if not (appends grant)
    then not_issued refused_event
    else issued (record db { grants = db.grants ++ grant ∷ [] }) grant

module _ (clean lower : Text → Text) (encode : CapabilityScope → Text)
    (hash : PlanDocument → Text) where
  module _ (known_step : Text → Bool) (appends : Grant → Bool) where
    -- From the plan and the scope in their normal forms on.
    unfoldable pub issue_normal :
        GrantInput → PlanDocument → CapabilityScope → Time → Tables → Issued Grant
    issue_normal input p scope issued_at db =
        if not (plan_contains_scope p input.step_id scope)
        then not_issued denied
        else if (input.expires_at == 0) || not (ltb issued_at input.expires_at)
        then not_issued denied
        else unless_error
            (first_error (require_current_plan db p (hash p)) (
              require_approved_scope db input.approval_id p input.step_id (hash p) issued_at
                input.expires_at))
            (insert_grant known_step appends (minted input p (hash p) scope issued_at) db)

    unfoldable pub issue_grant : Time → GrantInput → Tables → Issued Grant
    issue_grant clock input db =
        if is_blank input.id || (is_blank input.approval_id || is_blank input.step_id)
        then not_issued denied
        else elim (normalized clean lower encode input.document) [
          | none ↦ not_issued invalid_plan
          | some p ↦ elim (normalize_capability clean lower input.scope) [
            | none ↦ not_issued invalid_plan
            | some scope ↦ issue_normal input p scope (normalized_time clock input.issued_at) db
          ]
        ]
