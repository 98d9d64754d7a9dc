-- ===== src/Approval/Records.antt =====
-- internal/approval/grant.go and approval.go: the tables of plans, tasks, approvals and grants, and
-- the results of an operation on them. An operation is one transaction; where it fails it rolls
-- back. Failures of the database and nil contexts are left out.
use auto_ze_agent.Common.{
  Bool, List, Option, Text, [], eq_ℤ, false, is_blank, none, not, some, text_eq, true, ℤ, ◌&&◌,
  ◌==◌, ◌∷◌,
}
use auto_ze_agent.Kernel.Base.{Time}
use auto_ze_agent.Approval.Match.{CapabilityScope, Grant, texts_eq}

-- The columns that the operations read.
pub record PlanRow : Type 0 where
  pub plan_id : Text
  pub task_id : Text
  pub revision : ℤ
  pub scope_hash : Text
  pub state : Text

pub record TaskRow : Type 0 where
  pub task_id : Text
  pub execution_mode : Text

pub data ScopeType : Type 0 where
  scope_plan scope_step : ScopeType
  other_scope : Text → ScopeType

pub data Decision : Type 0 where
  approved rejected changes_requested : Decision
  other_decision : Text → Decision

pub record ApprovalRow : Type 0 where
  pub approval_id : Text
  pub plan_id : Text
  pub plan_revision : ℤ
  pub plan_hash : Text
  pub scope_type : ScopeType
  pub step_id : Option Text
  pub decision : Decision
  pub decided_by : Text
  pub reason : Text
  pub decided_at : Time
  pub expires_at : Option Time
  pub invalidated_at : Option Time

pub record Tables : Type 0 where
  pub plans : List PlanRow
  pub tasks : List TaskRow
  pub approvals : List ApprovalRow
  pub grants : List Grant

pub data IssueError : Type 0 where
  denied invalid_plan missing plan_changed not_approved already_exists refused_event : IssueError
  invalid_decision approval_closed out_of_range unknown_step : IssueError

pub data Issued {ℓ} (A : Type ℓ) : Type ℓ where
  issued : Tables → A → Issued A
  not_issued : IssueError → Issued A

abbrev pub approves_plan : Decision → Bool
approves_plan approved = true
approves_plan _ = false

abbrev pub same_flag : Bool → Bool → Bool
same_flag true b = b
same_flag false b = not b

abbrev pub one_domain : List Text → Bool
one_domain (d ∷ []) = not (is_blank d)
one_domain _ = false

-- The scopes are equal when their JSON is.
unfoldable pub scope_eq : CapabilityScope → CapabilityScope → Bool
unfolding texts_eq
scope_eq a b =
    text_eq a.capability b.capability
    && (texts_eq a.paths b.paths
        && (text_eq a.command b.command
            && (texts_eq a.arguments b.arguments
                && (texts_eq a.network_domains b.network_domains
                    && (eq_ℤ a.max_duration_ms b.max_duration_ms
                        && ((a.max_calls == b.max_calls) && same_flag a.one_time b.one_time))))))

abbrev pub first_error : Option IssueError → Option IssueError → Option IssueError
first_error none e = e
first_error (some e) _ = some e

abbrev pub unless_error {ℓ} : {A : Type ℓ} → Option IssueError → Issued A → Issued A
unless_error none r = r
unless_error (some e) r = not_issued e
