-- ===== src/Approval/Decide.antt =====
-- internal/approval/approval.go: the approvals. `hash` is the hash of the JSON of a plan's normal
-- form, `appends` says whether the event of an approval is appended, and `format` is
-- `time.Time.Format` at RFC 3339 with nanoseconds, whose texts `IsApproved` compares.
use auto_ze_agent.Common.{
  Bool, List, Option, Text, [], any, codes, eq_ℤ, false, find_row, if◌then◌else◌, is_blank, is_some,
  leb, ltb, none, not, signed64, some, text_eq, true, trim_space, update_rows, ℕ, ◌&&◌, ◌++◌, ◌||◌,
  ◌∷◌,
}
use auto_ze_agent.Kernel.Base.{Time, normalized_time}
use auto_ze_agent.Kernel.Task.{ExecutionMode, agent, other_mode, plan, normalize_execution_mode}
use auto_ze_agent.Approval.Match.{CapabilityScope}
use auto_ze_agent.Approval.Normal.{text_ltb}
use auto_ze_agent.Approval.Document.{PlanDocument, normalized}
use auto_ze_agent.Approval.Records.{
  PlanRow, TaskRow, ScopeType, scope_plan, Decision, approved, ApprovalRow, Tables, IssueError,
  invalid_plan, missing, already_exists, refused_event, invalid_decision, approval_closed,
  out_of_range, Issued, issued, not_issued, approves_plan, first_error, unless_error,
}
use auto_ze_agent.Approval.Issue.{require_current_plan, scope_covers_step}

pub record DecisionInput : Type 0 where
  pub id : Text
  pub document : PlanDocument
  pub scope : ScopeType
  pub step_id : Text
  pub decision : Decision
  pub decided_by : Text
  pub reason : Text
  pub decided_at : Time
  pub expires_at : Option Time

-- The join of the plan with its task.
unfoldable pub system_state : Tables → PlanDocument → Option (Text × Text)
system_state db p = elim (find_row PlanRow.plan_id p.plan_id db.plans) [
  | none ↦ none
  | some row ↦
      if text_eq row.task_id p.task_id
      then elim (find_row TaskRow.task_id row.task_id db.tasks) [
        | none ↦ none
        | some t ↦ some (row.state, t.execution_mode)
      ]
      else none
]

abbrev pub executable : ExecutionMode → Bool
executable agent = true
executable plan = true
executable (other_mode _) = false

unfoldable pub check_system_state : Option (Text × Text) → Option IssueError
check_system_state none = some missing
check_system_state (some (state, mode)) =
    if not (text_eq state (codes "approved"))
    then some approval_closed
    else if not (executable (normalize_execution_mode mode))
    then some invalid_decision
    else none

abbrev pub is_plan_scope : ScopeType → Bool
is_plan_scope scope_plan = true
is_plan_scope _ = false

-- The checks of the input before the transaction.
unfoldable pub check_decision : DecisionInput → Option IssueError
check_decision input =
    if is_blank input.id || is_blank input.decided_by
    then some invalid_decision
    else if not (approves_plan input.decision)
    then some invalid_decision
    else if not (is_plan_scope input.scope) || not (is_blank input.step_id)
    then some invalid_decision
    else none

abbrev pub is_after : Time → Option Time → Bool
is_after decided_at none = true
is_after decided_at (some until) = ltb decided_at until

module _ (appends : ApprovalRow → Bool) where
  unfoldable pub insert_approval : ApprovalRow → ℕ → Tables → Issued ApprovalRow
  insert_approval row revision db =
      if leb 9223372036854775808 revision
      then not_issued out_of_range
      else if is_some (find_row ApprovalRow.approval_id row.approval_id db.approvals)
      then not_issued already_exists
      else if not (appends row)
      then not_issued refused_event
      else issued (record db { approvals = db.approvals ++ row ∷ [] }) row

  abbrev pub decided : DecisionInput → Text → Time → ApprovalRow
  decided input plan_hash decided_at = record {
    approval_id = input.id;
    plan_id = input.document.plan_id;
    plan_revision = signed64 input.document.revision;
    plan_hash = plan_hash;
    scope_type = scope_plan;
    step_id = none;
    decision = approved;
    decided_by = trim_space input.decided_by;
    reason = trim_space input.reason;
    decided_at = decided_at;
    expires_at = input.expires_at;
    invalidated_at = none;
  }

  -- From the plan's hash on.
  unfoldable pub record_hashed : DecisionInput → Text → Time → Tables → Issued ApprovalRow
  record_hashed input plan_hash decided_at db =
      if not (is_after decided_at input.expires_at)
      then not_issued invalid_decision
      else unless_error
          (first_error (require_current_plan db input.document plan_hash)
            (check_system_state (system_state db input.document)))
          (insert_approval (decided input plan_hash decided_at) input.document.revision db)

  module _ (clean lower : Text → Text) (encode : CapabilityScope → Text)
      (hash : PlanDocument → Text) where
    unfoldable pub record_system_approval : Time → DecisionInput → Tables → Issued ApprovalRow
    record_system_approval clock input db =
        unless_error (check_decision input) (elim (normalized clean lower encode input.document) [
          | none ↦ not_issued invalid_plan
          | some p ↦ record_hashed input (hash p) (normalized_time clock input.decided_at) db
        ])

-- A blank step is `NULL`, which equals nothing.
abbrev pub asked_step : Text → Option Text → Option Text
asked_step step_id stored = if is_blank step_id then none else stored

module _ (format : Time → Text) where
  abbrev pub unexpired : Time → Option Time → Bool
  unexpired now none = true
  unexpired now (some until) = text_ltb (format now) (format until)

  unfoldable pub counts : Text → ℕ → Text → Text → Time → ApprovalRow → Bool
  counts plan_id revision plan_hash step_id now row =
      text_eq row.plan_id plan_id
      && (eq_ℤ row.plan_revision (signed64 revision)
          && (text_eq row.plan_hash plan_hash
              && (approves_plan row.decision
                  && (not (is_some row.invalidated_at)
                      && (unexpired now row.expires_at
                          && scope_covers_step row.scope_type (asked_step step_id row.step_id)
                              step_id)))))

  -- `COUNT(*) > 0`; the times are compared as texts.
  unfoldable pub is_approved : Text → ℕ → Text → Text → Time → List ApprovalRow → Bool
  is_approved plan_id revision plan_hash step_id now rows =
      any (counts plan_id revision plan_hash step_id now) rows

-- `SET invalidated_at = ?`, with the number of rows affected.
unfoldable pub superseded : Text → Text → ApprovalRow → Bool
superseded plan_id current_hash row =
    text_eq row.plan_id plan_id
    && (not (text_eq row.plan_hash current_hash) && not (is_some row.invalidated_at))

abbrev pub invalidate_at : Time → ApprovalRow → ApprovalRow
invalidate_at now row = record row { invalidated_at = some now }

unfoldable pub invalidate_for_plan_change : Time → Text → Text → Time → Tables → Issued ℕ
invalidate_for_plan_change clock plan_id current_hash now db =
    if is_blank plan_id || is_blank current_hash
    then not_issued invalid_plan
    else let r =
        update_rows (superseded plan_id current_hash) (invalidate_at (normalized_time clock now))
          db.approvals in
      issued (record db { approvals = r.0 }) r.1
