-- ===== src/Approval/IssueExamples.antt =====
-- The theorems on the issue of grants and on approvals at concrete tables.
use auto_ze_agent.Common.{
  arith, List, Text, [], codes, eq_ℤ, false, find_row, has_prefix, none, pos, refl, some, text_eq,
  trim_space, true, update_rows, ◌&&◌, ◌++◌, ◌∷◌, ◌≡◌,
}
use auto_ze_agent.Kernel.Base.{normalized_time}
use auto_ze_agent.Policy.{risk_order, valid_risk, r1}
use auto_ze_agent.Approval.Match.{
  CapabilityScope, Grant, texts_eq, GrantRequest, grant_matches_request, path_allowed,
  domain_allowed, command_args_match, duration_exceeds, trim_suffix, has_suffix,
}
use auto_ze_agent.Approval.Grant.{authorize_and_consume, committed}
use auto_ze_agent.Approval.Usable.{issue_grant-authorize_and_consume}
use auto_ze_agent.Kernel.Task.{running, task_state_text}
use auto_ze_agent.Approval.Normal.{
  text_ltb, insert_text, sort_texts, drop_repeats, unique_texts, sorted_unique, is_drive_path,
  is_absolute_capability_path, valid_calls, valid_paths, needs_paths, valid_capability,
  normalize_paths, normalize_domains, normal_scope, normalize_capability,
}
use auto_ze_agent.Approval.Document.{
  PlanDocument, insert_scope, insert_step, normalize_capabilities, normalize_step, normalize_steps,
  normalize_text_list, normalized, sort_scopes, sort_steps, with_capabilities, with_steps,
}
use auto_ze_agent.Approval.Records.{ApprovalRow, Tables, approved, issued, scope_eq, scope_step}
use auto_ze_agent.Approval.Issue.{
  GrantInput, approves, http_get_domain_narrowing, insert_grant, issue_grant, issue_normal, minted,
  plan_contains_scope, require_approved_scope, require_current_plan, scope_covers_step,
}
use auto_ze_agent.Approval.Decide.{counts, invalidate_for_plan_change, is_approved, superseded}
use auto_ze_agent.Approval.Sanction.{IsSanctioned, issue_grant-IsSanctioned}
use auto_ze_agent.Approval.Invalidation.{is_approved-invalidate_for_plan_change}

abbrev pub scope : CapabilityScope
scope = record {
  capability = codes "read";
  paths = codes "/w" ∷ [];
  command = [];
  arguments = [];
  network_domains = [];
  max_duration_ms = pos 10;
  max_calls = 2;
  one_time = false;
}

abbrev pub document : PlanDocument
document = record {
  plan_id = codes "p";
  task_id = codes "t";
  revision = 1;
  objective = codes "o";
  budget = record { max_tokens = pos 0; max_cost_micros = pos 0; max_duration_ms = pos 0 };
  steps =
      record {
        step_id = codes "s";
        position = pos 0;
        title = codes "x";
        risk = r1;
        expected_side_effects = [];
        rollback = [];
        timeout_ms = pos 0;
        capabilities = scope ∷ [];
      }
      ∷ [];
}

abbrev pub approval : ApprovalRow
approval = record {
  approval_id = codes "a";
  plan_id = codes "p";
  plan_revision = pos 1;
  plan_hash = codes "h";
  scope_type = scope_step;
  step_id = some (codes "s");
  decision = approved;
  decided_by = codes "u";
  reason = [];
  decided_at = 5;
  expires_at = some 30;
  invalidated_at = none;
}

abbrev pub tables : Tables
tables = record {
  plans =
      record {
        plan_id = codes "p";
        task_id = codes "t";
        revision = pos 1;
        scope_hash = codes "h";
        state = codes "approved";
      }
      ∷ [];
  tasks = record { task_id = codes "t"; execution_mode = codes "plan" } ∷ [];
  approvals = approval ∷ [];
  grants = [];
}

abbrev input : GrantInput
input = record {
  id = codes "g";
  approval_id = codes "a";
  document = document;
  step_id = codes "s";
  scope = scope;
  issued_at = 10;
  expires_at = 20;
}

abbrev pub identity : Text → Text
identity t = t

abbrev pub encode : CapabilityScope → Text
encode s = s.capability

abbrev pub hash : PlanDocument → Text
hash _ = codes "h"

abbrev new_grant : Grant
new_grant = minted input document (codes "h") scope 10

abbrev with_grant : Tables
with_grant = record tables { grants = new_grant ∷ [] }

issue_grant_run :
    issue_grant identity identity encode hash (λ _. true) (λ _. true) 0 input tables
    ≡ issued with_grant new_grant
unfolding issue_grant issue_normal insert_grant require_current_plan require_approved_scope approves
    scope_covers_step plan_contains_scope http_get_domain_narrowing scope_eq texts_eq normalized
    with_steps sort_steps insert_step normalize_steps normalize_step with_capabilities sort_scopes
    insert_scope normalize_capabilities normalize_text_list normalize_capability normal_scope
    normalize_domains normalize_paths valid_capability needs_paths valid_paths valid_calls
    is_absolute_capability_path is_drive_path sorted_unique unique_texts drop_repeats sort_texts
    insert_text text_ltb valid_risk risk_order find_row text_eq trim_space normalized_time
    has_prefix eq_ℤ
issue_grant_run = refl

issue_grant-IsSanctioned_example :
    (p : PlanDocument) × (s : CapabilityScope) × (normalized identity identity encode document
      ≡ some p)
    × (normalize_capability identity identity scope ≡ some s)
    × IsSanctioned hash input p s (normalized_time 0 10) tables
    × (new_grant ≡ minted input p (hash p) s (normalized_time 0 10))
    × (with_grant ≡ record tables { grants = tables.grants ++ new_grant ∷ [] })
issue_grant-IsSanctioned_example =
    issue_grant-IsSanctioned identity identity encode hash (λ _. true) (λ _. true) 0 input tables
      with_grant new_grant issue_grant_run

-- The plan's hash has become `k`.
abbrev invalidated : Tables
invalidated = record tables { approvals = record approval { invalidated_at = some 12 } ∷ [] }

invalidate_run :
    invalidate_for_plan_change 0 (codes "p") (codes "k") 12 tables ≡ issued invalidated 1
unfolding invalidate_for_plan_change update_rows superseded text_eq trim_space normalized_time
invalidate_run = refl

is_approved-invalidate_for_plan_change_example :
    is_approved (λ t. t ∷ []) (codes "p") 1 (codes "h") (codes "s") 11 invalidated.approvals ≡ (
      text_eq (codes "h") (codes "k")
      && is_approved (λ t. t ∷ []) (codes "p") 1 (codes "h") (codes "s") 11 tables.approvals)
is_approved-invalidate_for_plan_change_example =
    is_approved-invalidate_for_plan_change (λ t. t ∷ []) (codes "p") 1 (codes "s") 11 0 12
      (codes "k") (codes "h") tables invalidated 1 invalidate_run

is_approved_run :
    is_approved (λ t. t ∷ []) (codes "p") 1 (codes "h") (codes "s") 11 tables.approvals ≡ true
unfolding is_approved counts text_eq trim_space scope_covers_step text_ltb eq_ℤ
is_approved_run = refl

abbrev reads : GrantRequest
reads = record {
  grant_id = codes "g";
  task_id = codes "t";
  plan_id = codes "p";
  step_id = codes "s";
  plan_hash = codes "h";
  capability = codes "read";
  path = codes "/w/a";
  command = [];
  arguments = [];
  network_domain = [];
  duration = pos 1;
  now = 12;
}

matches_run : grant_matches_request (λ root path. true) identity new_grant reads ≡ true
unfolding grant_matches_request path_allowed domain_allowed command_args_match duration_exceeds
    text_eq trim_space trim_suffix has_suffix
matches_run = refl

issue_grant-authorize_and_consume_example :
    (after : List Grant) × (authorize_and_consume
        (λ root path. true)
        identity
        (λ id. some (codes "h", task_state_text running))
        0
        reads
        with_grant.grants
      ≡ committed after)
issue_grant-authorize_and_consume_example =
    issue_grant-authorize_and_consume identity identity encode hash (λ _. true) (λ _. true) 0 0
      input tables with_grant new_grant reads (λ root path. true) identity
      (λ id. some (codes "h", task_state_text running)) issue_grant_run refl
      (unfold normalized_time in omega arith) matches_run refl
