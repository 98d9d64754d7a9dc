-- ===== src/Approval/Examples.antt =====
-- The theorems on internal/approval/grant.go at concrete grants, and tests of the definitions.
use auto_ze_agent.Common.{
  List, Option, Text, [], arith, codes, false, has_prefix, is_blank, none, pos, refl, some, text_eq,
  trim_space, true, ◌+◌, ◌↔◌, ◌∷◌, ◌≡◌, ◌≤◌, ◌⊎◌,
}
use auto_ze_agent.Kernel.Base.{normalized_time}
use auto_ze_agent.Kernel.Task.{task_state_text}
use auto_ze_agent.Approval.Match.{
  CapabilityScope, Grant, GrantRequest, grant_matches_request, texts_eq, match_leading,
  args_match_prefix, command_args_match, has_suffix, trim_suffix, domain_allowed, path_allowed,
  duration_exceeds,
}
use auto_ze_agent.Approval.Grant.{
  committed, find_grant, update_where, load_grant, consumable, check_plan, consume_checked,
  authorize_loaded, authorize_and_consume, revocable, after_event, revoke_loaded, revoke_grant,
}
use auto_ze_agent.Approval.Consumption.{Permits}
use auto_ze_agent.Approval.Commits.{IsKey, authorize_and_consume_iff}
use auto_ze_agent.Approval.Ops.{
  Op, authorizes, run_op, settled, granted, run_ops, count_granted, calls_used, calls_max,
  is_revoked,
}
use auto_ze_agent.Approval.History.{run_ops-bounded, run_ops-revoked}
use auto_ze_agent.Approval.Normal.{
  text_ltb, insert_text, sort_texts, drop_repeats, unique_texts, sorted_unique, is_drive_path,
  is_absolute_capability_path, valid_calls, valid_paths, needs_paths, valid_capability,
  normalize_paths, normalize_domains, normal_scope, normalize_capability,
}
use auto_ze_agent.Approval.Coverage.{Leads, command_args_match_iff}

abbrev go_test : CapabilityScope
go_test = record {
  capability = codes "process_exec";
  paths = codes "/w" ∷ [];
  command = codes "go";
  arguments = codes "test" ∷ [];
  network_domains = [];
  max_duration_ms = pos 1000;
  max_calls = 1;
  one_time = true;
}

abbrev grant : Grant
grant = record {
  id = codes "g";
  approval_id = codes "a";
  task_id = codes "t";
  plan_id = codes "p";
  step_id = codes "s";
  plan_hash = codes "h";
  scope = go_test;
  issued_at = 10;
  expires_at = 20;
  used_calls = 0;
  revoked_at = none;
}

abbrev request : GrantRequest
request = record {
  grant_id = codes "g";
  task_id = codes "t";
  plan_id = codes "p";
  step_id = codes "s";
  plan_hash = codes "h";
  capability = codes "process_exec";
  path = codes "/w";
  command = codes "go";
  arguments = codes "test" ∷ codes "-v" ∷ [];
  network_domain = [];
  duration = pos 1000000;
  now = 15;
}

-- A path is inside itself only; the plan is current and its task runs.
abbrev plans : Text → Option (Text × Text)
plans p = some (codes "h", codes "running")

abbrev use_grant : Op
use_grant = authorizes text_eq (λ s. s) plans 15 request

abbrev revoked : Grant
revoked = record grant { revoked_at = some 12 }

grant-IsKey : IsKey request.grant_id (grant ∷ [])
unfolding text_eq
grant-IsKey = omega arith

authorize_and_consume_iff_example :
    ((after : List Grant) × (authorize_and_consume text_eq (λ s. s) plans 15 request (grant ∷ [])
        ≡ committed after))
    ↔ ((is_blank request.grant_id ≡ false)
        × ((g : Grant) × (find_grant request.grant_id (grant ∷ []) ≡ some g)
            × Permits text_eq (λ s. s) plans (normalized_time 15 request.now) request g))
authorize_and_consume_iff_example =
    authorize_and_consume_iff text_eq (λ s. s) plans 15 request (grant ∷ []) grant-IsKey

-- The second use is refused.
used_once : count_granted (codes "g") (use_grant ∷ use_grant ∷ []) (grant ∷ []) ≡ 1
unfolding count_granted run_op settled granted authorize_and_consume authorize_loaded load_grant
    find_grant consume_checked check_plan update_where consumable grant_matches_request texts_eq
    match_leading args_match_prefix command_args_match domain_allowed path_allowed duration_exceeds
    trim_suffix has_suffix text_eq trim_space has_prefix normalized_time task_state_text
used_once = refl

run_ops-bounded_example :
    (calls_used (find_grant (codes "g") (run_ops (use_grant ∷ use_grant ∷ []) (grant ∷ [])))
      ≡ calls_used (find_grant (codes "g") (grant ∷ []))
        + count_granted (codes "g") (use_grant ∷ use_grant ∷ []) (grant ∷ []))
    × (calls_used (find_grant (codes "g") (grant ∷ []))
          ≤ calls_max (find_grant (codes "g") (grant ∷ []))
        → calls_used (find_grant (codes "g") (grant ∷ []))
            + count_granted (codes "g") (use_grant ∷ use_grant ∷ []) (grant ∷ [])
          ≤ calls_max (find_grant (codes "g") (grant ∷ [])))
run_ops-bounded_example = run_ops-bounded (codes "g") (use_grant ∷ use_grant ∷ []) (grant ∷ [])

revoked-is_revoked : is_revoked (find_grant (codes "g") (revoked ∷ [])) ≡ true
unfolding find_grant text_eq
revoked-is_revoked = refl

run_ops-revoked_example :
    (count_granted (codes "g") (use_grant ∷ []) (revoked ∷ []) ≡ 0)
    × (is_revoked (find_grant (codes "g") (run_ops (use_grant ∷ []) (revoked ∷ []))) ≡ true)
run_ops-revoked_example =
    run_ops-revoked (codes "g") (use_grant ∷ []) (revoked ∷ []) revoked-is_revoked

revokes_grant : revoke_grant (λ g. true) 12 (codes "g") 12 (grant ∷ []) ≡ committed (revoked ∷ [])
unfolding revoke_grant revoke_loaded after_event update_where revocable load_grant find_grant
    text_eq trim_space normalized_time
revokes_grant = refl

command_args_match_iff_example :
    (command_args_match (codes "go") (codes "test" ∷ []) (codes "go") (codes "testify" ∷ []) ≡ true)
    ↔ (((codes "go" ≡ []) ⊎ (codes "go" ≡ trim_space (codes "go")))
        × ((codes "test" ∷ [] ≡ []) ⊎ Leads (codes "test" ∷ []) (codes "testify" ∷ [])))
command_args_match_iff_example =
    command_args_match_iff (codes "go") (codes "test" ∷ []) (codes "go") (codes "testify" ∷ [])

sorts : sorted_unique (codes "b" ∷ codes "a" ∷ codes "b" ∷ []) ≡ codes "a" ∷ codes "b" ∷ []
unfolding sorted_unique unique_texts sort_texts insert_text drop_repeats text_ltb text_eq
sorts = refl

go_test_normal : normalize_capability (λ p. p) (λ d. d) go_test ≡ some go_test
unfolding normalize_capability normal_scope normalize_paths normalize_domains valid_capability
    valid_calls valid_paths needs_paths is_absolute_capability_path is_drive_path sorted_unique
    unique_texts sort_texts insert_text drop_repeats text_ltb text_eq trim_space has_prefix
go_test_normal = refl
