-- ===== src/Permission/Examples.antt =====
-- The theorems on internal/toolpermission at concrete requests.
use auto_ze_agent.Common.{
  List, Text, [], codes, eq_ℤ, false, find_row, has_prefix, lower_rune, none, refl, some, text_eq,
  to_lower, trim_space, true, update_rows, ◌++◌, ◌+◌, ◌*◌, ◌↔◌, ◌∷◌, ◌≡◌,
}
use auto_ze_agent.Kernel.Base.{normalized_time}
use auto_ze_agent.Policy.{risk_order, valid_risk}
use auto_ze_agent.Approval.Match.{Grant, texts_eq}
use auto_ze_agent.Approval.Normal.{
  text_ltb, insert_text, sort_texts, drop_repeats, unique_texts, sorted_unique, is_drive_path,
  is_absolute_capability_path, valid_calls, valid_paths, needs_paths, valid_capability,
  normalize_paths, normalize_domains, normal_scope, normalize_capability,
}
use auto_ze_agent.Approval.Document.{
  insert_scope, insert_step, normalize_capabilities, normalize_step, normalize_steps,
  normalize_text_list, normalized, sort_scopes, sort_steps, with_capabilities, with_steps,
}
use auto_ze_agent.Approval.Records.{scope_eq, scope_plan}
use auto_ze_agent.Approval.Issue.{
  approves, http_get_domain_narrowing, insert_grant, issue_grant, issue_normal, plan_contains_scope,
  require_approved_scope, require_current_plan, scope_covers_step,
}
use auto_ze_agent.Approval.IssueExamples.{approval, document, encode, hash, identity, scope, tables}
use auto_ze_agent.Permission.Trust.{
  TrustEntry, Trusts, args_has_prefix, entry_matches, is_under, trim_slashes, trusts, trusts_iff,
}
use auto_ze_agent.Permission.Requests.{
  Request, decide_row, get, is_open, mark_decided, state_pending,
}
use auto_ze_agent.Permission.Scopes.{
  candidates, candidates_of, find_plan_scope, narrow_domain, narrow_paths, narrow_process,
  narrow_scope_for_similar, pick,
}
use auto_ze_agent.Permission.Waiter.{Notice, notify, receive, register, send}
use auto_ze_agent.Permission.Choices.{
  DecideError, DecideOptions, Permits, choice_of, decided, finish, finish_marked, refused,
}
use auto_ze_agent.Permission.Decide.{
  Outside, after_issue, allow_approved, allow_loaded, allow_scope, comes_first, decide_as,
  decide_found, decide_open, decide_with_options, find_approval, first_row, found_approval,
  is_usable, issue_for, lookup_again, lookup_approval_id, outcome, persist, plan_hash_of,
  trust_entry,
}
use auto_ze_agent.Permission.Final.{
  Call, Leaves, decide_all, decide_with_options-Leaves, decide_with_options-final,
}
use auto_ze_agent.Permission.Delivered.{first_notice, notify_all, receive-notify_all, received}

abbrev outside : Outside
outside = record {
  format = λ t. t ∷ [];
  clean = identity;
  lower = identity;
  encode = encode;
  hash = hash;
  known_step = λ _. true;
  appends = λ _. true;
  short_hash = λ _. codes "x";
  documents = λ _. some (some document);
  saves = λ _. true;
}

abbrev request : Request
request = record {
  id = codes "q";
  session_id = codes "z";
  task_id = codes "t";
  run_id = codes "r";
  plan_id = codes "p";
  plan_hash = codes "h";
  step_id = codes "s";
  tool_call_id = codes "c";
  tool_name = codes "read";
  arguments = codes "{}";
  capability = codes "read";
  path = [];
  command = [];
  command_args = [];
  network_domain = [];
  risk = [];
  state = codes "pending";
  grant_id = [];
  decision = [];
  decided_by = [];
  created_at = [];
  decided_at = [];
  expires_at = [];
}

abbrev permits : Permits
permits = record {
  requests = request ∷ [];
  tables = record tables {
    approvals = record approval { scope_type = scope_plan; step_id = none; expires_at = none } ∷ [];
  };
  trusted = [];
  waiter = λ _. none;
}

abbrev answer : Request
answer = record request {
  state = codes "allowed_similar";
  grant_id = codes "perm-grant-x";
  decision = codes "allow_similar";
  decided_by = codes "user";
  decided_at = 10 ∷ [];
}

abbrev new_grant : Grant
new_grant = record {
  id = codes "perm-grant-x";
  approval_id = codes "a";
  task_id = codes "t";
  plan_id = codes "p";
  step_id = codes "s";
  plan_hash = codes "h";
  scope = scope;
  issued_at = 10;
  expires_at = 10 + 24 * 3600000000000;
  used_calls = 0;
  revoked_at = none;
}

abbrev after : Permits
after = record permits {
  requests = answer ∷ [];
  tables = record permits.tables { grants = new_grant ∷ [] };
}

abbrev options : DecideOptions
options = record { confirm = false; trust_path = [] }

decide_run :
    decide_with_options outside (codes "q") (codes "Allow_Similar ") [] options 10 permits
    ≡ (after, decided answer)
unfolding decide_with_options decide_as decide_found decide_open allow_loaded allow_scope
    allow_approved issue_for after_issue persist outcome trust_entry lookup_approval_id lookup_again
    found_approval find_approval is_usable first_row comes_first plan_hash_of finish finish_marked
    choice_of notify send pick candidates candidates_of find_plan_scope narrow_scope_for_similar
    narrow_process narrow_domain narrow_paths mark_decided is_open decide_row get state_pending
    to_lower lower_rune update_rows issue_grant issue_normal insert_grant require_current_plan
    require_approved_scope approves scope_covers_step plan_contains_scope http_get_domain_narrowing
    scope_eq texts_eq normalized with_steps sort_steps insert_step normalize_steps normalize_step
    with_capabilities sort_scopes insert_scope normalize_capabilities normalize_text_list
    normalize_capability normal_scope normalize_domains normalize_paths valid_capability needs_paths
    valid_paths valid_calls is_absolute_capability_path is_drive_path sorted_unique unique_texts
    drop_repeats sort_texts insert_text text_ltb valid_risk risk_order find_row text_eq trim_space
    normalized_time has_prefix eq_ℤ
decide_run = refl

decide_with_options-Leaves_example :
    Leaves outside (codes "q") (codes "Allow_Similar ") permits after answer
decide_with_options-Leaves_example =
    decide_with_options-Leaves outside (codes "q") (codes "Allow_Similar ") [] options 10 permits
      after answer decide_run

abbrev denial : Call
denial = record {
  permission_id = codes "q";
  decision = codes "deny";
  actor = [];
  options = options;
  now = 11;
}

decide_with_options-final_example :
    (get (trim_space (codes "q")) (decide_all outside (denial ∷ []) after).requests ≡ some answer)
    × ((e : DecideError) × ((decide_with_options outside
            (codes "q")
            (codes "deny")
            []
            options
            12
            (decide_all outside (denial ∷ []) after)).1
          ≡ refused e))
decide_with_options-final_example =
    decide_with_options-final outside (codes "q") (codes "Allow_Similar ") [] options 10 permits
      after answer decide_run (denial ∷ []) (codes "deny") [] options 12

abbrev entry : TrustEntry
entry = record {
  capability = codes "process_exec";
  path_prefix = codes "/w/";
  command = codes "go";
  args_prefix = codes "test" ∷ [];
  created_at = [];
  session_hint = [];
}

trusts_iff_example :
    (trusts
        (codes "process_exec")
        (codes "/w/a")
        (codes "go")
        (codes "test" ∷ codes "-v" ∷ [])
        (entry ∷ [])
      ≡ true)
    ↔ ((e : TrustEntry) × (front : List TrustEntry) × (back : List TrustEntry) × (entry ∷ []
          ≡ front ++ e ∷ back)
        × Trusts
            (codes "process_exec")
            (codes "/w/a")
            (codes "go")
            (codes "test" ∷ codes "-v" ∷ [])
            e)
trusts_iff_example =
    trusts_iff (codes "process_exec") (codes "/w/a") (codes "go") (codes "test" ∷ codes "-v" ∷ [])
      (entry ∷ [])

trusts_run :
    trusts
      (codes "process_exec")
      (codes "/w/a")
      (codes "go")
      (codes "test" ∷ codes "-v" ∷ [])
      (entry ∷ [])
    ≡ true
unfolding trusts entry_matches is_under trim_slashes args_has_prefix text_eq trim_space has_prefix
trusts_run = refl

abbrev said : Text → Notice
said decision = record { permission_id = codes "q"; decision = decision; grant_id = []; state = [] }

receive-notify_all_example :
    received (
      receive (codes "q") (
        notify_all
          (said (codes "deny") ∷ said (codes "allow_once") ∷ [])
          (register (codes "q") (λ _. none))))
    ≡ first_notice (codes "q") (said (codes "deny") ∷ said (codes "allow_once") ∷ [])
receive-notify_all_example =
    receive-notify_all (codes "q") (said (codes "deny") ∷ said (codes "allow_once") ∷ [])
      (λ _. none) refl refl
