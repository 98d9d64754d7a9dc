-- ===== src/Broker/Examples.antt =====
-- The theorems on internal/tools/broker.go at one tool, one grant and one call.
use auto_ze_agent.Common.{
  inr, [], codes, false, find_row, has_prefix, insert_key, member, none, pos, refl, some, text_eq,
  trim_left, trim_right, trim_space, true, ◌∷◌, ◌≡◌,
}
use auto_ze_agent.Kernel.Base.{normalized_time}
use auto_ze_agent.Kernel.Task.{task_state_text}
use auto_ze_agent.Policy.{r2, default_config, evaluate, risk_order, valid_risk}
use auto_ze_agent.Approval.Match.{
  CapabilityScope, Grant, grant_matches_request, texts_eq, match_leading, args_match_prefix,
  command_args_match, has_suffix, trim_suffix, domain_allowed, path_allowed, duration_exceeds,
}
use auto_ze_agent.Approval.Grant.{
  find_grant, update_where, load_grant, consumable, check_plan, consume_checked, authorize_loaded,
  authorize_and_consume, committed,
}
use auto_ze_agent.Broker.Requests.{
  Authorization, Request, Tool, validate_request, milliseconds, resolve_timeout, add_candidates,
  grant_candidates,
}
use auto_ze_agent.Broker.Schemas.{Entry}
use auto_ze_agent.Broker.Calls.{ToolCall, World, insert_tool_call}
use auto_ze_agent.Broker.Execute.{
  Broker, Surroundings, begun, first_consumed, consume_candidate, authorize_allowed,
  authorize_action, authorize, begin, with_authority, start_with, start, request_of, scope_for,
}
use auto_ze_agent.Broker.Begins.{Begins, began, with_grant, start-Begins}
use auto_ze_agent.Broker.Runs.{HasGrant, start-Starts}

abbrev go_test : CapabilityScope
go_test = record {
  capability = codes "run";
  paths = [];
  command = codes "go";
  arguments = [];
  network_domains = [];
  max_duration_ms = pos 1000;
  max_calls = 1;
  one_time = true;
}

abbrev grant : Grant
grant = record {
  id = codes "g";
  approval_id = codes "a";
  task_id = codes "t";
  plan_id = codes "p";
  step_id = codes "s";
  plan_hash = codes "h";
  scope = go_test;
  issued_at = 10;
  expires_at = 20;
  used_calls = 0;
  revoked_at = none;
}

abbrev authorization : Authorization
authorization = record {
  capability = [];
  path = [];
  command = codes "go";
  arguments = [];
  network_domain = [];
}

abbrev pub tool : Tool
tool = record {
  definition = record {
    name = codes "run";
    description = codes "runs a command";
    input_schema = codes "{}";
    risk = r2;
    default_timeout_millis = pos 1;
  };
  authorization = λ _. some authorization;
}

abbrev pub entry : Entry
entry = record { name = codes "run"; tool = tool }

abbrev pub broker : Broker
broker = record {
  registry = entry ∷ [];
  policy = some default_config;
  maximum_timeout = pos 5000000;
  artifact_threshold = 8;
  has_permission = true;
}

-- A path is inside itself only; every text is JSON.
abbrev pub surroundings : Surroundings
surroundings = record {
  contains_resolved = text_eq;
  lower = λ s. s;
  json_valid = λ _. true;
  stores_call = λ _. true;
  audit_ok = true;
  started_at = 15;
  now = 15;
  clock = 15;
}

abbrev pub request : Request
request = record {
  call_id = codes "c";
  run_id = codes "r";
  task_id = codes "t";
  plan_id = codes "p";
  plan_hash = codes "h";
  step_id = codes "s";
  capability_grant_id = [];
  capability_grant_ids = codes "g" ∷ [];
  actor = codes "job";
  trace_id = [];
  interactive = true;
  tool = codes "run";
  arguments = codes "{}";
  timeout_millis = pos 0;
}

abbrev pub world : World
world = record {
  grants = grant ∷ [];
  plans = λ p. some (codes "h", codes "running");
  calls = [];
  bodies = [];
}

abbrev world' : World
world' = began (record grant { used_calls = 1 } ∷ []) (with_grant (codes "g") request) 15 world

starts_with_grant :
    start surroundings broker false request world ≡ (world', begun (with_grant (codes "g") request))
unfolding start start_with with_authority begin authorize authorize_action authorize_allowed
    consume_candidate first_consumed insert_tool_call validate_request resolve_timeout milliseconds
    grant_candidates add_candidates insert_key member find_row default_config evaluate valid_risk
    risk_order authorize_and_consume authorize_loaded load_grant find_grant consume_checked
    check_plan update_where consumable grant_matches_request texts_eq match_leading
    args_match_prefix command_args_match domain_allowed path_allowed duration_exceeds trim_suffix
    has_suffix text_eq trim_space trim_left trim_right has_prefix normalized_time task_state_text
starts_with_grant = refl

start-Begins_example :
    Begins surroundings broker request world (with_grant (codes "g") request) world'
start-Begins_example =
    start-Begins surroundings broker false request world (with_grant (codes "g") request) world'
      starts_with_grant

consumes_grant :
    authorize_and_consume text_eq
      (λ s. s)
      world.plans
      15
      (request_of (codes "g") request (scope_for request authorization) (pos 1000000) 15)
      world.grants
    ≡ committed (record grant { used_calls = 1 } ∷ [])
unfolding authorize_and_consume authorize_loaded load_grant find_grant consume_checked check_plan
    update_where consumable grant_matches_request texts_eq match_leading args_match_prefix
    command_args_match domain_allowed path_allowed duration_exceeds trim_suffix has_suffix text_eq
    trim_space trim_left trim_right has_prefix normalized_time task_state_text
consumes_grant = refl

has_grant :
    HasGrant surroundings broker tool.definition
      (scope_for request authorization)
      (pos 1000000)
      request
      world
unfolding default_config grant_candidates add_candidates insert_key member text_eq trim_space
    trim_left trim_right
has_grant = (inr refl, (codes "g", record grant { used_calls = 1 } ∷ [], (refl, consumes_grant)))

is_valid : validate_request (λ _. true) request ≡ none
unfolding validate_request trim_space trim_left trim_right
is_valid = refl

finds_tool : find_row Entry.name request.tool broker.registry ≡ some entry
unfolding find_row text_eq
finds_tool = refl

takes_default : resolve_timeout (pos 5000000) (pos 0) (pos 1) ≡ some (pos 1000000)
unfolding resolve_timeout milliseconds
takes_default = refl

known_risk : valid_risk tool.definition.risk ≡ true
unfolding valid_risk risk_order
known_risk = refl

unstored : find_row ToolCall.tool_call_id request.call_id world.calls ≡ none
unfolding find_row
unstored = refl

start-Starts_example :
    (r' : Request) × ((start surroundings broker false request world).1 ≡ begun r')
start-Starts_example =
    start-Starts surroundings refl (λ _. refl) broker false request world entry (pos 1000000)
      authorization is_valid finds_tool takes_default refl known_risk unstored (inr has_grant)
