-- ===== src/Broker/AnswerExamples.antt =====
-- The theorems on whole runs of `Execute`, on the registry and on timeouts at concrete inputs.
use auto_ze_agent.Common.{
  Option, Text, [], arith, codes, count_of, false, find_row, has_prefix, insert_key, inl, inr,
  lower_rune, member, none, pos, refl, some, text_eq, to_lower, trim_left, trim_right, trim_space,
  true, update_rows, ◌∷◌, ◌≡◌, ◌≢◌,
}
use auto_ze_agent.Kernel.Base.{normalized_time}
use auto_ze_agent.Kernel.Task.{task_state_text}
use auto_ze_agent.Policy.{default_config, evaluate, risk_order, valid_risk}
use auto_ze_agent.Approval.Match.{
  grant_matches_request, texts_eq, match_leading, args_match_prefix, command_args_match, has_suffix,
  trim_suffix, domain_allowed, path_allowed, duration_exceeds,
}
use auto_ze_agent.Approval.Grant.{
  find_grant, update_where, load_grant, consumable, check_plan, consume_checked, authorize_loaded,
  authorize_and_consume,
}
use auto_ze_agent.Broker.Requests.{
  is_name_char, valid_name, validate_request, milliseconds, resolve_timeout,
  is_non_interactive_tool_caller, add_candidates, grant_candidates,
}
use auto_ze_agent.Broker.Schemas.{
  Json, object, string, field, no_fields, get_field, is_string_of, object_if_there,
  strings_if_there, is_object_schema, validate_input_schema, well_defined, register,
}
use auto_ze_agent.Broker.Calls.{Response, insert_tool_call, finish_tool_call, whole}
use auto_ze_agent.Broker.Execute.{
  first_consumed, consume_candidate, authorize_allowed, authorize_action, authorize, begin,
  with_authority, start_with, start,
}
use auto_ze_agent.Broker.Rounds.{
  not_ended, Environment, answered, out_of_rounds, byte_length, take_output, end_state, finish_call,
  finish_body, after_start, execute,
}
use auto_ze_agent.Broker.Waits.{with_gate, execute-with_gate}
use auto_ze_agent.Broker.Answers.{Succeeded, execute-returns, execute-Succeeded}
use auto_ze_agent.Broker.Registry.{IsRegistry, register_all, register_all-IsRegistry}
use auto_ze_agent.Broker.Examples.{tool, entry, broker, surroundings, request, world}

-- The tool answers at once with `{}`.
abbrev environment : Environment
environment = record {
  surroundings = λ n w. surroundings;
  create_pending = λ p w. (w, none);
  wait = λ id w. (w, none);
  body = λ r w. (
    w,
    record {
      output = codes "{}";
      error = none;
      context_end = not_ended;
      json_valid = λ _. true;
      artifact = none;
      audit_ok = true;
      finished_at = 17;
    },
  );
}

abbrev response : Response
response = record {
  call_id = codes "c";
  tool = codes "run";
  output = whole (codes "{}");
  artifact = none;
  started_at = 15;
  finished_at = 17;
}

answers : (execute environment broker 2 false request world).1 ≡ answered response none
unfolding execute after_start finish_body finish_call finish_tool_call take_output byte_length
    end_state update_rows start start_with with_authority begin authorize authorize_action
    authorize_allowed consume_candidate first_consumed insert_tool_call validate_request
    resolve_timeout milliseconds grant_candidates add_candidates insert_key member find_row
    default_config evaluate valid_risk risk_order authorize_and_consume authorize_loaded load_grant
    find_grant consume_checked check_plan update_where consumable grant_matches_request texts_eq
    match_leading args_match_prefix command_args_match domain_allowed path_allowed duration_exceeds
    trim_suffix has_suffix text_eq trim_space trim_left trim_right has_prefix normalized_time
    task_state_text
answers = refl

execute-Succeeded_example :
    Succeeded (codes "c") (execute environment broker 2 false request world).0 response
execute-Succeeded_example =
    execute-Succeeded environment broker 2 false request world response answers

execute-returns_example : (execute environment broker 2 false request world).1 ≢ out_of_rounds
execute-returns_example = execute-returns environment broker 0 false request world

is_job : is_non_interactive_tool_caller request ≡ true
unfolding is_non_interactive_tool_caller has_prefix trim_space trim_left trim_right member text_eq
    to_lower lower_rune
is_job = refl

execute-with_gate_example :
    execute
      (with_gate (λ p w. (w, some (codes "q"))) (λ id w. (w, none)) environment)
      broker
      2
      false
      request
      world
    ≡ execute environment broker 2 false request world
execute-with_gate_example =
    execute-with_gate environment broker (λ p w. (w, some (codes "q"))) (λ id w. (w, none)) 1 false
      request world (inr (inl is_job))

-- The schema is decoded as `{"type": "object"}`.
abbrev decode : Text → Option Json
decode s = some (object (field (codes "type") (string (codes "object")) no_fields))

no_tools : IsRegistry (λ _. true) decode []
unfolding count_of
no_tools = (tt, λ name. omega arith)

register_all-IsRegistry_example :
    IsRegistry (λ _. true) decode (register_all (λ _. true) decode (tool ∷ tool ∷ []) [])
register_all-IsRegistry_example =
    register_all-IsRegistry (λ _. true) decode (tool ∷ tool ∷ []) [] no_tools

-- The second registration of a name is refused.
registers_once : register_all (λ _. true) decode (tool ∷ tool ∷ []) [] ≡ entry ∷ []
unfolding register_all register well_defined validate_input_schema is_object_schema is_string_of
    object_if_there strings_if_there get_field valid_name is_name_char valid_risk risk_order
    find_row text_eq trim_space trim_left trim_right
registers_once = refl

-- A timeout of some nine million years wraps around to a millisecond.
wraps : resolve_timeout (pos 5000000) (pos 288230376151711745) (pos 1) ≡ some (pos 1000000)
unfolding resolve_timeout milliseconds
wraps = refl
