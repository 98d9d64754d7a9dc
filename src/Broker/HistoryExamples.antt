-- ===== src/Broker/HistoryExamples.antt =====
-- The theorems on histories of the broker at concrete calls.
use auto_ze_agent.Common.{
  update_rows, List, [], arith, codes, count_of, false, find_row, is_blank, length, none, refl,
  some, text_eq, trim_left, trim_right, trim_space, true, ◌+◌, ◌∷◌, ◌≡◌, ◌≤◌,
}
use auto_ze_agent.Approval.Grant.{find_grant}
use auto_ze_agent.Approval.Ops.{calls_used, calls_max}
use auto_ze_agent.Broker.Calls.{
  is_running, finish_tool_call, ToolCall, new_call, cancel_incomplete_tool_calls,
}
use auto_ze_agent.Broker.Steps.{ends, run_step, Step, starts, cancels, run_steps}
use auto_ze_agent.Broker.Uses.{count_under, run_steps-limited}
use auto_ze_agent.Broker.Once.{IsOnce, run_steps-IsOnce}
use auto_ze_agent.Broker.Kept.{KeptIn, run_steps-KeptIn}
use auto_ze_agent.Broker.Cancels.{CancelledIn, running_in, cancel_incomplete_tool_calls_lem}
use auto_ze_agent.Broker.Calls.{succeeded, finished}
use auto_ze_agent.Broker.Rounds.{
  BodyResult, not_ended, new_response, finish_call, take_output, end_state,
}
use auto_ze_agent.Broker.Examples.{broker, surroundings, request, world}

-- Two calls under one grant of one use.
abbrev steps : List Step
steps =
    starts surroundings false request
    ∷ starts surroundings false (record request { call_id = codes "d" })
    ∷ cancels (codes "r") 16
    ∷ []

unused :
    calls_used (find_grant (codes "g") world.grants)
    ≤ calls_max (find_grant (codes "g") world.grants)
unfolding find_grant text_eq
unused = omega arith

run_steps-limited_example :
    count_under (codes "g") (run_steps broker steps world).calls
      + calls_used (find_grant (codes "g") world.grants)
    ≤ count_under (codes "g") world.calls + calls_max (find_grant (codes "g") world.grants)
run_steps-limited_example = run_steps-limited (codes "g") broker steps world unused

world-IsOnce : IsOnce world
unfolding count_of
world-IsOnce = (refl, λ id. omega arith)

run_steps-IsOnce_example : IsOnce (run_steps broker steps world)
run_steps-IsOnce_example = run_steps-IsOnce broker steps world world-IsOnce

abbrev call : ToolCall
call = new_call request 15

finds_call :
    find_row ToolCall.tool_call_id (codes "c") (record world { calls = call ∷ [] }).calls
    ≡ some call
unfolding find_row text_eq
finds_call = refl

run_steps-KeptIn_example :
    KeptIn (codes "c") call (run_steps broker steps (record world { calls = call ∷ [] }))
run_steps-KeptIn_example =
    run_steps-KeptIn (codes "c") call broker steps (record world { calls = call ∷ [] }) finds_call

not_blank : is_blank (codes " r") ≡ false
unfolding trim_space trim_left trim_right
not_blank = refl

cancel_incomplete_tool_calls_lem_example :
    (running_in
        (trim_space (codes " r"))
        (cancel_incomplete_tool_calls (codes " r") 16 (call ∷ [])).0
      ≡ [])
    × CancelledIn
        (trim_space (codes " r"))
        16
        (find_row ToolCall.tool_call_id (codes "c") (call ∷ []))
        (find_row ToolCall.tool_call_id
          (codes "c")
          (cancel_incomplete_tool_calls (codes " r") 16 (call ∷ [])).0)
    × ((cancel_incomplete_tool_calls (codes " r") 16 (call ∷ [])).1
        ≡ some (length (running_in (trim_space (codes " r")) (call ∷ []))))
cancel_incomplete_tool_calls_lem_example =
    cancel_incomplete_tool_calls_lem (codes " r") 16 (call ∷ []) (codes "c") not_blank

abbrev result : BodyResult
result = record {
  output = [];
  error = none;
  context_end = not_ended;
  json_valid = λ _. true;
  artifact = none;
  audit_ok = true;
  finished_at = 17;
}

-- A call that was cancelled while its tool ran has succeeded once the tool returns.
overwrites :
    (run_steps broker
      (cancels (codes "r") 16 ∷ ends request 15 result ∷ [])
      (record world { calls = call ∷ [] })).calls
    ≡ record call {
      state = succeeded;
      response = some (finished (new_response request 15 17) none);
      finished_at = some 17;
    }
      ∷ []
unfolding run_steps run_step cancel_incomplete_tool_calls finish_call finish_tool_call take_output
    end_state update_rows is_running text_eq trim_space trim_left trim_right
overwrites = refl
