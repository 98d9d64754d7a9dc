-- ===== src/Stream/Examples.antt =====
-- The theorems on streamed answers at concrete ones, and a test of the hub.
use auto_ze_agent.Common.{
  List, map, text_eq, trim_space, [], any, codes, if◌then◌else◌, none, refl, some, ◌∷◌, ◌≡◌,
}
use auto_ze_agent.Context.Message.{ToolCall}
use auto_ze_agent.Stream.Events.{
  StreamEvent, CompletionResponse, zero_usage, is_unnamed, add, response_of, feed, and_then,
  emit_response, collect_stream, delta_event, thinking_event, call_event, complete_event,
}
use auto_ze_agent.Stream.Emit.{collect_stream-emit_response}
use auto_ze_agent.Stream.Collect as Collect
use auto_ze_agent.Stream.Collect.{IsWhole, contents, thoughts, collect_stream_sound}
use auto_ze_agent.Stream.Hub.{Envelope, Emission, batch_key, new_hub}
use auto_ze_agent.Stream.Hub.{
  publish, publish_debounced, emit, flush_and_emit, flush_key, flush_batch, emission_unless,
  open_batch, grow_batch,
}
use auto_ze_agent.Stream.Batches.{publishes, fires, run_call}
use auto_ze_agent.Stream.Flights.{
  Step, IsTaken, calls, emits, new_traffic, published_text, run_step, run_steps, emit_next, pick,
  run_steps-IsTaken,
}

abbrev completion : StreamEvent
completion = complete_event (some zero_usage) (codes "stop")

abbrev call : ToolCall
call = record { id = codes "c1"; name = codes "read"; arguments = codes "{}" }

abbrev answer : CompletionResponse
answer = record {
  content = codes "done";
  thinking = codes "hm";
  finish_reason = codes "stop";
  tool_calls = call ∷ [];
  usage = zero_usage;
}

collect_stream-emit_response_example :
    collect_stream (λ handler s. emit_response handler answer s)
    ≡ (if any is_unnamed answer.tool_calls then none else some answer)
collect_stream-emit_response_example = collect_stream-emit_response answer

abbrev events : List StreamEvent
events =
    thinking_event (codes "hm")
    ∷ delta_event (codes "do")
    ∷ delta_event (codes "ne")
    ∷ call_event call
    ∷ complete_event (some zero_usage) (codes "stop")
    ∷ []

collected : collect_stream (λ handler s. feed handler s events) ≡ some answer
unfolding collect_stream feed add response_of and_then trim_space
collected = refl

collect_stream_sound_example :
    (answer.content ≡ contents events)
    × (answer.thinking ≡ thoughts events)
    × (answer.tool_calls ≡ Collect.calls events)
    × IsWhole events answer
collect_stream_sound_example = collect_stream_sound events answer collected

-- The timer takes the batch, and the completion overtakes it.
abbrev steps : List Step
steps =
    calls (publishes (codes "s") (codes "t") (codes "r") (delta_event (codes "do")))
    ∷ calls (publishes (codes "s") (codes "t") (codes "q") (delta_event (codes "other")))
    ∷ calls (publishes (codes "s") [] (codes "r") (delta_event (codes "ne")))
    ∷ calls (fires (codes "r:r"))
    ∷ calls (publishes (codes "s") (codes "t") (codes "r") completion)
    ∷ emits 4
    ∷ emits 3
    ∷ []

overtakes :
    map (λ (env : Envelope). env.event) (run_steps steps new_traffic).sent
    ≡ completion ∷ delta_event (codes "done") ∷ []
unfolding run_steps run_step run_call emit_next pick emit publish publish_debounced flush_and_emit
    flush_key flush_batch emission_unless open_batch grow_batch batch_key new_hub text_eq
overtakes = refl

run_steps-IsTaken_example :
    (taken : List Emission) × IsTaken
      (λ thinking key. published_text thinking key steps)
      (run_steps steps new_traffic)
      taken
run_steps-IsTaken_example = run_steps-IsTaken steps
