-- ===== src/Stream/Events.antt =====
-- pkg/providerapi/provider.go: the events of a streamed answer, the accumulator that collects them,
-- and the emission of a whole answer as events. A nil handler or provider is left out.
use auto_ze_agent.Common.{
  Bool, List, Option, Text, [], false, if◌then◌else◌, is_blank, is_nil, is_some, none, not, pos,
  some, true, ℤ, ◌++◌, ◌||◌, ◌∷◌,
}
use auto_ze_agent.Context.Message.{ToolCall}

-- `other_type` stands for a type string that is none of the named ones.
pub data StreamType : Type 0 where
  stream_delta stream_thinking stream_tool_call stream_complete : StreamType
  other_type : Text → StreamType

pub record Usage : Type 0 where
  pub input_tokens : ℤ
  pub output_tokens : ℤ
  pub total_tokens : ℤ
  pub cache_read_tokens : ℤ
  pub cache_write_tokens : ℤ
  pub cost_currency : Text
  pub cost_micros : ℤ

pub record StreamEvent : Type 0 where
  pub kind : StreamType
  pub content_delta : Text
  pub thinking_delta : Text
  pub tool_call : Option ToolCall
  pub usage : Option Usage
  pub finish_reason : Text

pub record CompletionResponse : Type 0 where
  pub content : Text
  pub thinking : Text
  pub finish_reason : Text
  pub tool_calls : List ToolCall
  pub usage : Usage

abbrev pub zero_usage : Usage
zero_usage = record {
  input_tokens = pos 0;
  output_tokens = pos 0;
  total_tokens = pos 0;
  cache_read_tokens = pos 0;
  cache_write_tokens = pos 0;
  cost_currency = [];
  cost_micros = pos 0;
}

abbrev pub empty_response : CompletionResponse
empty_response = record {
  content = [];
  thinking = [];
  finish_reason = [];
  tool_calls = [];
  usage = zero_usage;
}

pub record StreamAccumulator : Type 0 where
  pub response : CompletionResponse
  pub completed : Bool

abbrev pub new_accumulator : StreamAccumulator
new_accumulator = record { response = empty_response; completed = false }

-- A call without an ID or a name.
abbrev pub is_unnamed : ToolCall → Bool
is_unnamed c = is_blank c.id || is_blank c.name

unfoldable pub add_call :
    StreamAccumulator → StreamEvent → Option ToolCall → Option StreamAccumulator
add_call a e none = none
add_call a e (some c) =
    if is_unnamed c
      || (not (is_nil e.content_delta)
          || (not (is_nil e.thinking_delta) || (is_some e.usage || not (is_nil e.finish_reason))))
    then none
    else some
        (record a { response = record a.response { tool_calls = a.response.tool_calls ++ c ∷ [] } })

unfoldable pub add_usage : StreamAccumulator → StreamEvent → Option Usage → Option StreamAccumulator
add_usage a e none = none
add_usage a e (some u) =
    if not (is_nil e.content_delta) || (not (is_nil e.thinking_delta) || is_some e.tool_call)
    then none
    else some (record {
      response = record a.response { usage = u; finish_reason = e.finish_reason };
      completed = true;
    })

unfoldable pub add_kind : StreamType → StreamAccumulator → StreamEvent → Option StreamAccumulator
unfolding add_call add_usage
add_kind stream_delta a e =
    if is_nil e.content_delta
      || (not (is_nil e.thinking_delta)
          || (is_some e.tool_call || (is_some e.usage || not (is_nil e.finish_reason))))
    then none
    else some (record a {
      response = record a.response { content = a.response.content ++ e.content_delta };
    })
add_kind stream_thinking a e =
    if is_nil e.thinking_delta
      || (not (is_nil e.content_delta)
          || (is_some e.tool_call || (is_some e.usage || not (is_nil e.finish_reason))))
    then none
    else some (record a {
      response = record a.response { thinking = a.response.thinking ++ e.thinking_delta };
    })
add_kind stream_tool_call a e = add_call a e e.tool_call
add_kind stream_complete a e = add_usage a e e.usage
add_kind (other_type t) a e = none

-- `StreamAccumulator.Add`; `none` is the error `ErrInvalidStream`.
unfoldable pub add : StreamAccumulator → StreamEvent → Option StreamAccumulator
unfolding add_kind
add a e = if a.completed then none else add_kind e.kind a e

-- `StreamAccumulator.Response`.
unfoldable pub response_of : StreamAccumulator → Option CompletionResponse
response_of a = if a.completed then some a.response else none

-- A handler is called with a state that it keeps; `none` is an error of it.
abbrev pub Handler : Type 0 → Type 0
Handler S = S → StreamEvent → Option S

unfoldable pub and_then {ℓ κ} : {A : Type ℓ} {B : Type κ} → Option A → (A → Option B) → Option B
and_then none f = none
and_then (some a) f = f a

-- The handler called with each event until it fails.
unfoldable pub feed : {S : Type 0} → Handler S → S → List StreamEvent → Option S
feed handler s [] = some s
feed handler s (e ∷ es) = and_then (handler s e) (λ s'. feed handler s' es)

abbrev pub thinking_event : Text → StreamEvent
thinking_event t = record {
  kind = stream_thinking;
  content_delta = [];
  thinking_delta = t;
  tool_call = none;
  usage = none;
  finish_reason = [];
}

abbrev pub delta_event : Text → StreamEvent
delta_event t = record {
  kind = stream_delta;
  content_delta = t;
  thinking_delta = [];
  tool_call = none;
  usage = none;
  finish_reason = [];
}

abbrev pub call_event : ToolCall → StreamEvent
call_event c = record {
  kind = stream_tool_call;
  content_delta = [];
  thinking_delta = [];
  tool_call = some c;
  usage = none;
  finish_reason = [];
}

abbrev pub complete_event : Option Usage → Text → StreamEvent
complete_event u reason = record {
  kind = stream_complete;
  content_delta = [];
  thinking_delta = [];
  tool_call = none;
  usage = u;
  finish_reason = reason;
}

module _ {S : Type 0} (handler : Handler S) where
  unfoldable pub emit_unless_nil : Text → StreamEvent → S → Option S
  emit_unless_nil t e s = if is_nil t then some s else handler s e

  unfoldable pub emit_calls : List ToolCall → S → Option S
  emit_calls [] s = some s
  emit_calls (c ∷ cs) s = and_then (handler s (call_event c)) (emit_calls cs)

  -- `EmitResponse`.
  unfoldable pub emit_response : CompletionResponse → S → Option S
  unfolding emit_unless_nil emit_calls and_then
  emit_response r s = and_then (emit_unless_nil r.thinking (thinking_event r.thinking) s) λ s₁.
      and_then (emit_unless_nil r.content (delta_event r.content) s₁) λ s₂.
        and_then (emit_calls r.tool_calls s₂)
          λ s₃. handler s₃ (complete_event (some r.usage) r.finish_reason)

-- `CollectStream` of a provider that calls the handler it is given.
unfoldable pub collect_stream :
    (Handler StreamAccumulator → StreamAccumulator → Option StreamAccumulator)
    → Option CompletionResponse
unfolding and_then
collect_stream stream = and_then (stream add new_accumulator) response_of
