-- ===== src/Stream/Emit.antt =====
-- A whole answer that is emitted and collected (pkg/providerapi/provider.go).
use auto_ze_agent.Common.{
  Bool, Bool-cases, List, Text, [], any, append-nil, append_assoc, false, if◌then◌else◌, inl, inr,
  none, refl, some, subst, true, ◌++◌, ◌∷◌, ◌≡◌,
}
use auto_ze_agent.Context.Message.{ToolCall}
use auto_ze_agent.Stream.Events.{
  CompletionResponse, StreamAccumulator, is_unnamed, add, response_of, and_then, emit_calls,
  emit_unless_nil, emit_response, collect_stream, thinking_event, delta_event, complete_event,
  zero_usage, empty_response,
}

abbrev open_with : CompletionResponse → StreamAccumulator
open_with p = record { response = p; completed = false }

emit_thinking-add :
    (t : Text) (p : CompletionResponse)
    → emit_unless_nil add t (thinking_event t) (open_with p)
      ≡ some (open_with (record p { thinking = p.thinking ++ t }))
unfolding emit_unless_nil add
emit_thinking-add [] p = rw append-nil refl
emit_thinking-add (c ∷ t) p = refl

emit_content-add :
    (t : Text) (p : CompletionResponse)
    → emit_unless_nil add t (delta_event t) (open_with p)
      ≡ some (open_with (record p { content = p.content ++ t }))
unfolding emit_unless_nil add
emit_content-add [] p = rw append-nil refl
emit_content-add (c ∷ t) p = refl

emit_calls-add :
    (cs : List ToolCall) (p : CompletionResponse)
    → emit_calls add cs (open_with p) ≡ (
        if any is_unnamed cs
        then none
        else some (open_with (record p { tool_calls = p.tool_calls ++ cs })))
unfolding emit_calls add and_then
emit_calls-add [] p = rw append-nil refl
emit_calls-add (c ∷ cs) p = elim (Bool-cases (is_unnamed c)) [
  | inl e ↦ rw e refl
  | inr e ↦ rw e (
      subst
        (λ (l : List ToolCall).
          emit_calls add cs (open_with (record p { tool_calls = p.tool_calls ++ c ∷ [] }))
          ≡ (if any is_unnamed cs then none else some (open_with (record p { tool_calls = l }))))
        (append_assoc p.tool_calls (c ∷ []) cs)
        (emit_calls-add cs (record p { tool_calls = p.tool_calls ++ c ∷ [] })))
]

module _ (r : CompletionResponse) where
  complete-add :
      (bad : Bool)
      → and_then
          (and_then
            (if bad
              then none
              else some (open_with (record r { usage = zero_usage; finish_reason = [] })))
            (λ s. add s (complete_event (some r.usage) r.finish_reason)))
          response_of
        ≡ (if bad then none else some r)
  unfolding add response_of and_then
  complete-add true = refl
  complete-add false = refl

  -- Emitting a whole answer and collecting the events gives the answer back, if each of its tool
  -- calls has an ID and a name that are not blank, and fails otherwise.
  pub collect_stream-emit_response :
      collect_stream (λ handler s. emit_response handler r s)
      ≡ (if any is_unnamed r.tool_calls then none else some r)
  unfolding collect_stream emit_response
  collect_stream-emit_response =
      let p = record empty_response { thinking = r.thinking } in
      rw (emit_thinking-add r.thinking empty_response) (
        rw (emit_content-add r.content p) (
          rw (emit_calls-add r.tool_calls (record p { content = r.content }))
            (complete-add (any is_unnamed r.tool_calls))))
