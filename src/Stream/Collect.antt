-- ===== src/Stream/Collect.antt =====
-- What the accumulator collects (pkg/providerapi/provider.go).
use auto_ze_agent.Common.{
  All, Bool, Bool-cases, List, Option, Option-cases, Text, [], ap, append-nil, append_assoc, arith,
  false, inl, inr, is_nil, is_some, none, refl, some, subst, sym, true, ◌++◌, ◌∙◌, ◌∷◌, ◌≡◌,
}
use auto_ze_agent.Context.Message.{ToolCall}
use auto_ze_agent.Stream.Events.{
  StreamType, stream_delta, stream_thinking, stream_tool_call, stream_complete, other_type,
  StreamEvent, CompletionResponse, StreamAccumulator, new_accumulator, add, add_kind, add_call,
  add_usage, response_of, feed, and_then, collect_stream,
}

-- What the events carry, in their order.
abbrev pub contents : List StreamEvent → Text
contents [] = []
contents (e ∷ es) = e.content_delta ++ contents es

abbrev pub thoughts : List StreamEvent → Text
thoughts [] = []
thoughts (e ∷ es) = e.thinking_delta ++ thoughts es

abbrev pub call_list : Option ToolCall → List ToolCall
call_list none = []
call_list (some c) = c ∷ []

abbrev pub calls : List StreamEvent → List ToolCall
calls [] = []
calls (e ∷ es) = call_list e.tool_call ++ calls es

abbrev pub is_complete : StreamType → Bool
is_complete stream_complete = true
is_complete _ = false

-- One event, as the accumulator takes it.
record Added (a : StreamAccumulator) (e : StreamEvent) (b : StreamAccumulator) : Type 0 where
  was_open : a.completed ≡ false
  content : b.response.content ≡ a.response.content ++ e.content_delta
  thinking : b.response.thinking ≡ a.response.thinking ++ e.thinking_delta
  tool_calls : b.response.tool_calls ≡ a.response.tool_calls ++ call_list e.tool_call
  completed : b.completed ≡ is_complete e.kind
  usage : is_complete e.kind ≡ true → e.usage ≡ some b.response.usage
  finish_reason : is_complete e.kind ≡ true → e.finish_reason ≡ b.response.finish_reason

nil_of : {A : Type 0} (xs : List A) → is_nil xs ≡ true → xs ≡ []
nil_of [] h = refl
nil_of (x ∷ xs) h = absurd (cc)

call_of : (c : Option ToolCall) → is_some c ≡ false → c ≡ none
call_of none h = refl
call_of (some c) h = absurd (cc)

module _ (a : StreamAccumulator) (e : StreamEvent) (b : StreamAccumulator) where
  add_kind-Added :
      (k : StreamType) → a.completed ≡ false → e.kind ≡ k → add_kind k a e ≡ some b → Added a e b
  unfolding add_kind
  add_kind-Added stream_delta o k h =
      let no_thinking = nil_of e.thinking_delta (ground arith) in
      let no_call = call_of e.tool_call (ground arith) in
      record {
        was_open = o;
        content = ground arith;
        thinking = rw (no_thinking, append-nil) (ground arith);
        tool_calls = rw no_call (rw append-nil (ground arith));
        completed = rw k (ground (arith, o));
        usage = λ c. absurd (ground (arith, k, c));
        finish_reason = λ c. absurd (ground (arith, k, c));
      }
  add_kind-Added stream_thinking o k h =
      let no_content = nil_of e.content_delta (ground arith) in
      let no_call = call_of e.tool_call (ground arith) in
      record {
        was_open = o;
        content = rw (no_content, append-nil) (ground arith);
        thinking = ground arith;
        tool_calls = rw no_call (rw append-nil (ground arith));
        completed = rw k (ground (arith, o));
        usage = λ c. absurd (ground (arith, k, c));
        finish_reason = λ c. absurd (ground (arith, k, c));
      }
  add_kind-Added stream_tool_call o k h = elim (Option-cases e.tool_call) [
    | inl no_call ↦ absurd (ground (arith, no_call, h))
    | inr (c, is_call) ↦
        let h' = subst (λ x. add_call a e x ≡ some b) is_call h in
        let no_content = nil_of e.content_delta (ground (arith, h')) in
        let no_thinking = nil_of e.thinking_delta (ground (arith, h')) in
        record {
          was_open = o;
          content = rw (no_content, append-nil) (ground (arith, h'));
          thinking = rw (no_thinking, append-nil) (ground (arith, h'));
          tool_calls = rw is_call (ground (arith, h'));
          completed = rw k (ground (arith, o, h'));
          usage = λ c. absurd (ground (arith, k, c));
          finish_reason = λ c. absurd (ground (arith, k, c));
        }
  ]
  add_kind-Added stream_complete o k h = elim (Option-cases e.usage) [
    | inl no_usage ↦ absurd (ground (arith, no_usage, h))
    | inr (u, is_usage) ↦
        let h' = subst (λ x. add_usage a e x ≡ some b) is_usage h in
        let no_content = nil_of e.content_delta (ground (arith, h')) in
        let no_thinking = nil_of e.thinking_delta (ground (arith, h')) in
        let no_call = call_of e.tool_call (ground (arith, h')) in
        record {
          was_open = o;
          content = rw (no_content, append-nil) (ground (arith, h'));
          thinking = rw (no_thinking, append-nil) (ground (arith, h'));
          tool_calls = rw no_call (rw append-nil (ground (arith, h')));
          completed = rw k (ground (arith, h'));
          usage = λ c. rw is_usage (ground (arith, h'));
          finish_reason = λ c. ground (arith, h');
        }
  ]
  add_kind-Added (other_type t) o k h = absurd (cc)

  add-Added : add a e ≡ some b → Added a e b
  unfolding add
  add-Added h = elim (Bool-cases a.completed) [
    | inl done ↦ absurd (ground (arith, done, h))
    | inr o ↦ add_kind-Added e.kind o refl (ground (arith, o, h))
  ]

and_then-some {ℓ κ} :
    {A : Type ℓ} {B : Type κ} (m : Option A) (f : A → Option B) (b : B)
    → and_then m f ≡ some b
    → (a : A) × (m ≡ some a) × (f a ≡ some b)
unfolding and_then
and_then-some none f b h = absurd (cc)
and_then-some (some a) f b h = (a, refl, h)

-- A whole stream that is accepted: it ends with the one completion.
abbrev pub IsWhole : List StreamEvent → CompletionResponse → Type 0
IsWhole es r =
    (front : List StreamEvent) × (last : StreamEvent) × (es ≡ front ++ last ∷ [])
    × All (λ (e : StreamEvent). is_complete e.kind ≡ false) front
    × (is_complete last.kind ≡ true)
    × (last.usage ≡ some r.usage)
    × (last.finish_reason ≡ r.finish_reason)

abbrev Carries : StreamAccumulator → List StreamEvent → StreamAccumulator → Type 0
Carries a es b =
    (b.response.content ≡ a.response.content ++ contents es)
    × (b.response.thinking ≡ a.response.thinking ++ thoughts es)
    × (b.response.tool_calls ≡ a.response.tool_calls ++ calls es)

feed-Carries :
    (es : List StreamEvent) (a b : StreamAccumulator) → feed add a es ≡ some b → Carries a es b
unfolding feed
feed-Carries [] a b h =
    let same : a ≡ b = cc in
    subst (λ x. Carries a [] x) same
      (
        sym (append-nil a.response.content),
        sym (append-nil a.response.thinking),
        sym (append-nil a.response.tool_calls),
      )
feed-Carries (e ∷ es) a b h =
    let (m, k, later) = and_then-some (add a e) (λ s. feed add s es) b h in
    let s = add-Added a e m k in
    let (c, t, l) = feed-Carries es m b later in
    (
      c ∙ rw (s.content, append_assoc) refl,
      t ∙ rw (s.thinking, append_assoc) refl,
      l ∙ rw (s.tool_calls, append_assoc) refl,
    )

feed_completed :
    (es : List StreamEvent) (a b : StreamAccumulator)
    → a.completed ≡ true
    → feed add a es ≡ some b
    → (es ≡ []) × (a ≡ b)
unfolding feed add
feed_completed [] a b done h = (refl, cc)
feed_completed (e ∷ es) a b done h =
    let (m, k, later) = and_then-some (add a e) (λ s. feed add s es) b h in
    absurd (ground (arith, done, k))

feed-IsWhole :
    (es : List StreamEvent) (a b : StreamAccumulator)
    → a.completed ≡ false
    → feed add a es ≡ some b
    → b.completed ≡ true
    → IsWhole es b.response
unfolding feed
feed-IsWhole [] a b o h done = absurd (ground (arith, o, h, done))
feed-IsWhole (e ∷ es) a b o h done =
    let (m, k, later) = and_then-some (add a e) (λ s. feed add s es) b h in
    let s = add-Added a e m k in
    elim (Bool-cases (is_complete e.kind)) [
      | inl c ↦
          let (none_left, same) = feed_completed es m b (s.completed ∙ c) later in
          (
            [],
            e,
            ap (◌∷◌ e) none_left,
            tt,
            c,
            subst (λ (x : StreamAccumulator). e.usage ≡ some x.response.usage) same (s.usage c),
            subst (λ (x : StreamAccumulator). e.finish_reason ≡ x.response.finish_reason) same
                (s.finish_reason c),
          )
      | inr c ↦
          let (front, last, split, all, is, u, f) =
            feed-IsWhole es m b (s.completed ∙ c) later done in
          (e ∷ front, last, ap (◌∷◌ e) split, (c, all), is, u, f)
    ]

-- An answer that is collected from a stream of events carries all of their content, thinking and
-- tool calls, each in its order; the stream ends with its only completion, which gives the usage
-- and the finish reason.
pub collect_stream_sound :
    (es : List StreamEvent) (r : CompletionResponse)
    → collect_stream (λ handler s. feed handler s es) ≡ some r
    → (r.content ≡ contents es)
      × (r.thinking ≡ thoughts es)
      × (r.tool_calls ≡ calls es)
      × IsWhole es r
unfolding collect_stream response_of
collect_stream_sound es r h =
    let (b, fed, is) = and_then-some (feed add new_accumulator es) response_of r h in
    let done : b.completed ≡ true = ground (arith, is) in
    let same : b.response ≡ r = ground (arith, is) in
    let (c, t, l) = feed-Carries es new_accumulator b fed in
    subst
      (λ (x : CompletionResponse).
        (x.content ≡ contents es)
        × (x.thinking ≡ thoughts es)
        × (x.tool_calls ≡ calls es)
        × IsWhole es x)
      same (c, t, l, feed-IsWhole es new_accumulator b refl fed done)
