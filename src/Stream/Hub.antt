-- ===== src/Stream/Hub.antt =====
-- internal/modelstream/hub.go: the hub that fans events of streamed answers out to subscribers. A
-- method changes the hub under its lock, and what it has to emit afterwards, without the lock, it
-- returns: each emission is a step of its own (Flights). A timer may fire at any time, so the
-- debounce interval is left out. The maps are a function and a list. A nil hub is left out.
use auto_ze_agent.Common.{
  Bool, List, Option, Text, [], codes, false, if◌then◌else◌, is_nil, keep_if, length, ltb, map,
  none, not, some, text_eq, true, u64, ℕ, ◌&&◌, ◌++◌, ◌+◌, ◌==◌, ◌||◌, ◌∷◌,
}
use auto_ze_agent.Stream.Events.{
  StreamType, stream_delta, stream_thinking, StreamEvent, delta_event, thinking_event,
  complete_event,
}

pub record Envelope : Type 0 where
  pub seq : ℕ  -- uint64
  pub session_id : Text
  pub task_id : Text
  pub run_id : Text
  pub event : StreamEvent

-- A call of `emit` that a method has still to make.
pub record Emission : Type 0 where
  pub session_id : Text
  pub task_id : Text
  pub run_id : Text
  pub event : StreamEvent

pub record PendingBatch : Type 0 where
  pub session_id : Text
  pub task_id : Text
  pub run_id : Text
  pub content : Text
  pub thinking : Text

-- The channel is the queue of what was sent and not yet received, with its capacity.
pub record Subscription : Type 0 where
  pub id : ℕ  -- uint64
  pub session_id : Text
  pub run_id : Text
  pub buffer : ℕ
  pub queue : List Envelope

pub record Hub : Type 0 where
  pub seq : ℕ  -- uint64
  pub next_sub : ℕ  -- uint64
  pub subs : List Subscription
  pub pending : Text → Option PendingBatch

unfoldable pub new_hub : Hub
new_hub = record { seq = 0; next_sub = 0; subs = []; pending = λ key. none }

unfoldable pub batch_key : Text → Text → Text
batch_key session_id run_id =
    if not (is_nil run_id) then codes "r:" ++ run_id else codes "s:" ++ session_id

-- An empty ID on either side matches all.
abbrev pub id_matches : Text → Text → Bool
id_matches own sent = is_nil own || (is_nil sent || text_eq own sent)

unfoldable pub wants : Envelope → Subscription → Bool
wants env sub = id_matches sub.session_id env.session_id && id_matches sub.run_id env.run_id

-- The send does not block: a full channel drops the envelope.
unfoldable pub offer : Envelope → Subscription → Subscription
unfolding wants
offer env sub =
    if wants env sub && ltb (length sub.queue) sub.buffer
    then record sub { queue = sub.queue ++ env ∷ [] }
    else sub

abbrev pub next_envelope : Hub → Emission → Envelope
next_envelope h e = record {
  seq = u64 (h.seq + 1);
  session_id = e.session_id;
  task_id = e.task_id;
  run_id = e.run_id;
  event = e.event;
}

-- The hub and the envelope that was sent.
unfoldable pub emit : Emission → Hub → Hub × Envelope
emit e h =
    let env = next_envelope h e in
    (record h { seq = u64 (h.seq + 1); subs = map (offer env) h.subs }, env)

unfoldable pub emission_unless : Bool → Emission → List Emission
emission_unless skip e = if skip then [] else e ∷ []

abbrev pub set_pending : Text → Option PendingBatch → Hub → Hub
set_pending key b h = record h { pending = λ k. if text_eq k key then b else h.pending k }

-- `flushKey`: what it does under the lock, and what it emits after it.
abbrev pub emission_of : PendingBatch → StreamEvent → Emission
emission_of b event = record {
  session_id = b.session_id;
  task_id = b.task_id;
  run_id = b.run_id;
  event = event;
}

unfoldable pub flush_batch : Text → Option PendingBatch → Hub → Hub × List Emission
flush_batch key none h = (h, [])
flush_batch key (some b) h = (
  set_pending key none h,
  emission_unless (is_nil b.content) (emission_of b (delta_event b.content))
      ++ emission_unless (is_nil b.thinking) (emission_of b (thinking_event b.thinking)),
)

unfoldable pub flush_key : Text → Hub → Hub × List Emission
flush_key key h = flush_batch key (h.pending key) h

abbrev pub unless_nil : Text → Text → Text
unless_nil new old = if is_nil new then old else new

unfoldable pub open_batch : Text → Text → Text → Option PendingBatch → PendingBatch
open_batch session_id task_id run_id none = record {
  session_id = session_id;
  task_id = task_id;
  run_id = run_id;
  content = [];
  thinking = [];
}
open_batch session_id task_id run_id (some b) = record b {
  session_id = unless_nil session_id b.session_id;
  task_id = unless_nil task_id b.task_id;
  run_id = unless_nil run_id b.run_id;
}

unfoldable pub grow_batch : StreamType → StreamEvent → PendingBatch → PendingBatch
grow_batch stream_delta event b = record b { content = b.content ++ event.content_delta }
grow_batch stream_thinking event b = record b { thinking = b.thinking ++ event.thinking_delta }
grow_batch _ event b = b

unfoldable pub publish_debounced : Text → Text → Text → StreamEvent → Hub → Hub
publish_debounced session_id task_id run_id event h =
    let key = batch_key session_id run_id in
    set_pending key
      (some (grow_batch event.kind event (open_batch session_id task_id run_id (h.pending key)))) h

-- Whether the event is debounced.
abbrev pub is_delta : StreamType → Bool
is_delta stream_delta = true
is_delta stream_thinking = true
is_delta _ = false

-- The flush of a key, and an event behind it.
unfoldable pub flush_and_emit : Text → Text → Text → StreamEvent → Hub → Hub × List Emission
flush_and_emit session_id task_id run_id event h =
    let (h', emissions) = flush_key (batch_key session_id run_id) h in
    (
      h',
      emissions
          ++ record { session_id = session_id; task_id = task_id; run_id = run_id; event = event }
            ∷ [],
    )

unfoldable pub publish : Text → Text → Text → StreamEvent → Hub → Hub × List Emission
publish session_id task_id run_id event h =
    if is_delta event.kind
    then (publish_debounced session_id task_id run_id event h, [])
    else flush_and_emit session_id task_id run_id event h

unfoldable pub publish_terminal : Text → Text → Text → Hub → Hub × List Emission
publish_terminal session_id task_id run_id h =
    flush_and_emit session_id task_id run_id (complete_event none []) h

-- `Subscribe`. A buffer below 16, a negative one too, is 64.
unfoldable pub subscribe : Text → Text → ℕ → Hub → Hub × ℕ
subscribe session_id run_id buffer h =
    let id = u64 (h.next_sub + 1) in
    (
      record h {
        next_sub = id;
        subs =
            keep_if (λ s. not (s.id == id)) h.subs
            ++ record {
              id = id;
              session_id = session_id;
              run_id = run_id;
              buffer = if ltb buffer 16 then 64 else buffer;
              queue = [];
            }
              ∷ [];
      },
      id,
    )

-- The function that `Subscribe` returns.
unfoldable pub cancel_subscription : ℕ → Hub → Hub
cancel_subscription id h = record h { subs = keep_if (λ s. not (s.id == id)) h.subs }
