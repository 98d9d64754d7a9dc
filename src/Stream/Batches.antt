-- ===== src/Stream/Batches.antt =====
-- The batches of deltas in the hub, and what a step takes out of them (internal/modelstream/hub.go).
use auto_ze_agent.Common.{
  Bool, List, Option, Text, [], ap, append-nil, append_assoc, arith, false, if◌then◌else◌, is_nil,
  none, refl, some, sym, text_eq, true, ℕ, ◌++◌, ◌∷◌, ◌≡◌,
}
use auto_ze_agent.Stream.Events.{
  StreamType, stream_delta, stream_thinking, StreamEvent, delta_event, thinking_event,
}
use auto_ze_agent.Stream.Hub.{
  Emission, PendingBatch, Hub, batch_key, emission_unless, flush_key, open_batch, grow_batch,
  publish, publish_terminal, subscribe, cancel_subscription, unless_nil,
}

-- A call of the hub, or the firing of the timer of a batch.
pub data Call : Type 0 where
  publishes : Text → Text → Text → StreamEvent → Call
  terminates : Text → Text → Text → Call
  fires : Text → Call
  subscribes : Text → Text → ℕ → Call
  cancels : ℕ → Call

-- What a call does under the lock, and what it emits after it.
unfoldable pub run_call : Call → Hub → Hub × List Emission
run_call (publishes session task run event) h = publish session task run event h
run_call (terminates session task run) h = publish_terminal session task run h
run_call (fires key) h = flush_key key h
run_call (subscribes session run buffer) h = ((subscribe session run buffer h).0, [])
run_call (cancels id) h = (cancel_subscription id h, [])

-- The two texts of a stream: the thinking, and the content.
abbrev pub delta_text : Bool → StreamType → StreamEvent → Text
delta_text true stream_thinking e = e.thinking_delta
delta_text false stream_delta e = e.content_delta
delta_text _ _ e = []

abbrev pub batch_text : Bool → Option PendingBatch → Text
batch_text thinking none = []
batch_text true (some b) = b.thinking
batch_text false (some b) = b.content

abbrev pub of_key : Text → Text → Text → StreamEvent → Bool → Text
of_key key session run e thinking =
    if text_eq (batch_key session run) key then delta_text thinking e.kind e else []

-- What emissions carry under a key, and what a call publishes under it.
abbrev pub sent_text : Bool → Text → List Emission → Text
sent_text thinking key [] = []
sent_text thinking key (e ∷ es) =
    of_key key e.session_id e.run_id e.event thinking ++ sent_text thinking key es

abbrev pub call_text : Bool → Text → Call → Text
call_text thinking key (publishes session task run e) = of_key key session run e thinking
call_text thinking key _ = []

-- A batch stands under the key of its own IDs.
abbrev pub IsKeyed : Hub → Type 0
IsKeyed h =
    (key : Text) (b : PendingBatch) → h.pending key ≡ some b → batch_key b.session_id b.run_id ≡ key

abbrev first : Text → ℕ
first [] = 0
first (c ∷ cs) = c

batch_key_kept :
    (s r s' r' : Text)
    → batch_key s' r' ≡ batch_key s r
    → batch_key (unless_nil s s') (unless_nil r r') ≡ batch_key s r
unfolding batch_key
batch_key_kept [] [] s' r' h = h
batch_key_kept (x ∷ s) [] s' [] h = refl
batch_key_kept (x ∷ s) [] s' (c ∷ r') h = absurd (omega (arith, ap first h))
batch_key_kept s (x ∷ r) s' r' h = refl

pub open_batch_key :
    (s t r : Text) (o : Option PendingBatch)
    → ((b : PendingBatch) → o ≡ some b → batch_key b.session_id b.run_id ≡ batch_key s r)
    → batch_key (open_batch s t r o).session_id (open_batch s t r o).run_id ≡ batch_key s r
unfolding open_batch
open_batch_key s t r none h = refl
open_batch_key s t r (some b) h = batch_key_kept s r b.session_id b.run_id (h b refl)

pub grow_batch_key :
    (k : StreamType) (e : StreamEvent) (b : PendingBatch)
    → batch_key (grow_batch k e b).session_id (grow_batch k e b).run_id
      ≡ batch_key b.session_id b.run_id
unfolding grow_batch
grow_batch_key stream_delta e b = refl
grow_batch_key _ e b = refl

pub grow_batch_text :
    (thinking : Bool) (k : StreamType) (e : StreamEvent) (b : PendingBatch)
    → batch_text thinking (some (grow_batch k e b))
      ≡ batch_text thinking (some b) ++ delta_text thinking k e
unfolding grow_batch
grow_batch_text true stream_delta e b = rw append-nil refl
grow_batch_text false stream_delta e b = refl
grow_batch_text true stream_thinking e b = refl
grow_batch_text false stream_thinking e b = rw append-nil refl
grow_batch_text true _ e b = rw append-nil refl
grow_batch_text false _ e b = rw append-nil refl

pub open_batch_text :
    (thinking : Bool) (s t r : Text) (o : Option PendingBatch)
    → batch_text thinking (some (open_batch s t r o)) ≡ batch_text thinking o
unfolding open_batch
open_batch_text true s t r none = refl
open_batch_text true s t r (some b) = refl
open_batch_text false s t r none = refl
open_batch_text false s t r (some b) = refl

-- A call that emits what it takes out of the batches, or adds to them what it publishes.
pub record Moved (h : Hub) (o : Hub × List Emission) (published : Bool → Text → Text) : Type 0 where
  pub keyed : IsKeyed o.0
  pub balance :
      (thinking : Bool) (key : Text)
      → sent_text thinking key o.1 ++ batch_text thinking (o.0.pending key)
        ≡ batch_text thinking (h.pending key) ++ published thinking key

abbrev pub nothing : Bool → Text → Text
nothing thinking key = []

pub sent_text-append :
    (thinking : Bool) (key : Text) (xs ys : List Emission)
    → sent_text thinking key (xs ++ ys) ≡ sent_text thinking key xs ++ sent_text thinking key ys
sent_text-append thinking key [] ys = refl
sent_text-append thinking key (x ∷ xs) ys =
    rw (sent_text-append thinking key xs ys)
      (sym (append_assoc (of_key key x.session_id x.run_id x.event thinking) _ _))

pub emission_unless_text :
    (thinking : Bool) (key : Text) (skip : Bool) (e : Emission)
    → sent_text thinking key (emission_unless skip e)
      ≡ (if skip then [] else of_key key e.session_id e.run_id e.event thinking)
unfolding emission_unless
emission_unless_text thinking key true e = refl
emission_unless_text thinking key false e =
    append-nil (of_key key e.session_id e.run_id e.event thinking)

pub same_key_text :
    (thinking : Bool) (x y : Text) (b : Bool)
    → (if is_nil x then [] else if b then delta_text thinking stream_delta (delta_event x) else [])
        ++ (if is_nil y
            then []
            else if b
            then delta_text thinking stream_thinking (thinking_event y)
            else [])
      ≡ (if b then (if thinking then y else x) else [])
same_key_text true [] [] true = refl
same_key_text true [] (d ∷ y) true = refl
same_key_text true (c ∷ x) [] true = refl
same_key_text true (c ∷ x) (d ∷ y) true = refl
same_key_text false [] [] true = refl
same_key_text false [] (d ∷ y) true = refl
same_key_text false (c ∷ x) [] true = append-nil (c ∷ x)
same_key_text false (c ∷ x) (d ∷ y) true = append-nil (c ∷ x)
same_key_text thinking [] [] false = refl
same_key_text thinking [] (d ∷ y) false = refl
same_key_text thinking (c ∷ x) [] false = refl
same_key_text thinking (c ∷ x) (d ∷ y) false = refl

pub batch_text_if :
    (thinking : Bool) (b : PendingBatch)
    → (if thinking then b.thinking else b.content) ≡ batch_text thinking (some b)
batch_text_if true b = refl
batch_text_if false b = refl
