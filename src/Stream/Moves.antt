-- ===== src/Stream/Moves.antt =====
-- The steps of the hub, each with what it sends and publishes (internal/modelstream/hub.go).
use auto_ze_agent.Common.{
  ◌∷◌, Bool, Bool-cases, List, Option, Text, [], ap, append-nil, arith, false, if◌then◌else◌, inl,
  inr, is_nil, none, refl, some, subst, sym, text_eq, text_eq_comm, text_eq_iff, text_eq_refl, true,
  ◌++◌, ◌∙◌, ◌≡◌,
}
use auto_ze_agent.Stream.Events.{
  StreamType, stream_delta, stream_thinking, StreamEvent, delta_event, thinking_event,
}
use auto_ze_agent.Stream.Hub.{
  Emission, emission_of, emission_unless, PendingBatch, Hub, batch_key, flush_batch, flush_key,
  open_batch, grow_batch, publish_debounced, is_delta,
}
use auto_ze_agent.Stream.Batches.{
  delta_text, batch_text, of_key, sent_text, IsKeyed, open_batch_key, grow_batch_key,
  grow_batch_text, open_batch_text, Moved, nothing, sent_text-append, emission_unless_text,
  same_key_text, batch_text_if,
}

-- The flush of a batch sends its texts, under its key and no other.
flushed_text :
    (thinking : Bool) (key other : Text) (b : PendingBatch) (h : Hub)
    → batch_key b.session_id b.run_id ≡ key
    → sent_text thinking other (flush_batch key (some b) h).1
      ≡ (if text_eq key other then batch_text thinking (some b) else [])
unfolding flush_batch
flushed_text thinking key other b h k =
    let content = emission_of b (delta_event b.content) in
    let thoughts = emission_of b (thinking_event b.thinking) in
    sent_text-append thinking other (emission_unless (is_nil b.content) content)
      (emission_unless (is_nil b.thinking) thoughts)
    ∙ rw
        (
          emission_unless_text thinking other (is_nil b.content) content,
          emission_unless_text thinking other (is_nil b.thinking) thoughts,
          k,
        )
        (same_key_text thinking b.content b.thinking (text_eq key other)
          ∙ ap (λ (x : Text). if text_eq key other then x else []) (batch_text_if thinking b))

flushed_pending :
    (key other : Text) (b : PendingBatch) (h : Hub)
    → (flush_batch key (some b) h).0.pending other
      ≡ (if text_eq other key then none else h.pending other)
unfolding flush_batch
flushed_pending key other b h = ground arith

flush_batch-Moved :
    (key : Text) (o : Option PendingBatch) (h : Hub)
    → IsKeyed h
    → h.pending key ≡ o
    → Moved h (flush_batch key o h) nothing
flush_batch-Moved key none h keyed found =
    unfold flush_batch in record { keyed = keyed; balance = λ thinking other. sym (append-nil _) }
flush_batch-Moved key (some b) h keyed found = record {
  keyed = λ other c p. elim (Bool-cases (text_eq other key)) [
    | inl e ↦ absurd (ground (arith, e, flushed_pending key other b h, p))
    | inr e ↦ keyed other c (ground (arith, e, flushed_pending key other b h, p))
  ];
  balance = λ thinking other.
      rw (flushed_text thinking key other b h (keyed key b found), flushed_pending key other b h)
        (elim (Bool-cases (text_eq other key)) [
          | inl e ↦
              let same = (text_eq_iff other key).0 e in rw (e, same, text_eq_refl key, found) refl
          | inr e ↦ rw (text_eq_comm key other, e) (sym (append-nil _))
        ]);
}

pub flush_key-Moved : (key : Text) (h : Hub) → IsKeyed h → Moved h (flush_key key h) nothing
unfolding flush_key
flush_key-Moved key h keyed = flush_batch-Moved key (h.pending key) h keyed refl

-- An event that is not debounced carries no delta.
pub other_text :
    (thinking : Bool) (k : StreamType) (e : StreamEvent)
    → is_delta k ≡ false
    → delta_text thinking k e ≡ []
other_text true stream_delta e h = absurd (cc)
other_text false stream_delta e h = absurd (cc)
other_text true stream_thinking e h = absurd (cc)
other_text false stream_thinking e h = absurd (cc)
other_text true _ e h = refl
other_text false _ e h = refl

-- An event that is not debounced behind what a call emits.
pub behind-Moved :
    (e : Emission) (h : Hub) (o : Hub × List Emission)
    → is_delta e.event.kind ≡ false
    → Moved h o nothing
    → Moved h (o.0, o.1 ++ e ∷ []) nothing
behind-Moved e h o plain m = record {
  keyed = m.keyed;
  balance = λ thinking key.
      ap (λ (l : Text). l ++ batch_text thinking (o.0.pending key))
        (sent_text-append thinking key o.1 (e ∷ [])
          ∙ ap (◌++◌ (sent_text thinking key o.1)) (silent thinking key)
          ∙ append-nil _)
      ∙ m.balance thinking key;
}
  where
    silent : (thinking : Bool) (key : Text) → sent_text thinking key (e ∷ []) ≡ []
    silent thinking key =
        rw (other_text thinking e.event.kind e.event plain)
          (elim (Bool-cases (text_eq (batch_key e.session_id e.run_id) key)) [
            | inl k ↦ rw k refl
            | inr k ↦ rw k refl
          ])

published_pending :
    (s t r : Text) (e : StreamEvent) (h : Hub) (key : Text)
    → (publish_debounced s t r e h).pending key ≡ (
        if text_eq key (batch_key s r)
        then some (grow_batch e.kind e (open_batch s t r (h.pending (batch_key s r))))
        else h.pending key)
unfolding publish_debounced
published_pending s t r e h key = refl

pub publish_debounced-Moved :
    (s t r : Text) (e : StreamEvent) (h : Hub)
    → IsKeyed h
    → Moved h (publish_debounced s t r e h, []) (λ thinking key. of_key key s r e thinking)
publish_debounced-Moved s t r e h keyed =
    let own = batch_key s r in
    let opened = open_batch s t r (h.pending own) in
    record {
      keyed = λ key b p. elim (Bool-cases (text_eq key own)) [
        | inl k ↦
            let same : grow_batch e.kind e opened ≡ b =
              ground (arith, k, published_pending s t r e h key, p) in
            subst (λ (x : PendingBatch). batch_key x.session_id x.run_id ≡ key) same
              (grow_batch_key e.kind e opened
                ∙ open_batch_key s t r (h.pending own) (λ c f. keyed own c f)
                ∙ sym ((text_eq_iff key own).0 k))
        | inr k ↦ keyed key b (ground (arith, k, published_pending s t r e h key, p))
      ];
      balance = λ thinking key. elim (Bool-cases (text_eq key own)) [
        | inl k ↦
            rw (published_pending s t r e h key, k)
              (rw (text_eq_comm own key, k)
                (grow_batch_text thinking e.kind e opened
                  ∙ ap (λ (l : Text). l ++ delta_text thinking e.kind e)
                      (open_batch_text thinking s t r (h.pending own)
                        ∙ ap (λ i. batch_text thinking (h.pending i))
                            (sym ((text_eq_iff key own).0 k)))))
        | inr k ↦
            rw (published_pending s t r e h key, k, text_eq_comm own key, k) (sym (append-nil _))
      ];
    }
