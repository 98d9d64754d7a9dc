-- ===== src/Stream/Coalesce.antt =====
-- The coalescing of deltas in the hub (internal/modelstream/hub.go).
use auto_ze_agent.Common.{
  Bool, Bool-cases, List, Text, [], ap, append-nil, false, inl, inr, none, refl, sym, text_eq, ◌++◌,
  ◌∙◌, ◌≡◌,
}
use auto_ze_agent.Stream.Events.{StreamEvent, complete_event}
use auto_ze_agent.Stream.Hub.{
  flush_and_emit, Emission, Hub, new_hub, batch_key, flush_key, publish, publish_terminal,
  subscribe, cancel_subscription, is_delta,
}
use auto_ze_agent.Stream.Batches.{
  Call, run_call, batch_text, of_key, call_text, IsKeyed, Moved, nothing, publishes, terminates,
  fires, subscribes, cancels,
}
use auto_ze_agent.Stream.Moves.{flush_key-Moved, other_text, behind-Moved, publish_debounced-Moved}

same_published :
    {h : Hub} {o : Hub × List Emission} (p q : Bool → Text → Text)
    → ((thinking : Bool) (key : Text) → p thinking key ≡ q thinking key)
    → Moved h o p
    → Moved h o q
same_published p q same m = record {
  keyed = m.keyed;
  balance = λ thinking key.
      m.balance thinking key ∙ ap (◌++◌ (batch_text thinking _)) (same thinking key);
}

flush_and_emit-Moved :
    (s t r : Text) (e : StreamEvent) (h : Hub)
    → is_delta e.kind ≡ false
    → IsKeyed h
    → Moved h (flush_and_emit s t r e h) nothing
unfolding flush_and_emit
flush_and_emit-Moved s t r e h plain keyed =
    behind-Moved (record { session_id = s; task_id = t; run_id = r; event = e }) h
      (flush_key (batch_key s r) h) plain (flush_key-Moved (batch_key s r) h keyed)

pub run_call-Moved :
    (c : Call) (h : Hub)
    → IsKeyed h
    → Moved h (run_call c h) (λ thinking key. call_text thinking key c)
unfolding run_call publish publish_terminal
run_call-Moved (publishes s t r e) h keyed = elim (Bool-cases (is_delta e.kind)) [
  | inl d ↦ rw d (publish_debounced-Moved s t r e h keyed)
  | inr d ↦ rw d (
      same_published nothing (λ thinking key. of_key key s r e thinking)
        (λ thinking key.
          rw (other_text thinking e.kind e d) (elim (Bool-cases (text_eq (batch_key s r) key)) [
            | inl k ↦ rw k refl
            | inr k ↦ rw k refl
          ]))
        (flush_and_emit-Moved s t r e h d keyed))
]
run_call-Moved (terminates s t r) h keyed =
    flush_and_emit-Moved s t r (complete_event none []) h refl keyed
run_call-Moved (fires key) h keyed = flush_key-Moved key h keyed
run_call-Moved (subscribes s r n) h keyed =
    unfold subscribe in record { keyed = keyed; balance = λ thinking key. sym (append-nil _) }
run_call-Moved (cancels id) h keyed =
    unfold cancel_subscription in
    record { keyed = keyed; balance = λ thinking key. sym (append-nil _) }

pub new_hub-IsKeyed : IsKeyed new_hub
unfolding new_hub
new_hub-IsKeyed key b h = absurd (cc)
