-- ===== src/Agent/Examples.antt =====
-- The theorems on internal/agent at concrete histories, and tests of the definitions.
use auto_ze_agent.Common.{
  List, Text, [], codes, count_of, false, map, refl, text_eq, trim_space, true, ◌++◌, ◌∷◌, ◌≡◌,
}
use auto_ze_agent.Agent.Inbox.{InboxItem, enqueue, claim_step, accepts, trimmed, same_id}
use auto_ze_agent.Agent.Delivery.{
  Call, enqueues, claims, queued, trace, trace-fifo, after_call, appended_by, claimed_by,
}
use auto_ze_agent.Agent.Loops.{repeats, has_repeated_tool_steps}

abbrev item : Text → Text → InboxItem
item id text = record { id = id; session = codes "s1"; text = text; persisted = false }

abbrev history : List Call
history =
    enqueues (item (codes "1") (codes " go on "))
    ∷ enqueues (item (codes "1") (codes "again"))
    ∷ claims (codes "s1")
    ∷ enqueues (item (codes "2") (codes "stop"))
    ∷ []

claimed_once : map InboxItem.text (trace (codes "s1") history []).claimed ≡ codes "go on" ∷ []
unfolding trace after_call appended_by claimed_by enqueue claim_step accepts trimmed same_id
    trim_space text_eq
claimed_once = refl

trace-fifo_example :
    (trace (codes "s1") history []).appended
    ≡ (trace (codes "s1") history []).claimed
      ++ queued (codes "s1") (trace (codes "s1") history []).left
trace-fifo_example = trace-fifo (codes "s1") history []

abbrev steps : List Text
steps = codes "a" ∷ codes "b" ∷ codes "a" ∷ codes "a" ∷ []

detects : has_repeated_tool_steps steps 3 1 ≡ true
unfolding has_repeated_tool_steps repeats count_of text_eq
detects = refl
