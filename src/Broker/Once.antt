-- ===== src/Broker/Once.antt =====
-- How often a tool runs for a call, and what a stored call keeps (internal/tools/broker.go).
use auto_ze_agent.Common.{
  List, Text, [], ap, count_of, count_of-new, count_of-unused, keys-append, keys-update_rows,
  find_row, inl, inr, map, none, refl, subst, ◌++◌, ◌∙◌, ◌∷◌, ◌≡◌, ◌≤◌,
}
use auto_ze_agent.Kernel.Base.{Time}
use auto_ze_agent.Broker.Requests.{Request}
use auto_ze_agent.Broker.Calls.{ToolCall, World, new_call, ended}
use auto_ze_agent.Broker.Execute.{Broker}
use auto_ze_agent.Broker.Begins.{began, with_grant}
use auto_ze_agent.Broker.Steps.{Step, run_step, run_steps}
use auto_ze_agent.Broker.Moves.{
  Move, stays, begins, updates, grants_move, plans_move, run_step-Move,
}

abbrev pub ids : List ToolCall → List Text
ids cs = map ToolCall.tool_call_id cs

-- The stored calls are those whose tools were executed, each executed once.
abbrev pub IsOnce : World → Type 0
IsOnce w = (ids w.calls ≡ w.bodies) × ((id : Text) → count_of id w.bodies ≤ 1)

began-IsOnce :
    (grants' : List _) (r : Request) (started_at : Time) (w : World)
    → IsOnce w
    → find_row ToolCall.tool_call_id r.call_id w.calls ≡ none
    → IsOnce (began grants' r started_at w)
began-IsOnce grants' r started_at w (logged, once) unused =
    let unlogged =
      subst (λ l. count_of r.call_id l ≡ 0) logged
        (count_of-unused ToolCall.tool_call_id r.call_id w.calls unused) in
    (
      keys-append ToolCall.tool_call_id w.calls (new_call r started_at ∷ [])
          ∙ ap (λ l. l ++ r.call_id ∷ []) logged,
      λ id. count_of-new id r.call_id w.bodies (once id) unlogged,
    )

moved-IsOnce : (b : Broker) (w w' : World) → Move b w w' → IsOnce w → IsOnce w'
moved-IsOnce b w w' (stays e) h = rw e h
moved-IsOnce b w w'
      (begins s r r' (entry, timeout, a, v, f, t, k, risk, unused, inl (rule, named, same, new)))
      h =
    rw (new, same) (began-IsOnce w.grants (with_grant [] r) s.started_at w h unused)
moved-IsOnce b w w'
      (begins s r r' (
        entry,
        timeout,
        a,
        v,
        f,
        t,
        k,
        risk,
        unused,
        inr (rule, (g, gs, named, consumed, same, new)),
      ))
      h =
    rw (new, same) (began-IsOnce gs (with_grant g r) s.started_at w h unused)
moved-IsOnce b w w' (updates p state payload now ends e) (logged, once) = rw e (
  keys-update_rows ToolCall.tool_call_id p (ended state payload now) w.calls (λ c. refl) ∙ logged,
  once,
)
moved-IsOnce b w w' (grants_move op e) h = rw e h
moved-IsOnce b w w' (plans_move plans e) h = rw e h

-- Over every history, the stored calls are those whose tools were executed, in the same order, and
-- no ID of a call is executed twice, if this was so before.
pub run_steps-IsOnce :
    (b : Broker) (xs : List Step) (w : World) → IsOnce w → IsOnce (run_steps b xs w)
unfolding run_steps
run_steps-IsOnce b [] w h = h
run_steps-IsOnce b (x ∷ xs) w h =
    run_steps-IsOnce b xs (run_step b x w)
      (moved-IsOnce b w (run_step b x w) (run_step-Move b x w) h)
