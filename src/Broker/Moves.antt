-- ===== src/Broker/Moves.antt =====
-- The effects of the steps of a history (internal/tools/broker.go).
use auto_ze_agent.Common.{
  Bool, Bool-cases, Option, Text, arith, false, inl, inr, is_nil, none, refl, some, text_eq,
  trim_space, update_rows, ◌≡◌,
}
use auto_ze_agent.Kernel.Base.{Time}
use auto_ze_agent.Approval.Ops.{Op, run_op, settled}
use auto_ze_agent.Broker.Requests.{Request, ToolError}
use auto_ze_agent.Broker.Calls.{
  CallState, is_running, Payload, incomplete, ToolCall, World, ended, cancelled, incomplete_in,
  finish_tool_call, cancel_incomplete_tool_calls,
}
use auto_ze_agent.Broker.Execute.{Broker, Surroundings}
use auto_ze_agent.Broker.Rounds.{
  ContextEnd, not_ended, deadline_exceeded, context_canceled, end_state, finish_call, is_canceled,
}
use auto_ze_agent.Broker.Begins.{Begins}
use auto_ze_agent.Broker.Unchanged.{start-cases}
use auto_ze_agent.Broker.Steps.{Step, starts, ends, cancels, grants_change, plans_change, run_step}

-- `updates`: the rows that pass a test get a state that is not running.
pub data Move (b : Broker) (w w' : World) : Type 0 where
  stays : w' ≡ w → Move b w w'
  begins : (s : Surroundings) (r r' : Request) → Begins s b r w r' w' → Move b w w'
  updates :
      (p : ToolCall → Bool) (state : CallState) (payload : Payload) (now : Time)
      → is_running state ≡ false
      → w' ≡ record w { calls = (update_rows p (ended state payload now) w.calls).0 }
      → Move b w w'
  grants_move :
      (op : Op) → w' ≡ record w { grants = settled w.grants (run_op op w.grants) } → Move b w w'
  plans_move : (plans : Text → Option (Text × Text)) → w' ≡ record w { plans = plans } → Move b w w'

pub end_state-running :
    (c : ContextEnd) (e : Option ToolError) → is_running (end_state c e).0 ≡ false
unfolding end_state is_running is_canceled
end_state-running c none = refl
end_state-running deadline_exceeded (some e) = refl
end_state-running context_canceled (some e) = refl
end_state-running not_ended (some e) = ground arith

pub run_step-Move : (b : Broker) (x : Step) (w : World) → Move b w (run_step b x w)
unfolding run_step cancel_incomplete_tool_calls finish_call finish_tool_call
run_step-Move b (starts s wait_disabled r) w = elim (start-cases s b wait_disabled r w) [
  | inl e ↦ stays e
  | inr (r', h) ↦ begins s r r' h
]
run_step-Move b (ends r started_at x) w =
    updates (λ (c : ToolCall). text_eq c.tool_call_id r.call_id) _ _ x.finished_at
      (end_state-running x.context_end _) refl
run_step-Move b (cancels run_id now) w = elim (Bool-cases (is_nil (trim_space run_id))) [
  | inl e ↦ stays (rw e refl)
  | inr e ↦
      updates (incomplete_in (trim_space run_id)) cancelled incomplete now
        (unfold is_running in refl) (rw e refl)
]
run_step-Move b (grants_change op) w = grants_move op refl
run_step-Move b (plans_change plans) w = plans_move plans refl
