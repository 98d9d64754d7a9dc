-- ===== src/Broker/Steps.antt =====
-- Histories of the broker (internal/tools/broker.go). Two calls of `Execute` may be under way at
-- once, and a call may be cancelled while its tool runs: a history is any sequence of the
-- transactions of the broker and of the changes that the approvals and the kernel make meanwhile.
use auto_ze_agent.Common.{Bool, List, Option, Text, [], ◌∷◌}
use auto_ze_agent.Kernel.Base.{Time}
use auto_ze_agent.Approval.Ops.{Op, run_op, settled}
use auto_ze_agent.Broker.Requests.{Request}
use auto_ze_agent.Broker.Calls.{World, cancel_incomplete_tool_calls}
use auto_ze_agent.Broker.Execute.{Broker, Surroundings, start}
use auto_ze_agent.Broker.Rounds.{BodyResult, finish_call}

pub data Step : Type 0 where
  starts : Surroundings → Bool → Request → Step
  ends : Request → Time → BodyResult → Step
  cancels : Text → Time → Step
  grants_change : Op → Step
  plans_change : (Text → Option (Text × Text)) → Step

unfoldable pub run_step : Broker → Step → World → World
run_step b (starts s wait_disabled r) w = (start s b wait_disabled r w).0
run_step b (ends r started_at x) w = (finish_call b.artifact_threshold r started_at x w).0
run_step b (cancels run_id now) w = record w {
  calls = (cancel_incomplete_tool_calls run_id now w.calls).0;
}
run_step b (grants_change op) w = record w { grants = settled w.grants (run_op op w.grants) }
run_step b (plans_change plans) w = record w { plans = plans }

unfoldable pub run_steps : Broker → List Step → World → World
run_steps b [] w = w
run_steps b (x ∷ xs) w = run_steps b xs (run_step b x w)
