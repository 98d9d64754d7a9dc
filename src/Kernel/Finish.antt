-- ===== src/Kernel/Finish.antt =====
-- What holds of a run over every history of transition requests (internal/kernel/model.go).
use auto_ze_agent.Common.{
  Bool, List, Option, Text, [], arith, false, none, some, true, ◌∷◌, ◌≡◌, ◌≢◌,
}
use auto_ze_agent.Kernel.Base.{Time, ok}
use auto_ze_agent.Kernel.Run
use auto_ze_agent.Kernel.Run.{Run, RunState, new_run, is_finished}

pub record RunRequest : Type 0 where
  pub to : RunState
  pub failure : Text
  pub now : Time
  pub clock : Time

-- The run after a history of requests.
unfoldable pub run_run : Run → List RunRequest → Run
run_run r [] = r
run_run r (q ∷ qs) = run_run (Run.transition q.clock q.to q.failure q.now r).0 qs

abbrev pub when : Bool → Time → Option Time
when true t = some t
when false t = none

-- A finished run is stamped with the time of its last change, and only a failed one has an error.
pub record RunInv (r : Run) : Type 0 where
  pub stamped : r.finished_at ≡ when (is_finished r.state) r.updated_at
  pub error_only_failed : r.state ≢ RunState.failed → r.error ≡ []

new_run-RunInv :
    (clock : Time) (id task plan : Text) (now : Time) {r : Run}
    → new_run clock id task plan now ≡ ok r
    → RunInv r
unfolding new_run is_finished
new_run-RunInv clock id task plan now h = ground arith

step-RunInv :
    (r : Run) (q : RunRequest) → RunInv r → RunInv (Run.transition q.clock q.to q.failure q.now r).0
unfolding Run.transition
step-RunInv r q h = ground arith

run_run-RunInv : (r : Run) (qs : List RunRequest) → RunInv r → RunInv (run_run r qs)
unfolding run_run
run_run-RunInv r [] h = h
run_run-RunInv r (q ∷ qs) h =
    run_run-RunInv (Run.transition q.clock q.to q.failure q.now r).0 qs (step-RunInv r q h)

-- Over every history of a new run, the finish time is set exactly in the states completed, failed
-- and cancelled, where it is the time of the last change, and an error text is kept only by a
-- failed run.
pub run-RunInv :
    (clock : Time) (id task plan : Text) (now : Time) (qs : List RunRequest) {r : Run}
    → new_run clock id task plan now ≡ ok r
    → RunInv (run_run r qs)
run-RunInv clock id task plan now qs {r} h =
    run_run-RunInv r qs (new_run-RunInv clock id task plan now h)
