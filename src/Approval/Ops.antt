-- ===== src/Approval/Ops.antt =====
-- The calls on the table of grants as data (internal/approval/grant.go).
use auto_ze_agent.Common.{
  Bool, List, Option, Text, [], false, if◌then◌else◌, none, not, some, text_eq, ℕ, ◌+◌, ◌∷◌,
}
use auto_ze_agent.Kernel.Base.{Time}
use auto_ze_agent.Approval.Match.{Grant, GrantRequest}
use auto_ze_agent.Approval.Grant.{
  Outcome, committed, rolled_back, authorize_and_consume, is_active, revoke_grant,
  revoke_task_grants,
}

-- A call, with what the file system, the other tables and the clock answer to it.
pub data Op : Type 0 where
  authorizes :
      (Text → Text → Bool)
      → (Text → Text)
      → (Text → Option (Text × Text))
      → Time
      → GrantRequest
      → Op
  revokes : (Grant → Bool) → Time → Text → Time → Op
  revokes_task : (Grant → Bool) → Time → Text → Time → Op

unfoldable pub run_op : Op → List Grant → Outcome
run_op (authorizes contains lower plans clock request) gs =
    authorize_and_consume contains lower plans clock request gs
run_op (revokes appends clock id now) gs = revoke_grant appends clock id now gs
run_op (revokes_task appends clock task now) gs = revoke_task_grants appends clock task now gs

-- The table after the transaction.
unfoldable pub settled : List Grant → Outcome → List Grant
settled before (committed after) = after
settled before (rolled_back e) = before

-- 1 if the call authorised a use of the grant.
unfoldable pub granted : Text → Op → Outcome → ℕ
granted id (authorizes contains lower plans clock request) (committed after) =
    if text_eq request.grant_id id then 1 else 0
granted id _ _ = 0

unfoldable pub run_ops : List Op → List Grant → List Grant
run_ops [] gs = gs
run_ops (op ∷ ops) gs = run_ops ops (settled gs (run_op op gs))

unfoldable pub count_granted : Text → List Op → List Grant → ℕ
count_granted id [] gs = 0
count_granted id (op ∷ ops) gs =
    granted id op (run_op op gs) + count_granted id ops (settled gs (run_op op gs))

abbrev pub calls_used : Option Grant → ℕ
calls_used none = 0
calls_used (some g) = g.used_calls

abbrev pub calls_max : Option Grant → ℕ
calls_max none = 0
calls_max (some g) = g.scope.max_calls

abbrev pub is_revoked : Option Grant → Bool
is_revoked none = false
is_revoked (some g) = not (is_active g)
