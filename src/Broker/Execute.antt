-- ===== src/Broker/Execute.antt =====
-- internal/tools/broker.go: the two transactions of `Execute`, before and after the tool runs. The
-- records of the audit log that are written outside a transaction are left out; nothing reads them.
use auto_ze_agent.Common.{
  Bool, List, Option, Text, [], find_row, if◌then◌else◌, is_blank, is_nil, none, not, some, ℕ, ℤ,
  ◌&&◌, ◌++◌, ◌∷◌,
}
use auto_ze_agent.Kernel.Base.{Time}
use auto_ze_agent.Policy.{Rules, Action, deny, evaluate}
use auto_ze_agent.Approval.Match.{Grant, GrantRequest}
use auto_ze_agent.Approval.Grant.{Outcome, committed, rolled_back, authorize_and_consume}
use auto_ze_agent.Broker.Requests.{
  Definition, Request, Authorization, Tool, ToolError, unknown_tool, tool_denied, audit_refused,
  insert_refused, validate_request, resolve_timeout, is_non_interactive_tool_caller,
  grant_candidates,
}
use auto_ze_agent.Broker.Schemas.{Entry}
use auto_ze_agent.Broker.Calls.{ToolCall, World, insert_tool_call}

pub record Broker : Type 0 where
  pub registry : List Entry
  pub policy : Option Rules
  pub maximum_timeout : ℤ
  pub artifact_threshold : ℕ
  pub has_permission : Bool

-- What the code around the broker answers to one call: the file system, package `json`, the
-- foreign keys, the audit log, the broker's clock (twice) and the clock of the approvals.
pub record Surroundings : Type 0 where
  pub contains_resolved : Text → Text → Bool
  pub lower : Text → Text
  pub json_valid : Text → Bool
  pub stores_call : ToolCall → Bool
  pub audit_ok : Bool
  pub started_at : Time
  pub now : Time
  pub clock : Time

unfoldable pub can_wait_permission : Broker → Bool → Request → Bool
can_wait_permission b wait_disabled r =
    not wait_disabled
    && (b.has_permission && (not (is_non_interactive_tool_caller r) && r.interactive))

abbrev pub request_of : Text → Request → Authorization → ℤ → Time → GrantRequest
request_of grant_id r scope timeout now = record {
  grant_id = grant_id;
  task_id = r.task_id;
  plan_id = r.plan_id;
  step_id = r.step_id;
  plan_hash = r.plan_hash;
  capability = scope.capability;
  path = scope.path;
  command = scope.command;
  arguments = scope.arguments;
  network_domain = scope.network_domain;
  duration = timeout;
  now = now;
}

-- `no_grant_needed` is the empty grant ID.
pub data Authority : Type 0 where
  no_grant_needed wait_required denied : Authority
  granted_by : Text → List Grant → Authority

-- Where the first transaction leaves the call.
pub data Start : Type 0 where
  stopped : ToolError → Start
  awaiting : Authorization → Start
  begun : Request → Start

unfoldable pub first_consumed : Text → Outcome → Authority → Authority
first_consumed grant_id (committed grants) rest = granted_by grant_id grants
first_consumed grant_id (rolled_back e) rest = rest

abbrev pub scope_for : Request → Authorization → Authorization
scope_for r a = if is_blank a.capability then record a { capability = r.tool } else a

module _ (s : Surroundings) where
  -- The rest of the transaction, and the beginning of `tool.Execute`.
  unfoldable pub begin : List Grant → Request → World → World × Start
  begin grants r w =
      if not s.audit_ok
      then (w, stopped audit_refused)
      else elim (insert_tool_call s.stores_call r s.started_at w.calls) [
        | none ↦ (w, stopped insert_refused)
        | some calls ↦ (
          record w { grants = grants; calls = calls; bodies = w.bodies ++ r.call_id ∷ [] },
          begun r,
        )
      ]

  unfoldable pub with_authority : Authorization → Request → World → Authority → World × Start
  with_authority scope r w no_grant_needed =
      begin w.grants (record r { capability_grant_id = [] }) w
  with_authority scope r w wait_required = (w, awaiting scope)
  with_authority scope r w denied = (w, stopped tool_denied)
  with_authority scope r w (granted_by grant_id grants) =
      begin grants (record r { capability_grant_id = grant_id }) w

module _ (s : Surroundings) (b : Broker) (wait_disabled : Bool) where
  -- The loop over the candidates, with what follows it where none is consumed.
  unfoldable pub consume_candidate :
      World → Request → Authorization → ℤ → Authority → List Text → Authority
  consume_candidate w r scope timeout otherwise [] = otherwise
  consume_candidate w r scope timeout otherwise (c ∷ cs) =
      let rest = consume_candidate w r scope timeout otherwise cs in
      first_consumed c
        (authorize_and_consume s.contains_resolved s.lower w.plans s.clock
          (request_of c r scope timeout s.now) w.grants)
        rest

  unfoldable pub wait_or_deny : Bool → Request → Authority
  wait_or_deny requires_approval r =
      if requires_approval && can_wait_permission b wait_disabled r then wait_required else denied

  unfoldable pub authorize_allowed :
      Bool → World → Request → Authorization → ℤ → List Text → Authority
  authorize_allowed requires_approval w r scope timeout candidates =
      if is_nil candidates
      then (if requires_approval then wait_or_deny requires_approval r else no_grant_needed)
      else consume_candidate w r scope timeout (wait_or_deny requires_approval r) candidates

  unfoldable pub authorize_action : Action → Bool → World → Request → Authorization → ℤ → Authority
  authorize_action deny requires_approval w r scope timeout = denied
  authorize_action _ requires_approval w r scope timeout =
      authorize_allowed requires_approval w r scope timeout (grant_candidates r)

  unfoldable pub authorize : World → Request → Definition → Authorization → ℤ → Authority
  authorize w r d scope timeout =
      let result = evaluate b.policy d.risk in
      authorize_action result.action result.requires_approval w r scope timeout

  unfoldable pub start_with : Tool → Request → World → World × Start
  start_with tool r w =
      elim (resolve_timeout b.maximum_timeout r.timeout_millis
        tool.definition.default_timeout_millis) [
          | none ↦ (w, stopped tool_denied)
          | some timeout ↦ elim (tool.authorization r.arguments) [
            | none ↦ (w, stopped tool_denied)
            | some a ↦
                with_authority s (scope_for r a) r w
                  (authorize w r tool.definition (scope_for r a) timeout)
          ]
        ]

  unfoldable pub start : Request → World → World × Start
  start r w = elim (validate_request s.json_valid r) [
    | some e ↦ (w, stopped e)
    | none ↦ elim (find_row Entry.name r.tool b.registry) [
      | none ↦ (w, stopped unknown_tool)
      | some entry ↦ start_with entry.tool r w
    ]
  ]
