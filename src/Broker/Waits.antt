-- ===== src/Broker/Waits.antt =====
-- The wait of a call for the user (internal/tools/broker.go).
use auto_ze_agent.Common.{
  Bool, Bool-cases, List, Option, Option-cases, Text, [], arith, false, find_row, inl, inr, refl,
  suc, true, ℕ, ℤ, ◌∷◌, ◌≡◌, ◌≢◌, ◌⊎◌,
}
use auto_ze_agent.Kernel.Base.{Time}
use auto_ze_agent.Policy.{Action, allow, require_approval, deny, other_action}
use auto_ze_agent.Approval.Match.{Grant}
use auto_ze_agent.Approval.Grant.{Outcome, committed, rolled_back}
use auto_ze_agent.Broker.Requests.{
  Definition, Request, Authorization, Tool, validate_request, resolve_timeout,
  is_non_interactive_tool_caller, grant_candidates,
}
use auto_ze_agent.Broker.Schemas.{Entry}
use auto_ze_agent.Broker.Calls.{World, insert_tool_call}
use auto_ze_agent.Broker.Execute.{
  Broker, Surroundings, Authority, no_grant_needed, wait_required, denied, granted_by, Start,
  stopped, awaiting, begun, can_wait_permission, first_consumed, consume_candidate, wait_or_deny,
  authorize_allowed, authorize_action, authorize, begin, with_authority, start_with, start,
}
use auto_ze_agent.Broker.Rounds.{
  Result, PermissionPending, PermissionDecision, Environment, finish_body, after_start, execute,
}

module _ (s : Surroundings) (b : Broker) (wait_disabled : Bool) (r : Request)
    (h : can_wait_permission b wait_disabled r ≡ false) where
  denies : (q : Bool) → wait_or_deny s b wait_disabled q r ≢ wait_required
  unfolding wait_or_deny
  denies q e = ground (arith, h)

  first_consumed-wait :
      (c : Text) (o : Outcome) (rest : Authority)
      → rest ≢ wait_required
      → first_consumed c o rest ≢ wait_required
  unfolding first_consumed
  first_consumed-wait c (committed gs) rest n e = absurd (ground arith)
  first_consumed-wait c (rolled_back x) rest n e = n e

  module _ (w : World) (scope : Authorization) (timeout : ℤ) where
    consume_candidate-wait :
        (otherwise : Authority) (cs : List Text)
        → otherwise ≢ wait_required
        → consume_candidate s b wait_disabled w r scope timeout otherwise cs ≢ wait_required
    unfolding consume_candidate
    consume_candidate-wait otherwise [] n = n
    consume_candidate-wait otherwise (c ∷ cs) n =
        first_consumed-wait c _ _ (consume_candidate-wait otherwise cs n)

    authorize_allowed-wait :
        (q : Bool) (cs : List Text)
        → authorize_allowed s b wait_disabled q w r scope timeout cs ≢ wait_required
    unfolding authorize_allowed
    authorize_allowed-wait true [] = denies true
    authorize_allowed-wait false [] = λ e. ground arith
    authorize_allowed-wait q (c ∷ cs) = consume_candidate-wait _ (c ∷ cs) (denies q)

    authorize_action-wait :
        (a : Action) (q : Bool)
        → authorize_action s b wait_disabled a q w r scope timeout ≢ wait_required
    unfolding authorize_action
    authorize_action-wait deny q = λ e. ground arith
    authorize_action-wait allow q = authorize_allowed-wait q (grant_candidates r)
    authorize_action-wait require_approval q = authorize_allowed-wait q (grant_candidates r)
    authorize_action-wait (other_action t) q = authorize_allowed-wait q (grant_candidates r)

    authorize-wait :
        (d : Definition) → authorize s b wait_disabled w r d scope timeout ≢ wait_required
    unfolding authorize
    authorize-wait d = authorize_action-wait _ _

  begin-wait :
      (grants : List Grant) (r' : Request) (w : World) (a : Authorization)
      → (begin s grants r' w).1 ≢ awaiting a
  unfolding begin
  begin-wait grants r' w a e = elim (Bool-cases s.audit_ok) [
    | inl k ↦ elim (Option-cases (insert_tool_call s.stores_call r' s.started_at w.calls)) [
      | inl i ↦ absurd (ground (arith, k, i))
      | inr (calls, i) ↦ absurd (ground (arith, k, i))
    ]
    | inr k ↦ absurd (ground (arith, k))
  ]

  with_authority-wait :
      (scope a : Authorization) (w : World) (x : Authority)
      → x ≢ wait_required
      → (with_authority s scope r w x).1 ≢ awaiting a
  unfolding with_authority
  with_authority-wait scope a w denied n = λ e. ground arith
  with_authority-wait scope a w wait_required n = absurd (n refl)
  with_authority-wait scope a w no_grant_needed n = begin-wait w.grants _ w a
  with_authority-wait scope a w (granted_by id gs) n = begin-wait gs _ w a

  start_with-wait :
      (tool : Tool) (w : World) (a : Authorization)
      → (start_with s b wait_disabled tool r w).1 ≢ awaiting a
  unfolding start_with
  start_with-wait tool w a =
      elim (Option-cases (
        resolve_timeout b.maximum_timeout r.timeout_millis
          tool.definition.default_timeout_millis)) [
            | inl e ↦ rw (start_with, e) (λ k. ground arith)
            | inr (timeout, e) ↦ elim (Option-cases (tool.authorization r.arguments)) [
              | inl f ↦ rw (start_with, e, f) (λ k. ground arith)
              | inr (given, f) ↦
                  rw (start_with, e, f)
                    (with_authority-wait _ a w _ (authorize-wait w _ timeout tool.definition))
            ]
          ]

  pub start-wait : (w : World) (a : Authorization) → (start s b wait_disabled r w).1 ≢ awaiting a
  unfolding start
  start-wait w a = elim (Option-cases (validate_request s.json_valid r)) [
    | inr (e, v) ↦ rw (start, v) (λ k. ground arith)
    | inl v ↦ elim (Option-cases (find_row Entry.name r.tool b.registry)) [
      | inl f ↦ rw (start, v, f) (λ k. ground arith)
      | inr (entry, f) ↦ rw (start, v, f) (start_with-wait entry.tool w a)
    ]
  ]

-- The environment with another permission gate.
abbrev pub with_gate :
    (PermissionPending → World → World × Option Text)
    → (Text → World → World × Option PermissionDecision)
    → Environment
    → Environment
with_gate creates waits env = record env { create_pending = creates; wait = waits }

module _ (env : Environment) (b : Broker) where
  after_start-with_gate :
      (creates : PermissionPending → World → World × Option Text)
      (waits : Text → World → World × Option PermissionDecision)
      (again again' : Request → World → World × Result) (r : Request) (started_at : Time)
      (w : World) (x : Start)
      → ((a : Authorization) → x ≢ awaiting a)
      → after_start (with_gate creates waits env) b again' r started_at (w, x)
        ≡ after_start env b again r started_at (w, x)
  unfolding after_start finish_body
  after_start-with_gate creates waits again again' r started_at w (stopped e) n = refl
  after_start-with_gate creates waits again again' r started_at w (awaiting a) n = absurd (n a refl)
  after_start-with_gate creates waits again again' r started_at w (begun r') n = refl

  pub cannot_wait :
      (r : Request) (wait_disabled : Bool)
      → (wait_disabled ≡ true) ⊎ (is_non_interactive_tool_caller r ≡ true) ⊎ (r.interactive ≡ false)
      → can_wait_permission b wait_disabled r ≡ false
  unfolding can_wait_permission
  cannot_wait r wait_disabled h = ground arith

  -- A call for which the wait is disabled, whose caller is a job, or that is not interactive never
  -- asks the user: it has the same effects and the same answer whatever the permission gate does.
  pub execute-with_gate :
      (creates : PermissionPending → World → World × Option Text)
      (waits : Text → World → World × Option PermissionDecision) (n : ℕ) (wait_disabled : Bool)
      (r : Request) (w : World)
      → (wait_disabled ≡ true) ⊎ (is_non_interactive_tool_caller r ≡ true) ⊎ (r.interactive ≡ false)
      → execute (with_gate creates waits env) b (suc n) wait_disabled r w
        ≡ execute env b (suc n) wait_disabled r w
  unfolding execute
  execute-with_gate creates waits n wait_disabled r w h =
      after_start-with_gate creates waits _ _ r _ _ _
        (start-wait (env.surroundings n w) b wait_disabled r (cannot_wait r wait_disabled h) w)
