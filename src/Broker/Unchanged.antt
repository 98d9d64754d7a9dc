-- ===== src/Broker/Unchanged.antt =====
-- A call that does not begin (internal/tools/broker.go).
use auto_ze_agent.Common.{
  Bool, Bool-cases, List, Option-cases, [], ap, arith, find_row, inl, inr, refl, ◌≡◌, ◌⊎◌,
}
use auto_ze_agent.Approval.Match.{Grant}
use auto_ze_agent.Broker.Requests.{Request, Authorization, Tool, validate_request, resolve_timeout}
use auto_ze_agent.Broker.Schemas.{Entry}
use auto_ze_agent.Broker.Calls.{World, insert_tool_call}
use auto_ze_agent.Broker.Execute.{
  Broker, Surroundings, Authority, no_grant_needed, wait_required, denied, granted_by, begun, begin,
  with_authority, scope_for, start_with, start,
}
use auto_ze_agent.Broker.Begins.{Begins, with_grant, start-Begins}

module _ (s : Surroundings) where
  begin-unchanged :
      (grants : List Grant) (r : Request) (w : World)
      → ((begin s grants r w).0 ≡ w) ⊎ ((r' : Request) × ((begin s grants r w).1 ≡ begun r'))
  unfolding begin
  begin-unchanged grants r w = elim (Bool-cases s.audit_ok) [
    | inl e ↦ elim (Option-cases (insert_tool_call s.stores_call r s.started_at w.calls)) [
      | inl i ↦ inl (ground (arith, e, i))
      | inr (calls, i) ↦ inr (r, ground (arith, e, i))
    ]
    | inr e ↦ inl (ground (arith, e))
  ]

  with_authority-unchanged :
      (scope : Authorization) (r : Request) (w : World) (x : Authority)
      → ((with_authority s scope r w x).0 ≡ w)
        ⊎ ((r' : Request) × ((with_authority s scope r w x).1 ≡ begun r'))
  unfolding with_authority
  with_authority-unchanged scope r w denied = inl refl
  with_authority-unchanged scope r w wait_required = inl refl
  with_authority-unchanged scope r w no_grant_needed = begin-unchanged w.grants (with_grant [] r) w
  with_authority-unchanged scope r w (granted_by id gs) = begin-unchanged gs (with_grant id r) w

module _ (s : Surroundings) (b : Broker) (wait_disabled : Bool) (r : Request) (w : World) where
  start_with-unchanged :
      (tool : Tool)
      → ((start_with s b wait_disabled tool r w).0 ≡ w)
        ⊎ ((x : Request) × ((start_with s b wait_disabled tool r w).1 ≡ begun x))
  unfolding start_with
  start_with-unchanged tool =
      elim (Option-cases (
        resolve_timeout b.maximum_timeout r.timeout_millis
          tool.definition.default_timeout_millis)) [
            | inl e ↦ inl (rw (start_with, e) refl)
            | inr (timeout, e) ↦ elim (Option-cases (tool.authorization r.arguments)) [
              | inl f ↦ inl (rw (start_with, e, f) refl)
              | inr (a, f) ↦
                  rw (start_with, e, f) (with_authority-unchanged s (scope_for r a) r w _)
            ]
          ]

  -- A call that does not begin changes nothing.
  pub start-unchanged :
      ((start s b wait_disabled r w).0 ≡ w)
      ⊎ ((x : Request) × ((start s b wait_disabled r w).1 ≡ begun x))
  unfolding start
  start-unchanged = elim (Option-cases (validate_request s.json_valid r)) [
    | inr (e, v) ↦ inl (rw (start, v) refl)
    | inl v ↦ elim (Option-cases (find_row Entry.name r.tool b.registry)) [
      | inl f ↦ inl (rw (start, v, f) refl)
      | inr (entry, f) ↦ rw (start, v, f) (start_with-unchanged entry.tool)
    ]
  ]

  pub start-cases :
      ((start s b wait_disabled r w).0 ≡ w)
      ⊎ ((x : Request) × Begins s b r w x (start s b wait_disabled r w).0)
  start-cases = elim start-unchanged [
    | inl e ↦ inl e
    | inr (x, e) ↦ inr (
      x,
      start-Begins s b wait_disabled r w x (start s b wait_disabled r w).0
          (ap (λ q. ((start s b wait_disabled r w).0, q)) e),
    )
  ]
