-- ===== src/Broker/Runs.antt =====
-- Which calls of a tool begin (internal/tools/broker.go).
use auto_ze_agent.Common.{
  Bool, Bool-cases, List, Text, [], find_row, inl, inr, member, none, refl, some, text_eq,
  text_eq_iff, true, ℤ, ◌∷◌, ◌≡◌, ◌⊎◌,
}
use auto_ze_agent.Policy.{allow, require_approval, valid_risk}
use auto_ze_agent.Policy.Decisions.{IsRule, evaluate_allow, evaluate_require}
use auto_ze_agent.Approval.Match.{Grant}
use auto_ze_agent.Approval.Grant.{Outcome, committed, rolled_back}
use auto_ze_agent.Broker.Requests.{
  Definition, Request, Authorization, validate_request, resolve_timeout, grant_candidates,
}
use auto_ze_agent.Broker.Schemas.{Entry}
use auto_ze_agent.Broker.Calls.{ToolCall, World, new_call, insert_tool_call}
use auto_ze_agent.Broker.Execute.{
  Broker, Surroundings, Authority, no_grant_needed, granted_by, Start, begun, first_consumed,
  consume_candidate, wait_or_deny, authorize_allowed, authorize_action, authorize, begin,
  with_authority, scope_for, start_with, start,
}
use auto_ze_agent.Broker.Authority.{UsesGrant}

-- The policy allows the risk, and the request names no grant.
abbrev pub NeedsNoGrant : Broker → Definition → Request → Type 0
NeedsNoGrant b d r = IsRule b.policy d.risk allow × (grant_candidates r ≡ [])

-- A grant that the request names can be consumed for it, and the policy does not deny the risk.
abbrev pub HasGrant :
    Surroundings → Broker → Definition → Authorization → ℤ → Request → World → Type 0
HasGrant s b d scope timeout r w =
    (IsRule b.policy d.risk allow ⊎ IsRule b.policy d.risk require_approval)
    × ((id : Text) × (gs : List Grant) × UsesGrant s w r scope timeout id gs (grant_candidates r))

abbrev Passes : Authority → Type 0
Passes x = (x ≡ no_grant_needed) ⊎ ((id : Text) × (gs : List Grant) × (x ≡ granted_by id gs))

module _ (s : Surroundings) (b : Broker) (wait_disabled : Bool) (w : World) (r : Request)
    (scope : Authorization) (timeout : ℤ) where
  first_consumed-Passes :
      (c : Text) (o : Outcome) (rest : Authority)
      → ((gs : List Grant) × (o ≡ committed gs))
        ⊎ ((id : Text) × (gs : List Grant) × (rest ≡ granted_by id gs))
      → (id : Text) × (gs : List Grant) × (first_consumed c o rest ≡ granted_by id gs)
  unfolding first_consumed
  first_consumed-Passes c (committed gs) rest h = (c, gs, refl)
  first_consumed-Passes c (rolled_back e) rest (inl (gs, h)) = absurd (cc)
  first_consumed-Passes c (rolled_back e) rest (inr h) = h

  consume_candidate-Passes :
      (otherwise : Authority) (cs : List Text) (id : Text) (gs : List Grant)
      → UsesGrant s w r scope timeout id gs cs
      → (i : Text) × (after : List Grant) × (consume_candidate s b wait_disabled w r scope timeout
            otherwise cs
          ≡ granted_by i after)
  unfolding consume_candidate member
  consume_candidate-Passes otherwise [] id gs (m, u) = absurd (cc)
  consume_candidate-Passes otherwise (c ∷ cs) id gs (m, u) = elim (Bool-cases (text_eq c id)) [
    | inl e ↦ first_consumed-Passes c _ _ (inl (gs, rw ((text_eq_iff c id).0 e) u))
    | inr e ↦
        first_consumed-Passes c _ _
          (inr (consume_candidate-Passes otherwise cs id gs (rw e at m, u)))
  ]

  authorize_allowed-Passes :
      (q : Bool) (cs : List Text) (id : Text) (gs : List Grant)
      → UsesGrant s w r scope timeout id gs cs
      → Passes (authorize_allowed s b wait_disabled q w r scope timeout cs)
  unfolding authorize_allowed member
  authorize_allowed-Passes q [] id gs (m, u) = absurd (cc)
  authorize_allowed-Passes q (c ∷ cs) id gs h =
      inr (consume_candidate-Passes (wait_or_deny s b wait_disabled q r) (c ∷ cs) id gs h)

  authorize-Passes :
      (d : Definition)
      → valid_risk d.risk ≡ true
      → NeedsNoGrant b d r ⊎ HasGrant s b d scope timeout r w
      → Passes (authorize s b wait_disabled w r d scope timeout)
  unfolding authorize authorize_action
  authorize-Passes d v (inl (rule, named)) =
      let (a, q) = evaluate_allow b.policy d.risk v rule in
      rw (a, q, named) (unfold authorize_allowed in inl refl)
  authorize-Passes d v (inr (inl rule, (id, gs, h))) =
      let (a, q) = evaluate_allow b.policy d.risk v rule in
      rw a (authorize_allowed-Passes _ (grant_candidates r) id gs h)
  authorize-Passes d v (inr (inr rule, (id, gs, h))) =
      let (a, q) = evaluate_require b.policy d.risk v rule in
      rw a (authorize_allowed-Passes _ (grant_candidates r) id gs h)

abbrev Starts : World × Start → Type 0
Starts x = (r' : Request) × (x.1 ≡ begun r')

module _ (s : Surroundings) (audited : s.audit_ok ≡ true)
    (stores : (c : ToolCall) → s.stores_call c ≡ true) where
  begin-Starts :
      (grants : List Grant) (r : Request) (w : World)
      → find_row ToolCall.tool_call_id r.call_id w.calls ≡ none
      → Starts (begin s grants r w)
  unfolding begin insert_tool_call
  begin-Starts grants r w unused = (r, rw (audited, unused, stores (new_call r s.started_at)) refl)

  with_authority-Starts :
      (scope : Authorization) (r : Request) (w : World) (x : Authority)
      → find_row ToolCall.tool_call_id r.call_id w.calls ≡ none
      → Passes x
      → Starts (with_authority s scope r w x)
  unfolding with_authority
  with_authority-Starts scope r w x unused (inl e) = rw e (begin-Starts w.grants _ w unused)
  with_authority-Starts scope r w x unused (inr (id, gs, e)) = rw e (begin-Starts gs _ w unused)

  -- A permitted call begins: where the audit log and the foreign keys accept the call, its request is
  -- valid, its tool is registered and of a known risk level, its timeout is accepted, the tool has
  -- read the arguments, no stored call has its ID, and either the policy allows the risk and the
  -- request names no grant, or the policy allows the risk or asks for an approval and some grant
  -- that the request names can be consumed for it.
  pub start-Starts :
      (b : Broker) (wait_disabled : Bool) (r : Request) (w : World) (entry : Entry) (timeout : ℤ)
      (a : Authorization)
      → validate_request s.json_valid r ≡ none
      → find_row Entry.name r.tool b.registry ≡ some entry
      → resolve_timeout b.maximum_timeout r.timeout_millis
          entry.tool.definition.default_timeout_millis
        ≡ some timeout
      → entry.tool.authorization r.arguments ≡ some a
      → valid_risk entry.tool.definition.risk ≡ true
      → find_row ToolCall.tool_call_id r.call_id w.calls ≡ none
      → NeedsNoGrant b entry.tool.definition r
        ⊎ HasGrant s b entry.tool.definition (scope_for r a) timeout r w
      → (r' : Request) × ((start s b wait_disabled r w).1 ≡ begun r')
  unfolding start start_with
  start-Starts b wait_disabled r w entry timeout a v f t k risk unused h =
      rw (start, v, f)
        (rw (start_with, t, k)
          (with_authority-Starts (scope_for r a) r w _ unused (
            authorize-Passes s b wait_disabled w r (scope_for r a) timeout entry.tool.definition
              risk h)))
