-- ===== src/Broker/Begins.antt =====
-- What a call of a tool that begins has passed (internal/tools/broker.go).
use auto_ze_agent.Common.{
  Bool, Bool-cases, List, Option-cases, Text, [], arith, find_row, inl, inr, member, none, refl,
  some, true, ℤ, ◌++◌, ◌∷◌, ◌≡◌, ◌⊎◌,
}
use auto_ze_agent.Kernel.Base.{Time, normalized_time}
use auto_ze_agent.Policy.{allow, require_approval, valid_risk}
use auto_ze_agent.Policy.Decisions.{IsRule}
use auto_ze_agent.Approval.Match.{Grant}
use auto_ze_agent.Approval.Consumption.{Consumed, authorize_and_consume_sound}
use auto_ze_agent.Broker.Requests.{
  Definition, Request, Authorization, validate_request, resolve_timeout, grant_candidates,
}
use auto_ze_agent.Broker.Schemas.{Entry}
use auto_ze_agent.Broker.Calls.{ToolCall, World, new_call, insert_tool_call}
use auto_ze_agent.Broker.Execute.{
  Broker, Surroundings, request_of, Authority, no_grant_needed, wait_required, denied, granted_by,
  begun, authorize, begin, with_authority, scope_for, start_with, start,
}
use auto_ze_agent.Broker.Authority.{
  authorize_sound, authorize_allowed_sound, authorize_allowed_free,
}

-- The tables after the beginning of a call.
abbrev pub began : List Grant → Request → Time → World → World
began grants r started_at w = record w {
  grants = grants;
  calls = w.calls ++ new_call r started_at ∷ [];
  bodies = w.bodies ++ r.call_id ∷ [];
}

abbrev pub with_grant : Text → Request → Request
with_grant id r = record r { capability_grant_id = id }

-- A call begins without a grant.
abbrev pub BeginsFree :
    Surroundings → Broker → Definition → Request → World → Request → World → Type 0
BeginsFree s b d r w r' w' =
    IsRule b.policy d.risk allow
    × (grant_candidates r ≡ [])
    × (r' ≡ with_grant [] r)
    × (w' ≡ began w.grants r' s.started_at w)

-- A call begins with the consumption of a grant that it names.
abbrev pub BeginsGranted :
    Surroundings
    → Broker
    → Definition
    → Authorization
    → ℤ
    → Request
    → World
    → Request
    → World
    → Type 0
BeginsGranted s b d scope timeout r w r' w' =
    (IsRule b.policy d.risk allow ⊎ IsRule b.policy d.risk require_approval)
    × ((id : Text) × (gs : List Grant) × (member id (grant_candidates r) ≡ true)
        × Consumed s.contains_resolved s.lower w.plans (normalized_time s.clock s.now)
            (request_of id r scope timeout s.now) w.grants gs
        × (r' ≡ with_grant id r)
        × (w' ≡ began gs r' s.started_at w))

-- What the broker looked up for a call that begins.
abbrev pub Begins : Surroundings → Broker → Request → World → Request → World → Type 0
Begins s b r w r' w' =
    (entry : Entry) × (timeout : ℤ) × (a : Authorization) × (validate_request s.json_valid r ≡ none)
    × (find_row Entry.name r.tool b.registry ≡ some entry)
    × (resolve_timeout b.maximum_timeout r.timeout_millis
          entry.tool.definition.default_timeout_millis
        ≡ some timeout)
    × (entry.tool.authorization r.arguments ≡ some a)
    × (valid_risk entry.tool.definition.risk ≡ true)
    × (find_row ToolCall.tool_call_id r.call_id w.calls ≡ none)
    × (BeginsFree s b entry.tool.definition r w r' w'
        ⊎ BeginsGranted s b entry.tool.definition (scope_for r a) timeout r w r' w')

insert_tool_call_sound :
    (stores : ToolCall → Bool) (r : Request) (started_at : Time) (calls after : List ToolCall)
    → insert_tool_call stores r started_at calls ≡ some after
    → (find_row ToolCall.tool_call_id r.call_id calls ≡ none)
      × (after ≡ calls ++ new_call r started_at ∷ [])
unfolding insert_tool_call
insert_tool_call_sound stores r started_at calls after h =
    elim (Option-cases (find_row ToolCall.tool_call_id r.call_id calls)) [
      | inl e ↦ (e, ground (arith, e))
      | inr (c, e) ↦ absurd (ground (arith, e))
    ]

module _ (s : Surroundings) where
  begin_sound :
      (grants : List Grant) (r r' : Request) (w w' : World)
      → begin s grants r w ≡ (w', begun r')
      → (r' ≡ r)
        × (find_row ToolCall.tool_call_id r.call_id w.calls ≡ none)
        × (w' ≡ began grants r' s.started_at w)
  unfolding begin
  begin_sound grants r r' w w' h = elim (Bool-cases s.audit_ok) [
    | inl e ↦ elim (Option-cases (insert_tool_call s.stores_call r s.started_at w.calls)) [
      | inl i ↦ absurd (ground (arith, e, i))
      | inr (calls, i) ↦
          let (free, new) = insert_tool_call_sound s.stores_call r s.started_at w.calls calls i in
          (ground (arith, e, i), free, ground (arith, e, i, new))
    ]
    | inr e ↦ absurd (ground (arith, e))
  ]

module _ (s : Surroundings) (b : Broker) (wait_disabled : Bool) (r : Request) (w : World) where
  with_authority_sound :
      (r' : Request) (w' : World) (d : Definition) (scope : Authorization) (timeout : ℤ)
      (x : Authority)
      → authorize s b wait_disabled w r d scope timeout ≡ x
      → with_authority s scope r w x ≡ (w', begun r')
      → (valid_risk d.risk ≡ true)
        × (find_row ToolCall.tool_call_id r.call_id w.calls ≡ none)
        × (BeginsFree s b d r w r' w' ⊎ BeginsGranted s b d scope timeout r w r' w')
  unfolding with_authority
  with_authority_sound r' w' d scope timeout denied k h = absurd (cc)
  with_authority_sound r' w' d scope timeout wait_required k h = absurd (cc)
  with_authority_sound r' w' d scope timeout no_grant_needed k h =
      let (same, unused, new) = begin_sound s w.grants (with_grant [] r) r' w w' h in
      let ((valid, based), k') =
        authorize_sound s b wait_disabled w r scope timeout d no_grant_needed (λ e. absurd (cc))
          k in
      let (none_named, q) =
        authorize_allowed_free s b wait_disabled w r scope timeout _ (grant_candidates r) k' in
      (valid, unused, inl (ground (arith, based, q), none_named, same, new))
  with_authority_sound r' w' d scope timeout (granted_by id gs) k h =
      let (same, unused, new) = begin_sound s gs (with_grant id r) r' w w' h in
      let ((valid, based), k') =
        authorize_sound s b wait_disabled w r scope timeout d (granted_by id gs) (λ e. absurd (cc))
          k in
      let (named, consumed) =
        authorize_allowed_sound s b wait_disabled w r scope timeout _ (grant_candidates r) id gs
          k' in
      let consumes =
        authorize_and_consume_sound s.contains_resolved s.lower w.plans s.clock
          (request_of id r scope timeout s.now) w.grants gs consumed in
      (valid, unused, inr (ground (arith, based), (id, gs, named, consumes, same, new)))

  start_with_sound :
      (r' : Request) (w' : World) (entry : Entry)
      → validate_request s.json_valid r ≡ none
      → find_row Entry.name r.tool b.registry ≡ some entry
      → start_with s b wait_disabled entry.tool r w ≡ (w', begun r')
      → Begins s b r w r' w'
  unfolding start_with
  start_with_sound r' w' entry valid found h =
      elim (Option-cases (
        resolve_timeout b.maximum_timeout r.timeout_millis
          entry.tool.definition.default_timeout_millis)) [
            | inl e ↦ absurd (ground (arith, rw (start_with, e) at h))
            | inr (timeout, e) ↦ elim (Option-cases (entry.tool.authorization r.arguments)) [
              | inl f ↦ absurd (ground (arith, rw f at rw (start_with, e) at h))
              | inr (a, f) ↦
                  let (known, unused, begins) =
                    with_authority_sound r' w' entry.tool.definition (scope_for r a) timeout _ refl
                      (rw f at rw (start_with, e) at h) in
                  (entry, timeout, a, valid, found, e, f, known, unused, begins)
            ]
          ]

  -- A tool runs only by authority: if a call begins, its request is valid, its tool is registered and
  -- of a known risk level, its timeout is accepted, the tool has read the arguments, and no stored
  -- call has its ID; either the policy allows the risk and the request names no grant, or the policy
  -- allows the risk or asks for an approval, and a grant that the request names permits the call and
  -- is charged one use. The call is then stored as running and its tool is executed, and no other
  -- row of the tables changes.
  pub start-Begins :
      (r' : Request) (w' : World)
      → start s b wait_disabled r w ≡ (w', begun r')
      → Begins s b r w r' w'
  unfolding start
  start-Begins r' w' h = elim (Option-cases (validate_request s.json_valid r)) [
    | inr (e, v) ↦ absurd (ground (arith, rw (start, v) at h))
    | inl v ↦ elim (Option-cases (find_row Entry.name r.tool b.registry)) [
      | inl f ↦ absurd (ground (arith, rw f at rw (start, v) at h))
      | inr (entry, f) ↦ start_with_sound r' w' entry v f (rw f at rw (start, v) at h)
    ]
  ]
