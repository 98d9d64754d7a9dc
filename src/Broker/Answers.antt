-- ===== src/Broker/Answers.antt =====
-- How `Execute` ends (internal/tools/broker.go).
use auto_ze_agent.Common.{
  Bool, Bool-cases, List, Option, Text, [], arith, false, ap, find_row, find_row_key,
  find_row-update_rows, sym, ◌∙◌, if◌then◌else◌, inl, inr, none, refl, some, subst, suc, text_eq,
  text_eq_refl, true, update_rows, zero, ℕ, ◌==◌, ◌∷◌, ◌≡◌, ◌≢◌, ◌⊎◌,
}
use auto_ze_agent.Kernel.Base.{Time}
use auto_ze_agent.Broker.Requests.{Request, Authorization, ToolError, call_not_found}
use auto_ze_agent.Broker.Calls.{
  succeeded, Response, finished, ToolCall, World, ended, finish_tool_call,
}
use auto_ze_agent.Broker.Execute.{Broker, Surroundings, Start, stopped, awaiting, begun, start}
use auto_ze_agent.Broker.Rounds.{
  BodyResult, ContextEnd, Result, out_of_rounds, refused, answered, end_state, finish_call,
  PermissionDecision, Environment, retry_with, after_decision, after_pending,
  execute_after_permission, finish_body, after_start, execute, new_response, or_first, store_output,
  take_output,
}
use auto_ze_agent.Broker.Begins.{Begins, start-Begins}
use auto_ze_agent.Broker.Waits.{cannot_wait, start-wait}

-- What holds of every refusal, of every later round and of every end of a tool holds of a round.
module _ {ℓ} (P : World × Result → Type ℓ)
    (refusing : (w : World) (e : ToolError) → P (w, refused e)) (env : Environment) (b : Broker)
    (again : Request → World → World × Result) (r : Request) where
  if-result : (c : Bool) (x y : World × Result) → P x → P y → P (if c then x else y)
  if-result true x y p q = p
  if-result false x y p q = q

  module _ (retries : (id : Text) (w : World) → P (again (retry_with id r) w)) where
    after_decision-result : (x : World × Option PermissionDecision) → P (after_decision again r x)
    unfolding after_decision
    after_decision-result (w, none) = refusing w _
    after_decision-result (w, some d) = if-result _ _ _ (refusing w _) (retries d.grant_id w)

    after_pending-result : (x : World × Option Text) → P (after_pending env b again r x)
    unfolding after_pending
    after_pending-result (w, none) = refusing w _
    after_pending-result (w, some id) = after_decision-result (env.wait id w)

    execute_after_permission-result :
        (scope : Authorization) (w : World) → P (execute_after_permission env b again r scope w)
    unfolding execute_after_permission
    execute_after_permission-result scope w =
        if-result _ _ _ (refusing w _) (after_pending-result _)

  after_start-result :
      (started_at : Time) (x : World × Start)
      → ((r' : Request) → x.1 ≡ begun r' → P (finish_body env b r' started_at (env.body r' x.0)))
      → ((id : Text) (w : World) → P (again (retry_with id r) w))
        ⊎ ((a : Authorization) → x.1 ≢ awaiting a)
      → P (after_start env b again r started_at x)
  unfolding after_start
  after_start-result started_at (w, stopped e) ends n = refusing w e
  after_start-result started_at (w, begun r') ends n = ends r' refl
  after_start-result started_at (w, awaiting a) ends (inr n) = absurd (n a refl)
  after_start-result started_at (w, awaiting a) ends (inl n) = execute_after_permission-result n a w

-- The row of a call that succeeded holds its answer.
abbrev pub Succeeded : Text → World → Response → Type 0
Succeeded id w response =
    (response.call_id ≡ id)
    × ((c : ToolCall) × (find_row ToolCall.tool_call_id id w.calls ≡ some c)
        × (c.state ≡ succeeded)
        × (c.response ≡ some (finished response none))
        × (c.finished_at ≡ some response.finished_at))

end_state-Succeeded :
    (c : ContextEnd) (e : Option ToolError)
    → (end_state c e).1 ≡ none
    → (end_state c e).0 ≡ succeeded
unfolding end_state
end_state-Succeeded c none h = refl
end_state-Succeeded c (some e) h = ground arith

take_output-ids :
    (threshold : ℕ) (x : BodyResult) (r : Response)
    → ((take_output threshold x r).0.call_id ≡ r.call_id)
      × ((take_output threshold x r).0.finished_at ≡ r.finished_at)
unfolding take_output store_output
take_output-ids threshold x r = (ground arith, ground arith)

updated_found :
    (id : Text) (f : ToolCall → ToolCall) (cs : List ToolCall)
    → (update_rows (λ (c : ToolCall). text_eq c.tool_call_id id) f cs).1 ≡ 1
    → (c : ToolCall) × (find_row ToolCall.tool_call_id id cs ≡ some c)
unfolding update_rows find_row
updated_found id f [] h = absurd (omega (arith, h))
updated_found id f (c ∷ cs) h = elim (Bool-cases (text_eq c.tool_call_id id)) [
  | inl e ↦ (c, rw e refl)
  | inr e ↦ let (d, g) = updated_found id f cs (rw e at h) in (d, rw e g)
]

no_error :
    (reported missing recorded : Option ToolError) (given response : Response)
    → answered given (or_first (or_first reported missing) recorded) ≡ answered response none
    → (given ≡ response) × (reported ≡ none) × (missing ≡ none)
no_error none none none given response h = ground arith
no_error none none (some e) given response h = ground arith
no_error none (some e) recorded given response h = ground arith
no_error (some e) missing recorded given response h = ground arith

finish_call-Succeeded :
    (threshold : ℕ) (r : Request) (started_at : Time) (x : BodyResult) (w : World)
    (response : Response)
    → (finish_call threshold r started_at x w).1 ≡ answered response none
    → Succeeded r.call_id (finish_call threshold r started_at x w).0 response
unfolding finish_call finish_tool_call
finish_call-Succeeded threshold r started_at x w response h =
    let begun_with = new_response r started_at x.finished_at in
    let (same, unreported, stored) = no_error _ _ _ _ response h in
    let out = take_output threshold x begun_with in
    let last = end_state x.context_end out.1 in
    let (id, time) = take_output-ids threshold x begun_with in
    let done =
      end_state-Succeeded x.context_end (take_output threshold x begun_with).1 unreported in
    let (c, found) = updated_found r.call_id _ w.calls (is_one _ stored) in
    (
      ap Response.call_id (sym same) ∙ id,
      (
        ended last.0 (finished out.0 last.1) x.finished_at c,
        find_row-update_rows ToolCall.tool_call_id r.call_id _ _ w.calls (λ c. refl)
            ∙ (rw
                (
                  found,
                  find_row_key ToolCall.tool_call_id r.call_id w.calls c found,
                  text_eq_refl r.call_id,
                )
                refl),
        done,
        rw (same, unreported) refl,
        ap some (sym time ∙ ap Response.finished_at same),
      ),
    )
  where
    is_one : (n : ℕ) → (if n == 1 then none else some call_not_found) ≡ none → n ≡ 1
    is_one n k = ground arith

Begins-call_id :
    (s : Surroundings) (b : Broker) (r r' : Request) (w w' : World)
    → Begins s b r w r' w'
    → r'.call_id ≡ r.call_id
Begins-call_id s b r r' w w'
      (entry, timeout, a, v, f, t, k, risk, unused, inl (rule, named, same, new)) =
    ap Request.call_id same
Begins-call_id s b r r' w w'
      (
        entry,
        timeout,
        a,
        v,
        f,
        t,
        k,
        risk,
        unused,
        inr (rule, (g, gs, named, consumed, same, new)),
      ) =
    ap Request.call_id same

module _ (env : Environment) (b : Broker) where
  abbrev Returns : World × Result → Type 0
  Returns q = q.1 ≢ out_of_rounds

  finish_body-Returns :
      (r : Request) (started_at : Time) (x : World × BodyResult)
      → Returns (finish_body env b r started_at x)
  unfolding finish_body finish_call
  finish_body-Returns r started_at (w, x) e = ground arith

  -- `Execute` ends: a call waits for the user once at most, so two rounds suffice, whatever the gate,
  -- the tool and the rest of the program do.
  pub execute-returns :
      (n : ℕ) (wait_disabled : Bool) (r : Request) (w : World)
      → (execute env b (suc (suc n)) wait_disabled r w).1 ≢ out_of_rounds
  unfolding execute
  execute-returns n wait_disabled r w =
      after_start-result Returns (λ v e k. ground arith) env b _ r _ _
        (λ r' e. finish_body-Returns r' _ _)
        (inl λ id v.
          after_start-result Returns (λ u e k. ground arith) env b _ (retry_with id r) _ _
            (λ r' e. finish_body-Returns r' _ _)
            (inr (
              start-wait (env.surroundings n v) b true (retry_with id r)
                (cannot_wait env b (retry_with id r) true (inl refl)) v)))

  abbrev Reports : Text → World × Result → Type 0
  Reports id q = (response : Response) → q.1 ≡ answered response none → Succeeded id q.0 response

  finish_body-Reports :
      (r : Request) (started_at : Time) (x : World × BodyResult)
      → Reports r.call_id (finish_body env b r started_at x)
  unfolding finish_body
  finish_body-Reports r started_at (w, x) response h =
      finish_call-Succeeded b.artifact_threshold r started_at x w response h

  execute-Reports :
      (n : ℕ) (wait_disabled : Bool) (r : Request) (w : World)
      → Reports r.call_id (execute env b n wait_disabled r w)
  unfolding execute
  execute-Reports zero wait_disabled r w = λ response h. absurd (ground arith)
  execute-Reports (suc n) wait_disabled r w =
      let s = env.surroundings n w in
      let first = start s b wait_disabled r w in
      after_start-result (Reports r.call_id) (λ v e response h. absurd (ground arith)) env b _ r _ _
        (λ r' e.
          let begins = start-Begins s b wait_disabled r w r' first.0 (ap (λ q. (first.0, q)) e) in
          subst (λ i. Reports i (finish_body env b r' s.started_at (env.body r' first.0)))
            (Begins-call_id s b r r' w first.0 begins)
            (finish_body-Reports r' s.started_at (env.body r' first.0)))
        (inl λ id v. execute-Reports n true (retry_with id r) v)

  -- If `Execute` answers without an error, the answer is that of the call, and the stored call has
  -- succeeded with this answer and its time of end, whatever happened to the tables meanwhile.
  pub execute-Succeeded :
      (n : ℕ) (wait_disabled : Bool) (r : Request) (w : World) (response : Response)
      → (execute env b n wait_disabled r w).1 ≡ answered response none
      → Succeeded r.call_id (execute env b n wait_disabled r w).0 response
  execute-Succeeded n wait_disabled r w response h = execute-Reports n wait_disabled r w response h
