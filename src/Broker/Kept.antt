-- ===== src/Broker/Kept.antt =====
-- What a stored call keeps over a history (internal/tools/broker.go).
use auto_ze_agent.Common.{
  Bool-cases, List, Text, [], ap, arith, false, find_row, find_row-append, find_row-update_rows,
  inl, inr, refl, some, true, ◌∙◌, ◌∷◌, ◌≡◌, ◌⊎◌,
}
use auto_ze_agent.Broker.Calls.{is_running, ToolCall, World, ended}
use auto_ze_agent.Broker.Execute.{Broker}
use auto_ze_agent.Broker.Steps.{Step, run_step, run_steps}
use auto_ze_agent.Broker.Moves.{
  Move, stays, begins, updates, grants_move, plans_move, run_step-Move,
}

-- Only the state, the response and the end of a call change, and it does not run again.
abbrev pub Kept : ToolCall → ToolCall → Type 0
Kept c c' =
    (c' ≡ record c { state = c'.state; response = c'.response; finished_at = c'.finished_at })
    × ((is_running c.state ≡ true) ⊎ (is_running c'.state ≡ false))

abbrev pub KeptIn : Text → ToolCall → World → Type 0
KeptIn id c w = (c' : ToolCall) × (find_row ToolCall.tool_call_id id w.calls ≡ some c') × Kept c c'

Kept-refl : (c : ToolCall) → Kept c c
Kept-refl c = (refl, elim (Bool-cases (is_running c.state)) [ inl e ↦ inl e | inr e ↦ inr e ])

Kept-trans : (c d e : ToolCall) → Kept c d → Kept d e → Kept c e
Kept-trans c d e (p, l) (q, k) = (q ∙ ap (λ x. ending x) p, ground (arith, l, k))
  where
    ending : ToolCall → ToolCall
    ending x = record x { state = e.state; response = e.response; finished_at = e.finished_at }

moved-KeptIn :
    (id : Text) (c : ToolCall) (b : Broker) (w w' : World)
    → Move b w w'
    → find_row ToolCall.tool_call_id id w.calls ≡ some c
    → KeptIn id c w'
moved-KeptIn id c b w w' (stays e) h = rw e (c, h, Kept-refl c)
moved-KeptIn id c b w w'
      (begins s r r' (entry, timeout, a, v, f, t, k, risk, unused, inl (rule, named, same, new)))
      h =
    rw new (c, find_row-append ToolCall.tool_call_id id w.calls _ c h, Kept-refl c)
moved-KeptIn id c b w w'
      (begins s r r' (
        entry,
        timeout,
        a,
        v,
        f,
        t,
        k,
        risk,
        unused,
        inr (rule, (g, gs, named, consumed, same, new)),
      ))
      h =
    rw new (c, find_row-append ToolCall.tool_call_id id w.calls _ c h, Kept-refl c)
moved-KeptIn id c b w w' (grants_move op e) h = rw e (c, h, Kept-refl c)
moved-KeptIn id c b w w' (plans_move plans e) h = rw e (c, h, Kept-refl c)
moved-KeptIn id c b w w' (updates p state payload now ends e) h =
    let seen =
      find_row-update_rows ToolCall.tool_call_id id p (ended state payload now) w.calls
        (λ x. refl) in
    elim (Bool-cases (p c)) [
      | inl t ↦ rw e (ended state payload now c, rw (seen, h, t) refl, (refl, inr ends))
      | inr t ↦ rw e (c, rw (seen, h, t) refl, Kept-refl c)
    ]

-- Over every history, a stored call stays in the table and keeps all its fields but the state, the
-- response and the end, and once it has ended it is never running again.
pub run_steps-KeptIn :
    (id : Text) (c : ToolCall) (b : Broker) (xs : List Step) (w : World)
    → find_row ToolCall.tool_call_id id w.calls ≡ some c
    → KeptIn id c (run_steps b xs w)
unfolding run_steps
run_steps-KeptIn id c b [] w h = (c, h, Kept-refl c)
run_steps-KeptIn id c b (x ∷ xs) w h =
    let (d, found, kept) = moved-KeptIn id c b w (run_step b x w) (run_step-Move b x w) h in
    let (e, there, still) = run_steps-KeptIn id d b xs (run_step b x w) found in
    (e, there, Kept-trans c d e kept still)
