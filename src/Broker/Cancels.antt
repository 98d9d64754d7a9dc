-- ===== src/Broker/Cancels.antt =====
-- What a cancellation of the calls of a run leaves (internal/tools/broker.go).
use auto_ze_agent.Common.{
  Bool-cases, List, Option, Text, [], ap, false, find_row, find_row-update_rows, inl, inr, is_blank,
  keep_if, length, none, refl, some, text_eq, text_eq_iff, trim_space, true, update_rows-none,
  updated_row, ◌&&◌, ◌≡◌, ◌⊎◌, arith,
}
use auto_ze_agent.Kernel.Base.{Time}
use auto_ze_agent.Broker.Calls.{
  CallState, ToolCall, cancel_incomplete_tool_calls, cancelled, ended, incomplete, incomplete_in,
  is_running, running, succeeded, failed, timed_out,
}

-- A call of the run that was running is cancelled; any other is as it was.
abbrev pub IsCancelledIn : Text → Time → ToolCall → ToolCall → Type 0
IsCancelledIn run_id now c c' =
    ((c.run_id ≡ run_id) × ((c.state ≡ running) × (c' ≡ ended cancelled incomplete now c)))
    ⊎ ((¬ (c.run_id ≡ run_id) ⊎ ¬ (c.state ≡ running)) × (c' ≡ c))

-- The same of what is found under an ID.
unfoldable pub CancelledIn : Text → Time → Option ToolCall → Option ToolCall → Type 0
CancelledIn run_id now none o = o ≡ none
CancelledIn run_id now (some c) o =
    (c' : ToolCall) × ((o ≡ some c') × IsCancelledIn run_id now c c')

-- The calls of a run that are running.
abbrev pub running_in : Text → List ToolCall → List ToolCall
running_in run_id = keep_if (λ c. text_eq c.run_id run_id && is_running c.state)

running_iff :
    (s : CallState)
    → (is_running s ≡ true) × (s ≡ running) ⊎ (is_running s ≡ false) × ¬ (s ≡ running)
unfolding is_running
running_iff running = inl (refl, refl)
running_iff succeeded = inr (refl, λ h. ground (arith, h))
running_iff failed = inr (refl, λ h. ground (arith, h))
running_iff timed_out = inr (refl, λ h. ground (arith, h))
running_iff cancelled = inr (refl, λ h. ground (arith, h))

updated-CancelledIn :
    (run_id : Text) (now : Time) (o : Option ToolCall)
    → CancelledIn run_id now o
        (updated_row (incomplete_in run_id) (ended cancelled incomplete now) o)
unfolding CancelledIn
updated-CancelledIn run_id now none = refl
updated-CancelledIn run_id now (some c) = elim (Bool-cases (text_eq c.run_id run_id)) [
  | inr e ↦
      rw e (c, (refl, inr (inl (λ h. ground (arith, e, h, text_eq_iff c.run_id run_id)), refl)))
  | inl e ↦ elim (running_iff c.state) [
    | inl (r, s) ↦
        rw (e, r)
          (
            ended cancelled incomplete now c,
            (refl, inl ((text_eq_iff c.run_id run_id).0 e, (s, refl))),
          )
    | inr (r, s) ↦ rw (e, r) (c, (refl, inr (inr s, refl)))
  ]
]

-- A cancellation for a run that is not blank leaves none of the run's calls running. Under every
-- ID, a call of this run that was running is cancelled, and a call of another run, or one that has
-- ended, is as it was. The answer is how many of the run's calls were running.
pub cancel_incomplete_tool_calls_lem :
    (run_id : Text) (now : Time) (calls : List ToolCall) (id : Text)
    → is_blank run_id ≡ false
    → (running_in (trim_space run_id) (cancel_incomplete_tool_calls run_id now calls).0 ≡ [])
      × CancelledIn
          (trim_space run_id)
          now
          (find_row ToolCall.tool_call_id id calls)
          (find_row ToolCall.tool_call_id id (cancel_incomplete_tool_calls run_id now calls).0)
      × ((cancel_incomplete_tool_calls run_id now calls).1
          ≡ some (length (running_in (trim_space run_id) calls)))
unfolding cancel_incomplete_tool_calls
cancel_incomplete_tool_calls_lem run_id now calls id h =
    let p = incomplete_in (trim_space run_id) in
    let f = ended cancelled incomplete now in
    let (gone, count) = update_rows-none p f calls (λ c. unfold is_running in ground arith) in
    let seen = find_row-update_rows ToolCall.tool_call_id id p f calls (λ c. refl) in
    rw h (
      gone,
      rw seen
          (updated-CancelledIn (trim_space run_id) now (find_row ToolCall.tool_call_id id calls)),
      ap some count,
    )
