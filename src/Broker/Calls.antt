-- ===== src/Broker/Calls.antt =====
-- internal/tools/broker.go: the table `tool_calls` and the operations on it. What fails in the
-- database for another reason than a constraint is left out.
use auto_ze_agent.Common.{
  Bool, List, Option, Text, [], find_row, if◌then◌else◌, is_blank, is_nil, is_some, none, not, some,
  text_eq, trim_space, update_rows, ℕ, ◌&&◌, ◌++◌, ◌==◌, ◌||◌, ◌∷◌,
}
use auto_ze_agent.Kernel.Base.{Time}
use auto_ze_agent.Approval.Match.{Grant}
use auto_ze_agent.Broker.Requests.{Request, ToolError, call_not_found}

pub data CallState : Type 0 where
  running succeeded failed timed_out cancelled : CallState

unfoldable pub is_running : CallState → Bool
is_running running = Bool.true
is_running _ = Bool.false

-- A preview says whether it was cut, and names the artifact.
pub data Output : Type 0 where
  no_output : Output
  whole : Text → Output
  preview : Bool → Text → Text → Output

pub record Response : Type 0 where
  pub call_id : Text
  pub tool : Text
  pub output : Output
  pub artifact : Option Text
  pub started_at : Time
  pub finished_at : Time

pub data Payload : Type 0 where
  finished : Response → Option ToolError → Payload
  incomplete : Payload

pub record ToolCall : Type 0 where
  pub tool_call_id : Text
  pub run_id : Text
  pub step_id : Text
  pub grant_id : Option Text
  pub tool_name : Text
  pub state : CallState
  pub request : Request
  pub response : Option Payload
  pub started_at : Time
  pub finished_at : Option Time

-- The tables, the hashes of plans with the states of their tasks, and the calls whose tools were
-- executed, in the order in which they began.
pub record World : Type 0 where
  pub grants : List Grant
  pub plans : Text → Option (Text × Text)
  pub calls : List ToolCall
  pub bodies : List Text

abbrev pub new_call : Request → Time → ToolCall
new_call r started_at = record {
  tool_call_id = r.call_id;
  run_id = r.run_id;
  step_id = r.step_id;
  grant_id = if is_blank r.capability_grant_id then none else some r.capability_grant_id;
  tool_name = r.tool;
  state = running;
  request = r;
  response = none;
  started_at = started_at;
  finished_at = none;
}

-- The `INSERT`; `stores` stands for the foreign keys.
unfoldable pub insert_tool_call :
    (ToolCall → Bool) → Request → Time → List ToolCall → Option (List ToolCall)
insert_tool_call stores r started_at calls =
    if is_some (find_row ToolCall.tool_call_id r.call_id calls)
      || not (stores (new_call r started_at))
    then none
    else some (calls ++ new_call r started_at ∷ [])

abbrev pub ended : CallState → Payload → Time → ToolCall → ToolCall
ended state payload now c = record c {
  state = state;
  response = some payload;
  finished_at = some now;
}

unfoldable pub finish_tool_call :
    Text
    → CallState
    → Response
    → Option ToolError
    → Time
    → List ToolCall
    → List ToolCall × Option ToolError
finish_tool_call call_id state response error now calls =
    let r =
      update_rows (λ (c : ToolCall). text_eq c.tool_call_id call_id)
        (ended state (finished response error) now) calls in
    (r.0, if r.1 == 1 then none else some call_not_found)

-- `run_id = ? AND state = 'running'`.
abbrev pub incomplete_in : Text → ToolCall → Bool
incomplete_in run_id c = text_eq c.run_id run_id && is_running c.state

-- The number of rows, or `none` for the error of a blank run.
unfoldable pub cancel_incomplete_tool_calls : Text → Time → List ToolCall → List ToolCall × Option ℕ
cancel_incomplete_tool_calls run_id now calls =
    let id = trim_space run_id in
    let r = update_rows (incomplete_in id) (ended cancelled incomplete now) calls in
    if is_nil id then (calls, none) else (r.0, some r.1)
