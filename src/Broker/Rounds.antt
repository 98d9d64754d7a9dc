-- ===== src/Broker/Rounds.antt =====
-- internal/tools/broker.go: the end of a call, and `Execute` as a whole with its wait for the user.
-- `byte_length` is the length of a text in UTF-8.
use auto_ze_agent.Common.{
  Bool, Option, Text, [], codes, false, if◌then◌else◌, is_blank, is_nil, length, ltb, none, not,
  some, suc, take, text_eq, true, zero, ℕ, ◌+◌, ◌||◌, ◌∷◌,
}
use auto_ze_agent.Kernel.Base.{Time}
use auto_ze_agent.Broker.Requests.{
  Request, Authorization, ToolError, tool_denied, tool_timeout, audit_refused, invalid_output,
  artifact_refused, canceled,
}
use auto_ze_agent.Broker.Calls.{
  CallState, succeeded, failed, timed_out, cancelled, Output, no_output, whole, preview, Response,
  World, finish_tool_call,
}
use auto_ze_agent.Broker.Execute.{Broker, Surroundings, Start, stopped, awaiting, begun, start}

unfoldable pub byte_length : Text → ℕ
byte_length [] = 0
byte_length (c ∷ s) =
    (if ltb c 0x80 then 1 else if ltb c 0x800 then 2 else if ltb c 0x10000 then 3 else 4)
    + byte_length s

unfoldable pub artifact_preview_runes : ℕ
artifact_preview_runes = 2000

-- The fields of the JSON object that it returns.
unfoldable pub truncate_tool_output : Text → Text → Output
truncate_tool_output output artifact_id =
    if ltb artifact_preview_runes (length output)
    then preview true (take artifact_preview_runes output) artifact_id
    else preview false output artifact_id

pub data ContextEnd : Type 0 where
  not_ended deadline_exceeded context_canceled : ContextEnd

-- What the tool, the artifact store and the audit log answer, and how the context of the call
-- stands afterwards.
pub record BodyResult : Type 0 where
  pub output : Text
  pub error : Option ToolError
  pub context_end : ContextEnd
  pub json_valid : Text → Bool
  pub artifact : Option Text
  pub audit_ok : Bool
  pub finished_at : Time

-- `errors.Join` and the assignment of an error where there is none.
unfoldable pub or_error : Option ToolError → ToolError → Option ToolError
or_error none e = some e
or_error (some first) e = some first

unfoldable pub store_output :
    Text → Option Text → Option ToolError → Response → Response × Option ToolError
store_output output none error r = (r, or_error error artifact_refused)
store_output output (some id) error r =
    (record r { artifact = some id; output = truncate_tool_output output id }, error)

unfoldable pub take_output : ℕ → BodyResult → Response → Response × Option ToolError
take_output threshold x r =
    if is_nil x.output
    then (r, x.error)
    else if not (x.json_valid x.output)
    then (r, or_error x.error invalid_output)
    else if ltb threshold (byte_length x.output)
    then store_output x.output x.artifact x.error r
    else (record r { output = whole x.output }, x.error)

unfoldable pub is_canceled : ToolError → Bool
is_canceled canceled = true
is_canceled _ = false

unfoldable pub end_state : ContextEnd → Option ToolError → CallState × Option ToolError
end_state ended none = (succeeded, none)
end_state deadline_exceeded (some e) = (timed_out, some tool_timeout)
end_state context_canceled (some e) = (cancelled, some e)
end_state not_ended (some e) = (if is_canceled e then cancelled else failed, some e)

abbrev pub or_first : Option ToolError → Option ToolError → Option ToolError
or_first none later = later
or_first (some e) later = some e

pub data Result : Type 0 where
  out_of_rounds : Result
  refused : ToolError → Result
  answered : Response → Option ToolError → Result

abbrev pub new_response : Request → Time → Time → Response
new_response r started_at finished_at = record {
  call_id = r.call_id;
  tool = r.tool;
  output = no_output;
  artifact = none;
  started_at = started_at;
  finished_at = finished_at;
}

-- What `Execute` does once the tool has returned.
unfoldable pub finish_call : ℕ → Request → Time → BodyResult → World → World × Result
finish_call threshold r started_at x w =
    let (response, error) = take_output threshold x (new_response r started_at x.finished_at) in
    let (state, reported) = end_state x.context_end error in
    let (calls, missing) =
      finish_tool_call r.call_id state response reported x.finished_at w.calls in
    (
      record w { calls = calls },
      answered response
          (or_first (or_first reported missing) (if x.audit_ok then none else some audit_refused)),
    )

pub record PermissionPending : Type 0 where
  pub request : Request
  pub scope : Authorization

pub record PermissionDecision : Type 0 where
  pub decision : Text
  pub grant_id : Text

-- What happens around a call, by the number of rounds that are left to it. The tool, the gate and
-- everything that runs meanwhile may change the tables.
pub record Environment : Type 0 where
  pub surroundings : ℕ → World → Surroundings
  pub create_pending : PermissionPending → World → World × Option Text
  pub wait : Text → World → World × Option PermissionDecision
  pub body : Request → World → World × BodyResult

abbrev pub retry_with : Text → Request → Request
retry_with grant_id r = record r {
  capability_grant_id = grant_id;
  capability_grant_ids = grant_id ∷ r.capability_grant_ids;
}

unfoldable pub after_decision :
    (Request → World → World × Result)
    → Request
    → World × Option PermissionDecision
    → World × Result
after_decision again r (w, none) = (w, refused tool_denied)
after_decision again r (w, some d) =
    if text_eq d.decision (codes "deny") || is_blank d.grant_id
    then (w, refused tool_denied)
    else again (retry_with d.grant_id r) w

module _ (env : Environment) (b : Broker) where
  unfoldable pub after_pending :
      (Request → World → World × Result) → Request → World × Option Text → World × Result
  after_pending again r (w, none) = (w, refused tool_denied)
  after_pending again r (w, some id) = after_decision again r (env.wait id w)

  unfoldable pub execute_after_permission :
      (Request → World → World × Result) → Request → Authorization → World → World × Result
  execute_after_permission again r scope w =
      if not b.has_permission
      then (w, refused tool_denied)
      else after_pending again r (env.create_pending (record { request = r; scope = scope }) w)

  unfoldable pub finish_body : Request → Time → World × BodyResult → World × Result
  finish_body r started_at (w, x) = finish_call b.artifact_threshold r started_at x w

  unfoldable pub after_start :
      (Request → World → World × Result) → Request → Time → World × Start → World × Result
  after_start again r started_at (w, stopped e) = (w, refused e)
  after_start again r started_at (w, awaiting scope) = execute_after_permission again r scope w
  after_start again r started_at (w, begun r') = finish_body r' started_at (env.body r' w)

  unfoldable pub execute : ℕ → Bool → Request → World → World × Result
  execute zero wait_disabled r w = (w, out_of_rounds)
  execute (suc n) wait_disabled r w =
      let s = env.surroundings n w in
      after_start (execute n true) r s.started_at (start s b wait_disabled r w)
