-- ===== src/Broker/Requests.antt =====
-- internal/tools/broker.go and pkg/toolapi/types.go: definitions and requests, and the checks on
-- them that look at no table. JSON is text here, and a parameter says whether it is valid.
use auto_ze_agent.Common.{
  Bool, List, Option, Text, [], any, codes, has_prefix, if◌then◌else◌, insert_key, is_blank, is_nil,
  leb, leb_ℤ, ltb_ℤ, member, negsuc, none, not, pos, some, to_lower, trim_space, wrap_i64, ℕ, ℤ,
  ◌&&◌, ◌*◌, ◌+◌, ◌==◌, ◌||◌, ◌∷◌,
}
use auto_ze_agent.Policy.{RiskLevel}

pub record Definition : Type 0 where
  pub name : Text
  pub description : Text
  pub input_schema : Text
  pub risk : RiskLevel
  pub default_timeout_millis : ℤ

pub record Request : Type 0 where
  pub call_id : Text
  pub run_id : Text
  pub task_id : Text
  pub plan_id : Text
  pub plan_hash : Text
  pub step_id : Text
  pub capability_grant_id : Text
  pub capability_grant_ids : List Text
  pub actor : Text
  pub trace_id : Text
  pub interactive : Bool
  pub tool : Text
  pub arguments : Text
  pub timeout_millis : ℤ

pub record Authorization : Type 0 where
  pub capability : Text
  pub path : Text
  pub command : Text
  pub arguments : List Text
  pub network_domain : Text

-- The method `Execute` of a tool is an effect, which `Execute` below takes from outside.
pub record Tool : Type 0 where
  pub definition : Definition
  pub authorization : Text → Option Authorization

-- The kinds of error. `canceled` is one that wraps `context.Canceled`.
pub data ToolError : Type 0 where
  invalid_tool unknown_tool duplicate_tool tool_denied tool_timeout : ToolError
  audit_refused insert_refused call_not_found : ToolError
  invalid_output artifact_refused canceled other_failure : ToolError

-- The characters of `^[a-zA-Z0-9_-]+$`.
unfoldable pub is_name_char : ℕ → Bool
is_name_char c =
    (leb b'a' c && leb c b'z')
    || ((leb b'A' c && leb c b'Z') || ((leb b'0' c && leb c b'9') || ((c == b'_') || (c == b'-'))))

unfoldable pub valid_name : Text → Bool
valid_name name = not (is_nil name) && not (any (λ c. not (is_name_char c)) name)

unfoldable pub validate_request : (Text → Bool) → Request → Option ToolError
validate_request json_valid r =
    if is_blank r.call_id
      || (is_blank r.run_id
          || (is_blank r.task_id
              || (is_blank r.plan_id || (is_blank r.step_id || is_blank r.tool))))
    then some invalid_tool
    else if is_nil r.arguments || not (json_valid r.arguments)
    then some invalid_tool
    else none

-- `time.Duration(millis) * time.Millisecond`, which wraps around.
unfoldable pub milliseconds : ℤ → ℤ
milliseconds (pos n) = wrap_i64 (pos (n * 1000000))
milliseconds (negsuc n) = wrap_i64 (negsuc (n * 1000000 + 999999))

unfoldable pub resolve_timeout : ℤ → ℤ → ℤ → Option ℤ
resolve_timeout maximum requested default =
    let timeout = milliseconds (if leb_ℤ requested (pos 0) then default else requested) in
    if leb_ℤ timeout (pos 0) || ltb_ℤ maximum timeout then none else some timeout

unfoldable pub is_non_interactive_tool_caller : Request → Bool
is_non_interactive_tool_caller r =
    has_prefix (trim_space r.task_id) (codes "scheduled_")
    || member (to_lower (trim_space r.actor)) (
        codes "scheduler"
        ∷ codes "job"
        ∷ codes "cron"
        ∷ codes "scheduledtasks"
        ∷ codes "system-job"
        ∷ [])

-- The list `values` holds the keys of the map `seen`.
unfoldable pub add_candidates : List Text → List Text → List Text
add_candidates values [] = values
add_candidates values (v ∷ vs) =
    add_candidates (if is_blank v then values else insert_key (trim_space v) values) vs

unfoldable pub grant_candidates : Request → List Text
grant_candidates r = add_candidates [] (r.capability_grant_id ∷ r.capability_grant_ids)
