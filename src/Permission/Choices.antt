-- ===== src/Permission/Choices.antt =====
-- internal/toolpermission/service.go: the decisions, the results of a decision, and its last steps.
-- The steps of the service commit one by one, so an error leaves what was done before it; decisions
-- run one after another. The audit entry, the event and the log line, whose failures are passed over,
-- are left out.
use auto_ze_agent.Common.{
  Bool, List, Option, Text, [], codes, false, if◌then◌else◌, is_blank, none, some, text_eq,
  trim_space, true, ◌*◌, ◌∷◌, ℕ,
}
use auto_ze_agent.Approval.Records.{IssueError, Tables}
use auto_ze_agent.Permission.Trust.{TrustEntry}
use auto_ze_agent.Permission.Requests.{
  Outcome, Request, StoreError, Stored, get, mark_decided, not_stored, state_denied, stored,
}
use auto_ze_agent.Permission.Waiter.{Waiter, notify}

pub data Choice : Type 0 where
  allow_once allow_similar allow_permanent deny : Choice

pub data DecideError : Type 0 where
  invalid_decide not_found not_pending no_plan undecodable no_scope no_step not_saved : DecideError
  refused_issue : IssueError → DecideError
  refused_mark : StoreError → DecideError

pub data Answer : Type 0 where
  decided : Request → Answer
  refused : DecideError → Answer

pub record Permits : Type 0 where
  pub requests : List Request
  pub tables : Tables
  pub trusted : List TrustEntry
  pub waiter : Waiter

pub record DecideOptions : Type 0 where
  pub confirm : Bool
  pub trust_path : Text

unfoldable pub choice_of : Text → Option Choice
choice_of decision =
    if text_eq decision (codes "allow_once")
    then some allow_once
    else if text_eq decision (codes "allow_similar")
    then some allow_similar
    else if text_eq decision (codes "allow_permanent")
    then some allow_permanent
    else if text_eq decision (codes "deny")
    then some deny
    else none

abbrev pub choice_text : Choice → Text
choice_text allow_once = codes "allow_once"
choice_text allow_similar = codes "allow_similar"
choice_text allow_permanent = codes "allow_permanent"
choice_text deny = codes "deny"

abbrev pub allowed_state : Choice → Text
allowed_state allow_once = codes "allowed_once"
allowed_state allow_similar = codes "allowed_similar"
allowed_state allow_permanent = codes "allowed_permanent"
allowed_state deny = state_denied

abbrev pub is_once : Choice → Bool
is_once allow_once = true
is_once _ = false

abbrev pub hour : ℕ
hour = 3600000000000

abbrev pub lifetime : Choice → ℕ
lifetime allow_similar = 24 * hour
lifetime allow_permanent = 365 * (24 * hour)
lifetime _ = hour

abbrev pub first_path : List Text → Text
first_path [] = []
first_path (p ∷ ps) = let rest = first_path ps in if is_blank p then rest else trim_space p

abbrev pub answer_of : Option Request → Answer
answer_of none = refused not_found
answer_of (some r) = decided r

unfoldable pub finish_marked : Text → Outcome → Permits → Stored → Permits × Answer
finish_marked id o s (not_stored e) = (s, refused (refused_mark e))
finish_marked id o s (stored rows) = (
  record s {
    requests = rows;
    waiter =
        notify
          (record {
            permission_id = id;
            decision = o.decision;
            grant_id = o.grant_id;
            state = o.state;
          })
          s.waiter;
  },
  answer_of (get id rows),
)

-- From `MarkDecided` on, with the request as it reads afterwards.
unfoldable pub finish : Text → Outcome → Permits → Permits × Answer
finish id o s = finish_marked id o s (mark_decided id o s.requests)
