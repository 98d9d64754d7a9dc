-- ===== src/Permission/Requests.antt =====
-- internal/toolpermission/store.go: the table of requests. The states and the decisions are the
-- texts that the source names; a `NULL` reads as an empty text. A failure of the database is left
-- out, and so are the queries that list requests.
use auto_ze_agent.Common.{
  Bool, List, Option, Text, [], any, codes, find_row, if◌then◌else◌, is_blank, is_some, not,
  text_eq, trim_space, update_rows, ◌&&◌, ◌++◌, ◌==◌, ◌||◌, ◌∷◌,
}

pub record Request : Type 0 where
  pub id : Text
  pub session_id : Text
  pub task_id : Text
  pub run_id : Text
  pub plan_id : Text
  pub plan_hash : Text
  pub step_id : Text
  pub tool_call_id : Text
  pub tool_name : Text
  pub arguments : Text
  pub capability : Text
  pub path : Text
  pub command : Text
  pub command_args : List Text
  pub network_domain : Text
  pub risk : Text
  pub state : Text
  pub grant_id : Text
  pub decision : Text
  pub decided_by : Text
  pub created_at : Text
  pub decided_at : Text
  pub expires_at : Text

unfoldable pub state_pending : Text
state_pending = codes "pending"

abbrev pub state_denied : Text
state_denied = codes "denied"

abbrev pub states : List Text
states =
    codes "pending"
    ∷ codes "allowed_once"
    ∷ codes "allowed_similar"
    ∷ codes "allowed_permanent"
    ∷ codes "denied"
    ∷ codes "expired"
    ∷ codes "cancelled"
    ∷ []

pub data StoreError : Type 0 where
  missing_ids missing_id not_found not_pending check_failed exists_already : StoreError

pub data Stored : Type 0 where
  stored : List Request → Stored
  not_stored : StoreError → Stored

abbrev pub or_else : Text → Text → Text
or_else s default = if is_blank s then default else s

-- What the new row reads back as; `now` is the current time as a text.
unfoldable pub inserted : Text → Request → Request
inserted now r = record r {
  arguments = or_else (trim_space r.arguments) (codes "{}");
  state = if text_eq r.state [] then state_pending else r.state;
  grant_id = [];
  decision = [];
  decided_by = [];
  created_at = or_else (trim_space r.created_at) now;
  decided_at = [];
  expires_at = or_else r.expires_at [];
}

-- `Insert`.
unfoldable pub insert : Text → Request → List Request → Stored
insert now r rows =
    if is_blank r.id || (is_blank r.tool_call_id || is_blank r.tool_name)
    then not_stored missing_ids
    else if not (any (text_eq (inserted now r).state) states)
    then not_stored check_failed
    else if is_some (find_row Request.id r.id rows)
    then not_stored exists_already
    else stored (rows ++ inserted now r ∷ [])

-- `Get`.
unfoldable pub get : Text → List Request → Option Request
get id rows = find_row Request.id (trim_space id) rows

unfoldable pub is_open : Text → Request → Bool
is_open id r = text_eq r.id id && text_eq r.state state_pending

pub record Outcome : Type 0 where
  pub decision : Text
  pub state : Text
  pub grant_id : Text
  pub decided_by : Text
  pub decided_at : Text

unfoldable pub decide_row : Outcome → Request → Request
decide_row o r = record r {
  state = o.state;
  decision = o.decision;
  grant_id = or_else o.grant_id [];
  decided_by = o.decided_by;
  decided_at = o.decided_at;
}

-- `MarkDecided`.
unfoldable pub mark_decided : Text → Outcome → List Request → Stored
mark_decided id o rows =
    if is_blank id
    then not_stored missing_id
    else let r = update_rows (is_open id) (decide_row o) rows in
      if not (r.1 == 1)
      then not_stored not_pending
      else if not (any (text_eq o.state) states)
      then not_stored check_failed
      else stored r.0
