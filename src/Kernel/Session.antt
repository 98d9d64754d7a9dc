-- ===== src/Kernel/Session.antt =====
-- internal/kernel/model.go: sessions, and the permission stance of one.
use auto_ze_agent.Common.{
  Option, Text, [], codes, if◌then◌else◌, is_blank, is_nil, none, some, text_eq, to_lower,
  trim_space, u64, ℕ, ◌+◌, ◌||◌,
}
use auto_ze_agent.Kernel.Base.{
  Time, Error, invalid_aggregate, invalid_transition, Result, ok, err, normalized_time,
}

-- `other` stands for a stored string that is none of the named states.
pub data SessionState : Type 0 where
  active closed : SessionState
  other : Text → SessionState

unfoldable pub session_state_text : SessionState → Text
session_state_text active = codes "active"
session_state_text closed = codes "closed"
session_state_text (other s) = s

pub record Session : Type 0 where
  pub id : Text
  pub state : SessionState
  pub version : ℕ  -- uint64
  pub created_at : Time
  pub updated_at : Time
  pub workspace : Text
  pub preferred_model : Text
  pub permission_stance : Text

-- The `switch` of `NormalizePermissionStance`.
unfoldable pub choose_stance : Text → Result Text
unfolding text_eq
choose_stance v =
    if is_nil v || text_eq v (codes "agent")
    then ok (codes "agent")
    else if text_eq v (codes "auto")
    then ok (codes "auto")
    else if text_eq v (codes "plan")
    then ok (codes "plan")
    else err invalid_aggregate

unfoldable pub normalize_permission_stance : Text → Result Text
unfolding to_lower trim_space choose_stance
normalize_permission_stance value = choose_stance (to_lower (trim_space value))

unfoldable pub new_session : Time → Text → Time → Result Session
unfolding normalized_time
new_session clock id now =
    let t = normalized_time clock now in
    if is_blank id
    then err invalid_aggregate
    else ok (record {
      id = id;
      state = active;
      version = 1;
      created_at = t;
      updated_at = t;
      workspace = [];
      preferred_model = [];
      permission_stance = [];
    })

close_from : SessionState → Time → Time → Session → Session × Option Error
unfolding normalized_time
close_from active clock now s = (
  record s {
    state = closed;
    version = u64 (s.version + 1);
    updated_at = normalized_time clock now;
  },
  none,
)
close_from state clock now s = (
  s,
  some (
      invalid_transition (record {
        aggregate = codes "session";
        from = session_state_text state;
        to = codes "closed";
      })),
)

-- A method that mutates the receiver returns it with the error, if any.
unfoldable pub close : Time → Time → Session → Session × Option Error
unfolding close_from
close clock now s = close_from s.state clock now s
