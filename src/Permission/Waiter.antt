-- ===== src/Permission/Waiter.antt =====
-- internal/toolpermission/wait.go: the channels on which a tool call waits for its decision. Each has
-- room for one decision. `Wait` is two steps, the look for the channel and the receipt or the end of
-- the context; the steps take the lock in turn. A nil waiter is left out.
use auto_ze_agent.Common.{Option, Text, if◌then◌else◌, is_nil, none, some, text_eq}

pub record Notice : Type 0 where
  pub permission_id : Text
  pub decision : Text
  pub grant_id : Text
  pub state : Text

-- The channels by the ID, each with what it holds.
abbrev pub Waiter : Type 0
Waiter = Text → Option (Option Notice)

abbrev pub set_channel : Text → Option (Option Notice) → Waiter → Waiter
set_channel id channel w i = if text_eq i id then channel else w i

abbrev pub opened : Option (Option Notice) → Option Notice
opened none = none
opened (some held) = held

-- `Register`, and the look of `Wait` for its channel.
unfoldable pub open_channel : Text → Waiter → Waiter
open_channel id w = set_channel id (some (opened (w id))) w

unfoldable pub register : Text → Waiter → Waiter
unfolding open_channel
register id w = if is_nil id then w else open_channel id w

unfoldable pub send : Notice → Option (Option Notice) → Waiter → Waiter
send d none w = w
send d (some none) w = set_channel d.permission_id (some (some d)) w
send d (some (some _)) w = w

-- `Notify`.
unfoldable pub notify : Notice → Waiter → Waiter
unfolding send
notify d w = if is_nil d.permission_id then w else send d (w d.permission_id) w

unfoldable pub cleanup : Text → Waiter → Waiter
cleanup id w = set_channel id none w

unfoldable pub take_from : Text → Waiter → Option Notice → Option (Notice × Waiter)
take_from id w none = none
take_from id w (some d) = some (d, cleanup id w)

-- The receipt of `Wait`: `none` while the channel is empty.
unfoldable pub receive : Text → Waiter → Option (Notice × Waiter)
receive id w = take_from id w (opened (w id))
