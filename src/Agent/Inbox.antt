-- ===== src/Agent/Inbox.antt =====
-- internal/agent/inbox.go: the next-step queue of a runner. The methods run under one mutex, so each
-- is a function of the queue; the nil receiver, on which they do nothing, is left out.
use auto_ze_agent.Common.{
  Bool, List, Text, [], any, false, if◌then◌else◌, is_nil, keep_if, not, text_eq, trim_space, ◌&&◌,
  ◌++◌, ◌||◌, ◌∷◌,
}

pub record InboxItem : Type 0 where
  pub id : Text
  pub session : Text
  pub text : Text
  pub persisted : Bool

abbrev pub Inbox : Type 0
Inbox = List InboxItem

unfoldable pub trimmed : InboxItem → InboxItem
trimmed item = record item {
  id = trim_space item.id;
  session = trim_space item.session;
  text = trim_space item.text;
}

-- `existing.ID != "" && existing.ID == item.ID`.
unfoldable pub same_id : InboxItem → InboxItem → Bool
same_id item existing = not (is_nil existing.id) && text_eq existing.id item.id

-- Whether `Enqueue` appends an item that is trimmed.
unfoldable pub accepts : Inbox → InboxItem → Bool
accepts next item = not (is_nil item.text || is_nil item.session) && not (any (same_id item) next)

unfoldable pub enqueue : InboxItem → Inbox → Inbox
enqueue item next = if accepts next (trimmed item) then next ++ trimmed item ∷ [] else next

unfoldable pub steer : Text → Text → Text → Inbox → Inbox
steer session id text next =
    enqueue (record { id = id; session = session; text = text; persisted = false }) next

abbrev pub of_session : Text → InboxItem → Bool
of_session session item = text_eq item.session session

abbrev pub of_others : Text → InboxItem → Bool
of_others session item = not (text_eq item.session session)

-- What is claimed, and what is kept.
unfoldable pub claim_step : Text → Inbox → List InboxItem × Inbox
claim_step session next =
    let s = trim_space session in
    if is_nil s then ([], next) else (keep_if (of_session s) next, keep_if (of_others s) next)

unfoldable pub pending : Text → Inbox → Bool
pending session next = any (of_session (trim_space session)) next

unfoldable pub clear : Text → Inbox → Inbox
clear session next =
    let s = trim_space session in if is_nil s then [] else keep_if (of_others s) next
