-- ===== src/Context/View.antt =====
-- internal/contextpack/view.go: the view of a provider and its segments. A nil slice is the empty
-- one, and a copy of a slice is the slice.
use auto_ze_agent.Common.{
  Bool, List, Option, Text, [], codes, drop, has_prefix, if◌then◌else◌, is_nil, keep_if, ltb, none,
  not, pos_part, some, suc, take, trim_space, ℕ, ℤ, ◌&&◌, ◌++◌, ◌||◌, ◌∷◌,
}
use auto_ze_agent.Context.Message.{system, Message, is_system, is_user}
use auto_ze_agent.Context.Pack.{
  PackOptions, PackResult, pack, positive_or, trim_bodies, clear_old_tool_results, system_run,
  after_system,
}

pub record ContextView : Type 0 where
  pub prefix : List Message
  pub summary : List Message
  pub tail : List Message
  pub ephemeral : List Message
  pub packed : PackResult
  pub compacted : Bool

-- `Messages`.
unfoldable pub view_messages : ContextView → List Message
view_messages v = v.prefix ++ (v.summary ++ (v.tail ++ v.ephemeral))

pub record BuildInput : Type 0 where
  pub prefix : List Message
  pub history : List Message
  pub ephemeral : List Message
  pub summary : Text

-- The message for a summary, if its text is not blank.
unfoldable pub summary_messages : Text → List Message
summary_messages summary =
    let text = trim_space summary in
    let marked =
      if has_prefix text (codes "[Prior")
      then text
      else codes "[Prior session context — compacted]\n" ++ text in
    if is_nil text
    then []
    else record {
      role = system;
      content = marked;
      thinking = [];
      tool_call_id = [];
      tool_calls = [];
    }
      ∷ []

-- `BuildOptions` has the fields of `PackOptions`.
unfoldable pub build : (Text → Text) → BuildInput → PackOptions → ContextView
build quote in_ opt =
    let summary = summary_messages in_.summary in
    let packed = pack quote in_.history opt in
    record {
      prefix = in_.prefix;
      summary = summary;
      tail = packed.messages;
      ephemeral = in_.ephemeral;
      packed = packed;
      compacted =
          not (is_nil summary) || (ltb 0 packed.dropped_messages || ltb 0 packed.cleared_tools);
    }

unfoldable pub split_leading_system : List Message → List Message × List Message
split_leading_system ms = (system_run ms, after_system ms)

unfoldable pub is_todo_system : Message → Bool
is_todo_system m = is_system m.role && has_prefix m.content (codes "Session todos:")

abbrev pub is_no_todo : Message → Bool
is_no_todo m = not (is_todo_system m)

-- `none` is the index -1.
unfoldable pub last_user_index : List Message → Option ℕ
last_user_index [] = none
last_user_index (m ∷ ms) = elim (last_user_index ms) [
  | none ↦ if is_user m.role then some 0 else none
  | some i ↦ some (suc i)
]

unfoldable pub split_before : Option ℕ → List Message → List Message × List Message
split_before none rest = (keep_if is_no_todo rest, keep_if is_todo_system rest)
split_before (some i) rest =
    (keep_if is_no_todo (take i rest), keep_if is_todo_system (take i rest) ++ drop i rest)

-- The history and the ephemeral messages.
unfoldable pub split_coding_ephemeral : List Message → List Message × List Message
split_coding_ephemeral rest = split_before (last_user_index rest) rest

-- `TrimToolBodies`, whose `start` may be negative.
unfoldable pub trim_tool_bodies : List Message → ℤ → ℤ → List Message × ℕ
trim_tool_bodies ms start max_runes =
    let s = pos_part start in
    let trimmed = trim_bodies (positive_or max_runes 32768) (drop s ms) in
    (take s ms ++ trimmed.0, trimmed.1)

-- `ClearOldToolResults`, the pass L2 alone.
unfoldable pub clear_tool_results : List Message → ℤ → ℤ → List Message × ℕ
clear_tool_results ms protect reclaim_min =
    clear_old_tool_results (positive_or protect 40000) (positive_or reclaim_min 20000) ms
