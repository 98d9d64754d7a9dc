-- ===== src/Context/Repair.antt =====
-- internal/contextpack/repair.go: `RepairToolMessages`.
use auto_ze_agent.Common.{
  List, Option, Text, [], codes, if◌then◌else◌, is_nil, none, remove_first, some, text_eq,
  trim_space, ◌++◌, ◌∷◌,
}
use auto_ze_agent.Context.Message.{Role, system, user, assistant, tool, other, ToolCall, Message}

-- The map `pending`. Go ranges over it nowhere, so the order of the entries does not show.
abbrev pub Pending : Type 0
Pending = List (Text × ToolCall)

unfoldable pub lookup : Text → Pending → Option ToolCall
unfolding text_eq
lookup id [] = none
lookup id ((k, tc) ∷ p) = if text_eq k id then some tc else lookup id p

unfoldable pub put : Text → ToolCall → Pending → Pending
unfolding text_eq
put id tc [] = (id, tc) ∷ []
put id tc ((k, old) ∷ p) = if text_eq k id then (k, tc) ∷ p else (k, old) ∷ put id tc p

unfoldable pub delete : Text → Pending → Pending
unfolding text_eq
delete id [] = []
delete id ((k, tc) ∷ p) = let rest = delete id p in if text_eq k id then rest else (k, tc) ∷ rest

pub record State : Type 0 where
  pub pending : Pending
  pub order : List Text

-- One round of the loop over the calls of an assistant message.
unfoldable pub add_call : ToolCall → State → State
add_call tc s =
    let id = trim_space tc.id in
    if is_nil id then s else record { pending = put id tc s.pending; order = s.order ++ id ∷ [] }

unfoldable pub add_calls : List ToolCall → State → State
add_calls [] s = s
add_calls (tc ∷ tcs) s = add_calls tcs (add_call tc s)

-- A result is kept if its call is pending.
unfoldable pub keep_result : Option ToolCall → Text → State → Message → State × List Message
keep_result none id s msg = (s, [])
keep_result (some tc) id s msg =
    (record { pending = delete id s.pending; order = remove_first id s.order }, msg ∷ [])

-- `quote` is the verb `%q` of package `fmt`, which shows in the text of the result only.
module _ (quote : Text → Text) where
  unfoldable pub synthetic : Text → ToolCall → Message
  synthetic id tc =
      let name = trim_space tc.name in
      record {
        role = tool;
        content =
            codes "{\"error\":\"orphan_tool_call\",\"tool\":"
            ++ (quote (if is_nil name then codes "unknown" else name)
                ++ codes
                    ",\"hint\":\"No tool result was recorded; synthetic error injected for provider protocol integrity.\"}");
        thinking = [];
        tool_call_id = id;
        tool_calls = [];
      }

  -- `flushMissing`: what it emits, and what is left pending.
  unfoldable pub flush_missing : List Text → Pending → List Message × Pending
  flush_missing [] p = ([], p)
  flush_missing (id ∷ ids) p = elim (lookup id p) [
    | none ↦ flush_missing ids p
    | some tc ↦ let rest = flush_missing ids (delete id p) in (synthetic id tc ∷ rest.0, rest.1)
  ]

  unfoldable pub flushed : State → List Message → State × List Message
  flushed s out =
      let f = flush_missing s.order s.pending in (record { pending = f.1; order = [] }, f.0 ++ out)

  -- One round of the loop, by the role of the message: the new state and what is emitted. An
  -- assistant message without calls adds none.
  unfoldable pub repair_role : Role → State → Message → State × List Message
  unfolding flushed keep_result
  repair_role assistant s msg =
      let (s', out) = flushed s (msg ∷ []) in (add_calls msg.tool_calls s', out)
  repair_role tool s msg =
      let id = trim_space msg.tool_call_id in
      if is_nil id then (s, []) else keep_result (lookup id s.pending) id s msg
  repair_role user s msg = flushed s (msg ∷ [])
  repair_role system s msg = flushed s (msg ∷ [])
  repair_role (other r) s msg = (s, msg ∷ [])

  unfoldable pub repair_from : State → List Message → List Message
  repair_from s [] = (flush_missing s.order s.pending).0
  repair_from s (msg ∷ msgs) =
      let (s', out) = repair_role msg.role s msg in out ++ repair_from s' msgs

  unfoldable pub repair_tool_messages : List Message → List Message
  repair_tool_messages messages = repair_from (record { pending = []; order = [] }) messages
