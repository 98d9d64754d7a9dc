-- ===== src/Context/Examples.antt =====
-- The theorems on internal/contextpack at concrete views, and tests of the definitions.
use auto_ze_agent.Common.{
  List, Text, [], codes, erase_all, has_prefix, insert_key, is_nil, map, member, pos, refl, some,
  text_eq, trim_space, true, ◌++◌, ◌∷◌, ◌≡◌,
}
use auto_ze_agent.Context.Message.{Role, system, user, assistant, tool, Message}
use auto_ze_agent.Context.Estimate.{estimate_text}
use auto_ze_agent.Context.Repair.{
  repair_tool_messages, repair_from, repair_role, flush_missing, lookup, delete, put, add_call,
  add_calls, synthetic,
}
use auto_ze_agent.Context.Pairing.{well_paired, repair_tool_messages-well_paired}
use auto_ze_agent.Context.Outstanding.{open_id, open_ids}
use auto_ze_agent.Context.Pack.{
  PackOptions, pack, drop_oldest_turn, after_system, system_run, drop_turn, from_user, count_users,
}
use auto_ze_agent.Context.Users.{users}
use auto_ze_agent.Context.Turns.{pack-users}
use auto_ze_agent.Context.Split.{
  sys_end, user_indices, before_tools, caller_before, align_tool_pair_cut, nth_last,
  split_head_tail,
}
use auto_ze_agent.Context.Budget.{history_budget}
use auto_ze_agent.Context.View.{
  BuildInput, is_todo_system, last_user_index, split_before, split_coding_ephemeral,
}

abbrev say : Role → Text → Message
say r text = record { role = r; content = text; thinking = []; tool_call_id = []; tool_calls = [] }

abbrev call : Message
call = record (say assistant []) {
  tool_calls = record { id = codes "a"; name = codes "ls"; arguments = codes "{}" } ∷ [];
}

abbrev answer : Message
answer = record (say tool (codes "file list")) { tool_call_id = codes "a" }

abbrev view : List Message
view =
    say system (codes "be brief")
    ∷ say user (codes "hello")
    ∷ call
    ∷ answer
    ∷ say user (codes "again")
    ∷ []

abbrev opt : PackOptions
opt = record {
  budget = pos 20;
  max_tool_result_runes = pos 0;
  tool_protect_tokens = pos 0;
  tool_reclaim_min = pos 0;
}

estimates : estimate_text (codes "hello 世界") ≡ 4
unfolding estimate_text
estimates = refl

repair_tool_messages-well_paired_example :
    well_paired [] (repair_tool_messages (λ s. s) (answer ∷ call ∷ say user (codes "hi") ∷ []))
    ≡ true
repair_tool_messages-well_paired_example =
    repair_tool_messages-well_paired (λ s. s) (answer ∷ call ∷ say user (codes "hi") ∷ [])

-- The early result is dropped, and the call gets a synthetic one.
repairs :
    map Message.role (repair_tool_messages (λ s. s) (answer ∷ call ∷ say user [] ∷ []))
    ≡ assistant ∷ tool ∷ user ∷ []
unfolding repair_tool_messages repair_from repair_role flush_missing lookup delete put add_call
    add_calls synthetic trim_space text_eq
repairs = refl

pack-users_example :
    (gone : List Message) × (users view ≡ gone ++ users (pack (λ s. s) view opt).messages)
    × (is_nil (users view) ≡ is_nil (users (pack (λ s. s) view opt).messages))
pack-users_example = pack-users (λ s. s) view opt

drops_first_turn :
    drop_oldest_turn view ≡ some (say system (codes "be brief") ∷ say user (codes "again") ∷ [])
unfolding drop_oldest_turn system_run after_system drop_turn from_user count_users
drops_first_turn = refl

view-well_paired : well_paired [] view ≡ true
unfolding well_paired member erase_all text_eq trim_space insert_key open_id open_ids
view-well_paired = refl

-- The cut moves in front of the call.
aligns : align_tool_pair_cut view 3 1 ≡ 2
unfolding align_tool_pair_cut before_tools caller_before
aligns = refl

splits : map Message.role (split_head_tail view (pos 1)).0 ≡ user ∷ []
unfolding split_head_tail sys_end user_indices nth_last align_tool_pair_cut before_tools
    caller_before
splits = refl

budgets : history_budget (pos 100000) ≡ pos 60000
unfolding history_budget
budgets = refl

abbrev build_input : BuildInput
build_input = record {
  prefix = say system (codes "be brief") ∷ [];
  history = say user (codes "hello") ∷ call ∷ answer ∷ [];
  ephemeral = say user (codes "again") ∷ [];
  summary = codes "earlier work";
}

abbrev todo : Message
todo = say system (codes "Session todos: one")

splits_todos : map Message.role (split_coding_ephemeral (todo ∷ view)).1 ≡ system ∷ user ∷ []
unfolding split_coding_ephemeral split_before last_user_index is_todo_system has_prefix
splits_todos = refl
