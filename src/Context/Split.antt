-- ===== src/Context/Split.antt =====
-- internal/contextpack/estimate.go: the split of a view into a head to summarise and a tail to keep.
use auto_ze_agent.Common.{
  Bool, List, [], drop, false, if◌then◌else◌, is_nil, leb, length, ltb, ltb_ℤ, not, pos, pos_part,
  suc, take, zero, ℕ, ℤ, ◌&&◌, ◌++◌, ◌-◌, ◌||◌, ◌∷◌,
}
use auto_ze_agent.Context.Message.{Message, is_system, is_user, is_tool, is_assistant}

-- `sysEnd`: how many messages the leading system run has.
unfoldable pub sys_end : List Message → ℕ
sys_end [] = 0
sys_end (m ∷ ms) = let rest = sys_end ms in if is_system m.role then suc rest else 0

-- The indices from `i` on of the user messages.
unfoldable pub user_indices : ℕ → List Message → List ℕ
user_indices i [] = []
user_indices i (m ∷ ms) =
    let rest = user_indices (suc i) ms in if is_user m.role then i ∷ rest else rest

abbrev pub is_tool_at : List Message → ℕ → Bool
is_tool_at [] i = false
is_tool_at (m ∷ ms) zero = is_tool m.role
is_tool_at (m ∷ ms) (suc i) = is_tool_at ms i

-- An assistant's message that calls tools.
abbrev pub is_caller_at : List Message → ℕ → Bool
is_caller_at [] i = false
is_caller_at (m ∷ ms) zero = is_assistant m.role && not (is_nil m.tool_calls)
is_caller_at (m ∷ ms) (suc i) = is_caller_at ms i

-- `for cut > sysEnd && messages[cut-1].Role == RoleTool { cut-- }`.
unfoldable pub before_tools : List Message → ℕ → ℕ → ℕ
before_tools ms first zero = zero
before_tools ms first (suc i) =
    let further = before_tools ms first i in
    if ltb first (suc i) && is_tool_at ms i then further else suc i

-- `cut > sysEnd` and the message before `cut` calls tools.
unfoldable pub caller_before : List Message → ℕ → ℕ → Bool
caller_before ms first zero = false
caller_before ms first (suc i) = ltb first (suc i) && is_caller_at ms i

unfoldable pub align_tool_pair_cut : List Message → ℕ → ℕ → ℕ
align_tool_pair_cut ms cut first =
    let i = before_tools ms first cut in
    if leb cut first || leb (length ms) cut
    then cut
    else if is_tool_at ms cut
    then (if caller_before ms first i then i - 1 else i)
    else if ltb i cut && caller_before ms first i
    then i - 1
    else cut

-- `userIdx[len(userIdx)-keep]`, for `keep` at most the length.
unfoldable pub nth_last : ℕ → List ℕ → ℕ
nth_last keep [] = 0
nth_last keep (i ∷ is) =
    let rest = nth_last keep is in if leb (length (i ∷ is)) keep then i else rest

abbrev pub kept_turns : ℤ → ℕ
kept_turns keep = if ltb_ℤ keep (pos 1) then 2 else pos_part keep

unfoldable pub split_at : List Message → ℕ → ℕ → List Message × List Message
split_at ms first cut =
    if leb cut first then ([], ms) else (drop first (take cut ms), take first ms ++ drop cut ms)

-- The head without the leading system messages, and the tail with them. A nil head is the empty one.
unfoldable pub split_head_tail : List Message → ℤ → List Message × List Message
unfolding split_at
split_head_tail ms keep_user_turns =
    let first = sys_end ms in
    let keep = kept_turns keep_user_turns in
    let user_idx = user_indices first (drop first ms) in
    if leb (length user_idx) keep
    then ([], ms)
    else split_at ms first (align_tool_pair_cut ms (nth_last keep user_idx) first)
