-- ===== src/Context/Pack.antt =====
-- internal/contextpack/pack.go: `Pack` and its three passes. `PackOptions.Model` and
-- `PressureTrigger`, which `Pack` never reads, are left out.
use auto_ze_agent.Common.{
  Bool, List, Option, Text, [], codes, false, if◌then◌else◌, is_nil, leb, length, ltb, ltb_ℤ,
  negsuc, none, not, pos, pos_part, some, suc, text_eq, trim_space, true, zero, ℕ, ℤ, ◌&&◌, ◌++◌,
  ◌+◌, ◌==◌, ◌||◌, ◌∷◌,
}
use auto_ze_agent.Context.Message.{Role, tool, assistant, Message, is_system, is_user, is_tool}
use auto_ze_agent.Context.Estimate.{estimate_text, estimate_messages}
use auto_ze_agent.Context.Trim.{trim_runes}
use auto_ze_agent.Context.Repair.{repair_tool_messages}

pub record PackOptions : Type 0 where
  pub budget : ℤ
  pub max_tool_result_runes : ℤ
  pub tool_protect_tokens : ℤ
  pub tool_reclaim_min : ℤ

pub record PackResult : Type 0 where
  pub messages : List Message
  pub estimate_tokens : ℕ
  pub budget : ℤ
  pub trimmed_bodies : ℕ
  pub cleared_tools : ℕ
  pub dropped_messages : ℕ
  pub over_budget : Bool

-- `if value <= 0 { value = fallback }`.
abbrev pub positive_or : ℤ → ℕ → ℕ
positive_or (pos n) fallback = if n == 0 then fallback else n
positive_or (negsuc n) fallback = fallback

-- L1 trims tool results, and assistant messages without calls.
unfoldable pub is_trimmable : Role → Message → Bool
is_trimmable tool m = true
is_trimmable assistant m = is_nil m.tool_calls
is_trimmable _ m = false

unfoldable pub trim_body : ℕ → Message → Message
unfolding is_trimmable
trim_body max_runes m =
    if is_trimmable m.role m then record m { content = trim_runes m.content max_runes } else m

-- L1 over a list: the new messages and how many bodies changed.
unfoldable pub trim_bodies : ℕ → List Message → List Message × ℕ
trim_bodies max_runes [] = ([], 0)
trim_bodies max_runes (m ∷ ms) =
    let rest = trim_bodies max_runes ms in
    let m' = trim_body max_runes m in
    (m' ∷ rest.0, (if text_eq m'.content m.content then 0 else 1) + rest.1)

-- What the first loop of `clearOldToolResults` has found once it is past a list: the newest message
-- is the last, so the loop goes through the tail before the head.
pub record Scan : Type 0 where
  pub kept : ℕ
  pub reclaim : ℕ
  pub found : Bool  -- `clearFrom >= 0`

unfoldable pub scan_tools : ℕ → List Message → Scan
scan_tools protect [] = record { kept = 0; reclaim = 0; found = false }
scan_tools protect (m ∷ ms) =
    let s = scan_tools protect ms in
    if is_tool m.role
    then (if ltb s.kept protect
        then record s { kept = s.kept + estimate_text m.content }
        else record s { reclaim = s.reclaim + estimate_text m.content; found = true })
    else s

unfoldable pub placeholder : Text → Text
placeholder tool_call_id =
    let id = trim_space tool_call_id in
    codes "[cleared tool result: id="
    ++ ((if is_nil id then codes "?" else id) ++ codes "; full output retained in local history]")

-- The body of the second loop: the message and whether it was cleared.
unfoldable pub clear_one : Message → Message × ℕ
clear_one m =
    let p = placeholder m.tool_call_id in
    if text_eq m.content p
    then (m, 0)
    else if leb (estimate_text m.content) (estimate_text p + 4)
    then (m, 0)
    else (record m { content = p }, 1)

-- The second loop clears the tool results from `clearFrom` on: those behind which the newer ones
-- have used up what is protected.
unfoldable pub clear_beyond : ℕ → List Message → List Message × ℕ
clear_beyond protect [] = ([], 0)
clear_beyond protect (m ∷ ms) =
    let rest = clear_beyond protect ms in
    let c = clear_one m in
    if is_tool m.role && leb protect (scan_tools protect ms).kept
    then (c.0 ∷ rest.0, c.1 + rest.1)
    else (m ∷ rest.0, rest.1)

unfoldable pub clear_old_tool_results : ℕ → ℕ → List Message → List Message × ℕ
clear_old_tool_results protect reclaim_min ms =
    let s = scan_tools protect ms in
    if ltb s.reclaim reclaim_min || not s.found then (ms, 0) else clear_beyond protect ms

unfoldable pub system_run : List Message → List Message
system_run [] = []
system_run (m ∷ ms) = let rest = system_run ms in if is_system m.role then m ∷ rest else []

unfoldable pub after_system : List Message → List Message
after_system [] = []
after_system (m ∷ ms) = let rest = after_system ms in if is_system m.role then rest else m ∷ ms

-- From the next user message on.
unfoldable pub from_user : List Message → List Message
from_user [] = []
from_user (m ∷ ms) = let rest = from_user ms in if is_user m.role then m ∷ ms else rest

unfoldable pub count_users : List Message → ℕ
count_users [] = 0
count_users (m ∷ ms) = (if is_user m.role then 1 else 0) + count_users ms

-- What is left of the messages behind the system prefix, or `none` where nothing is dropped.
unfoldable pub drop_turn : List Message → Option (List Message)
drop_turn [] = none
drop_turn (m ∷ ms) =
    if is_user m.role
    then (if ltb (count_users (from_user ms)) 1 then none else some (from_user ms))
    else if is_nil ms
    then none
    else some ms

put_behind : List Message → Option (List Message) → Option (List Message)
put_behind prefix none = none
put_behind prefix (some ms) = some (prefix ++ ms)

unfoldable pub drop_oldest_turn : List Message → Option (List Message)
unfolding put_behind
drop_oldest_turn ms = put_behind (system_run ms) (drop_turn (after_system ms))

-- L3: drops turns while the estimate is over budget; the list left and the number of rounds.
unfoldable pub drop_loop : ℕ → ℕ → List Message → List Message × ℕ
drop_loop zero budget ms = (ms, 0)
drop_loop (suc fuel) budget ms =
    let dropped : List Message × ℕ = elim (drop_oldest_turn ms) [
      | none ↦ (ms, 0)
      | some rest ↦ let r = drop_loop fuel budget rest in (r.0, r.1 + 1)
    ] in
    if leb (estimate_messages ms) budget then (ms, 0) else dropped

-- L2 and L3 run only under a positive budget. Each round of L3 shortens the list, so its length
-- plus one is fuel enough.
unfoldable pub pack : (Text → Text) → List Message → PackOptions → PackResult
pack quote messages opt =
    let trimmed =
      trim_bodies (positive_or opt.max_tool_result_runes 32768)
        (repair_tool_messages quote messages) in
    let cleared =
      clear_old_tool_results (positive_or opt.tool_protect_tokens 40000)
        (positive_or opt.tool_reclaim_min 20000) trimmed.0 in
    let kept = drop_loop (length cleared.0 + 1) (pos_part opt.budget) cleared.0 in
    let limited = ltb_ℤ (pos 0) opt.budget in
    let out = if limited then kept.0 else trimmed.0 in
    record {
      messages = out;
      estimate_tokens = estimate_messages out;
      budget = opt.budget;
      trimmed_bodies = trimmed.1;
      cleared_tools = if limited then cleared.1 else 0;
      dropped_messages = if limited then kept.1 else 0;
      over_budget = limited && ltb_ℤ opt.budget (pos (estimate_messages out));
    }
