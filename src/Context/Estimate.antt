-- ===== src/Context/Estimate.antt =====
-- internal/contextpack/estimate.go: token estimates. Counts are numbers without a bound: an `int64`
-- holds the count of what memory holds.
use auto_ze_agent.Common.{
  Bool, List, Text, [], any, if◌then◌else◌, is_nil, leb, ltb, ℕ, ◌&&◌, ◌+◌, ◌-◌, ◌/◌, ◌||◌, ◌∷◌,
}
use auto_ze_agent.Context.Message.{Message, ToolCall}

abbrev Ranges : Type 0
Ranges = List (ℕ × ℕ)

-- The tables Han, Hangul, Hiragana and Katakana of package `unicode` (Unicode 15.0).
han : Ranges
han =
    (0x2e80, 0x2e99)
    ∷ (0x2e9b, 0x2ef3)
    ∷ (0x2f00, 0x2fd5)
    ∷ (0x3005, 0x3005)
    ∷ (0x3007, 0x3007)
    ∷ (0x3021, 0x3029)
    ∷ (0x3038, 0x303b)
    ∷ (0x3400, 0x4dbf)
    ∷ (0x4e00, 0x9fff)
    ∷ (0xf900, 0xfa6d)
    ∷ (0xfa70, 0xfad9)
    ∷ (0x16fe2, 0x16fe3)
    ∷ (0x16ff0, 0x16ff1)
    ∷ (0x20000, 0x2a6df)
    ∷ (0x2a700, 0x2b739)
    ∷ (0x2b740, 0x2b81d)
    ∷ (0x2b820, 0x2cea1)
    ∷ (0x2ceb0, 0x2ebe0)
    ∷ (0x2f800, 0x2fa1d)
    ∷ (0x30000, 0x3134a)
    ∷ (0x31350, 0x323af)
    ∷ []

hangul : Ranges
hangul =
    (0x1100, 0x11ff)
    ∷ (0x302e, 0x302f)
    ∷ (0x3131, 0x318e)
    ∷ (0x3200, 0x321e)
    ∷ (0x3260, 0x327e)
    ∷ (0xa960, 0xa97c)
    ∷ (0xac00, 0xd7a3)
    ∷ (0xd7b0, 0xd7c6)
    ∷ (0xd7cb, 0xd7fb)
    ∷ (0xffa0, 0xffbe)
    ∷ (0xffc2, 0xffc7)
    ∷ (0xffca, 0xffcf)
    ∷ (0xffd2, 0xffd7)
    ∷ (0xffda, 0xffdc)
    ∷ []

kana : Ranges
kana =
    (0x3041, 0x3096)
    ∷ (0x309d, 0x309f)
    ∷ (0x1b001, 0x1b11f)
    ∷ (0x1b132, 0x1b132)
    ∷ (0x1b150, 0x1b152)
    ∷ (0x1f200, 0x1f200)
    ∷ (0x30a1, 0x30fa)
    ∷ (0x30fd, 0x30ff)
    ∷ (0x31f0, 0x31ff)
    ∷ (0x32d0, 0x32fe)
    ∷ (0x3300, 0x3357)
    ∷ (0xff66, 0xff6f)
    ∷ (0xff71, 0xff9d)
    ∷ (0x1aff0, 0x1aff3)
    ∷ (0x1aff5, 0x1affb)
    ∷ (0x1affd, 0x1affe)
    ∷ (0x1b000, 0x1b000)
    ∷ (0x1b120, 0x1b122)
    ∷ (0x1b155, 0x1b155)
    ∷ (0x1b164, 0x1b167)
    ∷ []

-- `unicode.Is`.
in_ranges : ℕ → Ranges → Bool
in_ranges c table = any (λ r. leb r.0 c && leb c r.1) table

unfoldable pub is_cjk_rune : ℕ → Bool
unfolding in_ranges han hangul kana
is_cjk_rune c =
    (in_ranges c han || (in_ranges c hangul || in_ranges c kana))
    || ((leb 0x3000 c && leb c 0x303f) || (leb 0xff00 c && leb c 0xffef))

-- The loop of `EstimateText`: how many runes are CJK, and how many are not.
unfoldable pub count_runes : Text → ℕ × ℕ
unfolding is_cjk_rune
count_runes [] = (0, 0)
count_runes (r ∷ rs) =
    let n = count_runes rs in if is_cjk_rune r then (n.0 + 1, n.1) else (n.0, n.1 + 1)

-- The end of `EstimateText`, from the two counts.
unfoldable pub estimate_counts : ℕ → ℕ → ℕ
estimate_counts cjk others =
    let est = cjk + (if ltb 0 others then (others + 4 - 1) / 4 else 0) in
    if ltb est 1 then 1 else est

unfoldable pub estimate_text : Text → ℕ
unfolding count_runes estimate_counts
estimate_text [] = 0
estimate_text (r ∷ rs) = estimate_counts (count_runes (r ∷ rs)).0 (count_runes (r ∷ rs)).1

unfoldable pub estimate_calls : List ToolCall → ℕ
unfolding estimate_text
estimate_calls [] = 0
estimate_calls (tc ∷ tcs) =
    estimate_text tc.id
    + estimate_text tc.name
    + estimate_text tc.arguments
    + 4
    + estimate_calls tcs

-- `EstimateText("")` is 0, so the test for an empty call ID is left to it.
unfoldable pub estimate_message : Message → ℕ
unfolding estimate_text estimate_calls
estimate_message msg =
    6
    + estimate_text msg.content
    + estimate_text msg.thinking
    + (if is_nil msg.tool_call_id then 0 else estimate_text msg.tool_call_id)
    + estimate_calls msg.tool_calls

unfoldable pub estimate_messages : List Message → ℕ
unfolding estimate_message
estimate_messages [] = 0
estimate_messages (msg ∷ msgs) = estimate_message msg + estimate_messages msgs
