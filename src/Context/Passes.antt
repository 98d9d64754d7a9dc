-- ===== src/Context/Passes.antt =====
-- The passes L1 and L2 of `Pack` (internal/contextpack/pack.go).
use auto_ze_agent.Common.{
  All, Bool-cases, List, [], ap, arith, false, inl, inr, leb, ltb, not, refl, true, ℕ, ◌&&◌, ◌*◌,
  ◌++◌, ◌+◌, ◌<◌, ◌||◌, ◌∷◌, ◌≡◌, ◌≤◌,
}
use auto_ze_agent.Context.Message.{Message, is_tool, is_user}
use auto_ze_agent.Context.Estimate.{estimate_message, estimate_messages}
use auto_ze_agent.Context.Pack.{
  trim_body, trim_bodies, scan_tools, clear_one, clear_beyond, clear_old_tool_results,
}

-- Two messages that differ in their bodies at most, and not if they are a user's.
pub record SameFrame (m n : Message) : Type 0 where
  pub same_role : n.role ≡ m.role
  pub same_id : n.tool_call_id ≡ m.tool_call_id
  pub same_calls : n.tool_calls ≡ m.tool_calls
  pub same_thinking : n.thinking ≡ m.thinking
  pub same_user : is_user m.role ≡ true → n ≡ m

abbrev pub SameFrames : List Message → List Message → Type 0
SameFrames [] [] = Unit {0}
SameFrames [] (n ∷ ns) = ⊥
SameFrames (m ∷ ms) [] = ⊥
SameFrames (m ∷ ms) (n ∷ ns) = SameFrame m n × SameFrames ms ns

pub SameFrame-refl : (m : Message) → SameFrame m m
SameFrame-refl m = record {
  same_role = refl;
  same_id = refl;
  same_calls = refl;
  same_thinking = refl;
  same_user = λ h. refl;
}

pub SameFrames-refl : (ms : List Message) → SameFrames ms ms
SameFrames-refl [] = tt
SameFrames-refl (m ∷ ms) = (SameFrame-refl m, SameFrames-refl ms)

trim_body-SameFrame : (max_runes : ℕ) (m : Message) → SameFrame m (trim_body max_runes m)
unfolding trim_body
trim_body-SameFrame max_runes m = ground arith

-- L1 changes message bodies only, of no user message, and leaves every message in its place.
pub trim_bodies-SameFrames :
    (max_runes : ℕ) (ms : List Message) → SameFrames ms (trim_bodies max_runes ms).0
unfolding trim_bodies
trim_bodies-SameFrames max_runes [] = tt
trim_bodies-SameFrames max_runes (m ∷ ms) =
    (trim_body-SameFrame max_runes m, trim_bodies-SameFrames max_runes ms)

clear_one-SameFrame : (m : Message) → is_tool m.role ≡ true → SameFrame m (clear_one m).0
unfolding clear_one
clear_one-SameFrame m h = ground arith

clear_beyond-SameFrames :
    (protect : ℕ) (ms : List Message) → SameFrames ms (clear_beyond protect ms).0
unfolding clear_beyond
clear_beyond-SameFrames protect [] = tt
clear_beyond-SameFrames protect (m ∷ ms) =
    elim (Bool-cases (is_tool m.role && leb protect (scan_tools protect ms).kept)) [
      | inl e ↦ rw e (clear_one-SameFrame m (ground arith), clear_beyond-SameFrames protect ms)
      | inr e ↦ rw e (SameFrame-refl m, clear_beyond-SameFrames protect ms)
    ]

pub clear-SameFrames :
    (protect reclaim_min : ℕ) (ms : List Message)
    → SameFrames ms (clear_old_tool_results protect reclaim_min ms).0
unfolding clear_old_tool_results
clear-SameFrames protect reclaim_min ms =
    elim (Bool-cases
      (ltb (scan_tools protect ms).reclaim reclaim_min || not (scan_tools protect ms).found)) [
        | inl e ↦ rw e (SameFrames-refl ms)
        | inr e ↦ rw e (clear_beyond-SameFrames protect ms)
      ]

-- Each result that is cleared saves at least five estimated tokens.
clear_one-saves :
    (m : Message) → estimate_message (clear_one m).0 + 5 * (clear_one m).1 ≤ estimate_message m
unfolding clear_one estimate_message
clear_one-saves m = ground arith

clear_beyond-saves :
    (protect : ℕ) (ms : List Message)
    → estimate_messages (clear_beyond protect ms).0 + 5 * (clear_beyond protect ms).1
      ≤ estimate_messages ms
unfolding clear_beyond estimate_messages
clear_beyond-saves protect [] = omega arith
clear_beyond-saves protect (m ∷ ms) =
    elim (Bool-cases (is_tool m.role && leb protect (scan_tools protect ms).kept)) [
      | inl e ↦ rw e (omega (arith, clear_one-saves m, clear_beyond-saves protect ms))
      | inr e ↦ rw e (omega (arith, clear_beyond-saves protect ms))
    ]

-- L2 keeps every message in its place with its role, ID and calls, changes no user message, and
-- lowers the estimate by at least five tokens for each result that it clears.
pub clear_old_tool_results_lem :
    (protect reclaim_min : ℕ) (ms : List Message)
    → SameFrames ms (clear_old_tool_results protect reclaim_min ms).0
      × (estimate_messages (clear_old_tool_results protect reclaim_min ms).0
            + 5 * (clear_old_tool_results protect reclaim_min ms).1
          ≤ estimate_messages ms)
unfolding clear_old_tool_results
clear_old_tool_results_lem protect reclaim_min ms = (clear-SameFrames protect reclaim_min ms, saves)
  where
    saves :
        estimate_messages (clear_old_tool_results protect reclaim_min ms).0
          + 5 * (clear_old_tool_results protect reclaim_min ms).1
        ≤ estimate_messages ms
    saves =
        elim (Bool-cases
          (ltb (scan_tools protect ms).reclaim reclaim_min || not (scan_tools protect ms).found)) [
            | inl e ↦ rw e (omega arith)
            | inr e ↦ rw e (clear_beyond-saves protect ms)
          ]

-- The newest tool result: no later message is one.
abbrev NoTool : List Message → Type 0
NoTool ms = All (λ m. is_tool m.role ≡ false) ms

clear_beyond-NoTool :
    (protect : ℕ) (ms : List Message)
    → NoTool ms
    → ((clear_beyond protect ms).0 ≡ ms) × ((scan_tools protect ms).kept ≡ 0)
unfolding clear_beyond scan_tools
clear_beyond-NoTool protect [] h = (refl, refl)
clear_beyond-NoTool protect (m ∷ ms) h =
    let (e, k) = clear_beyond-NoTool protect ms h.1 in (rw (h.0) (ap (◌∷◌ m) e), rw (h.0) k)

clear_beyond-newest :
    (protect : ℕ) (before after : List Message) (m : Message)
    → 0 < protect
    → NoTool after
    → (ms : List Message) × ((clear_beyond protect (before ++ m ∷ after)).0 ≡ ms ++ m ∷ after)
unfolding clear_beyond
clear_beyond-newest protect [] after m p h =
    let (e, k) = clear_beyond-NoTool protect after h in
    ([], rw (k, clear_beyond) (ground (arith, e)))
clear_beyond-newest protect (b ∷ before) after m p h =
    let (ms, e) = clear_beyond-newest protect before after m p h in
    elim (Bool-cases
      (is_tool b.role && leb protect (scan_tools protect (before ++ m ∷ after)).kept)) [
        | inl c ↦ ((clear_one b).0 ∷ ms, rw c (ap (◌∷◌ (clear_one b).0) e))
        | inr c ↦ (b ∷ ms, rw c (ap (◌∷◌ b) e))
      ]

-- Under a positive protection the newest tool result, and all behind it, is never cleared.
pub clear_old_tool_results-newest :
    (protect reclaim_min : ℕ) (before after : List Message) (m : Message)
    → 0 < protect
    → All (λ n. is_tool n.role ≡ false) after
    → (ms : List Message) × ((clear_old_tool_results protect reclaim_min (before ++ m ∷ after)).0
        ≡ ms ++ m ∷ after)
unfolding clear_old_tool_results
clear_old_tool_results-newest protect reclaim_min before after m p h =
    let s = scan_tools protect (before ++ m ∷ after) in
    elim (Bool-cases (ltb s.reclaim reclaim_min || not s.found)) [
      | inl e ↦ (before, rw e refl)
      | inr e ↦ let (ms, q) = clear_beyond-newest protect before after m p h in (ms, rw e q)
    ]
