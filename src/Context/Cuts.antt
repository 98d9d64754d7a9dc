-- ===== src/Context/Cuts.antt =====
-- Where `SplitHeadTail` may cut (internal/contextpack/estimate.go).
use auto_ze_agent.Common.{
  Bool, Bool-cases, List, [], ap, arith, drop, false, inl, inr, leb, length, ltb, refl, suc, sym,
  take, take-append-drop, true, zero, ℕ, ℤ, ◌&&◌, ◌++◌, ◌-◌, ◌<◌, ◌||◌, ◌∷◌, ◌≡◌, ◌≤◌,
}
use auto_ze_agent.Context.Message.{Message}
use auto_ze_agent.Context.Split.{
  sys_end, user_indices, is_tool_at, is_caller_at, before_tools, caller_before, align_tool_pair_cut,
  nth_last, kept_turns, split_head_tail,
}

-- No message that calls tools stands right before a tool result at the cut, behind `first`.
abbrev pub NoPairCut : List Message → ℕ → ℕ → Type 0
NoPairCut ms first cut = (is_tool_at ms cut && caller_before ms first cut) ≡ false

before_tools_bounds :
    (ms : List Message) (first cut : ℕ)
    → first ≤ cut
    → (first ≤ before_tools ms first cut) × (before_tools ms first cut ≤ cut)
unfolding before_tools
before_tools_bounds ms first zero h = (omega arith, omega arith)
before_tools_bounds ms first (suc i) h = elim (Bool-cases (ltb first (suc i) && is_tool_at ms i)) [
  | inl e ↦ rw e (weaken (before_tools_bounds ms first i (ground (arith, e))))
  | inr e ↦ rw e (h, omega arith)
]
  where
    weaken :
        (first ≤ before_tools ms first i) × (before_tools ms first i ≤ i)
        → (first ≤ before_tools ms first i) × (before_tools ms first i ≤ suc i)
    weaken p = (p.0, omega arith)

caller_not_tool : (ms : List Message) (i : ℕ) → is_caller_at ms i ≡ true → is_tool_at ms i ≡ false
caller_not_tool [] i h = absurd (cc)
caller_not_tool (m ∷ ms) zero h = ground arith
caller_not_tool (m ∷ ms) (suc i) h = caller_not_tool ms i h

caller_pred :
    (ms : List Message) (first i : ℕ)
    → caller_before ms first i ≡ true
    → (first ≤ i - 1) × (is_tool_at ms (i - 1) ≡ false)
unfolding caller_before
caller_pred ms first zero h = absurd (cc)
caller_pred ms first (suc i) h =
    let e : suc i - 1 ≡ i = omega arith in rw e (ground arith, caller_not_tool ms i (ground arith))

abbrev pub IsCut : List Message → ℕ → ℕ → ℕ → Type 0
IsCut ms first cut c = (first ≤ c) × (c ≤ cut) × NoPairCut ms first c

at_caller :
    (ms : List Message) (first cut i : ℕ)
    → i ≤ cut
    → caller_before ms first i ≡ true
    → IsCut ms first cut (i - 1)
at_caller ms first cut i h e = let (l, t) = caller_pred ms first i e in (l, omega arith, rw t refl)

and-false : (a : Bool) {b : Bool} → b ≡ false → (a && b) ≡ false
and-false true e = e
and-false false e = refl

-- The aligned cut lies between the system prefix and the cut that was asked for, and separates no
-- tool result from the calling message right before it.
pub align_tool_pair_cut_lem :
    (ms : List Message) (cut first : ℕ)
    → first < cut
    → cut < length ms
    → IsCut ms first cut (align_tool_pair_cut ms cut first)
unfolding align_tool_pair_cut
align_tool_pair_cut_lem ms cut first h k =
    let i = before_tools ms first cut in
    let b = before_tools_bounds ms first cut (omega arith) in
    let inside : (leb cut first || leb (length ms) cut) ≡ false = ground arith in
    rw inside (elim (Bool-cases (is_tool_at ms cut)) [
      | inl e ↦ rw e (elim (Bool-cases (caller_before ms first i)) [
        | inl c ↦ rw c (at_caller ms first cut i b.1 c)
        | inr c ↦ rw c (b.0, b.1, and-false (is_tool_at ms i) c)
      ])
      | inr e ↦ rw e (elim (Bool-cases (ltb i cut && caller_before ms first i)) [
        | inl c ↦ rw c (at_caller ms first cut i b.1 (ground (arith, c)))
        | inr c ↦ rw c (omega arith, omega arith, rw e refl)
      ])
    ])

take-middle-drop {ℓ} :
    {A : Type ℓ} (first cut : ℕ) (xs : List A)
    → first ≤ cut
    → xs ≡ take first xs ++ (drop first (take cut xs) ++ drop cut xs)
take-middle-drop zero cut xs h = sym (take-append-drop cut xs)
take-middle-drop (suc first) zero xs h = absurd (omega arith)
take-middle-drop (suc first) (suc cut) [] h = refl
take-middle-drop (suc first) (suc cut) (x ∷ xs) h =
    ap (◌∷◌ x) (take-middle-drop first cut xs (omega arith))

-- Head and tail are a split of the messages behind the system prefix, which goes to the tail: no
-- message is lost, doubled or moved past another.
pub split_head_tail_lem :
    (ms : List Message) (keep : ℤ)
    → (rest : List Message) × (ms ≡ take (sys_end ms) ms ++ ((split_head_tail ms keep).0 ++ rest))
      × ((split_head_tail ms keep).1 ≡ take (sys_end ms) ms ++ rest)
unfolding split_head_tail
split_head_tail_lem ms keep =
    let idx = user_indices (sys_end ms) (drop (sys_end ms) ms) in
    let cut = align_tool_pair_cut ms (nth_last (kept_turns keep) idx) (sys_end ms) in
    elim (Bool-cases (leb (length idx) (kept_turns keep))) [
      | inl e ↦ (drop (sys_end ms) ms, rw e whole, rw e whole)
      | inr e ↦ elim (Bool-cases (leb cut (sys_end ms))) [
        | inl f ↦ (drop (sys_end ms) ms, rw (e, f) whole, rw (e, f) whole)
        | inr f ↦ (
          drop cut ms,
          rw (e, f) (take-middle-drop (sys_end ms) cut ms (ground arith)),
          rw (e, f) refl,
        )
      ]
    ]
  where
    whole : ms ≡ take (sys_end ms) ms ++ drop (sys_end ms) ms
    whole = sym (take-append-drop (sys_end ms) ms)
