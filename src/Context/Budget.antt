-- ===== src/Context/Budget.antt =====
-- internal/contextpack/estimate.go and view.go: the token budgets, as `int64` arithmetic.
use auto_ze_agent.Common.{
  Bool-cases, arith, if◌then◌else◌, inl, inr, leb, leb_ℤ, ltb, ltb_ℤ, negsuc, pos, pos_part, refl,
  sub_i64, sub_ℕ, suc, wrap_i64, zero, ℕ, ℤ, ◌*◌, ◌+◌, ◌/◌, ◌<◌, ◌==◌, ◌||◌, ◌≡◌, ◌≤ℤ◌, ◌⊎◌,
}

unfoldable pub default_reserve : ℤ → ℤ
default_reserve max_output =
    let r = if ltb_ℤ max_output (pos 1024) then pos 1024 else max_output in
    if ltb_ℤ (pos 8192) r then pos 8192 else r

-- `if value < 0 { value = 0 }`.
abbrev pub non_negative : ℤ → ℤ
non_negative (pos n) = pos n
non_negative (negsuc n) = pos 0

abbrev pub effective_reserve : ℤ → ℤ → ℤ
effective_reserve max_output (pos zero) = default_reserve max_output
effective_reserve max_output (pos (suc n)) = pos (suc n)
effective_reserve max_output (negsuc n) = default_reserve max_output

unfoldable pub usable_window : ℤ → ℤ → ℤ → ℤ
usable_window context_window max_output reserve =
    let m = non_negative max_output in
    let usable = sub_i64 (sub_i64 context_window m) (effective_reserve m reserve) in
    if leb_ℤ context_window (pos 0)
    then pos 0
    else if ltb_ℤ usable (pos 1024)
    then pos 1024
    else usable

-- `usable * 60 / 100` on `int64`, where `/` rounds towards zero.
div_100 : ℤ → ℤ
div_100 (pos n) = pos (n / 100)
div_100 (negsuc n) = sub_ℕ 0 ((n + 1) / 100)

unfoldable pub history_budget : ℤ → ℤ
unfolding div_100
history_budget (negsuc n) = pos 0
history_budget (pos usable) =
    let budget = div_100 (wrap_i64 (pos (usable * 60))) in
    if usable == 0
    then pos 0
    else if ltb_ℤ budget (pos 2048)
    then (if ltb usable 2048 then pos usable else pos 2048)
    else if ltb_ℤ (pos usable) budget
    then pos usable
    else budget

unfoldable pub clamp_max_output : ℤ → ℤ
clamp_max_output max_output =
    if leb_ℤ max_output (pos 0) || ltb_ℤ (pos 16384) max_output then pos 8192 else max_output

-- The history budget of a positive window is positive and never exceeds the window, also where
-- the product overflows.
pub history_budget_bounds :
    (usable : ℕ)
    → 0 < usable
    → (pos 1 ≤ℤ history_budget (pos usable)) × (history_budget (pos usable) ≤ℤ pos usable)
unfolding history_budget
history_budget_bounds usable h = (ground arith, ground arith)

-- The output cap is always between 1 and 16384 tokens, and a request in that range is kept.
pub clamp_max_output_bounds :
    (m : ℤ)
    → (pos 1 ≤ℤ clamp_max_output m)
      × (clamp_max_output m ≤ℤ pos 16384)
      × (pos 1 ≤ℤ m → m ≤ℤ pos 16384 → clamp_max_output m ≡ m)
unfolding clamp_max_output
clamp_max_output_bounds m = (ground arith, ground arith, λ a b. ground arith)

sub_i64_exact :
    (a b : ℕ)
    → a < 9223372036854775808
    → b < 9223372036854775808
    → sub_i64 (pos a) (pos b) ≡ sub_ℕ a b
unfolding sub_i64
sub_i64_exact a b h k = ground arith

sub_i64_twice :
    (a b c : ℕ)
    → a < 9223372036854775808
    → b + c < 9223372036854775808
    → sub_i64 (sub_ℕ a b) (pos c) ≡ sub_ℕ a (b + c)
unfolding sub_i64
sub_i64_twice a b c h k = elim (Bool-cases (leb b a)) [
  | inl e ↦ rw e (ground arith)
  | inr e ↦ rw e (ground arith)
]

effective_reserve_pos :
    (m r : ℕ)
    → effective_reserve (pos m) (pos r) ≡ pos (pos_part (effective_reserve (pos m) (pos r)))
unfolding default_reserve
effective_reserve_pos m zero = ground arith
effective_reserve_pos m (suc r) = refl

abbrev floored : ℤ → ℤ → ℤ
floored c u = if leb_ℤ c (pos 0) then pos 0 else if ltb_ℤ u (pos 1024) then pos 1024 else u

floored_bounds :
    (c m e : ℕ)
    → 0 < c
    → (pos 1024 ≤ℤ floored (pos c) (sub_ℕ c (m + e)))
      × ((floored (pos c) (sub_ℕ c (m + e)) ≡ pos 1024)
          ⊎ (pos_part (floored (pos c) (sub_ℕ c (m + e))) + m + e ≡ c))
floored_bounds c m e h = elim (Bool-cases (ltb_ℤ (sub_ℕ c (m + e)) (pos 1024))) [
  | inl f ↦ (ground (arith, f), inl (ground (arith, f)))
  | inr f ↦ (ground (arith, f), inr (ground (arith, f)))
]

-- For an `int64` window, and an output cap and reserve that together stay below 2^63, the usable
-- window is at least 1024 tokens, and is what the two leave of the window unless that is less.
pub usable_window_bounds :
    (c m r : ℕ)
    → 0 < c
    → c < 9223372036854775808
    → m + pos_part (effective_reserve (pos m) (pos r)) < 9223372036854775808
    → (pos 1024 ≤ℤ usable_window (pos c) (pos m) (pos r))
      × ((usable_window (pos c) (pos m) (pos r) ≡ pos 1024)
          ⊎ (pos_part (usable_window (pos c) (pos m) (pos r))
                + m
                + pos_part (effective_reserve (pos m) (pos r))
              ≡ c))
unfolding usable_window
usable_window_bounds c m r h k l =
    let e = pos_part (effective_reserve (pos m) (pos r)) in
    let f : sub_i64 (sub_i64 (pos c) (pos m)) (effective_reserve (pos m) (pos r))
        ≡ sub_ℕ c (m + e) =
      rw (effective_reserve_pos m r, sub_i64_exact c m k (omega (arith, l)))
        (sub_i64_twice c m e k l) in
    rw f (floored_bounds c m e h)
