-- ===== src/Common/Decimal.antt =====
-- The verb `%d` of package `fmt`: a number in decimal digits.
use Prim.Native.Nat.{ℕ, zero, suc, ◌+◌, ◌/◌, ◌%◌, ◌≤◌, ◌<◌}
use mathlib.Core.List.{[], ◌∷◌, ◌++◌}
use native.Mathlib.Omega.{arith}
use auto_ze_agent.Common.Tests.{ltb, if◌then◌else◌}
use auto_ze_agent.Common.Lists.{length, length-append}
use auto_ze_agent.Common.Strings.{Text}

digits_fuel : ℕ → ℕ → Text
digits_fuel zero n = []
digits_fuel (suc fuel) n =
    let high = digits_fuel fuel (n / 10) in
    if ltb n 10 then (b'0' + n) ∷ [] else high ++ (b'0' + n % 10) ∷ []

-- `n + 1` rounds are enough, since `n` falls at each.
unfoldable pub decimal : ℕ → Text
unfolding digits_fuel
decimal n = digits_fuel (n + 1) n

length-digits_mono :
    (f g n m : ℕ) → n ≤ m → m < g → length (digits_fuel f n) ≤ length (digits_fuel g m)
unfolding digits_fuel
length-digits_mono zero g n m h k = omega arith
length-digits_mono (suc f) zero n m h k = absurd (omega arith)
length-digits_mono (suc f) (suc g) n m h k = ground (
  arith,
  length-digits_mono f g (n / 10) (m / 10) (omega arith),
  length-append (digits_fuel f (n / 10)) ((b'0' + n % 10) ∷ []),
  length-append (digits_fuel g (m / 10)) ((b'0' + m % 10) ∷ []),
)

-- A larger number has no fewer digits.
pub length-decimal_mono : (n m : ℕ) → n ≤ m → length (decimal n) ≤ length (decimal m)
unfolding decimal
length-decimal_mono n m h = length-digits_mono (n + 1) (m + 1) n m h (omega arith)
