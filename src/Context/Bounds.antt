-- ===== src/Context/Bounds.antt =====
-- Bounds on the estimates (internal/contextpack/estimate.go).
use auto_ze_agent.Common.{
  Bool-cases, List, Text, [], append-nil, arith, if◌then◌else◌, inl, inr, is_nil, length, refl, ℕ,
  ◌*◌, ◌++◌, ◌+◌, ◌<◌, ◌∷◌, ◌≡◌, ◌≤◌,
}
use auto_ze_agent.Context.Message.{Message}
use auto_ze_agent.Context.Estimate.{
  is_cjk_rune, count_runes, estimate_counts, estimate_text, estimate_messages,
}

count_runes-length : (s : Text) → (count_runes s).0 + (count_runes s).1 ≡ length s
unfolding count_runes
count_runes-length [] = omega arith
count_runes-length (r ∷ rs) = elim (Bool-cases (is_cjk_rune r)) [
  | inl e ↦ rw e (omega (arith, count_runes-length rs))
  | inr e ↦ rw e (omega (arith, count_runes-length rs))
]

count_runes-append :
    (s t : Text)
    → ((count_runes (s ++ t)).0 ≡ (count_runes s).0 + (count_runes t).0)
      × ((count_runes (s ++ t)).1 ≡ (count_runes s).1 + (count_runes t).1)
unfolding count_runes
count_runes-append [] t = (omega arith, omega arith)
count_runes-append (r ∷ rs) t = elim (Bool-cases (is_cjk_rune r)) [
  | inl e ↦ rw e (omega (arith, count_runes-append rs t))
  | inr e ↦ rw e (omega (arith, count_runes-append rs t))
]

-- The empty text too is estimated from its counts, but for the floor of one token.
estimate_text-counts :
    (s : Text)
    → estimate_text s
      ≡ (if is_nil s then 0 else estimate_counts (count_runes s).0 (count_runes s).1)
unfolding estimate_text
estimate_text-counts [] = refl
estimate_text-counts (r ∷ rs) = refl

counts_bounds :
    (a b n : ℕ)
    → a + b ≡ n
    → 0 < n
    → (n ≤ 4 * estimate_counts a b) × (estimate_counts a b ≤ n) × (a ≤ estimate_counts a b)
unfolding estimate_counts
counts_bounds a b n e h = (ground arith, ground arith, ground arith)

-- A text of n runes is estimated at between a quarter of n, rounded up, and n tokens, and at no
-- fewer tokens than it has CJK runes.
pub estimate_text_bounds :
    (s : Text)
    → (length s ≤ 4 * estimate_text s)
      × (estimate_text s ≤ length s)
      × ((count_runes s).0 ≤ estimate_text s)
unfolding estimate_text
estimate_text_bounds [] = unfold count_runes in omega arith
estimate_text_bounds (r ∷ rs) =
    counts_bounds (count_runes (r ∷ rs)).0 (count_runes (r ∷ rs)).1 (length (r ∷ rs))
      (count_runes-length (r ∷ rs)) (omega arith)

counts-subadditive :
    (a b c d : ℕ)
    → 0 < a + b
    → 0 < c + d
    → (estimate_counts (a + c) (b + d) ≤ estimate_counts a b + estimate_counts c d)
      × (estimate_counts a b ≤ estimate_counts (a + c) (b + d))
unfolding estimate_counts
counts-subadditive a b c d h k = (ground arith, ground arith)

-- Joining texts never costs more than the two apart, nor less than the first alone.
pub estimate_text-append :
    (s t : Text)
    → (estimate_text (s ++ t) ≤ estimate_text s + estimate_text t)
      × (estimate_text s ≤ estimate_text (s ++ t))
estimate_text-append [] t = unfold estimate_text in (omega arith, omega arith)
estimate_text-append (r ∷ rs) [] = rw append-nil (omega arith, omega arith)
estimate_text-append (r ∷ rs) (q ∷ qs) =
    let (i, j) = count_runes-append (r ∷ rs) (q ∷ qs) in
    let n = count_runes-length (r ∷ rs) in
    let m = count_runes-length (q ∷ qs) in
    unfold estimate_text in
    rw (i, j)
      (counts-subadditive (count_runes (r ∷ rs)).0 (count_runes (r ∷ rs)).1 (count_runes (q ∷ qs)).0
        (count_runes (q ∷ qs)).1 (omega arith) (omega arith))

pub estimate_messages-append :
    (xs ys : List Message)
    → estimate_messages (xs ++ ys) ≡ estimate_messages xs + estimate_messages ys
unfolding estimate_messages
estimate_messages-append [] ys = omega arith
estimate_messages-append (x ∷ xs) ys = omega (arith, estimate_messages-append xs ys)
