-- ===== src/Context/Trim.antt =====
-- internal/contextpack/pack.go: the cut of one long message body (`trimRunes`). A text is its list
-- of runes, and a negative maximum acts as 0 does.
use auto_ze_agent.Common.{
  Bool-cases, List, Text, arith, codes, decimal, drop, false, if◌then◌else◌, inl, inr, leb, leb→le,
  length, length-append, length-decimal_mono, length-drop, length-take, le→leb, ltb, take, ℕ, ◌++◌,
  ◌+◌, ◌-◌, ◌/◌, ◌<◌, ◌≡◌, ◌≤◌,
}

unfoldable pub trim_marker : ℕ → Text
unfolding decimal
trim_marker n = codes "\n...[trimmed " ++ (decimal n ++ codes " runes for provider context]...\n")

-- The two corrections of `head` and `tail` once the final marker is known.
unfoldable pub fit : ℕ → ℕ → ℕ → ℕ → ℕ × ℕ
fit max_runes marker_len head tail =
    let grown =
      if ltb (head + marker_len + tail) max_runes
      then head + (max_runes - head - marker_len - tail)
      else head in
    let overflow = grown + marker_len + tail - max_runes in
    if ltb max_runes (grown + marker_len + tail)
    then (if ltb overflow tail
        then (grown, tail - overflow)
        else (if ltb (overflow - tail) grown then grown - (overflow - tail) else 0, 0))
    else (grown, tail)

at_least_one : ℕ → ℕ
at_least_one n = if ltb n 1 then 1 else n

-- The last part of `trimRunes`, for the chosen sizes of head and tail.
assemble : Text → ℕ → ℕ → ℕ → Text
unfolding fit trim_marker
assemble runes max_runes head tail =
    let len = length runes in
    let marker = trim_marker (len - head - tail) in
    let (h, t) = fit max_runes (length marker) head tail in
    if leb len (head + tail)
    then runes
    else if leb len (h + t)
    then take max_runes runes
    else take h runes ++ (marker ++ drop (len - t) runes)

trim_long : Text → ℕ → Text
unfolding assemble at_least_one trim_marker
trim_long runes max_runes =
    let keep = max_runes - length (trim_marker (length runes)) in
    if leb max_runes (length (trim_marker (length runes)))
    then take max_runes runes
    else assemble runes max_runes (at_least_one (keep / 2)) (at_least_one (keep - keep / 2))

abbrev pub trim_limit : ℕ → ℕ
trim_limit max_runes = if ltb max_runes 16 then 16 else max_runes

unfoldable pub trim_runes : Text → ℕ → Text
unfolding trim_long
trim_runes content max_runes =
    if leb (length content) (trim_limit max_runes)
    then content
    else trim_long content (trim_limit max_runes)

fit_bounds :
    (max_runes m head tail : ℕ)
    → m ≤ max_runes
    → (fit max_runes m head tail).0 + m + (fit max_runes m head tail).1 ≤ max_runes
unfolding fit
fit_bounds max_runes m head tail h = ground arith

length-take-le {ℓ} : {A : Type ℓ} (n : ℕ) (xs : List A) → length (take n xs) ≤ n
length-take-le n xs = omega (arith, length-take n xs)

length-trim_marker_mono : (n m : ℕ) → n ≤ m → length (trim_marker n) ≤ length (trim_marker m)
unfolding trim_marker
length-trim_marker_mono n m h = omega (
  arith,
  length-decimal_mono n m h,
  length-append (decimal n) (codes " runes for provider context]...\n"),
  length-append (decimal m) (codes " runes for provider context]...\n"),
)

length-trim_marker : (n : ℕ) → 2 ≤ length (trim_marker n)
unfolding trim_marker
length-trim_marker n = omega arith

length-assemble :
    (runes : Text) (max_runes head tail : ℕ)
    → head + tail < length runes
    → length (trim_marker (length runes - head - tail)) ≤ max_runes
    → length (assemble runes max_runes head tail) ≤ max_runes
unfolding assemble
length-assemble runes max_runes head tail h k =
    let marker = trim_marker (length runes - head - tail) in
    let s = fit max_runes (length marker) head tail in
    ground (
      arith,
      fit_bounds max_runes (length marker) head tail k,
      length-take-le max_runes runes,
      length-take-le s.0 runes,
      length-append (take s.0 runes) (marker ++ drop (length runes - s.1) runes),
      length-append marker (drop (length runes - s.1) runes),
      length-drop (length runes - s.1) runes,
    )

length-trim_long :
    (runes : Text) (max_runes : ℕ)
    → max_runes < length runes
    → length (trim_long runes max_runes) ≤ max_runes
unfolding trim_long at_least_one
length-trim_long runes max_runes h =
    elim (Bool-cases (leb max_runes (length (trim_marker (length runes))))) [
      | inl e ↦ rw e (length-take-le max_runes runes)
      | inr e ↦ rw e (
          length-assemble runes max_runes _ _ (small e) (
            omega (
              arith,
              length-trim_marker_mono
                  (length runes - at_least_one (keep / 2) - at_least_one (keep - keep / 2))
                  (length runes) (omega arith),
              short e,
            )))
    ]
  where
    keep : ℕ
    keep = max_runes - length (trim_marker (length runes))

    short :
        leb max_runes (length (trim_marker (length runes))) ≡ false
        → length (trim_marker (length runes)) < max_runes
    short e = ground arith

    small :
        leb max_runes (length (trim_marker (length runes))) ≡ false
        → at_least_one (keep / 2) + at_least_one (keep - keep / 2) < length runes
    small e = ground (arith, length-trim_marker (length runes))

-- A body within the limit (the maximum, but at least 16 runes) is left as it is, and what a longer
-- one is cut to, marker included, is within the limit.
pub trim_runes_bounds :
    (content : Text) (max_runes : ℕ)
    → (length content ≤ trim_limit max_runes → trim_runes content max_runes ≡ content)
      × (length (trim_runes content max_runes) ≤ trim_limit max_runes)
unfolding trim_runes
trim_runes_bounds content max_runes = (
  λ h. rw (le→leb _ _ h),
  elim (Bool-cases (leb (length content) (trim_limit max_runes))) [
    | inl e ↦ rw e (leb→le _ _ e)
    | inr e ↦ rw e (length-trim_long content (trim_limit max_runes) (ground arith))
  ],
)
