-- ===== src/Agent/Loops.antt =====
-- internal/agent/loop_detection.go: repeated tool steps. `toolStepSignature` hashes with SHA-256,
-- which is not part of the repository, so a signature is any text.
use auto_ze_agent.Common.{
  Bool, Bool-cases, List, Text, [], arith, count_of, drop, false, if◌then◌else◌, inl, inr, is_nil,
  length, ltb, ltb→lt, refl, text_eq, text_eq_iff, text_eq_refl, true, ℕ, ◌+◌, ◌-◌, ◌<◌, ◌||◌, ◌∷◌,
  ◌≡◌, ◌≤◌,
}

-- The loop over the window; the map `counts` is the list of the signatures seen.
unfoldable pub repeats : ℕ → List Text → List Text → Bool
repeats max_repeats seen [] = false
repeats max_repeats seen (sig ∷ sigs) =
    let skipped = repeats max_repeats seen sigs in
    let counted = repeats max_repeats (sig ∷ seen) sigs in
    if is_nil sig
    then skipped
    else if ltb max_repeats (count_of sig seen + 1)
    then true
    else counted

unfoldable pub has_repeated_tool_steps : List Text → ℕ → ℕ → Bool
has_repeated_tool_steps sigs window_size max_repeats =
    if ltb window_size 1 || ltb max_repeats 1
    then false
    else if ltb (length sigs) window_size
    then false
    else repeats max_repeats [] (drop (length sigs - window_size) sigs)

abbrev Excess : ℕ → List Text → Type 0
Excess max_repeats sigs = (sig : Text) × (is_nil sig ≡ false) × (max_repeats < count_of sig sigs)

count_of-cons :
    (x y : Text) (ys : List Text)
    → count_of x (y ∷ ys) ≡ (if text_eq y x then 1 else 0) + count_of x ys
unfolding count_of
count_of-cons x y ys = refl

count_of_self : (x : Text) (ys : List Text) → count_of x (x ∷ ys) ≡ 1 + count_of x ys
unfolding count_of
count_of_self x ys = rw text_eq_refl refl

repeats_sound :
    (n : ℕ) (seen sigs : List Text)
    → repeats n seen sigs ≡ true
    → (sig : Text) × (is_nil sig ≡ false) × (n < count_of sig seen + count_of sig sigs)
unfolding repeats
repeats_sound n seen [] h = absurd (cc)
repeats_sound n seen (x ∷ sigs) h = elim (Bool-cases (is_nil x)) [
  | inl e ↦
      let (s, t, l) = repeats_sound n seen sigs (rw e at h) in
      (s, t, omega (arith, l, count_of-cons s x sigs, cons_grows s x sigs))
  | inr e ↦ elim (Bool-cases (ltb n (count_of x seen + 1))) [
    | inl f ↦ (x, e, omega (arith, ltb→lt _ _ f, count_of_self x sigs))
    | inr f ↦
        let (s, t, l) = repeats_sound n (x ∷ seen) sigs (ground (arith, e, f)) in
        (s, t, omega (arith, l, count_of-cons s x sigs, count_of-cons s x seen))
  ]
]
  where
    cons_grows : (s x : Text) (xs : List Text) → count_of s xs ≤ count_of s (x ∷ xs)
    cons_grows s x xs = omega (arith, count_of-cons s x xs)

repeats_complete :
    (n : ℕ) (seen sigs : List Text)
    → ((sig : Text) → is_nil sig ≡ false → count_of sig seen ≤ n)
    → repeats n seen sigs ≡ false
    → (sig : Text) → is_nil sig ≡ false
    → count_of sig seen + count_of sig sigs ≤ n
unfolding repeats
repeats_complete n seen [] b h sig t = unfold count_of in omega (arith, b sig t)
repeats_complete n seen (x ∷ sigs) b h sig t = elim (Bool-cases (is_nil x)) [
  | inl e ↦ omega (
    arith,
    repeats_complete n seen sigs b (rw e at h) sig t,
    count_of-cons sig x sigs,
    skipped-blank sig x t e,
  )
  | inr e ↦
      let low : ltb n (count_of x seen + 1) ≡ false = ground (arith, e) in
      omega (
        arith,
        repeats_complete n (x ∷ seen) sigs (extend low) (ground (arith, e, low)) sig t,
        count_of-cons sig x sigs,
        count_of-cons sig x seen,
      )
]
  where
    skipped-blank :
        (sig x : Text)
        → is_nil sig ≡ false
        → is_nil x ≡ true
        → ◌≡◌ {A = ℕ} (if text_eq x sig then 1 else 0) 0
    skipped-blank sig x f g = ground (arith, text_eq_iff x sig)

    extend :
        ltb n (count_of x seen + 1) ≡ false
        → (s : Text) → is_nil s ≡ false
        → count_of s (x ∷ seen) ≤ n
    extend low s f = ground (arith, count_of-cons s x seen, text_eq_iff x s, b s f)

-- The window of the last `window_size` signatures.
abbrev pub window : List Text → ℕ → List Text
window sigs window_size = drop (length sigs - window_size) sigs

excess :
    (sigs : List Text) (window_size n : ℕ)
    → ((sig : Text) × (is_nil sig ≡ false)
        × (n < count_of sig [] + count_of sig (window sigs window_size)))
    → (sig : Text) × (is_nil sig ≡ false) × (n < count_of sig (window sigs window_size))
unfolding count_of
excess sigs window_size n (sig, t, l) = (sig, t, omega arith)

-- With a positive window and limit and enough signatures, a loop is reported exactly when some
-- non-empty signature occurs more than `max_repeats` times in the window; otherwise never.
pub has_repeated_tool_steps_iff :
    (sigs : List Text) (window_size max_repeats : ℕ)
    → (has_repeated_tool_steps sigs window_size max_repeats ≡ true
        → (0 < window_size)
          × (0 < max_repeats)
          × (window_size ≤ length sigs)
          × ((sig : Text) × (is_nil sig ≡ false)
              × (max_repeats < count_of sig (window sigs window_size))))
      × (has_repeated_tool_steps sigs window_size max_repeats ≡ false
          → 0 < window_size
          → 0 < max_repeats
          → window_size ≤ length sigs
          → (sig : Text) → is_nil sig ≡ false
          → count_of sig (window sigs window_size) ≤ max_repeats)
unfolding has_repeated_tool_steps
has_repeated_tool_steps_iff sigs window_size max_repeats = (
  λ h. (
    ground arith,
    ground arith,
    ground arith,
    excess sigs window_size max_repeats
        (repeats_sound max_repeats [] (window sigs window_size) (ground arith)),
  ),
  λ h a b c sig t. omega (
    arith,
    repeats_complete max_repeats [] (window sigs window_size)
        (λ s f. unfold count_of in omega arith) (ground arith) sig t,
  ),
)
