-- ===== src/Events/Pages.antt =====
-- Pages of the event log (internal/events/store.go).
use auto_ze_agent.Common.{
  Bool, Bool-cases, List, [], ap, arith, drop, false, inl, inr, is_nil, keep_if, ltb, pos, refl,
  some, subst, suc, sym, take, true, zero, ℕ, ◌++◌, ◌+◌, ◌<◌, ◌∙◌, ◌∷◌, ◌≡◌, ◌≤◌,
}
use auto_ze_agent.Events.Store.{Event, Log, last_sequence, list_after}
use auto_ze_agent.Events.Order.{IsLog}

abbrev pub after : ℕ → Event → Bool
after s e = ltb s e.sequence

all_after : (s k : ℕ) (log : Log) → IsLog k log → s ≤ k → keep_if (after s) log ≡ log
all_after s k [] h l = refl
all_after s k (e ∷ es) (m, d, h) l =
    let kept : after s e ≡ true = ground arith in
    rw kept (ap (◌∷◌ e) (all_after s e.sequence es h (omega arith)))

behind_self :
    (e : Event) (es : Log) → IsLog e.sequence es → keep_if (after e.sequence) (e ∷ es) ≡ es
behind_self e es h =
    let gone : after e.sequence e ≡ false = ground arith in
    rw gone (all_after e.sequence e.sequence es h (omega arith))

last_above :
    (k n : ℕ) (e : Event) (es : Log) → k < e.sequence → k < last_sequence (take (suc n) (e ∷ es))
unfolding last_sequence
last_above k n e es h = ground arith

last_sequence-cons :
    (e : Event) (es : Log) → last_sequence es < e.sequence → last_sequence (e ∷ es) ≡ e.sequence
unfolding last_sequence
last_sequence-cons e es h = ground arith

last_sequence-later :
    (e : Event) (es : Log)
    → e.sequence < last_sequence es
    → last_sequence (e ∷ es) ≡ last_sequence es
unfolding last_sequence
last_sequence-later e es h = ground arith

last_sequence-nil : last_sequence [] ≡ 0
unfolding last_sequence
last_sequence-nil = refl

-- Behind the last event of a page stand the events that are not on it.
after_page :
    (k n : ℕ) (log : Log)
    → IsLog k log
    → is_nil log ≡ false
    → keep_if (after (last_sequence (take (suc n) log))) log ≡ drop (suc n) log
after_page k n [] h l = absurd (cc)
after_page k zero (e ∷ es) (m, d, h) l =
    subst (λ c. keep_if (after c) (e ∷ es) ≡ es)
      (sym (last_sequence-cons e [] (omega (arith, m, last_sequence-nil)))) (behind_self e es h)
after_page k (suc n) (e ∷ []) (m, d, h) l =
    subst (λ c. keep_if (after c) (e ∷ []) ≡ [])
      (sym (last_sequence-cons e [] (omega (arith, m, last_sequence-nil)))) (behind_self e [] h)
after_page k (suc n) (e ∷ f ∷ es) (m, d, h) l =
    let c = last_sequence (take (suc n) (f ∷ es)) in
    let above : e.sequence < c = last_above e.sequence n f es h.0 in
    let gone : after c e ≡ false = ground arith in
    subst (λ x. keep_if (after x) (e ∷ f ∷ es) ≡ drop (suc n) (f ∷ es))
      (sym (last_sequence-later e (take (suc n) (f ∷ es)) above))
      (rw gone (after_page e.sequence n (f ∷ es) h refl))

page_above :
    (s n : ℕ) (log : Log)
    → is_nil (keep_if (after s) log) ≡ false
    → s < last_sequence (take (suc n) (keep_if (after s) log))
page_above s n [] h = absurd (cc)
page_above s n (e ∷ es) h = elim (Bool-cases (after s e)) [
  | inl k ↦ rw k (last_above s n e (keep_if (after s) es) (ground (arith, k)))
  | inr k ↦ rw k (page_above s n es (ground (arith, k)))
]

behind_page :
    (k s n : ℕ) (log : Log)
    → IsLog k log
    → is_nil (keep_if (after s) log) ≡ false
    → keep_if (after (last_sequence (take (suc n) (keep_if (after s) log)))) log
      ≡ drop (suc n) (keep_if (after s) log)
behind_page k s n [] h l = absurd (cc)
behind_page k s n (e ∷ es) (m, d, h) l = elim (Bool-cases (after s e)) [
  | inl t ↦
      let all : keep_if (after s) (e ∷ es) ≡ e ∷ es =
        rw t (ap (◌∷◌ e) (all_after s e.sequence es h (ground (arith, t)))) in
      subst (λ xs. keep_if (after (last_sequence (take (suc n) xs))) (e ∷ es) ≡ drop (suc n) xs)
        (sym all) (after_page k n (e ∷ es) (m, d, h) refl)
  | inr t ↦
      let same : keep_if (after s) (e ∷ es) ≡ keep_if (after s) es = rw t refl in
      let c = last_sequence (take (suc n) (keep_if (after s) es)) in
      let some_left : is_nil (keep_if (after s) es) ≡ false = ground (arith, t) in
      let above : s < c = page_above s n es some_left in
      let gone : after c e ≡ false = ground (arith, t) in
      subst (λ xs. keep_if (after (last_sequence (take (suc n) xs))) (e ∷ es) ≡ drop (suc n) xs)
        (sym same) (rw gone (behind_page e.sequence s n es h some_left))
]

take-nil {ℓ} : {A : Type ℓ} (n : ℕ) → take {A = A} n [] ≡ []
take-nil zero = refl
take-nil (suc n) = refl

take-add {ℓ} :
    {A : Type ℓ} (n m : ℕ) (xs : List A) → take n xs ++ take m (drop n xs) ≡ take (n + m) xs
take-add zero m xs = ap (λ k. take k xs) (omega arith)
take-add (suc n) m [] = take-nil m ∙ sym (take-nil (suc n + m))
take-add (suc n) m (x ∷ xs) =
    let e : suc n + m ≡ suc (n + m) = omega arith in rw e (ap (◌∷◌ x) (take-add n m xs))

-- A page that is not empty, and the page that is asked for behind the last event of it, are
-- together the first events behind the cursor: none is left out or listed twice.
pub list_after-pages :
    (log : Log) (s n m : ℕ) (p q : List Event)
    → IsLog 0 log
    → list_after s (pos n) log ≡ some p
    → is_nil p ≡ false
    → list_after (last_sequence p) (pos m) log ≡ some q
    → p ++ q ≡ take (n + m) (keep_if (after s) log)
unfolding list_after
list_after-pages log s n m p q h a l b =
    let first : take n (keep_if (after s) log) ≡ p = ground arith in
    let second : take m (keep_if (after (last_sequence p)) log) ≡ q = ground arith in
    sym (ap (λ xs. xs ++ q) first)
    ∙ ap (◌++◌ (take n (keep_if (after s) log))) (
        sym second
        ∙ ap (take m)
            (ap (λ xs. keep_if (after (last_sequence xs)) log) (sym first) ∙ behind n first l))
    ∙ take-add n m (keep_if (after s) log)
  where
    behind :
        (n : ℕ)
        → take n (keep_if (after s) log) ≡ p
        → is_nil p ≡ false
        → keep_if (after (last_sequence (take n (keep_if (after s) log)))) log
          ≡ drop n (keep_if (after s) log)
    behind zero f l = absurd (ground (arith, f, l))
    behind (suc n) f l = behind_page 0 s n log h (not_nil (keep_if (after s) log) f)
      where
        not_nil : (xs : List Event) → take (suc n) xs ≡ p → is_nil xs ≡ false
        not_nil [] g = absurd (ground (arith, g, l))
        not_nil (x ∷ xs) g = refl
