-- ===== src/Approval/Order.antt =====
-- What the normal forms guarantee (internal/approval/plan.go).
use auto_ze_agent.Common.{
  Bool-cases, List, Text, [], any, arith, false, inl, inr, refl, subst, text_eq, text_eq_iff, true,
  ℕ, ◌||◌, ◌∙◌, ◌∷◌, ◌≡◌,
}
use auto_ze_agent.Approval.Normal.{
  text_ltb, insert_text, sort_texts, drop_repeats, unique_texts, sorted_unique,
}

text_ltb_asym : (s t : Text) → text_ltb s t ≡ true → text_ltb t s ≡ false
unfolding text_ltb
text_ltb_asym [] [] h = refl
text_ltb_asym (c ∷ s) [] h = absurd (cc)
text_ltb_asym [] (d ∷ t) h = refl
text_ltb_asym (c ∷ s) (d ∷ t) h = ground (arith, text_ltb_asym s t)

text_ltb_total : (s t : Text) → text_ltb s t ≡ false → text_eq s t ≡ false → text_ltb t s ≡ true
unfolding text_ltb text_eq
text_ltb_total [] [] h n = absurd (cc)
text_ltb_total (c ∷ s) [] h n = refl
text_ltb_total [] (d ∷ t) h n = absurd (cc)
text_ltb_total (c ∷ s) (d ∷ t) h n = ground (arith, text_ltb_total s t)

-- Each text is not above the next one, and, for `Increasing`, below it.
abbrev Sorted : List Text → Type 0
Sorted [] = ◌≡◌ {A = ℕ} 0 0
Sorted (s ∷ []) = ◌≡◌ {A = ℕ} 0 0
Sorted (s ∷ t ∷ ts) = (text_ltb t s ≡ false) × Sorted (t ∷ ts)

abbrev pub Increasing : List Text → Type 0
Increasing [] = ◌≡◌ {A = ℕ} 0 0
Increasing (s ∷ []) = ◌≡◌ {A = ℕ} 0 0
Increasing (s ∷ t ∷ ts) = (text_ltb s t ≡ true) × Increasing (t ∷ ts)

insert_text-Sorted : (s : Text) (ts : List Text) → Sorted ts → Sorted (insert_text s ts)
unfolding insert_text
insert_text-Sorted s [] h = refl
insert_text-Sorted s (t ∷ []) h = elim (Bool-cases (text_ltb t s)) [
  | inl e ↦ rw e (text_ltb_asym t s e, refl)
  | inr e ↦ rw e (e, refl)
]
insert_text-Sorted s (t ∷ u ∷ ts) h = elim (Bool-cases (text_ltb t s)) [
  | inl e ↦ elim (Bool-cases (text_ltb u s)) [
    | inl f ↦ rw (e, f) (h.0, (rw f at (insert_text-Sorted s (u ∷ ts) h.1)))
    | inr f ↦ rw (e, f) (text_ltb_asym t s e, (f, h.1))
  ]
  | inr e ↦ rw e (e, h)
]

sort_texts-Sorted : (ss : List Text) → Sorted (sort_texts ss)
unfolding sort_texts
sort_texts-Sorted [] = refl
sort_texts-Sorted (s ∷ ss) = insert_text-Sorted s (sort_texts ss) (sort_texts-Sorted ss)

drop_repeats-Increasing :
    (last : Text) (vs : List Text) → Sorted (last ∷ vs) → Increasing (last ∷ drop_repeats last vs)
unfolding drop_repeats
drop_repeats-Increasing last [] h = refl
drop_repeats-Increasing last (v ∷ vs) h = elim (Bool-cases (text_eq v last)) [
  | inl e ↦
      let same = (text_eq_iff v last).0 e in
      rw e (drop_repeats-Increasing last vs (subst (λ x. Sorted (x ∷ vs)) same h.1))
  | inr e ↦ rw e (text_ltb_total v last h.0 e, drop_repeats-Increasing v vs h.1)
]

insert_text_has :
    (x s : Text) (ts : List Text)
    → any (text_eq x) (insert_text s ts) ≡ (text_eq x s || any (text_eq x) ts)
unfolding insert_text
insert_text_has x s [] = refl
insert_text_has x s (t ∷ ts) = ground (arith, insert_text_has x s ts)

sort_texts_has : (x : Text) (ss : List Text) → any (text_eq x) (sort_texts ss) ≡ any (text_eq x) ss
unfolding sort_texts
sort_texts_has x [] = refl
sort_texts_has x (s ∷ ss) = ground (arith, insert_text_has x s (sort_texts ss), sort_texts_has x ss)

drop_repeats_has :
    (x last : Text) (vs : List Text)
    → (text_eq x last || any (text_eq x) (drop_repeats last vs))
      ≡ (text_eq x last || any (text_eq x) vs)
unfolding drop_repeats
drop_repeats_has x last [] = refl
drop_repeats_has x last (v ∷ vs) = elim (Bool-cases (text_eq v last)) [
  | inl e ↦
      let same : v ≡ last = (text_eq_iff v last).0 e in
      rw (e, same) (ground (arith, drop_repeats_has x last vs))
  | inr e ↦ rw e (ground (arith, drop_repeats_has x v vs))
]

-- The texts of `sortedUnique` increase strictly, so none is there twice, and they are those given.
pub sorted_unique_lem :
    (values : List Text)
    → Increasing (sorted_unique values)
      × ((x : Text) → any (text_eq x) (sorted_unique values) ≡ any (text_eq x) values)
unfolding sorted_unique unique_texts
sorted_unique_lem values =
    by_sorted (sort_texts values) (sort_texts-Sorted values) (λ x. sort_texts_has x values)
  where
    by_sorted :
        (vs : List Text)
        → Sorted vs
        → ((x : Text) → any (text_eq x) vs ≡ any (text_eq x) values)
        → Increasing (unique_texts vs)
          × ((x : Text) → any (text_eq x) (unique_texts vs) ≡ any (text_eq x) values)
    by_sorted [] h k = (refl, k)
    by_sorted (v ∷ vs) h k = (drop_repeats-Increasing v vs h, λ x. drop_repeats_has x v vs ∙ k x)
