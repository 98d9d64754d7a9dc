-- ===== src/Common/Lists.antt =====
-- Lists measured by native numbers, and predicates on lists by recursion.
use Prim.Native.Nat.{ℕ, zero, suc, ◌+◌, ◌-◌, min}
use mathlib.Core.Path.{◌≡◌, refl, ap}
use mathlib.Core.Bool.{Bool, true, false, ◌||◌}
use mathlib.Core.List.{List, [], ◌∷◌, ◌++◌}
use mathlib.Core.Logic.{inl, inr}
use native.Mathlib.Omega.{arith}
use auto_ze_agent.Common.Tests.{if◌then◌else◌, Bool-cases}

module _ {ℓ} {A : Type ℓ} where
  abbrev pub length : List A → ℕ
  length [] = 0
  length (x ∷ xs) = suc (length xs)

  abbrev pub take : ℕ → List A → List A
  take zero xs = []
  take (suc n) [] = []
  take (suc n) (x ∷ xs) = x ∷ take n xs

  abbrev pub drop : ℕ → List A → List A
  drop zero xs = xs
  drop (suc n) [] = []
  drop (suc n) (x ∷ xs) = drop n xs

  abbrev pub is_nil : List A → Bool
  is_nil [] = true
  is_nil (x ∷ xs) = false

  pub length-append : (xs ys : List A) → length (xs ++ ys) ≡ length xs + length ys
  length-append [] ys = omega arith
  length-append (x ∷ xs) ys = omega (arith, length-append xs ys)

  pub take-append-drop : (n : ℕ) (xs : List A) → take n xs ++ drop n xs ≡ xs
  take-append-drop zero xs = refl
  take-append-drop (suc n) [] = refl
  take-append-drop (suc n) (x ∷ xs) = rw (take-append-drop n xs)

  pub length-take : (n : ℕ) (xs : List A) → length (take n xs) ≡ min n (length xs)
  length-take zero xs = omega arith
  length-take (suc n) [] = omega arith
  length-take (suc n) (x ∷ xs) = omega (arith, length-take n xs)

  pub length-drop : (n : ℕ) (xs : List A) → length (drop n xs) ≡ length xs - n
  length-drop zero xs = omega arith
  length-drop (suc n) [] = omega arith
  length-drop (suc n) (x ∷ xs) = omega (arith, length-drop n xs)

-- A predicate by recursion computes to tuples, which the tactics read and build.
abbrev pub All {ℓ κ} : {A : Type ℓ} → (A → Type κ) → List A → Type κ
All P [] = Unit
All P (x ∷ xs) = P x × All P xs

pub All-append {ℓ κ} :
    {A : Type ℓ} (P : A → Type κ) (front back : List A)
    → All P front
    → All P back
    → All P (front ++ back)
All-append P [] back _ pb = pb
All-append P (a ∷ front) back (pa, pf) pb = (pa, All-append P front back pf pb)

-- `slices.ContainsFunc`: some member passes the test.
abbrev pub any {ℓ} : {A : Type ℓ} → (A → Bool) → List A → Bool
any p [] = false
any p (x ∷ xs) = p x || any p xs

abbrev pub keep_if {ℓ} : {A : Type ℓ} → (A → Bool) → List A → List A
keep_if p [] = []
keep_if p (x ∷ xs) = let rest = keep_if p xs in if p x then x ∷ rest else rest

module _ {ℓ} {A : Type ℓ} (p q : A → Bool) where
  pub keep_if-append : (xs ys : List A) → keep_if p (xs ++ ys) ≡ keep_if p xs ++ keep_if p ys
  keep_if-append [] ys = refl
  keep_if-append (x ∷ xs) ys = elim (Bool-cases (p x)) [
    | inl e ↦ rw e (ap (◌∷◌ x) (keep_if-append xs ys))
    | inr e ↦ rw e (keep_if-append xs ys)
  ]

  pub keep_if_within :
      (xs : List A) → ((x : A) → p x ≡ true → q x ≡ true) → keep_if p (keep_if q xs) ≡ keep_if p xs
  keep_if_within [] h = refl
  keep_if_within (x ∷ xs) h = elim (Bool-cases (p x)) [
    | inl e ↦ rw (e, h x e) (rw e (ap (◌∷◌ x) (keep_if_within xs h)))
    | inr e ↦ elim (Bool-cases (q x)) [
      | inl f ↦ rw (e, f) (rw e (keep_if_within xs h))
      | inr f ↦ rw (e, f) (keep_if_within xs h)
    ]
  ]

  pub keep_if_outside :
      (xs : List A) → ((x : A) → p x ≡ true → q x ≡ false) → keep_if p (keep_if q xs) ≡ []
  keep_if_outside [] h = refl
  keep_if_outside (x ∷ xs) h = elim (Bool-cases (p x)) [
    | inl e ↦ rw (h x e) (keep_if_outside xs h)
    | inr e ↦ elim (Bool-cases (q x)) [
      | inl f ↦ rw f (rw e (keep_if_outside xs h))
      | inr f ↦ rw f (keep_if_outside xs h)
    ]
  ]
