-- ===== src/Common/Sets.antt =====
-- Lists of texts used as sets: membership, insertion at the end, removal.
use Prim.Native.Nat.{ℕ, ◌+◌, ◌≤◌}
use mathlib.Core.Path.{◌≡◌, refl, subst}
use mathlib.Core.Logic.{inl, inr}
use mathlib.Core.Bool.{Bool, true, false, ◌||◌}
use mathlib.Core.List.{List, [], ◌∷◌, ◌++◌}
use native.Mathlib.Omega.{arith}
use auto_ze_agent.Common.Tests.{if◌then◌else◌, Bool-cases}
use auto_ze_agent.Common.Lists.{All}
use auto_ze_agent.Common.Strings.{Text, text_eq, text_eq_iff}

unfoldable pub member : Text → List Text → Bool
unfolding text_eq
member x [] = false
member x (y ∷ ys) = text_eq y x || member x ys

-- Every occurrence is taken out.
unfoldable pub erase_all : Text → List Text → List Text
unfolding text_eq
erase_all x [] = []
erase_all x (y ∷ ys) = let rest = erase_all x ys in if text_eq y x then rest else y ∷ rest

unfoldable pub remove_first : Text → List Text → List Text
unfolding text_eq
remove_first x [] = []
remove_first x (y ∷ ys) = let rest = remove_first x ys in if text_eq y x then ys else y ∷ rest

unfoldable pub insert_key : Text → List Text → List Text
unfolding member
insert_key x ys = if member x ys then ys else ys ++ x ∷ []

unfoldable pub count_of : Text → List Text → ℕ
count_of x [] = 0
count_of x (y ∷ ys) = (if text_eq y x then 1 else 0) + count_of x ys

pub count_of-append :
    (x : Text) (ys zs : List Text) → count_of x (ys ++ zs) ≡ count_of x ys + count_of x zs
unfolding count_of
count_of-append x [] zs = omega arith
count_of-append x (y ∷ ys) zs = omega (arith, count_of-append x ys zs)

-- A text that does not occur is added.
pub count_of-new :
    (x y : Text) (ys : List Text)
    → count_of x ys ≤ 1
    → count_of y ys ≡ 0
    → count_of x (ys ++ y ∷ []) ≤ 1
unfolding count_of
count_of-new x y ys h k = rw (count_of-append x ys (y ∷ [])) (elim (Bool-cases (text_eq y x)) [
  | inl e ↦ rw e (omega (arith, subst (λ i. count_of i ys ≡ 0) ((text_eq_iff y x).0 e) k))
  | inr e ↦ rw e (omega (arith, h))
])

abbrev pub Subset : List Text → List Text → Type 0
Subset xs ys = All (λ x. member x ys ≡ true) xs

pub member-append :
    (x : Text) (ys zs : List Text) → member x (ys ++ zs) ≡ (member x ys || member x zs)
unfolding member
member-append x [] zs = refl
member-append x (y ∷ ys) zs = ground (arith, member-append x ys zs)

pub member-erase_all :
    (x y : Text) (zs : List Text)
    → member x (erase_all y zs) ≡ (if text_eq y x then false else member x zs)
unfolding member erase_all
member-erase_all x y [] = ground arith
member-erase_all x y (z ∷ zs) =
    ground (arith, member-erase_all x y zs, text_eq_iff z y, text_eq_iff z x, text_eq_iff y x)

pub member-remove_first :
    (x y : Text) (zs : List Text) → text_eq y x ≡ false → member x (remove_first y zs) ≡ member x zs
unfolding member remove_first
member-remove_first x y [] h = refl
member-remove_first x y (z ∷ zs) h =
    ground (arith, member-remove_first x y zs h, text_eq_iff z y, text_eq_iff z x, text_eq_iff y x)

pub member-insert_key :
    (x y : Text) (zs : List Text) → member x (insert_key y zs) ≡ (member x zs || text_eq y x)
unfolding insert_key member
member-insert_key x y zs = ground (arith, member-append x zs (y ∷ []), text_eq_iff y x)

-- What is left after a removal is covered where the whole was, but for the removed one.
pub erase_all-Subset :
    (x : Text) (zs os : List Text) → Subset zs os → Subset (erase_all x zs) (remove_first x os)
unfolding erase_all
erase_all-Subset x [] os h = tt
erase_all-Subset x (z ∷ zs) os h = elim (Bool-cases (text_eq z x)) [
  | inl e ↦ rw e (erase_all-Subset x zs os h.1)
  | inr e ↦ rw e (
    ground
        (arith, member-remove_first z x os (ground (arith, text_eq_iff x z, text_eq_iff z x)), h.0),
    erase_all-Subset x zs os h.1,
  )
]

pub All-erase_all {ℓ} :
    (P : Text → Type ℓ) (x : Text) (zs : List Text) → All P zs → All P (erase_all x zs)
unfolding erase_all
All-erase_all P x [] h = tt
All-erase_all P x (z ∷ zs) h = elim (Bool-cases (text_eq z x)) [
  | inl e ↦ rw e (All-erase_all P x zs h.1)
  | inr e ↦ rw e (h.0, All-erase_all P x zs h.1)
]
