-- ===== src/Common/Strings.antt =====
-- Go strings as lists of code points (every string that the model handles is valid UTF-8), with
-- what the source uses of package `strings`: comparison, `TrimSpace`, `HasPrefix`, `ToLower`.
use Prim.Native.Char.{code}
use Prim.Native.Nat.{ℕ, ◌+◌}
use Prim.Native.String.{String}
use mathlib.Core.Path.{◌≡◌, refl}
use mathlib.Core.Logic.{◌↔◌, inl, inr}
use mathlib.Core.Bool.{Bool, true, false, ◌&&◌, ◌||◌}
use mathlib.Core.List.{List, [], ◌∷◌, ◌++◌, map}
use native.Mathlib.Omega.{arith}
use auto_ze_agent.Common.Tests.{leb, ◌==◌, if◌then◌else◌, Bool-cases}
use auto_ze_agent.Common.Lists.{is_nil}

abbrev pub Text : Type 0
Text = List ℕ

abbrev pub codes : String → Text
codes String.[] = []
codes (String.◌∷◌ c s) = code c ∷ codes s

unfoldable pub text_eq : Text → Text → Bool
text_eq [] [] = true
text_eq [] (b ∷ t) = false
text_eq (a ∷ s) [] = false
text_eq (a ∷ s) (b ∷ t) = (a == b) && text_eq s t

text_eq→eq : (s t : Text) → text_eq s t ≡ true → s ≡ t
unfolding text_eq
text_eq→eq [] [] h = refl
text_eq→eq [] (b ∷ t) h = cc
text_eq→eq (a ∷ s) [] h = cc
text_eq→eq (a ∷ s) (b ∷ t) h = ground (arith, text_eq→eq s t)

pub text_eq_refl : (s : Text) → text_eq s s ≡ true
unfolding text_eq
text_eq_refl [] = refl
text_eq_refl (a ∷ s) = ground (arith, text_eq_refl s)

pub text_eq_iff : (s t : Text) → (text_eq s t ≡ true) ↔ (s ≡ t)
text_eq_iff s t = (text_eq→eq s t, λ e. rw e (text_eq_refl t))

pub text_eq_comm : (s t : Text) → text_eq s t ≡ text_eq t s
text_eq_comm s t = ground (arith, text_eq_iff s t, text_eq_iff t s)

-- `unicode.IsSpace`.
unfoldable pub is_space : ℕ → Bool
is_space c =
    (leb 9 c && leb c 13)
    || ((c == 32)
        || ((c == 0x85)
            || ((c == 0xa0)
                || ((c == 0x1680)
                    || ((leb 0x2000 c && leb c 0x200a)
                        || ((c == 0x2028)
                            || ((c == 0x2029)
                                || ((c == 0x202f) || ((c == 0x205f) || (c == 0x3000))))))))))

unfoldable pub trim_left : Text → Text
trim_left [] = []
trim_left (c ∷ s) = let rest = trim_left s in if is_space c then rest else c ∷ s

unfoldable pub trim_right : Text → Text
trim_right [] = []
trim_right (c ∷ s) = let rest = trim_right s in if is_nil rest && is_space c then [] else c ∷ rest

-- `strings.TrimSpace`.
unfoldable pub trim_space : Text → Text
unfolding trim_left trim_right is_space
trim_space s = trim_right (trim_left s)

trim_right_idem : (s : Text) → trim_right (trim_right s) ≡ trim_right s
unfolding trim_right
trim_right_idem [] = refl
trim_right_idem (c ∷ s) = elim (Bool-cases (is_nil (trim_right s) && is_space c)) [
  | inl e ↦ rw e
  | inr e ↦ rw e (rw (trim_right_idem s) (rw e))
]

-- What `trim_left` leaves begins with no space.
abbrev StartsTight : Text → Type 0
StartsTight [] = Unit {0}
StartsTight (c ∷ s) = is_space c ≡ false

trim_left-StartsTight : (s : Text) → StartsTight (trim_left s)
unfolding trim_left
trim_left-StartsTight [] = tt
trim_left-StartsTight (c ∷ s) = elim (Bool-cases (is_space c)) [
  | inl e ↦ rw e (trim_left-StartsTight s)
  | inr e ↦ rw e e
]

trim_left_of_StartsTight : (s : Text) → StartsTight s → trim_left s ≡ s
unfolding trim_left
trim_left_of_StartsTight [] h = refl
trim_left_of_StartsTight (c ∷ s) h = rw h

trim_right-StartsTight : (s : Text) → StartsTight s → StartsTight (trim_right s)
unfolding trim_right
trim_right-StartsTight [] h = tt
trim_right-StartsTight (c ∷ s) h = elim (Bool-cases (is_nil (trim_right s) && is_space c)) [
  | inl e ↦ rw e tt
  | inr e ↦ rw e h
]

pub trim_space_idem : (s : Text) → trim_space (trim_space s) ≡ trim_space s
unfolding trim_space
trim_space_idem s =
    rw (trim_left_of_StartsTight _ (trim_right-StartsTight _ (trim_left-StartsTight s)))
      (trim_right_idem (trim_left s))

-- `strings.TrimSpace(s) == ""`.
abbrev pub is_blank : Text → Bool
is_blank s = is_nil (trim_space s)

-- `strings.HasPrefix(s, prefix)`.
unfoldable pub has_prefix : Text → Text → Bool
has_prefix s [] = true
has_prefix [] (p ∷ ps) = false
has_prefix (c ∷ s) (p ∷ ps) = (c == p) && has_prefix s ps

pub has_prefix_append : (p s : Text) → has_prefix (p ++ s) p ≡ true
unfolding has_prefix
has_prefix_append [] s = refl
has_prefix_append (c ∷ p) s = ground (arith, has_prefix_append p s)

-- What `has_prefix` accepts is an extension of the prefix.
pub has_prefix_sound : (s p : Text) → has_prefix s p ≡ true → (r : Text) × (s ≡ p ++ r)
unfolding has_prefix
has_prefix_sound s [] h = (s, refl)
has_prefix_sound [] (p ∷ ps) h = absurd (cc)
has_prefix_sound (c ∷ s) (p ∷ ps) h =
    let (r, e) = has_prefix_sound s ps (ground arith) in (r, ground arith)

-- `unicode.ToLower` on ASCII and on the two code points outside it that fall to an ASCII letter.
-- Other letters stay, which no comparison with an ASCII word can tell.
unfoldable pub lower_rune : ℕ → ℕ
lower_rune c =
    if leb b'A' c && leb c b'Z'
    then c + 32
    else if c == 0x130
    then b'i'
    else if c == 0x212a
    then b'k'
    else c

unfoldable pub to_lower : Text → Text
unfolding lower_rune
to_lower s = map lower_rune s
