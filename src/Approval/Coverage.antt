-- ===== src/Approval/Coverage.antt =====
-- Which commands and domains a grant covers (internal/approval/grant.go).
use auto_ze_agent.Common.{
  Bool-cases, List, Text, [], ap, append-nil, append_assoc, arith, codes, drop, false, has_prefix,
  has_prefix_append, has_prefix_sound, if◌then◌else◌, inl, inr, is_nil, length, length-append, not,
  refl, subst, sym, take, take-append-drop, text_eq, text_eq_iff, text_eq_refl, trim_space, true,
  ◌&&◌, ◌++◌, ◌-◌, ◌↔◌, ◌∙◌, ◌∷◌, ◌≡◌, ◌⊎◌,
}
use auto_ze_agent.Approval.Match.{
  texts_eq, match_leading, args_match_prefix, command_args_match, has_suffix, trim_prefix,
  domain_covers,
}

-- The request repeats the arguments of the grant, and may extend the last one and add more.
abbrev pub Leads : List Text → List Text → Type 0
Leads grant_args request_args =
    (init : List Text) × (last : Text) × (more : Text) × (tail : List Text) × (grant_args
      ≡ init ++ last ∷ [])
    × (request_args ≡ init ++ (last ++ more) ∷ tail)

Leads-first : (g r more : Text) (rs : List Text) → r ≡ g ++ more → Leads (g ∷ []) (r ∷ rs)
Leads-first g r more rs e = ([], g, more, rs, refl, ap (λ x. x ∷ rs) e)

match_leading_sound : (gs rs : List Text) → match_leading gs rs ≡ true → Leads gs rs
unfolding match_leading
match_leading_sound [] rs h = absurd (cc)
match_leading_sound (g ∷ gs) [] h = absurd (cc)
match_leading_sound (g ∷ []) (r ∷ rs) h = elim (Bool-cases (has_prefix r g)) [
  | inl e ↦ let (more, k) = has_prefix_sound r g e in Leads-first g r more rs k
  | inr e ↦ elim (Bool-cases (text_eq g r)) [
    | inl f ↦ Leads-first g r [] rs (sym ((text_eq_iff g r).0 f) ∙ sym (append-nil g))
    | inr f ↦
        let (more, k) = has_prefix_sound r (g ++ codes " ") (ground (arith, e, f)) in
        Leads-first g r (codes " " ++ more) rs (k ∙ append_assoc g (codes " ") more)
  ]
]
match_leading_sound (g ∷ g' ∷ gs) (r ∷ rs) h =
    let (init, last, more, tail, k, l) = match_leading_sound (g' ∷ gs) rs (ground arith) in
    let e : g ≡ r = ground (arith, text_eq_iff g r) in
    (g ∷ init, last, more, tail, ap (◌∷◌ g) k, rw e (ap (◌∷◌ r) l))

match_leading_complete :
    (init : List Text) (last more : Text) (tail : List Text)
    → match_leading (init ++ last ∷ []) (init ++ (last ++ more) ∷ tail) ≡ true
unfolding match_leading
match_leading_complete [] last more tail = rw (has_prefix_append last more) (ground arith)
match_leading_complete (g ∷ []) last more tail =
    rw text_eq_refl (match_leading_complete [] last more tail)
match_leading_complete (g ∷ g' ∷ init) last more tail =
    rw text_eq_refl (match_leading_complete (g' ∷ init) last more tail)

drop-append {ℓ} : {A : Type ℓ} (xs ys : List A) → drop (length xs) (xs ++ ys) ≡ ys
drop-append [] ys = refl
drop-append (x ∷ xs) ys = drop-append xs ys

has_suffix_sound : (s t : Text) → has_suffix s t ≡ true → (r : Text) × (s ≡ r ++ t)
unfolding has_suffix
has_suffix_sound s t h =
    let n = length s - length t in
    let e : drop n s ≡ t = ground (arith, text_eq_iff (drop n s) t) in
    (take n s, sym (take-append-drop n s) ∙ ap (◌++◌ (take n s)) e)

has_suffix_append : (r t : Text) → has_suffix (r ++ t) t ≡ true
unfolding has_suffix
has_suffix_append r t =
    let e : length (r ++ t) - length t ≡ length r = omega (arith, length-append r t) in
    rw (e, drop-append r t, text_eq_refl t) (ground (arith, length-append r t))

-- A wildcard scope "*.d" covers the text "*.d" itself and every domain that ends in ".d", and no
-- other: in particular not d.
pub domain_covers-wildcard :
    (d requested : Text)
    → (domain_covers requested (codes "*." ++ d) ≡ true)
      ↔ ((requested ≡ codes "*." ++ d) ⊎ ((s : Text) × (requested ≡ s ++ (codes "." ++ d))))
unfolding domain_covers trim_prefix has_prefix
domain_covers-wildcard d requested = (sound, complete)
  where
    differs : (s : Text) → text_eq (s ++ (codes "." ++ d)) d ≡ false
    differs s = elim (Bool-cases (text_eq (s ++ (codes "." ++ d)) d)) [
      | inl e ↦
          let same = (text_eq_iff (s ++ (codes "." ++ d)) d).0 e in
          absurd (omega (arith, ap length same, length-append s (codes "." ++ d)))
      | inr e ↦ e
    ]

    sound :
        domain_covers requested (codes "*." ++ d) ≡ true
        → (requested ≡ codes "*." ++ d) ⊎ ((s : Text) × (requested ≡ s ++ (codes "." ++ d)))
    sound h = elim (Bool-cases (text_eq requested (codes "*." ++ d))) [
      | inl e ↦ inl ((text_eq_iff requested (codes "*." ++ d)).0 e)
      | inr e ↦ inr (has_suffix_sound requested (codes "." ++ d) (ground (arith, e)))
    ]

    complete :
        (requested ≡ codes "*." ++ d) ⊎ ((s : Text) × (requested ≡ s ++ (codes "." ++ d)))
        → domain_covers requested (codes "*." ++ d) ≡ true
    complete (inl e) = rw (e, text_eq_refl (codes "*." ++ d)) refl
    complete (inr (s, e)) = rw (e, has_suffix_append s (codes "." ++ d), differs s) (ground arith)

texts_eq_sound : (ss ts : List Text) → texts_eq ss ts ≡ true → ss ≡ ts
unfolding texts_eq
texts_eq_sound [] [] h = refl
texts_eq_sound [] (t ∷ ts) h = absurd (cc)
texts_eq_sound (s ∷ ss) [] h = absurd (cc)
texts_eq_sound (s ∷ ss) (t ∷ ts) h =
    let e : s ≡ t = ground (arith, text_eq_iff s t) in
    rw (e, texts_eq_sound ss ts (ground arith)) refl

Leads-self : (g : Text) (gs : List Text) → Leads (g ∷ gs) (g ∷ gs)
Leads-self g [] = Leads-first g g [] [] (sym (append-nil g))
Leads-self g (g' ∷ gs) =
    let (init, last, more, tail, k, l) = Leads-self g' gs in
    (g ∷ init, last, more, tail, ap (◌∷◌ g) k, ap (◌∷◌ g) l)

args_match_prefix_sound : (gs rs : List Text) → args_match_prefix gs rs ≡ true → Leads gs rs
unfolding args_match_prefix
args_match_prefix_sound gs rs h = match_leading_sound gs rs (ground arith)

args_match_prefix_complete : (gs rs : List Text) → Leads gs rs → args_match_prefix gs rs ≡ true
unfolding args_match_prefix
args_match_prefix_complete gs rs (init, last, more, tail, k, l) =
    rw (k, l, match_leading_complete init last more tail)
      (ground (arith, length-append init (last ∷ []), length-append init ((last ++ more) ∷ tail)))

command_matches :
    (c rc : Text)
    → (not (is_nil c) && not (text_eq c (trim_space rc))) ≡ false
    → (c ≡ []) ⊎ (c ≡ trim_space rc)
command_matches [] rc h = inl refl
command_matches (x ∷ c) rc h = inr (ground (arith, text_eq_iff (x ∷ c) (trim_space rc)))

command_covers :
    (c rc : Text)
    → (c ≡ []) ⊎ (c ≡ trim_space rc)
    → (not (is_nil c) && not (text_eq c (trim_space rc))) ≡ false
command_covers c rc (inl e) = rw e refl
command_covers c rc (inr e) = rw (sym e, text_eq_refl c) (ground arith)

-- A grant covers a command if it names none, or the trimmed command of the request; and either it
-- has no arguments, or the request repeats all of them but the last, which it may extend by any
-- text, and goes on with any arguments.
pub command_args_match_iff :
    (c : Text) (gs : List Text) (rc : Text) (rs : List Text)
    → (command_args_match c gs rc rs ≡ true)
      ↔ (((c ≡ []) ⊎ (c ≡ trim_space rc)) × ((gs ≡ []) ⊎ Leads gs rs))
unfolding command_args_match
command_args_match_iff c gs rc rs = (
  λ h. (command_matches c rc (ground arith), sound gs (ground arith)),
  λ p. rw (command_covers c rc p.0) (complete gs p.1),
)
  where
    sound :
        (gs : List Text)
        → (if is_nil gs then true else if texts_eq gs rs then true else args_match_prefix gs rs)
          ≡ true
        → (gs ≡ []) ⊎ Leads gs rs
    sound [] h = inl refl
    sound (g ∷ gs) h = elim (Bool-cases (texts_eq (g ∷ gs) rs)) [
      | inl e ↦ inr (subst (Leads (g ∷ gs)) (texts_eq_sound (g ∷ gs) rs e) (Leads-self g gs))
      | inr e ↦ inr (args_match_prefix_sound (g ∷ gs) rs (ground (arith, e)))
    ]

    complete :
        (gs : List Text)
        → (gs ≡ []) ⊎ Leads gs rs
        → (if is_nil gs then true else if texts_eq gs rs then true else args_match_prefix gs rs)
          ≡ true
    complete [] h = refl
    complete (g ∷ gs) (inl e) = absurd (cc)
    complete (g ∷ gs) (inr l) = rw (args_match_prefix_complete (g ∷ gs) rs l) (ground arith)
