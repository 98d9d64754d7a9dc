-- ===== src/Permission/Trust.antt =====
-- internal/toolpermission/trust.go: the entries of permanent trust. A nil store is left out.
use auto_ze_agent.Common.{
  ap, sym, Bool, Bool-cases, List, Text, [], any, arith, codes, false, has_prefix, has_prefix_sound,
  has_prefix_append, if◌then◌else◌, inl, inr, is_nil, refl, subst, text_eq, text_eq_iff,
  text_eq_refl, trim_space, true, ◌&&◌, ◌++◌, ◌==◌, ◌||◌, ◌↔◌, ◌∷◌, ◌≡◌, ◌⊎◌,
}

pub record TrustEntry : Type 0 where
  pub capability : Text
  pub path_prefix : Text
  pub command : Text
  pub args_prefix : List Text
  pub created_at : Text
  pub session_hint : Text

-- `strings.TrimRight(s, "/")`.
unfoldable pub trim_slashes : Text → Text
trim_slashes [] = []
trim_slashes (c ∷ s) =
    let rest = trim_slashes s in if is_nil rest && (c == 47) then [] else c ∷ rest

-- The path is the root or stands below it.
unfoldable pub is_under : Text → Text → Bool
is_under path root = text_eq path root || has_prefix path (trim_slashes root ++ codes "/")

unfoldable pub args_has_prefix : List Text → List Text → Bool
args_has_prefix args [] = true
args_has_prefix [] (_ ∷ _) = false
args_has_prefix (a ∷ args) (p ∷ prefix) = text_eq a p && args_has_prefix args prefix

-- One round of the loop of `Match`; the texts are trimmed.
unfoldable pub entry_matches : Text → Text → Text → List Text → TrustEntry → Bool
entry_matches capability path command args e =
    text_eq (trim_space e.capability) capability
    && ((is_nil (trim_space e.path_prefix) || is_under path (trim_space e.path_prefix))
        && (is_nil (trim_space e.command)
            || (text_eq command (trim_space e.command) && args_has_prefix args e.args_prefix)))

-- `Match`.
unfoldable pub trusts : Text → Text → Text → List Text → List TrustEntry → Bool
trusts capability path command args entries =
    any (entry_matches (trim_space capability) (trim_space path) (trim_space command) args) entries

-- The path is the root or has more names behind it.
abbrev pub IsUnder : Text → Text → Type 0
IsUnder path root = (path ≡ root) ⊎ ((r : Text) × (path ≡ (trim_slashes root ++ codes "/") ++ r))

-- What an entry says of a call.
abbrev pub Trusts : Text → Text → Text → List Text → TrustEntry → Type 0
Trusts capability path command args e =
    (trim_space e.capability ≡ trim_space capability)
    × (((trim_space e.path_prefix ≡ []) ⊎ IsUnder (trim_space path) (trim_space e.path_prefix))
        × ((trim_space e.command ≡ [])
            ⊎ ((trim_space command ≡ trim_space e.command)
                × ((r : List Text) × (args ≡ e.args_prefix ++ r)))))

args_has_prefix_sound :
    (args prefix : List Text)
    → args_has_prefix args prefix ≡ true
    → (r : List Text) × (args ≡ prefix ++ r)
unfolding args_has_prefix
args_has_prefix_sound args [] h = (args, refl)
args_has_prefix_sound [] (p ∷ prefix) h = absurd (cc)
args_has_prefix_sound (a ∷ args) (p ∷ prefix) h =
    let (r, e) = args_has_prefix_sound args prefix (ground (arith, h)) in
    let s = (text_eq_iff a p).0 (ground (arith, h)) in (r, rw (s, e) refl)

args_has_prefix_append : (prefix r : List Text) → args_has_prefix (prefix ++ r) prefix ≡ true
unfolding args_has_prefix
args_has_prefix_append [] r = refl
args_has_prefix_append (p ∷ prefix) r = rw (text_eq_refl p, args_has_prefix_append prefix r) refl

is_under_iff : (path root : Text) → (is_under path root ≡ true) ↔ IsUnder path root
unfolding is_under
is_under_iff path root = (there, back)
  where
    there : is_under path root ≡ true → IsUnder path root
    there h = elim (Bool-cases (text_eq path root)) [
      | inl e ↦ inl ((text_eq_iff path root).0 e)
      | inr e ↦ inr (has_prefix_sound path _ (ground (arith, h, e)))
    ]

    back : IsUnder path root → is_under path root ≡ true
    back (inl e) = rw ((text_eq_iff path root).1 e) refl
    back (inr (r, e)) =
        let p : has_prefix path (trim_slashes root ++ codes "/") ≡ true =
          rw e (has_prefix_append (trim_slashes root ++ codes "/") r) in
        ground (arith, p)

is_nil_iff : (s : Text) → (is_nil s ≡ true) ↔ (s ≡ [])
is_nil_iff [] = (λ h. refl, λ h. refl)
is_nil_iff (c ∷ s) = (λ h. absurd (cc), λ h. absurd (cc))

or_iff : {A B : Type 0} (a b : Bool) → (a ≡ true) ↔ A → (b ≡ true) ↔ B → ((a || b) ≡ true) ↔ (A ⊎ B)
or_iff true b f g = (λ h. inl (f.0 refl), λ h. refl)
or_iff false b f g =
    (λ h. inr (g.0 h), λ s. elim s [ inl x ↦ absurd (false_not_true (f.1 x)) | inr y ↦ g.1 y ])
  where
    false_not_true : false ≡ true → ⊥
    false_not_true e = absurd (cc)

and_iff :
    {A B : Type 0} (a b : Bool) → (a ≡ true) ↔ A → (b ≡ true) ↔ B → ((a && b) ≡ true) ↔ (A × B)
and_iff true b f g = (λ h. (f.0 refl, g.0 h), λ (x, y). g.1 y)
and_iff false b f g = (λ h. absurd (cc), λ (x, y). f.1 x)

args_has_prefix_iff :
    (args prefix : List Text)
    → (args_has_prefix args prefix ≡ true) ↔ ((r : List Text) × (args ≡ prefix ++ r))
args_has_prefix_iff args prefix = (
  args_has_prefix_sound args prefix,
  λ (r, e). subst (λ a. args_has_prefix a prefix ≡ true) (sym e) (args_has_prefix_append prefix r),
)

entry_matches_iff :
    (capability path command : Text) (args : List Text) (e : TrustEntry)
    → (entry_matches (trim_space capability) (trim_space path) (trim_space command) args e ≡ true)
      ↔ Trusts capability path command args e
unfolding entry_matches
entry_matches_iff capability path command args e = and_iff _ _ (text_eq_iff _ _) (
    and_iff _ _ (or_iff _ _ (is_nil_iff _) (is_under_iff _ _)) (
      or_iff _ _ (is_nil_iff _)
        (and_iff _ _ (text_eq_iff _ _) (args_has_prefix_iff args e.args_prefix))))

-- A call is trusted just where one of the entries allows it: the capability is the same; where the
-- entry has a path prefix, the path is that path or stands below it; and where it has a command, the
-- command is the same and the arguments begin with those of the entry.
pub trusts_iff :
    (capability path command : Text) (args : List Text) (entries : List TrustEntry)
    → (trusts capability path command args entries ≡ true) ↔ (
        (e : TrustEntry) × (front : List TrustEntry) × (back : List TrustEntry) × (entries
          ≡ front ++ e ∷ back)
        × Trusts capability path command args e)
unfolding trusts
trusts_iff capability path command args entries = (there entries, back entries)
  where
    Found : List TrustEntry → Type 0
    Found es =
        (e : TrustEntry) × (front : List TrustEntry) × (back : List TrustEntry) × (es
          ≡ front ++ e ∷ back)
        × Trusts capability path command args e

    test : TrustEntry → Bool
    test e = entry_matches (trim_space capability) (trim_space path) (trim_space command) args e

    there : (es : List TrustEntry) → any test es ≡ true → Found es
    there [] h = absurd (cc)
    there (e ∷ es) h = elim (Bool-cases (test e)) [
      | inl m ↦ (e, [], es, refl, (entry_matches_iff capability path command args e).0 m)
      | inr m ↦
          let (d, front, back, s, t) = there es (ground (arith, h, m)) in
          (d, e ∷ front, back, ap (◌∷◌ e) s, t)
    ]

    found :
        (e : TrustEntry) (front rest : List TrustEntry)
        → test e ≡ true
        → any test (front ++ e ∷ rest) ≡ true
    found e [] rest h = rw h refl
    found e (d ∷ front) rest h = ground (arith, found e front rest h)

    back : (es : List TrustEntry) → Found es → any test es ≡ true
    back es (e, front, rest, s, t) =
        subst (λ l. any test l ≡ true) (sym s)
          (found e front rest ((entry_matches_iff capability path command args e).1 t))
