-- ===== src/Approval/Normal.antt =====
-- internal/approval/plan.go: normal forms of text lists and capability scopes. `path.Clean` and
-- `strings.ToLower` are parameters. A Go string compares by its bytes, which for UTF-8 is the order
-- of the code points.
use auto_ze_agent.Common.{
  Bool, List, Option, Text, [], any, codes, false, has_prefix, if◌then◌else◌, is_nil, keep_if,
  leb_ℤ, ltb, map, none, not, pos, some, text_eq, trim_space, true, ℕ, ◌&&◌, ◌==◌, ◌||◌, ◌∷◌,
}
use auto_ze_agent.Approval.Match.{CapabilityScope, trim_suffix}

unfoldable pub text_ltb : Text → Text → Bool
text_ltb s [] = false
text_ltb [] (d ∷ t) = true
text_ltb (c ∷ s) (d ∷ t) = ltb c d || ((c == d) && text_ltb s t)

-- `sort.Strings`: equal strings cannot be told apart, so the result is that of any sort.
unfoldable pub insert_text : Text → List Text → List Text
insert_text s [] = s ∷ []
insert_text s (t ∷ ts) =
    let rest = insert_text s ts in if text_ltb t s then t ∷ rest else s ∷ t ∷ ts

unfoldable pub sort_texts : List Text → List Text
sort_texts [] = []
sort_texts (s ∷ ss) = insert_text s (sort_texts ss)

-- The loop of `sortedUnique`, after the value that the result ends with.
unfoldable pub drop_repeats : Text → List Text → List Text
drop_repeats last [] = []
drop_repeats last (v ∷ vs) =
    let same = drop_repeats last vs in
    let new = drop_repeats v vs in if text_eq v last then same else v ∷ new

unfoldable pub unique_texts : List Text → List Text
unique_texts [] = []
unique_texts (v ∷ vs) = v ∷ drop_repeats v vs

unfoldable pub sorted_unique : List Text → List Text
sorted_unique values = unique_texts (sort_texts values)

abbrev slash : ℕ → ℕ
slash c = if c == b'\\' then b'/' else c

-- The second byte of a string is ':' only behind an ASCII code point.
unfoldable pub is_drive_path : Text → Bool
is_drive_path (c ∷ colon ∷ d ∷ s) = ltb c 128 && ((colon == b':') && ((d == b'/') || (d == b'\\')))
is_drive_path _ = false

unfoldable pub is_absolute_capability_path : Text → Bool
is_absolute_capability_path value =
    let v = trim_space value in
    if is_nil v then false else if has_prefix v (codes "/") then true else is_drive_path v

-- The tests of `normalizeCapability` on the normal form.
unfoldable pub valid_calls : CapabilityScope → Bool
valid_calls s =
    if s.one_time then not ((s.max_calls == 0) || ltb 1 s.max_calls) else not (s.max_calls == 0)

unfoldable pub valid_paths : CapabilityScope → Bool
valid_paths s = not (is_nil s.paths) && not (any (λ p. not (is_absolute_capability_path p)) s.paths)

unfoldable pub needs_paths : Text → Bool
needs_paths capability =
    text_eq capability (codes "process_exec")
    || (text_eq capability (codes "process_shell") || has_prefix capability (codes "git_"))

unfoldable pub valid_capability : CapabilityScope → Bool
valid_capability s =
    if is_nil s.capability
    then false
    else if leb_ℤ s.max_duration_ms (pos 0)
    then false
    else if not (valid_calls s)
    then false
    else if needs_paths s.capability
    then valid_paths s
    else true

module _ (clean lower : Text → Text) where
  unfoldable pub normalize_paths : List Text → List Text
  normalize_paths values =
      sorted_unique
        (map clean (keep_if (λ v. not (is_nil v)) (map (λ v. trim_space (map slash v)) values)))

  unfoldable pub normalize_domains : List Text → List Text
  normalize_domains values = sorted_unique (
      keep_if (λ v. not (is_nil v))
        (map (λ v. lower (trim_suffix (trim_space v) (codes "."))) values))

  unfoldable pub normal_scope : CapabilityScope → CapabilityScope
  normal_scope s = record s {
    capability = trim_space s.capability;
    paths = normalize_paths s.paths;
    command = trim_space s.command;
    network_domains = normalize_domains s.network_domains;
  }

  -- `none` is the error `ErrInvalidPlan`.
  unfoldable pub normalize_capability : CapabilityScope → Option CapabilityScope
  normalize_capability s = if valid_capability (normal_scope s) then some (normal_scope s) else none
