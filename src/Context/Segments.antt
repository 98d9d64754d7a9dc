-- ===== src/Context/Segments.antt =====
-- What the segments of a view keep (internal/contextpack/view.go).
use auto_ze_agent.Common.{
  All, Bool-cases, List, Option, Text, [], ap, append-nil, append_assoc, arith, drop, false, inl,
  inr, is_nil, keep_if, keep_if-append, keep_if_outside, keep_if_within, length, none, pos_part,
  refl, some, subst, suc, sym, take, take-append-drop, true, zero, ℕ, ℤ, ◌++◌, ◌∙◌, ◌∷◌, ◌≡◌, ◌≤◌,
}
use auto_ze_agent.Context.Message.{Message, is_system}
use auto_ze_agent.Context.Pack.{
  PackOptions, pack, system_run, after_system, trim_bodies, positive_or,
}
use auto_ze_agent.Context.View.{
  view_messages, BuildInput, summary_messages, build, split_leading_system, is_todo_system,
  is_no_todo, last_user_index, split_before, split_coding_ephemeral, trim_tool_bodies,
}
use auto_ze_agent.Context.Passes.{SameFrames, SameFrame-refl, trim_bodies-SameFrames}
use auto_ze_agent.Context.Users.{users, users-append}
use auto_ze_agent.Context.Turns.{pack-users}

users-summary_messages : (s : Text) → users (summary_messages s) ≡ []
unfolding users summary_messages
users-summary_messages s = ground arith

-- The built view begins with the whole prefix and ends with all ephemeral messages, unchanged; the
-- user messages between them are the newest ones of the history, unchanged, in order, and at least
-- one if there was any.
pub build-messages :
    (quote : Text → Text) (in_ : BuildInput) (opt : PackOptions)
    → (middle : List Message) × (gone : List Message) × (view_messages (build quote in_ opt)
        ≡ in_.prefix ++ (middle ++ in_.ephemeral))
      × (users in_.history ≡ gone ++ users middle)
      × (is_nil (users in_.history) ≡ is_nil (users middle))
unfolding view_messages build
build-messages quote in_ opt =
    let summary = summary_messages in_.summary in
    let kept = (pack quote in_.history opt).messages in
    let (gone, e, n) = pack-users quote in_.history opt in
    let same : users (summary ++ kept) ≡ users kept =
      users-append summary kept
      ∙ ap (λ xs. xs ++ users kept) (users-summary_messages in_.summary) in
    (
      summary ++ kept,
      gone,
      ap (◌++◌ in_.prefix) (sym (append_assoc summary kept in_.ephemeral)),
      rw same e,
      rw same n,
    )

-- The message list does not begin with a system message.
abbrev pub StartsOther : List Message → Type 0
StartsOther [] = ◌≡◌ {A = ℕ} 0 0
StartsOther (m ∷ ms) = is_system m.role ≡ false

-- Prefix and rest make up the messages; the prefix has system messages only, and the rest begins
-- with none.
pub split_leading_system_lem :
    (ms : List Message)
    → ((split_leading_system ms).0 ++ (split_leading_system ms).1 ≡ ms)
      × All (λ m. is_system m.role ≡ true) (split_leading_system ms).0
      × StartsOther (split_leading_system ms).1
unfolding split_leading_system system_run after_system
split_leading_system_lem [] = (refl, tt, refl)
split_leading_system_lem (m ∷ ms) =
    let (e, a, o) = split_leading_system_lem ms in
    elim (Bool-cases (is_system m.role)) [
      | inl s ↦ rw s (ap (◌∷◌ m) e, (s, a), o)
      | inr s ↦ rw s (refl, tt, s)
    ]

todo_flip : (m : Message) → is_no_todo m ≡ true → is_todo_system m ≡ false
todo_flip m h = ground arith

todo_flip_back : (m : Message) → is_todo_system m ≡ true → is_no_todo m ≡ false
todo_flip_back m h = ground arith

kept_others :
    (xs tail : List Message)
    → keep_if is_no_todo (keep_if is_no_todo xs ++ (keep_if is_todo_system xs ++ tail))
      ≡ keep_if is_no_todo (xs ++ tail)
kept_others xs tail =
    rw
      (
        keep_if-append is_no_todo is_no_todo (keep_if is_no_todo xs)
            (keep_if is_todo_system xs ++ tail),
        keep_if-append is_no_todo is_no_todo (keep_if is_todo_system xs) tail,
        keep_if_within is_no_todo is_no_todo xs (λ m h. h),
        keep_if_outside is_no_todo is_todo_system xs todo_flip,
      )
      (sym (keep_if-append is_no_todo is_no_todo xs tail))

kept_todos :
    (xs tail : List Message)
    → keep_if is_todo_system (keep_if is_no_todo xs ++ (keep_if is_todo_system xs ++ tail))
      ≡ keep_if is_todo_system (xs ++ tail)
kept_todos xs tail =
    rw
      (
        keep_if-append is_todo_system is_todo_system (keep_if is_no_todo xs)
            (keep_if is_todo_system xs ++ tail),
        keep_if-append is_todo_system is_todo_system (keep_if is_todo_system xs) tail,
        keep_if_within is_todo_system is_todo_system xs (λ m h. h),
        keep_if_outside is_todo_system is_no_todo xs todo_flip_back,
      )
      (sym (keep_if-append is_todo_system is_todo_system xs tail))

abbrev pub SplitsTodos : List Message → List Message × List Message → Type 0
SplitsTodos rest s =
    (keep_if is_todo_system s.0 ≡ [])
    × (keep_if is_no_todo (s.0 ++ s.1) ≡ keep_if is_no_todo rest)
    × (keep_if is_todo_system (s.0 ++ s.1) ≡ keep_if is_todo_system rest)

split_before-SplitsTodos :
    (i : Option ℕ) (rest : List Message) → SplitsTodos rest (split_before i rest)
unfolding split_before
split_before-SplitsTodos none rest = (
  keep_if_outside is_todo_system is_no_todo rest todo_flip_back,
  subst (λ ts. keep_if is_no_todo (keep_if is_no_todo rest ++ ts) ≡ keep_if is_no_todo rest)
      (append-nil (keep_if is_todo_system rest))
      (kept_others rest [] ∙ ap (keep_if is_no_todo) (append-nil rest)),
  subst (λ ts. keep_if is_todo_system (keep_if is_no_todo rest ++ ts) ≡ keep_if is_todo_system rest)
      (append-nil (keep_if is_todo_system rest))
      (kept_todos rest [] ∙ ap (keep_if is_todo_system) (append-nil rest)),
)
split_before-SplitsTodos (some i) rest = (
  keep_if_outside is_todo_system is_no_todo (take i rest) todo_flip_back,
  kept_others (take i rest) (drop i rest) ∙ ap (keep_if is_no_todo) (take-append-drop i rest),
  kept_todos (take i rest) (drop i rest) ∙ ap (keep_if is_todo_system) (take-append-drop i rest),
)

-- The history holds no todo block; history and ephemeral messages together hold the todo blocks and
-- the other messages, each in their order.
pub split_coding_ephemeral_lem :
    (rest : List Message) → SplitsTodos rest (split_coding_ephemeral rest)
unfolding split_coding_ephemeral
split_coding_ephemeral_lem rest = split_before-SplitsTodos (last_user_index rest) rest

frames_behind :
    (n : ℕ) (ms new : List Message)
    → SameFrames (drop n ms) new
    → n ≤ length ms
    → SameFrames ms (take n ms ++ new) × (take n (take n ms ++ new) ≡ take n ms)
frames_behind zero ms new h k = (h, refl)
frames_behind (suc n) [] new h k = absurd (omega arith)
frames_behind (suc n) (m ∷ ms) new h k =
    let (f, e) = frames_behind n ms new h (omega arith) in ((SameFrame-refl m, f), ap (◌∷◌ m) e)

-- From a start within the view, only bodies from there on are trimmed, of no user message, and every
-- message stays in its place.
pub trim_tool_bodies_lem :
    (ms : List Message) (start max_runes : ℤ)
    → pos_part start ≤ length ms
    → SameFrames ms (trim_tool_bodies ms start max_runes).0
      × (take (pos_part start) (trim_tool_bodies ms start max_runes).0 ≡ take (pos_part start) ms)
unfolding trim_tool_bodies
trim_tool_bodies_lem ms start max_runes h =
    let s = pos_part start in
    frames_behind s ms (trim_bodies (positive_or max_runes 32768) (drop s ms)).0
      (trim_bodies-SameFrames (positive_or max_runes 32768) (drop s ms)) h
