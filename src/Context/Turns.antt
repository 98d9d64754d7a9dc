-- ===== src/Context/Turns.antt =====
-- The pass L3 of `Pack`, and what `Pack` keeps (internal/contextpack/pack.go).
use auto_ze_agent.Common.{
  Bool-cases, List, Option-cases, Text, [], ap, append_assoc, arith, false, if◌then◌else◌, inl, inr,
  is_nil, leb, leb→le, length, length-append, ltb, ltb_ℤ, none, pos, pos_part, refl, some, subst,
  suc, sym, zero, ℕ, ◌++◌, ◌+◌, ◌<◌, ◌∙◌, ◌∷◌, ◌≡◌, ◌≤◌, ◌⊎◌,
}
use auto_ze_agent.Context.Message.{Message, is_user}
use auto_ze_agent.Context.Estimate.{estimate_messages}
use auto_ze_agent.Context.Repair.{repair_tool_messages}
use auto_ze_agent.Context.Pack.{
  PackOptions, positive_or, trim_bodies, clear_old_tool_results, system_run, after_system,
  from_user, count_users, drop_turn, drop_oldest_turn, drop_loop, pack,
}
use auto_ze_agent.Context.Passes.{trim_bodies-SameFrames, clear-SameFrames}
use auto_ze_agent.Context.Users.{users, users-append, users-SameFrames, users-repair_tool_messages}

users-system_run : (ms : List Message) → users (system_run ms) ≡ []
unfolding users system_run
users-system_run [] = refl
users-system_run (m ∷ ms) = ground (arith, users-system_run ms)

pub system_run-after_system : (ms : List Message) → system_run ms ++ after_system ms ≡ ms
unfolding system_run after_system
system_run-after_system [] = refl
system_run-after_system (m ∷ ms) = ground (arith, system_run-after_system ms)

users-after_system : (ms : List Message) → users (after_system ms) ≡ users ms
users-after_system ms =
    rw (users-system_run ms) at
      (sym (users-append (system_run ms) (after_system ms)) ∙ ap users (system_run-after_system ms))

users-from_user : (ms : List Message) → users (from_user ms) ≡ users ms
unfolding users from_user
users-from_user [] = refl
users-from_user (m ∷ ms) = ground (arith, users-from_user ms)

length-from_user : (ms : List Message) → length (from_user ms) ≤ length ms
unfolding from_user
length-from_user [] = omega arith
length-from_user (m ∷ ms) = ground (arith, length-from_user ms)

count_users-users : (ms : List Message) → count_users ms ≡ length (users ms)
unfolding count_users users
count_users-users [] = refl
count_users-users (m ∷ ms) = ground (arith, count_users-users ms)

-- `rest` is shorter than `ms` and keeps its user messages but for the oldest ones, never losing all.
pub record Dropped (ms rest : List Message) : Type 0 where
  pub gone : List Message
  pub users_kept : users ms ≡ gone ++ users rest
  pub some_kept : is_nil (users ms) ≡ is_nil (users rest)
  pub shorter : length rest ≤ length ms

drop_turn-Dropped :
    (ms rest : List Message)
    → drop_turn ms ≡ some rest
    → Dropped ms rest × (length rest < length ms)
unfolding drop_turn users
drop_turn-Dropped [] rest h = absurd (cc)
drop_turn-Dropped (m ∷ ms) rest h = elim (Bool-cases (is_user m.role)) [
  | inl e ↦
      let u : rest ≡ from_user ms = ground (arith, e) in
      (
        record {
          gone = m ∷ [];
          users_kept = rw (e, u) (ap (◌∷◌ m) (sym (users-from_user ms)));
          some_kept = rw (e, u) (some_user (rw e at h));
          shorter = rw u (omega (arith, length-from_user ms));
        },
        rw u (omega (arith, length-from_user ms)),
      )
  | inr e ↦
      let u : rest ≡ ms = ground (arith, e) in
      (
        record {
          gone = [];
          users_kept = rw (e, u) refl;
          some_kept = rw (e, u) refl;
          shorter = rw u (omega arith);
        },
        rw u (omega arith),
      )
]
  where
    some_user :
        (if ltb (count_users (from_user ms)) 1 then none else some (from_user ms)) ≡ some rest
        → false ≡ is_nil (users (from_user ms))
    some_user k = ground (arith, count_users-users (from_user ms))

users-behind_system : (ms left : List Message) → users (system_run ms ++ left) ≡ users left
users-behind_system ms left =
    users-append (system_run ms) left ∙ ap (λ us. us ++ users left) (users-system_run ms)

length-system_run :
    (ms : List Message) → length (system_run ms) + length (after_system ms) ≡ length ms
length-system_run ms =
    sym (length-append (system_run ms) (after_system ms)) ∙ ap length (system_run-after_system ms)

behind_system-Dropped :
    (ms left : List Message)
    → Dropped (after_system ms) left × (length left < length (after_system ms))
    → Dropped ms (system_run ms ++ left) × (length (system_run ms ++ left) < length ms)
behind_system-Dropped ms left (d, l) =
    let n = length-append (system_run ms) left in
    let u = users-behind_system ms left in
    (
      record {
        gone = d.gone;
        users_kept = sym (users-after_system ms) ∙ d.users_kept ∙ ap (◌++◌ d.gone) (sym u);
        some_kept = ap is_nil (sym (users-after_system ms)) ∙ d.some_kept ∙ ap is_nil (sym u);
        shorter = omega (arith, n, length-system_run ms);
      },
      omega (arith, n, length-system_run ms),
    )

-- A drop shortens the list, keeps the user messages but for the oldest ones, and never loses all
-- of them.
drop-Dropped :
    (ms rest : List Message)
    → drop_oldest_turn ms ≡ some rest
    → Dropped ms rest × (length rest < length ms)
unfolding drop_oldest_turn
drop-Dropped ms rest h = elim (Option-cases (drop_turn (after_system ms))) [
  | inl e ↦ absurd (ground (arith, e))
  | inr (left, e) ↦
      subst (λ r. Dropped ms r × (length r < length ms)) (ground (arith, e))
        (behind_system-Dropped ms left (drop_turn-Dropped (after_system ms) left e))
]

Dropped-refl : (ms : List Message) → Dropped ms ms
Dropped-refl ms = record { gone = []; users_kept = refl; some_kept = refl; shorter = omega arith }

Dropped-trans : (xs ys zs : List Message) → Dropped xs ys → Dropped ys zs → Dropped xs zs
Dropped-trans xs ys zs d e = record {
  gone = d.gone ++ e.gone;
  users_kept =
      d.users_kept ∙ ap (◌++◌ d.gone) e.users_kept ∙ sym (append_assoc d.gone e.gone (users zs));
  some_kept = d.some_kept ∙ e.some_kept;
  shorter = omega (arith, d.shorter, e.shorter);
}

-- What the loop leaves: the list, with enough fuel within budget or with nothing left to drop.
record Settled (fuel budget : ℕ) (ms out : List Message) : Type 0 where
  dropped : Dropped ms out
  settled : length ms < fuel → (estimate_messages out ≤ budget) ⊎ (drop_oldest_turn out ≡ none)

drop_loop-Settled :
    (fuel budget : ℕ) (ms : List Message) → Settled fuel budget ms (drop_loop fuel budget ms).0
unfolding drop_loop
drop_loop-Settled zero budget ms = record {
  dropped = Dropped-refl ms;
  settled = λ l. absurd (omega arith);
}
drop_loop-Settled (suc fuel) budget ms = elim (Bool-cases (leb (estimate_messages ms) budget)) [
  | inl e ↦ rw e (record { dropped = Dropped-refl ms; settled = λ l. inl (leb→le _ _ e) })
  | inr e ↦ rw e (elim (Option-cases (drop_oldest_turn ms)) [
    | inl f ↦ rw f (record { dropped = Dropped-refl ms; settled = λ l. inr f })
    | inr (rest, f) ↦
        rw f (after rest (drop-Dropped ms rest f) (drop_loop-Settled fuel budget rest))
  ])
]
  where
    after :
        (rest : List Message)
        → Dropped ms rest × (length rest < length ms)
        → Settled fuel budget rest (drop_loop fuel budget rest).0
        → Settled (suc fuel) budget ms (drop_loop fuel budget rest).0
    after rest (d, l) s = record {
      dropped = Dropped-trans ms rest (drop_loop fuel budget rest).0 d s.dropped;
      settled = λ k. s.settled (omega arith);
    }

module _ (quote : Text → Text) (messages : List Message) (opt : PackOptions) where
  trimmed : List Message
  trimmed =
      (trim_bodies (positive_or opt.max_tool_result_runes 32768)
        (repair_tool_messages quote messages)).0

  cleared : List Message
  cleared =
      (clear_old_tool_results (positive_or opt.tool_protect_tokens 40000)
        (positive_or opt.tool_reclaim_min 20000) trimmed).0

  users-trimmed : users trimmed ≡ users messages
  unfolding trimmed
  users-trimmed =
      users-SameFrames _ _ (
        trim_bodies-SameFrames (positive_or opt.max_tool_result_runes 32768)
          (repair_tool_messages quote messages))
      ∙ users-repair_tool_messages quote messages

  users-cleared : users cleared ≡ users messages
  unfolding cleared
  users-cleared =
      users-SameFrames _ _ (
        clear-SameFrames (positive_or opt.tool_protect_tokens 40000)
          (positive_or opt.tool_reclaim_min 20000) trimmed)
      ∙ users-trimmed

  -- The user messages of the packed view are the newest ones of the input, unchanged and in order,
  -- and at least one of them if there was any.
  pub pack-users :
      (gone : List Message) × (users messages ≡ gone ++ users (pack quote messages opt).messages)
      × (is_nil (users messages) ≡ is_nil (users (pack quote messages opt).messages))
  unfolding pack cleared trimmed
  pack-users = elim (Bool-cases (ltb_ℤ (pos 0) opt.budget)) [
    | inl e ↦
        let s = drop_loop-Settled (length cleared + 1) (pos_part opt.budget) cleared in
        (
          s.dropped.gone,
          rw e (sym users-cleared ∙ s.dropped.users_kept),
          rw e (ap is_nil (sym users-cleared) ∙ s.dropped.some_kept),
        )
    | inr e ↦ ([], rw e (sym users-trimmed), rw e (ap is_nil (sym users-trimmed)))
  ]
