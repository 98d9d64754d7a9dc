-- ===== src/Context/Users.antt =====
-- The user messages of a view under the repair and the passes L1 and L2
-- (internal/contextpack/repair.go, internal/contextpack/pack.go).
use auto_ze_agent.Common.{
  Bool-cases, List, Option-cases, Text, [], ap, arith, if◌then◌else◌, inl, inr, refl, sym, ◌++◌,
  ◌∙◌, ◌∷◌, ◌≡◌,
}
use auto_ze_agent.Context.Message.{
  Role, system, user, assistant, tool, other, ToolCall, Message, is_user,
}
use auto_ze_agent.Context.Repair.{
  Pending, State, lookup, delete, synthetic, flush_missing, flushed, keep_result, repair_role,
  repair_from, repair_tool_messages,
}
use auto_ze_agent.Context.Passes.{SameFrames}

-- The user messages of a view, in their order.
unfoldable pub users : List Message → List Message
users [] = []
users (m ∷ ms) = let rest = users ms in if is_user m.role then m ∷ rest else rest

pub users-append : (xs ys : List Message) → users (xs ++ ys) ≡ users xs ++ users ys
unfolding users
users-append [] ys = refl
users-append (x ∷ xs) ys = ground (arith, users-append xs ys)

pub users-SameFrames : (ms ns : List Message) → SameFrames ms ns → users ns ≡ users ms
unfolding users
users-SameFrames [] [] h = refl
users-SameFrames [] (n ∷ ns) h = absurd h
users-SameFrames (m ∷ ms) [] h = absurd h
users-SameFrames (m ∷ ms) (n ∷ ns) h = elim (Bool-cases (is_user m.role)) [
  | inl e ↦ rw (h.0.same_user e) (rw e (ap (◌∷◌ m) (users-SameFrames ms ns h.1)))
  | inr e ↦ rw (ap is_user h.0.same_role ∙ e, e) (users-SameFrames ms ns h.1)
]

module _ (quote : Text → Text) where
  users-synthetic :
      (id : Text) (tc : ToolCall) (ms : List Message)
      → users (synthetic quote id tc ∷ ms) ≡ users ms
  unfolding users synthetic
  users-synthetic id tc ms = refl

  users-flush : (ids : List Text) (p : Pending) → users (flush_missing quote ids p).0 ≡ []
  unfolding flush_missing
  users-flush [] p = unfold users in refl
  users-flush (id ∷ ids) p = elim (Option-cases (lookup id p)) [
    | inl e ↦ rw (e, flush_missing) (users-flush ids p)
    | inr (tc, e) ↦
        rw (e, flush_missing)
          (users-synthetic id tc (flush_missing quote ids (delete id p)).0
            ∙ users-flush ids (delete id p))
  ]

  users-flushed : (s : State) (m : Message) → users (flushed quote s (m ∷ [])).1 ≡ users (m ∷ [])
  unfolding flushed
  users-flushed s m =
      users-append (flush_missing quote s.order s.pending).0 (m ∷ [])
      ∙ rw (users-flush s.order s.pending) refl

  users-role :
      (r : Role) (s : State) (m : Message)
      → m.role ≡ r
      → users (repair_role quote r s m).1 ≡ users (m ∷ [])
  unfolding repair_role
  users-role user s m e = users-flushed s m
  users-role system s m e = users-flushed s m
  users-role assistant s m e = users-flushed s m
  users-role tool s m e = unfold users keep_result in ground (arith, e)
  users-role (other r) s m e = refl

  users-repair_from : (ms : List Message) (s : State) → users (repair_from quote s ms) ≡ users ms
  unfolding repair_from users
  users-repair_from [] s = users-flush s.order s.pending
  users-repair_from (m ∷ ms) s =
      let r = repair_role quote m.role s m in
      users-append r.1 (repair_from quote r.0 ms)
      ∙ rw (users-role m.role s m refl, users-repair_from ms r.0) (sym (users-append (m ∷ []) ms))

  -- The repair keeps all user messages, in their order, and adds none.
  pub users-repair_tool_messages :
      (ms : List Message) → users (repair_tool_messages quote ms) ≡ users ms
  unfolding repair_tool_messages
  users-repair_tool_messages ms = users-repair_from ms (record { pending = []; order = [] })
