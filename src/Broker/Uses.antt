-- ===== src/Broker/Uses.antt =====
-- How many calls begin under one grant (internal/tools/broker.go).
use auto_ze_agent.Common.{
  Bool, Bool-cases, List, Text, [], arith, false, if◌then◌else◌, inl, inr, is_blank, none, refl,
  some, text_eq, trim_left, trim_right, trim_space, update_rows, ℕ, ◌+◌, ◌++◌, ◌∷◌, ◌≡◌, ◌≤◌,
}
use auto_ze_agent.Kernel.Base.{Time}
use auto_ze_agent.Approval.Grant.{find_grant}
use auto_ze_agent.Approval.Ops.{run_op, calls_used, calls_max}
use auto_ze_agent.Approval.Progress.{Progress, Progress-refl, Progress-trans}
use auto_ze_agent.Approval.History.{Consumed-Progress, run_op-Progress}
use auto_ze_agent.Broker.Requests.{Request}
use auto_ze_agent.Broker.Calls.{ToolCall, World, new_call, ended}
use auto_ze_agent.Broker.Execute.{Broker, Surroundings}
use auto_ze_agent.Broker.Begins.{Begins, with_grant}
use auto_ze_agent.Broker.Steps.{Step, run_step, run_steps}
use auto_ze_agent.Broker.Moves.{
  Move, stays, begins, updates, grants_move, plans_move, run_step-Move,
}

abbrev pub counts_under : Text → ToolCall → Bool
counts_under id c = elim c.grant_id [ none ↦ false | some g ↦ text_eq g id ]

-- The number of calls that began under a grant.
unfoldable pub count_under : Text → List ToolCall → ℕ
count_under id [] = 0
count_under id (c ∷ cs) = (if counts_under id c then 1 else 0) + count_under id cs

module _ (id : Text) where
  count_under-append :
      (cs ds : List ToolCall) → count_under id (cs ++ ds) ≡ count_under id cs + count_under id ds
  unfolding count_under
  count_under-append [] ds = omega arith
  count_under-append (c ∷ cs) ds = omega (arith, count_under-append cs ds)

  count_under-update_rows :
      (p : ToolCall → Bool) (f : ToolCall → ToolCall) (cs : List ToolCall)
      → ((c : ToolCall) → (f c).grant_id ≡ c.grant_id)
      → count_under id (update_rows p f cs).0 ≡ count_under id cs
  unfolding count_under update_rows
  count_under-update_rows p f [] keeps = refl
  count_under-update_rows p f (c ∷ cs) keeps = elim (Bool-cases (p c)) [
    | inl e ↦ rw (e, keeps c, count_under-update_rows p f cs keeps) refl
    | inr e ↦ rw (e, count_under-update_rows p f cs keeps) refl
  ]

  -- Between two states, the grant was used at least as often as calls began under it.
  abbrev Spent : World → World → Type 0
  Spent w w' =
      (n : ℕ) × Progress (find_grant id w.grants) (find_grant id w'.grants) n
      × (count_under id w'.calls ≤ count_under id w.calls + n)

  Spent-refl : (w : World) → Spent w w
  Spent-refl w = (0, Progress-refl (find_grant id w.grants), omega arith)

  Spent-trans : (u v w : World) → Spent u v → Spent v w → Spent u w
  Spent-trans u v w (m, p, l) (n, q, k) = (m + n, Progress-trans _ _ _ p q, omega (arith, l, k))

  begun_under :
      (r : Request) (g : Text) (started_at : Time) (calls : List ToolCall)
      → count_under id (calls ++ new_call (with_grant g r) started_at ∷ [])
        ≤ count_under id calls + (if text_eq g id then 1 else 0)
  unfolding count_under
  begun_under r g started_at calls =
      rw (count_under-append calls (new_call (with_grant g r) started_at ∷ []))
        (elim (Bool-cases (is_blank g)) [ inl e ↦ rw e (omega arith) | inr e ↦ rw e (omega arith) ])

  begun_free :
      (r : Request) (started_at : Time) (calls : List ToolCall)
      → count_under id (calls ++ new_call (with_grant [] r) started_at ∷ [])
        ≤ count_under id calls + 0
  unfolding count_under trim_space trim_left trim_right
  begun_free r started_at calls =
      omega (arith, count_under-append calls (new_call (with_grant [] r) started_at ∷ []))

  Begins-Spent :
      (s : Surroundings) (b : Broker) (r r' : Request) (w w' : World)
      → Begins s b r w r' w'
      → Spent w w'
  Begins-Spent s b r r' w w'
        (entry, timeout, a, v, f, t, k, risk, unused, inl (rule, named, same, new)) =
      rw (new, same) (0, Progress-refl (find_grant id w.grants), begun_free r s.started_at w.calls)
  Begins-Spent s b r r' w w'
        (
          entry,
          timeout,
          a,
          v,
          f,
          t,
          k,
          risk,
          unused,
          inr (rule, (g, gs, named, consumed, same, new)),
        ) =
      rw (new, same)
        (
          (if text_eq g id then 1 else 0),
          Consumed-Progress id _ _ _ _ _ w.grants gs consumed,
          begun_under r g s.started_at w.calls,
        )

  moved-Spent : (b : Broker) (w w' : World) → Move b w w' → Spent w w'
  moved-Spent b w w' (stays e) = rw e (Spent-refl w)
  moved-Spent b w w' (begins s r r' h) = Begins-Spent s b r r' w w' h
  moved-Spent b w w' (updates p state payload now ends e) = rw e (
    0,
    Progress-refl (find_grant id w.grants),
    omega (arith, count_under-update_rows p (ended state payload now) w.calls (λ c. refl)),
  )
  moved-Spent b w w' (grants_move op e) =
      rw e (_, run_op-Progress id op w.grants (run_op op w.grants) refl, omega arith)
  moved-Spent b w w' (plans_move plans e) = rw e (Spent-refl w)

  run_steps-Spent : (b : Broker) (xs : List Step) (w : World) → Spent w (run_steps b xs w)
  unfolding run_steps
  run_steps-Spent b [] w = Spent-refl w
  run_steps-Spent b (x ∷ xs) w =
      Spent-trans w (run_step b x w) (run_steps b xs (run_step b x w))
        (moved-Spent b w (run_step b x w) (run_step-Move b x w))
        (run_steps-Spent b xs (run_step b x w))

-- Over every history of calls that begin, end and are cancelled, of other authorisations and
-- revocations of grants and of changes of the plans, no more calls begin under a grant than it has
-- uses left.
pub run_steps-limited :
    (id : Text) (b : Broker) (xs : List Step) (w : World)
    → calls_used (find_grant id w.grants) ≤ calls_max (find_grant id w.grants)
    → count_under id (run_steps b xs w).calls + calls_used (find_grant id w.grants)
      ≤ count_under id w.calls + calls_max (find_grant id w.grants)
run_steps-limited id b xs w h =
    let (n, (used, max, low, revoked), l) = run_steps-Spent id b xs w in
    omega (arith, used, max, low h, l)
