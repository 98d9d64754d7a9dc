-- ===== src/Kernel/Stance.antt =====
-- The permission stance that a session is given (internal/kernel/model.go).
use auto_ze_agent.Common.{
  Bool, Text, codes, false, if◌then◌else◌, inl, inr, is_nil, refl, text_eq, to_lower, trim_space,
  true, ◌||◌, ◌≡◌, ◌⊎◌,
}
use auto_ze_agent.Kernel.Base.{invalid_aggregate, ok, err}
use auto_ze_agent.Kernel.Session.{choose_stance, normalize_permission_stance}

abbrev pub IsStance : Text → Type 0
IsStance w = (w ≡ codes "agent") ⊎ ((w ≡ codes "auto") ⊎ (w ≡ codes "plan"))

-- The tests stand as variables, so that no literal is computed with.
pick-IsStance :
    (a b c : Bool) (w : Text)
    → (if a
        then ok (codes "agent")
        else if b
        then ok (codes "auto")
        else if c
        then ok (codes "plan")
        else err invalid_aggregate)
      ≡ ok w
    → IsStance w
pick-IsStance true b c w h = inl (cc)
pick-IsStance false true c w h = inr (inl (cc))
pick-IsStance false false true w h = inr (inr (cc))
pick-IsStance false false false w h = absurd (cc)

choose_stance-IsStance : (v w : Text) → choose_stance v ≡ ok w → IsStance w
choose_stance-IsStance v w h =
    pick-IsStance (is_nil v || text_eq v (codes "agent")) (text_eq v (codes "auto"))
      (text_eq v (codes "plan")) w (unfold choose_stance in h)

agent_fixed : normalize_permission_stance (codes "agent") ≡ ok (codes "agent")
unfolding normalize_permission_stance
agent_fixed = refl

auto_fixed : normalize_permission_stance (codes "auto") ≡ ok (codes "auto")
unfolding normalize_permission_stance
auto_fixed = refl

plan_fixed : normalize_permission_stance (codes "plan") ≡ ok (codes "plan")
unfolding normalize_permission_stance
plan_fixed = refl

-- A permission stance that the normaliser accepts is agent, auto or plan, and is a fixed point.
pub normalize_permission_stance_idem :
    (v : Text) {w : Text}
    → normalize_permission_stance v ≡ ok w
    → IsStance w × (normalize_permission_stance w ≡ ok w)
unfolding normalize_permission_stance
normalize_permission_stance_idem v {w} h =
    let s = choose_stance-IsStance (to_lower (trim_space v)) w h in (s, fixed w s)
  where
    fixed : (w : Text) → IsStance w → normalize_permission_stance w ≡ ok w
    fixed w (inl e) = rw e agent_fixed
    fixed w (inr (inl e)) = rw e auto_fixed
    fixed w (inr (inr e)) = rw e plan_fixed
