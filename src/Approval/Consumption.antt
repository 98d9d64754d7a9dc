-- ===== src/Approval/Consumption.antt =====
-- What an authorisation takes and leaves (internal/approval/grant.go).
use auto_ze_agent.Common.{
  Bool, Bool-cases, List, Option, Text, [], ap, arith, false, if◌then◌else◌, inl, inr, is_blank,
  none, refl, some, text_eq, text_eq_iff, text_eq_refl, true, ◌<◌, ◌==◌, ◌∙◌, ◌∷◌, ◌≡◌, ◌≢◌,
}
use auto_ze_agent.Kernel.Base.{Time, normalized_time}
use auto_ze_agent.Kernel.Task.{task_state_text, running}
use auto_ze_agent.Approval.Match.{Grant, GrantRequest, grant_matches_request}
use auto_ze_agent.Approval.Grant.{
  GrantError, committed, find_grant, update_where, load_grant, consumable, consume, check_plan,
  consume_checked, authorize_loaded, authorize_and_consume, is_active,
}

-- What an update makes of one row.
abbrev pub updated : (Grant → Bool) → (Grant → Grant) → Option Grant → Option Grant
updated p f none = none
updated p f (some g) = some (if p g then f g else g)

pub find_grant-update_where :
    (id : Text) (p : Grant → Bool) (f : Grant → Grant) (gs : List Grant)
    → ((g : Grant) → (f g).id ≡ g.id)
    → find_grant id (update_where p f gs).0 ≡ updated p f (find_grant id gs)
unfolding find_grant update_where
find_grant-update_where id p f [] keeps = refl
find_grant-update_where id p f (g ∷ gs) keeps =
    let rest = find_grant-update_where id p f gs keeps in
    elim (Bool-cases (p g)) [
      | inl e ↦
          let k = ap (λ i. text_eq i id) (keeps g) in
          elim (Bool-cases (text_eq g.id id)) [
            | inl h ↦ rw (e, k, h, e) refl
            | inr h ↦ rw (e, k, h) rest
          ]
      | inr e ↦ elim (Bool-cases (text_eq g.id id)) [
        | inl h ↦ rw (e, h, e) refl
        | inr h ↦ rw (e, h) rest
      ]
    ]

pub find_grant_id :
    (id : Text) (gs : List Grant) (g : Grant) → find_grant id gs ≡ some g → g.id ≡ id
unfolding find_grant
find_grant_id id [] g h = absurd (cc)
find_grant_id id (x ∷ gs) g h = elim (Bool-cases (text_eq x.id id)) [
  | inl e ↦ ground (arith, e, text_eq_iff x.id id)
  | inr e ↦ find_grant_id id gs g (ground (arith, e))
]

pub load_grant_sound :
    (id : Text) (gs : List Grant) (g : Grant)
    → load_grant id gs ≡ some g
    → find_grant id gs ≡ some g
unfolding load_grant
load_grant_sound id gs g h = elim (Bool-cases (is_blank id)) [
  | inl e ↦ absurd (ground (arith, e))
  | inr e ↦ ground (arith, e)
]

-- The conditions under which a grant is used.
abbrev pub Permits :
    (Text → Text → Bool)
    → (Text → Text)
    → (Text → Option (Text × Text))
    → Time
    → GrantRequest
    → Grant
    → Type 0
Permits contains lower plans now request g =
    (is_active g ≡ true)
    × (now < g.expires_at)
    × (g.used_calls < g.scope.max_calls)
    × (grant_matches_request contains lower g request ≡ true)
    × (plans g.plan_id ≡ some (g.plan_hash, task_state_text running))

check_plan_sound :
    (r : Option (Text × Text)) (g : Grant)
    → check_plan r g ≡ none
    → r ≡ some (g.plan_hash, task_state_text running)
unfolding check_plan
check_plan_sound none g h = absurd (cc)
check_plan_sound (some (hash, state)) g h = elim (Bool-cases (text_eq hash g.plan_hash)) [
  | inl e ↦ elim (Bool-cases (text_eq state (task_state_text running))) [
    | inl f ↦
        rw ((text_eq_iff hash g.plan_hash).0 e, (text_eq_iff state (task_state_text running)).0 f)
          refl
    | inr f ↦ absurd (ground (arith, e, f))
  ]
  | inr e ↦ absurd (ground (arith, e))
]

-- What a committed authorisation found, and the table that it leaves.
abbrev pub Consumed :
    (Text → Text → Bool)
    → (Text → Text)
    → (Text → Option (Text × Text))
    → Time
    → GrantRequest
    → List Grant
    → List Grant
    → Type 0
Consumed contains lower plans now request before after =
    (g : Grant) × (find_grant request.grant_id before ≡ some g)
    × Permits contains lower plans now request g
    × (after ≡ (update_where (consumable g) consume before).0)

consume_checked_sound :
    (c : Option GrantError) (g : Grant) (before after : List Grant)
    → consume_checked c g before ≡ committed after
    → (c ≡ none) × (after ≡ (update_where (consumable g) consume before).0)
unfolding consume_checked
consume_checked_sound (some e) g before after h = absurd (cc)
consume_checked_sound none g before after h =
    elim (Bool-cases ((update_where (consumable g) consume before).1 == 1)) [
      | inl e ↦ (refl, ground (arith, e))
      | inr e ↦ absurd (ground (arith, e))
    ]

module _ (contains : Text → Text → Bool) (lower : Text → Text)
    (plans : Text → Option (Text × Text)) where
  guards :
      (now : Time) (request : GrantRequest) (g : Grant) (before after : List Grant)
      → authorize_loaded contains lower plans now request (some g) before ≡ committed after
      → (is_active g ≡ true)
        × (now < g.expires_at)
        × (g.used_calls < g.scope.max_calls)
        × (grant_matches_request contains lower g request ≡ true)
        × (consume_checked (check_plan (plans g.plan_id) g) g before ≡ committed after)
  unfolding authorize_loaded
  guards now request g before after h =
      (ground arith, ground arith, ground arith, ground arith, ground arith)

  authorize_loaded_sound :
      (now : Time) (request : GrantRequest) (found : Option Grant) (before after : List Grant)
      → authorize_loaded contains lower plans now request found before ≡ committed after
      → (g : Grant) × (found ≡ some g)
        × Permits contains lower plans now request g
        × (after ≡ (update_where (consumable g) consume before).0)
  unfolding authorize_loaded
  authorize_loaded_sound now request none before after h = absurd (cc)
  authorize_loaded_sound now request (some g) before after h =
      let (active, unexpired, left, match, rest) = guards now request g before after h in
      let (checked, new) = consume_checked_sound _ g before after rest in
      (g, refl, (active, unexpired, left, match, check_plan_sound (plans g.plan_id) g checked), new)

  -- An authorisation that commits found the grant of the request, unrevoked, unexpired, with calls
  -- left, matching the request, for the current hash of its plan and a running task; the table it
  -- leaves counts the call on that grant.
  pub authorize_and_consume_sound :
      (clock : Time) (request : GrantRequest) (before after : List Grant)
      → authorize_and_consume contains lower plans clock request before ≡ committed after
      → Consumed contains lower plans (normalized_time clock request.now) request before after
  unfolding authorize_and_consume
  authorize_and_consume_sound clock request before after h =
      let now = normalized_time clock request.now in
      let found = load_grant request.grant_id before in
      let (g, loaded, permits, new) = authorize_loaded_sound now request found before after h in
      (g, load_grant_sound request.grant_id before g loaded, permits, new)

pub consumable_self :
    (g : Grant) → g.used_calls < g.scope.max_calls → is_active g ≡ true → consumable g g ≡ true
unfolding consumable
consumable_self g l a = rw (text_eq_refl g.id) (ground (arith, l, a))

pub not_consumable : (g x : Grant) → g.id ≢ x.id → consumable g x ≡ false
unfolding consumable
not_consumable g x n = ground (arith, text_eq_iff x.id g.id)

-- The update of a consumption, seen at a grant.
pub find_grant-consume :
    (id : Text) (g : Grant) (gs : List Grant)
    → find_grant id gs ≡ some g
    → g.used_calls < g.scope.max_calls
    → is_active g ≡ true
    → find_grant id (update_where (consumable g) consume gs).0 ≡ some (consume g)
find_grant-consume id g gs h l a =
    rw (find_grant-update_where id (consumable g) consume gs (λ x. refl), h, consumable_self g l a)
      refl

pub find_grant-consume_other :
    (id : Text) (g : Grant) (gs : List Grant)
    → g.id ≢ id
    → find_grant id (update_where (consumable g) consume gs).0 ≡ find_grant id gs
find_grant-consume_other id g gs n =
    find_grant-update_where id (consumable g) consume gs (λ x. refl)
    ∙ unchanged (find_grant id gs) refl
  where
    unchanged :
        (found : Option Grant)
        → find_grant id gs ≡ found
        → updated (consumable g) consume found ≡ found
    unchanged none h = refl
    unchanged (some x) h = rw (not_consumable g x (λ e. n (e ∙ find_grant_id id gs x h))) refl
