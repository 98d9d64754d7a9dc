-- ===== src/Approval/Usable.antt =====
-- A grant from its issue to its first use (internal/approval/grant.go).
use auto_ze_agent.Common.{
  Bool, Bool-cases, List, Option, Text, [], arith, find_row, inl, inr, is_blank, is_some, keep_if,
  length, refl, some, subst, sym, text_eq, text_eq_iff, text_eq_refl, true, false, ap, ◌++◌, ◌∷◌,
  ◌≡◌, ◌<◌, ◌≤◌, ◌∙◌,
}
use auto_ze_agent.Kernel.Base.{Time, normalized_time}
use auto_ze_agent.Kernel.Task.{running, task_state_text}
use auto_ze_agent.Approval.Match.{CapabilityScope, Grant, GrantRequest, grant_matches_request}
use auto_ze_agent.Approval.Consumption.{Permits}
use auto_ze_agent.Approval.Grant.{is_active, authorize_and_consume, committed, find_grant}
use auto_ze_agent.Approval.Commits.{IsKey, authorize_and_consume_iff}
use auto_ze_agent.Approval.Capabilities.{normalize_capability-IsBounded}
use auto_ze_agent.Approval.Document.{PlanDocument}
use auto_ze_agent.Approval.Records.{Tables, issued}
use auto_ze_agent.Approval.Issue.{GrantInput, issue_grant}
use auto_ze_agent.Approval.Sanction.{issue_grant-IsSanctioned}

IsKey-append :
    (id : Text) (g : Grant) (gs : List Grant)
    → g.id ≡ id
    → is_some (find_row Grant.id id gs) ≡ false
    → (length (keep_if (λ (x : Grant). text_eq x.id id) (gs ++ g ∷ [])) ≡ 1)
      × (find_grant id (gs ++ g ∷ []) ≡ some g)
unfolding find_row find_grant
IsKey-append id g [] e h = (rw (e, text_eq_refl id) refl, rw ((text_eq_iff g.id id).1 e) refl)
IsKey-append id g (x ∷ gs) e h = elim (Bool-cases (text_eq x.id id)) [
  | inl k ↦ absurd (ground (arith, k, h))
  | inr k ↦
      let (one, found) = IsKey-append id g gs e (ground (arith, k, h)) in (rw k one, rw k found)
]

-- A call on the grant that was put behind the others.
authorize_appended :
    (contains : Text → Text → Bool) (lower : Text → Text) (plans : Text → Option (Text × Text))
    (clock : Time) (request : GrantRequest) (g : Grant) (gs new : List Grant)
    → new ≡ gs ++ g ∷ []
    → request.grant_id ≡ g.id
    → is_some (find_row Grant.id request.grant_id gs) ≡ false
    → is_blank request.grant_id ≡ false
    → Permits contains lower plans (normalized_time clock request.now) request g
    → (after : List Grant) × (authorize_and_consume contains lower plans clock request new
        ≡ committed after)
authorize_appended contains lower plans clock request g gs new e i fresh named permits =
    let (one, found) = IsKey-append request.grant_id g gs (sym i) fresh in
    let key : IsKey request.grant_id (gs ++ g ∷ []) = omega (arith, one) in
    (authorize_and_consume_iff contains lower plans clock request new
        (subst (λ l. IsKey request.grant_id l) (sym e) key)).1
      (named, (g, subst (λ l. find_grant request.grant_id l ≡ some g) (sym e) found, permits))

module _ (clean low : Text → Text) (encode : CapabilityScope → Text) (hash : PlanDocument → Text)
    (known_step : Text → Bool) (appends : Grant → Bool) where
  issue_grant-named :
      (clock : Time) (input : GrantInput) (db db' : Tables) (g : Grant)
      → issue_grant clean low encode hash known_step appends clock input db ≡ issued db' g
      → is_blank input.id ≡ false
  unfolding issue_grant
  issue_grant-named clock input db db' g h = elim (Bool-cases (is_blank input.id)) [
    | inl e ↦ absurd (ground (arith, e, h))
    | inr e ↦ e
  ]

  -- A grant that has just been issued authorises a call, at a time before its expiry, that it matches
  -- while its plan has the hash that was approved and the task runs.
  pub issue_grant-authorize_and_consume :
      (clock clock' : Time) (input : GrantInput) (db db' : Tables) (g : Grant)
      (request : GrantRequest) (contains : Text → Text → Bool) (lower : Text → Text)
      (plans : Text → Option (Text × Text))
      → issue_grant clean low encode hash known_step appends clock input db ≡ issued db' g
      → request.grant_id ≡ g.id
      → normalized_time clock' request.now < g.expires_at
      → grant_matches_request contains lower g request ≡ true
      → plans g.plan_id ≡ some (g.plan_hash, task_state_text running)
      → (after : List Grant) × (authorize_and_consume contains lower plans clock' request db'.grants
          ≡ committed after)
  issue_grant-authorize_and_consume clock clock' input db db' g request contains lower plans h i
        live matches plan =
      let (p, s, n, c, ok, m, new) =
        issue_grant-IsSanctioned clean low encode hash known_step appends clock input db db' g h in
      let (has, before, current, approved, fresh) = ok in
      let id : request.grant_id ≡ input.id = i ∙ ap Grant.id m in
      let bounded = (normalize_capability-IsBounded clean low input.scope s c).0 in
      let left : 1 ≤ s.max_calls = bounded.2 in
      authorize_appended contains lower plans clock' request g db.grants db'.grants
        (ap Tables.grants new) i
        (subst (λ j. is_some (find_row Grant.id j db.grants) ≡ false) (sym id) fresh)
        (subst (λ j. is_blank j ≡ false) (sym id) (issue_grant-named clock input db db' g h))
        (
          ap (λ (x : Grant). is_active x) m,
          live,
          subst (λ (x : Grant). x.used_calls < x.scope.max_calls) (sym m) (omega (arith, left)),
          matches,
          plan,
        )
